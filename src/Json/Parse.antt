-- ===== src/Json/Parse.antt =====
-- The recursive descent of xiaobaios/apps/pkg_cjson_min.c. `limit` is CJSON_NESTING_LIMIT, from a header
-- that is not part of the repository, and `depth` is that of the reader; every return sets it back. Each
-- call costs a unit of fuel.
use xiaobai_os.Base.{
  ℕ, zero, suc, ◌+◌, ◌*◌, Bool, true, false, not, ◌&&◌, ◌||◌, ◌==◌, leb, if◌then◌else◌, [], ◌∷◌,
  Bytes, codes, length, drop,
}
use xiaobai_os.Json.Value.{
  Value, Items, Fields, null_value, boolean, number, string, array, object, no_items, item,
  no_fields, field,
}
use xiaobai_os.Json.Result.{Result, ok, failed, out_of_fuel, ◌>>=◌}
use xiaobai_os.Json.Text.{skip_ws, parse_string}
use xiaobai_os.Json.Number.{is_digit, parse_number}

-- The character at the position, and not the end.
unfoldable pub stands : ℕ → Bytes → Bool
stands ch [] = false
stands ch (c ∷ s) = c == ch

unfoldable pub after : Bytes → Bytes
after [] = []
after (c ∷ s) = s

-- Enough text is left, and it begins with the word.
unfoldable pub begins_with : Bytes → Bytes → Bool
begins_with [] s = true
begins_with (d ∷ word) [] = false
begins_with (d ∷ word) (c ∷ s) = c == d && begins_with word s

-- The words, and the numbers; `s` is not empty.
unfoldable pub parse_scalar : Bytes → Result (Value × Bytes)
unfolding begins_with
parse_scalar [] = failed []
parse_scalar (c ∷ s) =
    if begins_with (codes "true") (c ∷ s)
    then ok (boolean true, drop 4 (c ∷ s))
    else if begins_with (codes "false") (c ∷ s)
    then ok (boolean false, drop 5 (c ∷ s))
    else if begins_with (codes "null") (c ∷ s)
    then ok (null_value, drop 4 (c ∷ s))
    else if c == b'-' || is_digit c
    then (parse_number (c ∷ s) >>= λ (n, r). ok (number n, r))
    else failed (c ∷ s)

-- The key of an object's child with the colon behind it, and the text after that.
unfoldable pub parse_key : Bytes → Result (Bytes × Bytes)
unfolding stands after
parse_key s = parse_string (skip_ws s) >>= λ (key, r).
    if stands b':' (skip_ws r) then ok (key, after (skip_ws r)) else failed (skip_ws r)

-- What may stand behind the value: nothing, or, where it is not required that the text ends, a NUL.
unfoldable pub finish : Bool → Value → Bytes → Result (Value × Bytes)
finish required v [] = ok (v, [])
finish required v (c ∷ s) = if required || not (c == 0) then failed (c ∷ s) else ok (v, c ∷ s)

module _ (limit : ℕ) where
  unfoldable mutual
    pub parse_value : ℕ → ℕ → Bytes → Result (Value × Bytes)
    parse_value zero depth s = out_of_fuel
    parse_value (suc f) depth s =
        let t = skip_ws s in
        let as_object =
          if leb limit depth
          then failed t
          else if stands b'}' (skip_ws (after t))
          then ok (object no_fields, after (skip_ws (after t)))
          else (parse_fields f (depth + 1) (skip_ws (after t)) >>= λ (fs, r). ok (object fs, r)) in
        let as_array =
          if leb limit depth
          then failed t
          else if stands b']' (skip_ws (after t))
          then ok (array no_items, after (skip_ws (after t)))
          else (parse_items f (depth + 1) (skip_ws (after t)) >>= λ (xs, r). ok (array xs, r)) in
        if stands b'{' t
        then as_object
        else if stands b'[' t
        then as_array
        else if stands b'"' t
        then (parse_string t >>= λ (text, r). ok (string text, r))
        else parse_scalar t

    -- The loop of pkg_json_parse_array: a child, and the children behind a comma.
    pub parse_items : ℕ → ℕ → Bytes → Result (Items × Bytes)
    parse_items zero depth s = out_of_fuel
    parse_items (suc f) depth [] = failed []
    parse_items (suc f) depth (c ∷ s) = parse_value f depth (skip_ws (c ∷ s)) >>= λ (v, r).
        let more = (parse_items f depth (after (skip_ws r)) >>= λ (xs, r'). ok (item v xs, r')) in
        if stands b',' (skip_ws r)
        then more
        else if stands b']' (skip_ws r)
        then ok (item v no_items, after (skip_ws r))
        else failed (skip_ws r)

    -- The loop of pkg_json_parse_object.
    pub parse_fields : ℕ → ℕ → Bytes → Result (Fields × Bytes)
    parse_fields zero depth s = out_of_fuel
    parse_fields (suc f) depth [] = failed []
    parse_fields (suc f) depth (c ∷ s) = parse_key (c ∷ s) >>= λ (key, t).
        parse_value f depth (skip_ws t) >>= λ (v, r).
        let more =
          (parse_fields f depth (after (skip_ws r)) >>= λ (fs, r'). ok (field key v fs, r')) in
        if stands b',' (skip_ws r)
        then more
        else if stands b'}' (skip_ws r)
        then ok (field key v no_fields, after (skip_ws r))
        else failed (skip_ws r)

  -- cJSON_ParseWithLengthOpts on a text that is not null: the item and `*return_parse_end`. A failure's
  -- text starts at what cJSON_GetErrorPtr returns.
  unfoldable pub parse_with_length : Bool → Bytes → Result (Value × Bytes)
  unfolding finish
  parse_with_length required value =
      parse_value (2 * length value + 1) 0 value >>= λ (v, r). finish required v (skip_ws r)
