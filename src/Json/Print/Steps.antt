-- ===== src/Json/Print/Steps.antt =====
-- One step of the reader on printed text: what it does at each kind of value.
use xiaobai_os.Base.{
  ℕ, suc, ◌+◌, ◌<◌, ◌≡◌, refl, arith, true, false, [], ◌∷◌, ◌++◌, append_assoc, Bytes, codes,
}
use xiaobai_os.Json.Result.{ok}
use xiaobai_os.Json.Value.{
  Value, Items, Fields, null_value, boolean, string, array, object, no_items, item, no_fields,
  field,
}
use xiaobai_os.Json.Text.{skip_ws}
use xiaobai_os.Json.Parse.{
  stands, after, parse_scalar, parse_key, parse_value, parse_items, parse_fields,
}
use xiaobai_os.Json.Print.{quoted, print, print_items, print_fields, Readable}
use xiaobai_os.Json.Print.Strings.{parse_string-quoted}
use xiaobai_os.Json.Print.Heads.{skip_ws-print, stands-print}

module _ (limit : ℕ) where
  pub array_step :
      (f depth : ℕ) (s r : Bytes) (xs : Items)
      → depth < limit
      → skip_ws s ≡ s
      → stands b']' s ≡ false
      → parse_items limit f (depth + 1) s ≡ ok (xs, r)
      → parse_value limit (suc f) depth (b'[' ∷ s) ≡ ok (array xs, r)
  unfolding parse_value stands skip_ws after
  array_step f depth s r xs h e n i = ground arith

  pub object_step :
      (f depth : ℕ) (s r : Bytes) (fs : Fields)
      → depth < limit
      → skip_ws s ≡ s
      → stands b'}' s ≡ false
      → parse_fields limit f (depth + 1) s ≡ ok (fs, r)
      → parse_value limit (suc f) depth (b'{' ∷ s) ≡ ok (object fs, r)
  unfolding parse_value stands skip_ws after
  object_step f depth s r fs h e n i = ground arith

  -- The last child, and one with more behind its comma. The text `s` begins with a value.
  pub item_last :
      (f depth c : ℕ) (s rest : Bytes) (v : Value)
      → skip_ws (c ∷ s) ≡ c ∷ s
      → parse_value limit f depth (c ∷ s) ≡ ok (v, b']' ∷ rest)
      → parse_items limit (suc f) depth (c ∷ s) ≡ ok (item v no_items, rest)
  unfolding parse_value stands skip_ws after
  item_last f depth c s rest v e i = rw (e, i) refl

  pub item_more :
      (f depth c : ℕ) (s t rest : Bytes) (v : Value) (xs : Items)
      → skip_ws (c ∷ s) ≡ c ∷ s
      → parse_value limit f depth (c ∷ s) ≡ ok (v, b',' ∷ t)
      → parse_items limit f depth t ≡ ok (xs, rest)
      → parse_items limit (suc f) depth (c ∷ s) ≡ ok (item v xs, rest)
  unfolding parse_value stands skip_ws after
  item_more f depth c s t rest v xs e i j = rw (e, i, j) refl

  pub field_last :
      (f depth c : ℕ) (s t rest key : Bytes) (v : Value)
      → parse_key (c ∷ s) ≡ ok (key, t)
      → skip_ws t ≡ t
      → parse_value limit f depth t ≡ ok (v, b'}' ∷ rest)
      → parse_fields limit (suc f) depth (c ∷ s) ≡ ok (field key v no_fields, rest)
  unfolding parse_value stands skip_ws after
  field_last f depth c s t rest key v k e i = rw (k, e, i) refl

  pub field_more :
      (f depth c : ℕ) (s t u rest key : Bytes) (v : Value) (fs : Fields)
      → parse_key (c ∷ s) ≡ ok (key, t)
      → skip_ws t ≡ t
      → parse_value limit f depth t ≡ ok (v, b',' ∷ u)
      → parse_fields limit f depth u ≡ ok (fs, rest)
      → parse_fields limit (suc f) depth (c ∷ s) ≡ ok (field key v fs, rest)
  unfolding parse_value stands skip_ws after
  field_more f depth c s t u rest key v fs k e i j = rw (k, e, i, j) refl

pub parse_key-quoted : (key rest : Bytes) → parse_key (quoted key ++ (b':' ∷ rest)) ≡ ok (key, rest)
unfolding parse_key stands after skip_ws
parse_key-quoted key rest = rw (parse_string-quoted key (b':' ∷ rest)) refl

pub parse_value-quoted :
    (limit f depth : ℕ) (s rest : Bytes)
    → parse_value limit (suc f) depth (quoted s ++ rest) ≡ ok (string s, rest)
unfolding parse_value stands skip_ws
parse_value-quoted limit f depth s rest = rw (parse_string-quoted s rest) refl

pub empty_array :
    (limit f depth : ℕ) (rest : Bytes)
    → depth < limit
    → parse_value limit (suc f) depth (b'[' ∷ b']' ∷ rest) ≡ ok (array no_items, rest)
unfolding parse_value stands skip_ws after
empty_array limit f depth rest h = ground arith

pub empty_object :
    (limit f depth : ℕ) (rest : Bytes)
    → depth < limit
    → parse_value limit (suc f) depth (b'{' ∷ b'}' ∷ rest) ≡ ok (object no_fields, rest)
unfolding parse_value stands skip_ws after
empty_object limit f depth rest h = ground arith

-- The children's text begins with the first one.
items_head :
    (v : Value) (xs : Items) (rest : Bytes)
    → (t : Bytes) × (print_items (item v xs) ++ rest ≡ print v ++ t)
unfolding print
items_head v no_items rest = (_, append_assoc (print v) (b']' ∷ []) rest)
items_head v (item w xs) rest = (_, append_assoc (print v) (b',' ∷ print_items (item w xs)) rest)

pub skip_ws-items :
    (room : ℕ) (v : Value) (xs : Items) (rest : Bytes)
    → Readable room v
    → skip_ws (print_items (item v xs) ++ rest) ≡ print_items (item v xs) ++ rest
skip_ws-items room v xs rest h =
    let (t, e) = items_head v xs rest in rw e (skip_ws-print room v t h)

pub stands-items :
    (room : ℕ) (v : Value) (xs : Items) (rest : Bytes)
    → Readable room v
    → stands b']' (print_items (item v xs) ++ rest) ≡ false
stands-items room v xs rest h =
    let (t, e) = items_head v xs rest in rw e (stands-print b']' room v t h refl)

fields_head :
    (key : Bytes) (v : Value) (fs : Fields) (rest : Bytes)
    → (t : Bytes) × (print_fields (field key v fs) ++ rest ≡ b'"' ∷ t)
unfolding print
fields_head key v no_fields rest = (_, refl)
fields_head key v (field l w fs) rest = (_, refl)

pub word_reads :
    (limit f depth : ℕ) (rest : Bytes)
    → (parse_value limit (suc f) depth (codes "null" ++ rest) ≡ ok (null_value, rest))
      × (parse_value limit (suc f) depth (codes "true" ++ rest) ≡ ok (boolean true, rest))
      × (parse_value limit (suc f) depth (codes "false" ++ rest) ≡ ok (boolean false, rest))
unfolding parse_value stands skip_ws parse_scalar
word_reads limit f depth rest = (refl, refl, refl)

pub skip_ws-fields :
    (key : Bytes) (v : Value) (fs : Fields) (rest : Bytes)
    → skip_ws (print_fields (field key v fs) ++ rest) ≡ print_fields (field key v fs) ++ rest
unfolding skip_ws
skip_ws-fields key v fs rest = let (t, e) = fields_head key v fs rest in rw e refl

pub stands-fields :
    (key : Bytes) (v : Value) (fs : Fields) (rest : Bytes)
    → stands b'}' (print_fields (field key v fs) ++ rest) ≡ false
unfolding stands
stands-fields key v fs rest = let (t, e) = fields_head key v fs rest in rw e refl
