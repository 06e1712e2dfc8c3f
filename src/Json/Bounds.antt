-- ===== src/Json/Bounds.antt =====
-- The reader of xiaobaios/apps/pkg_cjson_min.c ends, nests no deeper than its limit, and writes no string
-- past its buffer.
pub mod Strings
pub mod Numbers
use xiaobai_os.Base.{
  ℕ, zero, suc, ◌+◌, ◌*◌, ◌-◌, ◌≤◌, ◌<◌, ◌≡◌, ◌≢◌, refl, arith, Bool, true, false, not, ◌||◌, ◌&&◌,
  ◌==◌, leb, if◌then◌else◌, Bool-cases, inl, inr, some, none, [], ◌∷◌, Bytes, codes, drop, length,
  length-drop,
}
use Prim.Native.Nat.{max}
use xiaobai_os.Json.Result.{
  Result, ok, failed, out_of_fuel, ◌>>=◌, Ensures, Ensures-bind, Ensures-if, Ensures-imp,
  Ensures-ok, Ensures-out_of_fuel,
}
use xiaobai_os.Json.Value.{
  Value, Items, Fields, null_value, boolean, number, string, raw, array, object, no_items, item,
  no_fields, field,
}
use xiaobai_os.Json.Text.{skip_ws, parse_string}
use xiaobai_os.Json.Number.{is_digit, parse_number}
use xiaobai_os.Json.Parse.{
  stands, after, begins_with, parse_scalar, parse_key, parse_value, parse_items, parse_fields,
  finish, parse_with_length,
}
use xiaobai_os.Json.Bounds.Strings.{parse_string-Ensures, length-skip_ws}
use xiaobai_os.Json.Bounds.Numbers.{parse_number-Ensures}

-- How deep the brackets of a value are nested.
unfoldable mutual
  pub nesting : Value → ℕ
  nesting null_value = 0
  nesting (boolean b) = 0
  nesting (number n) = 0
  nesting (string s) = 0
  nesting (raw s) = 0
  nesting (array xs) = suc (nesting_items xs)
  nesting (object fs) = suc (nesting_fields fs)

  pub nesting_items : Items → ℕ
  nesting_items no_items = 0
  nesting_items (item v xs) = max (nesting v) (nesting_items xs)

  pub nesting_fields : Fields → ℕ
  nesting_fields no_fields = 0
  nesting_fields (field key v fs) = max (nesting v) (nesting_fields fs)

length-after : (x : ℕ) (s : Bytes) → stands x s ≡ true → suc (length (after s)) ≡ length s
unfolding stands after
length-after x [] h = cc
length-after x (c ∷ s) h = refl

length-after_le : (s : Bytes) → length (after s) ≤ length s
unfolding after
length-after_le [] = omega arith
length-after_le (c ∷ s) = omega arith

-- What a function may leave: no more text than `n`, and a value of at most `room` brackets.
abbrev Leaves {ℓ} : {A : Type ℓ} → (A → ℕ) → ℕ → ℕ → A × Bytes → Type 0
Leaves depth_of n room (a, r) = (length r ≤ n) × (depth_of a ≤ room)

parse_key-Ensures : (s : Bytes) → Ensures (λ (k, r). length r ≤ length s) (parse_key s)
unfolding parse_key
parse_key-Ensures s =
    Ensures-bind (λ (k, r). length r ≤ length (skip_ws s)) _ (parse_string (skip_ws s)) _
      (parse_string-Ensures (skip_ws s))
      (λ (k, r) le.
        Ensures-if _ (stands b':' (skip_ws r)) _ _
          (λ e. omega (arith, length-after_le (skip_ws r), length-skip_ws r, length-skip_ws s))
          (λ e. tt))

-- A word that is read, or else what the rest does.
word-Ensures :
    (room n : ℕ) (s : Bytes) (b : Bool) (v : Value) (rest : Result (Value × Bytes))
    → nesting v ≤ room
    → (b ≡ false → Ensures (Leaves nesting (length s) room) rest)
    → Ensures (Leaves nesting (length s) room) (if b then ok (v, drop n s) else rest)
word-Ensures room n s b v rest le h =
    let word = length-drop n s in
    Ensures-if (Leaves nesting (length s) room) b (ok (v, drop n s)) rest (λ e. (omega arith, le)) h

parse_scalar-Ensures :
    (room : ℕ) (s : Bytes) → Ensures (Leaves nesting (length s) room) (parse_scalar s)
unfolding parse_scalar nesting
parse_scalar-Ensures room [] = tt
parse_scalar-Ensures room (c ∷ s) =
    let L = Leaves nesting (length (c ∷ s)) room in
    let at = λ (w : Bytes). begins_with w (c ∷ s) in
    let as_number =
      if c == b'-' || is_digit c
      then (parse_number (c ∷ s) >>= λ (n, r). ok (number n, r))
      else failed (c ∷ s) in
    let as_null = if at (codes "null") then ok (null_value, drop 4 (c ∷ s)) else as_number in
    let as_false = if at (codes "false") then ok (boolean false, drop 5 (c ∷ s)) else as_null in
    word-Ensures room 4 (c ∷ s) (at (codes "true")) (boolean true) as_false (omega arith) (λ e.
      word-Ensures room 5 (c ∷ s) (at (codes "false")) (boolean false) as_null (omega arith) (λ e'.
        word-Ensures room 4 (c ∷ s) (at (codes "null")) null_value as_number (omega arith) (λ e''.
          Ensures-if L (c == b'-' || is_digit c)
            (parse_number (c ∷ s) >>= λ (n, r). ok (number n, r)) (failed (c ∷ s))
            (λ q.
              Ensures-bind (λ (n, r). length r ≤ length (c ∷ s)) L (parse_number (c ∷ s))
                (λ (n, r). ok (number n, r)) (parse_number-Ensures (c ∷ s))
                (λ (n, r) le. (le, omega arith)))
            (λ q. tt))))

mutual
  unfolding parse_value nesting

  parse_value-Leaves :
      (limit f depth : ℕ) (s : Bytes)
      → 2 * length s < f
      → depth ≤ limit
      → Ensures (Leaves nesting (length s) (limit - depth)) (parse_value limit f depth s)
  parse_value-Leaves limit zero depth s h le = absurd (omega arith)
  parse_value-Leaves limit (suc f) depth s h le =
      let t = skip_ws s in
      let u = skip_ws (after t) in
      let L = Leaves nesting (length s) (limit - depth) in
      let len = length-skip_ws s in
      let len' = length-skip_ws (after t) in
      let len'' = length-after_le u in
      let le' = length-after_le t in
      Ensures-if L (stands b'{' t) _ _
        (λ e.
          Ensures-if L (leb limit depth) _ _ (λ p. tt)
            (λ p.
              Ensures-if L (stands b'}' u) _ _ (λ q. (omega arith, ground arith))
                (λ q.
                  Ensures-bind (Leaves nesting_fields (length u) (limit - (depth + 1))) L
                    (parse_fields limit f (depth + 1) u) _
                    (parse_fields-Leaves limit f (depth + 1) u
                      (omega (arith, length-after b'{' t e)) (ground arith))
                    (λ (fs, r) (a, b). (omega arith, ground arith)))))
        (λ e.
          Ensures-if L (stands b'[' t) _ _
            (λ e'.
              Ensures-if L (leb limit depth) _ _ (λ p. tt)
                (λ p.
                  Ensures-if L (stands b']' u) _ _ (λ q. (omega arith, ground arith))
                    (λ q.
                      Ensures-bind (Leaves nesting_items (length u) (limit - (depth + 1))) L
                        (parse_items limit f (depth + 1) u) _
                        (parse_items-Leaves limit f (depth + 1) u
                          (omega (arith, length-after b'[' t e')) (ground arith))
                        (λ (xs, r) (a, b). (omega arith, ground arith)))))
            (λ e'.
              Ensures-if L (stands b'"' t) _ _
                (λ q.
                  Ensures-bind (λ (k, r). length r ≤ length t) L (parse_string t) _
                    (parse_string-Ensures t) (λ (k, r) b. (omega arith, omega arith)))
                (λ q.
                  Ensures-imp (Leaves nesting (length t) (limit - depth)) L (parse_scalar t)
                    (λ (v, r) (a, b). (omega arith, b)) (parse_scalar-Ensures (limit - depth) t))))

  parse_items-Leaves :
      (limit f depth : ℕ) (s : Bytes)
      → suc (2 * length s) < f
      → depth ≤ limit
      → Ensures (Leaves nesting_items (length s) (limit - depth)) (parse_items limit f depth s)
  parse_items-Leaves limit zero depth s h le = absurd (omega arith)
  parse_items-Leaves limit (suc f) depth [] h le = tt
  parse_items-Leaves limit (suc f) depth (c ∷ s) h le =
      let t = skip_ws (c ∷ s) in
      let L = Leaves nesting_items (length (c ∷ s)) (limit - depth) in
      let len = length-skip_ws (c ∷ s) in
      Ensures-bind (Leaves nesting (length t) (limit - depth)) L (parse_value limit f depth t) _
        (parse_value-Leaves limit f depth t (omega arith) le)
        (λ (v, r) (a, b).
          let u = skip_ws r in
          let len' = length-skip_ws r in
          let le' = length-after_le u in
          Ensures-if L (stands b',' u) _ _
            (λ e.
              Ensures-bind (Leaves nesting_items (length (after u)) (limit - depth)) L
                (parse_items limit f depth (after u)) _
                (parse_items-Leaves limit f depth (after u) (omega (arith, length-after b',' u e))
                  le)
                (λ (xs, r') (a', b'). (omega arith, omega arith)))
            (λ e. Ensures-if L (stands b']' u) _ _ (λ p. (omega arith, omega arith)) (λ p. tt)))

  parse_fields-Leaves :
      (limit f depth : ℕ) (s : Bytes)
      → suc (2 * length s) < f
      → depth ≤ limit
      → Ensures (Leaves nesting_fields (length s) (limit - depth)) (parse_fields limit f depth s)
  parse_fields-Leaves limit zero depth s h le = absurd (omega arith)
  parse_fields-Leaves limit (suc f) depth [] h le = tt
  parse_fields-Leaves limit (suc f) depth (c ∷ s) h le =
      let L = Leaves nesting_fields (length (c ∷ s)) (limit - depth) in
      Ensures-bind (λ (k, r). length r ≤ length (c ∷ s)) L (parse_key (c ∷ s)) _
        (parse_key-Ensures (c ∷ s))
        (λ (key, t) short.
          let len = length-skip_ws t in
          Ensures-bind (Leaves nesting (length (skip_ws t)) (limit - depth)) L
            (parse_value limit f depth (skip_ws t)) _
            (parse_value-Leaves limit f depth (skip_ws t) (omega arith) le)
            (λ (v, r) (a, b).
              let u = skip_ws r in
              let len' = length-skip_ws r in
              let le' = length-after_le u in
              Ensures-if L (stands b',' u) _ _
                (λ e.
                  Ensures-bind (Leaves nesting_fields (length (after u)) (limit - depth)) L
                    (parse_fields limit f depth (after u)) _
                    (parse_fields-Leaves limit f depth (after u)
                      (omega (arith, length-after b',' u e)) le)
                    (λ (fs, r') (a', b'). (omega arith, omega arith)))
                (λ e.
                  Ensures-if L (stands b'}' u) _ _ (λ p. (omega arith, omega arith)) (λ p. tt))))

finish-Ensures :
    (required : Bool) (v : Value) (n : ℕ) (s : Bytes)
    → nesting v ≤ n
    → Ensures (λ (w, r). nesting w ≤ n) (finish required v s)
unfolding finish
finish-Ensures required v n [] h = h
finish-Ensures required v n (c ∷ s) h =
    Ensures-if (λ (w, r). nesting w ≤ n) (required || not (c == 0)) _ _ (λ e. tt) (λ e. h)

parse-Ensures :
    (limit : ℕ) (required : Bool) (s : Bytes)
    → Ensures (λ (v, r). nesting v ≤ limit) (parse_with_length limit required s)
unfolding parse_with_length
parse-Ensures limit required s =
    Ensures-bind (Leaves nesting (length s) (limit - 0)) (λ (v, r). nesting v ≤ limit)
      (parse_value limit (2 * length s + 1) 0 s) _
      (parse_value-Leaves limit (2 * length s + 1) 0 s (omega arith) (omega arith))
      (λ (v, r) (a, b). finish-Ensures required v limit (skip_ws r) (omega arith))

-- The fuel of two calls for each character and one more is enough for every text: the reader ends.
pub parse_terminates :
    (limit : ℕ) (required : Bool) (s : Bytes) → parse_with_length limit required s ≢ out_of_fuel
parse_terminates limit required s =
    Ensures-out_of_fuel (λ (v, r). nesting v ≤ limit) (parse_with_length limit required s)
      (parse-Ensures limit required s)

-- A value that is read has brackets nested no deeper than the limit.
pub nesting_le :
    (limit : ℕ) (required : Bool) (s : Bytes) {v : Value} {r : Bytes}
    → parse_with_length limit required s ≡ ok (v, r)
    → nesting v ≤ limit
nesting_le limit required s e =
    Ensures-ok (λ (v, r). nesting v ≤ limit) (parse_with_length limit required s)
      (parse-Ensures limit required s) e
