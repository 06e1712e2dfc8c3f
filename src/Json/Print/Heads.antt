-- ===== src/Json/Print/Heads.antt =====
-- How printed values begin, and how the reader of xiaobaios/apps/pkg_cjson_min.c takes the first step.
use xiaobai_os.Base.{
  ℕ, suc, ◌≡◌, refl, ap, ◌∙◌, arith, Bool, true, false, ◌||◌, ◌==◌, ◌∷◌, ◌++◌, Bytes, ℤ, pos,
  negsuc,
}
use xiaobai_os.Json.Result.{ok, ◌>>=◌}
use xiaobai_os.Json.Value.{Value, null_value, boolean, number, string, raw, array, object}
use xiaobai_os.Json.Text.{is_ws, skip_ws}
use xiaobai_os.Json.Number.{is_digit, parse_number}
use xiaobai_os.Json.Parse.{stands, begins_with, parse_scalar, parse_value}
use xiaobai_os.Json.Print.{show_number, print, InRange, Readable}
use xiaobai_os.Json.Print.Numbers.{Stops, show_from_head, parse_number-show_number}

-- A character with which a value begins.
abbrev pub opens : ℕ → Bool
opens c =
    is_digit c
    || (c == b'-'
        || (c == b'"' || (c == b'[' || (c == b'{' || (c == b't' || (c == b'f' || c == b'n'))))))

show_number_head :
    (n : ℤ) → (c : ℕ) × (t : Bytes) × (show_number n ≡ c ∷ t) × ((is_digit c || c == b'-') ≡ true)
unfolding show_number
show_number_head (pos n) =
    let (c, t, e, lo, hi) = show_from_head (suc n) n (omega arith) in (c, t, e, ground arith)
show_number_head (negsuc n) = (b'-', _, refl, refl)

pub print_head :
    (room : ℕ) (v : Value)
    → Readable room v
    → (c : ℕ) × (t : Bytes) × (print v ≡ c ∷ t) × (opens c ≡ true)
unfolding print Readable
print_head room null_value h = (_, _, refl, refl)
print_head room (boolean true) h = (_, _, refl, refl)
print_head room (boolean false) h = (_, _, refl, refl)
print_head room (number n) h = let (c, t, e, good) = show_number_head n in (c, t, e, ground arith)
print_head room (string s) h = (_, _, refl, refl)
print_head room (raw s) h = absurd h
print_head room (array xs) h = (_, _, refl, refl)
print_head room (object fs) h = (_, _, refl, refl)

pub skip_ws-opens : (c : ℕ) (s : Bytes) → opens c ≡ true → skip_ws (c ∷ s) ≡ c ∷ s
unfolding skip_ws is_ws
skip_ws-opens c s h = ground arith

pub skip_ws-print :
    (room : ℕ) (v : Value) (s : Bytes) → Readable room v → skip_ws (print v ++ s) ≡ print v ++ s
skip_ws-print room v s h =
    let (c, t, e, good) = print_head room v h in rw e (skip_ws-opens c (t ++ s) good)

stands-opens :
    (x c : ℕ) (s : Bytes)
    → opens c ≡ true
    → (x == b']' || x == b'}') ≡ true
    → stands x (c ∷ s) ≡ false
unfolding stands
stands-opens x c s h k = ground arith

pub stands-print :
    (x room : ℕ) (v : Value) (s : Bytes)
    → Readable room v
    → (x == b']' || x == b'}') ≡ true
    → stands x (print v ++ s) ≡ false
stands-print x room v s h k =
    let (c, t, e, good) = print_head room v h in rw e (stands-opens x c (t ++ s) good k)

parse_scalar-number :
    (c : ℕ) (s : Bytes)
    → (is_digit c || c == b'-') ≡ true
    → parse_scalar (c ∷ s) ≡ (parse_number (c ∷ s) >>= λ (n, r). ok (number n, r))
unfolding parse_scalar begins_with
parse_scalar-number c s h = ground arith

parse_value-scalar :
    (limit f depth c : ℕ) (s : Bytes)
    → (is_digit c || c == b'-') ≡ true
    → parse_value limit (suc f) depth (c ∷ s) ≡ parse_scalar (c ∷ s)
unfolding parse_value stands
parse_value-scalar limit f depth c s h = rw (skip_ws-opens c s (ground arith)) (ground arith)

pub parse_value-number :
    (limit f depth : ℕ) (n : ℤ) (rest : Bytes)
    → InRange n
    → Stops rest
    → parse_value limit (suc f) depth (show_number n ++ rest) ≡ ok (number n, rest)
parse_value-number limit f depth n rest h s =
    let (c, t, e, good) = show_number_head n in
    let read = parse_number-show_number n rest h s in
    let whole : show_number n ++ rest ≡ c ∷ (t ++ rest) = ap (λ u. u ++ rest) e in
    rw whole (
      parse_value-scalar limit f depth c (t ++ rest) good
      ∙ parse_scalar-number c (t ++ rest) good
      ∙ (rw (← whole, read) refl))
