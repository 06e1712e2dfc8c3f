-- ===== src/Json/Number.antt =====
-- The numbers of xiaobaios/apps/pkg_cjson_min.c: an integer of 32 bits; a fraction and an exponent are
-- skipped.
use xiaobai_os.Base.{
  ℕ, ◌+◌, ◌-◌, ◌*◌, Bool, true, false, ◌&&◌, ◌||◌, ◌==◌, leb, if◌then◌else◌, Option, none, some, [],
  ◌∷◌, Bytes, ℤ, pos, neg,
}
use xiaobai_os.Json.Result.{Result, ok, failed, overflowed, ◌>>=◌}

abbrev pub is_digit : ℕ → Bool
is_digit ch = leb b'0' ch && leb ch b'9'

abbrev pub int_max : ℕ
int_max = 2147483647

-- One round of the loop on `value`: `none` where the sum overflows an int.
unfoldable pub add_digit : ℕ → ℕ → Option ℕ
add_digit value ch =
    if leb value 214748364
    then if leb (value * 10 + (ch - b'0')) int_max then some (value * 10 + (ch - b'0')) else none
    else some value

-- The digits of the integer part: the value, whether there is one, and the text behind.
unfoldable pub digits_from : ℕ → Bool → Bytes → Result (ℕ × Bool × Bytes)
unfolding add_digit
digits_from value any [] = ok (value, any, [])
digits_from value any (ch ∷ s) = elim (is_digit ch) [
  | false ↦ ok (value, any, ch ∷ s)
  | true ↦ elim (add_digit value ch) [ none ↦ overflowed | some value' ↦ digits_from value' true s ]
]

unfoldable pub skip_digits : Bool → Bytes → Bool × Bytes
skip_digits any [] = (any, [])
skip_digits any (ch ∷ s) = elim (is_digit ch) [ true ↦ skip_digits true s | false ↦ (any, ch ∷ s) ]

unfoldable pub fraction : Bool → Bytes → Bool × Bytes
unfolding skip_digits
fraction any [] = (any, [])
fraction any (ch ∷ s) = if ch == b'.' then skip_digits any s else (any, ch ∷ s)

-- The sign of an exponent, skipped.
unfoldable pub skip_sign : Bytes → Bytes
skip_sign [] = []
skip_sign (ch ∷ s) = if ch == b'+' || ch == b'-' then s else ch ∷ s

unfoldable pub exponent : Bytes → Bytes
unfolding skip_digits skip_sign
exponent [] = []
exponent (ch ∷ s) = if ch == b'e' || ch == b'E' then (skip_digits false (skip_sign s)).1 else ch ∷ s

-- Whether a minus sign leads, and the text behind it.
unfoldable pub minus_sign : Bytes → Bool × Bytes
minus_sign [] = (false, [])
minus_sign (ch ∷ s) = if ch == b'-' then (true, s) else (false, ch ∷ s)

-- The value of the item, and the text behind the number.
unfoldable pub parse_number : Bytes → Result (ℤ × Bytes)
unfolding minus_sign digits_from fraction exponent
parse_number start =
    let (negative, s) = minus_sign start in
    digits_from 0 false s >>= λ (value, any, t).
    let (any', u) = fraction any t in
    if any' then ok (if negative then neg (pos value) else pos value, exponent u) else failed start
