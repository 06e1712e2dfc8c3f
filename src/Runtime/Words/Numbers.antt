-- ===== src/Runtime/Words/Numbers.antt =====
-- The decimal reader of the command runtime.
use xiaobai_os.Base.{
  ℕ, ◌+◌, ◌-◌, ◌*◌, ◌^◌, ◌≤◌, ◌<◌, ◌≡◌, refl, arith, inl, inr, Bool, true, not, ◌&&◌, ◌==◌, ltb,
  if◌then◌else◌, Bool-cases, none, some, [], ◌∷◌, Bytes, length,
}
use xiaobai_os.Libc.Ctype.{isdigit}
use xiaobai_os.Runtime.Words.{digits_from, parse_u64_dec}

-- The number that decimal digits spell after the digits of `value`.
unfoldable pub decimal : ℕ → Bytes → ℕ
decimal value [] = value
decimal value (c ∷ text) = decimal (value * 10 + (c - b'0')) text

unfoldable pub all_digits : Bytes → Bool
all_digits [] = true
all_digits (c ∷ text) = isdigit c && all_digits text

decimal-le : (value : ℕ) (text : Bytes) → value ≤ decimal value text
unfolding decimal
decimal-le value [] = omega arith
decimal-le value (c ∷ text) = omega (arith, decimal-le (value * 10 + (c - b'0')) text)

digits_from-decimal :
    (value : ℕ) (text : Bytes)
    → value < 2 ^ 64
    → digits_from value text ≡ (
        if all_digits text && ltb (decimal value text) (2 ^ 64)
        then some (decimal value text)
        else none)
unfolding digits_from all_digits decimal isdigit
digits_from-decimal value [] lt = ground arith
digits_from-decimal value (c ∷ text) lt =
    elim (Bool-cases (ltb (value * 10 + (c - b'0')) (2 ^ 64))) [
      | inl p ↦ ground (arith, digits_from-decimal (value * 10 + (c - b'0')) text (ground arith))
      | inr p ↦ ground (arith, decimal-le (value * 10 + (c - b'0')) text)
    ]

-- ush_parse_u64_dec gives the number that its text spells, and fails exactly on the empty text, on
-- a character that is no digit, and on a number of 2 ^ 64 or more.
pub parse_u64_dec-decimal :
    (text : Bytes)
    → parse_u64_dec text ≡ (
        if not (length text == 0) && all_digits text && ltb (decimal 0 text) (2 ^ 64)
        then some (decimal 0 text)
        else none)
unfolding parse_u64_dec
parse_u64_dec-decimal [] = refl
parse_u64_dec-decimal (c ∷ text) = ground (arith, digits_from-decimal 0 (c ∷ text) (omega arith))
