-- ===== src/Json/Bounds/Numbers.antt =====
-- The number reader leaves no more text than it was given.
use xiaobai_os.Base.{
  ℕ, ◌≤◌, arith, Bool, true, false, Bool-cases, Option-cases, inl, inr, [], ◌∷◌, Bytes, length,
}
use xiaobai_os.Json.Result.{Ensures, Ensures-bind, Ensures-if}
use xiaobai_os.Json.Number.{
  is_digit, add_digit, digits_from, skip_digits, fraction, skip_sign, exponent, minus_sign,
  parse_number,
}

digits_from-Ensures :
    (v : ℕ) (any : Bool) (s : Bytes)
    → Ensures (λ (w, b, r). length r ≤ length s) (digits_from v any s)
unfolding digits_from
digits_from-Ensures v any [] = omega arith
digits_from-Ensures v any (c ∷ s) = elim (Bool-cases (is_digit c)) [
  | inr p ↦ rw (p, digits_from) (omega arith)
  | inl p ↦ elim (Option-cases (add_digit v c)) [
    | inl q ↦ rw (p, q, digits_from) tt
    | inr (w, q) ↦ rw (p, q, digits_from) (ground (arith, digits_from-Ensures w true s))
  ]
]

skip_digits_rest : (any : Bool) (s : Bytes) → length (skip_digits any s).1 ≤ length s
unfolding skip_digits
skip_digits_rest any [] = omega arith
skip_digits_rest any (c ∷ s) = ground (arith, skip_digits_rest true s)

fraction_rest : (any : Bool) (s : Bytes) → length (fraction any s).1 ≤ length s
unfolding fraction
fraction_rest any [] = omega arith
fraction_rest any (c ∷ s) = ground (arith, skip_digits_rest any s)

skip_sign_rest : (s : Bytes) → length (skip_sign s) ≤ length s
unfolding skip_sign
skip_sign_rest [] = omega arith
skip_sign_rest (c ∷ s) = ground arith

exponent_rest : (s : Bytes) → length (exponent s) ≤ length s
unfolding exponent
exponent_rest [] = omega arith
exponent_rest (c ∷ s) = ground (arith, skip_digits_rest false (skip_sign s), skip_sign_rest s)

minus_sign_rest : (s : Bytes) → length (minus_sign s).1 ≤ length s
unfolding minus_sign
minus_sign_rest [] = omega arith
minus_sign_rest (c ∷ s) = ground arith

pub parse_number-Ensures : (s : Bytes) → Ensures (λ (n, r). length r ≤ length s) (parse_number s)
unfolding parse_number
parse_number-Ensures s =
    let (negative, t) = minus_sign s in
    Ensures-bind (λ (w, b, r). length r ≤ length t) (λ (n, r). length r ≤ length s)
      (digits_from 0 false t) _ (digits_from-Ensures 0 false t)
      (λ (w, b, r) le.
        Ensures-if _ (fraction b r).0 _ _
          (λ e. omega (arith, exponent_rest (fraction b r).1, fraction_rest b r, minus_sign_rest s))
          (λ e. tt))
