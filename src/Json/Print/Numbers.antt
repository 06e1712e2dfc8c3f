-- ===== src/Json/Print/Numbers.antt =====
-- A printed number is read back.
use xiaobai_os.Base.{
  ℕ, zero, suc, ◌+◌, ◌*◌, ◌/◌, ◌%◌, ◌≤◌, ◌<◌, ◌≡◌, refl, ap, ◌∙◌, arith, Bool, true, false, inl,
  inr, Bool-cases, ◌||◌, ◌==◌, ltb, [], ◌∷◌, ◌++◌, append_assoc, Bytes, ℤ, pos, negsuc,
}
use xiaobai_os.Json.Result.{ok}
use xiaobai_os.Json.Number.{
  is_digit, int_max, add_digit, digits_from, fraction, exponent, minus_sign, parse_number,
}
use xiaobai_os.Json.Print.{show_from, show_number, InRange}

digits_from-step :
    (v d : ℕ) (any : Bool) (s : Bytes)
    → d < 10
    → v * 10 + d ≤ int_max
    → digits_from v any ((b'0' + d) ∷ s) ≡ digits_from (v * 10 + d) true s
unfolding digits_from add_digit
digits_from-step v d any s h le = ground arith

pub digits_from-show_from :
    (f n : ℕ) (any : Bool) (rest : Bytes)
    → n < f
    → n ≤ int_max
    → digits_from 0 any (show_from f n ++ rest) ≡ digits_from n true rest
unfolding show_from
digits_from-show_from zero n any rest h le = absurd (omega arith)
digits_from-show_from (suc f) n any rest h le = elim (Bool-cases (ltb n 10)) [
  | inl p ↦ rw p (
      digits_from-step 0 n any rest (ground arith) (omega arith)
      ∙ ap (λ v. digits_from v true rest) (omega arith))
  | inr p ↦
      let back : n / 10 * 10 + n % 10 ≡ n = omega arith in
      rw (p, append_assoc (show_from f (n / 10)) ((b'0' + n % 10) ∷ []) rest)
        (digits_from-show_from f (n / 10) any ((b'0' + n % 10) ∷ rest) (ground arith) (omega arith)
          ∙ digits_from-step (n / 10) (n % 10) true rest (omega arith) (omega arith)
          ∙ ap (λ v. digits_from v true rest) back)
]

-- The text behind a number does not go on with it.
abbrev pub Stops : Bytes → Type 0
Stops [] = Unit
Stops (c ∷ s) = (is_digit c || (c == b'.' || (c == b'e' || c == b'E'))) ≡ false

digits_from_stop :
    (v : ℕ) (any : Bool) (rest : Bytes) → Stops rest → digits_from v any rest ≡ ok (v, any, rest)
unfolding digits_from
digits_from_stop v any [] h = refl
digits_from_stop v any (c ∷ s) h = ground arith

fraction_stop : (any : Bool) (rest : Bytes) → Stops rest → fraction any rest ≡ (any, rest)
unfolding fraction
fraction_stop any [] h = refl
fraction_stop any (c ∷ s) h = ground arith

exponent_stop : (rest : Bytes) → Stops rest → exponent rest ≡ rest
unfolding exponent
exponent_stop [] h = refl
exponent_stop (c ∷ s) h = ground arith

-- The first character of a printed number.
pub show_from_head :
    (f n : ℕ) → n < f → (c : ℕ) × (t : Bytes) × (show_from f n ≡ c ∷ t) × (b'0' ≤ c) × (c ≤ b'9')
unfolding show_from
show_from_head zero n h = absurd (omega arith)
show_from_head (suc f) n h = elim (Bool-cases (ltb n 10)) [
  | inl p ↦ (b'0' + n, [], rw p refl, omega arith, ground arith)
  | inr p ↦
      let (c, t, e, lo, hi) = show_from_head f (n / 10) (ground arith) in
      (c, t ++ ((b'0' + n % 10) ∷ []), rw (p, e) refl, lo, hi)
]

minus_sign-digit : (c : ℕ) (s : Bytes) → b'0' ≤ c → minus_sign (c ∷ s) ≡ (false, c ∷ s)
unfolding minus_sign
minus_sign-digit c s h = ground arith

minus_sign-show_from :
    (f n : ℕ) (rest : Bytes)
    → n < f
    → minus_sign (show_from f n ++ rest) ≡ (false, show_from f n ++ rest)
minus_sign-show_from f n rest h =
    let (c, t, e, lo, hi) = show_from_head f n h in rw e (minus_sign-digit c (t ++ rest) lo)

pub parse_number-show_number :
    (n : ℤ) (rest : Bytes)
    → InRange n
    → Stops rest
    → parse_number (show_number n ++ rest) ≡ ok (n, rest)
unfolding parse_number show_number
parse_number-show_number (pos n) rest h s =
    rw
      (
        minus_sign-show_from (suc n) n rest (omega arith),
        digits_from-show_from (suc n) n false rest (omega arith) h,
        digits_from_stop n true rest s,
        fraction_stop true rest s,
        exponent_stop rest s,
      )
      refl
parse_number-show_number (negsuc n) rest h s =
    unfold minus_sign in
    rw
      (
        digits_from-show_from (suc (suc n)) (suc n) false rest (omega arith) h,
        digits_from_stop (suc n) true rest s,
        fraction_stop true rest s,
        exponent_stop rest s,
      )
      refl
