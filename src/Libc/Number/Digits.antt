-- ===== src/Libc/Number/Digits.antt =====
-- The digit loop of strtoul and strtol computes the number that the digits spell, capped at its limit.
use xiaobai_os.Base.{
  ℕ, ◌+◌, ◌-◌, ◌*◌, ◌/◌, ◌^◌, ◌≤◌, ◌<◌, ◌≡◌, ◌≢◌, ◌||◌, ◌⊎◌, inl, inr, ap, ◌∙◌, arith, Bool, true,
  false, ltb, ltb→lt, Bool-cases, Option-cases, none, some, [], ◌∷◌, ◌++◌, Bytes, All, length,
}
use native.Mathlib.Nat.{div-lt_iff_lt-mul, le-div_iff_mul-le, mul-le-mul_left}
use xiaobai_os.Libc.Number.{digit_value, at, Scan, scan_digit, scan_digits}

-- Whether a character is a digit of the base.
unfoldable pub is_digit : ℕ → ℕ → Bool
is_digit base c = elim (digit_value c) [ none ↦ false | some d ↦ ltb d base ]

unfoldable pub digit_of : ℕ → ℕ
digit_of c = elim (digit_value c) [ none ↦ 0 | some d ↦ d ]

-- The number that a text of digits spells behind `n`, with no bound.
unfoldable pub spell : ℕ → ℕ → Bytes → ℕ
unfolding digit_of
spell base n [] = n
spell base n (c ∷ s) = spell base (n * base + digit_of c) s

over : (limit base d v : ℕ) → 0 < base → (limit - d) / base < v → limit < v * base + d
over limit base d v hb h = omega (arith, (div-lt_iff_lt-mul hb).0 h)

within : (limit base d v : ℕ) → 0 < base → d ≤ limit → v ≤ (limit - d) / base → v * base + d ≤ limit
within limit base d v hb hd h = omega (arith, (le-div_iff_mul-le hb).0 h)

grows : (n base d : ℕ) → 0 < base → n ≤ n * base + d
grows n base d hb = grind (arith, mul-le-mul_left)

-- The loop's variables after digits that spell `n`: the number, or the limit once it is passed.
abbrev pub Tracks : ℕ → Scan → ℕ → Type 0
Tracks limit st n =
    ((st.overflow ≡ false) × (st.value ≡ n) × (n ≤ limit))
    ⊎ ((st.overflow ≡ true) × (st.value ≡ limit) × (limit < n))

unfoldable pub nonempty : Bytes → Bool
nonempty [] = false
nonempty (c ∷ s) = true

digit_cases :
    (base c : ℕ) → is_digit base c ≡ true → (d : ℕ) × (digit_value c ≡ some d) × (d < base)
unfolding is_digit
digit_cases base c h = elim (Option-cases (digit_value c)) [
  | inl e ↦ absurd (ground arith)
  | inr (d, e) ↦ (d, e, ground arith)
]

nonzero_digit : (c d : ℕ) → digit_value c ≡ some d → c ≢ 0
unfolding digit_value
nonzero_digit c d h = ground arith

digit_of_lem : (c d : ℕ) → digit_value c ≡ some d → digit_of c ≡ d
unfolding digit_of
digit_of_lem c d h = ground arith

scan_digits_stop :
    (limit base : ℕ) (st : Scan) (a x : ℕ) (tail : Bytes)
    → is_digit base x ≡ false
    → scan_digits limit base st a (x ∷ tail) ≡ some (st, at (a + 0) (x ∷ tail))
unfolding scan_digits is_digit
scan_digits_stop limit base st a x tail h = ground arith

scan_digits_go :
    (limit base : ℕ) (st : Scan) (a c d : ℕ) (rest : Bytes)
    → digit_value c ≡ some d
    → d < base
    → scan_digits limit base st a (c ∷ rest)
      ≡ scan_digits limit base (scan_digit limit base st d) (a + 1) rest
unfolding scan_digits
scan_digits_go limit base st a c d rest h lt = ground (arith, nonzero_digit c d h)

module _ (limit base : ℕ) (hb : 2 ≤ base) (fits : base ≤ limit) (bound : limit < 2 ^ 64) where
  scan_digit-Tracks :
      (st : Scan) (n d : ℕ)
      → d < base
      → Tracks limit st n
      → Tracks limit (scan_digit limit base st d) (n * base + d)
        × ((scan_digit limit base st d).any ≡ true)
  unfolding scan_digit
  scan_digit-Tracks st n d hd (inl (o, v, le)) =
      elim (Bool-cases (ltb ((limit - d) / base) st.value)) [
        | inl big ↦
            let far = over limit base d st.value (omega arith) (ltb→lt _ _ big) in
            ground (arith, far)
        | inr small ↦
            let near = within limit base d st.value (omega arith) (omega arith) (ground arith) in
            ground (arith, near)
      ]
  scan_digit-Tracks st n d hd (inr (o, v, lt)) = ground (arith, grows n base d)

  -- The loop over the digits of a text that ends at a character that is no digit.
  pub scan_digits-spell :
      (ds : Bytes) (st : Scan) (n a x : ℕ) (tail : Bytes)
      → All (λ c. is_digit base c ≡ true) ds
      → is_digit base x ≡ false
      → Tracks limit st n
      → (out : Scan) × (scan_digits limit base st a (ds ++ (x ∷ tail))
          ≡ some (out, at (a + length ds) (x ∷ tail)))
        × Tracks limit out (spell base n ds)
        × (out.any ≡ (st.any || nonempty ds))
  unfolding spell nonempty
  scan_digits-spell [] st n a x tail hs hx tr =
      (st, scan_digits_stop limit base st a x tail hx, tr, ground arith)
  scan_digits-spell (c ∷ ds) st n a x tail (hc, hs) hx tr =
      let (d, hd, lt) = digit_cases base c hc in
      let (tr', yes_any) = scan_digit-Tracks st n d lt tr in
      let (out, e, tr'', g) =
        scan_digits-spell ds (scan_digit limit base st d) (n * base + d) (a + 1) x tail hs hx tr' in
      (
        out,
        scan_digits_go limit base st a c d _ hd lt
            ∙ e
            ∙ ap (λ k. some (out, at k (x ∷ tail))) (omega arith),
        ground (arith, tr'', digit_of_lem c d hd),
        ground (arith, g, yes_any),
      )
