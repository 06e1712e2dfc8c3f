-- ===== src/Libc/Number/Prefixes.antt =====
-- How strtoul and strtol pass over blanks, and find the base.
use xiaobai_os.Base.{
  ℕ, ◌+◌, ◌≤◌, ◌≡◌, ◌≢◌, ◌⊎◌, refl, arith, true, false, some, [], ◌∷◌, ◌++◌, Bytes, All, length,
}
use xiaobai_os.Libc.Ctype.{isspace, isxdigit}
use xiaobai_os.Libc.Number.{digit_value, at, skip_from, resolve_base}
use xiaobai_os.Libc.Number.Digits.{is_digit}

-- How the `base` argument, a prefix and the text behind it give the base that is used. A number in
-- octal keeps its leading 0 among the digits, and one in base 16 needs no prefix.
pub data Prefix (base : ℕ) : Bytes → ℕ → Bytes → Type 0 where
  plain : (r : Bytes) → 2 ≤ base → base ≤ 36 → base ≢ 16 → Prefix base [] base r
  hex : (x : ℕ) (r : Bytes) → base ≡ 16 → (x ≡ b'x') ⊎ (x ≡ b'X') → Prefix base (b'0' ∷ x ∷ []) 16 r
  auto_hex :
      (x c : ℕ) (r : Bytes)
      → base ≡ 0
      → (x ≡ b'x') ⊎ (x ≡ b'X')
      → isxdigit c ≡ true
      → Prefix base (b'0' ∷ x ∷ []) 16 (c ∷ r)
  auto_dec : (c : ℕ) (r : Bytes) → base ≡ 0 → c ≢ b'0' → Prefix base [] 10 (c ∷ r)
  hex_bare : (c : ℕ) (r : Bytes) → base ≡ 16 → c ≢ b'0' → Prefix base [] 16 (c ∷ r)
  hex_zero :
      (x : ℕ) (r : Bytes) → base ≡ 16 → x ≢ b'x' → x ≢ b'X' → Prefix base [] 16 (b'0' ∷ x ∷ r)
  auto_oct : (x : ℕ) (r : Bytes) → base ≡ 0 → x ≢ b'x' → x ≢ b'X' → Prefix base [] 8 (b'0' ∷ x ∷ r)
  auto_zero :
      (x c : ℕ) (r : Bytes)
      → base ≡ 0
      → (x ≡ b'x') ⊎ (x ≡ b'X')
      → isxdigit c ≡ false
      → Prefix base [] 8 (b'0' ∷ x ∷ c ∷ r)

pub resolve_base-Prefix :
    {base used : ℕ} {pre r : Bytes} (a : ℕ)
    → Prefix base pre used r
    → (resolve_base base (at a (pre ++ r)) ≡ some (used, at (a + length pre) r))
      × (2 ≤ used)
      × (used ≤ 36)
unfolding resolve_base
resolve_base-Prefix a (plain r lo hi ne) = (ground arith, lo, hi)
resolve_base-Prefix a (hex x r e h) = (ground arith, omega arith, omega arith)
resolve_base-Prefix a (auto_hex x c r e h k) = (ground arith, omega arith, omega arith)
resolve_base-Prefix a (auto_dec c r e ne) = (ground arith, omega arith, omega arith)
resolve_base-Prefix a (hex_bare c r e ne) = (ground arith, omega arith, omega arith)
resolve_base-Prefix a (hex_zero x r e n m) = (ground arith, omega arith, omega arith)
resolve_base-Prefix a (auto_oct x r e n m) = (ground arith, omega arith, omega arith)
resolve_base-Prefix a (auto_zero x c r e h k) = (ground arith, omega arith, omega arith)

blank_nonzero : (w : ℕ) → isspace w ≡ true → w ≢ 0
unfolding isspace
blank_nonzero w h = ground arith

pub skip_from-blanks :
    (ws : Bytes) (a c : ℕ) (r : Bytes)
    → All (λ w. isspace w ≡ true) ws
    → isspace c ≡ false
    → skip_from a (ws ++ (c ∷ r)) ≡ some (at (a + length ws) (c ∷ r))
unfolding skip_from
skip_from-blanks [] a c r h hc = ground arith
skip_from-blanks (w ∷ ws) a c r (hw, h) hc =
    ground (arith, skip_from-blanks ws (a + 1) c r h hc, blank_nonzero w hw)

-- A character that is no blank and no sign.
unfoldable pub Ordinary : ℕ → Type 0
Ordinary c = (isspace c ≡ false) × (c ≢ b'+') × (c ≢ b'-')

digit-Ordinary : (base c : ℕ) → is_digit base c ≡ true → Ordinary c
unfolding is_digit isspace digit_value Ordinary
digit-Ordinary base c h = ground arith

-- The text behind the sign begins with an ordinary character.
pub body_head :
    {base used : ℕ} {pre r : Bytes} (d : ℕ) (ds : Bytes)
    → Prefix base pre used r
    → r ≡ d ∷ ds
    → is_digit used d ≡ true
    → (c : ℕ) × (t : Bytes) × (pre ++ r ≡ c ∷ t) × Ordinary c
unfolding is_digit digit_value
body_head d ds (plain r lo hi ne) e h = (d, ds, e, digit-Ordinary _ d h)
body_head d ds (hex x r e' k) e h = (b'0', x ∷ r, refl, digit-Ordinary 10 b'0' refl)
body_head d ds (auto_hex x c r e' k i) e h = (b'0', x ∷ (c ∷ r), refl, digit-Ordinary 10 b'0' refl)
body_head d ds (auto_dec c r e' ne) e h = (d, ds, e, digit-Ordinary 10 d h)
body_head d ds (hex_bare c r e' ne) e h = (d, ds, e, digit-Ordinary 16 d h)
body_head d ds (hex_zero x r e' n m) e h = (d, ds, e, digit-Ordinary 16 d h)
body_head d ds (auto_oct x r e' n m) e h = (d, ds, e, digit-Ordinary 8 d h)
body_head d ds (auto_zero x c r e' k i) e h = (d, ds, e, digit-Ordinary 8 d h)
