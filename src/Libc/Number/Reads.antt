-- ===== src/Libc/Number/Reads.antt =====
-- What strtoul and strtol return for a number behind blanks, with a sign and a prefix.
use xiaobai_os.Base.{ℕ, ◌+◌, ◌≡◌, ◌≢◌, Bool, true, false, [], ◌∷◌, ◌++◌, Bytes, All, length}
use xiaobai_os.Libc.Ctype.{isspace}
use xiaobai_os.Libc.Number.Digits.{is_digit}
use xiaobai_os.Libc.Number.Prefixes.{Prefix}

pub data Sign : Type 0 where
  bare plus minus : Sign

abbrev pub sign_text : Sign → Bytes
sign_text bare = []
sign_text plus = b'+' ∷ []
sign_text minus = b'-' ∷ []

abbrev pub is_minus : Sign → Bool
is_minus minus = true
is_minus _ = false

-- A number as the readers take it: blanks, a sign, a prefix, digits, and what ends them.
abbrev pub number : Bytes → Sign → Bytes → Bytes → ℕ → Bytes → Bytes
number ws sg pre ds x tail = ws ++ (sign_text sg ++ (pre ++ (ds ++ (x ∷ tail))))

abbrev pub behind : ℕ → Bytes → Sign → Bytes → Bytes → ℕ
behind a ws sg pre ds = a + length ws + length (sign_text sg) + length pre + length ds

module _ {base used : ℕ} (a : ℕ) (ws : Bytes) (sg : Sign) (pre : Bytes) (d : ℕ) (ds : Bytes) (x : ℕ)
    (tail : Bytes) (ha : a ≢ 0) (blanks : All (λ w. isspace w ≡ true) ws)
    (prefix : Prefix base pre used (d ∷ (ds ++ (x ∷ tail))))
    (digits : All (λ c. is_digit used c ≡ true) (d ∷ ds)) (ends : is_digit used x ≡ false) where
  abbrev body : Bytes
  body = pre ++ (d ∷ (ds ++ (x ∷ tail)))
