-- ===== src/Libc/Comparing/Prefix.antt =====
-- strncmp compares the strings cut to its bound.
use xiaobai_os.Base.{
  ℕ, zero, suc, ◌≡◌, ◌≢◌, refl, arith, some, [], ◌∷◌, ◌++◌, Bytes, NoNul, take, pos,
}
use xiaobai_os.Libc.Pointer.{text}
use xiaobai_os.Libc.Comparing.{ncmp_from, strncmp}
use xiaobai_os.Libc.Comparing.Order.{compare_text}

ncmp_from-text :
    (k : ℕ) (l r u v : Bytes)
    → NoNul l
    → NoNul r
    → ncmp_from k (l ++ (0 ∷ u)) (r ++ (0 ∷ v)) ≡ some (compare_text (take k l) (take k r))
unfolding ncmp_from compare_text
ncmp_from-text zero l r u v hl hr = refl
ncmp_from-text (suc k) [] [] u v hl hr = ground arith
ncmp_from-text (suc k) [] (b ∷ r) u v hl (p, hr) = ground arith
ncmp_from-text (suc k) (a ∷ l) [] u v (p, hl) hr = ground arith
ncmp_from-text (suc k) (a ∷ l) (b ∷ r) u v (p, hl) (q, hr) =
    ground (arith, ncmp_from-text k l r u v hl hr)

zero_rounds : (k : ℕ) (l r : Bytes) → k ≡ 0 → compare_text (take k l) (take k r) ≡ pos 0
unfolding compare_text
zero_rounds zero l r e = refl
zero_rounds (suc k) l r e = absurd (omega arith)

-- strncmp of two C strings is the comparison of the strings cut to `n` characters, so it never looks
-- past the first `n`. The strings stand at different addresses other than 0.
pub strncmp-take :
    (a b n : ℕ) (l r u v : Bytes)
    → a ≢ 0
    → b ≢ 0
    → a ≢ b
    → NoNul l
    → NoNul r
    → strncmp (text a l u) (text b r v) n ≡ some (compare_text (take n l) (take n r))
unfolding strncmp
strncmp-take a b n l r u v ha hb ne hl hr =
    ground (arith, ncmp_from-text n l r u v hl hr, zero_rounds n l r)
