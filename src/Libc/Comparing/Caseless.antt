-- ===== src/Libc/Comparing/Caseless.antt =====
-- strcasecmp and strncasecmp decide equality up to the case of ASCII letters.
use xiaobai_os.Base.{
  ℕ, zero, suc, ◌≡◌, ◌≢◌, ◌↔◌, refl, arith, some, [], ◌∷◌, ◌++◌, map, Bytes, NoNul, take, pos,
}
use xiaobai_os.Libc.Pointer.{text}
use xiaobai_os.Libc.Comparing.{lower, casecmp_from, strcasecmp, ncasecmp_from, strncasecmp}

ncasecmp_from-eq :
    (k : ℕ) (l r u v : Bytes)
    → NoNul l
    → NoNul r
    → (ncasecmp_from k (l ++ (0 ∷ u)) (r ++ (0 ∷ v)) ≡ some (pos 0))
      ↔ (map lower (take k l) ≡ map lower (take k r))
unfolding ncasecmp_from
ncasecmp_from-eq zero l r u v hl hr = (λ _. refl, λ _. refl)
ncasecmp_from-eq (suc k) [] [] u v hl hr = (λ _. refl, λ _. ground arith)
ncasecmp_from-eq (suc k) [] (b ∷ r) u v hl (p, hr) = (λ e. ground arith, λ e. ground arith)
ncasecmp_from-eq (suc k) (a ∷ l) [] u v (p, hl) hr = (λ e. ground arith, λ e. ground arith)
ncasecmp_from-eq (suc k) (a ∷ l) (b ∷ r) u v (p, hl) (q, hr) =
    let ih = ncasecmp_from-eq k l r u v hl hr in
    (λ e. ground (arith, ih.0), λ e. ground (arith, ih.1))

casecmp_from-eq :
    (l r u v : Bytes)
    → NoNul l
    → NoNul r
    → (casecmp_from (l ++ (0 ∷ u)) (r ++ (0 ∷ v)) ≡ some (pos 0)) ↔ (map lower l ≡ map lower r)
unfolding casecmp_from
casecmp_from-eq [] [] u v hl hr = (λ _. refl, λ _. ground arith)
casecmp_from-eq [] (b ∷ r) u v hl (p, hr) = (λ e. ground arith, λ e. ground arith)
casecmp_from-eq (a ∷ l) [] u v (p, hl) hr = (λ e. ground arith, λ e. ground arith)
casecmp_from-eq (a ∷ l) (b ∷ r) u v (p, hl) (q, hr) =
    let ih = casecmp_from-eq l r u v hl hr in (λ e. ground (arith, ih.0), λ e. ground (arith, ih.1))

-- strcasecmp returns 0 exactly for strings that are the same in lower case, and strncasecmp, with
-- `n` not 0, for those whose first `n` characters are. The strings stand at different addresses
-- other than 0.
pub strcasecmp-eq :
    (a b n : ℕ) (l r u v : Bytes)
    → (a ≢ 0) × (b ≢ 0) × (a ≢ b)
    → n ≢ 0
    → NoNul l
    → NoNul r
    → ((strcasecmp (text a l u) (text b r v) ≡ some (pos 0)) ↔ (map lower l ≡ map lower r))
      × ((strncasecmp (text a l u) (text b r v) n ≡ some (pos 0))
          ↔ (map lower (take n l) ≡ map lower (take n r)))
unfolding strcasecmp strncasecmp
strcasecmp-eq a b n l r u v (ha, hb, ne) hn hl hr =
    let whole = casecmp_from-eq l r u v hl hr in
    let first = ncasecmp_from-eq n l r u v hl hr in
    (
      (λ e. whole.0 (ground arith), λ e. ground (arith, whole.1 e)),
      (λ e. first.0 (ground arith), λ e. ground (arith, first.1 e)),
    )
