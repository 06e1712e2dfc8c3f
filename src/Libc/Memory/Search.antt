-- ===== src/Libc/Memory/Search.antt =====
-- What memcmp and memchr find.
use xiaobai_os.Base.{
  ℕ, zero, suc, ◌+◌, ◌%◌, ◌<◌, ◌≡◌, ◌≢◌, inl, inr, Bool-cases, ==_iff, arith, ◌==◌, ltb, ltb→lt, ℤ,
  pos, negsuc,
}
use xiaobai_os.Libc.Memory.{Memory, compare_from, find_from, memcmp, memchr}

-- The blocks at `a` and `b` hold the same bytes below the offset `n`.
abbrev pub Agree : Memory → ℕ → ℕ → ℕ → Type 0
Agree m a b n = (j : ℕ) → j < n → m (a + j) ≡ m (b + j)

-- What a comparison of `n` bytes may return, and when: the first difference decides.
pub data Compared (m : Memory) (a b n : ℕ) : ℤ → Type 0 where
  same : Agree m a b n → Compared m a b n (pos 0)
  below : (k : ℕ) → k < n → Agree m a b k → m (a + k) < m (b + k) → Compared m a b n (negsuc 0)
  above : (k : ℕ) → k < n → Agree m a b k → m (b + k) < m (a + k) → Compared m a b n (pos 1)

Agree-step : (m : Memory) (a b i : ℕ) → Agree m a b i → m (a + i) ≡ m (b + i) → Agree m a b (i + 1)
Agree-step m a b i h e j lt = elim (Bool-cases (j == i)) [
  | inl p ↦ ground (arith, h j)
  | inr p ↦ h j (ground arith)
]

compare_from-Compared :
    (n i hi a b : ℕ) (m : Memory)
    → i + n ≡ hi
    → Agree m a b i
    → Compared m a b hi (compare_from n i a b m)
unfolding compare_from
compare_from-Compared zero i hi a b m e h = same (λ j lt. h j (omega arith))
compare_from-Compared (suc n) i hi a b m e h = elim (Bool-cases (m (a + i) == m (b + i))) [
  | inl p ↦ rw p (
      compare_from-Compared n (i + 1) hi a b m (omega arith)
        (Agree-step m a b i h ((==_iff _ _).0 p)))
  | inr p ↦ elim (Bool-cases (ltb (m (a + i)) (m (b + i)))) [
    | inl q ↦ rw (p, q) (below i (omega arith) h (ltb→lt _ _ q))
    | inr q ↦ rw (p, q) (above i (omega arith) h (ground arith))
  ]
]

memcmp_distinct :
    (a b n : ℕ) (m : Memory) → a ≢ 0 → b ≢ 0 → a ≢ b → memcmp a b n m ≡ compare_from n 0 a b m
memcmp_distinct a b zero m ha hb ne = unfold memcmp in ground arith
memcmp_distinct a b (suc n) m ha hb ne = unfold memcmp in ground arith

-- memcmp of two blocks at different addresses other than 0 returns 0 exactly for equal contents, and
-- else -1 or 1 as the first pair of bytes that differ is ordered, bytes taken as unsigned.
pub memcmp-Compared :
    (a b n : ℕ) (m : Memory) → a ≢ 0 → b ≢ 0 → a ≢ b → Compared m a b n (memcmp a b n m)
memcmp-Compared a b n m ha hb ne =
    rw (memcmp_distinct a b n m ha hb ne)
      (compare_from-Compared n 0 n a b m (omega arith) (λ j lt. absurd (omega arith)))

-- What a search of `n` bytes for `needle` may return: the first address that holds it, or null.
pub data Found (m : Memory) (s needle n : ℕ) : ℕ → Type 0 where
  at :
      (k : ℕ)
      → k < n
      → ((j : ℕ) → j < k → m (s + j) ≢ needle)
      → m (s + k) ≡ needle
      → Found m s needle n (s + k)
  nowhere : ((j : ℕ) → j < n → m (s + j) ≢ needle) → Found m s needle n 0

find_from-Found :
    (n i hi s needle : ℕ) (m : Memory)
    → i + n ≡ hi
    → ((j : ℕ) → j < i → m (s + j) ≢ needle)
    → Found m s needle hi (find_from n i s needle m)
unfolding find_from
find_from-Found zero i hi s needle m e h = nowhere (λ j lt. h j (omega arith))
find_from-Found (suc n) i hi s needle m e h = elim (Bool-cases (m (s + i) == needle)) [
  | inl p ↦ rw p (at i (omega arith) h ((==_iff _ _).0 p))
  | inr p ↦ rw p (
      find_from-Found n (i + 1) hi s needle m (omega arith)
        (λ j lt. elim (Bool-cases (j == i)) [ inl q ↦ ground arith | inr q ↦ h j (ground arith) ]))
]

-- memchr returns the first address of a block, at an address other than 0, that holds the byte, or
-- null if none does.
pub memchr-Found :
    (s value n : ℕ) (m : Memory) → s ≢ 0 → Found m s (value % 256) n (memchr s value n m)
unfolding memchr
memchr-Found s value n m hs = elim (Bool-cases (s == 0)) [
  | inl p ↦ absurd (hs ((==_iff s 0).0 p))
  | inr p ↦
      rw p (find_from-Found n 0 n s (value % 256) m (omega arith) (λ j lt. absurd (omega arith)))
]
