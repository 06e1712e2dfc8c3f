-- ===== src/Libc/Searching/Characters.antt =====
-- strchr finds the first and strrchr the last place of a character.
use xiaobai_os.Base.{
  ℕ, ◌+◌, ◌%◌, ◌≡◌, ◌≢◌, refl, ap, ◌⊎◌, inl, inr, arith, ◌==◌, Bool-cases, Option, some, [], ◌∷◌,
  ◌++◌, Bytes, NoNul, All, length,
}
use xiaobai_os.Libc.Pointer.{Ptr, null, text}
use xiaobai_os.Libc.Searching.{at, chr_from, strchr, rchr_from, strrchr}

-- Where the search for `c` in the string `s` at `a` ends: at its first place, or nowhere.
pub data First (a c : ℕ) (s rest : Bytes) : Ptr → Type 0 where
  found :
      (p : Ptr) (u v : Bytes)
      → s ≡ u ++ (c ∷ v)
      → All (λ x. x ≢ c) u
      → p.addr ≡ a + length u
      → p.bytes ≡ c ∷ (v ++ (0 ∷ rest))
      → First a c s rest p
  missing : All (λ x. x ≢ c) s → First a c s rest null

abbrev pub FirstResult : ℕ → ℕ → Bytes → Bytes → Option Ptr → Type 0
FirstResult a c s rest o = (p : Ptr) × (o ≡ some p) × First a c s rest p

First-cons :
    (a c x : ℕ) (s rest : Bytes) (p : Ptr)
    → x ≢ c
    → First (a + 1) c s rest p
    → First a c (x ∷ s) rest p
First-cons a c x s rest p ne (found q u v e h k b) =
    found q (x ∷ u) v (ap (λ t. x ∷ t) e) (ne, h) (omega arith) b
First-cons a c x s rest p ne (missing h) = missing (ne, h)

chr_from-First :
    (a c : ℕ) (s rest : Bytes)
    → c ≢ 0
    → NoNul s
    → FirstResult a c s rest (chr_from c a (s ++ (0 ∷ rest)))
unfolding chr_from
chr_from-First a c [] rest hc h = (null, ground arith, missing tt)
chr_from-First a c (x ∷ s) rest hc (nz, h) = elim (Bool-cases (x == c)) [
  | inl e ↦ (
    at a (x ∷ (s ++ (0 ∷ rest))),
    ground arith,
    found _ [] s (ground arith) tt (omega arith) (ground arith),
  )
  | inr ne ↦
      let ih = chr_from-First (a + 1) c s rest hc h in
      (ih.0, ground (arith, ih.1), First-cons a c x s rest ih.0 (ground arith) ih.2)
]

-- strchr of a C string and a character other than NUL returns the first place of the character, or
-- null if the string lacks it. The pointer is not null.
pub strchr-First :
    (a c : ℕ) (s rest : Bytes)
    → a ≢ 0
    → c % 256 ≢ 0
    → NoNul s
    → FirstResult a (c % 256) s rest (strchr (text a s rest) c)
unfolding strchr
strchr-First a c s rest ha hc h =
    let r = chr_from-First a (c % 256) s rest hc h in (r.0, ground (arith, r.1), r.2)

-- The last place of `c` in the string `s` at `a`.
pub record LastAt (a c : ℕ) (s rest : Bytes) (p : Ptr) : Type 0 where
  pub before : Bytes
  pub behind : Bytes
  pub split : s ≡ before ++ (c ∷ behind)
  pub last : All (λ x. x ≢ c) behind
  pub place : p.addr ≡ a + length before
  pub reads : p.bytes ≡ c ∷ (behind ++ (0 ∷ rest))

-- The loop keeps the last place so far, or goes on to a later one.
data Later (a c : ℕ) (s rest : Bytes) (old : Ptr) : Ptr → Type 0 where
  moved : (p : Ptr) → LastAt a c s rest p → Later a c s rest old p
  kept : All (λ x. x ≢ c) s → Later a c s rest old old

LastAt-cons :
    (a c x : ℕ) (s rest : Bytes) (p : Ptr) → LastAt (a + 1) c s rest p → LastAt a c (x ∷ s) rest p
LastAt-cons a c x s rest p h = record {
  before = x ∷ h.before;
  behind = h.behind;
  split = ap (λ t. x ∷ t) h.split;
  last = h.last;
  place = omega (arith, h.place);
  reads = h.reads;
}

Later-hit :
    (a c x : ℕ) (s rest : Bytes) (old p : Ptr)
    → x ≡ c
    → Later (a + 1) c s rest (at a (x ∷ (s ++ (0 ∷ rest)))) p
    → Later a c (x ∷ s) rest old p
Later-hit a c x s rest old p e (moved q h) = moved q (LastAt-cons a c x s rest q h)
Later-hit a c x s rest old p e (kept h) = moved _ (record {
  before = [];
  behind = s;
  split = ap (λ t. t ∷ s) e;
  last = h;
  place = omega arith;
  reads = ap (λ t. t ∷ (s ++ (0 ∷ rest))) e;
})

Later-miss :
    (a c x : ℕ) (s rest : Bytes) (old p : Ptr)
    → x ≢ c
    → Later (a + 1) c s rest old p
    → Later a c (x ∷ s) rest old p
Later-miss a c x s rest old p ne (moved q h) = moved q (LastAt-cons a c x s rest q h)
Later-miss a c x s rest old p ne (kept h) = kept (ne, h)

rchr_from-Later :
    (a c : ℕ) (s rest : Bytes) (old : Ptr)
    → c ≢ 0
    → NoNul s
    → (p : Ptr) × (rchr_from c old a (s ++ (0 ∷ rest)) ≡ some p) × Later a c s rest old p
unfolding rchr_from
rchr_from-Later a c [] rest old hc h = (old, ground arith, kept tt)
rchr_from-Later a c (x ∷ s) rest old hc (nz, h) = elim (Bool-cases (x == c)) [
  | inl e ↦
      let ih = rchr_from-Later (a + 1) c s rest (at a (x ∷ (s ++ (0 ∷ rest)))) hc h in
      (ih.0, ground (arith, ih.1), Later-hit a c x s rest old ih.0 (ground arith) ih.2)
  | inr ne ↦
      let ih = rchr_from-Later (a + 1) c s rest old hc h in
      (ih.0, ground (arith, ih.1), Later-miss a c x s rest old ih.0 (ground arith) ih.2)
]

Later-null :
    (a c : ℕ) (s rest : Bytes) (p : Ptr)
    → Later a c s rest null p
    → LastAt a c s rest p ⊎ ((p ≡ null) × All (λ x. x ≢ c) s)
Later-null a c s rest p (moved q h) = inl h
Later-null a c s rest p (kept h) = inr (refl, h)

-- strrchr of a C string and a character other than NUL returns the last place of the character, or
-- null if the string lacks it. The pointer is not null.
pub strrchr-LastAt :
    (a c : ℕ) (s rest : Bytes)
    → a ≢ 0
    → c % 256 ≢ 0
    → NoNul s
    → (p : Ptr) × (strrchr (text a s rest) c ≡ some p)
      × (LastAt a (c % 256) s rest p ⊎ ((p ≡ null) × All (λ x. x ≢ c % 256) s))
unfolding strrchr
strrchr-LastAt a c s rest ha hc h =
    let r = rchr_from-Later a (c % 256) s rest null hc h in
    (r.0, ground (arith, r.1), Later-null a (c % 256) s rest r.0 r.2)
