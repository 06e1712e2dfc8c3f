-- ===== src/Libc/Heap/Placing.antt =====
-- malloc is first fit: what its walk takes, and what it leaves of the list.
use xiaobai_os.Base.{
  ℕ, ◌+◌, ◌≤◌, ◌≡◌, refl, ap, ◌⊎◌, inl, inr, arith, Bool, true, false, ◌&&◌, leb, Bool-cases, some,
  none, [], ◌∷◌, ◌++◌, All,
}
use xiaobai_os.Libc.Heap.{Block, Heap, header, heap_split, take_first, place}

-- Whether a block can serve a request.
abbrev pub fit : ℕ → Block → Bool
fit need b = b.free && leb need b.size

-- The walk took `block`, the first that fits, gave out its payload, and left the rest of the list.
pub record Placed (need : ℕ) (h : Heap) (p : ℕ) (h' : Heap) : Type 0 where
  pub before : Heap
  pub block : Block
  pub after : Heap
  pub whole : h ≡ before ++ (block ∷ after)
  pub unfit : All (λ c. fit need c ≡ false) before
  pub was_free : block.free ≡ true
  pub fits : need ≤ block.size
  pub payload : p ≡ block.addr + header
  pub becomes : h' ≡ before ++ (take_first (heap_split block need) ++ after)

Placed-cons :
    (need p : ℕ) (b : Block) (h h' : Heap)
    → fit need b ≡ false
    → Placed need h p h'
    → Placed need (b ∷ h) p (b ∷ h')
Placed-cons need p b h h' no_fit pl = record {
  before = b ∷ pl.before;
  block = pl.block;
  after = pl.after;
  whole = ap (λ t. b ∷ t) pl.whole;
  unfit = (no_fit, pl.unfit);
  was_free = pl.was_free;
  fits = pl.fits;
  payload = pl.payload;
  becomes = ap (λ t. b ∷ t) pl.becomes;
}

-- The walk of malloc takes the first free block that is large enough, and fails exactly where every
-- block is in use or too small.
pub place-cases :
    (need : ℕ) (h : Heap)
    → ((place need h ≡ none) × All (λ c. fit need c ≡ false) h)
      ⊎ ((p : ℕ) × (h' : Heap) × (place need h ≡ some (p, h')) × Placed need h p h')
unfolding place
place-cases need [] = inl (refl, tt)
place-cases need (b ∷ h) = elim (Bool-cases (fit need b)) [
  | inl q ↦ inr (
    b.addr + header,
    take_first (heap_split b need) ++ h,
    ground arith,
    record {
      before = [];
      block = b;
      after = h;
      whole = refl;
      unfit = tt;
      was_free = ground arith;
      fits = ground arith;
      payload = refl;
      becomes = refl;
    },
  )
  | inr q ↦ elim (place-cases need h) [
    | inl (e, all_unfit) ↦ inl (ground arith, (q, all_unfit))
    | inr (p, h', e, pl) ↦ inr (p, b ∷ h', ground arith, Placed-cons need p b h h' q pl)
  ]
]
