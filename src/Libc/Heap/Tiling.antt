-- ===== src/Libc/Heap/Tiling.antt =====
-- The blocks of one contiguous arena tile it: there is no gap and no overlap. A split and a merge keep
-- it so.
use xiaobai_os.Base.{
  ℕ, ◌+◌, ◌-◌, ◌%◌, ◌^◌, ◌≤◌, ◌<◌, ◌≡◌, subst, arith, Bool, true, false, if◌then◌else◌, ltb,
  Bool-cases, inl, inr, [], ◌∷◌, ◌++◌,
}
use xiaobai_os.Libc.Heap.{Block, Heap, header, heap_split, merge_next, take_first, sub_size}

-- The blocks, headers included, fill the addresses from `lo` to `hi` in order.
abbrev pub Tiles : ℕ → ℕ → Heap → Type 0
Tiles lo hi [] = lo ≡ hi
Tiles lo hi (b ∷ h) = (b.addr ≡ lo) × Tiles (lo + header + b.size) hi h

-- Addresses of user programs are below 2 ^ 63.
abbrev pub Canonical : ℕ → Type 0
Canonical hi = hi ≤ 2 ^ 63

pub Tiles-le : (lo hi : ℕ) (h : Heap) → Tiles lo hi h → lo ≤ hi
Tiles-le lo hi [] t = omega arith
Tiles-le lo hi (b ∷ h) (e, t) = omega (arith, Tiles-le (lo + header + b.size) hi h t)

Tiles-move : {lo lo' : ℕ} (hi : ℕ) (h : Heap) → lo ≡ lo' → Tiles lo hi h → Tiles lo' hi h
Tiles-move hi h e t = subst (λ k. Tiles k hi h) e t

pub if-Tiles :
    (lo hi : ℕ) (c : Bool) (x y : Heap)
    → Tiles lo hi x
    → Tiles lo hi y
    → Tiles lo hi (if c then x else y)
if-Tiles lo hi true x y s t = s
if-Tiles lo hi false x y s t = t

-- What a split leaves, whatever it marks the first block.
pub split-Tiles :
    (lo hi need : ℕ) (b : Block) (h : Heap)
    → Canonical hi
    → Tiles lo hi (b ∷ h)
    → need < 2 ^ 64 - 48
    → Tiles lo hi (heap_split b need ++ h) × Tiles lo hi (take_first (heap_split b need) ++ h)
unfolding heap_split take_first
split-Tiles lo hi need b h c (e, t) le = elim (Bool-cases (ltb b.size ((need + 48) % 2 ^ 64))) [
  | inl q ↦ rw q ((e, t), (e, t))
  | inr q ↦
      let bound = Tiles-le (lo + header + b.size) hi h t in
      let large : need + 48 ≤ b.size = ground arith in
      let t' =
        Tiles-move {lo' = lo + header + need + header + sub_size (sub_size b.size need) header} hi h
          (ground arith) t in
      rw q ((e, (omega arith, t')), (e, (omega arith, t')))
]

pub merge_next-Tiles :
    (lo hi : ℕ) (b : Block) (h : Heap)
    → Canonical hi
    → Tiles lo hi (b ∷ h)
    → Tiles lo hi (merge_next b h)
unfolding merge_next
merge_next-Tiles lo hi b [] c t = t
merge_next-Tiles lo hi b (n ∷ h) c (e, (e', t)) =
    let bound = Tiles-le _ hi h t in
    elim (Bool-cases n.free) [
      | inl q ↦ rw q (e, Tiles-move hi h (omega arith) t)
      | inr q ↦ rw q (e, (e', t))
    ]

-- A change behind a start of the list that keeps the tiling of its part keeps the whole.
pub Tiles-behind :
    (hi : ℕ) (before h h' : Heap)
    → ((mid : ℕ) → Tiles mid hi h → Tiles mid hi h')
    → (lo : ℕ) → Tiles lo hi (before ++ h)
    → Tiles lo hi (before ++ h')
Tiles-behind hi [] h h' keep lo t = keep lo t
Tiles-behind hi (b ∷ before) h h' keep lo (e, t) =
    (e, Tiles-behind hi before h h' keep (lo + header + b.size) t)
