-- ===== src/Libc/Heap/Arena.antt =====
-- The operations of the allocator keep the blocks of one contiguous arena tiling it.
use xiaobai_os.Base.{
  ℕ, ◌+◌, ◌^◌, ◌≤◌, ◌≡◌, refl, sym, subst, arith, true, false, ◌==◌, leb, Bool-cases, ◌⊎◌, inl, inr,
  some, Option-cases, [], ◌∷◌,
}
use xiaobai_os.Libc.Heap.Tiling.{Tiles, Canonical, if-Tiles, split-Tiles, merge_next-Tiles}
use xiaobai_os.Libc.Heap.{
  Block, Heap, header, align_up, merge_next, mark_free, merge_prev, free, split_head, grow, resize,
}

mark_free-Tiles :
    (lo hi p : ℕ) (h h' : Heap)
    → Canonical hi
    → Tiles lo hi h
    → mark_free p h ≡ some h'
    → Tiles lo hi h'
unfolding mark_free
mark_free-Tiles lo hi p [] h' c t e = cc
mark_free-Tiles lo hi p (b ∷ h) h' c (e, t) m = elim (Bool-cases (b.addr + header == p)) [
  | inl q ↦
      subst (Tiles lo hi) (ground arith)
        (merge_next-Tiles lo hi (record b { free = true }) h c (e, t))
  | inr q ↦ elim (Option-cases (mark_free p h)) [
    | inl n ↦ absurd (ground arith)
    | inr (r, f) ↦
        let whole : b ∷ r ≡ h' = ground arith in
        subst (Tiles lo hi) whole (e, mark_free-Tiles (lo + header + b.size) hi p h r c t f)
  ]
]

merge_prev-Tiles :
    (lo hi p : ℕ) (h : Heap) → Canonical hi → Tiles lo hi h → Tiles lo hi (merge_prev p h)
unfolding merge_prev
merge_prev-Tiles lo hi p [] c t = t
merge_prev-Tiles lo hi p (b ∷ []) c t = t
merge_prev-Tiles lo hi p (b ∷ (n ∷ h)) c (e, t) = elim (Bool-cases (n.addr + header == p)) [
  | inl q ↦ rw q (
      if-Tiles lo hi b.free (merge_next b (n ∷ h)) _ (merge_next-Tiles lo hi b (n ∷ h) c (e, t))
        (e, t))
  | inr q ↦ rw q (e, merge_prev-Tiles (lo + header + b.size) hi p (n ∷ h) c t)
]

-- A block of the list has its payload at `p`.
abbrev pub IsPayload : ℕ → Heap → Type 0
IsPayload p [] = ⊥
IsPayload p (b ∷ h) = (p ≡ b.addr + header) ⊎ IsPayload p h

mark_free_total : (p : ℕ) (h : Heap) → IsPayload p h → (h' : Heap) × (mark_free p h ≡ some h')
unfolding mark_free
mark_free_total p [] none_left = elim none_left [ ]
mark_free_total p (b ∷ h) (inl e) = (merge_next (record b { free = true }) h, ground arith)
mark_free_total p (b ∷ h) (inr m) =
    let (r, f) = mark_free_total p h m in
    elim (Bool-cases (b.addr + header == p)) [
      | inl q ↦ (merge_next (record b { free = true }) h, ground arith)
      | inr q ↦ (b ∷ r, ground arith)
    ]

-- Given null or the payload of a block of the list, free returns, and keeps the blocks of one arena
-- below 2 ^ 63 tiling it.
pub free-Tiles :
    (lo hi p : ℕ) (h : Heap)
    → Canonical hi
    → Tiles lo hi h
    → (p ≡ 0) ⊎ IsPayload p h
    → (h' : Heap) × (free p h ≡ some h') × Tiles lo hi h'
unfolding free
free-Tiles lo hi p h c t (inl e) = (h, ground arith, t)
free-Tiles lo hi p h c t (inr m) = elim (Bool-cases (p == 0)) [
  | inl q ↦ (h, rw q refl, t)
  | inr q ↦
      let (r, f) = mark_free_total p h m in
      (
        merge_prev p r,
        rw (q, f) refl,
        merge_prev-Tiles lo hi p r c (mark_free-Tiles lo hi p h r c t f),
      )
]

split_head-Tiles :
    (lo hi size : ℕ) (h : Heap)
    → Canonical hi
    → size ≤ 2 ^ 63
    → Tiles lo hi h
    → Tiles lo hi (split_head size h)
unfolding split_head
split_head-Tiles lo hi size [] c le t = t
split_head-Tiles lo hi size (b ∷ h) c le t =
    (split-Tiles lo hi (align_up size) b h c t (omega arith)).0

grow-Tiles :
    (lo hi size : ℕ) (b : Block) (h h' : Heap)
    → Canonical hi
    → size ≤ 2 ^ 63
    → Tiles lo hi (b ∷ h)
    → grow size b h ≡ some h'
    → Tiles lo hi h'
unfolding grow
grow-Tiles lo hi size b [] h' c le t e = cc
grow-Tiles lo hi size b (n ∷ h) h' c le t e =
    subst (Tiles lo hi) (ground arith) (
      split_head-Tiles lo hi size (merge_next b (n ∷ h)) c le
        (merge_next-Tiles lo hi b (n ∷ h) c t))

resize_tail :
    (p size : ℕ) (b : Block) (h h' : Heap) {s : ℕ}
    → (b.addr + header == p) ≡ false
    → resize p size (b ∷ h) ≡ some (some h', s)
    → (r : Heap) × (s' : ℕ) × (resize p size h ≡ some (some r, s')) × (h' ≡ b ∷ r)
unfolding resize
resize_tail p size b h h' q e = elim (Option-cases (resize p size h)) [
  | inl n ↦ absurd (ground arith)
  | inr ((o, s'), f) ↦ elim (Option-cases o) [
    | inl n ↦ absurd (ground arith)
    | inr (r, g) ↦ (r, s', ground arith, ground arith)
  ]
]

-- realloc in place to at most 2 ^ 63 bytes, by shrinking the block or growing it over the next one,
-- keeps the blocks of one arena below 2 ^ 63 tiling it.
pub resize-Tiles :
    (lo hi p size : ℕ) (h : Heap) {h' : Heap} {s : ℕ}
    → Canonical hi
    → size ≤ 2 ^ 63
    → Tiles lo hi h
    → resize p size h ≡ some (some h', s)
    → Tiles lo hi h'
unfolding resize
resize-Tiles lo hi p size [] c le t e = cc
resize-Tiles lo hi p size (b ∷ h) {h'} c le t e = elim (Bool-cases (b.addr + header == p)) [
  | inl q ↦ elim (Bool-cases (leb size b.size)) [
    | inl r ↦ subst (Tiles lo hi) (ground arith) (split_head-Tiles lo hi size (b ∷ h) c le t)
    | inr r ↦ grow-Tiles lo hi size b h h' c le t (ground arith)
  ]
  | inr q ↦
      let (r, s', e', e'') = resize_tail p size b h h' q e in
      subst (Tiles lo hi) (sym e'')
        (t.0, resize-Tiles (lo + header + b.size) hi p size h c le t.1 e')
]
