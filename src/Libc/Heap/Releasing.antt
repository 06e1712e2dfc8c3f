-- ===== src/Libc/Heap/Releasing.antt =====
-- What malloc takes from one arena, free gives back: the heap is as it was.
use xiaobai_os.Base.{
  ℕ, ◌+◌, ◌^◌, ◌≤◌, ◌<◌, ◌≡◌, ◌≢◌, refl, sym, ap, subst, ◌∙◌, inl, inr, arith, true, false, ◌&&◌,
  ◌==◌, Option, some, [], ◌∷◌, ◌++◌, All,
}
use xiaobai_os.Libc.Heap.{
  Block, Heap, header, heap_split, merge_next, take_first, place, mark_free, merge_prev, free,
}
use xiaobai_os.Libc.Heap.Tiling.{Tiles, Tiles-le, Canonical}
use xiaobai_os.Libc.Heap.Placing.{Placed, place-cases}

-- No two neighbours are both free: there is nothing left to merge.
abbrev pub Coalesced : Heap → Type 0
Coalesced [] = Unit
Coalesced (b ∷ []) = Unit
Coalesced (b ∷ (n ∷ h)) = ((b.free && n.free) ≡ false) × Coalesced (n ∷ h)

-- No block of the list has its payload at `p`.
abbrev Elsewhere : ℕ → Heap → Type 0
Elsewhere p = All (λ b. b.addr + header ≢ p)

-- The last block of the list is in use.
abbrev EndsUsed : Heap → Type 0
EndsUsed [] = Unit
EndsUsed (b ∷ []) = b.free ≡ false
EndsUsed (b ∷ (n ∷ h)) = EndsUsed (n ∷ h)

abbrev BeginsUsed : Heap → Type 0
BeginsUsed [] = Unit
BeginsUsed (n ∷ h) = n.free ≡ false

mark_free-behind :
    (p : ℕ) (before h : Heap)
    → Elsewhere p before
    → {h' : Heap} → mark_free p h ≡ some h'
    → mark_free p (before ++ h) ≡ some (before ++ h')
unfolding mark_free
mark_free-behind p [] h e m = m
mark_free-behind p (b ∷ before) h (ne, e) m = ground (arith, mark_free-behind p before h e m)

merge_prev_stays : (p : ℕ) (b : Block) (h : Heap) → Elsewhere p h → merge_prev p (b ∷ h) ≡ b ∷ h
unfolding merge_prev
merge_prev_stays p b [] e = refl
merge_prev_stays p b (n ∷ h) (ne, e) = ground (arith, merge_prev_stays p n h e)

merge_prev-behind :
    (p : ℕ) (before : Heap) (b : Block) (h : Heap)
    → Elsewhere p before
    → EndsUsed before
    → Elsewhere p h
    → b.addr + header ≡ p
    → merge_prev p (before ++ (b ∷ h)) ≡ before ++ (b ∷ h)
unfolding merge_prev
merge_prev-behind p [] b h e u away q = merge_prev_stays p b h away
merge_prev-behind p (c ∷ []) b h (ne, e) u away q = ground arith
merge_prev-behind p (c ∷ (d ∷ before)) b h (ne, (ne', e)) u away q =
    ground (arith, merge_prev-behind p (d ∷ before) b h (ne', e) u away q)

Tiles-above : (lo hi p : ℕ) (h : Heap) → Tiles lo hi h → p < lo + header → Elsewhere p h
Tiles-above lo hi p [] t lt = tt
Tiles-above lo hi p (b ∷ h) (e, t) lt =
    (omega arith, Tiles-above (lo + header + b.size) hi p h t (omega arith))

Tiles-Elsewhere :
    (lo hi : ℕ) (before : Heap) (b : Block) (h : Heap)
    → Tiles lo hi (before ++ (b ∷ h))
    → Elsewhere (b.addr + header) before
      × Elsewhere (b.addr + header) h
      × (lo ≤ b.addr)
      × (b.size ≤ hi)
Tiles-Elsewhere lo hi [] b h (e, t) = (
  tt,
  Tiles-above _ hi (b.addr + header) h t (omega arith),
  omega arith,
  omega (arith, Tiles-le _ hi h t),
)
Tiles-Elsewhere lo hi (c ∷ before) b h (e, t) =
    let (away, above, le, small) = Tiles-Elsewhere (lo + header + c.size) hi before b h t in
    ((omega arith, away), above, omega arith, small)

Coalesced-around :
    (before : Heap) (b : Block) (h : Heap)
    → Coalesced (before ++ (b ∷ h))
    → b.free ≡ true
    → EndsUsed before × BeginsUsed h
Coalesced-around [] b [] c f = (tt, tt)
Coalesced-around [] b (n ∷ h) c f = (tt, ground arith)
Coalesced-around (d ∷ []) b h c f = (ground arith, (Coalesced-around [] b h c.1 f).1)
Coalesced-around (d ∷ (e ∷ before)) b h c f = Coalesced-around (e ∷ before) b h c.1 f

-- Freeing the block that a walk has just split off joins it with what was split from it.
mark_free-take_first :
    (need : ℕ) (b : Block) (after : Heap)
    → b.free ≡ true
    → need ≤ b.size
    → b.size ≤ 2 ^ 63
    → BeginsUsed after
    → mark_free (b.addr + header) (take_first (heap_split b need) ++ after) ≡ some (b ∷ after)
unfolding mark_free merge_next heap_split take_first
mark_free-take_first need b [] f le small u = ground arith
mark_free-take_first need b (n ∷ after) f le small u = ground arith

free_undoes :
    (lo hi need : ℕ) (before : Heap) (b : Block) (after : Heap)
    → Canonical hi
    → Tiles lo hi (before ++ (b ∷ after))
    → Coalesced (before ++ (b ∷ after))
    → b.free ≡ true
    → need ≤ b.size
    → free (b.addr + header) (before ++ (take_first (heap_split b need) ++ after))
      ≡ some (before ++ (b ∷ after))
unfolding free
free_undoes lo hi need before b after c t co f le =
    let (away, above, low, small) = Tiles-Elsewhere lo hi before b after t in
    let (ends, begins) = Coalesced-around before b after co f in
    let marked =
      mark_free-behind (b.addr + header) before (take_first (heap_split b need) ++ after) away
        (mark_free-take_first need b after f le (omega arith) begins) in
    let nonzero : ((b.addr + header) == 0) ≡ false = ground arith in
    rw (nonzero, marked)
      (ap some (merge_prev-behind (b.addr + header) before b after away ends above refl))

free-Placed :
    (lo hi need p : ℕ) (h h' : Heap)
    → Canonical hi
    → Tiles lo hi h
    → Coalesced h
    → Placed need h p h'
    → free p h' ≡ some h
free-Placed lo hi need p h h' c t co pl =
    rw (pl.payload, pl.becomes)
      (free_undoes lo hi need pl.before pl.block pl.after c (subst (Tiles lo hi) pl.whole t)
          (subst Coalesced pl.whole co) pl.was_free pl.fits
        ∙ ap some (sym pl.whole))

-- In one arena below 2 ^ 63, tiled by its blocks and with nothing left to merge, free undoes
-- malloc's walk: the heap is the one before.
pub free-place :
    (lo hi need p : ℕ) (h h' : Heap)
    → Canonical hi
    → Tiles lo hi h
    → Coalesced h
    → place need h ≡ some (p, h')
    → free p h' ≡ some h
free-place lo hi need p h h' c t co e = elim (place-cases need h) [
  | inl (n, _) ↦ absurd (cc)
  | inr (q, k, e', pl) ↦
      let same : ◌≡◌ {A = Option (ℕ × Heap)} (some (q, k)) (some (p, h')) = sym e' ∙ e in
      let pq : q ≡ p = ground arith in
      let kh : k ≡ h' = ground arith in rw (← pq, ← kh) (free-Placed lo hi need q h k c t co pl)
]
