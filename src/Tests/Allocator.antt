-- ===== src/Tests/Allocator.antt =====
-- The allocator on an arena of two blocks at address 4096.
use xiaobai_os.Base.{
  ℕ, ◌≤◌, ◌<◌, ◌≡◌, refl, arith, true, false, some, [], ◌∷◌, All, ◌⊎◌, inl, inr, none, leb,
  if◌then◌else◌,
}
use xiaobai_os.Libc.Heap.{
  Block, Heap, heap_split, merge_next, take_first, place, malloc, free, split_head, grow, resize,
}
use xiaobai_os.Libc.Heap.Tiling.{Tiles}
use xiaobai_os.Libc.Heap.Arena.{free-Tiles, resize-Tiles}
use xiaobai_os.Libc.Heap.Placing.{fit, Placed, place-cases}
use xiaobai_os.Libc.Heap.Releasing.{free-place}
use xiaobai_os.Libc.Heap.Faults.{malloc_wraps, free_joins_chunks}

-- One block in use, and one free block behind it.
abbrev used : Block
used = record { addr = 4096; size = 64; free = false }

abbrev spare : Block
spare = record { addr = 4192; size = 1000; free = true }

abbrev arena : Heap
arena = used ∷ (spare ∷ [])

-- The arena after `malloc(100)`.
abbrev taken : Heap
taken =
    used
    ∷ (record { addr = 4192; size = 112; free = false }
        ∷ (record { addr = 4336; size = 856; free = true } ∷ []))

no_chunk : ℕ → ℕ
no_chunk size = 0

place_runs : place 112 arena ≡ some (4224, taken)
unfolding place heap_split take_first
place_runs = refl

free-Tiles_example : (h' : Heap) × (free 4224 taken ≡ some h') × Tiles 4096 5224 h'
free-Tiles_example =
    free-Tiles 4096 5224 4224 taken (omega arith) (refl, (refl, (refl, refl)))
      (inr (inr (inl refl)))

free-place_example : free 4224 taken ≡ some arena
free-place_example =
    free-place 4096 5224 112 4224 arena taken (omega arith) (refl, (refl, refl)) (refl, tt)
      place_runs

place-cases_example :
    ((place 112 arena ≡ none) × All (λ c. fit 112 c ≡ false) arena)
    ⊎ ((p : ℕ) × (h' : Heap) × (place 112 arena ≡ some (p, h')) × Placed 112 arena p h')
place-cases_example = place-cases 112 arena

-- The block in use grows over the spare one.
abbrev grown : Heap
grown =
    record { addr = 4096; size = 208; free = false }
    ∷ (record { addr = 4336; size = 856; free = true } ∷ [])

resize_runs : resize 4128 200 arena ≡ some (some grown, 64)
unfolding resize grow split_head heap_split merge_next
resize_runs = refl

resize-Tiles_example : Tiles 4096 5224 grown
resize-Tiles_example =
    resize-Tiles 4096 5224 4128 200 arena (omega arith) (omega arith) (refl, (refl, refl))
      resize_runs

-- A kernel that maps one place of 8 MB.
one_chunk : ℕ → ℕ
one_chunk size = if leb size 8388608 then 16777216 else 0

malloc_wraps_example :
    malloc no_chunk no_chunk 4192 1032 18446744073709551601 (spare ∷ [])
    ≡ some (
      4224,
      record { addr = 4192; size = 0; free = false }
          ∷ (record { addr = 4224; size = 968; free = true } ∷ []),
    )
malloc_wraps_example =
    malloc_wraps no_chunk no_chunk 4192 1032 18446744073709551601 spare [] (omega arith)
      (omega arith) refl (omega arith)

-- A block of another chunk.
abbrev distant : Block
distant = record { addr = 65536; size = 1000; free = true }

free_joins_chunks_example :
    (freed h : Heap) × (free 4128 (used ∷ (distant ∷ [])) ≡ some freed)
    × (malloc no_chunk no_chunk 4096 96 112 freed ≡ some (4128, h))
    × (x : ℕ) × (4128 ≤ x)
    × (x < 4240)
    × (4192 ≤ x)
    × (x < 65536)
free_joins_chunks_example =
    free_joins_chunks no_chunk no_chunk 4096 96 112 used distant refl (omega arith) (omega arith)
      (omega arith) (omega arith) refl
