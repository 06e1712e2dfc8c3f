-- ===== src/Libc/Heap/Chunks.antt =====
-- The blocks made of a chunk from the kernel tile that chunk.
use xiaobai_os.Base.{
  ℕ, ◌+◌, ◌-◌, ◌%◌, ◌^◌, ◌≤◌, ◌<◌, ◌≡◌, refl, subst, arith, true, ◌==◌, if◌then◌else◌, ltb,
  Bool-cases, ◌⊎◌, inl, inr, Option, none, some, [], append-nil,
}
use xiaobai_os.Libc.Heap.Tiling.{Tiles, split-Tiles}
use xiaobai_os.Libc.Heap.{
  Block, Heap, header, heap_split, take_first, request_chunk, chunk_size, chunk_max, add_size,
}

-- What the kernel gives out lies in the addresses of user programs.
abbrev pub InUser : (ℕ → ℕ) → Type 0
InUser alloc = (n : ℕ) → (alloc n ≡ 0) ⊎ (alloc n + n ≤ 2 ^ 63)

-- The blocks behind the arena: none, or those that fill one chunk from the kernel.
abbrev pub Chunk : ℕ → Heap → Type 0
Chunk size chunk = (chunk ≡ []) ⊎ ((a : ℕ) × Tiles a (a + size) chunk)

chunk_size-le : (need : ℕ) → need < 2 ^ 64 - 48 → need % 16 ≡ 0 → need + header ≤ chunk_size need
unfolding chunk_size
chunk_size-le need lt al = elim (Bool-cases (ltb chunk_max (add_size need header))) [
  | inl q ↦ rw q (omega arith)
  | inr q ↦ let small : add_size need header ≤ chunk_max = ground arith in rw q (omega arith)
]

-- The block of a chunk, by the allocator that gave it.
record Fresh (size : ℕ) (b : Block) : Type 0 where
  ends : b.addr + size ≤ 2 ^ 63
  rest : b.size ≡ size - header

Fresh-at :
    (size a : ℕ) (b : Block)
    → (a ≡ 0) ⊎ (a + size ≤ 2 ^ 63)
    → ◌≡◌ {A = Option Block}
        (if a == 0 then none else some (record { addr = a; size = size - header; free = true }))
        (some b)
    → Fresh size b
Fresh-at size a b (inl z) e = absurd (ground arith)
Fresh-at size a b (inr le) e = record { ends = ground arith; rest = ground arith }

request_chunk-Fresh :
    (vm_alloc user_heap_alloc : ℕ → ℕ) (need : ℕ) (b : Block)
    → InUser vm_alloc
    → InUser user_heap_alloc
    → request_chunk vm_alloc user_heap_alloc need ≡ some b
    → Fresh (chunk_size need) b
unfolding request_chunk
request_chunk-Fresh vm_alloc user_heap_alloc need b hv hu e =
    Fresh-at (chunk_size need)
      (if vm_alloc (chunk_size need) == 0
        then user_heap_alloc (chunk_size need)
        else vm_alloc (chunk_size need))
      b (ground (arith, hv (chunk_size need), hu (chunk_size need))) e

pub request_chunk-Tiles :
    (vm_alloc user_heap_alloc : ℕ → ℕ) (need : ℕ) (b : Block)
    → InUser vm_alloc
    → InUser user_heap_alloc
    → need < 2 ^ 64 - 48
    → need % 16 ≡ 0
    → request_chunk vm_alloc user_heap_alloc need ≡ some b
    → Chunk (chunk_size need) (take_first (heap_split b need))
request_chunk-Tiles vm_alloc user_heap_alloc need b hv hu lt al e =
    let fresh = request_chunk-Fresh vm_alloc user_heap_alloc need b hv hu e in
    let room = chunk_size-le need lt al in
    inr (
      b.addr,
      subst (Tiles b.addr (b.addr + chunk_size need)) (append-nil (take_first (heap_split b need)))
          (split-Tiles b.addr (b.addr + chunk_size need) need b [] fresh.ends
            (refl, omega (arith, fresh.rest)) lt).1,
    )
