-- ===== src/Libc/Heap.antt =====
-- The allocator of xiaobaios/src/libc_stdlib.c. The doubly linked list of headers is the list of its
-- blocks in that order: every operation keeps `prev` the inverse of `next` and the tail pointer at the
-- last block. A header takes 32 bytes, and its payload follows it. Sizes are 64-bit words.
pub mod Arena
pub mod Tiling
pub mod Chunks
pub mod Placing
pub mod Releasing
pub mod Faults
use xiaobai_os.Base.{
  ℕ, zero, suc, ◌+◌, ◌-◌, ◌*◌, ◌/◌, ◌%◌, ◌^◌, Bool, true, false, not, ◌&&◌, ◌||◌, ◌==◌, ltb, leb,
  if◌then◌else◌, Option, none, some, ◌>>=◌, List, [], ◌∷◌, ◌++◌,
}
use xiaobai_os.Libc.Memory.{Memory, memcpy, memset}

-- `clib_heap_block` with its own address.
pub record Block : Type 0 where
  pub addr : ℕ
  pub size : ℕ
  pub free : Bool

abbrev pub Heap : Type 0
Heap = List Block

abbrev pub header : ℕ
header = 32

abbrev pub add_size : ℕ → ℕ → ℕ
add_size a b = (a + b) % 2 ^ 64

abbrev pub sub_size : ℕ → ℕ → ℕ
sub_size a b = (a + 2 ^ 64 - b) % 2 ^ 64

-- `(value + 15) & ~15`.
abbrev pub align_up : ℕ → ℕ
align_up value = add_size value 15 / 16 * 16

-- The program's static heap, `total` bytes from `start` on.
unfoldable pub heap_init : ℕ → ℕ → Heap → Heap
heap_init start total [] =
    if leb total header
    then []
    else record { addr = start; size = total - header; free = true } ∷ []
heap_init start total (b ∷ h) = b ∷ h

-- `clib_heap_split`: the block, and the free block made of its end where that is large enough.
unfoldable pub heap_split : Block → ℕ → Heap
heap_split b size =
    if ltb b.size (add_size size (header + 16))
    then b ∷ []
    else record b { size = size }
      ∷ record {
        addr = add_size b.addr (header + size);
        size = sub_size (sub_size b.size size) header;
        free = true;
      }
      ∷ []

-- Whether the test of the split wraps, so that the split is made though the block is too small: the
-- tail's header then lies on the block's own or on the 16 bytes before it, and what is left is no list.
abbrev pub split_wraps : ℕ → Bool
split_wraps size = leb (2 ^ 64) (size + header + 16)

-- `clib_heap_merge_next` at a block with the list behind it.
unfoldable pub merge_next : Block → Heap → Heap
merge_next b [] = b ∷ []
merge_next b (n ∷ h) =
    if n.free then record b { size = add_size b.size (header + n.size) } ∷ h else b ∷ (n ∷ h)

-- `current->free = 0` on the first block of a split.
unfoldable pub take_first : Heap → Heap
take_first [] = []
take_first (b ∷ h) = record b { free = false } ∷ h

-- The walk of malloc: the first free block that is large enough, its payload's address and the list
-- after the split.
unfoldable pub place : ℕ → Heap → Option (ℕ × Heap)
place need [] = none
place need (b ∷ h) =
    let rest = place need h in
    if b.free && leb need b.size
    then some (b.addr + header, take_first (heap_split b need) ++ h)
    else (rest >>= λ (p, h'). some (p, b ∷ h'))

abbrev pub chunk_max : ℕ
chunk_max = 4 * 1024 * 1024

-- The size of a fresh chunk. (The first test of the code compares two constants.)
unfoldable pub chunk_size : ℕ → ℕ
chunk_size need =
    let wanted = add_size need header in
    align_up (if ltb chunk_max wanted then wanted else chunk_max)

-- The kernel's two allocators as the addresses that they return for a size, 0 for a failure.
module _ (vm_alloc user_heap_alloc : ℕ → ℕ) where
  -- `clib_heap_request_chunk`: the new last block.
  unfoldable pub request_chunk : ℕ → Option Block
  request_chunk need =
      let size = chunk_size need in
      let a = if vm_alloc size == 0 then user_heap_alloc size else vm_alloc size in
      if a == 0 then none else some (record { addr = a; size = size - header; free = true })

  module _ (start total : ℕ) where
    -- The pointer returned, 0 for null, and the heap after the call; `none` where the split of a fresh
    -- chunk writes a header over the chunk's own.
    unfoldable pub malloc : ℕ → Heap → Option (ℕ × Heap)
    malloc size h =
        if size == 0
        then some (0, h)
        else (let h' = heap_init start total h in
            elim (place (align_up size) h') [
              | some out ↦ some out
              | none ↦ elim (request_chunk (align_up size)) [
                | none ↦ some (0, h')
                | some b ↦
                    if split_wraps (align_up size)
                    then none
                    else some (b.addr + header, h' ++ take_first (heap_split b (align_up size)))
              ]
            ])

    unfoldable pub calloc : ℕ → ℕ → Heap → Memory → Option (ℕ × Heap × Memory)
    calloc count size h m =
        if not (count == 0) && ltb ((2 ^ 64 - 1) / count) size
        then some (0, h, m)
        else (malloc (count * size) h >>= λ (p, h').
            some (p, h', if p == 0 then m else memset p 0 (count * size) m))

-- `block->free = 1` and the merge with the next block, at the block whose payload is at `p`; `none`
-- where no block has it: the code then writes to the 32 bytes before `p`, which are no header.
unfoldable pub mark_free : ℕ → Heap → Option Heap
mark_free p [] = none
mark_free p (b ∷ h) =
    let rest = mark_free p h in
    if b.addr + header == p
    then some (merge_next (record b { free = true }) h)
    else (rest >>= λ h'. some (b ∷ h'))

-- The merge of the block before it, if that is free.
unfoldable pub merge_prev : ℕ → Heap → Heap
merge_prev p [] = []
merge_prev p (b ∷ []) = b ∷ []
merge_prev p (b ∷ (n ∷ h)) =
    if n.addr + header == p
    then if b.free then merge_next b (n ∷ h) else b ∷ (n ∷ h)
    else b ∷ merge_prev p (n ∷ h)

unfoldable pub free : ℕ → Heap → Option Heap
unfolding mark_free merge_prev
free p h = if p == 0 then some h else (mark_free p h >>= λ h'. some (merge_prev p h'))

-- The split of the first block.
unfoldable pub split_head : ℕ → Heap → Heap
split_head size [] = []
split_head size (b ∷ h) = heap_split b (align_up size) ++ h

-- Growing a block over the free block behind it.
unfoldable pub grow : ℕ → Block → Heap → Option Heap
grow size b [] = none
grow size b (n ∷ h) =
    if n.free && leb size (add_size (add_size b.size header) n.size)
    then some (split_head size (merge_next b (n ∷ h)))
    else none

-- What realloc does in place at the block whose payload is at `p`, with that block's size: the heap
-- where the block is large enough or can grow, and `none` where it has to move.
unfoldable pub resize : ℕ → ℕ → Heap → Option (Option Heap × ℕ)
resize p size [] = none
resize p size (b ∷ h) =
    let rest = resize p size h in
    if b.addr + header == p
    then some (if leb size b.size then some (split_head size (b ∷ h)) else grow size b h, b.size)
    else (rest >>= λ (r, s). some (r >>= (λ h'. some (b ∷ h')), s))

module _ (vm_alloc user_heap_alloc : ℕ → ℕ) (start total : ℕ) where
  -- `none` where the pointer is not null and no block has it, and where malloc gives `none`.
  unfoldable pub realloc : ℕ → ℕ → Heap → Memory → Option (ℕ × Heap × Memory)
  realloc p size h m =
      if p == 0
      then (malloc vm_alloc user_heap_alloc start total size h >>= λ (q, h'). some (q, h', m))
      else if size == 0
      then (free p h >>= λ h'. some (0, h', m))
      else (resize p size h >>= λ (r, s). elim r [
        | some h' ↦ some (p, h', m)
        | none ↦
            (malloc vm_alloc user_heap_alloc start total size h >>= λ (q, h').
            if q == 0
            then some (0, h', m)
            else (free p h' >>= λ h''.
                some (q, h'', memcpy q p (if ltb s size then s else size) m)))
      ])
