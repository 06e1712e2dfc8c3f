-- ===== src/Libc/Heap/Faults.antt =====
-- Two inputs at which the allocator gives out memory that it does not have.
use xiaobai_os.Base.{
  ℕ, ◌+◌, ◌-◌, ◌%◌, ◌^◌, ◌≤◌, ◌<◌, ◌≡◌, refl, arith, true, false, some, [], ◌∷◌, ◌++◌,
}
use xiaobai_os.Libc.Heap.{
  Block, Heap, header, align_up, heap_init, heap_split, merge_next, take_first, place, malloc,
  mark_free, merge_prev, free,
}

-- A request of 2 ^ 64 - 15 or more wraps to 0 when it is rounded up, so malloc serves it from a free
-- first block of 48 bytes or more and returns a payload of no bytes, not null.
pub malloc_wraps :
    (vm_alloc user_heap_alloc : ℕ → ℕ) (start total size : ℕ) (b : Block) (h : Heap)
    → 2 ^ 64 - 15 ≤ size
    → size < 2 ^ 64
    → b.free ≡ true
    → 48 ≤ b.size
    → malloc vm_alloc user_heap_alloc start total size (b ∷ h)
      ≡ some (
        b.addr + header,
        record b { size = 0; free = false }
            ∷ (record {
              addr = (b.addr + header) % 2 ^ 64;
              size = (b.size - header) % 2 ^ 64;
              free = true;
            }
                ∷ h),
      )
unfolding malloc heap_init place heap_split take_first
malloc_wraps vm_alloc user_heap_alloc start total size b h lo hi f big =
    let wrapped : align_up size ≡ 0 = omega arith in ground arith

joined : Block → Block → Block
joined b n = record b { size = b.size + header + n.size; free = true }

free-joined :
    (b n : Block)
    → n.free ≡ true
    → b.size + header + n.size < 2 ^ 63
    → free (b.addr + header) (b ∷ (n ∷ [])) ≡ some (joined b n ∷ [])
unfolding free mark_free merge_prev merge_next joined
free-joined b n f small = ground arith

malloc_from_one :
    (vm_alloc user_heap_alloc : ℕ → ℕ) (start total size : ℕ) (b : Block)
    → b.free ≡ true
    → 0 < size
    → align_up size ≡ size
    → size ≤ b.size
    → malloc vm_alloc user_heap_alloc start total size (b ∷ [])
      ≡ some (b.addr + header, take_first (heap_split b size) ++ [])
unfolding malloc heap_init place
malloc_from_one vm_alloc user_heap_alloc start total size b f pos al le = ground arith

-- free merges a block with a free one that is next in the list wherever that lies: a block and one
-- that lies behind a gap become one, and a request of whole 16 bytes that is larger than the first
-- and no larger than the two with a header is then served from it: the payload holds an address that
-- lies behind the first block and in front of the second.
pub free_joins_chunks :
    (vm_alloc user_heap_alloc : ℕ → ℕ) (start total size : ℕ) (b n : Block)
    → n.free ≡ true
    → b.addr + header + b.size < n.addr
    → b.size + header + n.size < 2 ^ 63
    → b.size < size
    → size ≤ b.size + header + n.size
    → size % 16 ≡ 0
    → (freed h : Heap) × (free (b.addr + header) (b ∷ (n ∷ [])) ≡ some freed)
      × (malloc vm_alloc user_heap_alloc start total size freed ≡ some (b.addr + header, h))
      × (x : ℕ) × (b.addr + header ≤ x)
      × (x < b.addr + header + size)
      × (b.addr + header + b.size ≤ x)
      × (x < n.addr)
unfolding joined
free_joins_chunks vm_alloc user_heap_alloc start total size b n f apart small lo hi al = (
  joined b n ∷ [],
  take_first (heap_split (joined b n) size) ++ [],
  free-joined b n f small,
  malloc_from_one vm_alloc user_heap_alloc start total size (joined b n) refl (omega arith)
      (omega arith) hi,
  b.addr + header + b.size,
  omega arith,
  omega arith,
  omega arith,
  apart,
)
