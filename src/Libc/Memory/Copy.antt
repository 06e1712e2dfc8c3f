-- ===== src/Libc/Memory/Copy.antt =====
-- What memset, memcpy and memmove leave at each address.
use xiaobai_os.Base.{
  ℕ, zero, suc, ◌+◌, ◌-◌, ◌%◌, ◌≤◌, ◌≡◌, ◌≢◌, Bool, ◌⊎◌, ◌&&◌, arith, ltb, leb, if◌then◌else◌,
}
use xiaobai_os.Libc.Memory.{Memory, store, fill, copy_up, copy_down, memset, memcpy, memmove}

-- Whether an address lies in the block of `n` bytes at `d`.
abbrev pub inside : ℕ → ℕ → ℕ → Bool
inside d n a = leb d a && ltb a (d + n)

fill_lem :
    (n i d byte : ℕ) (m : Memory) (a : ℕ)
    → fill n i d byte m a ≡ (if leb (d + i) a && ltb a (d + i + n) then byte else m a)
unfolding fill
fill_lem zero i d byte m a = ground arith
fill_lem (suc n) i d byte m a = ground (arith, fill_lem n (i + 1) d byte (store m (d + i) byte) a)

-- memset at an address other than 0 writes its byte to every address of the block and to no other.
pub memset_lem :
    (d value n : ℕ) (m : Memory) (a : ℕ)
    → d ≢ 0
    → memset d value n m a ≡ (if inside d n a then value % 256 else m a)
unfolding memset
memset_lem d value n m a h = ground (arith, fill_lem n 0 d (value % 256) m a)

copy_up_lem :
    (n i d s : ℕ) (m : Memory) (a : ℕ)
    → (d ≤ s) ⊎ (s + (i + n) ≤ d)
    → copy_up n i d s m a ≡ (if leb (d + i) a && ltb a (d + i + n) then m (s + (a - d)) else m a)
unfolding copy_up
copy_up_lem zero i d s m a h = ground arith
copy_up_lem (suc n) i d s m a h =
    ground (arith, copy_up_lem n (i + 1) d s (store m (d + i) (m (s + i))) a)

copy_down_lem :
    (n d s : ℕ) (m : Memory) (a : ℕ)
    → s ≤ d
    → copy_down n d s m a ≡ (if inside d n a then m (s + (a - d)) else m a)
unfolding copy_down
copy_down_lem zero d s m a h = ground arith
copy_down_lem (suc n) d s m a h =
    ground (arith, copy_down_lem n d s (store m (d + n) (m (s + n))) a)

-- memmove between addresses other than 0 copies the block for every overlap of source and
-- destination: afterwards the destination holds the bytes that the source held before, and every
-- other address is as it was.
pub memmove_lem :
    (d s n : ℕ) (m : Memory) (a : ℕ)
    → d ≢ 0
    → s ≢ 0
    → memmove d s n m a ≡ (if inside d n a then m (s + (a - d)) else m a)
unfolding memmove
memmove_lem d s n m a hd hs = ground (arith, copy_up_lem n 0 d s m a, copy_down_lem n d s m a)

-- memcpy agrees with memmove wherever the destination does not start inside the source.
pub memcpy-eq-memmove :
    (d s n : ℕ) (m : Memory) (a : ℕ) → (d ≤ s) ⊎ (s + n ≤ d) → memcpy d s n m a ≡ memmove d s n m a
unfolding memcpy memmove
memcpy-eq-memmove d s n m a h = ground (arith, copy_up_lem n 0 d s m a)
