-- ===== src/Libc/Memory.antt =====
-- The block operations of xiaobaios/src/libc_string.c. Memory gives each address its byte, and the
-- null pointer is address 0. A function that writes returns the memory after it.
pub mod Copy
pub mod Search
use xiaobai_os.Base.{
  ℕ, zero, suc, ◌+◌, ◌%◌, Bool, true, false, ◌||◌, ltb, leb, ◌==◌, if◌then◌else◌, ℤ, pos, negsuc,
}

abbrev pub Memory : Type 0
Memory = ℕ → ℕ

abbrev pub store : Memory → ℕ → ℕ → Memory
store m p v a = if a == p then v else m a

-- The loop over `i` with that many rounds left.
fill : ℕ → ℕ → ℕ → ℕ → Memory → Memory
fill zero i d byte m = m
fill (suc n) i d byte m = fill n (i + 1) d byte (store m (d + i) byte)

unfoldable pub memset : ℕ → ℕ → ℕ → Memory → Memory
unfolding fill
memset dst value size m = if dst == 0 then m else fill size 0 dst (value % 256) m

copy_up : ℕ → ℕ → ℕ → ℕ → Memory → Memory
copy_up zero i d s m = m
copy_up (suc n) i d s m = copy_up n (i + 1) d s (store m (d + i) (m (s + i)))

copy_down : ℕ → ℕ → ℕ → Memory → Memory
copy_down zero d s m = m
copy_down (suc i) d s m = copy_down i d s (store m (d + i) (m (s + i)))

unfoldable pub memcpy : ℕ → ℕ → ℕ → Memory → Memory
unfolding copy_up
memcpy dst src size m = if dst == 0 || src == 0 then m else copy_up size 0 dst src m

unfoldable pub memmove : ℕ → ℕ → ℕ → Memory → Memory
unfolding copy_up copy_down
memmove d s size m =
    if d == 0 || s == 0 || d == s || size == 0
    then m
    else if ltb d s || leb (s + size) d
    then copy_up size 0 d s m
    else copy_down size d s m

compare_from : ℕ → ℕ → ℕ → ℕ → Memory → ℤ
compare_from zero i a b m = pos 0
compare_from (suc n) i a b m =
    let rest = compare_from n (i + 1) a b m in
    if m (a + i) == m (b + i) then rest else if ltb (m (a + i)) (m (b + i)) then negsuc 0 else pos 1

unfoldable pub memcmp : ℕ → ℕ → ℕ → Memory → ℤ
unfolding compare_from
memcmp a b size m =
    if a == b || size == 0
    then pos 0
    else if a == 0
    then negsuc 0
    else if b == 0
    then pos 1
    else compare_from size 0 a b m

find_from : ℕ → ℕ → ℕ → ℕ → Memory → ℕ
find_from zero i s needle m = 0
find_from (suc n) i s needle m =
    let rest = find_from n (i + 1) s needle m in if m (s + i) == needle then s + i else rest

-- The address found, or the null pointer.
unfoldable pub memchr : ℕ → ℕ → ℕ → Memory → ℕ
unfolding find_from
memchr s value size m = if s == 0 then 0 else find_from size 0 s (value % 256) m
