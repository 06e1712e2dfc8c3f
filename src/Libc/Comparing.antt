-- ===== src/Libc/Comparing.antt =====
-- The comparisons of xiaobaios/src/libc_string.c and xiaobaios/src/libc_strings.c. `char` is signed on
-- the x86-64 target, so `<` on characters orders the bytes 128 to 255 below the others.
pub mod Order
pub mod Prefix
pub mod Caseless
use xiaobai_os.Base.{
  ℕ, zero, suc, ◌+◌, ◌-◌, ◌%◌, Bool, not, ◌&&◌, ◌||◌, ◌==◌, ltb, leb, if◌then◌else◌, Option, none,
  some, [], ◌∷◌, Bytes, ℤ, pos, negsuc,
}
use xiaobai_os.Libc.Pointer.{Ptr, is_null}

-- `l < r` on two values of type `char`.
abbrev pub char_lt : ℕ → ℕ → Bool
char_lt l r = ltb ((l + 128) % 256) ((r + 128) % 256)

-- What follows the loop: the characters at the index where it stopped.
abbrev order : ℕ → ℕ → ℤ
order l r = if l == r then pos 0 else if char_lt l r then negsuc 0 else pos 1

cmp_from : Bytes → Bytes → Option ℤ
cmp_from [] r = none
cmp_from (a ∷ l) [] = none
cmp_from (a ∷ l) (b ∷ r) =
    let rest = cmp_from l r in
    if not (a == 0) && not (b == 0)
    then if a == b then rest else some (if char_lt a b then negsuc 0 else pos 1)
    else some (order a b)

unfoldable pub strcmp : Ptr → Ptr → Option ℤ
unfolding cmp_from
strcmp left right =
    if left.addr == right.addr
    then some (pos 0)
    else if is_null left
    then some (negsuc 0)
    else if is_null right
    then some (pos 1)
    else cmp_from left.bytes right.bytes

-- The first argument is `size - i`.
ncmp_from : ℕ → Bytes → Bytes → Option ℤ
ncmp_from zero l r = some (pos 0)
ncmp_from (suc k) [] r = none
ncmp_from (suc k) (a ∷ l) [] = none
ncmp_from (suc k) (a ∷ l) (b ∷ r) =
    let rest = ncmp_from k l r in
    if not (a == 0) && not (b == 0)
    then if a == b then rest else some (if char_lt a b then negsuc 0 else pos 1)
    else some (order a b)

unfoldable pub strncmp : Ptr → Ptr → ℕ → Option ℤ
unfolding ncmp_from
strncmp left right size =
    if size == 0 || left.addr == right.addr
    then some (pos 0)
    else if is_null left
    then some (negsuc 0)
    else if is_null right
    then some (pos 1)
    else ncmp_from size left.bytes right.bytes

unfoldable pub strcoll : Ptr → Ptr → Option ℤ
strcoll left right = strcmp left right

pub lower : ℕ → ℕ
lower ch = if leb b'A' ch && leb ch b'Z' then ch - b'A' + b'a' else ch

casecmp_from : Bytes → Bytes → Option ℤ
unfolding lower
casecmp_from [] r = none
casecmp_from (a ∷ l) [] = none
casecmp_from (a ∷ l) (b ∷ r) =
    let rest = casecmp_from l r in
    if not (a == 0) && not (b == 0)
    then if lower a == lower b
      then rest
      else some (if ltb (lower a) (lower b) then negsuc 0 else pos 1)
    else some (order a b)

unfoldable pub strcasecmp : Ptr → Ptr → Option ℤ
unfolding casecmp_from
strcasecmp left right =
    if left.addr == right.addr
    then some (pos 0)
    else if is_null left
    then some (negsuc 0)
    else if is_null right
    then some (pos 1)
    else casecmp_from left.bytes right.bytes

ncasecmp_from : ℕ → Bytes → Bytes → Option ℤ
unfolding lower
ncasecmp_from zero l r = some (pos 0)
ncasecmp_from (suc k) [] r = none
ncasecmp_from (suc k) (a ∷ l) [] = none
ncasecmp_from (suc k) (a ∷ l) (b ∷ r) =
    let rest = ncasecmp_from k l r in
    if not (a == 0) && not (b == 0)
    then if lower a == lower b
      then rest
      else some (if ltb (lower a) (lower b) then negsuc 0 else pos 1)
    else some (order a b)

unfoldable pub strncasecmp : Ptr → Ptr → ℕ → Option ℤ
unfolding ncasecmp_from
strncasecmp left right size =
    if size == 0 || left.addr == right.addr
    then some (pos 0)
    else if is_null left
    then some (negsuc 0)
    else if is_null right
    then some (pos 1)
    else ncasecmp_from size left.bytes right.bytes
