-- ===== src/Libc/Copying.antt =====
-- The string functions of xiaobaios/src/libc_string.c that measure and copy. Source and destination
-- are different objects, as C asks of these functions.
pub mod Laws
use xiaobai_os.Base.{
  ℕ, zero, suc, ◌+◌, Bool, ◌||◌, ◌==◌, if◌then◌else◌, Option, none, some, ◌>>=◌, List, [], ◌∷◌,
  ◌++◌, Bytes, take, drop,
}
use xiaobai_os.Libc.Pointer.{Ptr, is_null}

-- The loop of strlen, with `len` characters behind it.
len_from : Bytes → ℕ → Option ℕ
len_from [] len = none
len_from (c ∷ s) len = if c == 0 then some len else len_from s (len + 1)

unfoldable pub strlen : Ptr → Option ℕ
unfolding len_from
strlen p = if is_null p then some 0 else len_from p.bytes 0

-- The first argument is `max_size - len`.
nlen_from : ℕ → Bytes → ℕ → Option ℕ
nlen_from zero s len = some len
nlen_from (suc k) [] len = none
nlen_from (suc k) (c ∷ s) len = if c == 0 then some len else nlen_from k s (len + 1)

unfoldable pub strnlen : Ptr → ℕ → Option ℕ
unfolding nlen_from
strnlen p max_size = if is_null p then some 0 else nlen_from max_size p.bytes 0

-- Source and destination from the index `i` on; the result is the destination from there on.
copy_text : Bytes → Bytes → Option Bytes
copy_text [] d = none
copy_text (c ∷ s) [] = none
copy_text (c ∷ s) (x ∷ d) =
    let rest = copy_text s d in if c == 0 then some (0 ∷ d) else (rest >>= λ r. some (c ∷ r))

unfoldable pub strcpy : Ptr → Ptr → Option Ptr
unfolding copy_text
strcpy dst src =
    if is_null dst || is_null src
    then some dst
    else (copy_text src.bytes dst.bytes >>= λ b. some (record dst { bytes = b }))

-- `while (i < size) dst[i++] = 0`, with that many rounds left.
pad : ℕ → Bytes → Option Bytes
pad zero d = some d
pad (suc k) [] = none
pad (suc k) (x ∷ d) = pad k d >>= λ r. some (0 ∷ r)

copy_upto : ℕ → Bytes → Bytes → Option Bytes
copy_upto zero s d = some d
copy_upto (suc k) [] d = none
copy_upto (suc k) (c ∷ s) [] = none
copy_upto (suc k) (c ∷ s) (x ∷ d) =
    let rest = copy_upto k s d in
    if c == 0 then pad (suc k) (x ∷ d) else (rest >>= λ r. some (c ∷ r))

unfoldable pub strncpy : Ptr → Ptr → ℕ → Option Ptr
unfolding copy_upto pad
strncpy dst src size =
    if is_null dst || is_null src
    then some dst
    else (copy_upto size src.bytes dst.bytes >>= λ b. some (record dst { bytes = b }))

unfoldable pub strcat : Ptr → Ptr → Option Ptr
unfolding strlen copy_text
strcat dst src = strlen dst >>= λ dlen.
    if is_null dst || is_null src
    then some dst
    else (copy_text src.bytes (drop dlen dst.bytes) >>= λ b.
        some (record dst { bytes = take dlen dst.bytes ++ b }))

-- The loop of strncat with `size - i` rounds left, and the NUL written behind it.
append_upto : ℕ → Bytes → Bytes → Option Bytes
append_upto zero s [] = none
append_upto zero s (x ∷ d) = some (0 ∷ d)
append_upto (suc k) [] d = none
append_upto (suc k) (c ∷ s) [] = none
append_upto (suc k) (c ∷ s) (x ∷ d) =
    let rest = append_upto k s d in if c == 0 then some (0 ∷ d) else (rest >>= λ r. some (c ∷ r))

unfoldable pub strncat : Ptr → Ptr → ℕ → Option Ptr
unfolding strlen append_upto
strncat dst src size = strlen dst >>= λ dlen.
    if is_null dst || is_null src
    then some dst
    else (append_upto size src.bytes (drop dlen dst.bytes) >>= λ b.
        some (record dst { bytes = take dlen dst.bytes ++ b }))
