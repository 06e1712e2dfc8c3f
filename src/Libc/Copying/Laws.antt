-- ===== src/Libc/Copying/Laws.antt =====
-- What the measuring and copying functions do on a C string, and when they leave their objects.
use xiaobai_os.Base.{
  ℕ, zero, suc, ◌+◌, ◌-◌, ◌≤◌, min, ◌≡◌, ◌≢◌, refl, arith, ltb, leb, none, some, [], ◌∷◌, ◌++◌,
  append_assoc, Bytes, NoNul, length, take, drop, replicate, if◌then◌else◌,
}
use xiaobai_os.Libc.Pointer.{Ptr, text}
use xiaobai_os.Libc.Copying.{
  len_from, strlen, nlen_from, strnlen, copy_text, strcpy, pad, copy_upto, strncpy, strcat,
  append_upto, strncat,
}

len_from-text :
    (s rest : Bytes) (n : ℕ) → NoNul s → len_from (s ++ (0 ∷ rest)) n ≡ some (n + length s)
unfolding len_from
len_from-text [] rest n h = ground arith
len_from-text (c ∷ s) rest n (p, h) = ground (arith, len_from-text s rest (n + 1) h)

pub strlen-text :
    (a : ℕ) (s rest : Bytes) → a ≢ 0 → NoNul s → strlen (text a s rest) ≡ some (length s)
unfolding strlen
strlen-text a s rest ha h = ground (arith, len_from-text s rest 0 h)

nlen_from-text :
    (k : ℕ) (s rest : Bytes) (n : ℕ)
    → NoNul s
    → nlen_from k (s ++ (0 ∷ rest)) n ≡ some (n + min k (length s))
unfolding nlen_from
nlen_from-text zero s rest n h = ground arith
nlen_from-text (suc k) [] rest n h = ground arith
nlen_from-text (suc k) (c ∷ s) rest n (p, h) = ground (arith, nlen_from-text k s rest (n + 1) h)

-- strlen of a C string counts the characters before the NUL, and strnlen the same count capped. The
-- pointer is not null.
pub strlen-strnlen :
    (a n : ℕ) (s rest : Bytes)
    → a ≢ 0
    → NoNul s
    → (strlen (text a s rest) ≡ some (length s))
      × (strnlen (text a s rest) n ≡ some (min n (length s)))
unfolding strnlen
strlen-strnlen a n s rest ha h =
    (strlen-text a s rest ha h, ground (arith, nlen_from-text n s rest 0 h))

copy_text-text :
    (s rest d : Bytes)
    → NoNul s
    → copy_text (s ++ (0 ∷ rest)) d
      ≡ (if ltb (length s) (length d) then some (s ++ (0 ∷ drop (suc (length s)) d)) else none)
unfolding copy_text
copy_text-text [] rest [] h = ground arith
copy_text-text [] rest (x ∷ d) h = ground arith
copy_text-text (c ∷ s) rest [] h = ground arith
copy_text-text (c ∷ s) rest (x ∷ d) (p, h) = ground (arith, copy_text-text s rest d h)

-- strcpy writes the string and its NUL over the start of the destination and leaves what is behind;
-- it leaves the destination object exactly when string and NUL do not fit. The pointers are not
-- null.
pub strcpy-text :
    (a : ℕ) (s rest : Bytes) (dst : Ptr)
    → a ≢ 0
    → dst.addr ≢ 0
    → NoNul s
    → strcpy dst (text a s rest) ≡ (
        if ltb (length s) (length dst.bytes)
        then some (record dst { bytes = s ++ (0 ∷ drop (suc (length s)) dst.bytes) })
        else none)
unfolding strcpy
strcpy-text a s rest dst ha hd h = ground (arith, copy_text-text s rest dst.bytes h)

pad_lem : (k : ℕ) (d : Bytes) → k ≤ length d → pad k d ≡ some (replicate k 0 ++ drop k d)
unfolding pad
pad_lem zero d h = refl
pad_lem (suc k) [] h = absurd (omega arith)
pad_lem (suc k) (x ∷ d) h = ground (arith, pad_lem k d)

-- The bytes of the field of `n` bytes that strncpy fills: the string cut to `n`, then NULs.
abbrev pub field : ℕ → Bytes → Bytes
field n s = take n s ++ replicate (n - length s) 0

copy_upto-text :
    (k : ℕ) (s rest d : Bytes)
    → NoNul s
    → k ≤ length d
    → copy_upto k (s ++ (0 ∷ rest)) d ≡ some (field k s ++ drop k d)
unfolding copy_upto
copy_upto-text zero s rest d h le = ground arith
copy_upto-text (suc k) s rest [] h le = absurd (omega arith)
copy_upto-text (suc k) [] rest (x ∷ d) h le = ground (arith, pad_lem (suc k) (x ∷ d))
copy_upto-text (suc k) (c ∷ s) rest (x ∷ d) (p, h) le = ground (arith, copy_upto-text k s rest d h)

-- strncpy fills the first `n` bytes of a destination that has them with the string cut to `n` and
-- NULs up to `n`, and no others; so the field holds no NUL where the string has `n` characters or
-- more. The pointers are not null.
pub strncpy-text :
    (a n : ℕ) (s rest : Bytes) (dst : Ptr)
    → a ≢ 0
    → dst.addr ≢ 0
    → NoNul s
    → n ≤ length dst.bytes
    → strncpy dst (text a s rest) n ≡ some (record dst { bytes = field n s ++ drop n dst.bytes })
unfolding strncpy
strncpy-text a n s rest dst ha hd h le = ground (arith, copy_upto-text n s rest dst.bytes h le)

pub take-text : (s t : Bytes) → take (length s) (s ++ t) ≡ s
take-text [] t = refl
take-text (c ∷ s) t = ground (arith, take-text s t)

pub drop-text : (s t : Bytes) → drop (length s) (s ++ t) ≡ t
drop-text [] t = refl
drop-text (c ∷ s) t = drop-text s t

append_upto-text :
    (k : ℕ) (s rest d : Bytes)
    → NoNul s
    → append_upto k (s ++ (0 ∷ rest)) d ≡ (
        if ltb (min k (length s)) (length d)
        then some (take k s ++ (0 ∷ drop (suc (min k (length s))) d))
        else none)
unfolding append_upto
append_upto-text zero s rest [] h = ground arith
append_upto-text zero s rest (x ∷ d) h = ground arith
append_upto-text (suc k) [] rest [] h = ground arith
append_upto-text (suc k) [] rest (x ∷ d) h = ground arith
append_upto-text (suc k) (c ∷ s) rest [] h = ground arith
append_upto-text (suc k) (c ∷ s) rest (x ∷ d) (p, h) = ground (arith, append_upto-text k s rest d h)

-- strcat puts the second string behind the first, over its NUL; strncat does so for the first `n`
-- characters of the second. Each leaves the object exactly when the joined string does not fit. The
-- pointers are not null.
pub strcat-text :
    (a b n : ℕ) (s t old rest : Bytes)
    → a ≢ 0
    → b ≢ 0
    → NoNul s
    → NoNul t
    → (strcat (text a s old) (text b t rest) ≡ (
        if leb (length t) (length old) then some (text a (s ++ t) (drop (length t) old)) else none))
      × (strncat (text a s old) (text b t rest) n ≡ (
          if leb (min n (length t)) (length old)
          then some (text a (s ++ take n t) (drop (min n (length t)) old))
          else none))
unfolding strcat strncat
strcat-text a b n s t old rest ha hb hs ht = (
  ground (
    arith,
    len_from-text s old 0 hs,
    take-text s (0 ∷ old),
    drop-text s (0 ∷ old),
    copy_text-text t rest (0 ∷ old) ht,
    append_assoc s t (0 ∷ drop (length t) old),
  ),
  ground (
    arith,
    len_from-text s old 0 hs,
    take-text s (0 ∷ old),
    drop-text s (0 ∷ old),
    append_upto-text n t rest (0 ∷ old) ht,
    append_assoc s (take n t) (0 ∷ drop (min n (length t)) old),
  ),
)
