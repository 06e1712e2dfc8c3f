-- ===== src/Libc/Number.antt =====
-- The number readers and the generator of xiaobaios/src/libc_stdlib.c. `long` has 64 bits. A text is
-- the bytes from a pointer to the end of its object, as in Libc.Pointer; a read past it is `none`.
pub mod Digits
pub mod Prefixes
pub mod Reads
use xiaobai_os.Base.{
  ℕ, zero, suc, ◌+◌, ◌-◌, ◌*◌, ◌/◌, ◌%◌, ◌^◌, Bool, true, false, ◌&&◌, ◌||◌, ◌==◌, ltb, leb,
  if◌then◌else◌, Option, none, some, ◌>>=◌, [], ◌∷◌, Bytes, get_elem?, ℤ, pos, negsuc, neg,
}
use xiaobai_os.Libc.Ctype.{isspace, isxdigit}
use xiaobai_os.Libc.Pointer.{Ptr, is_null, advance}

abbrev pub ulong_max : ℕ
ulong_max = 2 ^ 64 - 1

abbrev pub long_max : ℕ
long_max = 2 ^ 63 - 1

-- `clib_digit_value`; `none` is its -1.
unfoldable pub digit_value : ℕ → Option ℕ
digit_value ch =
    if leb b'0' ch && leb ch b'9'
    then some (ch - b'0')
    else if leb b'a' ch && leb ch b'z'
    then some (10 + (ch - b'a'))
    else if leb b'A' ch && leb ch b'Z'
    then some (10 + (ch - b'A'))
    else none

abbrev pub at : ℕ → Bytes → Ptr
at a s = record { addr = a; bytes = s }

abbrev pub peek : Ptr → ℕ → Option ℕ
peek p i = get_elem? p.bytes i

-- `clib_skip_space` at a pointer that is not null.
unfoldable pub skip_from : ℕ → Bytes → Option Ptr
skip_from a [] = none
skip_from a (c ∷ s) =
    let rest = skip_from (a + 1) s in
    if c == 0 then some (at a (c ∷ s)) else if isspace c then rest else some (at a (c ∷ s))

-- Whether there is a minus sign, and what stands behind the sign.
unfoldable pub sign : Ptr → Option (Bool × Ptr)
sign p =
    peek p 0 >>= λ c. some (if c == b'+' || c == b'-' then (c == b'-', advance p 1) else (false, p))

-- Base 0 takes the base from the prefix, and base 16 skips one.
unfoldable pub resolve_base : ℕ → Ptr → Option (ℕ × Ptr)
resolve_base base p =
    if base == 0
    then (peek p 0 >>= λ c.
        if c == b'0'
        then (peek p 1 >>= λ x.
            if x == b'x' || x == b'X'
            then (peek p 2 >>= λ h. some (if isxdigit h then (16, advance p 2) else (8, p)))
            else some (8, p))
        else some (10, p))
    else if base == 16
    then (peek p 0 >>= λ c.
        if c == b'0'
        then (peek p 1 >>= λ x.
            some (if x == b'x' || x == b'X' then (16, advance p 2) else (16, p)))
        else some (16, p))
    else some (base, p)

-- The variables of the digit loop, and the pointer where it stopped.
pub record Scan : Type 0 where
  pub value : ℕ
  pub any : Bool
  pub overflow : Bool

abbrev pub fresh : Scan
fresh = record { value = 0; any = false; overflow = false }

-- One round; `limit` is the largest value, and the sum is computed in 64 bits.
unfoldable pub scan_digit : ℕ → ℕ → Scan → ℕ → Scan
scan_digit limit base st d =
    if ltb ((limit - d) / base) st.value
    then record { value = limit; any = true; overflow = true }
    else if st.overflow
    then record st { any = true }
    else record st { value = (st.value * base + d) % 2 ^ 64; any = true }

unfoldable pub scan_digits : ℕ → ℕ → Scan → ℕ → Bytes → Option (Scan × Ptr)
scan_digits limit base st a [] = none
scan_digits limit base st a (c ∷ s) =
    if c == 0 then some (st, at a (c ∷ s)) else elim (digit_value c) [
      | none ↦ some (st, at a (c ∷ s))
      | some d ↦ elim (leb base d) [
        | true ↦ some (st, at a (c ∷ s))
        | false ↦ scan_digits limit base (scan_digit limit base st d) (a + 1) s
      ]
    ]

-- What a reader returns, and what it leaves in `*out_end`.
pub record Read (A : Type 0) : Type 0 where
  pub result : A
  pub end : Ptr

unfoldable pub finish_unsigned : Bool → Ptr → Scan × Ptr → Read ℕ
finish_unsigned negative text (st, p) =
    if st.any
    then record { result = if negative then (2 ^ 64 - st.value) % 2 ^ 64 else st.value; end = p }
    else record { result = 0; end = text }

unfoldable pub strtoul : Ptr → ℕ → Option (Read ℕ)
strtoul text base =
    if is_null text
    then some (record { result = 0; end = text })
    else (skip_from text.addr text.bytes >>= λ p. sign p >>= λ (negative, q).
        resolve_base base q >>= λ (base', r).
        if ltb base' 2 || ltb 36 base'
        then some (record { result = 0; end = text })
        else (scan_digits ulong_max base' fresh r.addr r.bytes >>= λ out.
            some (finish_unsigned negative text out)))

-- `-(long)value`, with LONG_MIN where `value` is one above LONG_MAX.
unfoldable pub finish_signed : Bool → Ptr → Scan × Ptr → Read ℤ
finish_signed negative text (st, p) =
    if st.any
    then record {
      result =
          if st.overflow
          then if negative then negsuc long_max else pos long_max
          else if negative
          then if st.value == long_max + 1 then negsuc long_max else neg (pos st.value)
          else pos st.value;
      end = p;
    }
    else record { result = pos 0; end = text }

unfoldable pub strtol : Ptr → ℕ → Option (Read ℤ)
strtol text base =
    if is_null text
    then some (record { result = pos 0; end = text })
    else (skip_from text.addr text.bytes >>= λ p. sign p >>= λ (negative, q).
        resolve_base base q >>= λ (base', r).
        if ltb base' 2 || ltb 36 base'
        then some (record { result = pos 0; end = text })
        else (scan_digits (if negative then long_max + 1 else long_max) base' fresh r.addr r.bytes
            >>= λ out. some (finish_signed negative text out)))

-- The conversion of a `long` to an `int` keeps the low 32 bits.
int_of_long : ℤ → ℤ
int_of_long z = let w = low z in if ltb w (2 ^ 31) then pos w else negsuc (2 ^ 32 - w - 1)
  where
    low : ℤ → ℕ
    low (pos n) = n % 2 ^ 32
    low (negsuc n) = 2 ^ 32 - 1 - n % 2 ^ 32

unfoldable pub atoi : Ptr → Option ℤ
unfolding strtol int_of_long
atoi text = strtol text 10 >>= λ r. some (int_of_long r.result)

unfoldable pub atol : Ptr → Option ℤ
unfolding strtol
atol text = strtol text 10 >>= λ r. some r.result

unfoldable pub strtoll : Ptr → ℕ → Option (Read ℤ)
unfolding strtol
strtoll text base = strtol text base

unfoldable pub strtoull : Ptr → ℕ → Option (Read ℕ)
unfolding strtoul
strtoull text base = strtoul text base

unfoldable pub atoll : Ptr → Option ℤ
unfolding strtoll
atoll text = strtoll text 10 >>= λ r. some r.result

-- `clib_rand_state` is the state; `unsigned long` wraps at 2 ^ 64 and RAND_MAX is 2 ^ 15 - 1.
unfoldable pub srand : ℕ → ℕ
srand seed = if seed == 0 then 1 else seed

-- The number returned, and the new state.
unfoldable pub rand : ℕ → ℕ × ℕ
rand state = let next = (1103515245 * state + 12345) % 2 ^ 64 in (next / 2 ^ 16 % 2 ^ 15, next)
