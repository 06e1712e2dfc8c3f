-- ===== src/Libc/Searching.antt =====
-- The searches of xiaobaios/src/libc_string.c, and the tokenizer. A result is a pointer into the text.
pub mod Characters
pub mod Substring
pub mod Spans
pub mod Tokens
use xiaobai_os.Base.{
  ℕ, zero, suc, ◌+◌, ◌%◌, Bool, true, false, not, ◌||◌, ◌==◌, if◌then◌else◌, Option, none, some,
  ◌>>=◌, [], ◌∷◌, Bytes, set,
}
use xiaobai_os.Libc.Pointer.{Ptr, null, is_null, advance}
use xiaobai_os.Libc.Copying.{strlen}

-- The pointer to the bytes `s` at the address `a`.
abbrev pub at : ℕ → Bytes → Ptr
at a s = record { addr = a; bytes = s }

chr_from : ℕ → ℕ → Bytes → Option Ptr
chr_from needle a [] = none
chr_from needle a (c ∷ s) =
    let rest = chr_from needle (a + 1) s in
    if c == 0
    then some (if needle == 0 then at a (c ∷ s) else null)
    else if c == needle
    then some (at a (c ∷ s))
    else rest

unfoldable pub strchr : Ptr → ℕ → Option Ptr
unfolding chr_from
strchr text ch = if is_null text then some null else chr_from (ch % 256) text.addr text.bytes

rchr_from : ℕ → Ptr → ℕ → Bytes → Option Ptr
rchr_from needle last a [] = none
rchr_from needle last a (c ∷ s) =
    let rest = rchr_from needle (if c == needle then at a (c ∷ s) else last) (a + 1) s in
    if c == 0 then some (if needle == 0 then at a (c ∷ s) else last) else rest

unfoldable pub strrchr : Ptr → ℕ → Option Ptr
unfolding rchr_from
strrchr text ch = if is_null text then some null else rchr_from (ch % 256) null text.addr text.bytes

-- The loop over `j`: whether all of the first `k` characters of the needle's rest stand in the text.
agrees : ℕ → Bytes → Bytes → Option Bool
agrees zero hay needle = some true
agrees (suc k) [] needle = none
agrees (suc k) (c ∷ hay) [] = if c == 0 then some false else none
agrees (suc k) (c ∷ hay) (d ∷ needle) =
    let rest = agrees k hay needle in if c == 0 || not (c == d) then some false else rest

-- `nlen` is at least 1 here; the needle is its first character and the rest.
str_from : ℕ → ℕ → Bytes → ℕ → Bytes → Option Ptr
str_from first k needle a [] = none
str_from first k needle a (c ∷ hay) =
    let next = str_from first k needle (a + 1) hay in
    let step : Option Ptr =
      agrees k hay needle >>= λ ok. if ok then some (at a (c ∷ hay)) else next in
    if c == 0 then some null else if c == first then step else next

find_needle : Ptr → ℕ → Bytes → Option Ptr
find_needle haystack zero needle = some haystack
find_needle haystack (suc k) [] = none
find_needle haystack (suc k) (d ∷ needle) = str_from d k needle haystack.addr haystack.bytes

unfoldable pub strstr : Ptr → Ptr → Option Ptr
unfolding agrees str_from find_needle
strstr haystack needle =
    if is_null haystack || is_null needle
    then some null
    else (strlen needle >>= λ nlen. find_needle haystack nlen needle.bytes)

holds : Bytes → ℕ → Option Bool
holds [] ch = none
holds (d ∷ delim) ch =
    let rest = holds delim ch in if d == 0 then some false else if d == ch then some true else rest

unfoldable pub delim_contains : Ptr → ℕ → Option Bool
unfolding holds
delim_contains delim ch = if is_null delim then some false else holds delim.bytes ch

abbrev same : Bool → Bool → Bool
same true b = b
same false b = not b

-- `while (text[n] != 0 && clib_delim_contains(chars, text[n]) == wanted) n++`
pub span_from : Ptr → Bool → Bytes → ℕ → Option ℕ
unfolding delim_contains
span_from chars wanted [] n = none
span_from chars wanted (c ∷ s) n =
    let rest = span_from chars wanted s (n + 1) in
    if c == 0
    then some n
    else (delim_contains chars c >>= λ found. if same wanted found then rest else some n)

unfoldable pub strspn : Ptr → Ptr → Option ℕ
unfolding span_from
strspn text accept =
    if is_null text || is_null accept then some 0 else span_from accept true text.bytes 0

unfoldable pub strcspn : Ptr → Ptr → Option ℕ
unfolding span_from
strcspn text reject =
    if is_null text || is_null reject then some 0 else span_from reject false text.bytes 0

pbrk_from : Ptr → ℕ → Bytes → Option Ptr
unfolding delim_contains
pbrk_from accept a [] = none
pbrk_from accept a (c ∷ s) =
    let rest = pbrk_from accept (a + 1) s in
    if c == 0
    then some null
    else (delim_contains accept c >>= λ found. if found then some (at a (c ∷ s)) else rest)

unfoldable pub strpbrk : Ptr → Ptr → Option Ptr
unfolding pbrk_from
strpbrk text accept =
    if is_null text || is_null accept then some null else pbrk_from accept text.addr text.bytes

-- What strtok_r returns and what it leaves in `*saveptr`. The token's bytes are those after the write
-- of the NUL that ends it; that byte stands before the saved pointer.
pub record Token : Type 0 where
  pub start : Ptr
  pub save : Ptr

first_byte : Ptr → Option ℕ
first_byte p = head p.bytes
  where
    head : Bytes → Option ℕ
    head [] = none
    head (c ∷ s) = some c

-- The token starts at `start` and has `n` characters; `cursor` is its end.
end_token : Ptr → ℕ → Option Token
unfolding first_byte
end_token start n =
    let cursor : Ptr = advance start n in
    first_byte cursor >>= λ c. some (
      if c == 0
      then record { start = start; save = cursor }
      else record { start = record start { bytes = set start.bytes n 0 }; save = advance cursor 1 })

-- From the first character that is no delimiter, or the NUL, on.
take_token : Ptr → Ptr → Option Token
unfolding first_byte
take_token delim start = first_byte start >>= λ c.
    if c == 0
    then some (record { start = null; save = start })
    else (span_from delim false start.bytes 0 >>= λ n. end_token start n)

tok_from : Ptr → Ptr → Option Token
tok_from delim cursor =
    span_from delim true cursor.bytes 0 >>= λ skipped. take_token delim (advance cursor skipped)

-- `saved` is `*saveptr`; that `saveptr` itself is not null is the caller's part.
pub strtok_r : Ptr → Ptr → Ptr → Option Token
strtok_r text delim saved =
    let cursor : Ptr = if is_null text then saved else text in
    if is_null delim
    then some (record { start = null; save = saved })
    else if is_null cursor
    then some (record { start = null; save = saved })
    else tok_from delim cursor

-- The static `state` is the saved pointer.
pub strtok : Ptr → Ptr → Ptr → Option Token
strtok text delim state = strtok_r text delim state
