-- ===== src/Runtime/Words.antt =====
-- The text helpers of xiaobaios/apps/cmd_runtime.c: numbers, trimming and words. A C string is the list
-- of its characters without the NUL, and so is what a call leaves in a buffer.
pub mod Laws
pub mod Numbers
use xiaobai_os.Base.{
  ℕ, zero, suc, ◌+◌, ◌-◌, ◌*◌, ◌/◌, ◌^◌, Bool, true, false, not, ◌&&◌, ◌||◌, ◌==◌, ltb, leb,
  if◌then◌else◌, Option, none, some, ◌>>=◌, [], ◌∷◌, ◌++◌, Bytes, length, get_or, take, drop,
}
use xiaobai_os.Libc.Ctype.{isspace, isdigit}

unfoldable pub streq : Bytes → Bytes → Bool
streq [] [] = true
streq [] (d ∷ r) = false
streq (c ∷ l) [] = false
streq (c ∷ l) (d ∷ r) = c == d && streq l r

unfoldable pub has_suffix : Bytes → Bytes → Bool
has_suffix name suffix =
    if ltb (length name) (length suffix)
    then false
    else streq (drop (length name - length suffix) name) suffix

unfoldable pub contains_char : Bytes → ℕ → Bool
contains_char [] needle = false
contains_char (c ∷ text) needle = c == needle || contains_char text needle

-- The loop of ush_parse_u64_dec from the value read so far.
unfoldable pub digits_from : ℕ → Bytes → Option ℕ
digits_from value [] = some value
digits_from value (c ∷ text) =
    let digit = c - b'0' in
    let rest = digits_from (value * 10 + digit) text in
    if not (isdigit c) then none else if ltb ((2 ^ 64 - 1 - digit) / 10) value then none else rest

unfoldable pub parse_u64_dec : Bytes → Option ℕ
parse_u64_dec [] = none
parse_u64_dec (c ∷ text) = digits_from 0 (c ∷ text)

-- A size of 0 leaves the destination.
unfoldable pub copy : Bytes → ℕ → Bytes → Bytes
copy dst zero src = dst
copy dst (suc n) src = take n src

unfoldable pub skip_spaces : Bytes → Bytes
skip_spaces [] = []
skip_spaces (c ∷ line) = if isspace c then skip_spaces line else c ∷ line

-- The second loop of ush_trim_line over `len`.
unfoldable pub trim_end : ℕ → Bytes → Bytes
trim_end zero line = []
trim_end (suc n) line = if isspace (get_or line n 0) then trim_end n line else take (suc n) line

unfoldable pub trim_line : Bytes → Bytes
trim_line line = trim_end (length (skip_spaces line)) (skip_spaces line)

-- One character at the end of a buffer that keeps a byte for the NUL.
abbrev pub keep : ℕ → Bytes → ℕ → Bytes
keep size out c = if ltb (length out + 1) size then out ++ (c ∷ []) else out

-- The loop over the characters of a word: what the buffer holds, and the text from the space on.
unfoldable pub take_word : ℕ → Bytes → Bytes → Bytes × Bytes
take_word size out [] = (out, [])
take_word size out (c ∷ line) =
    if isspace c then (out, c ∷ line) else take_word size (keep size out c) line

unfoldable pub take_rest : ℕ → Bytes → Bytes → Bytes
take_rest size out [] = out
take_rest size out (c ∷ line) = take_rest size (keep size out c) line

-- `none` where a buffer has no room at all: the NUL is then written behind it.
unfoldable pub parse_line : Bytes → ℕ → ℕ → Option (Bytes × Bytes)
parse_line line cmd_size arg_size =
    if cmd_size == 0 || arg_size == 0
    then none
    else (let (cmd, rest) = take_word cmd_size [] (skip_spaces line) in
        some (cmd, take_rest arg_size [] (skip_spaces rest)))

-- The first word and the text behind the spaces that follow it. `none` is the return value 0.
unfoldable pub first_and_rest : ℕ → Bytes → Option (Bytes × Bytes)
first_and_rest size [] = none
first_and_rest size (c ∷ arg) =
    let (first, rest) = take_word size [] (c ∷ arg) in some (first, skip_spaces rest)

unfoldable pub split_first_and_rest : Bytes → ℕ → Option (Bytes × Bytes)
unfolding first_and_rest
split_first_and_rest arg size = if size == 0 then none else first_and_rest size (skip_spaces arg)

-- The second word, and the last test of ush_split_two_args.
unfoldable pub second_word : ℕ → Bytes → Bytes → Option (Bytes × Bytes)
second_word size first [] = none
second_word size first (c ∷ arg) =
    let (second, rest) = take_word size [] (c ∷ arg) in
    if length first == 0 || length second == 0 then none else some (first, second)

unfoldable pub split_two_args : Bytes → ℕ → ℕ → Option (Bytes × Bytes)
unfolding first_and_rest second_word
split_two_args arg first_size second_size =
    if first_size == 0 || second_size == 0
    then none
    else (first_and_rest first_size (skip_spaces arg) >>= λ (first, rest).
        second_word second_size first rest)
