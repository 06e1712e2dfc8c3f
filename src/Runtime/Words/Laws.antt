-- ===== src/Runtime/Words/Laws.antt =====
-- Trimming and splitting, on a text written as its words and the spaces around them.
use xiaobai_os.Base.{
  ℕ, zero, suc, ◌+◌, ◌-◌, ◌≤◌, ◌<◌, ◌≡◌, ◌≢◌, refl, sym, ap, ◌∙◌, arith, true, false, ◌||◌, ◌==◌,
  some, [], ◌∷◌, ◌++◌, append-nil, append_assoc, Bytes, length, length-append, get_or,
  get_or-append, take, take-append, take-nil, All,
}
use xiaobai_os.Libc.Ctype.{isspace}
use xiaobai_os.Runtime.Words.{
  skip_spaces, trim_end, trim_line, keep, take_word, take_rest, parse_line, first_and_rest,
  second_word, split_two_args,
}

abbrev pub Spaces : Bytes → Type 0
Spaces = All (λ c. isspace c ≡ true)

abbrev pub Word : Bytes → Type 0
Word = All (λ c. isspace c ≡ false)

-- A text that does not begin with a space.
abbrev pub Starts : Bytes → Type 0
Starts [] = Unit
Starts (c ∷ s) = isspace c ≡ false

-- A text that does not end with a space.
abbrev pub Ends : Bytes → Type 0
Ends [] = Unit
Ends (c ∷ []) = isspace c ≡ false
Ends (c ∷ (d ∷ s)) = Ends (d ∷ s)

-- A text that begins with a space, or an empty one.
abbrev pub Breaks : Bytes → Type 0
Breaks [] = Unit
Breaks (c ∷ s) = isspace c ≡ true

skip_spaces-append : (ws t : Bytes) → Spaces ws → skip_spaces (ws ++ t) ≡ skip_spaces t
unfolding skip_spaces
skip_spaces-append [] t h = refl
skip_spaces-append (c ∷ ws) t (e, h) = ground (arith, skip_spaces-append ws t h)

skip_spaces-Starts : (t : Bytes) → Starts t → skip_spaces t ≡ t
unfolding skip_spaces
skip_spaces-Starts [] h = refl
skip_spaces-Starts (c ∷ t) h = ground arith

skipped : (ws t : Bytes) → Spaces ws → Starts t → skip_spaces (ws ++ t) ≡ t
skipped ws t h s = skip_spaces-append ws t h ∙ skip_spaces-Starts t s

space_at : (ws : Bytes) (k : ℕ) → Spaces ws → k < length ws → isspace (get_or ws k 0) ≡ true
space_at [] k h lt = absurd (omega arith)
space_at (c ∷ ws) zero (e, h) lt = e
space_at (c ∷ ws) (suc k) (e, h) lt = space_at ws k h (omega arith)

trim_end-Spaces :
    (u ws : Bytes) (k : ℕ)
    → Spaces ws
    → k ≤ length ws
    → trim_end (length u + k) (u ++ ws) ≡ trim_end (length u) (u ++ ws)
unfolding trim_end
trim_end-Spaces u ws zero h le = ap (λ n. trim_end n (u ++ ws)) {x = length u + 0} (omega arith)
trim_end-Spaces u ws (suc k) h le =
    let more : length u + suc k ≡ suc (length u + k) = omega arith in
    let space : isspace (get_or (u ++ ws) (length u + k) 0) ≡ true =
      ap isspace (get_or-append u ws (length u + k) k refl) ∙ space_at ws k h (omega arith) in
    rw (more, trim_end, space) (trim_end-Spaces u ws k h (omega arith))

last_char :
    (c : ℕ) (s t : Bytes) → Ends (c ∷ s) → isspace (get_or ((c ∷ s) ++ t) (length s) 0) ≡ false
last_char c [] t h = h
last_char c (d ∷ s) t h = last_char d s t h

trim_end-Ends : (u t : Bytes) → Ends u → trim_end (length u) (u ++ t) ≡ u
unfolding trim_end
trim_end-Ends [] t h = refl
trim_end-Ends (c ∷ s) t h = ground (arith, last_char c s t h, take-append (c ∷ s) t)

-- ush_trim_line takes the spaces off both ends, and no more.
pub trim_line-append :
    (before line after : Bytes)
    → Spaces before
    → Spaces after
    → Starts (line ++ after)
    → Ends line
    → trim_line (before ++ (line ++ after)) ≡ line
unfolding trim_line
trim_line-append before line after hb ha s e =
    rw (skipped before (line ++ after) hb s, length-append line after)
      (trim_end-Spaces line after (length after) ha (omega arith) ∙ trim_end-Ends line after e)

keep-take :
    (size c : ℕ) (t : Bytes) → keep size (take (size - 1) t) c ≡ take (size - 1) (t ++ (c ∷ []))
keep-take zero c t = refl
keep-take (suc n) c t = let less : suc n - 1 ≡ n = omega arith in rw less (kept n t)
  where
    kept : (n : ℕ) (t : Bytes) → keep (suc n) (take n t) c ≡ take n (t ++ (c ∷ []))
    kept zero t = refl
    kept (suc n) [] = ground (arith, take-nil {A = ℕ} n)
    kept (suc n) (x ∷ t) = ground (arith, kept n t)

-- A word goes to the buffer up to its size, and the text behind it is left.
take_word-append :
    (size : ℕ) (done w t : Bytes)
    → Word w
    → Breaks t
    → take_word size (take (size - 1) done) (w ++ t) ≡ (take (size - 1) (done ++ w), t)
unfolding take_word
take_word-append size done [] [] h b = rw (append-nil done) refl
take_word-append size done [] (c ∷ t) b' b = rw (b, append-nil done) refl
take_word-append size done (c ∷ w) t (e, h) b =
    rw (e, keep-take size c done)
      (take_word-append size (done ++ (c ∷ [])) w t h b
        ∙ ap (λ u. (take (size - 1) u, t)) (append_assoc done (c ∷ []) w))

first_taken :
    (size : ℕ) (w t : Bytes)
    → Word w
    → Breaks t
    → take_word size [] (w ++ t) ≡ (take (size - 1) w, t)
first_taken size w t h b =
    ap (λ u. take_word size u (w ++ t)) (sym (take-nil (size - 1)))
    ∙ take_word-append size [] w t h b

take_rest-take :
    (size : ℕ) (done t : Bytes)
    → take_rest size (take (size - 1) done) t ≡ take (size - 1) (done ++ t)
unfolding take_rest
take_rest-take size done [] = rw (append-nil done) refl
take_rest-take size done (c ∷ t) =
    rw (keep-take size c done) (
      take_rest-take size (done ++ (c ∷ [])) t
      ∙ ap (take (size - 1)) (append_assoc done (c ∷ []) t))

all_taken : (size : ℕ) (t : Bytes) → take_rest size [] t ≡ take (size - 1) t
all_taken size t =
    ap (λ u. take_rest size u t) (sym (take-nil (size - 1))) ∙ take_rest-take size [] t

Breaks-append : (gap t : Bytes) → Spaces gap → gap ≢ [] → Breaks (gap ++ t)
Breaks-append [] t h ne = absurd (ne refl)
Breaks-append (c ∷ gap) t (e, h) ne = e

Starts-append : (w t : Bytes) → Word w → w ≢ [] → Starts (w ++ t)
Starts-append [] t h ne = absurd (ne refl)
Starts-append (c ∷ w) t (e, h) ne = e

-- A line whose first word is followed by spaces is split there: the command is that word and the
-- argument all from the next word on, each cut to its buffer, of a byte or more, with a byte left for
-- the NUL.
pub parse_line-append :
    (before cmd gap arg : Bytes) (cmd_size arg_size : ℕ)
    → Spaces before
    → Word cmd
    → cmd ≢ []
    → Spaces gap
    → gap ≢ []
    → Starts arg
    → 0 < cmd_size
    → 0 < arg_size
    → parse_line (before ++ (cmd ++ (gap ++ arg))) cmd_size arg_size
      ≡ some (take (cmd_size - 1) cmd, take (arg_size - 1) arg)
unfolding parse_line
parse_line-append before cmd gap arg cmd_size arg_size hb hc nc hg ng s hc0 ha0 =
    let room : (cmd_size == 0 || arg_size == 0) ≡ false = ground arith in
    rw
      (
        room,
        skipped before (cmd ++ (gap ++ arg)) hb (Starts-append cmd (gap ++ arg) hc nc),
        first_taken cmd_size cmd (gap ++ arg) hc (Breaks-append gap arg hg ng),
        skipped gap arg hg s,
        all_taken arg_size arg,
      )
      refl

first_and_rest-append :
    (first gap t : Bytes) (size : ℕ)
    → Word first
    → first ≢ []
    → Spaces gap
    → gap ≢ []
    → Starts t
    → first_and_rest size (first ++ (gap ++ t)) ≡ some (take (size - 1) first, t)
unfolding first_and_rest
first_and_rest-append [] gap t size h ne hg ng s = absurd (ne refl)
first_and_rest-append (c ∷ first) gap t size h ne hg ng s =
    rw (first_taken size (c ∷ first) (gap ++ t) h (Breaks-append gap t hg ng), skipped gap t hg s)
      refl

length-take_pos :
    (w : Bytes) (size : ℕ) → w ≢ [] → 2 ≤ size → (length (take (size - 1) w) == 0) ≡ false
length-take_pos [] size ne h = absurd (ne refl)
length-take_pos (c ∷ w) zero ne h = absurd (omega arith)
length-take_pos (c ∷ w) (suc zero) ne h = absurd (omega arith)
length-take_pos (c ∷ w) (suc (suc n)) ne h = ground arith

second_word-append :
    (first second rest : Bytes) (size : ℕ)
    → (length first == 0) ≡ false
    → Word second
    → second ≢ []
    → Breaks rest
    → 2 ≤ size
    → second_word size first (second ++ rest) ≡ some (first, take (size - 1) second)
unfolding second_word
second_word-append first [] rest size nf h ne b le = absurd (ne refl)
second_word-append first (c ∷ second) rest size nf h ne b le =
    rw (first_taken size (c ∷ second) rest h b, nf, length-take_pos (c ∷ second) size ne le) refl

-- With two buffers of 2 bytes or more, the two arguments of a command such as cp are the first two
-- words of its text, each cut to its buffer with a byte left for the NUL, whatever follows them.
pub split_two_args-append :
    (before first gap second rest : Bytes) (first_size second_size : ℕ)
    → Spaces before
    → Word first
    → first ≢ []
    → Spaces gap
    → gap ≢ []
    → Word second
    → second ≢ []
    → Breaks rest
    → 2 ≤ first_size
    → 2 ≤ second_size
    → split_two_args (before ++ (first ++ (gap ++ (second ++ rest)))) first_size second_size
      ≡ some (take (first_size - 1) first, take (second_size - 1) second)
unfolding split_two_args
split_two_args-append before first gap second rest first_size second_size hb hf nf hg ng hs ns b le
      le' =
    let tail = second ++ rest in
    let small : (first_size == 0) ≡ false = ground arith in
    let small' : (second_size == 0) ≡ false = ground arith in
    rw
      (
        small,
        small',
        skipped before (first ++ (gap ++ tail)) hb (Starts-append first (gap ++ tail) hf nf),
        first_and_rest-append first gap tail first_size hf nf hg ng
            (Starts-append second rest hs ns),
      )
      (second_word-append (take (first_size - 1) first) second rest second_size
        (length-take_pos first first_size nf le) hs ns b le')
