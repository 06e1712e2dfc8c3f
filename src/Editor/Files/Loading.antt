-- ===== src/Editor/Files/Loading.antt =====
-- A file that xiaobaios/apps/vim_main.c saved is loaded with the same lines.
use xiaobai_os.Base.{
  ℕ, ◌+◌, ◌-◌, ◌≤◌, ◌<◌, ◌≡◌, ◌≢◌, refl, sym, ap, subst, ◌∙◌, arith, Bool, true, false, ◌==◌, ltb,
  List, [], ◌∷◌, ◌++◌, append-nil, append_assoc, Bytes, length, length-append, get_or, set, All,
}
use xiaobai_os.Editor.State.{max_lines, max_line_len}
use xiaobai_os.Editor.Files.{load_char, load_chars}
use xiaobai_os.Editor.Files.Saving.{joined}

-- A character that stands in a line.
abbrev pub InLine : ℕ → Type 0
InLine ch = (ch ≢ 10) × (ch ≢ 13)

-- A line that can be loaded whole.
abbrev pub CanLoad : Bytes → Type 0
CanLoad line = All InLine line × (length line < max_line_len)

get_or_last :
    (done : List Bytes) (line : Bytes)
    → get_or (done ++ (line ∷ [])) (length (done ++ (line ∷ [])) - 1) [] ≡ line
get_or_last done line =
    let i : length (done ++ (line ∷ [])) - 1 ≡ length done =
      omega (arith, length-append done (line ∷ [])) in
    rw i (at_end done)
  where
    at_end : (done : List Bytes) → get_or (done ++ (line ∷ [])) (length done) [] ≡ line
    at_end [] = refl
    at_end (x ∷ done) = at_end done

set_last :
    (done : List Bytes) (line new : Bytes)
    → set (done ++ (line ∷ [])) (length (done ++ (line ∷ [])) - 1) new ≡ done ++ (new ∷ [])
set_last done line new =
    let i : length (done ++ (line ∷ [])) - 1 ≡ length done =
      omega (arith, length-append done (line ∷ [])) in
    rw i (at_end done)
  where
    at_end : (done : List Bytes) → set (done ++ (line ∷ [])) (length done) new ≡ done ++ (new ∷ [])
    at_end [] = refl
    at_end (x ∷ done) = ap (λ t. x ∷ t) (at_end done)

load_char_line :
    (done : List Bytes) (line : Bytes) (t : Bool) (ch : ℕ)
    → InLine ch
    → length line + 1 < max_line_len
    → load_char (done ++ (line ∷ []), t) ch ≡ (done ++ ((line ++ (ch ∷ [])) ∷ []), t)
unfolding load_char
load_char_line done line t ch (not_newline, not_return) room =
    let a : (ch == 13) ≡ false = ground arith in
    let b : (ch == 10) ≡ false = ground arith in
    let c : ltb (length line + 1) max_line_len ≡ true = ground arith in
    rw (a, b, get_or_last done line, c, set_last done line (line ++ (ch ∷ []))) refl

load_chars_line :
    (done : List Bytes) (line text rest : Bytes) (t : Bool)
    → All InLine text
    → length line + length text < max_line_len
    → load_chars (done ++ (line ∷ []), t) (text ++ rest)
      ≡ load_chars (done ++ ((line ++ text) ∷ []), t) rest
unfolding load_chars
load_chars_line done line [] rest t h room =
    ap (λ l. load_chars (done ++ (l ∷ []), t) rest) (sym (append-nil line))
load_chars_line done line (ch ∷ text) rest t (g, h) room =
    ap (λ b. load_chars b (text ++ rest)) (load_char_line done line t ch g (omega arith))
    ∙ load_chars_line done (line ++ (ch ∷ [])) text rest t h
        (omega (arith, length-append line (ch ∷ [])))
    ∙ ap (λ l. load_chars (done ++ (l ∷ []), t) rest) (append_assoc line (ch ∷ []) text)

load_char_newline :
    (done : List Bytes) (t : Bool)
    → length done < max_lines
    → load_char (done, t) 10 ≡ (done ++ ([] ∷ []), t)
unfolding load_char
load_char_newline done t room =
    let a : ltb (length done) max_lines ≡ true = ground arith in rw a refl

load_chars-from :
    (done : List Bytes) (line : Bytes) (more : List Bytes) (t : Bool)
    → All CanLoad (line ∷ more)
    → length done + length (line ∷ more) ≤ max_lines
    → load_chars (done ++ ([] ∷ []), t) (joined (line ∷ more)) ≡ (done ++ (line ∷ more), t)
unfolding joined load_chars
load_chars-from done line [] t ((chars, short), h) few =
    subst (λ x. load_chars (done ++ ([] ∷ []), t) x ≡ (done ++ (line ∷ []), t)) (append-nil line)
      (load_chars_line done [] line [] t chars (omega arith))
load_chars-from done line (next ∷ more) t ((chars, short), h) few =
    let fits : length (done ++ (line ∷ [])) < max_lines =
      omega (arith, length-append done (line ∷ [])) in
    load_chars_line done [] line (10 ∷ joined (next ∷ more)) t chars (omega arith)
    ∙ ap (λ b. load_chars b (joined (next ∷ more))) (load_char_newline (done ++ (line ∷ [])) t fits)
    ∙ load_chars-from (done ++ (line ∷ [])) next more t h
        (omega (arith, length-append done (line ∷ [])))
    ∙ ap (λ ls. (ls, t)) (append_assoc done (line ∷ []) (next ∷ more))

-- The text of up to 2,048 lines, each shorter than 512 characters and with no newline or carriage return in
-- it, is loaded as those lines, and not cut.
pub load_chars-joined :
    (line : Bytes) (more : List Bytes)
    → All CanLoad (line ∷ more)
    → length (line ∷ more) ≤ max_lines
    → load_chars ([] ∷ [], false) (joined (line ∷ more)) ≡ (line ∷ more, false)
load_chars-joined line more h few = load_chars-from [] line more false h (omega arith)
