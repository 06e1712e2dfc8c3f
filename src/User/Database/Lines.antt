-- ===== src/User/Database/Lines.antt =====
-- The lines of the account database: what a text of whole lines splits into.
use xiaobai_os.Base.{
  ℕ, zero, suc, ◌≤◌, ◌≡◌, ◌≢◌, refl, ap, ◌∙◌, arith, false, ◌==◌, Bool-cases, Option-cases, inl,
  inr, List, [], ◌∷◌, ◌++◌, append_assoc, Bytes, length, take, All, NoNul,
}
use xiaobai_os.User.Records.{parse_record}
use xiaobai_os.User.Records.RoundTrip.{take_whole}
use xiaobai_os.User.Database.{
  newline, cons_first, split_lines, until_nul, cut_line, account_of, accounts_in,
}

abbrev pub NoNewline : Bytes → Type 0
NoNewline = All (λ c. c ≢ newline)

abbrev pub AreLines : List Bytes → Type 0
AreLines = All NoNewline

-- The lines with a newline behind each.
unfoldable pub unlines : List Bytes → Bytes
unlines [] = []
unlines (line ∷ more) = line ++ (newline ∷ unlines more)

cons_first-AreLines :
    (c : ℕ) (lines : List Bytes) → c ≢ newline → AreLines lines → AreLines (cons_first c lines)
unfolding cons_first
cons_first-AreLines c [] ne h = ((ne, tt), tt)
cons_first-AreLines c (line ∷ more) ne (g, h) = ((ne, g), h)

pub split_lines-AreLines : (db : Bytes) → AreLines (split_lines db)
unfolding split_lines
split_lines-AreLines [] = (tt, tt)
split_lines-AreLines (c ∷ db) = elim (Bool-cases (c == newline)) [
  | inl e ↦ rw e (tt, split_lines-AreLines db)
  | inr e ↦ rw e (cons_first-AreLines c (split_lines db) (ground arith) (split_lines-AreLines db))
]

split_lines_line :
    (line rest : Bytes)
    → NoNewline line
    → split_lines (line ++ (newline ∷ rest)) ≡ line ∷ split_lines rest
unfolding split_lines cons_first
split_lines_line [] rest h = refl
split_lines_line (c ∷ line) rest (ne, h) =
    let other : (c == newline) ≡ false = ground arith in
    rw (other, split_lines_line line rest h) refl

pub split_lines-unlines :
    (lines : List Bytes) (rest : Bytes)
    → AreLines lines
    → split_lines (unlines lines ++ rest) ≡ lines ++ split_lines rest
unfolding unlines
split_lines-unlines [] rest h = refl
split_lines-unlines (line ∷ more) rest (g, h) =
    rw (append_assoc line (newline ∷ unlines more) rest) (
      split_lines_line line (unlines more ++ rest) g
      ∙ ap (λ ls. line ∷ ls) (split_lines-unlines more rest h))

pub unlines_last :
    (lines : List Bytes) (line : Bytes)
    → unlines (lines ++ (line ∷ [])) ≡ unlines lines ++ (line ++ (newline ∷ []))
unfolding unlines
unlines_last [] line = refl
unlines_last (l ∷ lines) line =
    rw (append_assoc l (newline ∷ unlines lines) (line ++ (newline ∷ [])))
      (ap (λ t. l ++ (newline ∷ t)) (unlines_last lines line))

pub accounts_in-append :
    (xs ys : List Bytes) → accounts_in (xs ++ ys) ≡ accounts_in xs ++ accounts_in ys
unfolding accounts_in
accounts_in-append [] ys = refl
accounts_in-append (raw ∷ xs) ys = elim (Option-cases (account_of raw)) [
  | inl e ↦ rw (e, accounts_in) (accounts_in-append xs ys)
  | inr (r, e) ↦ rw (e, accounts_in) (ap (λ rs. r ∷ rs) (accounts_in-append xs ys))
]

-- What is cut and read once stays as it is.
until_nul_idem : (text : Bytes) → until_nul (until_nul text) ≡ until_nul text
unfolding until_nul
until_nul_idem [] = refl
until_nul_idem (c ∷ text) = ground (arith, until_nul_idem text)

until_nul_le : (text : Bytes) → length (until_nul text) ≤ length text
unfolding until_nul
until_nul_le [] = omega arith
until_nul_le (c ∷ text) = ground (arith, until_nul_le text)

until_nul-NoNewline : (text : Bytes) → NoNewline text → NoNewline (until_nul text)
unfolding until_nul
until_nul-NoNewline [] h = tt
until_nul-NoNewline (c ∷ text) (ne, h) = elim (Bool-cases (c == 0)) [
  | inl e ↦ rw e tt
  | inr e ↦ rw e (ne, until_nul-NoNewline text h)
]

take-NoNewline : (n : ℕ) (text : Bytes) → NoNewline text → NoNewline (take n text)
take-NoNewline zero text h = tt
take-NoNewline (suc n) [] h = tt
take-NoNewline (suc n) (c ∷ text) (ne, h) = (ne, take-NoNewline n text h)

length-take_le : (n : ℕ) (text : Bytes) → length (take n text) ≤ n
length-take_le zero text = omega arith
length-take_le (suc n) [] = omega arith
length-take_le (suc n) (c ∷ text) = omega (arith, length-take_le n text)

-- What cu_db_rewrite_with emits of a line that stays.
abbrev pub kept : Bytes → Bytes
kept raw = until_nul (cut_line raw)

pub kept_le : (raw : Bytes) → length (kept raw) ≤ length (cut_line raw)
kept_le raw = until_nul_le (cut_line raw)

pub kept-NoNewline : (raw : Bytes) → NoNewline raw → NoNewline (kept raw)
kept-NoNewline raw h = until_nul-NoNewline (cut_line raw) (take-NoNewline 191 raw h)

pub account_of-kept : (raw : Bytes) → account_of (kept raw) ≡ account_of raw
unfolding account_of
account_of-kept raw =
    let short : length (kept raw) ≤ 191 = omega (arith, kept_le raw, length-take_le 191 raw) in
    rw (take_whole 191 (kept raw) short, until_nul_idem (cut_line raw)) refl

until_nul_plain : (text : Bytes) → NoNul text → until_nul text ≡ text
unfolding until_nul
until_nul_plain [] h = refl
until_nul_plain (c ∷ text) (ne, h) = ground (arith, until_nul_plain text h)

-- A line without a NUL that fits the buffer is read as it is.
pub account_of_plain :
    (text : Bytes) → NoNul text → length text ≤ 191 → account_of text ≡ parse_record text
unfolding account_of
account_of_plain text h le = rw (take_whole 191 text le, until_nul_plain text h) refl
