-- ===== src/User/Database/Rewriting.antt =====
-- The rewrite of the account database as an edit of the list of its records.
use xiaobai_os.Base.{
  ℕ, ◌+◌, ◌≤◌, ◌<◌, ◌≡◌, refl, sym, ap, subst, ◌∙◌, arith, Bool, true, false, ◌==◌, leb,
  if◌then◌else◌, Bool-cases, Option-cases, inl, inr, Option, none, some, List, [], ◌∷◌, ◌++◌,
  append-nil, append_assoc, Bytes, length, length-append, All-append,
}
use xiaobai_os.Runtime.Words.{streq}
use xiaobai_os.User.Records.{Account, record_line}
use xiaobai_os.User.Records.RoundTrip.{fields, append_whole, record_line-fields}
use xiaobai_os.User.Database.{
  newline, split_lines, cut_line, account_of, accounts_in, Rewrite, keep_line, put_record, removes,
  replaced_by, rewrite_line, rewrite_lines, start,
}
use xiaobai_os.User.Database.Lines.{
  AreLines, NoNewline, unlines, unlines_last, split_lines-AreLines, accounts_in-append, kept,
  kept_le, kept-NoNewline, account_of-kept,
}
use xiaobai_os.User.Database.Plain.{
  IsLine, one_line, listed, one-account, no-account, account_of-fields, accounts_in-unlines,
}

-- What becomes of a line: none, or the record it holds edited.
abbrev pub edit : Option Account → Option Bytes → Option Account → List Account
edit replace remove none = []
edit replace remove (some r) =
    if removes remove r
    then []
    else elim (replaced_by replace r) [ some r' ↦ r' ∷ [] | none ↦ r ∷ [] ]

unfoldable pub edit_all : Option Account → Option Bytes → List Account → List Account
edit_all replace remove [] = []
edit_all replace remove (r ∷ rs) = edit replace remove (some r) ++ edit_all replace remove rs

-- The text that is written so far: whole lines, in which the records `out` are found.
abbrev pub Written : Rewrite → List Account → Type 0
Written st out =
    (lines : List Bytes) × (st.next ≡ unlines lines)
    × AreLines lines
    × (accounts_in lines ≡ out)
    × (length st.next ≤ st.next_len)
    × (st.next_len < 4096)

add_line :
    (st : Rewrite) (line : Bytes) (len : ℕ) (f : Bool) {out more : List Account}
    → Written st out
    → NoNewline line
    → accounts_in (line ∷ []) ≡ more
    → st.next_len + length line + 1 ≤ len
    → len < 4096
    → Written
        (record { next = st.next ++ (line ++ (newline ∷ [])); next_len = len; found = f })
        (out ++ more)
add_line st line len f (lines, whole, h, old, short, fits) g new le lt = (
  lines ++ (line ∷ []),
  rw (whole, unlines_last lines line) refl,
  All-append NoNewline lines (line ∷ []) h (g, tt),
  rw (accounts_in-append lines (line ∷ []), old, new) refl,
  omega (arith, length-append st.next (line ++ (newline ∷ [])), length-append line (newline ∷ [])),
  lt,
)

length_zero : (t : Bytes) → length t ≡ 0 → t ≡ []
length_zero [] z = refl
length_zero (c ∷ t) z = absurd (omega arith)

some-eq : {x y : Rewrite} → some x ≡ some y → x ≡ y
some-eq e = cc

-- What a guard let through.
guarded : (b : Bool) (x y : Rewrite) → (if b then none else some x) ≡ some y → (b ≡ false) × (x ≡ y)
guarded true x y e = cc
guarded false x y e = (refl, some-eq e)

keep_line-Written :
    (raw : Bytes) (st st' : Rewrite) {out : List Account}
    → Written st out
    → NoNewline raw
    → keep_line raw st ≡ some st'
    → Written st' (out ++ listed (account_of raw))
unfolding keep_line
keep_line-Written raw st st' {out} w h e = elim (Bool-cases (length (kept raw) == 0)) [
  | inl p ↦
      let nothing : account_of raw ≡ none =
        sym (account_of-kept raw)
        ∙ ap account_of (length_zero (kept raw) (ground arith))
        ∙ no-account in
      let same : some st ≡ some st' = rw p at e in
      rw (nothing, append-nil out) (subst (λ t. Written t out) (some-eq same) w)
  | inr p ↦
      let (q, same) =
        guarded (leb 4096 (st.next_len + length (cut_line raw) + 2)) _ st' (rw p at e) in
      let le = w.4 in
      let len = kept_le raw in
      let room : st.next_len + length (cut_line raw) + 2 < 4096 = ground arith in
      let first = append_whole st.next 4096 (kept raw) (omega arith) in
      let second =
        append_whole (st.next ++ kept raw) 4096 (newline ∷ [])
          (omega (arith, length-append st.next (kept raw))) in
      let added =
        add_line st (kept raw) (st.next_len + length (cut_line raw) + 1) st.found w
          (kept-NoNewline raw h) (one-account (kept raw) ∙ ap listed (account_of-kept raw))
          (omega arith) (omega arith) in
      subst (λ t. Written t (out ++ listed (account_of raw))) same
        (rw (first, second, append_assoc st.next (kept raw) (newline ∷ [])) added)
]

put_record-Written :
    (r : Account) (st st' : Rewrite) {out : List Account}
    → Written st out
    → IsLine r
    → put_record r st ≡ some st'
    → Written st' (out ++ (r ∷ []))
unfolding put_record
put_record-Written r st st' {out} w h e =
    let (line, short) = record_line-fields r h.valid in
    let (q, same) = guarded (leb 4096 (st.next_len + length (record_line r 192) + 1)) _ st' e in
    let len : length (record_line r 192) ≡ length (fields r) + 1 =
      ap length line ∙ length-append (fields r) (newline ∷ []) in
    let room : st.next_len + length (record_line r 192) + 1 < 4096 = ground arith in
    let le = w.4 in
    let whole =
      append_whole st.next 4096 (record_line r 192) (omega arith) ∙ ap (λ t. st.next ++ t) line in
    let added =
      add_line st (fields r) (st.next_len + length (record_line r 192)) true w (one_line r h)
        (one-account (fields r) ∙ ap listed (account_of-fields r h)) (omega arith) (omega arith) in
    subst (λ t. Written t (out ++ (r ∷ []))) same (rw whole added)

same_records :
    (st st' : Rewrite) {out : List Account}
    → Written st out
    → some (record { next = st.next; next_len = st.next_len; found = true }) ≡ some st'
    → Written st' out
same_records st st' {out} w e = subst (λ t. Written t out) (some-eq e) w

replaced_by-some :
    (replace : Option Account) (r : Account) {r' : Account}
    → replaced_by replace r ≡ some r'
    → replace ≡ some r'
unfolding replaced_by
replaced_by-some none r e = cc
replaced_by-some (some n) r e = elim (Bool-cases (streq r.name n.name)) [
  | inl p ↦ rw p at e
  | inr p ↦ let no = rw p at e in cc
]

rewrite_line-Written :
    (replace : Option Account) (remove : Option Bytes)
    → ((r : Account) → replace ≡ some r → IsLine r)
    → (raw : Bytes) (st st' : Rewrite) {out : List Account} → Written st out
    → NoNewline raw
    → rewrite_line replace remove raw st ≡ some st'
    → Written st' (out ++ edit replace remove (account_of raw))
unfolding rewrite_line
rewrite_line-Written replace remove valid raw st st' {out} w h e =
    elim (Option-cases (account_of raw)) [
      | inl p ↦
          let kept = keep_line-Written raw st st' w h (rw (p, rewrite_line) at e) in
          rw p (rw p at kept)
      | inr (r, p) ↦
          let e' = rw (p, rewrite_line) at e in
          elim (Bool-cases (removes remove r)) [
            | inl q ↦ rw (p, q, append-nil out) (same_records st st' w (rw q at e'))
            | inr q ↦
                let e'' = rw q at e' in
                elim (Option-cases (replaced_by replace r)) [
                  | inl n ↦
                      let kept = keep_line-Written raw st st' w h (rw n at e'') in
                      rw (p, q, n) (rw p at kept)
                  | inr (r', y) ↦
                      rw (p, q, y)
                        (put_record-Written r' st st' w (valid r' (replaced_by-some replace r y))
                          (rw y at e''))
                ]
          ]
    ]

edit_first :
    (replace : Option Account) (remove : Option Bytes) (raw : Bytes) (raws : List Bytes)
    → edit replace remove (account_of raw) ++ edit_all replace remove (accounts_in raws)
      ≡ edit_all replace remove (accounts_in (raw ∷ raws))
unfolding edit_all accounts_in
edit_first replace remove raw raws = elim (Option-cases (account_of raw)) [
  | inl p ↦ rw (p, accounts_in) refl
  | inr (r, p) ↦ rw (p, accounts_in) refl
]

-- The rewrite goes line by line, and its text is the records edited.
rewrite_lines-Written :
    (replace : Option Account) (remove : Option Bytes)
    → ((r : Account) → replace ≡ some r → IsLine r)
    → (raws : List Bytes) (st st' : Rewrite) {out : List Account} → Written st out
    → AreLines raws
    → rewrite_lines replace remove raws st ≡ some st'
    → Written st' (out ++ edit_all replace remove (accounts_in raws))
unfolding rewrite_lines edit_all accounts_in
rewrite_lines-Written replace remove valid [] st st' {out} w h e =
    rw (append-nil out) (subst (λ t. Written t out) (some-eq e) w)
rewrite_lines-Written replace remove valid (raw ∷ raws) st st' {out} w (g, h) e =
    elim (Option-cases (rewrite_line replace remove raw st)) [
      | inl p ↦ let no = rw p at e in cc
      | inr (st1, p) ↦
          let first = rewrite_line-Written replace remove valid raw st st1 w g p in
          let rest = rewrite_lines-Written replace remove valid raws st1 st' first h (rw p at e) in
          subst (Written st')
            (append_assoc out (edit replace remove (account_of raw)) _
              ∙ ap (λ rs. out ++ rs) (edit_first replace remove raw raws))
            rest
    ]

-- Where the rewrite succeeds, with a valid record of one line to replace or with none, the records of the
-- new text are the old ones edited: those of the name to remove are gone, those of the name to replace
-- are the new record, and the others are the same, in the same order. The new text can be loaded again.
pub rewrite_lines-edit :
    (replace : Option Account) (remove : Option Bytes) (db : Bytes) {st : Rewrite}
    → ((r : Account) → replace ≡ some r → IsLine r)
    → rewrite_lines replace remove (split_lines db) start ≡ some st
    → (accounts_in (split_lines st.next) ≡ edit_all replace remove (accounts_in (split_lines db)))
      × (length st.next < 4096)
rewrite_lines-edit replace remove db {st} valid e =
    let from : Written start [] =
      ([], unfold unlines in refl, tt, unfold accounts_in in refl, omega arith, omega arith) in
    let (lines, whole, h, found, short, fits) =
      rewrite_lines-Written replace remove valid (split_lines db) start st from
        (split_lines-AreLines db) e in
    (ap (λ t. accounts_in (split_lines t)) whole ∙ accounts_in-unlines lines h ∙ found, omega arith)
