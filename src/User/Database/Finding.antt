-- ===== src/User/Database/Finding.antt =====
-- A search in the account database as a search in the list of its records.
use xiaobai_os.Base.{
  ℕ, ◌+◌, ◌-◌, ◌^◌, ◌||◌, not, ◌≤◌, ◌<◌, ◌≡◌, ◌≢◌, refl, sym, ap, subst, ◌∙◌, arith, Bool, true,
  false, ◌==◌, ltb, if◌then◌else◌, Bool-cases, Option-cases, inl, inr, Option, none, some, List, [],
  ◌∷◌, Bytes, length,
}
use xiaobai_os.Runtime.Words.{streq}
use xiaobai_os.Runtime.Access.Exec.{streq→eq}
use xiaobai_os.User.Records.{Account}
use xiaobai_os.User.Kernel.{Kernel, Keeps, db_path}
use xiaobai_os.User.Database.{
  split_lines, account_of, accounts_in, find_in, removes, replaced_by, rewrite_lines, start,
  db_load, db_rewrite_with,
}
use xiaobai_os.User.Database.Plain.{IsLine}
use xiaobai_os.User.Database.Rewriting.{edit_all, rewrite_lines-edit}

-- The first record of a name.
unfoldable pub named : Bytes → List Account → Option Account
named name [] = none
named name (r ∷ rs) = let rest = named name rs in if streq r.name name then some r else rest

pub find_in-named :
    (name : Bytes) (lines : List Bytes) → find_in name lines ≡ named name (accounts_in lines)
unfolding find_in named accounts_in
find_in-named name [] = refl
find_in-named name (raw ∷ lines) = elim (Option-cases (account_of raw)) [
  | inl e ↦ rw (e, find_in, accounts_in) (find_in-named name lines)
  | inr (r, e) ↦ rw (e, find_in, accounts_in) (rw (find_in-named name lines) refl)
]

pub streq_refl : (s : Bytes) → streq s s ≡ true
unfolding streq
streq_refl [] = refl
streq_refl (c ∷ s) = ground (arith, streq_refl s)

pub streq_ne : (a b : Bytes) → a ≢ b → streq a b ≡ false
streq_ne a b ne = elim (Bool-cases (streq a b)) [ inl e ↦ absurd (ne (streq→eq a b e)) | inr e ↦ e ]

pub named-name :
    (name : Bytes) (rs : List Account) {r : Account} → named name rs ≡ some r → r.name ≡ name
unfolding named
named-name name [] e = cc
named-name name (r ∷ rs) e = elim (Bool-cases (streq r.name name)) [
  | inl p ↦ let same = rw p at e in streq→eq _ name (ground (arith, p))
  | inr p ↦ named-name name rs (rw p at e)
]

-- A record is replaced where it is found.
pub named-edit_same :
    (r' : Account) (rs : List Account) {r : Account}
    → named r'.name rs ≡ some r
    → named r'.name (edit_all (some r') none rs) ≡ some r'
unfolding named edit_all removes replaced_by
named-edit_same r' [] e = cc
named-edit_same r' (r ∷ rs) e = elim (Bool-cases (streq r.name r'.name)) [
  | inl p ↦ rw (p, streq_refl r'.name) refl
  | inr p ↦ rw (p) (rw p (named-edit_same r' rs (rw p at e)))
]

pub named-edit_other :
    (name : Bytes) (r' : Account) (rs : List Account)
    → r'.name ≢ name
    → named name (edit_all (some r') none rs) ≡ named name rs
unfolding named edit_all removes replaced_by
named-edit_other name r' [] ne = refl
named-edit_other name r' (r ∷ rs) ne = elim (Bool-cases (streq r.name r'.name)) [
  | inl p ↦
      let same = streq→eq r.name r'.name p in
      rw
        (
          p,
          streq_ne r'.name name ne,
          subst (λ n. streq n name ≡ false) (sym same) (streq_ne r'.name name ne),
        )
        (named-edit_other name r' rs ne)
  | inr p ↦ rw p (rw (named-edit_other name r' rs ne) refl)
]

pub named-edit_removed :
    (name : Bytes) (rs : List Account) → named name (edit_all none (some name) rs) ≡ none
unfolding named edit_all removes replaced_by
named-edit_removed name [] = refl
named-edit_removed name (r ∷ rs) = elim (Bool-cases (streq r.name name)) [
  | inl p ↦ rw p (named-edit_removed name rs)
  | inr p ↦ rw p (rw p (named-edit_removed name rs))
]

pub named-edit_kept :
    (name gone : Bytes) (rs : List Account)
    → gone ≢ name
    → named name (edit_all none (some gone) rs) ≡ named name rs
unfolding named edit_all removes replaced_by
named-edit_kept name gone [] ne = refl
named-edit_kept name gone (r ∷ rs) ne = elim (Bool-cases (streq r.name gone)) [
  | inl p ↦
      let same = streq→eq r.name gone p in
      rw (p, subst (λ n. streq n name ≡ false) (sym same) (streq_ne gone name ne))
        (named-edit_kept name gone rs ne)
  | inr p ↦ rw p (rw (named-edit_kept name gone rs ne) refl)
]

-- cu_read_all by the size of the file and what is read of it.
abbrev outcome : ℕ → Bytes → Option Bytes
outcome size got =
    if size == 2 ^ 64 - 1 || ltb 4096 (size + 1)
    then none
    else if size == 0
    then some []
    else if length got == size
    then some got
    else none

outcome_short : (t : Bytes) → length t < 4096 → outcome (length t) t ≡ some t
outcome_short [] short = refl
outcome_short (c ∷ t) short = ground arith

outcome_long : (t : Bytes) → 4096 ≤ length t → outcome (length t) t ≡ none
outcome_long t long = ground arith

outcome-some : (t : Bytes) {u : Bytes} → outcome (length t) t ≡ some u → (length t < 4096) × (t ≡ u)
outcome-some t {u} e = elim (Bool-cases (ltb (length t) 4096)) [
  | inl p ↦
      let short : length t < 4096 = ground arith in
      let same = sym (outcome_short t short) ∙ e in (short, cc)
  | inr p ↦ absurd (ground arith)
]

module _ {S : Type 0} (K : Kernel S) {file : S → Option Bytes} (laws : Keeps K file) where
  pub load-outcome : (s : S) (t : Bytes) → file s ≡ some t → db_load K s ≡ outcome (length t) t
  unfolding db_load
  load-outcome s t e =
      let size = laws.size s t e in
      let got : K.read s db_path (K.stat_size s db_path) ≡ t =
        ap (K.read s db_path) size ∙ laws.reads s t e in
      ap (λ n. outcome n (K.read s db_path (K.stat_size s db_path))) size
      ∙ ap (outcome (length t)) got

  pub db_load-file : (s : S) (t : Bytes) → file s ≡ some t → length t < 4096 → db_load K s ≡ some t
  db_load-file s t e short = load-outcome s t e ∙ outcome_short t short

  pub db_load_long : (s : S) (t : Bytes) → file s ≡ some t → 4096 ≤ length t → db_load K s ≡ none
  db_load_long s t e long = load-outcome s t e ∙ outcome_long t long

  no_load : (s : S) → file s ≡ none → db_load K s ≡ none
  unfolding db_load
  no_load s e = ap (λ n. outcome n (K.read s db_path (K.stat_size s db_path))) (laws.no_size s e)

  pub file-db_load :
      (s : S) {t : Bytes} → db_load K s ≡ some t → (file s ≡ some t) × (length t < 4096)
  file-db_load s {t} e = elim (Option-cases (file s)) [
    | inl n ↦ let no = sym (no_load s n) ∙ e in cc
    | inr (u, p) ↦
        let (short, same) = outcome-some u (sym (load-outcome s u p) ∙ e) in
        (p ∙ ap some same, subst (λ v. length v < 4096) same short)
  ]

  -- The load depends on the file alone.
  pub db_load-same : (s s' : S) → file s' ≡ file s → db_load K s' ≡ db_load K s
  db_load-same s s' e = elim (Option-cases (file s)) [
    | inl n ↦ no_load s' (e ∙ n) ∙ sym (no_load s n)
    | inr (t, p) ↦ load-outcome s' t (e ∙ p) ∙ sym (load-outcome s t p)
  ]

  load_written :
      (s : S) (t : Bytes) {s' : S}
      → length t < 4096
      → ◌≡◌ {A = S × Bool} ((K.write s db_path t).0, not ((K.write s db_path t).1 == 0)) (s', true)
      → db_load K s' ≡ some t
  load_written s t {s'} short e =
      let done : not ((K.write s db_path t).1 == 0) ≡ true = ap (λ p. p.1) e in
      let there : file (K.write s db_path t).0 ≡ some t = laws.written s t (ground arith) in
      db_load-file s' t (subst (λ u. file u ≡ some t) (ap (λ p. p.0) e) there) short

  -- A rewrite that succeeds, in the terms of the records before and after.
  pub db_rewrite_with-edit :
      (replace : Option Account) (remove : Option Bytes) (s : S) {s' : S}
      → ((r : Account) → replace ≡ some r → IsLine r)
      → db_rewrite_with K replace remove s ≡ (s', true)
      → (db : Bytes) × (db' : Bytes) × (db_load K s ≡ some db)
        × (db_load K s' ≡ some db')
        × (accounts_in (split_lines db') ≡ edit_all replace remove (accounts_in (split_lines db)))
  unfolding db_rewrite_with
  db_rewrite_with-edit replace remove s {s'} valid e = elim (Option-cases (db_load K s)) [
    | inl n ↦ let no = rw (n, db_rewrite_with) at e in cc
    | inr (db, p) ↦ elim (Option-cases (rewrite_lines replace remove (split_lines db) start)) [
      | inl n ↦ let no = rw (p, n, db_rewrite_with) at e in cc
      | inr (st, q) ↦
          let done = rw (p, q, db_rewrite_with) at e in
          let (edited, short) = rewrite_lines-edit replace remove db valid q in
          elim (Bool-cases st.found) [
            | inr f ↦ let no = rw f at done in cc
            | inl f ↦ (db, st.next, p, load_written s st.next short (rw f at done), edited)
          ]
    ]
  ]
