-- ===== src/User/Accounts/Created.antt =====
-- An account that is created in the database can log in, where the database keeps its size.
use xiaobai_os.Base.{
  ℕ, ◌+◌, ◌≤◌, ◌<◌, ◌≡◌, ◌≢◌, refl, sym, ap, subst, ◌∙◌, arith, Bool, true, false, Bool-cases,
  Option-cases, inl, inr, Option, none, some, List, [], ◌∷◌, ◌++◌, Bytes, length, length-append,
  All-append,
}
use xiaobai_os.Runtime.Words.{streq}
use xiaobai_os.User.Records.{Account, name_valid, record_line}
use xiaobai_os.User.Records.RoundTrip.{fields, record_line-fields}
use xiaobai_os.User.Kernel.{Kernel, Keeps, db_path}
use xiaobai_os.User.Database.{split_lines, accounts_in, find, verify_password}
use xiaobai_os.User.Database.Lines.{AreLines, unlines, unlines_last, accounts_in-append}
use xiaobai_os.User.Database.Plain.{
  IsLine, one_line, listed, one-account, account_of-fields, accounts_in-unlines,
}
use xiaobai_os.User.Database.Finding.{named, streq_refl, streq_ne, db_load-file, db_load_long}
use xiaobai_os.User.Accounts.{and_then, new_account, make_db, create_record, create_in_db}
use xiaobai_os.User.Accounts.Changes.{if_same, find-named, verified}
use xiaobai_os.User.Accounts.Creation.{
  plain_account, new_account-eq, plain_account-IsLine, create_record-file,
}

named-append_none :
    (name : Bytes) (xs ys : List Account)
    → named name xs ≡ none
    → named name (xs ++ ys) ≡ named name ys
unfolding named
named-append_none name [] ys e = refl
named-append_none name (r ∷ xs) ys e = elim (Bool-cases (streq r.name name)) [
  | inl p ↦ let no = rw p at e in cc
  | inr p ↦ rw p (named-append_none name xs ys (rw p at e))
]

named-append_other :
    (name : Bytes) (xs : List Account) (r : Account)
    → r.name ≢ name
    → named name (xs ++ (r ∷ [])) ≡ named name xs
unfolding named
named-append_other name [] r ne = rw (streq_ne r.name name ne) refl
named-append_other name (x ∷ xs) r ne = rw (named-append_other name xs r ne) refl

only : (name : Bytes) (r : Account) → r.name ≡ name → named name (r ∷ []) ≡ some r
unfolding named
only name r e = rw (subst (λ n. streq r.name n ≡ true) e (streq_refl r.name)) refl

appended-accounts :
    (lines : List Bytes) (r : Account)
    → AreLines lines
    → IsLine r
    → accounts_in (split_lines (unlines lines ++ record_line r 192)) ≡ accounts_in lines ++ (r ∷ [])
appended-accounts lines r h line =
    let (text, short) = record_line-fields r line.valid in
    ap (λ t. accounts_in (split_lines (unlines lines ++ t))) text
    ∙ ap (λ t. accounts_in (split_lines t)) (sym (unlines_last lines (fields r)))
    ∙ accounts_in-unlines (lines ++ (fields r ∷ []))
        (All-append _ lines (fields r ∷ []) h (one_line r line, tt))
    ∙ accounts_in-append lines (fields r ∷ [])
    ∙ ap (λ rs. accounts_in lines ++ rs)
        (one-account (fields r) ∙ ap listed (account_of-fields r line))

module _ {S : Type 0} (K : Kernel S) {file : S → Option Bytes} (laws : Keeps K file) where
  ready : (s : S) → K.stat_type s db_path ≡ 1 → make_db K s ≡ (s, true)
  unfolding make_db
  ready s there = rw there refl

  -- The search for the name, where the database is there.
  create_in_db-find :
      (buffer name password : Bytes) (role : ℕ) (s : S) (o : Option Account)
      → K.stat_type s db_path ≡ 1
      → find K name s ≡ o
      → create_in_db K buffer name password role false s ≡ (elim o as (λ x. S × Bool) [
        | some r ↦ (s, false)
        | none ↦ create_record K buffer name password role s
      ])
  unfolding create_in_db
  create_in_db-find buffer name password role s o there e =
      let step = λ (s1 : S) (x : Option Account). elim x as (λ x. S × Bool) [
        | some r ↦ (s1, false)
        | none ↦ create_record K buffer name password role s1
      ] in
      ap (λ q. and_then q (λ s1. step s1 (find K name s1))) (ready s there) ∙ ap (step s) e

  -- An account that is created in the database with success has the password that it was given and the role,
  -- and every other name is found as before. The database is there and its text is whole lines, the name is
  -- valid and not yet in it, and there is room for the record in the 4,095 bytes that can be loaded again.
  pub create_in_db-verify :
      (buffer buffer' name password : Bytes) (role : ℕ) (s : S) {s' : S} (lines : List Bytes)
      → length buffer ≡ 64
      → length buffer' ≡ 64
      → name_valid name ≡ true
      → K.stat_type s db_path ≡ 1
      → file s ≡ some (unlines lines)
      → AreLines lines
      → length (unlines lines) + 192 ≤ 4096
      → create_in_db K buffer name password role false s ≡ (s', true)
      → (verify_password K buffer' name password s'
          ≡ some (plain_account buffer name password role))
        × ((other : Bytes) → other ≢ name → find K other s' ≡ find K other s)
  unfolding create_in_db make_db verify_password
  create_in_db-verify buffer buffer' name password role s {s'} lines b b' ok there f h room e =
      let db = unlines lines in
      let old = accounts_in (split_lines db) in
      let r = plain_account buffer name password role in
      let line = plain_account-IsLine buffer name password role b ok in
      let short : length name < 32 = unfold name_valid in ground arith in
      let before = db_load-file K laws s db f (omega arith) in
      let searched = find-named K laws name s db before in
      elim (Option-cases (find K name s)) [
        | inr (r', p) ↦
            let no = sym (create_in_db-find buffer name password role s (some r') there p) ∙ e in cc
        | inl p ↦
            let ran = sym (create_in_db-find buffer name password role s none there p) ∙ e in
            let text = create_record-file K laws buffer name password role s db f ran in
            let after =
              subst (λ x. file s' ≡ some (db ++ record_line x 192))
                (new_account-eq buffer name password role short) text in
            let (written, fits) = record_line-fields r line.valid in
            let loaded =
              db_load-file K laws s' (db ++ record_line r 192) after
                (omega (arith, length-append db (record_line r 192), ap length written)) in
            let accounts =
              appended-accounts lines r h line
              ∙ ap (λ rs. rs ++ (r ∷ [])) (sym (accounts_in-unlines lines h)) in
            let absent : named name old ≡ none = rw ok at (sym searched ∙ p) in
            let found : find K name s' ≡ some r =
              find-named K laws name s' _ loaded
              ∙ rw (ok, accounts, named-append_none name old (r ∷ []) absent) (only name r refl) in
            (
              verified K laws buffer buffer' name password s' r found refl b b',
              λ other ne.
                  find-named K laws other s' _ loaded
                  ∙ rw (accounts, named-append_other other old r (λ q. ne (sym q))) refl
                  ∙ sym (find-named K laws other s db before),
            )
      ]

  -- A record that is appended with success where there is no room for it locks every name out: no account is
  -- found any more.
  pub create_record_overfills :
      (buffer name password other : Bytes) (role : ℕ) (s : S) {s' : S} (db : Bytes)
      → file s ≡ some db
      → 4096 ≤ length db + length (record_line (new_account buffer name password role) 192)
      → create_record K buffer name password role s ≡ (s', true)
      → find K other s' ≡ none
  unfolding find
  create_record_overfills buffer name password other role s {s'} db f long e =
      let line = record_line (new_account buffer name password role) 192 in
      let text = create_record-file K laws buffer name password role s db f e in
      let lost = db_load_long K laws s' (db ++ line) text (omega (arith, length-append db line)) in
      rw (lost, find) (if_same (name_valid other))
