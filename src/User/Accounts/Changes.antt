-- ===== src/User/Accounts/Changes.antt =====
-- What the operations on accounts change in the database, and what they leave.
use xiaobai_os.Base.{
  ℕ, ◌≡◌, ◌≢◌, refl, sym, ap, subst, ◌∙◌, arith, Bool, true, false, not, ◌||◌, ◌==◌, if◌then◌else◌,
  Bool-cases, inl, inr, Option, none, some, Bytes, codes, length,
}
use xiaobai_os.Runtime.Words.{streq}
use xiaobai_os.User.Records.{Account, name_valid}
use xiaobai_os.User.Sha.{hash_password}
use xiaobai_os.User.Kernel.{Kernel, Keeps}
use xiaobai_os.User.Database.{
  split_lines, accounts_in, db_load, find, verify_password, db_rewrite_with,
}
use xiaobai_os.User.Database.Plain.{IsLine}
use xiaobai_os.User.Database.Rewriting.{edit_all}
use xiaobai_os.User.Database.Finding.{
  named, find_in-named, streq_refl, named-name, named-edit_same, named-edit_other,
  named-edit_removed, named-edit_kept, db_load-same, db_rewrite_with-edit,
}
use xiaobai_os.User.Accounts.{with_hash, with_role, role_of, change_password, set_role, remove}
use xiaobai_os.User.Accounts.Passwords.{hash_password-eq, with_hash-IsLine}

pub if_same : (b : Bool) → ◌≡◌ {A = Option Account} (if b then none else none) none
if_same true = refl
if_same false = refl

module _ {S : Type 0} (K : Kernel S) {file : S → Option Bytes} (laws : Keeps K file) where
  pub find-named :
      (name : Bytes) (s : S) (db : Bytes)
      → db_load K s ≡ some db
      → find K name s
        ≡ (if name_valid name then named name (accounts_in (split_lines db)) else none)
  unfolding find
  find-named name s db e =
      rw (e, find)
        (ap (λ o. if name_valid name then o else none) (find_in-named name (split_lines db)))

  find-some :
      (name : Bytes) (s : S) (db : Bytes) {r : Account}
      → db_load K s ≡ some db
      → find K name s ≡ some r
      → (named name (accounts_in (split_lines db)) ≡ some r) × (name_valid name ≡ true)
  find-some name s db {r} e f = elim (Bool-cases (name_valid name)) [
    | inl p ↦ (rw p at (sym (find-named name s db e) ∙ f), p)
    | inr p ↦ let no = rw p at (sym (find-named name s db e) ∙ f) in cc
  ]

  -- The rewrite with a new record under the name of one that is found.
  replaced :
      (r r' : Account) (name : Bytes) (s s1 : S) {s' : S}
      → find K name s ≡ some r
      → r'.name ≡ r.name
      → IsLine r'
      → file s1 ≡ file s
      → db_rewrite_with K (some r') none s1 ≡ (s', true)
      → (find K name s' ≡ some r')
        × ((other : Bytes) → other ≢ name → find K other s' ≡ find K other s)
  replaced r r' name s s1 {s'} f same line kept e =
      let (db, db', loaded, loaded', edited) =
        db_rewrite_with-edit K laws (some r') none s1 (λ q w. subst IsLine (cc) line) e in
      let before : db_load K s ≡ some db = sym (db_load-same K laws s s1 kept) ∙ loaded in
      let (there, ok) = find-some name s db before f in
      let here : r'.name ≡ name = same ∙ named-name name (accounts_in (split_lines db)) there in
      (
        find-named name s' db' loaded'
            ∙ rw (ok, edited)
                (subst
                  (λ n. named n (edit_all (some r') none (accounts_in (split_lines db))) ≡ some r')
                  here
                  (named-edit_same r' (accounts_in (split_lines db)) (
                    subst (λ n. named n (accounts_in (split_lines db)) ≡ some r) (sym here)
                      there))),
        λ other ne.
            find-named other s' db' loaded'
            ∙ rw
                (
                  edited,
                  named-edit_other other r' (accounts_in (split_lines db)) (λ q. ne (sym q ∙ here)),
                )
                refl
            ∙ sym (find-named other s db before),
      )

  -- A record that is found with the hash of the password is verified with it.
  pub verified :
      (buffer buffer' name password : Bytes) (s : S) (r : Account)
      → find K name s ≡ some r
      → r.hash ≡ hash_password buffer password
      → length buffer ≡ 64
      → length buffer' ≡ 64
      → verify_password K buffer' name password s ≡ some r
  unfolding verify_password
  verified buffer buffer' name password s r found same b b' =
      let hashed = same ∙ hash_password-eq buffer buffer' password b b' in
      rw (found, hashed, streq_refl (hash_password buffer' password)) refl

  -- After a password is changed with success, the new one is verified, with the record found before and its
  -- hash, and every other name is found as before. The record is valid, of one line of text, and what the
  -- hashers' buffers of 64 bytes held before is of no account.
  pub change_password-verify :
      (buffer buffer' name password : Bytes) (s : S) {s' : S} {r : Account}
      → length buffer ≡ 64
      → length buffer' ≡ 64
      → find K name s ≡ some r
      → IsLine r
      → change_password K buffer name password s ≡ (s', true)
      → (verify_password K buffer' name password s'
          ≡ some (with_hash (hash_password buffer password) r))
        × ((other : Bytes) → other ≢ name → find K other s' ≡ find K other s)
  unfolding change_password
  change_password-verify buffer buffer' name password s {s'} {r} b b' f line e =
      let ran = rw (f, change_password) at e in
      elim (Bool-cases (length password == 0)) [
        | inl p ↦ let no = rw p at ran in cc
        | inr p ↦
            let new = with_hash (hash_password buffer password) r in
            let (found, others) =
              replaced r new name s s f refl (with_hash-IsLine r buffer password b line) refl
                (rw p at ran) in
            (verified buffer buffer' name password s' new found refl b b', others)
      ]

  -- After a role is set with success, where the kernel did not do it, the record found before is found with
  -- the new role, and every other name as before. The record with the new role is valid, of one line of text,
  -- and short enough for a line of the file with its newline.
  pub set_role-find :
      (name : Bytes) (role : ℕ) (s : S) {s' : S} {r : Account}
      → find K name s ≡ some r
      → IsLine (with_role (role_of role) r)
      → (K.user_set_role s name role).1 ≡ 0
      → set_role K name role s ≡ (s', true)
      → (find K name s' ≡ some (with_role (role_of role) r))
        × ((other : Bytes) → other ≢ name → find K other s' ≡ find K other s)
  unfolding set_role
  set_role-find name role s {s'} {r} f line failed e =
      replaced r (with_role (role_of role) r) name s (K.user_set_role s name role).0 f refl line
        (laws.raised s name role) (rw (f, failed, set_role) at e)

  -- After a user is removed with success, where the kernel did not do it, the name is not found, every other
  -- name is found as before, and the user was not root.
  pub remove-find :
      (name : Bytes) (s : S) {s' : S}
      → (K.user_remove s name).1 ≡ 0
      → remove K name s ≡ (s', true)
      → (find K name s' ≡ none)
        × ((other : Bytes) → other ≢ name → find K other s' ≡ find K other s)
        × (name ≢ codes "root")
  unfolding remove
  remove-find name s {s'} failed e =
      elim (Bool-cases (not (name_valid name) || streq name (codes "root"))) [
        | inl p ↦ let no = rw (p, remove) at e in cc
        | inr p ↦
            let s1 = (K.user_remove s name).0 in
            let ran : db_rewrite_with K none (some name) s1 ≡ (s', true) =
              rw (p, failed, remove) at e in
            let (db, db', loaded, loaded', edited) =
              db_rewrite_with-edit K laws none (some name) s1 (λ q w. cc) ran in
            let before : db_load K s ≡ some db =
              sym (db_load-same K laws s s1 (laws.removed s name)) ∙ loaded in
            (
              find-named name s' db' loaded'
                  ∙ rw (edited, named-edit_removed name (accounts_in (split_lines db)))
                      (if_same (name_valid name)),
              λ other ne.
                  find-named other s' db' loaded'
                  ∙ rw
                      (
                        edited,
                        named-edit_kept other name (accounts_in (split_lines db)) (λ q. ne (sym q)),
                      )
                      refl
                  ∙ sym (find-named other s db before),
              λ q.
                  let root : streq name (codes "root") ≡ true =
                    subst (λ n. streq name n ≡ true) q (streq_refl name) in
                  let no = rw root at p in ground arith,
            )
      ]
