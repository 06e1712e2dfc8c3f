-- ===== src/User/Accounts/Creation.antt =====
-- The creation of an account in the database of xiaobaios/apps/user/cleonos_user.c.
use xiaobai_os.Base.{
  ℕ, ◌≤◌, ◌<◌, ◌≡◌, ◌≢◌, ◌⊎◌, refl, sym, ap, subst, ◌∙◌, arith, Bool, true, false, not, ◌==◌,
  Bool-cases, inl, inr, Option, some, [], ◌∷◌, ◌++◌, Bytes, codes, length, length-append,
  All-append, All-imp,
}
use xiaobai_os.Libc.Ctype.{isspace}
use xiaobai_os.Runtime.Words.Laws.{Ends}
use xiaobai_os.User.Records.{
  Account, role_admin, all_name_chars, name_valid, home_for, record_line, colon, role_name,
}
use xiaobai_os.User.Records.RoundTrip.{
  IsValid, copy_whole, append_whole, Ends-append, all_name_chars-NoColon, name_head,
}
use xiaobai_os.User.Sha.{hash_password}
use xiaobai_os.User.Kernel.{Kernel, Keeps, db_path}
use xiaobai_os.User.Database.Plain.{IsPlain, IsLine, name-IsPlain}
use xiaobai_os.User.Accounts.{
  and_then, new_account, role_of, make_dir, append_record, create_record,
}
use xiaobai_os.User.Accounts.Passwords.{hash_password-chars}

name-Ends : (name : Bytes) → all_name_chars name ≡ true → Ends name
unfolding all_name_chars isspace
name-Ends [] e = tt
name-Ends (c ∷ []) e = ground arith
name-Ends (c ∷ (d ∷ name)) e = name-Ends (d ∷ name) (ground arith)

home_for-name : (name : Bytes) → length name < 32 → home_for name 96 ≡ codes "/home/" ++ name
unfolding home_for
home_for-name name short =
    rw (append_whole [] 96 (codes "/home/") (omega arith))
      (append_whole (codes "/home/") 96 name (omega arith))

length-role_name_le : (role : ℕ) → length (role_name role) ≤ 5
length-role_name_le role = elim (Bool-cases (role == role_admin)) [
  | inl e ↦ rw e (omega arith)
  | inr e ↦ rw e (omega arith)
]

role_of-known : (role : ℕ) → (role_of role ≡ 0) ⊎ (role_of role ≡ role_admin)
role_of-known role = elim (Bool-cases (role == role_admin)) [
  | inl e ↦ rw e (inr refl)
  | inr e ↦ rw e (inl refl)
]

-- The new record with its fields written out.
abbrev pub plain_account : Bytes → Bytes → Bytes → ℕ → Account
plain_account buffer name password role = record {
  name = name;
  hash = hash_password buffer password;
  role = role_of role;
  home = codes "/home/" ++ name;
}

pub new_account-eq :
    (buffer name password : Bytes) (role : ℕ)
    → length name < 32
    → new_account buffer name password role ≡ plain_account buffer name password role
new_account-eq buffer name password role short =
    rw (copy_whole 32 name short, home_for-name name short) refl

-- A new record is valid, and one line of text.
pub plain_account-IsLine :
    (buffer name password : Bytes) (role : ℕ)
    → length buffer ≡ 64
    → name_valid name ≡ true
    → IsLine (plain_account buffer name password role)
plain_account-IsLine buffer name password role e ok =
    let short : length name < 32 = unfold name_valid in ground arith in
    let chars : all_name_chars name ≡ true = unfold name_valid in ground arith in
    let (long, hashed) = hash_password-chars buffer password e in
    let hash = hash_password buffer password in
    let home_chars : all_name_chars (codes "home") ≡ true = unfold all_name_chars in refl in
    let slash : IsPlain b'/' = (omega arith, omega arith) in
    let (c, t, shape, first) = name_head name ok in
    let valid : IsValid (plain_account buffer name password role) = record {
      named = ok;
      hashed = long;
      hash_field = All-imp (λ c p. p.0) hash hashed;
      rooted = refl;
      home_field = (
        omega arith,
        All-append (λ c. c ≢ colon) (codes "home") (b'/' ∷ name)
            (all_name_chars-NoColon (codes "home") home_chars)
            (omega arith, all_name_chars-NoColon name chars),
      );
      home_ends = Ends-append (codes "/home/") name (λ q. cc) (name-Ends name chars);
      home_fits = omega (arith, length-append (codes "/home/") name);
      role_known = role_of-known role;
      line_fits =
          omega (arith, length-append (codes "/home/") name, length-role_name_le (role_of role));
    } in
    record {
      valid = valid;
      plain_hash = All-imp (λ c p. p.1) hash hashed;
      plain_home = (
        slash,
        All-append IsPlain (codes "home") (b'/' ∷ name) (name-IsPlain (codes "home") home_chars)
            (slash, name-IsPlain name chars),
      );
    }

module _ {S : Type 0} (K : Kernel S) {file : S → Option Bytes} (laws : Keeps K file) where
  make_dir-file :
      (path : Bytes) (s : S) {s' : S} → make_dir K path s ≡ (s', true) → file s' ≡ file s
  unfolding make_dir
  make_dir-file path s e = elim (Bool-cases (K.stat_type s path == 2)) [
    | inl p ↦ ap file (sym (ap (λ q. q.0) (rw (p, make_dir) at e)))
    | inr p ↦ ap file (sym (ap (λ q. q.0) (rw (p, make_dir) at e))) ∙ laws.made s path
  ]

  append_record-file :
      (r : Account) (s : S) (t : Bytes) {s' : S}
      → file s ≡ some t
      → append_record K r s ≡ (s', true)
      → file s' ≡ some (t ++ record_line r 192)
  unfolding append_record
  append_record-file r s t {s'} f e =
      let done : not ((K.append_file s db_path (record_line r 192)).1 == 0) ≡ true =
        ap (λ p. p.1) e in
      subst (λ u. file u ≡ some (t ++ record_line r 192)) (ap (λ p. p.0) e)
        (laws.appended s t (record_line r 192) f (ground arith))

  and_then-steps :
      (p : S × Bool) (f : S → S × Bool) {s' : S}
      → and_then p f ≡ (s', true)
      → (s1 : S) × (p ≡ (s1, true)) × (f s1 ≡ (s', true))
  and_then-steps (s1, true) f e = (s1, refl, e)
  and_then-steps (s1, false) f e = cc

  pub create_record-file :
      (buffer name password : Bytes) (role : ℕ) (s : S) (t : Bytes) {s' : S}
      → file s ≡ some t
      → create_record K buffer name password role s ≡ (s', true)
      → file s' ≡ some (t ++ record_line (new_account buffer name password role) 192)
  unfolding create_record
  create_record-file buffer name password role s t {s'} f e =
      let r = new_account buffer name password role in
      let (s1, first, e1) = and_then-steps (make_dir K (codes "/home") s) _ e in
      let (s2, second, e2) = and_then-steps (make_dir K r.home s1) (append_record K r) e1 in
      append_record-file r s2 t
        (make_dir-file r.home s1 second ∙ make_dir-file (codes "/home") s first ∙ f) e2
