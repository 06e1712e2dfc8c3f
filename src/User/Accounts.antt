-- ===== src/User/Accounts.antt =====
-- The operations on accounts in xiaobaios/apps/user/cleonos_user.c. Each asks the kernel first and goes to
-- the database where that fails; a function returns the state after and whether it succeeded. A null
-- password is refused like an empty one.
pub mod Passwords
pub mod Changes
pub mod Creation
pub mod Created
use xiaobai_os.Base.{
  ℕ, zero, suc, ◌+◌, ◌-◌, ◌^◌, Bool, true, false, not, ◌&&◌, ◌||◌, ◌==◌, ltb, if◌then◌else◌, Option,
  none, some, ◌>>=◌, List, [], ◌∷◌, Bytes, codes, length,
}
use xiaobai_os.Runtime.Words.{streq, copy}
use xiaobai_os.User.Records.{Account, role_admin, name_valid, home_for, record_line}
use xiaobai_os.User.Sha.{hash_password}
use xiaobai_os.User.Kernel.{UserInfo, Kernel, db_path}
use xiaobai_os.User.Database.{accounts_in, split_lines, db_load, find, db_rewrite_with}

-- The next step, unless the one before failed.
abbrev pub and_then {ℓ} : {S : Type ℓ} → S × Bool → (S → S × Bool) → S × Bool
and_then (s, true) f = f s
and_then (s, false) f = (s, false)

abbrev pub role_of : ℕ → ℕ
role_of role = if role == role_admin then role_admin else 0

abbrev pub new_account : Bytes → Bytes → Bytes → ℕ → Account
new_account buffer name password role = record {
  name = copy [] 32 name;
  hash = hash_password buffer password;
  role = role_of role;
  home = home_for name 96;
}

abbrev pub with_hash : Bytes → Account → Account
with_hash hash r = record { name = r.name; hash = hash; role = r.role; home = r.home }

abbrev pub with_role : ℕ → Account → Account
with_role role r = record { name = r.name; hash = r.hash; role = role; home = r.home }

-- The record that the kernel's answer makes.
abbrev pub account_from : UserInfo → Account
account_from info = record {
  name = copy [] 32 info.name;
  hash = [];
  role = info.role;
  home = copy [] 96 info.home;
}

module _ {S : Type 0} (K : Kernel S) where
  pub is_disk_boot : S → Bool
  is_disk_boot s =
      let at_root : Bool = elim (K.disk_mount_path s) [
        | some path ↦ streq path (codes "/")
        | none ↦ false
      ] in
      if K.disk_mounted s == 0 then false else at_root

  pub db_exists : S → Bool
  db_exists s = K.stat_type s db_path == 1

  unfoldable pub make_db : S → S × Bool
  make_db s =
      let (s', n) = K.write s db_path [] in
      if K.stat_type s db_path == 1 then (s, true) else (s', not (n == 0))

  unfoldable pub make_dir : Bytes → S → S × Bool
  make_dir path s =
      let (s', n) = K.mkdir s path in
      if K.stat_type s path == 2 then (s, true) else (s', not (n == 0))

  unfoldable pub append_record : Account → S → S × Bool
  append_record r s =
      let (s', n) = K.append_file s db_path (record_line r 192) in (s', not (n == 0))

  -- The part of the creation behind the search for the name.
  unfoldable pub create_record : Bytes → Bytes → Bytes → ℕ → S → S × Bool
  unfolding make_dir append_record
  create_record buffer name password role s =
      let r = new_account buffer name password role in
      and_then (make_dir (codes "/home") s)
        (λ s1. and_then (make_dir r.home s1) (λ s2. append_record r s2))

  -- The part behind the call of the kernel.
  unfoldable pub create_in_db : Bytes → Bytes → Bytes → ℕ → Bool → S → S × Bool
  unfolding make_db create_record
  create_in_db buffer name password role allow_existing s = and_then (make_db s) (λ s1.
      elim (find K name s1) [
        | some r ↦ (s1, allow_existing)
        | none ↦ create_record buffer name password role s1
      ])

  unfoldable pub create : Bytes → Bytes → Bytes → ℕ → Bool → S → S × Bool
  unfolding create_in_db
  create buffer name password role allow_existing s =
      let (s1, added) = K.user_add s name password role in
      let in_db = create_in_db buffer name password role allow_existing s1 in
      if not (name_valid name) || length password == 0
      then (s, false)
      else if added == 0
      then in_db
      else (s1, true)

  unfoldable pub change_password : Bytes → Bytes → Bytes → S → S × Bool
  change_password buffer name new_password s = elim (find K name s) [
    | none ↦ (s, false)
    | some r ↦
        let new = with_hash (hash_password buffer new_password) r in
        let rewritten = db_rewrite_with K (some new) none s in
        if length new_password == 0 then (s, false) else rewritten
  ]

  unfoldable pub set_role : Bytes → ℕ → S → S × Bool
  set_role name role s = elim (find K name s) [
    | none ↦ (s, false)
    | some r ↦
        let (s1, done) = K.user_set_role s name role in
        let new = with_role (role_of role) r in
        let rewritten = db_rewrite_with K (some new) none s1 in
        if done == 0 then rewritten else (s1, true)
  ]

  unfoldable pub remove : Bytes → S → S × Bool
  remove name s =
      let (s1, done) = K.user_remove s name in
      let rewritten = db_rewrite_with K none (some name) s1 in
      if not (name_valid name) || streq name (codes "root")
      then (s, false)
      else if done == 0
      then rewritten
      else (s1, true)

  -- The records of the kernel's users from `i` on; one that it does not give is passed over.
  unfoldable pub users_from : ℕ → ℕ → S → List Account
  users_from i zero s = []
  users_from i (suc n) s =
      let rest = users_from (i + 1) n s in
      elim (K.user_at s i) [ some info ↦ account_from info ∷ rest | none ↦ rest ]

  -- The records that are emitted, in order.
  unfoldable pub list : S → List Account
  unfolding users_from accounts_in
  list s =
      let count = K.user_count s in
      let of_kernel = users_from 0 count s in
      let of_db : List Account = elim (db_load K s) [
        | some db ↦ accounts_in (split_lines db)
        | none ↦ []
      ] in
      if not (count == 2 ^ 64 - 1) && ltb 0 count then of_kernel else of_db

  unfoldable pub session_read : S → Option Account
  session_read s =
      K.user_current s >>= λ info. if info.logged_in == 0 then none else some (account_from info)

  pub session_clear : S → S
  session_clear s = K.remove_file (K.user_logout s) (codes "/temp/.cleonos_user_session")

  pub current_is_admin : S → Bool
  current_is_admin s = not (K.user_is_admin s == 0)
