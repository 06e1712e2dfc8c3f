-- ===== src/User/Kernel.antt =====
-- The calls of the kernel that xiaobaios/apps/user/cleonos_user.c makes. The kernel is not part of the
-- repository: its state is a type, a call that changes it returns the state after, and the number is what
-- the call returns.
use xiaobai_os.Base.{ℕ, ◌-◌, ◌^◌, ◌≡◌, ◌≢◌, Option, none, some, ◌++◌, Bytes, codes, length}

-- `cleonos_user_info`.
pub record UserInfo : Type 0 where
  pub uid : ℕ
  pub role : ℕ
  pub logged_in : ℕ
  pub disk_login_required : ℕ
  pub name : Bytes
  pub home : Bytes

pub record Kernel (S : Type 0) : Type 0 where
  pub disk_mounted : S → ℕ
  pub disk_mount_path : S → Option Bytes
  pub stat_type : S → Bytes → ℕ
  pub stat_size : S → Bytes → ℕ
  pub read : S → Bytes → ℕ → Bytes
  pub write : S → Bytes → Bytes → S × ℕ
  pub append_file : S → Bytes → Bytes → S × ℕ
  pub remove_file : S → Bytes → S
  pub mkdir : S → Bytes → S × ℕ
  pub user_add : S → Bytes → Bytes → ℕ → S × ℕ
  pub user_set_role : S → Bytes → ℕ → S × ℕ
  pub user_remove : S → Bytes → S × ℕ
  pub user_count : S → ℕ
  pub user_at : S → ℕ → Option UserInfo
  pub user_current : S → Option UserInfo
  pub user_logout : S → S
  pub user_is_admin : S → ℕ

abbrev pub db_path : Bytes
db_path = codes "/system/users.db"

-- What the calls promise about the text of one file, which `file` finds in the state: a file that is
-- written is there with its text, and the other calls leave it.
pub record Keeps {S : Type 0} (K : Kernel S) (file : S → Option Bytes) : Type 0 where
  pub no_size : (s : S) → file s ≡ none → K.stat_size s db_path ≡ 2 ^ 64 - 1
  pub size : (s : S) (t : Bytes) → file s ≡ some t → K.stat_size s db_path ≡ length t
  pub reads : (s : S) (t : Bytes) → file s ≡ some t → K.read s db_path (length t) ≡ t
  pub written :
      (s : S) (t : Bytes) → (K.write s db_path t).1 ≢ 0 → file (K.write s db_path t).0 ≡ some t
  pub appended :
      (s : S) (t u : Bytes)
      → file s ≡ some t
      → (K.append_file s db_path u).1 ≢ 0
      → file (K.append_file s db_path u).0 ≡ some (t ++ u)
  pub made : (s : S) (path : Bytes) → file (K.mkdir s path).0 ≡ file s
  pub added :
      (s : S) (name password : Bytes) (role : ℕ) → file (K.user_add s name password role).0 ≡ file s
  pub raised : (s : S) (name : Bytes) (role : ℕ) → file (K.user_set_role s name role).0 ≡ file s
  pub removed : (s : S) (name : Bytes) → file (K.user_remove s name).0 ≡ file s
