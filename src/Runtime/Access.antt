-- ===== src/Runtime/Access.antt =====
-- Which paths a user may change, and where commands are found: xiaobaios/apps/cmd_runtime.c. A C string
-- is the list of its characters without the NUL.
pub mod Confined
pub mod Exec
use xiaobai_os.Base.{
  ℕ, zero, suc, ◌+◌, ◌-◌, Bool, true, false, not, ◌&&◌, ◌||◌, ◌==◌, ltb, leb, if◌then◌else◌, Option,
  none, some, ◌>>=◌, [], ◌∷◌, ◌++◌, Bytes, codes, length, drop,
}
use xiaobai_os.Runtime.Resolve.{slash, resolve_path}
use xiaobai_os.Runtime.Words.{streq, has_suffix, contains_char, copy}

-- `strncmp(path, prefix, strlen(prefix)) == 0`.
unfoldable pub starts_with : Bytes → Bytes → Bool
starts_with path [] = true
starts_with [] (d ∷ prefix) = false
starts_with (c ∷ path) (d ∷ prefix) = c == d && starts_with path prefix

-- Whether the character behind the prefix is the NUL or a slash.
unfoldable pub at_boundary : Bytes → Bool
at_boundary [] = true
at_boundary (c ∷ path) = c == slash

-- The common body of the tests for a directory.
unfoldable pub path_is_under : Bytes → Bytes → Bool
path_is_under dir path =
    if not (starts_with path dir) then false else at_boundary (drop (length dir) path)

pub path_is_under_system : Bytes → Bool
path_is_under_system path = path_is_under (codes "/system") path

unfoldable pub path_is_under_temp : Bytes → Bool
path_is_under_temp path = path_is_under (codes "/temp") path

unfoldable pub path_is_under_home : Bytes → Bool
path_is_under_home path = path_is_under (codes "/home") path

-- The user's name is shorter than its field of 32 bytes, so the prefix fits its buffer.
unfoldable pub path_is_under_current_home : ℕ → Bytes → Bytes → Bool
path_is_under_current_home uid user_name path =
    if length user_name == 0
    then false
    else if uid == 0 && streq user_name (codes "root")
    then path_is_under_home path
    else path_is_under (codes "/home/" ++ user_name) path

unfoldable pub can_modify_path : ℕ → Bytes → Bytes → Bool
can_modify_path uid user_name path =
    if uid == 0
    then true
    else if path_is_under_temp path
    then true
    else path_is_under_current_home uid user_name path

-- The loops that append characters at the cursor and give up at the end of the buffer.
unfoldable pub append_chars : ℕ → Bytes → Bytes → Option Bytes
append_chars size path [] = some path
append_chars size path (c ∷ text) =
    let rest = append_chars size (path ++ (c ∷ [])) text in
    if leb size (length path + 1) then none else rest

-- The path before its suffix; `arg` begins with `c`.
unfoldable pub exec_base : Bytes → ℕ → Bytes → ℕ → Option Bytes
exec_base cwd c arg size =
    if c == slash
    then some (copy [] size (c ∷ arg))
    else if contains_char (c ∷ arg) slash
    then resolve_path cwd (some (c ∷ arg)) size
    else if leb size (7 + 1)
    then none
    else append_chars size (codes "/shell/") (c ∷ arg)

unfoldable pub add_suffix : ℕ → Bytes → Option Bytes
add_suffix size path =
    if has_suffix path (codes ".elf") then some path else append_chars size path (codes ".elf")

unfoldable pub resolve_exec_path : Bytes → Bytes → ℕ → Option Bytes
resolve_exec_path cwd [] size = none
resolve_exec_path cwd (c ∷ arg) size =
    if size == 0 then none else (exec_base cwd c arg size >>= λ path. add_suffix size path)
