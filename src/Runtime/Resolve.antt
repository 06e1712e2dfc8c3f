-- ===== src/Runtime/Resolve.antt =====
-- Path resolution in xiaobaios/apps/cmd_runtime.c. A C string is the list of its characters without
-- the NUL. The path that is built is the start of its buffer up to `*io_len`, so that length is the
-- list's; a failure, the return value 0, is `none`.
pub mod Stack
pub mod Pieces
pub mod Walk
pub mod Canonical
use xiaobai_os.Base.{
  ℕ, zero, suc, ◌+◌, ◌-◌, Bool, true, false, not, ◌&&◌, ◌||◌, ◌==◌, ltb, leb, if◌then◌else◌, Option,
  none, some, ◌>>=◌, List, [], ◌∷◌, ◌++◌, Bytes, length, get_or, take,
}

abbrev pub slash : ℕ
slash = b'/'

unfoldable pub push_component : ℕ → Bytes → Bytes → Option Bytes
push_component size path component =
    if length component == 0
    then none
    else if length path == 1
    then if leb size (length path + length component) then none else some (take 1 path ++ component)
    else if leb size (length path + 1 + length component)
    then none
    else some (path ++ (slash ∷ component))

-- The loop of ush_path_pop_component over `*io_len`.
unfoldable pub back_to_slash : ℕ → Bytes → ℕ
back_to_slash zero path = 0
back_to_slash (suc n) path =
    if ltb 1 (suc n) && not (get_or path n 0 == slash) then back_to_slash n path else suc n

unfoldable pub pop_component : Bytes → Bytes
pop_component path =
    if leb (length path) 1
    then slash ∷ []
    else (let n = back_to_slash (length path) path in take (if ltb 1 n then n - 1 else n) path)

unfoldable pub is_dot : Bytes → Bool
is_dot (c ∷ []) = c == b'.'
is_dot _ = false

unfoldable pub is_dot_dot : Bytes → Bool
is_dot_dot (c ∷ (d ∷ [])) = c == b'.' && d == b'.'
is_dot_dot _ = false

-- What one round of the loop does with the component that it has found.
unfoldable pub enter : ℕ → Bytes → Bytes → Option Bytes
enter size component path =
    if is_dot component
    then some path
    else if is_dot_dot component
    then some (pop_component path)
    else push_component size path component

-- The loop over the source: between components, or behind the characters of one.
unfoldable pub parse_from : ℕ → Bytes → Option Bytes → Bytes → Option Bytes
parse_from size [] none path = some path
parse_from size [] (some component) path = enter size component path
parse_from size (c ∷ src) none path =
    parse_from size src (if c == slash then none else some (c ∷ [])) path
parse_from size (c ∷ src) (some component) path = elim (c == slash) [
  | true ↦ enter size component path >>= λ path'. parse_from size src none path'
  | false ↦ parse_from size src (some (component ++ (c ∷ []))) path
]

-- A leading slash is skipped by `i = 1`.
unfoldable pub parse_into : ℕ → Bytes → Bytes → Option Bytes
parse_into size [] path = parse_from size [] none path
parse_into size (c ∷ src) path =
    if c == slash then parse_from size src none path else parse_from size (c ∷ src) none path

unfoldable pub resolve_arg : ℕ → Bytes → Bytes → Option Bytes
resolve_arg size cwd [] = parse_into size cwd (slash ∷ [])
resolve_arg size cwd (c ∷ arg) =
    if c == slash
    then parse_into size (c ∷ arg) (slash ∷ [])
    else (parse_into size cwd (slash ∷ []) >>= λ path. parse_into size (c ∷ arg) path)

-- `arg` is `none` where it is null.
unfoldable pub resolve_path : Bytes → Option Bytes → ℕ → Option Bytes
unfolding resolve_arg
resolve_path cwd none size = if ltb size 2 then none else parse_into size cwd (slash ∷ [])
resolve_path cwd (some arg) size = if ltb size 2 then none else resolve_arg size cwd arg
