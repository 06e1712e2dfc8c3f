-- ===== src/Tests/Paths.antt =====
-- Path resolution at "../etc//./passwd" in /home/root.
use xiaobai_os.Base.{◌≡◌, ◌<◌, refl, arith, some, none, [], Bytes, codes, length}
use xiaobai_os.Runtime.Resolve.{
  push_component, back_to_slash, pop_component, is_dot, is_dot_dot, enter, parse_from, parse_into,
  resolve_arg, resolve_path,
}
use xiaobai_os.Runtime.Resolve.Stack.{render}
use xiaobai_os.Runtime.Resolve.Walk.{Stack, walk, draw, target, resolve_path-walk}
use xiaobai_os.Runtime.Resolve.Canonical.{IsCanonical, resolve_path-IsCanonical, resolve_path_idem}

abbrev cwd : Bytes
cwd = codes "/home/root"

abbrev arg : Bytes
arg = codes "../etc//./passwd"

abbrev resolved : Bytes
resolved = codes "/home/etc/passwd"

resolve_path_runs : resolve_path cwd (some arg) 192 ≡ some resolved
unfolding resolve_path push_component pop_component back_to_slash is_dot is_dot_dot enter parse_from
    parse_into resolve_arg
resolve_path_runs = refl

resolve_path_above_root : resolve_path [] (some (codes "/../../bin")) 192 ≡ some (codes "/bin")
unfolding resolve_path push_component pop_component back_to_slash is_dot is_dot_dot enter parse_from
    parse_into resolve_arg
resolve_path_above_root = refl

resolve_path_no_room : resolve_path cwd (some arg) 8 ≡ none
unfolding resolve_path push_component pop_component back_to_slash is_dot is_dot_dot enter parse_from
    parse_into resolve_arg
resolve_path_no_room = refl

resolve_path-walk_example :
    resolve_path cwd (some arg) 192 ≡ draw (walk 192 (target cwd (some arg)) [])
resolve_path-walk_example = resolve_path-walk cwd (some arg) 192 (omega arith)

resolve_path-IsCanonical_example :
    (st : Stack) × (resolved ≡ render st) × IsCanonical 192 st × (length resolved < 192)
resolve_path-IsCanonical_example =
    resolve_path-IsCanonical cwd (some arg) 192 (omega arith) resolve_path_runs

resolve_path_idem_example : resolve_path (codes "/shell") (some resolved) 192 ≡ some resolved
resolve_path_idem_example =
    resolve_path_idem cwd (codes "/shell") (some arg) 192 (omega arith) resolve_path_runs
