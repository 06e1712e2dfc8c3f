-- ===== src/Editor/Commands.antt =====
-- The command line and the loop of xiaobaios/apps/vim_main.c. `cwd` is the directory of the shell's state.
use xiaobai_os.Base.{
  ℕ, ◌+◌, ◌-◌, Bool, true, ◌||◌, ◌&&◌, ◌==◌, ltb, if◌then◌else◌, Option, none, some, ◌>>=◌, List,
  [], ◌∷◌, ◌++◌, Bytes, codes, length, take,
}
use xiaobai_os.Runtime.Resolve.{resolve_path}
use xiaobai_os.Runtime.Words.{streq, trim_line, split_first_and_rest}
use xiaobai_os.Editor.State.{
  cmd_max, Mode, normal, insert, command, Editor, init, set_status, keep_cursor_valid,
  ensure_cursor_visible,
}
use xiaobai_os.Editor.Key
use xiaobai_os.Editor.Keys.{printable, handle_insert_mode, handle_normal_mode}
use xiaobai_os.Editor.Files.{Files, load_file, save_file}

abbrev pub quit : Editor → Editor
quit ed = record ed { quit_requested = true }

unfoldable pub resolve_write_path : Bytes → Bytes → Option Bytes
resolve_write_path cwd raw = if length raw == 0 then none else resolve_path cwd (some raw) 192

-- The text behind the word `w`, where the command starts with it.
unfoldable pub write_argument : Bytes → Option Bytes
write_argument cmd = split_first_and_rest cmd 192 >>= λ (token, rest).
    if streq token (codes "w") then some rest else none

module _ {W : Type 0} (F : Files W) (cwd : Bytes) where
  unfoldable pub save_and_quit : Editor → W → Editor × W
  save_and_quit ed w =
      let ((saved, w'), ok) = save_file F ed.file_path ed w in
      if length ed.file_path == 0
      then (set_status ed (codes "No file name"), w)
      else if ok
      then (quit saved, w')
      else (saved, w')

  unfoldable pub write_command : Bytes → Editor → W → Editor × W
  write_command rest ed w =
      let to_file = (save_file F ed.file_path ed w).0 in
      let to_path = elim (resolve_write_path cwd rest) as (λ o. Editor × W) [
        | none ↦ (set_status ed (codes "invalid path"), w)
        | some path ↦ (save_file F path ed w).0
      ] in
      if length rest == 0
      then (if length ed.file_path == 0 then (set_status ed (codes "No file name"), w) else to_file)
      else to_path

  -- The editor and the files after; what the function returns is used nowhere.
  unfoldable pub run_command : Editor → W → Editor × W
  run_command editor w =
      let cmd = trim_line editor.command in
      let ed = record editor { command = cmd } in
      let writing = elim (write_argument cmd) as (λ o. Editor × W) [
        | some rest ↦ write_command rest ed w
        | none ↦
            if streq cmd (codes "help")
            then (set_status ed (codes "normal: h j k l i a o x dd gg G : | cmd: w q q! wq"), w)
            else (set_status ed (codes "unknown command"), w)
      ] in
      if length cmd == 0
      then (ed, w)
      else if streq cmd (codes "q")
      then (if ed.modified
          then (set_status ed (codes "No write since last change (add ! to override)"), w)
          else (quit ed, w))
      else if streq cmd (codes "q!")
      then (quit ed, w)
      else if streq cmd (codes "wq") || streq cmd (codes "x")
      then save_and_quit ed w
      else writing

  abbrev pub leave_command : Editor → Editor
  leave_command ed = record ed { mode = normal; command = [] }

  unfoldable pub handle_command_mode : ℕ → Editor → W → Editor × W
  handle_command_mode key ed w =
      let (ran, w') = run_command ed w in
      if key == Key.esc
      then (leave_command ed, w)
      else if key == Key.backspace || key == Key.del
      then (record ed { command = take (length ed.command - 1) ed.command }, w)
      else if key == Key.enter || key == 10
      then (leave_command ran, w')
      else if printable key && ltb (length ed.command + 1) cmd_max
      then (record ed { command = ed.command ++ (key ∷ []) }, w)
      else (ed, w)

  unfoldable pub key_in : Mode → ℕ → Editor → W → Editor × W
  key_in insert key ed w = (handle_insert_mode key ed, w)
  key_in command key ed w = handle_command_mode key ed w
  key_in normal key ed w = (handle_normal_mode key ed, w)

  unfoldable pub handle_key : ℕ → Editor → W → Editor × W
  handle_key key ed w = key_in ed.mode key ed w

  -- A round of the loop that does not end it: the key, and the cursor put right.
  unfoldable pub step : ℕ → Editor → W → Editor × W
  step key ed w =
      let (handled, w') = handle_key key ed w in
      if handled.quit_requested
      then (handled, w')
      else (ensure_cursor_visible (keep_cursor_valid handled), w')

-- What the loop starts from: `path` is empty where no file is named, and a file that cannot be read ends the
-- program.
unfoldable pub opening : Bytes → Option (List Bytes × Bool) → Option Editor
opening path file =
    let shown = λ (ed : Editor). ensure_cursor_visible (keep_cursor_valid ed) in
    let (loaded, ok) = load_file path file init in
    if length path == 0 then some (shown init) else if ok then some (shown loaded) else none
