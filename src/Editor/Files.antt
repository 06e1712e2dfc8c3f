-- ===== src/Editor/Files.antt =====
-- Loading and saving in xiaobaios/apps/vim_main.c. The calls of the kernel on files are a parameter, on a
-- state of their own; what reading a file gives is the list of its chunks, and whether a read failed at
-- last.
pub mod Saving
pub mod Loading
use xiaobai_os.Base.{
  ℕ, zero, suc, ◌+◌, ◌-◌, ◌^◌, Bool, true, false, ◌||◌, ◌==◌, ltb, if◌then◌else◌, Option, none,
  some, List, [], ◌∷◌, ◌++◌, Bytes, codes, length, get_or, set, drop,
}
use xiaobai_os.Runtime.Words.{copy}
use xiaobai_os.Editor.State.{max_lines, max_line_len, Editor, set_status, reset_buffer}

-- The calls that saving a file makes: `none` is a file that cannot be opened, and a write returns how many
-- bytes it took, or 0 or -1.
pub record Files (W : Type 0) : Type 0 where
  pub open_write : W → Bytes → W × Option ℕ
  pub fd_write : W → ℕ → Bytes → W × ℕ
  pub close : W → ℕ → W
  -- What snprintf prints for `%llu`.
  pub decimal : ℕ → Bytes

-- The lines read so far, of which the last is at `line_index`, and `truncated`.
unfoldable pub load_char : List Bytes × Bool → ℕ → List Bytes × Bool
load_char (lines, truncated) ch =
    let line = get_or lines (length lines - 1) [] in
    if ch == 13
    then (lines, truncated)
    else if ch == 10
    then (if ltb (length lines) max_lines then (lines ++ ([] ∷ []), truncated) else (lines, true))
    else if ltb (length line + 1) max_line_len
    then (set lines (length lines - 1) (line ++ (ch ∷ [])), truncated)
    else (lines, true)

unfoldable pub load_chars : List Bytes × Bool → Bytes → List Bytes × Bool
unfolding load_char
load_chars buffer [] = buffer
load_chars buffer (ch ∷ buf) = load_chars (load_char buffer ch) buf

unfoldable pub load_chunks : List Bytes × Bool → List Bytes → List Bytes × Bool
unfolding load_chars
load_chunks buffer [] = buffer
load_chunks buffer (buf ∷ more) = load_chunks (load_chars buffer buf) more

-- `none` is a file that cannot be opened. Where a read fails, the count of the lines is still 1.
unfoldable pub load_file : Bytes → Option (List Bytes × Bool) → Editor → Editor × Bool
unfolding load_chunks
load_file path none ed = if length path == 0 then (ed, false) else (
  set_status (record ed { file_path = copy ed.file_path 192 path }) (codes "new file"),
  true,
)
load_file path (some (chunks, failed)) ed =
    let (lines, truncated) = load_chunks ([] ∷ [], false) chunks in
    let text = if truncated then codes "file loaded with truncation" else codes "file loaded" in
    let opened = reset_buffer ed in
    let loaded = record opened {
      lines = lines;
      modified = false;
      file_path = copy ed.file_path 192 path;
    } in
    if length path == 0
    then (ed, false)
    else if failed
    then (
      set_status (record opened { lines = get_or lines 0 [] ∷ [] }) (codes "read failed"),
      false,
    )
    else (set_status loaded text, true)

module _ {W : Type 0} (F : Files W) where
  -- A round takes a byte at least, so that the length of the text and one more are fuel enough.
  unfoldable pub write_from : ℕ → ℕ → Bytes → W → W × Bool
  write_from zero fd text w = (w, false)
  write_from (suc f) fd [] w = (w, true)
  write_from (suc f) fd (c ∷ text) w =
      let (w', wrote) = F.fd_write w fd (c ∷ text) in
      let rest = write_from f fd (drop wrote (c ∷ text)) w' in
      if wrote == 2 ^ 64 - 1 || wrote == 0 then (w', false) else rest

  unfoldable pub fd_write_all : ℕ → Bytes → W → W × Bool
  unfolding write_from
  fd_write_all fd text w = write_from (length text + 1) fd text w

  abbrev pub newline_between : List Bytes → Bytes
  newline_between [] = []
  newline_between (l ∷ lines) = 10 ∷ []

  -- A line, and the newline where another line follows.
  unfoldable pub write_line : ℕ → Bytes → List Bytes → W → W × Bool
  unfolding fd_write_all
  write_line fd line more w =
      let (w1, done) = fd_write_all fd line w in
      let rest = fd_write_all fd (newline_between more) w1 in if done then rest else (w1, false)

  -- The loop over the lines, with `bytes`.
  unfoldable pub write_lines : ℕ → List Bytes → ℕ → W → W × Option ℕ
  unfolding write_line
  write_lines fd [] bytes w = (w, some bytes)
  write_lines fd (line ∷ more) bytes w =
      let (w1, done) = write_line fd line more w in
      let rest = write_lines fd more (bytes + length line + length (newline_between more)) w1 in
      if done then rest else (w1, none)

  -- What is left to do when the lines are written, or one was not.
  unfoldable pub close_file : Editor → Bytes → ℕ → W × Option ℕ → (Editor × W) × Bool
  close_file ed path fd (w, none) =
      ((set_status ed (codes "write failed: io error"), F.close w fd), false)
  close_file ed path fd (w, some bytes) =
      let kept = record ed { file_path = copy ed.file_path 192 path; modified = false } in
      ((set_status kept (codes "written bytes=" ++ F.decimal bytes), F.close w fd), true)

  unfoldable pub write_file : Editor → Bytes → W × Option ℕ → (Editor × W) × Bool
  unfolding write_lines close_file
  write_file ed path (w, none) =
      ((set_status ed (codes "write failed: cannot open target"), w), false)
  write_file ed path (w, some fd) = close_file ed path fd (write_lines fd ed.lines 0 w)

  -- The editor and the files after, and what the function returns.
  unfoldable pub save_file : Bytes → Editor → W → (Editor × W) × Bool
  unfolding write_file
  save_file path ed w =
      if length path == 0 then ((ed, w), false) else write_file ed path (F.open_write w path)
