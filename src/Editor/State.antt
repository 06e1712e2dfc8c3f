-- ===== src/Editor/State.antt =====
-- The editor of xiaobaios/apps/vim_main.c and its cursor. The lines are the first `line_count` of the array,
-- each the bytes before its `len`; behind them the array is zero. Reading a line that is not there gives an
-- empty one.
use xiaobai_os.Base.{
  ℕ, ◌+◌, ◌-◌, Bool, false, ◌==◌, ltb, leb, if◌then◌else◌, List, [], ◌∷◌, Bytes, codes, length,
  get_or,
}
use xiaobai_os.Runtime.Words.{copy}

abbrev pub max_lines : ℕ
max_lines = 2048

abbrev pub max_line_len : ℕ
max_line_len = 512

abbrev pub cmd_max : ℕ
cmd_max = 128

abbrev pub view_rows : ℕ
view_rows = 20

pub data Mode : Type 0 where
  normal insert command : Mode

pub record Editor : Type 0 where
  pub lines : List Bytes
  pub cursor_line : ℕ
  pub cursor_col : ℕ
  pub scroll_top : ℕ
  pub mode : Mode
  pub modified : Bool
  pub quit_requested : Bool
  pub pending_dd : Bool
  pub pending_gg : Bool
  pub pending_jj : Bool
  pub file_path : Bytes
  pub status : Bytes
  pub command : Bytes

abbrev pub set_status : Editor → Bytes → Editor
set_status ed text = record ed { status = copy ed.status 160 text }

abbrev pub reset_buffer : Editor → Editor
reset_buffer ed = record ed { lines = [] ∷ []; cursor_line = 0; cursor_col = 0; scroll_top = 0 }

abbrev pub init : Editor
init = record {
  lines = [] ∷ [];
  cursor_line = 0;
  cursor_col = 0;
  scroll_top = 0;
  mode = normal;
  modified = false;
  quit_requested = false;
  pending_dd = false;
  pending_gg = false;
  pending_jj = false;
  file_path = [];
  status = codes "Ready. Press i to insert (jj => NORMAL), :w to save, :q to quit.";
  command = [];
}

-- `ed->lines[i]`.
abbrev pub line_at : Editor → ℕ → Bytes
line_at ed i = get_or ed.lines i []

-- The column inside a line.
abbrev pub clip : ℕ → Bytes → ℕ
clip col line = if ltb (length line) col then length line else col

unfoldable pub keep_cursor_valid : Editor → Editor
keep_cursor_valid ed =
    let row =
      if leb (length ed.lines) ed.cursor_line then length ed.lines - 1 else ed.cursor_line in
    if length ed.lines == 0
    then ed
    else record ed { cursor_line = row; cursor_col = clip ed.cursor_col (line_at ed row) }

unfoldable pub ensure_cursor_visible : Editor → Editor
ensure_cursor_visible ed =
    if ltb ed.cursor_line ed.scroll_top
    then record ed { scroll_top = ed.cursor_line }
    else if leb (ed.scroll_top + view_rows) ed.cursor_line
    then record ed { scroll_top = ed.cursor_line - view_rows + 1 }
    else ed

unfoldable pub move_left : Editor → Editor
move_left ed =
    if ltb 0 ed.cursor_col
    then record ed { cursor_col = ed.cursor_col - 1 }
    else if ltb 0 ed.cursor_line
    then record ed {
      cursor_line = ed.cursor_line - 1;
      cursor_col = length (line_at ed (ed.cursor_line - 1));
    }
    else ed

unfoldable pub move_right : Editor → Editor
move_right ed =
    if ltb ed.cursor_col (length (line_at ed ed.cursor_line))
    then record ed { cursor_col = ed.cursor_col + 1 }
    else if ltb (ed.cursor_line + 1) (length ed.lines)
    then record ed { cursor_line = ed.cursor_line + 1; cursor_col = 0 }
    else ed

unfoldable pub move_up : Editor → Editor
unfolding keep_cursor_valid
move_up ed =
    keep_cursor_valid
      (if ltb 0 ed.cursor_line then record ed { cursor_line = ed.cursor_line - 1 } else ed)

unfoldable pub move_down : Editor → Editor
unfolding keep_cursor_valid
move_down ed = keep_cursor_valid (
    if ltb (ed.cursor_line + 1) (length ed.lines)
    then record ed { cursor_line = ed.cursor_line + 1 }
    else ed)
