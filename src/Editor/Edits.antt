-- ===== src/Editor/Edits.antt =====
-- The edits of xiaobaios/apps/vim_main.c. Each gives the editor after and what the function returns.
use xiaobai_os.Base.{
  ℕ, zero, suc, ◌+◌, ◌-◌, Bool, true, false, ◌||◌, ◌==◌, ltb, leb, if◌then◌else◌, List, [], ◌∷◌,
  ◌++◌, Bytes, codes, length, set, take, drop,
}
use xiaobai_os.Editor.State.{
  max_lines, max_line_len, insert, Editor, set_status, line_at, keep_cursor_valid,
}

-- The lines with one more before line `i`: the loop that moves the others down.
unfoldable pub insert_at : ℕ → Bytes → List Bytes → List Bytes
insert_at zero line lines = line ∷ lines
insert_at (suc i) line [] = line ∷ []
insert_at (suc i) line (l ∷ lines) = l ∷ insert_at i line lines

-- The loop that moves the lines behind line `i` up.
unfoldable pub remove_at : ℕ → List Bytes → List Bytes
remove_at i [] = []
remove_at zero (l ∷ lines) = lines
remove_at (suc i) (l ∷ lines) = l ∷ remove_at i lines

unfoldable pub insert_line_after : ℕ → Editor → Editor × Bool
unfolding insert_at
insert_line_after line_index ed =
    if leb (length ed.lines) line_index
    then (ed, false)
    else if leb max_lines (length ed.lines)
    then (set_status ed (codes "line limit reached"), false)
    else (record ed { lines = insert_at (line_index + 1) [] ed.lines }, true)

unfoldable pub insert_char : ℕ → Editor → Editor × Bool
insert_char ch ed =
    let line = line_at ed ed.cursor_line in
    if ltb ch 0x20 || (ch == 10 || ch == 13)
    then (ed, false)
    else if leb max_line_len (length line + 1)
    then (set_status ed (codes "line too long"), false)
    else (
      record ed {
        lines =
            set ed.lines ed.cursor_line (take ed.cursor_col line ++ (ch ∷ drop ed.cursor_col line));
        cursor_col = ed.cursor_col + 1;
        modified = true;
      },
      true,
    )

-- The rest of the split, when there is a new line behind the cursor's.
unfoldable pub move_tail : Editor → Editor
move_tail ed =
    let line = line_at ed ed.cursor_line in
    let lines =
      if ltb ed.cursor_col (length line)
      then set (set ed.lines (ed.cursor_line + 1) (drop ed.cursor_col line)) ed.cursor_line
          (take ed.cursor_col line)
      else ed.lines in
    record ed { lines = lines; cursor_line = ed.cursor_line + 1; cursor_col = 0; modified = true }

unfoldable pub split_line : Editor → Editor × Bool
unfolding insert_line_after move_tail
split_line ed =
    let (opened, ok) = insert_line_after ed.cursor_line ed in
    if ok then (move_tail opened, true) else (opened, false)

-- The character before the cursor goes.
unfoldable pub delete_before : Editor → Editor
delete_before ed =
    let line = line_at ed ed.cursor_line in
    record ed {
      lines =
          set ed.lines ed.cursor_line (take (ed.cursor_col - 1) line ++ drop ed.cursor_col line);
      cursor_col = ed.cursor_col - 1;
      modified = true;
    }

-- The cursor's line goes to the end of the one before.
unfoldable pub merge_up : Editor → Editor × Bool
unfolding remove_at
merge_up ed =
    let line = line_at ed ed.cursor_line in
    let prev = line_at ed (ed.cursor_line - 1) in
    if leb max_line_len (length prev + length line)
    then (set_status ed (codes "merge would exceed line length"), false)
    else (
      record ed {
        lines = remove_at ed.cursor_line (set ed.lines (ed.cursor_line - 1) (prev ++ line));
        cursor_line = ed.cursor_line - 1;
        cursor_col = length prev;
        modified = true;
      },
      true,
    )

unfoldable pub backspace : Editor → Editor × Bool
unfolding delete_before merge_up
backspace ed =
    if ltb 0 ed.cursor_col
    then (delete_before ed, true)
    else if ed.cursor_line == 0
    then (ed, false)
    else merge_up ed

unfoldable pub delete_char : Editor → Editor × Bool
delete_char ed =
    let line = line_at ed ed.cursor_line in
    if leb (length line) ed.cursor_col then (ed, false) else (
      record ed {
        lines =
            set ed.lines ed.cursor_line (take ed.cursor_col line ++ drop (ed.cursor_col + 1) line);
        modified = true;
      },
      true,
    )

unfoldable pub delete_line : Editor → Editor × Bool
unfolding remove_at keep_cursor_valid
delete_line ed =
    let lines = remove_at ed.cursor_line ed.lines in
    let row = if leb (length lines) ed.cursor_line then length lines - 1 else ed.cursor_line in
    if length ed.lines == 0
    then (ed, false)
    else if length ed.lines == 1
    then (record ed { lines = [] ∷ []; cursor_line = 0; cursor_col = 0; modified = true }, true)
    else (keep_cursor_valid (record ed { lines = lines; cursor_line = row; modified = true }), true)

unfoldable pub open_below_insert : Editor → Editor × Bool
unfolding insert_line_after
open_below_insert ed =
    let (opened, ok) = insert_line_after ed.cursor_line ed in
    if ok
    then (
      record opened {
        cursor_line = opened.cursor_line + 1;
        cursor_col = 0;
        mode = insert;
        modified = true;
      },
      true,
    )
    else (opened, false)
