-- ===== src/Editor/Keys.antt =====
-- The keys of xiaobaios/apps/vim_main.c: what a character of the terminal stands for, and what a key does
-- in the insert and the normal mode.
use xiaobai_os.Base.{
  ℕ, zero, suc, ◌+◌, ◌-◌, Bool, true, false, ◌||◌, ◌&&◌, ◌==◌, ltb, leb, if◌then◌else◌, [], Bytes,
  codes, length,
}
use xiaobai_os.Editor.Key
use xiaobai_os.Editor.State.{
  normal, insert, command, Editor, set_status, line_at, keep_cursor_valid, move_left, move_right,
  move_up, move_down,
}
use xiaobai_os.Editor.Edits.{
  insert_char, split_line, backspace, delete_char, delete_line, open_below_insert,
}

-- A character that was read.
unfoldable pub key_of : ℕ → ℕ
key_of ch =
    if ch == 13
    then Key.enter
    else if ch == Key.backspace || ch == Key.del
    then Key.backspace
    else if ch == 1
    then Key.left
    else if ch == 2
    then Key.right
    else if ch == 3
    then Key.up
    else if ch == 4
    then Key.down
    else if ch == 5
    then Key.home
    else if ch == 6
    then Key.end
    else if ch == 7
    then Key.del
    else ch

abbrev pub printable : ℕ → Bool
printable key = leb 32 key && leb key 126

abbrev pub to_line_end : Editor → Editor
to_line_end ed = record ed { cursor_col = length (line_at ed ed.cursor_line) }

-- A tab stands for four spaces.
unfoldable pub insert_spaces : ℕ → Editor → Editor
unfolding insert_char
insert_spaces zero ed = ed
insert_spaces (suc n) ed = insert_spaces n (insert_char 32 ed).0

-- The rest of the insert mode, behind the escape and a pending `j`.
unfoldable pub insert_key : ℕ → Editor → Editor
unfolding move_left move_right move_up move_down split_line backspace insert_char insert_spaces
insert_key key ed =
    if key == b'j'
    then record ed { pending_jj = true }
    else if key == Key.left
    then move_left ed
    else if key == Key.right
    then move_right ed
    else if key == Key.up
    then move_up ed
    else if key == Key.down
    then move_down ed
    else if key == Key.home
    then record ed { cursor_col = 0 }
    else if key == Key.end
    then to_line_end ed
    else if key == Key.enter || key == 10
    then (split_line ed).0
    else if key == Key.backspace || key == Key.del
    then (backspace ed).0
    else if key == 9
    then insert_spaces 4 ed
    else if printable key
    then (insert_char key ed).0
    else ed

abbrev pub leave_insert : Bytes → Editor → Editor
leave_insert text ed =
    set_status
      (record ed { mode = normal; pending_dd = false; pending_gg = false; pending_jj = false }) text

unfoldable pub handle_insert_mode : ℕ → Editor → Editor
unfolding insert_char insert_key
handle_insert_mode key ed =
    let flushed = record (insert_char b'j' ed).0 { pending_jj = false } in
    if key == Key.esc
    then leave_insert (codes "-- NORMAL --") ed
    else if ed.pending_jj
    then (if key == b'j'
        then leave_insert (codes "-- NORMAL -- (jj)") ed
        else insert_key key flushed)
    else insert_key key ed

-- The cursor moves behind its character.
abbrev pub append_key : Editor → Editor
append_key ed =
    let moved =
      if ltb ed.cursor_col (length (line_at ed ed.cursor_line))
      then ed.cursor_col + 1
      else ed.cursor_col in
    set_status (record ed { cursor_col = moved; mode = insert; pending_jj = false })
      (codes "-- INSERT --")

-- A key in the normal mode when none is pending.
unfoldable pub normal_key : ℕ → Editor → Editor
unfolding move_left move_right move_up move_down keep_cursor_valid open_below_insert delete_char
normal_key key ed =
    if key == Key.left || key == b'h'
    then move_left ed
    else if key == Key.right || key == b'l'
    then move_right ed
    else if key == Key.up || key == b'k'
    then move_up ed
    else if key == Key.down || key == b'j'
    then move_down ed
    else if key == Key.home || key == b'0'
    then record ed { cursor_col = 0 }
    else if key == Key.end || key == b'$'
    then to_line_end ed
    else if key == b'G'
    then keep_cursor_valid (record ed { cursor_line = length ed.lines - 1 })
    else if key == b'g'
    then record ed { pending_gg = true }
    else if key == b'i'
    then set_status (record ed { mode = insert; pending_jj = false }) (codes "-- INSERT --")
    else if key == b'a'
    then append_key ed
    else if key == b'o'
    then set_status (record (open_below_insert ed).0 { pending_jj = false }) (codes "-- INSERT --")
    else if key == b'x'
    then (delete_char ed).0
    else if key == b'd'
    then record ed { pending_dd = true }
    else if key == b':'
    then record ed { mode = command; command = [] }
    else ed

unfoldable pub handle_normal_mode : ℕ → Editor → Editor
unfolding delete_line normal_key
handle_normal_mode key ed =
    let deleted = set_status (delete_line ed).0 (codes "line deleted") in
    if ed.pending_dd
    then (if key == b'd'
        then record deleted { pending_dd = false }
        else record ed { pending_dd = false })
    else if ed.pending_gg
    then (if key == b'g'
        then record ed { cursor_line = 0; cursor_col = 0; pending_gg = false }
        else record ed { pending_gg = false })
    else normal_key key ed
