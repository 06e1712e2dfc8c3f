-- ===== src/Editor/Valid/Loop.antt =====
-- Every key keeps the cursor in the text, and the loop shows it.
use xiaobai_os.Base.{
  ℕ, zero, suc, ◌-◌, arith, Bool, true, false, ◌||◌, ◌==◌, if◌then◌else◌, [], length,
}
use xiaobai_os.Editor.State.{Editor, command, init}
use xiaobai_os.Editor.Key
use xiaobai_os.Editor.Edits.{insert_char}
use xiaobai_os.Editor.Keys.{
  printable, to_line_end, insert_spaces, insert_key, handle_insert_mode, append_key, normal_key,
  handle_normal_mode,
}
use xiaobai_os.Editor.Valid.{IsValid}
use xiaobai_os.Editor.Valid.Moves.{
  keep_cursor_valid-IsValid, move_left-IsValid, move_right-IsValid, move_up-IsValid,
  move_down-IsValid,
}
use xiaobai_os.Editor.Valid.Changes.{
  insert_char-IsValid, split_line-IsValid, open_below_insert-IsValid,
}
use xiaobai_os.Editor.Valid.Removals.{backspace-IsValid, delete_char-IsValid, delete_line-IsValid}

-- The same as a record, so that a choice is compared as it is written.
record Sound (ed : Editor) : Type 0 where
  valid : IsValid ed

sound : {ed : Editor} → IsValid ed → Sound ed
sound h = record { valid = h }

-- A choice between valid editors.
either : (b : Bool) {x y : Editor} → Sound x → Sound y → Sound (if b then x else y)
either true h k = h
either false h k = k

start-IsValid : (ed : Editor) → IsValid ed → IsValid (record ed { cursor_col = 0 })
start-IsValid ed (f, c) =
    (record { few = f.few; short = f.short; on_line = f.on_line; in_line = omega arith }, c)

end-IsValid : (ed : Editor) → IsValid ed → IsValid (to_line_end ed)
end-IsValid ed (f, c) =
    (record { few = f.few; short = f.short; on_line = f.on_line; in_line = omega arith }, c)

insert_spaces-IsValid : (n : ℕ) (ed : Editor) → IsValid ed → IsValid (insert_spaces n ed)
unfolding insert_spaces
insert_spaces-IsValid zero ed h = h
insert_spaces-IsValid (suc n) ed h =
    insert_spaces-IsValid n (insert_char 32 ed).0 (insert_char-IsValid 32 ed h)

insert_key-Sound : (key : ℕ) (ed : Editor) → IsValid ed → Sound (insert_key key ed)
unfolding insert_key
insert_key-Sound key ed h = either (key == b'j') (sound h) (
    either (key == Key.left) (sound (move_left-IsValid ed h)) (
      either (key == Key.right) (sound (move_right-IsValid ed h)) (
        either (key == Key.up) (sound (move_up-IsValid ed h)) (
          either (key == Key.down) (sound (move_down-IsValid ed h)) (
            either (key == Key.home) (sound (start-IsValid ed h)) (
              either (key == Key.end) (sound (end-IsValid ed h)) (
                either (key == Key.enter || key == 10) (sound (split_line-IsValid ed h)) (
                  either (key == Key.backspace || key == Key.del) (sound (backspace-IsValid ed h)) (
                    either (key == 9) (sound (insert_spaces-IsValid 4 ed h)) (
                      either (printable key) (sound (insert_char-IsValid key ed h))
                        (sound h)))))))))))

pub handle_insert_mode-IsValid :
    (key : ℕ) (ed : Editor) → IsValid ed → IsValid (handle_insert_mode key ed)
unfolding handle_insert_mode
handle_insert_mode-IsValid key ed h =
    let flushed = record (insert_char b'j' ed).0 { pending_jj = false } in
    let all : Sound (handle_insert_mode key ed) = either (key == Key.esc) (sound h) (
      either ed.pending_jj
        (either (key == b'j') (sound h)
          (insert_key-Sound key flushed (insert_char-IsValid b'j' ed h)))
        (insert_key-Sound key ed h)) in
    all.valid

append_key-IsValid : (ed : Editor) → IsValid ed → IsValid (append_key ed)
append_key-IsValid ed (f, c) = (
  record { few = f.few; short = f.short; on_line = f.on_line; in_line = ground (arith, f.in_line) },
  c,
)

normal_key-Sound : (key : ℕ) (ed : Editor) → IsValid ed → Sound (normal_key key ed)
unfolding normal_key
normal_key-Sound key ed h =
    let colon : IsValid (record ed { mode = command; command = [] }) = (h.0, omega arith) in
    either (key == Key.left || key == b'h') (sound (move_left-IsValid ed h)) (
      either (key == Key.right || key == b'l') (sound (move_right-IsValid ed h)) (
        either (key == Key.up || key == b'k') (sound (move_up-IsValid ed h)) (
          either (key == Key.down || key == b'j') (sound (move_down-IsValid ed h)) (
            either (key == Key.home || key == b'0') (sound (start-IsValid ed h)) (
              either (key == Key.end || key == b'$') (sound (end-IsValid ed h)) (
                either (key == b'G')
                  (sound (keep_cursor_valid-IsValid ed h (length ed.lines - 1) ed.cursor_col))
                  (either (key == b'g') (sound h) (
                    either (key == b'i') (sound h) (
                      either (key == b'a') (sound (append_key-IsValid ed h)) (
                        either (key == b'o') (sound (open_below_insert-IsValid ed h)) (
                          either (key == b'x') (sound (delete_char-IsValid ed h)) (
                            either (key == b'd') (sound h)
                              (either (key == b':') (sound colon) (sound h))))))))))))))

top-IsValid :
    (ed : Editor)
    → IsValid ed
    → IsValid (record ed { cursor_line = 0; cursor_col = 0; pending_gg = false })
top-IsValid ed (f, c) = (
  record {
    few = f.few;
    short = f.short;
    on_line = omega (arith, f.on_line);
    in_line = omega arith;
  },
  c,
)

pub handle_normal_mode-IsValid :
    (key : ℕ) (ed : Editor) → IsValid ed → IsValid (handle_normal_mode key ed)
unfolding handle_normal_mode
handle_normal_mode-IsValid key ed h =
    let all : Sound (handle_normal_mode key ed) =
      either ed.pending_dd (either (key == b'd') (sound (delete_line-IsValid ed h)) (sound h)) (
        either ed.pending_gg (either (key == b'g') (sound (top-IsValid ed h)) (sound h))
          (normal_key-Sound key ed h)) in
    all.valid

pub init-IsValid : IsValid init
init-IsValid = (
  record {
    few = omega arith;
    short = (omega arith, tt);
    on_line = omega arith;
    in_line = omega arith;
  },
  omega arith,
)
