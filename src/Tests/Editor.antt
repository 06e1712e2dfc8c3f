-- ===== src/Tests/Editor.antt =====
-- The editor on a few keys and a file of two lines.
use xiaobai_os.Base.{
  All, ap, suc, ◌≡◌, refl, arith, false, none, some, List, [], ◌∷◌, ◌++◌, Bytes, codes, length,
  take, min,
}
use xiaobai_os.Editor.State.{Editor, init, keep_cursor_valid, ensure_cursor_visible}
use xiaobai_os.Editor.Edits.{insert_char, backspace}
use xiaobai_os.Editor.Keys.{handle_insert_mode, insert_key, handle_normal_mode, normal_key}
use xiaobai_os.Editor.Files.{Files, load_chars, write_from, fd_write_all, write_line, write_lines}
use xiaobai_os.Editor.Files.Saving.{joined, Writes, write_lines-joined}
use xiaobai_os.Editor.Files.Loading.{CanLoad, load_chars-joined}
use xiaobai_os.Editor.Commands.{key_in, handle_key, step, opening}
use xiaobai_os.Editor.Valid.{IsValid}
use xiaobai_os.Editor.Valid.Moves.{IsVisible}
use xiaobai_os.Editor.Valid.Loop.{init-IsValid}
use xiaobai_os.Editor.Valid.Runs.{opened, pressed, Reaches-Shown}
use xiaobai_os.Editor.Valid.Undo.{backspace-insert_char}

-- Files of which the state is the text written so far; a write takes two bytes at most.
abbrev slow : Files Bytes
slow = record {
  open_write = λ w path. (w, some 3);
  fd_write = λ w fd text. (w ++ take 2 text, min 2 (length text));
  close = λ w fd. w;
  decimal = λ n. [];
}

take-min : (text : Bytes) → take 2 text ≡ take (min 2 (length text)) text
take-min [] = refl
take-min (c ∷ []) = refl
take-min (c ∷ (d ∷ text)) =
    let two : min 2 (suc (suc (length text))) ≡ 2 = omega arith in rw two refl

slow-Writes : Writes slow (λ w. w)
slow-Writes = record { taken = λ w fd text ne. ap (λ t. w ++ t) (take-min text) }

abbrev in_insert : Editor
in_insert = (step slow [] b'i' init []).0

step_inserts : (step slow [] b'a' in_insert []).0.lines ≡ codes "a" ∷ []
unfolding step handle_key key_in handle_normal_mode normal_key handle_insert_mode insert_key
    keep_cursor_valid ensure_cursor_visible insert_char
step_inserts = refl

opening_runs : opening [] none ≡ some init
unfolding opening keep_cursor_valid ensure_cursor_visible
opening_runs = refl

still_open : in_insert.quit_requested ≡ false
unfolding step handle_key key_in handle_normal_mode normal_key keep_cursor_valid
    ensure_cursor_visible
still_open = refl

Reaches-Shown_example :
    IsValid (step slow [] b'a' in_insert (step slow [] b'i' init []).1).0
    × ((step slow [] b'a' in_insert (step slow [] b'i' init []).1).0.quit_requested ≡ false
        → IsVisible (step slow [] b'a' in_insert (step slow [] b'i' init []).1).0)
Reaches-Shown_example =
    Reaches-Shown slow []
      (pressed b'a' (pressed b'i' (opened [] none [] opening_runs) refl) still_open)

backspace-insert_char_example :
    ((backspace (insert_char b'a' init).0).0.lines ≡ init.lines)
    × ((backspace (insert_char b'a' init).0).0.cursor_line ≡ init.cursor_line)
    × ((backspace (insert_char b'a' init).0).0.cursor_col ≡ init.cursor_col)
unfolding insert_char
backspace-insert_char_example = backspace-insert_char b'a' init init-IsValid refl

abbrev two_lines : List Bytes
two_lines = codes "one" ∷ (codes "2" ∷ [])

write_lines_runs : (write_lines slow 3 two_lines 0 []).1 ≡ some 5
unfolding write_lines write_line fd_write_all write_from
write_lines_runs = refl

write_lines-joined_example :
    ((write_lines slow 3 two_lines 0 []).0 ≡ joined two_lines) × (5 ≡ length (joined two_lines))
unfolding joined
write_lines-joined_example = write_lines-joined slow slow-Writes 3 two_lines 0 [] write_lines_runs

letters : All CanLoad two_lines
letters = (
  (
    ((omega arith, omega arith), ((omega arith, omega arith), ((omega arith, omega arith), tt))),
    omega arith,
  ),
  ((((omega arith, omega arith), tt), omega arith), tt),
)

load_chars-joined_example : load_chars ([] ∷ [], false) (joined two_lines) ≡ (two_lines, false)
load_chars-joined_example = load_chars-joined (codes "one") (codes "2" ∷ []) letters (omega arith)
