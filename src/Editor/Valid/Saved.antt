-- ===== src/Editor/Valid/Saved.antt =====
-- The commands of xiaobaios/apps/vim_main.c leave the text and the cursor.
use xiaobai_os.Base.{
  ℕ, ◌<◌, ◌≡◌, refl, sym, subst, Bool, true, false, Bool-cases, Option-cases, inl, inr, Option,
  none, some, ◌||◌, ◌==◌, if◌then◌else◌, List, Bytes, codes, length,
}
use xiaobai_os.Runtime.Words.{streq, trim_line}
use xiaobai_os.Editor.State.{cmd_max, Editor, set_status}
use xiaobai_os.Editor.Files.{Files, close_file, write_file, save_file, write_lines}
use xiaobai_os.Editor.Commands.{
  quit, resolve_write_path, write_argument, save_and_quit, write_command, run_command,
}
use xiaobai_os.Editor.Valid.{Fits, IsValid}

-- The lines and the cursor that an editor has.
pub record Has (lines : List Bytes) (row col : ℕ) (ed : Editor) : Type 0 where
  pub lines_of : ed.lines ≡ lines
  pub row_of : ed.cursor_line ≡ row
  pub col_of : ed.cursor_col ≡ col

as_it_is : (ed : Editor) → Has ed.lines ed.cursor_line ed.cursor_col ed
as_it_is ed = record { lines_of = refl; row_of = refl; col_of = refl }

pub Has-IsValid :
    (ed ed' : Editor)
    → IsValid ed
    → Has ed.lines ed.cursor_line ed.cursor_col ed'
    → length ed'.command < cmd_max
    → IsValid ed'
Has-IsValid ed ed' (f, c) s c' =
    let lines : Fits ed'.lines ed.cursor_line ed.cursor_col =
      subst (λ l. Fits l ed.cursor_line ed.cursor_col) (sym s.lines_of) f in
    let row : Fits ed'.lines ed'.cursor_line ed.cursor_col =
      subst (λ r. Fits ed'.lines r ed.cursor_col) (sym s.row_of) lines in
    (subst (λ k. Fits ed'.lines ed'.cursor_line k) (sym s.col_of) row, c')

module _ {W : Type 0} (F : Files W) where
  close_file-Has :
      (ed : Editor) (path : Bytes) (fd : ℕ) (p : W × Option ℕ)
      → Has ed.lines ed.cursor_line ed.cursor_col (close_file F ed path fd p).0.0
  unfolding close_file
  close_file-Has ed path fd (w, none) = record { lines_of = refl; row_of = refl; col_of = refl }
  close_file-Has ed path fd (w, some bytes) = record {
    lines_of = refl;
    row_of = refl;
    col_of = refl;
  }

  write_file-Has :
      (ed : Editor) (path : Bytes) (p : W × Option ℕ)
      → Has ed.lines ed.cursor_line ed.cursor_col (write_file F ed path p).0.0
  unfolding write_file
  write_file-Has ed path (w, none) = record { lines_of = refl; row_of = refl; col_of = refl }
  write_file-Has ed path (w, some fd) = close_file-Has ed path fd (write_lines F fd ed.lines 0 w)

  save_file-Has :
      (path : Bytes) (ed : Editor) (w : W)
      → Has ed.lines ed.cursor_line ed.cursor_col (save_file F path ed w).0.0
  unfolding save_file
  save_file-Has path ed w = elim (Bool-cases (length path == 0)) [
    | inl e ↦ rw e (as_it_is ed)
    | inr e ↦ rw e (write_file-Has ed path (F.open_write w path))
  ]

module _ {W : Type 0} (lines : List Bytes) (row col : ℕ) where
  -- The same of a pair with the files, kept shut.
  pub record Holds (p : Editor × W) : Type 0 where
    pub holds : Has lines row col p.0

  either : (b : Bool) {p q : Editor × W} → Holds p → Holds q → Holds (if b then p else q)
  either true h k = h
  either false h k = k

  pair : (ed : Editor) (w : W) → Has lines row col ed → Holds (ed, w)
  pair ed w h = record { holds = h }

module _ {W : Type 0} (F : Files W) (cwd : Bytes) where
  save_and_quit-Holds :
      (ed : Editor) (w : W)
      → Holds {W = W} ed.lines ed.cursor_line ed.cursor_col (save_and_quit F cwd ed w)
  unfolding save_and_quit
  save_and_quit-Holds ed w =
      let is = pair {W = W} ed.lines ed.cursor_line ed.cursor_col in
      let ((saved, w'), ok) = save_file F ed.file_path ed w in
      let h = save_file-Has F ed.file_path ed w in
      let h' : Has ed.lines ed.cursor_line ed.cursor_col (quit saved) = record {
        lines_of = h.lines_of;
        row_of = h.row_of;
        col_of = h.col_of;
      } in
      let no_name = set_status ed (codes "No file name") in
      let h0 : Has ed.lines ed.cursor_line ed.cursor_col no_name = record {
        lines_of = refl;
        row_of = refl;
        col_of = refl;
      } in
      elim (Bool-cases (length ed.file_path == 0)) [
        | inl e ↦ rw e (is no_name w h0)
        | inr e ↦ elim (Bool-cases ok) [
          | inl p ↦ rw (e, p) (is (quit saved) w' h')
          | inr p ↦ rw (e, p) (is saved w' h)
        ]
      ]

  write_command-Holds :
      (rest : Bytes) (ed : Editor) (w : W)
      → Holds {W = W} ed.lines ed.cursor_line ed.cursor_col (write_command F cwd rest ed w)
  unfolding write_command
  write_command-Holds rest ed w =
      let is = pair {W = W} ed.lines ed.cursor_line ed.cursor_col in
      let refused = λ (text : Bytes). as_it_is (set_status ed text) in
      let to = λ (path : Bytes).
        is (save_file F path ed w).0.0 (save_file F path ed w).0.1 (save_file-Has F path ed w) in
      elim (Bool-cases (length rest == 0)) [
        | inl e ↦ elim (Bool-cases (length ed.file_path == 0)) [
          | inl p ↦
              rw (e, p)
                (is (set_status ed (codes "No file name")) w (refused (codes "No file name")))
          | inr p ↦ rw (e, p) (to ed.file_path)
        ]
        | inr e ↦ elim (Option-cases (resolve_write_path cwd rest)) [
          | inl p ↦
              rw (e, p)
                (is (set_status ed (codes "invalid path")) w (refused (codes "invalid path")))
          | inr (path, p) ↦ rw (e, p) (to path)
        ]
      ]

  pub run_command-Holds :
      (editor : Editor) (w : W)
      → Holds {W = W} editor.lines editor.cursor_line editor.cursor_col (run_command F cwd editor w)
  unfolding run_command
  run_command-Holds editor w =
      let cmd = trim_line editor.command in
      let ed = record editor { command = cmd } in
      let is = pair {W = W} editor.lines editor.cursor_line editor.cursor_col in
      let refused = λ (text : Bytes). is (set_status ed text) w (as_it_is (set_status ed text)) in
      let left = is (quit ed) w (as_it_is (quit ed)) in
      either _ _ _ (length cmd == 0) (is ed w (as_it_is ed)) (
        either _ _ _ (streq cmd (codes "q"))
          (either _ _ _ ed.modified
            (refused (codes "No write since last change (add ! to override)")) left)
          (either _ _ _ (streq cmd (codes "q!")) left (
            either _ _ _ (streq cmd (codes "wq") || streq cmd (codes "x"))
              (save_and_quit-Holds ed w)
              (elim (Option-cases (write_argument cmd)) [
                | inr (rest, e) ↦ rw e (write_command-Holds rest ed w)
                | inl e ↦ rw e (
                    either _ _ _ (streq cmd (codes "help"))
                      (refused (codes "normal: h j k l i a o x dd gg G : | cmd: w q q! wq"))
                      (refused (codes "unknown command")))
              ]))))
