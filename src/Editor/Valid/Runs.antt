-- ===== src/Editor/Valid/Runs.antt =====
-- Every run of the loop in xiaobaios/apps/vim_main.c keeps the editor valid.
use xiaobai_os.Base.{
  ℕ, zero, suc, ◌+◌, ◌-◌, ◌≤◌, ◌≡◌, refl, subst, arith, Bool, true, false, Bool-cases, inl, inr,
  Option, none, some, ◌||◌, ◌&&◌, ◌==◌, ltb, if◌then◌else◌, List, [], ◌∷◌, ◌++◌, Bytes, length,
  length-append, get_or, take, All, All-append,
}
use xiaobai_os.Editor.State.{
  max_lines, max_line_len, cmd_max, Editor, Mode, normal, insert, command, init, keep_cursor_valid,
  ensure_cursor_visible,
}
use xiaobai_os.Editor.Key
use xiaobai_os.Editor.Keys.{printable, handle_insert_mode, handle_normal_mode}
use xiaobai_os.Editor.Files.{Files, load_char, load_chars, load_chunks, load_file}
use xiaobai_os.Editor.Commands.{
  run_command, leave_command, handle_command_mode, key_in, handle_key, step, opening,
}
use xiaobai_os.Editor.Lists.{IsShort, length-set, All-set}
use xiaobai_os.Editor.Valid.{IsValid}
use xiaobai_os.Editor.Valid.Moves.{
  keep_cursor_valid-IsValid, IsVisible, ensure_cursor_visible-IsVisible,
}
use xiaobai_os.Editor.Valid.Loop.{
  init-IsValid, handle_insert_mode-IsValid, handle_normal_mode-IsValid,
}
use xiaobai_os.Editor.Valid.Saved.{Has-IsValid, run_command-Holds}

module _ {W : Type 0} where
  -- A valid editor with the files, kept shut.
  record Sound (p : Editor × W) : Type 0 where
    valid : IsValid p.0

  sound : (ed : Editor) (w : W) → IsValid ed → Sound (ed, w)
  sound ed w h = record { valid = h }

  choice :
      (b : Bool) {p q : Editor × W} → (b ≡ true → Sound p) → Sound q → Sound (if b then p else q)
  choice true h k = h refl
  choice false h k = k

-- The lines while a file is read.
abbrev Loads : List Bytes × Bool → Type 0
Loads (lines, truncated) = (1 ≤ length lines) × (length lines ≤ max_lines) × All IsShort lines

load_char-Loads : (buffer : List Bytes × Bool) (ch : ℕ) → Loads buffer → Loads (load_char buffer ch)
unfolding load_char
load_char-Loads (lines, truncated) ch (some_line, few, short) = elim (Bool-cases (ch == 13)) [
  | inl e ↦ rw e (some_line, few, short)
  | inr e ↦ elim (Bool-cases (ch == 10)) [
    | inl p ↦ elim (Bool-cases (ltb (length lines) max_lines)) [
      | inl q ↦
          rw (e, p, q)
            (
              omega (arith, length-append lines ([] ∷ [])),
              ground (arith, length-append lines ([] ∷ [])),
              All-append IsShort lines ([] ∷ []) short (omega arith, tt),
            )
      | inr q ↦ rw (e, p, q) (some_line, few, short)
    ]
    | inr p ↦
        let i = length lines - 1 in
        let line = get_or lines i [] in
        elim (Bool-cases (ltb (length line + 1) max_line_len)) [
          | inl q ↦
              let len = length-set lines i (line ++ (ch ∷ [])) in
              rw (e, p, q)
                (
                  omega (arith, len),
                  omega (arith, len),
                  All-set lines i (line ++ (ch ∷ [])) short
                      (ground (arith, length-append line (ch ∷ []))),
                )
          | inr q ↦ rw (e, p, q) (some_line, few, short)
        ]
  ]
]

load_chars-Loads :
    (buffer : List Bytes × Bool) (buf : Bytes) → Loads buffer → Loads (load_chars buffer buf)
unfolding load_chars
load_chars-Loads buffer [] h = h
load_chars-Loads buffer (ch ∷ buf) h =
    load_chars-Loads (load_char buffer ch) buf (load_char-Loads buffer ch h)

load_chunks-Loads :
    (buffer : List Bytes × Bool) (chunks : List Bytes)
    → Loads buffer
    → Loads (load_chunks buffer chunks)
unfolding load_chunks
load_chunks-Loads buffer [] h = h
load_chunks-Loads buffer (buf ∷ more) h =
    load_chunks-Loads (load_chars buffer buf) more (load_chars-Loads buffer buf h)

-- A file that is loaded, whatever it holds, gives a valid editor.
load_file-IsValid :
    (path : Bytes) (file : Option (List Bytes × Bool)) (ed : Editor)
    → IsValid ed
    → (load_file path file ed).1 ≡ true
    → IsValid (load_file path file ed).0
unfolding load_file
load_file-IsValid path none ed h e = elim (Bool-cases (length path == 0)) [
  | inl p ↦ rw p h
  | inr p ↦ rw p h
]
load_file-IsValid path (some (chunks, failed)) ed (f, c) e =
    let (some_line, few, short) =
      load_chunks-Loads ([] ∷ [], false) chunks (omega arith, omega arith, (omega arith, tt)) in
    elim (Bool-cases (length path == 0)) [
      | inl p ↦ rw p (f, c)
      | inr p ↦ elim (Bool-cases failed) [
        | inl q ↦ let no = rw (p, q) at e in cc
        | inr q ↦
            rw (p, q)
              (record { few = few; short = short; on_line = some_line; in_line = omega arith }, c)
      ]
    ]

length-take_less : (n : ℕ) (l : Bytes) → length (take n l) ≤ length l
length-take_less zero l = omega arith
length-take_less (suc n) [] = omega arith
length-take_less (suc n) (c ∷ l) = omega (arith, length-take_less n l)

module _ {W : Type 0} (F : Files W) (cwd : Bytes) where
  handle_command_mode-Sound :
      (key : ℕ) (ed : Editor) (w : W)
      → IsValid ed
      → Sound {W = W} (handle_command_mode F cwd key ed w)
  unfolding handle_command_mode
  handle_command_mode-Sound key ed w (f, c) =
      let ran = run_command F cwd ed w in
      let left = leave_command F cwd ed in
      let shorter = record ed { command = take (length ed.command - 1) ed.command } in
      let longer = record ed { command = ed.command ++ (key ∷ []) } in
      let whole : IsValid (leave_command F cwd ran.0) =
        Has-IsValid ed (leave_command F cwd ran.0) (f, c)
          (let h = (run_command-Holds F cwd ed w).holds in
            record { lines_of = h.lines_of; row_of = h.row_of; col_of = h.col_of })
          (omega arith) in
      choice (key == Key.esc) (λ e. sound left w (f, omega arith))
        (choice (key == Key.backspace || key == Key.del)
          (λ e.
            sound shorter w (f, omega (arith, length-take_less (length ed.command - 1) ed.command)))
          (choice (key == Key.enter || key == 10)
            (λ e. sound (leave_command F cwd ran.0) ran.1 whole)
            (choice (printable key && ltb (length ed.command + 1) cmd_max)
              (λ e. sound longer w (f, ground (arith, length-append ed.command (key ∷ []))))
              (sound ed w (f, c)))))

  key_in-Sound :
      (mode : Mode) (key : ℕ) (ed : Editor) (w : W)
      → IsValid ed
      → Sound {W = W} (key_in F cwd mode key ed w)
  unfolding key_in
  key_in-Sound normal key ed w h =
      sound (handle_normal_mode key ed) w (handle_normal_mode-IsValid key ed h)
  key_in-Sound insert key ed w h =
      sound (handle_insert_mode key ed) w (handle_insert_mode-IsValid key ed h)
  key_in-Sound command key ed w h = handle_command_mode-Sound key ed w h

  -- A key in any mode leaves an editor valid: at most 2,048 lines, each shorter than 512 characters, a cursor
  -- on one of them and no further than its end, and a command line that fits its buffer.
  pub handle_key-IsValid :
      (key : ℕ) (ed : Editor) (w : W) → IsValid ed → IsValid (handle_key F cwd key ed w).0
  unfolding handle_key
  handle_key-IsValid key ed w h = (key_in-Sound ed.mode key ed w h).valid

  abbrev Shown : Editor → Type 0
  Shown ed = IsValid ed × (ed.quit_requested ≡ false → IsVisible ed)

  keep_cursor_valid-Shown :
      (ed : Editor) → IsValid ed → Shown (ensure_cursor_visible (keep_cursor_valid ed))
  keep_cursor_valid-Shown ed h =
      let (v, i) =
        ensure_cursor_visible-IsVisible (keep_cursor_valid ed)
          (keep_cursor_valid-IsValid ed h ed.cursor_line ed.cursor_col) in
      (v, λ q. i)

  record Displayed (p : Editor × W) : Type 0 where
    displayed : Shown p.0

  step-Displayed : (key : ℕ) (ed : Editor) (w : W) → IsValid ed → Displayed (step F cwd key ed w)
  unfolding step
  step-Displayed key ed w h =
      let p = handle_key F cwd key ed w in
      let v = handle_key-IsValid key ed w h in
      elim (Bool-cases p.0.quit_requested) [
        | inl e ↦ rw e (record { displayed = (v, λ q. cc) })
        | inr e ↦ rw e (record { displayed = keep_cursor_valid-Shown p.0 v })
      ]

  -- The states that the loop reaches.
  pub data Reaches : Editor → W → Type 0 where
    opened :
        (path : Bytes) (file : Option (List Bytes × Bool)) {ed : Editor} (w : W)
        → opening path file ≡ some ed
        → Reaches ed w
    pressed :
        {ed : Editor} {w : W} (key : ℕ)
        → Reaches ed w
        → ed.quit_requested ≡ false
        → Reaches (step F cwd key ed w).0 (step F cwd key ed w).1

  some-editor : {x y : Editor} → some x ≡ some y → x ≡ y
  some-editor e = cc

  opening-Shown :
      (path : Bytes) (file : Option (List Bytes × Bool)) (ed : Editor)
      → opening path file ≡ some ed
      → Shown ed
  unfolding opening
  opening-Shown path file ed e = elim (Bool-cases (length path == 0)) [
    | inl p ↦ subst Shown (some-editor (rw p at e)) (keep_cursor_valid-Shown init init-IsValid)
    | inr p ↦ elim (Bool-cases (load_file path file init).1) [
      | inl q ↦
          let loaded = load_file-IsValid path file init init-IsValid q in
          subst Shown (some-editor (rw (p, q) at e))
            (keep_cursor_valid-Shown (load_file path file init).0 loaded)
      | inr q ↦ let no = rw (p, q) at e in cc
    ]
  ]

  -- In every state that the loop reaches, from an empty buffer or from a file of any text and by any keys, the
  -- editor is valid, and until it quits the cursor's line is one of the twenty that are shown.
  pub Reaches-Shown :
      {ed : Editor} {w : W} → Reaches ed w → IsValid ed × (ed.quit_requested ≡ false → IsVisible ed)
  Reaches-Shown (opened path file w e) = opening-Shown path file _ e
  Reaches-Shown (pressed {ed} {w} key before running) =
      (step-Displayed key ed w (Reaches-Shown before).0).displayed
