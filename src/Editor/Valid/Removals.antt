-- ===== src/Editor/Valid/Removals.antt =====
-- The edits that remove text keep the buffer valid.
use xiaobai_os.Base.{
  ℕ, ◌+◌, ◌-◌, ◌≤◌, ◌≡◌, ap, ◌∙◌, arith, true, false, Bool-cases, inl, inr, ◌==◌, ltb, leb, ◌++◌,
  Bytes, length, length-append, length-drop, set, take, drop,
}
use xiaobai_os.Editor.State.{max_line_len, Editor, line_at}
use xiaobai_os.Editor.Edits.{
  remove_at, delete_before, merge_up, backspace, delete_char, delete_line,
}
use xiaobai_os.Editor.Lists.{
  IsShort, length-set, All-set, get_or-set_same, get_or-IsShort, length-remove_at, All-remove_at,
  get_or-remove_at_before, length-take_min,
}
use xiaobai_os.Editor.Valid.Changes.{set-Fits}
use xiaobai_os.Editor.Valid.{Fits, IsValid}
use xiaobai_os.Editor.Valid.Moves.{keep_cursor_valid-IsValid}

cut-IsShort :
    (from to : ℕ) (line : Bytes)
    → from ≤ to
    → from ≤ length line
    → IsShort line
    → IsShort (take from line ++ drop to line)
cut-IsShort from to line le inside s = omega (
  arith,
  length-append (take from line) (drop to line),
  length-take_min from line inside,
  length-drop to line,
)

pub delete_before-IsValid : (ed : Editor) → IsValid ed → IsValid (delete_before ed)
unfolding delete_before
delete_before-IsValid ed (f, c) =
    let line = line_at ed ed.cursor_line in
    let col = ed.cursor_col in
    (
      set-Fits ed.lines ed.cursor_line col (col - 1) (take (col - 1) line ++ drop col line) f
          (cut-IsShort (col - 1) col line (omega arith) (omega (arith, f.in_line))
            (get_or-IsShort ed.lines ed.cursor_line f.short))
          (omega (
            arith,
            f.in_line,
            length-append (take (col - 1) line) (drop col line),
            length-take_min (col - 1) line (omega (arith, f.in_line)),
          )),
      c,
    )

pub delete_char-IsValid : (ed : Editor) → IsValid ed → IsValid (delete_char ed).0
unfolding delete_char
delete_char-IsValid ed (f, c) =
    elim (Bool-cases (leb (length (line_at ed ed.cursor_line)) ed.cursor_col)) [
      | inl e ↦ rw e (f, c)
      | inr e ↦
          let line = line_at ed ed.cursor_line in
          let col = ed.cursor_col in
          rw e (
            set-Fits ed.lines ed.cursor_line col col (take col line ++ drop (col + 1) line) f
                (cut-IsShort col (col + 1) line (omega arith) f.in_line
                  (get_or-IsShort ed.lines ed.cursor_line f.short))
                (omega (
                  arith,
                  length-append (take col line) (drop (col + 1) line),
                  length-take_min col line f.in_line,
                )),
            c,
          )
    ]

merge_up-IsValid :
    (ed : Editor) → IsValid ed → (ed.cursor_line == 0) ≡ false → IsValid (merge_up ed).0
unfolding merge_up
merge_up-IsValid ed (f, c) e =
    let line = line_at ed ed.cursor_line in
    let prev = line_at ed (ed.cursor_line - 1) in
    elim (Bool-cases (leb max_line_len (length prev + length line))) [
      | inl p ↦ rw p (f, c)
      | inr p ↦
          let lines = set ed.lines (ed.cursor_line - 1) (prev ++ line) in
          let len = length-set ed.lines (ed.cursor_line - 1) (prev ++ line) in
          let joined = length-append prev line in
          let below : 1 ≤ ed.cursor_line = ground arith in
          let less = length-remove_at ed.cursor_line lines (omega (arith, f.on_line, len)) in
          let there =
            get_or-remove_at_before ed.cursor_line (ed.cursor_line - 1) lines (omega arith)
            ∙ get_or-set_same ed.lines (ed.cursor_line - 1) (prev ++ line)
                (omega (arith, f.on_line)) in
          rw p (
            record {
              few = omega (arith, f.few, less, len);
              short = All-remove_at ed.cursor_line lines (
                  All-set ed.lines (ed.cursor_line - 1) (prev ++ line) f.short
                    (ground (arith, joined)));
              on_line = omega (arith, f.on_line, less, len);
              in_line = omega (arith, ap length there, joined);
            },
            c,
          )
    ]

pub backspace-IsValid : (ed : Editor) → IsValid ed → IsValid (backspace ed).0
unfolding backspace
backspace-IsValid ed h = elim (Bool-cases (ltb 0 ed.cursor_col)) [
  | inl e ↦ rw e (delete_before-IsValid ed h)
  | inr e ↦ elim (Bool-cases (ed.cursor_line == 0)) [
    | inl p ↦ rw (e, p) h
    | inr p ↦ rw (e, p) (merge_up-IsValid ed h p)
  ]
]

pub delete_line-IsValid : (ed : Editor) → IsValid ed → IsValid (delete_line ed).0
unfolding delete_line
delete_line-IsValid ed (f, c) =
    let some_line : (length ed.lines == 0) ≡ false = ground (arith, f.on_line) in
    elim (Bool-cases (length ed.lines == 1)) [
      | inl e ↦
          rw (some_line, e)
            (
              record {
                few = omega arith;
                short = (omega arith, tt);
                on_line = omega arith;
                in_line = omega arith;
              },
              c,
            )
      | inr e ↦
          let lines = remove_at ed.cursor_line ed.lines in
          let less = length-remove_at ed.cursor_line ed.lines f.on_line in
          let first : Fits lines 0 0 = record {
            few = omega (arith, f.few, less);
            short = All-remove_at ed.cursor_line ed.lines f.short;
            on_line = ground (arith, less);
            in_line = omega arith;
          } in
          rw (some_line, e)
            (keep_cursor_valid-IsValid
              (record ed { lines = lines; cursor_line = 0; cursor_col = 0; modified = true })
              (first, c) _ _)
    ]
