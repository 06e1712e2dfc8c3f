-- ===== src/Editor/Valid/Moves.antt =====
-- Moving the cursor keeps it in the text.
use xiaobai_os.Base.{
  ℕ, ◌+◌, ◌-◌, ◌≤◌, ◌<◌, ◌≡◌, arith, false, Bool-cases, inl, inr, ◌==◌, ltb, leb, Bytes, length,
}
use xiaobai_os.Editor.State.{
  view_rows, Editor, line_at, clip, keep_cursor_valid, ensure_cursor_visible, move_left, move_right,
  move_up, move_down,
}
use xiaobai_os.Editor.Valid.{IsValid}

clip_le : (col : ℕ) (line : Bytes) → clip col line ≤ length line
clip_le col line = ground arith

-- The cursor anywhere, when its column is put right.
pub keep_cursor_valid-IsValid :
    (ed : Editor) (h : IsValid ed) (row col : ℕ)
    → IsValid (keep_cursor_valid (record ed { cursor_line = row; cursor_col = col }))
unfolding keep_cursor_valid
keep_cursor_valid-IsValid ed (f, c) row col =
    let some_line : (length ed.lines == 0) ≡ false = ground (arith, f.on_line) in
    rw some_line (elim (Bool-cases (leb (length ed.lines) row)) [
      | inl e ↦ rw e (
        record {
          few = f.few;
          short = f.short;
          on_line = omega (arith, f.on_line);
          in_line = clip_le col _;
        },
        c,
      )
      | inr e ↦ rw e (
        record { few = f.few; short = f.short; on_line = ground arith; in_line = clip_le col _ },
        c,
      )
    ])

pub move_left-IsValid : (ed : Editor) → IsValid ed → IsValid (move_left ed)
unfolding move_left
move_left-IsValid ed (f, c) = elim (Bool-cases (ltb 0 ed.cursor_col)) [
  | inl e ↦ rw e (
    record {
      few = f.few;
      short = f.short;
      on_line = f.on_line;
      in_line = omega (arith, f.in_line);
    },
    c,
  )
  | inr e ↦ elim (Bool-cases (ltb 0 ed.cursor_line)) [
    | inl p ↦
        rw (e, p)
          (
            record {
              few = f.few;
              short = f.short;
              on_line = omega (arith, f.on_line);
              in_line = omega arith;
            },
            c,
          )
    | inr p ↦ rw (e, p) (f, c)
  ]
]

pub move_right-IsValid : (ed : Editor) → IsValid ed → IsValid (move_right ed)
unfolding move_right
move_right-IsValid ed (f, c) =
    elim (Bool-cases (ltb ed.cursor_col (length (line_at ed ed.cursor_line)))) [
      | inl e ↦
          rw e (
            record { few = f.few; short = f.short; on_line = f.on_line; in_line = ground arith },
            c,
          )
      | inr e ↦ elim (Bool-cases (ltb (ed.cursor_line + 1) (length ed.lines))) [
        | inl p ↦
            rw (e, p)
              (
                record {
                  few = f.few;
                  short = f.short;
                  on_line = ground arith;
                  in_line = omega arith;
                },
                c,
              )
        | inr p ↦ rw (e, p) (f, c)
      ]
    ]

pub move_up-IsValid : (ed : Editor) → IsValid ed → IsValid (move_up ed)
unfolding move_up
move_up-IsValid ed h = elim (Bool-cases (ltb 0 ed.cursor_line)) [
  | inl e ↦ rw e (keep_cursor_valid-IsValid ed h (ed.cursor_line - 1) ed.cursor_col)
  | inr e ↦ rw e (keep_cursor_valid-IsValid ed h ed.cursor_line ed.cursor_col)
]

pub move_down-IsValid : (ed : Editor) → IsValid ed → IsValid (move_down ed)
unfolding move_down
move_down-IsValid ed h = elim (Bool-cases (ltb (ed.cursor_line + 1) (length ed.lines))) [
  | inl e ↦ rw e (keep_cursor_valid-IsValid ed h (ed.cursor_line + 1) ed.cursor_col)
  | inr e ↦ rw e (keep_cursor_valid-IsValid ed h ed.cursor_line ed.cursor_col)
]

-- The cursor's line is one of the rows shown.
abbrev pub IsVisible : Editor → Type 0
IsVisible ed = (ed.scroll_top ≤ ed.cursor_line) × (ed.cursor_line < ed.scroll_top + view_rows)

pub ensure_cursor_visible-IsVisible :
    (ed : Editor)
    → IsValid ed
    → IsValid (ensure_cursor_visible ed) × IsVisible (ensure_cursor_visible ed)
unfolding ensure_cursor_visible
ensure_cursor_visible-IsVisible ed h = elim (Bool-cases (ltb ed.cursor_line ed.scroll_top)) [
  | inl e ↦ rw e (h, (omega arith, omega arith))
  | inr e ↦ elim (Bool-cases (leb (ed.scroll_top + view_rows) ed.cursor_line)) [
    | inl p ↦ rw (e, p) (h, (ground arith, ground arith))
    | inr p ↦ rw (e, p) (h, (ground arith, ground arith))
  ]
]
