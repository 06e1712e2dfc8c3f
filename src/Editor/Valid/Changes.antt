-- ===== src/Editor/Valid/Changes.antt =====
-- The edits keep the cursor in the text, and the text in its array.
use xiaobai_os.Base.{
  ℕ, ◌+◌, ◌≤◌, ◌<◌, ◌≡◌, ◌⊎◌, refl, ap, arith, true, false, Bool-cases, inl, inr, ◌||◌, ◌==◌, ltb,
  leb, List, [], ◌∷◌, ◌++◌, Bytes, length, length-append, length-drop, get_or, set, take, drop,
}
use xiaobai_os.Editor.State.{max_lines, max_line_len, Editor, line_at}
use xiaobai_os.Editor.Edits.{
  insert_at, insert_line_after, insert_char, move_tail, split_line, open_below_insert,
}
use xiaobai_os.Editor.Lists.{
  IsShort, length-set, All-set, get_or-set_same, get_or-IsShort, length-insert_at, All-insert_at,
  length-take_min,
}
use xiaobai_os.Editor.Valid.{Fits, IsValid}

-- The cursor's line replaced.
pub set-Fits :
    (lines : List Bytes) (row col col' : ℕ) (line : Bytes)
    → Fits lines row col
    → IsShort line
    → col' ≤ length line
    → Fits (set lines row line) row col'
set-Fits lines row col col' line f s le = record {
  few = omega (arith, f.few, length-set lines row line);
  short = All-set lines row line f.short s;
  on_line = omega (arith, f.on_line, length-set lines row line);
  in_line = omega (arith, ap length (get_or-set_same lines row line f.on_line));
}

pub insert_char-IsValid : (ch : ℕ) (ed : Editor) → IsValid ed → IsValid (insert_char ch ed).0
unfolding insert_char
insert_char-IsValid ch ed (f, c) = elim (Bool-cases (ltb ch 0x20 || (ch == 10 || ch == 13))) [
  | inl e ↦ rw e (f, c)
  | inr e ↦ elim (Bool-cases (leb max_line_len (length (line_at ed ed.cursor_line) + 1))) [
    | inl p ↦ rw (e, p) (f, c)
    | inr p ↦
        let line = line_at ed ed.cursor_line in
        let room : length line + 1 < max_line_len = ground arith in
        let len = length-take_min ed.cursor_col line f.in_line in
        let len' = length-drop ed.cursor_col line in
        let whole = length-append (take ed.cursor_col line) (ch ∷ drop ed.cursor_col line) in
        let new = take ed.cursor_col line ++ (ch ∷ drop ed.cursor_col line) in
        rw (e, p)
          (
            set-Fits ed.lines ed.cursor_line ed.cursor_col (ed.cursor_col + 1) new f
                (omega (arith, f.in_line)) (omega (arith, f.in_line)),
            c,
          )
  ]
]

-- What insert_line_after gives: nothing new, or one more line.
pub insert_line_after-cases :
    (ed : Editor)
    → IsValid ed
    → (((insert_line_after ed.cursor_line ed).1 ≡ false)
        × IsValid (insert_line_after ed.cursor_line ed).0)
      ⊎ ((insert_line_after ed.cursor_line ed
            ≡ (record ed { lines = insert_at (ed.cursor_line + 1) [] ed.lines }, true))
          × (length ed.lines < max_lines))
unfolding insert_line_after
insert_line_after-cases ed (f, c) =
    let inside : leb (length ed.lines) ed.cursor_line ≡ false = ground (arith, f.on_line) in
    elim (Bool-cases (leb max_lines (length ed.lines))) [
      | inl p ↦ inl (rw (inside, p) refl, rw (inside, p) (f, c))
      | inr p ↦ inr (rw (inside, p) refl, ground arith)
    ]

-- A new line behind the cursor's, with the cursor at its start.
opened-Fits :
    (lines : List Bytes) (row col : ℕ)
    → Fits lines row col
    → length lines < max_lines
    → Fits (insert_at (row + 1) [] lines) (row + 1) 0
opened-Fits lines row col f room =
    let len = length-insert_at (row + 1) [] lines (omega (arith, f.on_line)) in
    record {
      few = omega (arith, len);
      short = All-insert_at (row + 1) [] lines (omega arith) f.short;
      on_line = omega (arith, len, f.on_line);
      in_line = omega arith;
    }

pub open_below_insert-IsValid : (ed : Editor) → IsValid ed → IsValid (open_below_insert ed).0
unfolding open_below_insert
open_below_insert-IsValid ed (f, c) = elim (insert_line_after-cases ed (f, c)) [
  | inl (e, h) ↦ rw e h
  | inr (e, room) ↦ rw e (opened-Fits ed.lines ed.cursor_line ed.cursor_col f room, c)
]

move_tail-IsValid :
    (ed : Editor)
    → IsValid ed
    → length ed.lines < max_lines
    → IsValid (move_tail (record ed { lines = insert_at (ed.cursor_line + 1) [] ed.lines }))
unfolding move_tail
move_tail-IsValid ed (f, c) room =
    let new = insert_at (ed.cursor_line + 1) [] ed.lines in
    let opened = opened-Fits ed.lines ed.cursor_line ed.cursor_col f room in
    let line = get_or new ed.cursor_line [] in
    elim (Bool-cases (ltb ed.cursor_col (length line))) [
      | inr e ↦ rw e (opened, c)
      | inl e ↦
          let short = get_or-IsShort new ed.cursor_line opened.short in
          let tail =
            set-Fits new (ed.cursor_line + 1) 0 0 (drop ed.cursor_col line) opened
              (omega (arith, length-drop ed.cursor_col line)) (omega arith) in
          let tails = set new (ed.cursor_line + 1) (drop ed.cursor_col line) in
          let head = take ed.cursor_col line in
          let len = length-take_min ed.cursor_col line (ground arith) in
          rw e (
            record {
              few = omega (arith, tail.few, length-set tails ed.cursor_line head);
              short = All-set tails ed.cursor_line head tail.short (ground (arith, len));
              on_line = omega (arith, tail.on_line, length-set tails ed.cursor_line head);
              in_line = omega arith;
            },
            c,
          )
    ]

pub split_line-IsValid : (ed : Editor) → IsValid ed → IsValid (split_line ed).0
unfolding split_line
split_line-IsValid ed h = elim (insert_line_after-cases ed h) [
  | inl (e, v) ↦ rw e v
  | inr (e, room) ↦ rw e (move_tail-IsValid ed h room)
]

-- The cursor's line without the characters from `from` to `to`.
