-- ===== src/Editor/Valid/Undo.antt =====
-- Backspace in xiaobaios/apps/vim_main.c takes back what the key before it typed.
use xiaobai_os.Base.{
  ℕ, zero, suc, ◌+◌, ◌-◌, ◌<◌, ◌≡◌, refl, ap, subst, ◌∙◌, arith, true, Bool-cases, inl, inr, ◌||◌,
  ◌==◌, ltb, leb, List, [], ◌∷◌, ◌++◌, Bytes, length, get_or, set, take, drop, take-drop,
}
use xiaobai_os.Editor.State.{max_line_len, Editor, line_at}
use xiaobai_os.Editor.Edits.{insert_char, delete_before, backspace}
use xiaobai_os.Editor.Lists.{get_or-set_same, length-take_min}
use xiaobai_os.Editor.Valid.{IsValid}

set_twice : (lines : List Bytes) (i : ℕ) (a b : Bytes) → set (set lines i a) i b ≡ set lines i b
set_twice [] i a b = refl
set_twice (x ∷ lines) zero a b = refl
set_twice (x ∷ lines) (suc i) a b = ap (λ t. x ∷ t) (set_twice lines i a b)

set-get_or :
    (lines : List Bytes) (i : ℕ) → i < length lines → set lines i (get_or lines i []) ≡ lines
set-get_or [] i h = refl
set-get_or (x ∷ lines) zero h = refl
set-get_or (x ∷ lines) (suc i) h = ap (λ t. x ∷ t) (set-get_or lines i (omega arith))

take_front : (a b : Bytes) → take (length a) (a ++ b) ≡ a
take_front [] b = refl
take_front (c ∷ a) b = ap (λ t. c ∷ t) (take_front a b)

drop_front : (a b : Bytes) (ch : ℕ) → drop (length a + 1) (a ++ (ch ∷ b)) ≡ b
drop_front [] b ch = refl
drop_front (c ∷ a) b ch =
    let e : suc (length a) + 1 ≡ suc (length a + 1) = omega arith in rw e (drop_front a b ch)

-- A character that is typed with success and taken back leaves the lines and the cursor as they were.
pub backspace-insert_char :
    (ch : ℕ) (ed : Editor)
    → IsValid ed
    → (insert_char ch ed).1 ≡ true
    → ((backspace (insert_char ch ed).0).0.lines ≡ ed.lines)
      × ((backspace (insert_char ch ed).0).0.cursor_line ≡ ed.cursor_line)
      × ((backspace (insert_char ch ed).0).0.cursor_col ≡ ed.cursor_col)
unfolding backspace insert_char delete_before
backspace-insert_char ch ed (f, c) e = elim (Bool-cases (ltb ch 0x20 || (ch == 10 || ch == 13))) [
  | inl p ↦ let no = rw p at e in cc
  | inr p ↦ elim (Bool-cases (leb max_line_len (length (line_at ed ed.cursor_line) + 1))) [
    | inl q ↦ let no = rw (p, q) at e in cc
    | inr q ↦
        let line = line_at ed ed.cursor_line in
        let col = ed.cursor_col in
        let front = take col line in
        let back = drop col line in
        let new = front ++ (ch ∷ back) in
        let len : length front ≡ col = length-take_min col line f.in_line in
        let there = get_or-set_same ed.lines ed.cursor_line new f.on_line in
        let positive : ltb 0 (col + 1) ≡ true = ground arith in
        let minus : col + 1 - 1 ≡ col = omega arith in
        let head : take col new ≡ front =
          subst (λ n. take n new ≡ front) len (take_front front (ch ∷ back)) in
        let tail : drop (col + 1) new ≡ back =
          subst (λ n. drop (n + 1) new ≡ back) len (drop_front front back ch) in
        let restored : set (set ed.lines ed.cursor_line new) ed.cursor_line (front ++ back)
            ≡ ed.lines =
          set_twice ed.lines ed.cursor_line new (front ++ back)
          ∙ ap (set ed.lines ed.cursor_line) (take-drop col line)
          ∙ set-get_or ed.lines ed.cursor_line f.on_line in
        rw (p, q, positive, there, minus, head, tail) (restored, refl, refl)
  ]
]
