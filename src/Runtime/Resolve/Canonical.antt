-- ===== src/Runtime/Resolve/Canonical.antt =====
-- A resolved path is canonical: it names its components from the root, fits its buffer, and resolves
-- to itself.
use xiaobai_os.Base.{
  ℕ, ◌≤◌, ◌<◌, ◌≡◌, refl, sym, ap, ◌∙◌, subst, inl, inr, arith, false, ◌==◌, Bool-cases,
  Option-cases, Option, none, some, List, [], ◌∷◌, ◌++◌, Bytes, All, All-append, length,
}
use xiaobai_os.Runtime.Resolve.{slash, is_dot, is_dot_dot, resolve_path}
use xiaobai_os.Runtime.Resolve.Stack.{IsComponent, spell, render}
use xiaobai_os.Runtime.Resolve.Pieces.{pieces, pieces-IsComponent, pieces-append, pieces_one}
use xiaobai_os.Runtime.Resolve.Walk.{
  walk-append, Stack, pop, step, walk, draw, target, resolve_path-walk,
}

-- A component that is a name, neither `.` nor `..`.
abbrev pub IsName : Bytes → Type 0
IsName c = IsComponent c × (is_dot c ≡ false) × (is_dot_dot c ≡ false)

-- Every part of the stack that the walk goes through fits the buffer.
abbrev pub Fits : ℕ → Stack → Type 0
Fits size [] = Unit
Fits size (c ∷ st) = (length (render (c ∷ st)) < size) × Fits size st

render-Fits : (size : ℕ) (st : Stack) → 2 ≤ size → Fits size st → length (render st) < size
render-Fits size [] h f = unfold render in omega arith
render-Fits size (c ∷ st) h (l, f) = l

abbrev pub IsCanonical : ℕ → Stack → Type 0
IsCanonical size st = All IsName st × Fits size st

pop-IsCanonical : (size : ℕ) (st : Stack) → IsCanonical size st → IsCanonical size (pop st)
pop-IsCanonical size [] k = k
pop-IsCanonical size (c ∷ st) ((n, h), (l, f)) = (h, f)

step-IsCanonical :
    (size : ℕ) (c : Bytes) (st st' : Stack)
    → IsComponent c
    → IsCanonical size st
    → step size c st ≡ some st'
    → IsCanonical size st'
unfolding step
step-IsCanonical size c st st' ok k e = elim (Bool-cases (is_dot c)) [
  | inl p ↦ subst (IsCanonical size) (ground arith) k
  | inr p ↦ elim (Bool-cases (is_dot_dot c)) [
    | inl q ↦ subst (IsCanonical size) (ground arith) (pop-IsCanonical size st k)
    | inr q ↦
        let e' : c ∷ st ≡ st' = ground arith in
        subst (IsCanonical size) e' (((ok, p, q), k.0), (ground arith, k.1))
  ]
]

walk-IsCanonical :
    (size : ℕ) (cs : List Bytes) (st st' : Stack)
    → All IsComponent cs
    → IsCanonical size st
    → walk size cs st ≡ some st'
    → IsCanonical size st'
unfolding walk
walk-IsCanonical size [] st st' hc k e = subst (IsCanonical size) (ground arith) k
walk-IsCanonical size (c ∷ cs) st st' (ok, hc) k e = elim (Option-cases (step size c st)) [
  | inl n ↦ absurd (ground arith)
  | inr (t, n) ↦
      walk-IsCanonical size cs t st' hc (step-IsCanonical size c st t ok k n) (ground arith)
]

target-IsComponent : (cwd : Bytes) (arg : Option Bytes) → All IsComponent (target cwd arg)
unfolding target
target-IsComponent cwd none = pieces-IsComponent cwd
target-IsComponent cwd (some []) = pieces-IsComponent cwd
target-IsComponent cwd (some (c ∷ arg)) = elim (Bool-cases (c == slash)) [
  | inl p ↦ rw p (pieces-IsComponent (c ∷ arg))
  | inr p ↦ rw p (
      All-append _ (pieces cwd) (pieces (c ∷ arg)) (pieces-IsComponent cwd)
        (pieces-IsComponent (c ∷ arg)))
]

-- A path that ush_resolve_path returns in a buffer of 2 bytes or more, whatever the current
-- directory and the argument hold, is the root or a sequence of names behind slashes, none of them
-- empty, `.` or `..`, and with its NUL it fits the buffer.
pub resolve_path-IsCanonical :
    (cwd : Bytes) (arg : Option Bytes) (size : ℕ) {path : Bytes}
    → 2 ≤ size
    → resolve_path cwd arg size ≡ some path
    → (st : Stack) × (path ≡ render st) × IsCanonical size st × (length path < size)
resolve_path-IsCanonical cwd arg size {path} h e =
    elim (Option-cases (walk size (target cwd arg) [])) [
      | inl n ↦ absurd (ground (arith, resolve_path-walk cwd arg size h))
      | inr (st, n) ↦
          let k =
            walk-IsCanonical size (target cwd arg) [] st (target-IsComponent cwd arg) (tt, tt) n in
          let whole : path ≡ render st = ground (arith, resolve_path-walk cwd arg size h) in
          (st, whole, k, subst (λ p. length p < size) (sym whole) (render-Fits size st h k.1))
    ]

spell-cons : (c : Bytes) (st : Stack) → spell (c ∷ st) ≡ spell st ++ (slash ∷ c)
spell-cons c st = unfold spell in refl

walk_one :
    (size : ℕ) (c : Bytes) (st : Stack)
    → IsCanonical size (c ∷ st)
    → walk size (c ∷ []) st ≡ some (c ∷ st)
unfolding walk step
walk_one size c st ((n, h), (l, f)) = ground arith

-- A walk along the text of a canonical stack builds that stack.
walk-spell :
    (size : ℕ) (st : Stack) → IsCanonical size st → walk size (pieces (spell st)) [] ≡ some st
walk-spell size [] k = unfold spell pieces walk in refl
walk-spell size (c ∷ st) ((n, h), (l, f)) =
    rw
      (
        spell-cons c st,
        pieces-append (spell st) c,
        pieces_one c n.0,
        walk-append size (pieces (spell st)) (c ∷ []) [],
        walk-spell size st (h, f),
      )
      (walk_one size c st ((n, h), (l, f)))

walk-render :
    (size : ℕ) (st : Stack) → IsCanonical size st → walk size (pieces (render st)) [] ≡ some st
walk-render size [] k = unfold render pieces walk in refl
walk-render size (c ∷ st) k = unfold render in walk-spell size (c ∷ st) k

render-cons : (c d : Bytes) (st : Stack) → render (c ∷ (d ∷ st)) ≡ render (d ∷ st) ++ (slash ∷ c)
unfolding render
render-cons c d st = spell-cons c (d ∷ st)

render_head : (st : Stack) → (t : Bytes) × (render st ≡ slash ∷ t)
render_head [] = ([], unfold render in refl)
render_head (c ∷ []) = (c, unfold render spell in refl)
render_head (c ∷ (d ∷ st)) =
    let (t, e) = render_head (d ∷ st) in
    (t ++ (slash ∷ c), render-cons c d st ∙ ap (λ u. u ++ (slash ∷ c)) e)

target_absolute : (cwd t : Bytes) → target cwd (some (slash ∷ t)) ≡ pieces (slash ∷ t)
unfolding target
target_absolute cwd t = refl

-- A path that ush_resolve_path returns in a buffer of 2 bytes or more resolves, with the same size,
-- to itself from every directory.
pub resolve_path_idem :
    (cwd cwd' : Bytes) (arg : Option Bytes) (size : ℕ) {path : Bytes}
    → 2 ≤ size
    → resolve_path cwd arg size ≡ some path
    → resolve_path cwd' (some path) size ≡ some path
resolve_path_idem cwd cwd' arg size {path} h e =
    let (st, whole, k, fits) = resolve_path-IsCanonical cwd arg size h e in
    let (t, head) = render_head st in
    let same =
      subst (λ p. target cwd' (some p) ≡ pieces p) (sym (whole ∙ head)) (target_absolute cwd' t) in
    resolve_path-walk cwd' (some path) size h
    ∙ ap (λ cs. draw (walk size cs [])) (same ∙ ap pieces whole)
    ∙ ap draw (walk-render size st k)
    ∙ ap some (sym whole)
