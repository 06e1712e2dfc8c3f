-- ===== src/Runtime/Resolve/Walk.antt =====
-- Resolution as a walk over the components of a text, with a stack in place of the path text.
use xiaobai_os.Base.{
  ℕ, ◌≤◌, ◌≡◌, refl, inl, inr, arith, ◌==◌, ltb, if◌then◌else◌, Bool-cases, Option-cases, subst,
  Option, none, some, ◌>>=◌, List, [], ◌∷◌, ◌++◌, Bytes, All, length,
}
use xiaobai_os.Runtime.Resolve.{
  slash, is_dot, is_dot_dot, enter, parse_from, parse_into, resolve_path,
}
use xiaobai_os.Runtime.Resolve.Pieces.{
  pieces_from, pieces, pieces-IsComponent, Pending, behind-IsComponent,
}
use xiaobai_os.Runtime.Resolve.Stack.{
  IsComponent, render, push_component-render, pop_component-render, pop_component_root,
}

abbrev pub Stack : Type 0
Stack = List Bytes

abbrev pub pop : Stack → Stack
pop [] = []
pop (c ∷ st) = st

-- One component: `.` stays, `..` goes up but not above the root, and any other is pushed where the
-- path then fits the buffer with its NUL.
unfoldable pub step : ℕ → Bytes → Stack → Option Stack
step size c st =
    if is_dot c
    then some st
    else if is_dot_dot c
    then some (pop st)
    else if ltb (length (render (c ∷ st))) size
    then some (c ∷ st)
    else none

unfoldable pub walk : ℕ → List Bytes → Stack → Option Stack
walk size [] st = some st
walk size (c ∷ cs) st = step size c st >>= λ st'. walk size cs st'

abbrev pub draw : Option Stack → Option Bytes
draw none = none
draw (some st) = some (render st)

enter-step :
    (size : ℕ) (c : Bytes) (st : Stack)
    → IsComponent c
    → All IsComponent st
    → enter size c (render st) ≡ draw (step size c st)
unfolding step
enter-step size c [] ok h =
    unfold enter in ground (arith, push_component-render size c [] ok h, pop_component_root)
enter-step size c (d ∷ st) ok h =
    unfold enter in
    ground (arith, push_component-render size c (d ∷ st) ok h, pop_component-render d st h)

pop-IsComponent : (st : Stack) → All IsComponent st → All IsComponent (pop st)
pop-IsComponent [] h = h
pop-IsComponent (c ∷ st) (ok, h) = h

pub step-IsComponent :
    (size : ℕ) (c : Bytes) (st st' : Stack)
    → IsComponent c
    → All IsComponent st
    → step size c st ≡ some st'
    → All IsComponent st'
unfolding step
step-IsComponent size c st st' ok h e = elim (Bool-cases (is_dot c)) [
  | inl p ↦ subst (All IsComponent) (ground arith) h
  | inr p ↦ elim (Bool-cases (is_dot_dot c)) [
    | inl q ↦ subst (All IsComponent) (ground arith) (pop-IsComponent st h)
    | inr q ↦ let e' : c ∷ st ≡ st' = ground arith in subst (All IsComponent) e' (ok, h)
  ]
]

parse_from-walk :
    (size : ℕ) (s : Bytes) (mode : Option Bytes) (st : Stack)
    → Pending mode
    → All IsComponent st
    → parse_from size s mode (render st) ≡ draw (walk size (pieces_from s mode) st)
unfolding parse_from walk pieces_from
parse_from-walk size [] none st ok h = refl
parse_from-walk size [] (some c) st ok h = elim (Option-cases (step size c st)) [
  | inl e ↦ ground (arith, enter-step size c st ok h)
  | inr (st', e) ↦ ground (arith, enter-step size c st ok h)
]
parse_from-walk size (x ∷ s) none st ok h = elim (Bool-cases (x == slash)) [
  | inl p ↦ rw p (parse_from-walk size s none st tt h)
  | inr p ↦ rw p (parse_from-walk size s (some (x ∷ [])) st ((λ e. cc), (ground arith, tt)) h)
]
parse_from-walk size (x ∷ s) (some c) st ok h = elim (Bool-cases (x == slash)) [
  | inl p ↦ elim (Option-cases (step size c st)) [
    | inl e ↦ ground (arith, enter-step size c st ok h)
    | inr (st', e) ↦ ground (
      arith,
      enter-step size c st ok h,
      parse_from-walk size s none st' tt (step-IsComponent size c st st' ok h e),
    )
  ]
  | inr p ↦
      let ok' = behind-IsComponent c x ok (ground arith) in
      ground (arith, parse_from-walk size s (some (c ++ (x ∷ []))) st ok' h)
]

pub parse_into-walk :
    (size : ℕ) (s : Bytes) (st : Stack)
    → All IsComponent st
    → parse_into size s (render st) ≡ draw (walk size (pieces s) st)
unfolding parse_into pieces
parse_into-walk size [] st h = parse_from-walk size [] none st tt h
parse_into-walk size (c ∷ s) st h =
    ground (arith, parse_from-walk size s none st tt h, parse_from-walk size (c ∷ s) none st tt h)

pub walk-IsComponent :
    (size : ℕ) (cs : List Bytes) (st st' : Stack)
    → All IsComponent cs
    → All IsComponent st
    → walk size cs st ≡ some st'
    → All IsComponent st'
unfolding walk
walk-IsComponent size [] st st' hc h e = subst (All IsComponent) (ground arith) h
walk-IsComponent size (c ∷ cs) st st' (ok, hc) h e = elim (Option-cases (step size c st)) [
  | inl n ↦ absurd (ground arith)
  | inr (t, n) ↦
      walk-IsComponent size cs t st' hc (step-IsComponent size c st t ok h n) (ground arith)
]

-- The text that a call resolves from the root: the argument if it is absolute, and else the current
-- directory's components before the argument's.
unfoldable pub target : Bytes → Option Bytes → List Bytes
target cwd none = pieces cwd
target cwd (some []) = pieces cwd
target cwd (some (c ∷ arg)) =
    if c == slash then pieces (c ∷ arg) else pieces cwd ++ pieces (c ∷ arg)

pub walk-append :
    (size : ℕ) (cs ds : List Bytes) (st : Stack)
    → walk size (cs ++ ds) st ≡ (walk size cs st >>= λ st'. walk size ds st')
unfolding walk
walk-append size [] ds st = refl
walk-append size (c ∷ cs) ds st = elim (Option-cases (step size c st)) [
  | inl n ↦ ground arith
  | inr (t, n) ↦ ground (arith, walk-append size cs ds t)
]

-- With a buffer of 2 bytes or more, ush_resolve_path is the walk over the components of its argument
-- from the root, or from the current directory for a relative one: it fails exactly where the walk
-- does, for want of room.
pub resolve_path-walk :
    (cwd : Bytes) (arg : Option Bytes) (size : ℕ)
    → 2 ≤ size
    → resolve_path cwd arg size ≡ draw (walk size (target cwd arg) [])
unfolding resolve_path target render
resolve_path-walk cwd none size h = ground (arith, parse_into-walk size cwd [] tt)
resolve_path-walk cwd (some []) size h = ground (arith, parse_into-walk size cwd [] tt)
resolve_path-walk cwd (some (c ∷ arg)) size h = elim (Option-cases (walk size (pieces cwd) [])) [
  | inl n ↦ ground (
    arith,
    parse_into-walk size cwd [] tt,
    parse_into-walk size (c ∷ arg) [] tt,
    walk-append size (pieces cwd) (pieces (c ∷ arg)) [],
  )
  | inr (st, n) ↦
      let ok = walk-IsComponent size (pieces cwd) [] st (pieces-IsComponent cwd) tt n in
      ground (
        arith,
        parse_into-walk size cwd [] tt,
        parse_into-walk size (c ∷ arg) [] tt,
        parse_into-walk size (c ∷ arg) st ok,
        walk-append size (pieces cwd) (pieces (c ∷ arg)) [],
      )
]
