-- ===== src/Runtime/Resolve/Pieces.antt =====
-- The components of a text of xiaobaios/apps/cmd_runtime.c's path resolution.
use xiaobai_os.Base.{
  ℕ, ◌≡◌, ◌≢◌, refl, sym, ap, append-nil, inl, inr, arith, true, false, ◌==◌, if◌then◌else◌,
  Bool-cases, Option, none, some, List, [], ◌∷◌, ◌++◌, append_assoc, Bytes, All, All-append,
}
use mathlib.Core.List.{concat-ne-nil}
use xiaobai_os.Runtime.Resolve.{slash}
use xiaobai_os.Runtime.Resolve.Stack.{IsComponent}

-- The components of a text: its longest runs without a slash.
unfoldable pub pieces_from : Bytes → Option Bytes → List Bytes
pieces_from [] none = []
pieces_from [] (some c) = c ∷ []
pieces_from (x ∷ s) none = pieces_from s (if x == slash then none else some (x ∷ []))
pieces_from (x ∷ s) (some c) = elim (x == slash) [
  | true ↦ c ∷ pieces_from s none
  | false ↦ pieces_from s (some (c ++ (x ∷ [])))
]

unfoldable pub pieces : Bytes → List Bytes
unfolding pieces_from
pieces s = pieces_from s none

pub behind-IsComponent :
    (c : Bytes) (x : ℕ) → IsComponent c → x ≢ slash → IsComponent (c ++ (x ∷ []))
behind-IsComponent c x (ne, ok) nx = (concat-ne-nil x c, All-append _ c (x ∷ []) ok (nx, tt))

-- A component in progress, if any, is one.
abbrev pub Pending : Option Bytes → Type 0
Pending none = Unit
Pending (some c) = IsComponent c

pieces_from-IsComponent :
    (s : Bytes) (mode : Option Bytes) → Pending mode → All IsComponent (pieces_from s mode)
unfolding pieces_from
pieces_from-IsComponent [] none ok = tt
pieces_from-IsComponent [] (some c) ok = (ok, tt)
pieces_from-IsComponent (x ∷ s) none ok = elim (Bool-cases (x == slash)) [
  | inl p ↦ rw p (pieces_from-IsComponent s none tt)
  | inr p ↦ rw p (pieces_from-IsComponent s (some (x ∷ [])) ((λ e. cc), (ground arith, tt)))
]
pieces_from-IsComponent (x ∷ s) (some c) ok = elim (Bool-cases (x == slash)) [
  | inl p ↦ rw (p, pieces_from) (ok, pieces_from-IsComponent s none tt)
  | inr p ↦
      rw (p, pieces_from)
        (pieces_from-IsComponent s (some (c ++ (x ∷ [])))
          (behind-IsComponent c x ok (ground arith)))
]

pub pieces-IsComponent : (s : Bytes) → All IsComponent (pieces s)
unfolding pieces
pieces-IsComponent s = pieces_from-IsComponent s none tt

pieces_from-append :
    (u v : Bytes) (mode : Option Bytes)
    → pieces_from (u ++ (slash ∷ v)) mode ≡ pieces_from u mode ++ pieces_from v none
unfolding pieces_from
pieces_from-append [] v none = refl
pieces_from-append [] v (some c) = refl
pieces_from-append (x ∷ u) v none =
    pieces_from-append u v (if x == slash then none else some (x ∷ []))
pieces_from-append (x ∷ u) v (some c) = elim (Bool-cases (x == slash)) [
  | inl p ↦ rw (p, pieces_from) (ap (λ t. c ∷ t) (pieces_from-append u v none))
  | inr p ↦ rw (p, pieces_from) (pieces_from-append u v (some (c ++ (x ∷ []))))
]

pieces_from-rest :
    (c acc : Bytes) → All (λ x. x ≢ slash) c → pieces_from c (some acc) ≡ (acc ++ c) ∷ []
unfolding pieces_from
pieces_from-rest [] acc h = ap (λ t. t ∷ []) (sym (append-nil acc))
pieces_from-rest (x ∷ c) acc (ne, h) =
    ground (arith, pieces_from-rest c (acc ++ (x ∷ [])) h, append_assoc acc (x ∷ []) c)

-- A slash separates the components of what stands around it.
pub pieces-append : (u v : Bytes) → pieces (u ++ (slash ∷ v)) ≡ pieces u ++ pieces v
unfolding pieces
pieces-append u v = pieces_from-append u v none

pub pieces_one : (c : Bytes) → IsComponent c → pieces c ≡ c ∷ []
unfolding pieces
pieces_one [] (ne, h) = absurd (ne refl)
pieces_one (x ∷ c) (ne, (nx, h)) = ground (arith, pieces_from-rest c (x ∷ []) h)
