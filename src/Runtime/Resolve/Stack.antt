-- ===== src/Runtime/Resolve/Stack.antt =====
-- The path text is a stack of components: pushing and popping on the text are those of the stack.
use xiaobai_os.Base.{
  ℕ, zero, suc, ◌+◌, ◌<◌, ◌≡◌, ◌≢◌, refl, ap, arith, ◌==◌, ltb, if◌then◌else◌, none, some, List, [],
  ◌∷◌, ◌++◌, Bytes, All, length, length-append, get_or-append, take-append, get_or, take,
}
use xiaobai_os.Runtime.Resolve.{slash, push_component, back_to_slash, pop_component}

-- A component as it stands in a path: not empty, and without a slash.
abbrev pub IsComponent : Bytes → Type 0
IsComponent c = (c ≢ []) × All (λ x. x ≢ slash) c

-- The top of the stack stands first.
unfoldable pub spell : List Bytes → Bytes
spell [] = []
spell (c ∷ st) = spell st ++ (slash ∷ c)

-- The path of a stack; that of the empty one is the root.
unfoldable pub render : List Bytes → Bytes
unfolding spell
render [] = slash ∷ []
render (c ∷ st) = spell (c ∷ st)

length-spell :
    (c : Bytes) (st : List Bytes) → length (spell (c ∷ st)) ≡ length (spell st) + 1 + length c
unfolding spell
length-spell c st = omega (arith, length-append (spell st) (slash ∷ c))

length_pos : (c : Bytes) → c ≢ [] → 0 < length c
length_pos [] ne = absurd (ne refl)
length_pos (x ∷ c) ne = omega arith

pub push_component-render :
    (size : ℕ) (c : Bytes) (st : List Bytes)
    → IsComponent c
    → All IsComponent st
    → push_component size (render st) c
      ≡ (if ltb (length (render (c ∷ st))) size then some (render (c ∷ st)) else none)
unfolding push_component render
push_component-render size c [] (ne, ok) h = ground (arith, length_pos c ne)
push_component-render size c (d ∷ st) (ne, ok) ((ne', ok'), h) =
    ground (arith, length_pos c ne, length_pos d ne', length-spell c (d ∷ st), length-spell d st)

no_slash : (c : Bytes) (j : ℕ) → All (λ x. x ≢ slash) c → get_or c j 0 ≢ slash
no_slash [] j h = omega arith
no_slash (x ∷ c) zero (p, h) = p
no_slash (x ∷ c) (suc j) (p, h) = no_slash c j h

-- Going back from inside the last component ends at the slash in front of it.
back_to_slash-spell :
    (u c : Bytes) (j k : ℕ)
    → All (λ x. x ≢ slash) c
    → k ≡ length u + j
    → back_to_slash (suc k) (u ++ (slash ∷ c)) ≡ suc (length u)
unfolding back_to_slash
back_to_slash-spell u c zero k h e = ground (arith, get_or-append u (slash ∷ c) k 0 e)
back_to_slash-spell u c (suc j) zero h e = absurd (omega arith)
back_to_slash-spell u c (suc j) (suc k) h e = ground (
  arith,
  get_or-append u (slash ∷ c) (suc k) (suc j) e,
  no_slash c j h,
  back_to_slash-spell u c j k h (omega arith),
)

nil_of_length : (u : Bytes) → length u ≡ 0 → u ≡ []
nil_of_length [] e = refl
nil_of_length (x ∷ u) e = absurd (omega arith)

take-append_suc : (u v : Bytes) (x : ℕ) → take (suc (length u)) (u ++ (x ∷ v)) ≡ u ++ (x ∷ [])
take-append_suc [] v x = refl
take-append_suc (y ∷ u) v x = ap (λ t. y ∷ t) (take-append_suc u v x)

-- Popping removes the last slash and what is behind it, but for the slash of the root.
pop_behind :
    (u c : Bytes)
    → IsComponent c
    → pop_component (u ++ (slash ∷ c)) ≡ (if length u == 0 then slash ∷ [] else u)
unfolding pop_component
pop_behind u c (ne, ok) =
    let e : length (u ++ (slash ∷ c)) ≡ suc (length u + length c) =
      omega (arith, length-append u (slash ∷ c)) in
    let back = back_to_slash-spell u c (length c) (length u + length c) ok refl in
    rw (e, back)
      (ground (
        arith,
        length_pos c ne,
        take-append u (slash ∷ c),
        take-append_suc u c slash,
        nil_of_length u,
      ))

pub pop_component-render :
    (c : Bytes) (st : List Bytes)
    → All IsComponent (c ∷ st)
    → pop_component (render (c ∷ st)) ≡ render st
unfolding render spell
pop_component-render c [] (ok, h) = ground (arith, pop_behind [] c ok)
pop_component-render c (d ∷ st) (ok, h) =
    ground (arith, pop_behind (spell st ++ (slash ∷ d)) c ok, length-append (spell st) (slash ∷ d))

pub pop_component_root : pop_component (render []) ≡ render []
unfolding pop_component render
pop_component_root = refl
