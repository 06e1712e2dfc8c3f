-- ===== src/Runtime/Access/Confined.antt =====
-- A user other than root changes only paths below the directory of temporary files and the own home.
use xiaobai_os.Base.{
  ℕ, ◌≤◌, ◌≡◌, ◌≢◌, ◌↔◌, ◌⊎◌, inl, inr, refl, sym, ap, ◌∙◌, arith, Bool, true, false, ◌||◌, ◌==◌,
  Bool-cases, Option, some, List, [], ◌∷◌, ◌++◌, append-nil, append_assoc, Bytes, codes, All,
  length, drop,
}
use xiaobai_os.Runtime.Resolve.{slash, resolve_path}
use xiaobai_os.Runtime.Resolve.Stack.{IsComponent, spell, render}
use xiaobai_os.Runtime.Resolve.Pieces.{pieces, pieces-append, pieces_one}
use xiaobai_os.Runtime.Resolve.Canonical.{IsName, resolve_path-IsCanonical}
use xiaobai_os.Runtime.Access.{
  starts_with, at_boundary, path_is_under, path_is_under_temp, path_is_under_current_home,
  can_modify_path,
}

-- The text of an absolute path, from its first component on.
unfoldable pub absolute : List Bytes → Bytes
absolute [] = []
absolute (c ∷ cs) = slash ∷ (c ++ absolute cs)

-- The components of the path begin with those of a directory.
abbrev pub Within : List Bytes → Bytes → Type 0
Within dir path = (rest : List Bytes) × (pieces path ≡ dir ++ rest)

abbrev pub temp : Bytes
temp = codes "temp"

abbrev pub home : Bytes
home = codes "home"

starts_with-split :
    (path dir : Bytes) → starts_with path dir ≡ true → path ≡ dir ++ drop (length dir) path
unfolding starts_with
starts_with-split path [] e = refl
starts_with-split [] (d ∷ dir) e = cc
starts_with-split (c ∷ path) (d ∷ dir) e = ground (arith, starts_with-split path dir (ground arith))

starts_with-append : (dir t : Bytes) → starts_with (dir ++ t) dir ≡ true
unfolding starts_with
starts_with-append [] t = refl
starts_with-append (d ∷ dir) t = ground (arith, starts_with-append dir t)

drop-append : (dir t : Bytes) → drop (length dir) (dir ++ t) ≡ t
drop-append [] t = refl
drop-append (d ∷ dir) t = drop-append dir t

boundary : (t : Bytes) → at_boundary t ≡ true → (t ≡ []) ⊎ ((r : Bytes) × (t ≡ slash ∷ r))
unfolding at_boundary
boundary [] e = inl refl
boundary (c ∷ t) e = inr (t, ground arith)

under-split :
    (dir path : Bytes)
    → path_is_under dir path ≡ true
    → (path ≡ dir ++ []) ⊎ ((r : Bytes) × (path ≡ dir ++ (slash ∷ r)))
unfolding path_is_under
under-split dir path e = elim (Bool-cases (starts_with path dir)) [
  | inr p ↦ absurd (ground arith)
  | inl p ↦
      let whole = starts_with-split path dir p in
      elim (boundary (drop (length dir) path) (ground arith)) [
        | inl q ↦ inl (whole ∙ ap (λ t. dir ++ t) q)
        | inr (r, q) ↦ inr (r, whole ∙ ap (λ t. dir ++ t) q)
      ]
]

under-append : (dir t : Bytes) → at_boundary t ≡ true → path_is_under dir (dir ++ t) ≡ true
unfolding path_is_under
under-append dir t e = rw (starts_with-append dir t, drop-append dir t) e

pieces_nil : pieces [] ≡ []
unfolding pieces
pieces_nil = refl

pieces-slash : (t : Bytes) → pieces (slash ∷ t) ≡ pieces t
pieces-slash t = pieces-append [] t ∙ ap (λ r. r ++ pieces t) pieces_nil

pieces_first :
    (c : Bytes) (t : Bytes) → IsComponent c → pieces (slash ∷ (c ++ (slash ∷ t))) ≡ c ∷ pieces t
pieces_first c t ok =
    pieces-slash _ ∙ pieces-append c t ∙ ap (λ cs. cs ++ pieces t) (pieces_one c ok)

pieces-absolute :
    (cs : List Bytes) (t : Bytes)
    → All IsComponent cs
    → pieces (absolute cs ++ (slash ∷ t)) ≡ cs ++ pieces t
unfolding absolute
pieces-absolute [] t h = pieces-slash t
pieces-absolute (c ∷ []) t (ok, h) = rw (append-nil c) (pieces_first c t ok)
pieces-absolute (c ∷ (d ∷ cs)) t (ok, h) =
    rw
      (
        append_assoc c (absolute (d ∷ cs)) (slash ∷ t),
        pieces_first c ((d ++ absolute cs) ++ (slash ∷ t)) ok,
      )
      (ap (λ r. c ∷ r)
        (sym (pieces-slash ((d ++ absolute cs) ++ (slash ∷ t))) ∙ pieces-absolute (d ∷ cs) t h))

-- A slash behind a path adds no component.
pieces-behind : (t : Bytes) → pieces (t ++ (slash ∷ [])) ≡ pieces t
pieces-behind t = pieces-append t [] ∙ ap (λ r. pieces t ++ r) pieces_nil ∙ append-nil (pieces t)

under-Within :
    (dir : List Bytes) (path : Bytes)
    → All IsComponent dir
    → path_is_under (absolute dir) path ≡ true
    → Within dir path
under-Within dir path h e = elim (under-split (absolute dir) path e) [
  | inl p ↦ (
    [],
    ap pieces (p ∙ append-nil (absolute dir))
        ∙ sym (pieces-behind (absolute dir))
        ∙ pieces-absolute dir [] h
        ∙ ap (λ r. dir ++ r) pieces_nil,
  )
  | inr (r, p) ↦ (pieces r, ap pieces p ∙ pieces-absolute dir r h)
]

absolute-append : (cs ds : List Bytes) → absolute (cs ++ ds) ≡ absolute cs ++ absolute ds
unfolding absolute
absolute-append [] ds = refl
absolute-append (c ∷ cs) ds =
    ap (λ t. slash ∷ (c ++ t)) (absolute-append cs ds)
    ∙ ap (λ t. slash ∷ t) (sym (append_assoc c (absolute cs) (absolute ds)))

spell-absolute : (st : List Bytes) → All IsName st → spell st ≡ absolute (pieces (spell st))
spell-absolute [] h = unfold spell pieces absolute in refl
spell-absolute (c ∷ st) (n, h) =
    let split : spell (c ∷ st) ≡ spell st ++ (slash ∷ c) = unfold spell in refl in
    rw
      (
        split,
        pieces-append (spell st) c,
        pieces_one c n.0,
        absolute-append (pieces (spell st)) (c ∷ []),
        ← spell-absolute st h,
      )
      (unfold absolute in rw (append-nil c) refl)

boundary-absolute : (cs : List Bytes) → at_boundary (absolute cs) ≡ true
unfolding at_boundary absolute
boundary-absolute [] = refl
boundary-absolute (c ∷ cs) = refl

Within-under :
    (d : Bytes) (dir st : List Bytes)
    → All IsName st
    → Within (d ∷ dir) (render st)
    → path_is_under (absolute (d ∷ dir)) (render st) ≡ true
Within-under d dir [] h (rest, e) =
    let none_left : pieces (render []) ≡ [] = unfold render pieces in refl in absurd (cc)
Within-under d dir (c ∷ st) h (rest, e) =
    let text : render (c ∷ st) ≡ spell (c ∷ st) = unfold render in refl in
    let whole : spell (c ∷ st) ≡ absolute (d ∷ dir) ++ absolute rest =
      spell-absolute (c ∷ st) h
      ∙ ap absolute (ap pieces (sym text) ∙ e)
      ∙ absolute-append (d ∷ dir) rest in
    rw (text, whole) (under-append (absolute (d ∷ dir)) (absolute rest) (boundary-absolute rest))

under_iff :
    (d : Bytes) (dir st : List Bytes)
    → All IsName st
    → All IsComponent (d ∷ dir)
    → (path_is_under (absolute (d ∷ dir)) (render st) ≡ true) ↔ Within (d ∷ dir) (render st)
under_iff d dir st h ok = (under-Within (d ∷ dir) (render st) ok, Within-under d dir st h)

temp_text : absolute (temp ∷ []) ≡ codes "/temp"
unfolding absolute
temp_text = refl

home_text : (name : Bytes) → absolute (home ∷ (name ∷ [])) ≡ codes "/home/" ++ name
unfolding absolute
home_text name = ap (λ t. codes "/home/" ++ t) (append-nil name)

temp-IsComponent : IsComponent temp
temp-IsComponent = ((λ e. cc), (omega arith, (omega arith, (omega arith, (omega arith, tt)))))

home-IsComponent : IsComponent home
home-IsComponent = ((λ e. cc), (omega arith, (omega arith, (omega arith, (omega arith, tt)))))

not_empty : (name : Bytes) → name ≢ [] → (length name == 0) ≡ false
not_empty [] ne = absurd (ne refl)
not_empty (c ∷ name) ne = ground arith

may_modify :
    (uid : ℕ) (name path : Bytes)
    → uid ≢ 0
    → name ≢ []
    → can_modify_path uid name path
      ≡ (path_is_under (codes "/temp") path || path_is_under (codes "/home/" ++ name) path)
unfolding can_modify_path path_is_under_temp path_is_under_current_home
may_modify uid name path nr ne = ground (arith, not_empty name ne)

or_iff :
    (a b : Bool) {P Q : Type 0} → ((a ≡ true) ↔ P) → ((b ≡ true) ↔ Q) → ((a || b) ≡ true) ↔ (P ⊎ Q)
or_iff true b f g = ((λ e. inl (f.0 refl)), (λ s. refl))
or_iff false true f g = ((λ e. inr (g.0 refl)), (λ s. refl))
or_iff false false f g = ((λ e. cc), (λ s. elim s [ inl p ↦ f.1 p | inr q ↦ g.1 q ]))

-- A user other than root, whose name is a component, may change a path that was resolved in a buffer
-- of 2 bytes or more exactly where its components begin with `temp`, or with `home` and the name.
pub can_modify_path-Within :
    (cwd : Bytes) (arg : Option Bytes) (size uid : ℕ) (name : Bytes) {path : Bytes}
    → 2 ≤ size
    → resolve_path cwd arg size ≡ some path
    → uid ≢ 0
    → IsComponent name
    → (can_modify_path uid name path ≡ true)
      ↔ (Within (temp ∷ []) path ⊎ Within (home ∷ (name ∷ [])) path)
can_modify_path-Within cwd arg size uid name {path} h e nr ok =
    let (st, whole, k, fits) = resolve_path-IsCanonical cwd arg size h e in
    rw (may_modify uid name path nr ok.0, whole, ← temp_text, ← home_text name)
      (or_iff _ _ (under_iff temp [] st k.0 (temp-IsComponent, tt))
        (under_iff home (name ∷ []) st k.0 (home-IsComponent, (ok, tt))))
