-- ===== src/Libc/Searching/Substring.antt =====
-- strstr finds the first place where the needle stands.
use xiaobai_os.Base.{
  ℕ, suc, ◌+◌, ◌≤◌, ◌≡◌, ◌≢◌, refl, ap, inl, inr, arith, ◌==◌, Bool, true, false, Bool-cases, ◌&&◌,
  some, [], ◌∷◌, ◌++◌, append_assoc, ◌∙◌, Bytes, NoNul, length,
}
use xiaobai_os.Libc.Pointer.{Ptr, null, text}
use xiaobai_os.Libc.Copying.Laws.{strlen-text}
use xiaobai_os.Libc.Searching.{at, agrees, str_from, strstr}

-- Whether the needle stands at the start of the string.
pub is_prefix : Bytes → Bytes → Bool
is_prefix [] s = true
is_prefix (d ∷ n) [] = false
is_prefix (d ∷ n) (c ∷ s) = c == d && is_prefix n s

is_prefix-append : (n s : Bytes) → is_prefix n (n ++ s) ≡ true
unfolding is_prefix
is_prefix-append [] s = refl
is_prefix-append (d ∷ n) s = ground (arith, is_prefix-append n s)

is_prefix-split : (n s : Bytes) → is_prefix n s ≡ true → (v : Bytes) × (s ≡ n ++ v)
unfolding is_prefix
is_prefix-split [] s h = (s, refl)
is_prefix-split (d ∷ n) [] h = absurd (ground arith)
is_prefix-split (d ∷ n) (c ∷ s) h =
    let ih = is_prefix-split n s (ground arith) in (ih.0, ground (arith, ih.1))

agrees-is_prefix :
    (n s rest more : Bytes)
    → NoNul n
    → NoNul s
    → agrees (length n) (s ++ (0 ∷ rest)) (n ++ more) ≡ some (is_prefix n s)
unfolding agrees is_prefix
agrees-is_prefix [] s rest more hn h = refl
agrees-is_prefix (d ∷ n) [] rest more hn h = ground arith
agrees-is_prefix (d ∷ n) (c ∷ s) rest more (dn, hn) (cn, h) =
    ground (arith, agrees-is_prefix n s rest more hn h)

-- Where the search for the needle `n` in the string `s` at `a` ends: at its first place, or nowhere.
pub data FirstOf (a : ℕ) (n s rest : Bytes) : Ptr → Type 0 where
  found :
      (p : Ptr) (u v : Bytes)
      → s ≡ u ++ (n ++ v)
      → p.addr ≡ a + length u
      → p.bytes ≡ n ++ (v ++ (0 ∷ rest))
      → ((u' v' : Bytes) → s ≡ u' ++ (n ++ v') → length u ≤ length u')
      → FirstOf a n s rest p
  missing : ((u v : Bytes) → s ≢ u ++ (n ++ v)) → FirstOf a n s rest null

-- A place in `c ∷ s` is the start, where the needle then is a prefix, or a place in `s`.
place-cons :
    (d c : ℕ) (n s u v : Bytes)
    → is_prefix (d ∷ n) (c ∷ s) ≡ false
    → c ∷ s ≡ u ++ ((d ∷ n) ++ v)
    → (u' : Bytes) × (length u ≡ suc (length u')) × (s ≡ u' ++ ((d ∷ n) ++ v))
place-cons d c n s [] v np e = absurd (cc (is_prefix-append (d ∷ n) v))
place-cons d c n s (x ∷ u) v np e = (u, refl, cc)

FirstOf-cons :
    (a d c : ℕ) (n s rest : Bytes) (p : Ptr)
    → is_prefix (d ∷ n) (c ∷ s) ≡ false
    → FirstOf (a + 1) (d ∷ n) s rest p
    → FirstOf a (d ∷ n) (c ∷ s) rest p
FirstOf-cons a d c n s rest p np (found q u v e ha hb first) =
    found q (c ∷ u) v (ap (λ t. c ∷ t) e) (omega arith) hb λ u' v' e'.
      let (w, len, e'') = place-cons d c n s u' v' np e' in omega (arith, first w v' e'')
FirstOf-cons a d c n s rest p np (missing nowhere) =
    missing λ u v e. let (w, len, e') = place-cons d c n s u v np e in nowhere w v e'

str_from-FirstOf :
    (a d : ℕ) (n s rest more : Bytes)
    → NoNul (d ∷ n)
    → NoNul s
    → (p : Ptr) × (str_from d (length n) (n ++ more) a (s ++ (0 ∷ rest)) ≡ some p)
      × FirstOf a (d ∷ n) s rest p
unfolding str_from is_prefix
str_from-FirstOf a d n [] rest more hn h = (null, ground arith, missing λ u v e. nil_ne u v e)
  where
    nil_ne : (u v : Bytes) → [] ≢ u ++ ((d ∷ n) ++ v)
    nil_ne [] v e = cc
    nil_ne (x ∷ u) v e = cc
str_from-FirstOf a d n (c ∷ s) rest more (dn, hn) (cn, h) =
    elim (Bool-cases (is_prefix (d ∷ n) (c ∷ s))) [
      | inl hit ↦
          let (v, e) = is_prefix-split (d ∷ n) (c ∷ s) hit in
          (
            at a (c ∷ (s ++ (0 ∷ rest))),
            ground (arith, agrees-is_prefix n s rest more hn h),
            found _ [] v e (omega arith)
                (ap (λ t. t ++ (0 ∷ rest)) e ∙ append_assoc (d ∷ n) v (0 ∷ rest))
                (λ u' v' _. omega arith),
          )
      | inr miss ↦
          let (p, e, f) = str_from-FirstOf (a + 1) d n s rest more (dn, hn) h in
          (
            p,
            ground (arith, agrees-is_prefix n s rest more hn h),
            FirstOf-cons a d c n s rest p miss f,
          )
    ]

-- strstr of two C strings returns the first place where the needle stands in the text, the start for
-- an empty needle, or null if it stands nowhere. The pointers are not null.
pub strstr-FirstOf :
    (a b : ℕ) (s n rest more : Bytes)
    → a ≢ 0
    → b ≢ 0
    → NoNul s
    → NoNul n
    → (p : Ptr) × (strstr (text a s rest) (text b n more) ≡ some p) × FirstOf a n s rest p
unfolding strstr
strstr-FirstOf a b s [] rest more ha hb hs hn = (
  text a s rest,
  ground (arith, strlen-text b [] more hb hn),
  found _ [] s refl (omega arith) refl (λ u' v' _. omega arith),
)
strstr-FirstOf a b s (d ∷ n) rest more ha hb hs hn =
    let (p, e, f) = str_from-FirstOf a d n s rest (0 ∷ more) hn hs in
    (p, ground (arith, strlen-text b (d ∷ n) more hb hn), f)
