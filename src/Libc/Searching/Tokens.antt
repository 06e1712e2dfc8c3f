-- ===== src/Libc/Searching/Tokens.antt =====
-- What one call of strtok_r takes from a C string.
use xiaobai_os.Base.{
  ℕ, ◌+◌, ◌≡◌, ◌≢◌, refl, sym, ap, subst, append-nil, ◌∙◌, arith, true, false, some, [], ◌∷◌, ◌++◌,
  append_assoc, Bytes, NoNul, All, All-imp, length, drop, set,
}
use xiaobai_os.Libc.Pointer.{Ptr, null, text, advance}
use xiaobai_os.Libc.Copying.Laws.{drop-text}
use xiaobai_os.Libc.Searching.{same, first_byte, end_token, take_token, tok_from, Token, strtok_r}
use xiaobai_os.Libc.Searching.Spans.{member, Stops, span, span_from-span, split}

-- The token of the string `s` at `a`, where `rest` stands behind its NUL: the characters in front of
-- it are all delimiters, it has none and is not empty, and the next call goes on behind it.
pub data TokenOf (a : ℕ) (d s rest : Bytes) : Token → Type 0 where
  none_left :
      All (λ c. member c d ≡ true) s
      → TokenOf a d s rest (record { start = null; save = text (a + length s) [] rest })
  last :
      (u tok : Bytes)
      → s ≡ u ++ tok
      → tok ≢ []
      → All (λ c. member c d ≡ true) u
      → All (λ c. member c d ≡ false) tok
      → TokenOf a d s rest (record {
        start = text (a + length u) tok rest;
        save = text (a + length u + length tok) [] rest;
      })
  cut :
      (u tok w : Bytes) (x : ℕ)
      → s ≡ u ++ (tok ++ (x ∷ w))
      → tok ≢ []
      → member x d ≡ true
      → All (λ c. member c d ≡ true) u
      → All (λ c. member c d ≡ false) tok
      → TokenOf a d s rest (record {
        start = text (a + length u) tok (w ++ (0 ∷ rest));
        save = text (a + length u + length tok + 1) w rest;
      })

advance-text :
    (a : ℕ) (u v rest : Bytes)
    → advance (text a (u ++ v) rest) (length u) ≡ text (a + length u) v rest
advance-text a u v rest =
    ap (λ b. record { addr = a + length u; bytes = b })
      (ap (drop (length u)) (append_assoc u v (0 ∷ rest)) ∙ drop-text u (v ++ (0 ∷ rest)))

set_behind : (u v : Bytes) (x y : ℕ) → set (u ++ (x ∷ v)) (length u) y ≡ u ++ (y ∷ v)
set_behind [] v x y = refl
set_behind (c ∷ u) v x y = ap (λ t. c ∷ t) (set_behind u v x y)

end_token-last :
    (a : ℕ) (tok rest : Bytes)
    → end_token (text a tok rest) (length tok)
      ≡ some (record { start = text a tok rest; save = text (a + length tok) [] rest })
unfolding end_token first_byte
end_token-last a tok rest = rw (drop-text tok (0 ∷ rest))

end_token-cut :
    (a : ℕ) (tok w rest : Bytes) (x : ℕ)
    → x ≢ 0
    → end_token (text a (tok ++ (x ∷ w)) rest) (length tok)
      ≡ some
          (record { start = text a tok (w ++ (0 ∷ rest)); save = text (a + length tok + 1) w rest })
unfolding end_token first_byte
end_token-cut a tok w rest x nz =
    rw
      (
        append_assoc tok (x ∷ w) (0 ∷ rest),
        drop-text tok (x ∷ (w ++ (0 ∷ rest))),
        set_behind tok (w ++ (0 ∷ rest)) x 0,
      )
      (ground arith)

NoNul-append : (u v : Bytes) → NoNul (u ++ v) → NoNul v
NoNul-append [] v h = h
NoNul-append (c ∷ u) v (p, h) = NoNul-append u v h

not_empty :
    (d t w : Bytes) (x y : ℕ) (tok : Bytes)
    → x ∷ t ≡ tok ++ (y ∷ w)
    → member x d ≡ false
    → member y d ≡ true
    → tok ≢ []
not_empty d t w x y [] e hx hy _ = cc
not_empty d t w x y (c ∷ tok) e hx hy q = cc

not_empty_last : (t : Bytes) (x : ℕ) (tok : Bytes) → x ∷ t ≡ tok → tok ≢ []
not_empty_last t x tok e q = cc

-- The token that begins at `x`, its end found by the measure of its split.
end_token-TokenOf :
    (a : ℕ) (d u rest : Bytes) (x : ℕ) (t : Bytes)
    → All (λ c. member c d ≡ true) u
    → NoNul (x ∷ t)
    → member x d ≡ false
    → (tok w : Bytes) → x ∷ t ≡ tok ++ w
    → All (λ c. member c d ≡ false) tok
    → Stops d false w
    → (z : Token) × (end_token (text (a + length u) (x ∷ t) rest) (length tok) ≡ some z)
      × TokenOf a d (u ++ (x ∷ t)) rest z
end_token-TokenOf a d u rest x t hu nz hx tok [] e ht stop = (
  record { start = text (a + length u) tok rest; save = text (a + length u + length tok) [] rest },
  subst
      (λ l.
        end_token (text (a + length u) l rest) (length tok)
        ≡ some (record {
          start = text (a + length u) tok rest;
          save = text (a + length u + length tok) [] rest;
        }))
      (sym whole) (end_token-last (a + length u) tok rest),
  last u tok (ap (λ l. u ++ l) whole) (not_empty_last t x tok whole) hu ht,
)
  where
    whole : x ∷ t ≡ tok
    whole = e ∙ append-nil tok
end_token-TokenOf a d u rest x t hu nz hx tok (y ∷ w) e ht stop = (
  record {
    start = text (a + length u) tok (w ++ (0 ∷ rest));
    save = text (a + length u + length tok + 1) w rest;
  },
  subst
      (λ l.
        end_token (text (a + length u) l rest) (length tok)
        ≡ some (record {
          start = text (a + length u) tok (w ++ (0 ∷ rest));
          save = text (a + length u + length tok + 1) w rest;
        }))
      (sym e) (end_token-cut (a + length u) tok w rest y nonzero),
  cut u tok w y (ap (λ l. u ++ l) e) (not_empty d t w x y tok e hx delimits) delimits hu ht,
)
  where
    delimits : member y d ≡ true
    delimits = ground arith

    nonzero : y ≢ 0
    nonzero = (NoNul-append tok (y ∷ w) (subst NoNul e nz)).0

module _ (b : ℕ) (d more : Bytes) (hb : b ≢ 0) (hd : NoNul d) where
  take_token-cons :
      (a x : ℕ) (t rest : Bytes)
      → NoNul (x ∷ t)
      → take_token (text b d more) (text a (x ∷ t) rest)
        ≡ end_token (text a (x ∷ t) rest) (span d false (x ∷ t))
  unfolding take_token first_byte
  take_token-cons a x t rest h =
      ground (arith, span_from-span b d more false (x ∷ t) rest 0 hb hd h)

  take_token-nil :
      (a : ℕ) (rest : Bytes)
      → take_token (text b d more) (text a [] rest)
        ≡ some (record { start = null; save = text a [] rest })
  unfolding take_token first_byte
  take_token-nil a rest = refl

  outside : (c : ℕ) → same false (member c d) ≡ true → member c d ≡ false
  outside c k = ground arith

  tok_from-skip :
      (a : ℕ) (u v rest : Bytes)
      → NoNul (u ++ v)
      → span d true (u ++ v) ≡ length u
      → tok_from (text b d more) (text a (u ++ v) rest)
        ≡ take_token (text b d more) (text (a + length u) v rest)
  unfolding tok_from
  tok_from-skip a u v rest h m =
      rw (span_from-span b d more true (u ++ v) rest 0 hb hd h, m, ← advance-text a u v rest)
        (ground arith)

  tok_from-TokenOf :
      (a : ℕ) (u v rest : Bytes)
      → NoNul (u ++ v)
      → span d true (u ++ v) ≡ length u
      → All (λ c. member c d ≡ true) u
      → Stops d true v
      → (z : Token) × (tok_from (text b d more) (text a (u ++ v) rest) ≡ some z)
        × TokenOf a d (u ++ v) rest z
  tok_from-TokenOf a u [] rest h m hu stop =
      let nothing : Token = record { start = null; save = text (a + length u) [] rest } in
      (
        nothing,
        tok_from-skip a u [] rest h m ∙ take_token-nil (a + length u) rest,
        subst (λ l. TokenOf a d l rest nothing) (sym (append-nil u)) (none_left hu),
      )
  tok_from-TokenOf a u (x ∷ t) rest h m hu stop =
      let sp = split d false (x ∷ t) in
      let (z, e, tk) =
        end_token-TokenOf a d u rest x t hu (NoNul-append u (x ∷ t) h) stop sp.start sp.rest
          sp.whole (All-imp (λ c k. outside c k) sp.start sp.kind) sp.stops in
      (
        z,
        tok_from-skip a u (x ∷ t) rest h m
            ∙ take_token-cons (a + length u) x t rest (NoNul-append u (x ∷ t) h)
            ∙ ap (end_token _) sp.measure
            ∙ e,
        tk,
      )

-- strtok_r on a C string takes its first token: it skips the delimiters in front, ends the token
-- with a NUL over the delimiter behind it, and saves the place after that; with no token left it
-- returns null. Given no string it goes on, in the same way, from the saved place. The string and
-- the delimiters are not null.
pub strtok_r-TokenOf :
    (a b : ℕ) (s rest d more : Bytes) (saved : Ptr)
    → a ≢ 0
    → b ≢ 0
    → NoNul s
    → NoNul d
    → (z : Token) × (strtok_r (text a s rest) (text b d more) saved ≡ some z)
      × (strtok_r null (text b d more) (text a s rest) ≡ some z)
      × TokenOf a d s rest z
unfolding strtok_r
strtok_r-TokenOf a b s rest d more saved ha hb hs hd =
    let sp = split d true s in
    let (z, e, tk) =
      tok_from-TokenOf b d more hb hd a sp.start sp.rest rest (subst NoNul sp.whole hs)
        (ap (span d true) (sym sp.whole) ∙ sp.measure) sp.kind sp.stops in
    let e' = subst (λ l. tok_from (text b d more) (text a l rest) ≡ some z) (sym sp.whole) e in
    (z, ground (arith, e'), ground (arith, e'), subst (λ l. TokenOf a d l rest z) (sym sp.whole) tk)
