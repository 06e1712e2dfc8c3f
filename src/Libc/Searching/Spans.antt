-- ===== src/Libc/Searching/Spans.antt =====
-- strspn and strcspn measure the longest start of a text inside, or outside, a set of characters, and
-- strpbrk points behind the latter.
use xiaobai_os.Base.{
  ℕ, suc, ◌+◌, ◌≡◌, ◌≢◌, refl, ap, arith, ◌==◌, Bool, true, false, ◌||◌, Bool-cases, inl, inr, some,
  [], ◌∷◌, ◌++◌, Bytes, NoNul, All, length, drop, if◌then◌else◌,
}
use xiaobai_os.Libc.Pointer.{null, text}
use xiaobai_os.Libc.Searching.{
  at, holds, delim_contains, same, span_from, strspn, strcspn, pbrk_from, strpbrk,
}

-- Whether the set `d` has the character.
unfoldable pub member : ℕ → Bytes → Bool
member c [] = false
member c (d ∷ s) = d == c || member c s

holds-member : (d rest : Bytes) (c : ℕ) → NoNul d → holds (d ++ (0 ∷ rest)) c ≡ some (member c d)
unfolding holds member
holds-member [] rest c h = ground arith
holds-member (x ∷ d) rest c (p, h) = ground (arith, holds-member d rest c h)

pub delim_contains-member :
    (b : ℕ) (d rest : Bytes) (c : ℕ)
    → b ≢ 0
    → NoNul d
    → delim_contains (text b d rest) c ≡ some (member c d)
unfolding delim_contains
delim_contains-member b d rest c hb h = ground (arith, holds-member d rest c h)

-- The length of the longest start of the string whose characters are all in the set (`true`) or all
-- outside it (`false`).
unfoldable pub span : Bytes → Bool → Bytes → ℕ
unfolding member
span d wanted [] = 0
span d wanted (c ∷ s) = if same wanted (member c d) then suc (span d wanted s) else 0

pub span_from-span :
    (b : ℕ) (d more : Bytes) (wanted : Bool) (s rest : Bytes) (n : ℕ)
    → b ≢ 0
    → NoNul d
    → NoNul s
    → span_from (text b d more) wanted (s ++ (0 ∷ rest)) n ≡ some (n + span d wanted s)
unfolding span_from span
span_from-span b d more wanted [] rest n hb hd hs = ground arith
span_from-span b d more wanted (c ∷ s) rest n hb hd (nz, hs) = ground (
  arith,
  delim_contains-member b d more c hb hd,
  span_from-span b d more wanted s rest (n + 1) hb hd hs,
)

-- Every text splits into its longest start of that kind and a rest that is empty or begins otherwise.
abbrev pub Stops : Bytes → Bool → Bytes → Type 0
Stops d wanted [] = Unit
Stops d wanted (c ∷ v) = same wanted (member c d) ≡ false

pub record Split (d : Bytes) (wanted : Bool) (s : Bytes) : Type 0 where
  pub start : Bytes
  pub rest : Bytes
  pub whole : s ≡ start ++ rest
  pub kind : All (λ c. same wanted (member c d) ≡ true) start
  pub stops : Stops d wanted rest
  pub measure : span d wanted s ≡ length start

pub split : (d : Bytes) (wanted : Bool) (s : Bytes) → Split d wanted s
unfolding span
split d wanted [] = record {
  start = [];
  rest = [];
  whole = refl;
  kind = tt;
  stops = tt;
  measure = refl;
}
split d wanted (c ∷ s) =
    let ih = split d wanted s in
    elim (Bool-cases (same wanted (member c d))) [
      | inl in_set ↦ record {
        start = c ∷ ih.start;
        rest = ih.rest;
        whole = ap (λ t. c ∷ t) ih.whole;
        kind = (in_set, ih.kind);
        stops = ih.stops;
        measure = ground (arith, ih.measure);
      }
      | inr out ↦ record {
        start = [];
        rest = c ∷ s;
        whole = refl;
        kind = tt;
        stops = out;
        measure = ground arith;
      }
    ]

pbrk_from-span :
    (b : ℕ) (d more : Bytes) (a : ℕ) (s rest : Bytes)
    → b ≢ 0
    → NoNul d
    → NoNul s
    → pbrk_from (text b d more) a (s ++ (0 ∷ rest))
      ≡ some (
          if span d false s == length s
          then null
          else at (a + span d false s) (drop (span d false s) (s ++ (0 ∷ rest))))
unfolding pbrk_from span
pbrk_from-span b d more a [] rest hb hd hs = ground arith
pbrk_from-span b d more a (c ∷ s) rest hb hd (nz, hs) =
    ground (
      arith,
      delim_contains-member b d more c hb hd,
      pbrk_from-span b d more (a + 1) s rest hb hd hs,
    )

-- strspn returns the length of the longest start of the text inside the set, and strcspn of the
-- longest start outside it; strpbrk points behind the latter, or is null where that is all the text.
-- The pointers are not null.
pub spans :
    (a b : ℕ) (s rest d more : Bytes)
    → a ≢ 0
    → b ≢ 0
    → NoNul s
    → NoNul d
    → (strspn (text a s rest) (text b d more) ≡ some (span d true s))
      × (strcspn (text a s rest) (text b d more) ≡ some (span d false s))
      × (strpbrk (text a s rest) (text b d more)
          ≡ some (
              if span d false s == length s
              then null
              else at (a + span d false s) (drop (span d false s) (s ++ (0 ∷ rest)))))
unfolding strspn strcspn strpbrk
spans a b s rest d more ha hb hs hd = (
  ground (arith, span_from-span b d more true s rest 0 hb hd hs),
  ground (arith, span_from-span b d more false s rest 0 hb hd hs),
  ground (arith, pbrk_from-span b d more a s rest hb hd hs),
)
