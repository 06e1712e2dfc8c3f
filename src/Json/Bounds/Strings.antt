-- ===== src/Json/Bounds/Strings.antt =====
-- The string reader's loop ends and stays within its buffer.
use xiaobai_os.Base.{
  ap, ℕ, zero, suc, ◌+◌, ◌≤◌, ◌<◌, ◌≡◌, arith, ◌==◌, ltb, Bool-cases, Option-cases, inl, inr, some,
  [], ◌∷◌, ◌++◌, Bytes, length, length-append,
}
use xiaobai_os.Json.Result.{ok, Ensures, Ensures-bind, Ensures-if, Ensures-imp, Ensures-ok}
use xiaobai_os.Json.Text.{
  skip_ws, hex, hex_all, hex4, low_half, surrogate, utf8, emit_utf8, unicode, simple_escape, escape,
  string_from, parse_string,
}

pub length-skip_ws : (s : Bytes) → length (skip_ws s) ≤ length s
unfolding skip_ws
length-skip_ws [] = omega arith
length-skip_ws (c ∷ s) = ground (arith, length-skip_ws s)

hex4_rest : (s : Bytes) {n : ℕ} {r : Bytes} → hex4 s ≡ some (n, r) → length r + 4 ≡ length s
unfolding hex4
hex4_rest (a ∷ b ∷ c ∷ d ∷ s) e = elim (Option-cases (hex_all (hex a) (hex b) (hex c) (hex d))) [
  | inl p ↦ absurd (ground arith)
  | inr (m, p) ↦ ground arith
]
hex4_rest (a ∷ b ∷ c ∷ []) e = cc
hex4_rest (a ∷ b ∷ []) e = cc
hex4_rest (a ∷ []) e = cc
hex4_rest [] e = cc

low_half_rest :
    (high : ℕ) (s : Bytes) {n : ℕ} {r : Bytes}
    → low_half high s ≡ some (n, r)
    → length r + 6 ≡ length s
unfolding low_half
low_half_rest high (b ∷ u ∷ s) e = elim (Option-cases (hex4 s)) [
  | inl p ↦ absurd (ground arith)
  | inr ((low, q), p) ↦ ground (arith, hex4_rest s p)
]
low_half_rest high (b ∷ []) e = cc
low_half_rest high [] e = cc

surrogate_rest : (n : ℕ) (s : Bytes) → length (surrogate n s).1 ≤ length s
unfolding surrogate
surrogate_rest n s = elim (Option-cases (low_half n s)) [
  | inl p ↦ ground arith
  | inr ((m, r), p) ↦ ground (arith, low_half_rest n s p)
]

-- An escape takes more text than it writes bytes, so that the buffer's test never fails.
abbrev pub Room : ℕ → ℕ → Bytes × Bytes → Type 0
Room size n (out, rest) = (length out + length rest < size) × (length rest ≤ n)

length-utf8 : (codepoint : ℕ) {bytes : Bytes} → utf8 codepoint ≡ some bytes → length bytes ≤ 4
unfolding utf8
length-utf8 codepoint e = ground arith

length-emit_utf8 :
    (out : Bytes) (size codepoint : ℕ) {out' : Bytes}
    → emit_utf8 out size codepoint ≡ some out'
    → length out' ≤ length out + 4
unfolding emit_utf8
length-emit_utf8 out size codepoint {out'} e = elim (Option-cases (utf8 codepoint)) [
  | inl p ↦ absurd (ground arith)
  | inr (bytes, p) ↦
      let same : out ++ bytes ≡ out' = ground arith in
      omega (arith, length-append out bytes, length-utf8 codepoint p, ap length same)
]

unicode-Ensures :
    (size : ℕ) (out s : Bytes)
    → length out + length s < size
    → Ensures (Room size (length s)) (unicode size out s)
unfolding unicode
unicode-Ensures size out s h = elim (Option-cases (hex4 s)) [
  | inl p ↦ rw (p, unicode) tt
  | inr ((n, r), p) ↦
      let left = hex4_rest s p in
      let left' = surrogate_rest n r in
      elim (Option-cases (emit_utf8 out size (surrogate n r).0)) [
        | inl q ↦ rw (p, q, unicode) tt
        | inr (out', q) ↦
            let longer = length-emit_utf8 out size (surrogate n r).0 q in
            rw (p, q, unicode) (omega arith, omega arith)
      ]
]

escape-Ensures :
    (size : ℕ) (out s : Bytes)
    → length out + length s < size
    → Ensures (Room size (length s)) (escape size out s)
unfolding escape
escape-Ensures size out [] h = tt
escape-Ensures size out (c ∷ s) h = elim (Option-cases (simple_escape c)) [
  | inr (x, p) ↦ rw (p, escape) (omega (arith, length-append out (x ∷ [])), omega arith)
  | inl p ↦ elim (Bool-cases (c == b'u')) [
    | inr q ↦ rw (p, q, escape) tt
    | inl q ↦ rw (p, q, escape) (ground (arith, unicode-Ensures size out s (omega arith)))
  ]
]

-- The loop never ends for want of fuel, and its text with the NUL fits the buffer.
pub string_from-Ensures :
    (f size : ℕ) (out s : Bytes)
    → length s < f
    → length out + length s < size
    → Ensures (Room size (length s)) (string_from f size out s)
unfolding string_from
string_from-Ensures zero size out s h room = absurd (omega arith)
string_from-Ensures (suc f) size out [] h room = tt
string_from-Ensures (suc f) size out (c ∷ s) h room =
    let R = Room size (length (c ∷ s)) in
    Ensures-if R (c == b'"') _ _ (λ e. (omega arith, omega arith))
      (λ e.
        Ensures-if R (ltb c 0x20) _ _ (λ e. tt)
          (λ e.
            Ensures-if R (c == b'\\') _ _
              (λ e.
                Ensures-bind (Room size (length s)) R (escape size out s) _
                  (escape-Ensures size out s (omega arith))
                  (λ (out', r) (fits, le).
                    Ensures-imp (Room size (length r)) R (string_from f size out' r)
                      (λ (o, t) (a, b). (a, omega arith))
                      (string_from-Ensures f size out' r (omega arith) fits)))
              (λ e.
                Ensures-imp (Room size (length s)) R (string_from f size (out ++ (c ∷ [])) s)
                  (λ (o, t) (a, b). (a, omega arith))
                  (string_from-Ensures f size (out ++ (c ∷ [])) s (omega arith)
                    (omega (arith, length-append out (c ∷ [])))))))

-- The text that a quoted string makes and its NUL fit the buffer, which has a byte for each character
-- behind the opening quote and one more.
pub parse_string_fits :
    (s text rest : Bytes) → parse_string s ≡ ok (text, rest) → length text + 1 ≤ length s
unfolding parse_string
parse_string_fits [] text rest e = cc
parse_string_fits (c ∷ s) text rest e = elim (Bool-cases (c == b'"')) [
  | inr p ↦ absurd (ground arith)
  | inl p ↦
      let run = string_from (length s + 1) (length s + 1) [] s in
      let same : run ≡ ok (text, rest) = ground arith in
      let (fits, le) =
        Ensures-ok (Room (length s + 1) (length s)) run
          (string_from-Ensures (length s + 1) (length s + 1) [] s (omega arith) (omega arith))
          same in
      omega arith
]

pub parse_string-Ensures : (s : Bytes) → Ensures (λ (k, r). length r ≤ length s) (parse_string s)
unfolding parse_string
parse_string-Ensures [] = tt
parse_string-Ensures (c ∷ s) =
    Ensures-if _ (c == b'"') _ _
      (λ e.
        Ensures-imp (Room (length s + 1) (length s)) (λ (k, r). length r ≤ length (c ∷ s)) _
          (λ (o, t) (a, b). omega arith)
          (string_from-Ensures (length s + 1) (length s + 1) [] s (omega arith) (omega arith)))
      (λ e. tt)
