-- ===== src/Json/Print/Strings.antt =====
-- A printed string is read back.
use xiaobai_os.Base.{
  ℕ, zero, suc, ◌+◌, ◌/◌, ◌%◌, ◌<◌, ◌≡◌, refl, ap, ◌∙◌, arith, true, false, inl, inr, Bool-cases,
  ◌||◌, ◌==◌, ltb, some, [], ◌∷◌, ◌++◌, append-nil, append_assoc, Bytes, length, length-append,
}
use xiaobai_os.Json.Result.{ok}
use xiaobai_os.Json.Text.{
  hex, hex4, surrogate, utf8, emit_utf8, unicode, simple_escape, escape, string_from, parse_string,
}
use xiaobai_os.Json.Print.{show_hex, escaped, quoted}

hex-show_hex : (n : ℕ) → n < 16 → hex (show_hex n) ≡ some n
unfolding hex show_hex
hex-show_hex n h = ground arith

hex_zero : hex b'0' ≡ some 0
unfolding hex
hex_zero = refl

hex4_control :
    (c : ℕ) (s : Bytes)
    → c < 0x20
    → hex4 (b'0' ∷ b'0' ∷ show_hex (c / 16) ∷ show_hex (c % 16) ∷ s) ≡ some (c, s)
unfolding hex4
hex4_control c s h =
    ground
      (arith, hex_zero, hex-show_hex (c / 16) (omega arith), hex-show_hex (c % 16) (omega arith))

surrogate_low : (c : ℕ) (s : Bytes) → c < 0x20 → surrogate c s ≡ (c, s)
unfolding surrogate
surrogate_low c s h = ground arith

emit_utf8_low :
    (out : Bytes) (cap c : ℕ)
    → c < 0x20
    → length out + 1 < cap
    → emit_utf8 out cap c ≡ some (out ++ (c ∷ []))
unfolding emit_utf8 utf8
emit_utf8_low out cap c h room = ground arith

escape_control :
    (cap : ℕ) (out : Bytes) (c : ℕ) (s : Bytes)
    → c < 0x20
    → length out + 1 < cap
    → escape cap out (b'u' ∷ b'0' ∷ b'0' ∷ show_hex (c / 16) ∷ show_hex (c % 16) ∷ s)
      ≡ ok (out ++ (c ∷ []), s)
unfolding escape simple_escape unicode
escape_control cap out c s h room =
    rw (hex4_control c s h, unicode, surrogate_low c s h, emit_utf8_low out cap c h room)
      (rw (surrogate_low c s h) refl)

escape_plain :
    (cap : ℕ) (out : Bytes) (c : ℕ) (s : Bytes)
    → (c == b'"' || c == b'\\') ≡ true
    → escape cap out (c ∷ s) ≡ ok (out ++ (c ∷ []), s)
unfolding escape simple_escape
escape_plain cap out c s h = ground arith

string_from-step :
    (f cap : ℕ) (out : Bytes) (s : Bytes) (out' s' : Bytes)
    → escape cap out s ≡ ok (out', s')
    → string_from (suc f) cap out (b'\\' ∷ s) ≡ string_from f cap out' s'
unfolding string_from
string_from-step f cap out s out' s' e = rw e refl

-- The loop reads an escaped text up to its closing quote.
pub string_from-escaped :
    (f cap : ℕ) (out s rest : Bytes)
    → length (escaped s) < f
    → length out + length (escaped s) < cap
    → string_from f cap out (escaped s ++ (b'"' ∷ rest)) ≡ ok (out ++ s, rest)
unfolding escaped
string_from-escaped zero cap out s rest h room = absurd (omega arith)
string_from-escaped (suc f) cap out [] rest h room = unfold string_from in rw (append-nil out) refl
string_from-escaped (suc f) cap out (c ∷ s) rest h room =
    let longer = length-append out (c ∷ []) in
    let again = append_assoc out (c ∷ []) s in
    elim (Bool-cases (c == b'"' || c == b'\\')) [
      | inl p ↦ rw p (
          string_from-step f cap out (c ∷ (escaped s ++ (b'"' ∷ rest))) (out ++ (c ∷ []))
            (escaped s ++ (b'"' ∷ rest)) (escape_plain cap out c _ p)
          ∙ string_from-escaped f cap (out ++ (c ∷ [])) s rest (ground arith) (ground arith)
          ∙ ap (λ o. ok (o, rest)) again)
      | inr p ↦ elim (Bool-cases (ltb c 0x20)) [
        | inl q ↦
            rw (p, q)
              (string_from-step f cap out _ (out ++ (c ∷ [])) (escaped s ++ (b'"' ∷ rest)) (
                  escape_control cap out c (escaped s ++ (b'"' ∷ rest)) (ground arith)
                    (ground arith))
                ∙ string_from-escaped f cap (out ++ (c ∷ [])) s rest (ground arith) (ground arith)
                ∙ ap (λ o. ok (o, rest)) again)
        | inr q ↦
            rw (p, q)
              (string_from-raw f cap out c (escaped s ++ (b'"' ∷ rest)) p q
                ∙ string_from-escaped f cap (out ++ (c ∷ [])) s rest (ground arith) (ground arith)
                ∙ ap (λ o. ok (o, rest)) again)
      ]
    ]
  where
    string_from-raw :
        (f cap : ℕ) (out : Bytes) (c : ℕ) (s : Bytes)
        → (c == b'"' || c == b'\\') ≡ false
        → ltb c 0x20 ≡ false
        → string_from (suc f) cap out (c ∷ s) ≡ string_from f cap (out ++ (c ∷ [])) s
    string_from-raw f cap out c s p q = unfold string_from in ground arith

-- A string in quotes is read back, whatever follows it.
pub parse_string-quoted : (s rest : Bytes) → parse_string (quoted s ++ rest) ≡ ok (s, rest)
unfolding parse_string
parse_string-quoted s rest =
    let len = length-append (escaped s) (b'"' ∷ rest) in
    rw (append_assoc (escaped s) (b'"' ∷ []) rest)
      (string_from-escaped _ _ [] s rest (omega arith) (omega arith))
