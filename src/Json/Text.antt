-- ===== src/Json/Text.antt =====
-- The spaces and the strings of xiaobaios/apps/pkg_cjson_min.c. A position is the text from it to the
-- end. Every allocation is taken to succeed.
use xiaobai_os.Base.{
  ℕ, zero, suc, ◌+◌, ◌-◌, ◌*◌, ◌/◌, ◌%◌, Bool, ◌&&◌, ◌||◌, ◌==◌, ltb, leb, if◌then◌else◌, Option,
  none, some, [], ◌∷◌, ◌++◌, Bytes, length,
}
use xiaobai_os.Json.Result.{Result, ok, failed, out_of_fuel, ◌>>=◌}

unfoldable pub is_ws : ℕ → Bool
is_ws ch = ch == b' ' || (ch == 9 || (ch == 13 || ch == 10))

unfoldable pub skip_ws : Bytes → Bytes
unfolding is_ws
skip_ws [] = []
skip_ws (c ∷ s) = if is_ws c then skip_ws s else c ∷ s

-- The digit, `none` for -1.
unfoldable pub hex : ℕ → Option ℕ
hex ch =
    if leb b'0' ch && leb ch b'9'
    then some (ch - b'0')
    else if leb b'a' ch && leb ch b'f'
    then some (ch - b'a' + 10)
    else if leb b'A' ch && leb ch b'F'
    then some (ch - b'A' + 10)
    else none

abbrev pub hex_all : Option ℕ → Option ℕ → Option ℕ → Option ℕ → Option ℕ
hex_all (some a) (some b) (some c) (some d) = some (a * 4096 + b * 256 + c * 16 + d)
hex_all a b c d = none

-- Four digits and what is behind them, `none` where there are fewer. (The shifted digits have no bit in
-- common, so that their `|` is a sum.)
unfoldable pub hex4 : Bytes → Option (ℕ × Bytes)
hex4 (a ∷ b ∷ c ∷ d ∷ s) = elim (hex_all (hex a) (hex b) (hex c) (hex d)) [
  | some n ↦ some (n, s)
  | none ↦ none
]
hex4 s = none

-- The low half of a surrogate pair: the code point of both, and what is behind it.
unfoldable pub low_half : ℕ → Bytes → Option (ℕ × Bytes)
low_half high (b ∷ u ∷ s) =
    if b == b'\\' && u == b'u'
    then elim (hex4 s) [
      | some (low, rest) ↦
          if leb 0xDC00 low && leb low 0xDFFF
          then some (0x10000 + (high - 0xD800) * 1024 + (low - 0xDC00), rest)
          else none
      | none ↦ none
    ]
    else none
low_half high s = none

unfoldable pub surrogate : ℕ → Bytes → ℕ × Bytes
unfolding low_half
surrogate codepoint s =
    if leb 0xD800 codepoint && leb codepoint 0xDBFF
    then elim (low_half codepoint s) [ some out ↦ out | none ↦ (codepoint, s) ]
    else (codepoint, s)

-- The bytes of pkg_json_emit_utf8.
unfoldable pub utf8 : ℕ → Option Bytes
utf8 codepoint =
    if leb codepoint 0x7F
    then some (codepoint ∷ [])
    else if leb codepoint 0x7FF
    then some ((0xC0 + codepoint / 64) ∷ (0x80 + codepoint % 64) ∷ [])
    else if leb codepoint 0xFFFF
    then some
        ((0xE0 + codepoint / 4096) ∷ (0x80 + codepoint / 64 % 64) ∷ (0x80 + codepoint % 64) ∷ [])
    else if leb codepoint 0x10FFFF
    then some (
        (0xF0 + codepoint / 262144)
        ∷ (0x80 + codepoint / 4096 % 64)
        ∷ (0x80 + codepoint / 64 % 64)
        ∷ (0x80 + codepoint % 64)
        ∷ [])
    else none

-- The buffer `out` of `out_cap` bytes with the code point behind it, `none` for 0.
unfoldable pub emit_utf8 : Bytes → ℕ → ℕ → Option Bytes
unfolding utf8
emit_utf8 out out_cap codepoint = elim (utf8 codepoint) [
  | some bytes ↦ if leb out_cap (length out + length bytes) then none else some (out ++ bytes)
  | none ↦ none
]

-- Behind `\u`.
unfoldable pub unicode : ℕ → Bytes → Bytes → Result (Bytes × Bytes)
unfolding hex4 surrogate emit_utf8
unicode cap out s = elim (hex4 s) [
  | none ↦ failed s
  | some (n, r) ↦
      let (codepoint, rest) = surrogate n r in
      elim (emit_utf8 out cap codepoint) [ some out' ↦ ok (out', rest) | none ↦ failed rest ]
]

-- The character that a letter stands for behind a backslash.
unfoldable pub simple_escape : ℕ → Option ℕ
simple_escape ch =
    if ch == b'"' || (ch == b'\\' || ch == b'/')
    then some ch
    else if ch == b'b'
    then some 8
    else if ch == b'f'
    then some 12
    else if ch == b'n'
    then some 10
    else if ch == b'r'
    then some 13
    else if ch == b't'
    then some 9
    else none

-- Behind a backslash: the buffer and the text after the escape.
unfoldable pub escape : ℕ → Bytes → Bytes → Result (Bytes × Bytes)
unfolding simple_escape unicode
escape cap out [] = failed []
escape cap out (ch ∷ s) = elim (simple_escape ch) [
  | some c ↦ ok (out ++ (c ∷ []), s)
  | none ↦ if ch == b'u' then unicode cap out s else failed s
]

-- The loop over `scan`, behind the opening quote.
unfoldable pub string_from : ℕ → ℕ → Bytes → Bytes → Result (Bytes × Bytes)
unfolding escape hex
string_from zero cap out scan = out_of_fuel
string_from (suc f) cap out [] = failed []
string_from (suc f) cap out (ch ∷ s) =
    let escaped = (escape cap out s >>= λ (out', s'). string_from f cap out' s') in
    let plain = string_from f cap (out ++ (ch ∷ [])) s in
    if ch == b'"'
    then ok (out, s)
    else if ltb ch 0x20
    then failed s
    else if ch == b'\\'
    then escaped
    else plain

-- The string and the text behind it. A round of the loop takes a character at least.
unfoldable pub parse_string : Bytes → Result (Bytes × Bytes)
unfolding string_from
parse_string [] = failed []
parse_string (ch ∷ s) =
    if ch == b'"' then string_from (length s + 1) (length s + 1) [] s else failed (ch ∷ s)
