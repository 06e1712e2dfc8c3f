-- ===== src/Browser/Url.antt =====
-- The addresses of xiaobaios/apps/browser/browser_url_parse.c. A text is its characters without the NUL.
pub mod Laws
use xiaobai_os.Base.{
  ℕ, zero, suc, ◌+◌, ◌-◌, ◌*◌, Bool, true, false, ◌&&◌, ◌||◌, ◌==◌, ltb, leb, if◌then◌else◌, Option,
  none, some, ◌>>=◌, [], ◌∷◌, ◌++◌, Bytes, codes, length, drop,
}
use xiaobai_os.Runtime.Access.{starts_with}
use xiaobai_os.Runtime.Words.{parse_u64_dec}

-- `ush_browser_url`.
pub record Url : Type 0 where
  pub tls : Bool
  pub port : ℕ
  pub host : Bytes
  pub path : Bytes

unfoldable pub is_http_url : Bytes → Bool
is_http_url text = starts_with text (codes "http://")

unfoldable pub is_https_url : Bytes → Bool
is_https_url text = starts_with text (codes "https://")

-- The number of an address after the dots and digits read so far: `acc`, `value`, `parts`, `has_digit`.
unfoldable pub parse_ipv4_from : ℕ → ℕ → ℕ → Bool → Bytes → Option ℕ
parse_ipv4_from acc value parts has_digit [] =
    if has_digit && parts == 3 then some (acc * 256 + value) else none
parse_ipv4_from acc value parts has_digit (ch ∷ text) =
    let digit = value * 10 + (ch - b'0') in
    let more = parse_ipv4_from acc digit parts true text in
    let next = parse_ipv4_from (acc * 256 + value) 0 (parts + 1) false text in
    if leb b'0' ch && leb ch b'9'
    then (if ltb 255 digit then none else more)
    else if ch == b'.'
    then (if has_digit && ltb parts 3 then next else none)
    else none

-- The parts are disjoint bits, so that `|` is a sum, and the sum is below 2 ^ 32.
unfoldable pub parse_ipv4_be : Bytes → Option ℕ
parse_ipv4_be text = parse_ipv4_from 0 0 0 false text

-- The text before the first slash, and the text from it on.
unfoldable pub split_slash : Bytes → Bytes × Bytes
split_slash [] = ([], [])
split_slash (c ∷ text) =
    let (host, path) = split_slash text in if c == b'/' then ([], c ∷ text) else (c ∷ host, path)

-- The text before the first colon, and the text behind it where there is one.
unfoldable pub split_colon : Bytes → Bytes × Option Bytes
split_colon [] = ([], none)
split_colon (c ∷ text) =
    let (name, digits) = split_colon text in
    if c == b':' then ([], some text) else (c ∷ name, digits)

-- The host's name and the port.
unfoldable pub parse_port : ℕ → Bytes × Option Bytes → Option (Bytes × ℕ)
parse_port port (name, none) = some (name, port)
parse_port port (name, some digits) =
    let numbered =
      (parse_u64_dec digits >>= λ n. if n == 0 || ltb 65535 n then none else some (name, n)) in
    if length name == 0 || length digits == 0 then none else numbered

-- The path, a slash where there is none.
abbrev pub path_of : Bytes → Bytes
path_of [] = codes "/"
path_of (c ∷ rest) = c ∷ rest

-- The address, where the parts are not empty and the path fits.
unfoldable pub fitted : Bool → Bytes → Bytes × ℕ → Option Url
fitted tls path (name, port) =
    if length name == 0 || (length path == 0 || leb 256 (length path))
    then none
    else some (record { tls = tls; port = port; host = name; path = path })

-- Behind the scheme.
unfoldable pub parse_rest : Bool → ℕ → Bytes → Option Url
parse_rest tls port text =
    let (host, rest) = split_slash text in
    let named = (parse_port port (split_colon host) >>= fitted tls (path_of rest)) in
    if length host == 0 || leb 128 (length host) then none else named

unfoldable pub parse_url : Bytes → Option Url
parse_url url =
    if is_http_url url
    then parse_rest false 80 (drop 7 url)
    else if is_https_url url
    then parse_rest true 443 (drop 8 url)
    else none
