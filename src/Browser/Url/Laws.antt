-- ===== src/Browser/Url/Laws.antt =====
-- What an address that is read looks like, and that it reads back.
use xiaobai_os.Base.{
  ℕ, zero, suc, ◌+◌, ◌-◌, ◌*◌, ◌^◌, ◌≤◌, ◌<◌, ◌≡◌, ◌≢◌, refl, sym, ap, subst, arith, inl, inr, Bool,
  true, false, Bool-cases, Option-cases, ◌&&◌, ◌||◌, ◌==◌, ltb, leb, Option, none, some, [], ◌∷◌,
  ◌++◌, Bytes, codes, length, drop, All,
}
use xiaobai_os.Runtime.Access.{starts_with}
use xiaobai_os.Runtime.Words.{parse_u64_dec}
use xiaobai_os.Browser.Url.{
  Url, is_http_url, is_https_url, parse_ipv4_from, parse_ipv4_be, split_slash, split_colon,
  parse_port, path_of, fitted, parse_rest, parse_url,
}

-- An address that fits its buffers.
pub record IsUrl (u : Url) : Type 0 where
  pub named : 1 ≤ length u.host
  pub host_fits : length u.host < 128
  pub port_some : 1 ≤ u.port
  pub port_fits : u.port ≤ 65535
  pub path_some : 1 ≤ length u.path
  pub path_fits : length u.path < 256
  pub no_colon : All (λ c. c ≢ b':') u.host

split_colon-name :
    (text : Bytes)
    → (length (split_colon text).0 ≤ length text) × All (λ c. c ≢ b':') (split_colon text).0
unfolding split_colon
split_colon-name [] = (omega arith, tt)
split_colon-name (c ∷ text) =
    let (le, h) = split_colon-name text in
    elim (Bool-cases (c == b':')) [
      | inl e ↦ rw e (omega arith, tt)
      | inr e ↦ rw e (omega arith, (ground arith, h))
    ]

parse_port-name :
    (port : ℕ) (p : Bytes × Option Bytes) {name : Bytes} {n : ℕ}
    → 1 ≤ port
    → port ≤ 65535
    → parse_port port p ≡ some (name, n)
    → (name ≡ p.0) × (1 ≤ n) × (n ≤ 65535)
unfolding parse_port
parse_port-name port (x, none) {name} {n} some_port fits e =
    let a : x ≡ name = cc in let b : port ≡ n = cc in (sym a, omega arith, omega arith)
parse_port-name port (x, some digits) {name} {n} some_port fits e =
    elim (Bool-cases (length x == 0 || length digits == 0)) [
      | inl p ↦ let no = rw p at e in cc
      | inr p ↦ elim (Option-cases (parse_u64_dec digits)) [
        | inl q ↦ let no = rw (p, q) at e in cc
        | inr (m, q) ↦
            let e' = rw (p, q) at e in
            elim (Bool-cases (m == 0 || ltb 65535 m)) [
              | inl r ↦ let no = rw r at e' in cc
              | inr r ↦
                  let e'' = rw r at e' in
                  let a : x ≡ name = cc in let b : m ≡ n = cc in (sym a, ground arith, ground arith)
            ]
      ]
    ]

fitted-IsUrl :
    (tls : Bool) (path name : Bytes) (n : ℕ) {u : Url}
    → length name < 128
    → 1 ≤ n
    → n ≤ 65535
    → All (λ c. c ≢ b':') name
    → fitted tls path (name, n) ≡ some u
    → IsUrl u
unfolding fitted
fitted-IsUrl tls path name n {u} short least most plain e =
    elim (Bool-cases (length name == 0 || (length path == 0 || leb 256 (length path)))) [
      | inl r ↦ let no = rw r at e in cc
      | inr r ↦
          let made : Url = record { tls = tls; port = n; host = name; path = path } in
          let is : IsUrl made = record {
            named = ground arith;
            host_fits = short;
            port_some = least;
            port_fits = most;
            path_some = ground arith;
            path_fits = ground arith;
            no_colon = plain;
          } in
          let whole : some made ≡ some u = rw r at e in subst IsUrl (cc) is
    ]

parse_rest-IsUrl :
    (tls : Bool) (port : ℕ) (text : Bytes) {u : Url}
    → 1 ≤ port
    → port ≤ 65535
    → parse_rest tls port text ≡ some u
    → IsUrl u
unfolding parse_rest
parse_rest-IsUrl tls port text {u} some_port fits e =
    let host = (split_slash text).0 in
    let rest = (split_slash text).1 in
    let path = path_of rest in
    let (le, plain) = split_colon-name host in
    elim (Bool-cases (length host == 0 || leb 128 (length host))) [
      | inl p ↦ let no = rw p at e in cc
      | inr p ↦ elim (Option-cases (parse_port port (split_colon host))) [
        | inl q ↦ let no = rw (p, q) at e in cc
        | inr ((name, n), q) ↦
            let e' : fitted tls path (name, n) ≡ some u = rw (p, q) at e in
            let (same, least, most) = parse_port-name port (split_colon host) some_port fits q in
            let short : length name < 128 = ground (arith, ap length same) in
            fitted-IsUrl tls path name n short least most
              (subst (All (λ c. c ≢ b':')) (sym same) plain) e'
      ]
    ]

-- An address that is read fits its buffers: the host is not empty, has no colon and is shorter than 128
-- characters, the port is from 1 to 65,535, and the path is not empty and shorter than 256 characters.
pub parse_url-IsUrl : (url : Bytes) {u : Url} → parse_url url ≡ some u → IsUrl u
unfolding parse_url
parse_url-IsUrl url {u} e = elim (Bool-cases (is_http_url url)) [
  | inl p ↦ parse_rest-IsUrl false 80 (drop 7 url) (omega arith) (omega arith) (rw p at e)
  | inr p ↦ elim (Bool-cases (is_https_url url)) [
    | inl q ↦ parse_rest-IsUrl true 443 (drop 8 url) (omega arith) (omega arith) (rw (p, q) at e)
    | inr q ↦ let no = rw (p, q) at e in cc
  ]
]

-- The largest number of so many parts, and one.
abbrev room : ℕ → ℕ
room zero = 1
room (suc parts) = 256 * room parts

parse_ipv4_from-lt :
    (acc value parts : ℕ) (has_digit : Bool) (text : Bytes) {n : ℕ}
    → value ≤ 255
    → acc < room parts
    → parse_ipv4_from acc value parts has_digit text ≡ some n
    → n < 2 ^ 32
unfolding parse_ipv4_from
parse_ipv4_from-lt acc value parts has_digit [] {n} v a e =
    elim (Bool-cases (has_digit && parts == 3)) [
      | inl p ↦
          let same : acc * 256 + value ≡ n = (let q = rw p at e in cc) in
          let three : parts ≡ 3 = ground arith in
          let less = subst (λ k. acc < room k) three a in omega arith
      | inr p ↦ let no = rw p at e in cc
    ]
parse_ipv4_from-lt acc value parts has_digit (ch ∷ text) {n} v a e =
    elim (Bool-cases (leb b'0' ch && leb ch b'9')) [
      | inl p ↦ elim (Bool-cases (ltb 255 (value * 10 + (ch - b'0')))) [
        | inl q ↦ let no = rw (p, q) at e in cc
        | inr q ↦
            parse_ipv4_from-lt acc (value * 10 + (ch - b'0')) parts true text (ground arith) a
              (rw (p, q) at e)
      ]
      | inr p ↦ elim (Bool-cases (ch == b'.')) [
        | inr q ↦ let no = rw (p, q) at e in cc
        | inl q ↦ elim (Bool-cases (has_digit && ltb parts 3)) [
          | inr r ↦ let no = rw (p, q, r) at e in cc
          | inl r ↦
              let plus : parts + 1 ≡ suc parts = omega arith in
              let less : acc * 256 + value < room (parts + 1) = rw plus (omega arith) in
              parse_ipv4_from-lt (acc * 256 + value) 0 (parts + 1) false text (omega arith) less
                (rw (p, q, r) at e)
        ]
      ]
    ]

-- The number of an address of four parts fits 32 bits, so that the mask on it takes nothing off.
pub parse_ipv4_be-lt : (text : Bytes) {n : ℕ} → parse_ipv4_be text ≡ some n → n < 2 ^ 32
unfolding parse_ipv4_be
parse_ipv4_be-lt text e = parse_ipv4_from-lt 0 0 0 false text (omega arith) (omega arith) e

split_slash-append :
    (host path : Bytes)
    → All (λ c. c ≢ b'/') host
    → split_slash (host ++ (b'/' ∷ path)) ≡ (host, b'/' ∷ path)
unfolding split_slash
split_slash-append [] path h = refl
split_slash-append (c ∷ host) path (ne, h) =
    let other : (c == b'/') ≡ false = ground arith in
    rw (other, split_slash-append host path h) refl

split_colon_plain : (host : Bytes) → All (λ c. c ≢ b':') host → split_colon host ≡ (host, none)
unfolding split_colon
split_colon_plain [] h = refl
split_colon_plain (c ∷ host) (ne, h) =
    let other : (c == b':') ≡ false = ground arith in rw (other, split_colon_plain host h) refl

parse_rest-append :
    (tls : Bool) (port : ℕ) (host path : Bytes)
    → 1 ≤ length host
    → length host < 128
    → length path < 255
    → All (λ c. c ≢ b'/') host
    → All (λ c. c ≢ b':') host
    → parse_rest tls port (host ++ (b'/' ∷ path))
      ≡ some (record { tls = tls; port = port; host = host; path = b'/' ∷ path })
unfolding parse_rest parse_port fitted
parse_rest-append tls port host path some_host short fits slash colon =
    let a : (length host == 0 || leb 128 (length host)) ≡ false = ground arith in
    let b : (length host == 0 || (length (b'/' ∷ path) == 0 || leb 256 (length (b'/' ∷ path))))
        ≡ false =
      ground arith in
    rw (split_slash-append host path slash, a, split_colon_plain host colon) (rw b refl)

-- The scheme of an address.
abbrev pub scheme : Bool → Bytes
scheme true = codes "https://"
scheme false = codes "http://"

abbrev pub default_port : Bool → ℕ
default_port true = 443
default_port false = 80

-- An address put together of its scheme, a host of 1 to 127 characters with no slash and no colon, and a
-- path of at most 255 that begins with a slash is read back, with the port of its scheme.
pub parse_url-append :
    (tls : Bool) (host path : Bytes)
    → 1 ≤ length host
    → length host < 128
    → length path < 255
    → All (λ c. c ≢ b'/') host
    → All (λ c. c ≢ b':') host
    → parse_url (scheme tls ++ (host ++ (b'/' ∷ path)))
      ≡ some (record { tls = tls; port = default_port tls; host = host; path = b'/' ∷ path })
unfolding parse_url is_http_url is_https_url starts_with
parse_url-append false host path some_host short fits slash colon =
    parse_rest-append false 80 host path some_host short fits slash colon
parse_url-append true host path some_host short fits slash colon =
    parse_rest-append true 443 host path some_host short fits slash colon
