-- ===== src/Tests/Addresses.antt =====
-- Addresses of the browser.
use xiaobai_os.Base.{◌<◌, ◌≡◌, ◌^◌, refl, arith, true, false, some, ◌∷◌, ◌++◌, codes}
use xiaobai_os.Libc.Ctype.{isdigit}
use xiaobai_os.Runtime.Access.{starts_with}
use xiaobai_os.Runtime.Words.{digits_from, parse_u64_dec}
use xiaobai_os.Browser.Url.{
  Url, is_http_url, is_https_url, parse_ipv4_from, parse_ipv4_be, split_slash, split_colon,
  parse_port, fitted, parse_rest, parse_url,
}
use xiaobai_os.Browser.Url.Laws.{IsUrl, scheme, parse_url-IsUrl, parse_ipv4_be-lt, parse_url-append}

abbrev local : Url
local = record { tls = true; port = 8443; host = codes "a.b"; path = codes "/x" }

parse_url_runs : parse_url (codes "https://a.b:8443/x") ≡ some local
unfolding parse_url is_http_url is_https_url starts_with parse_rest split_slash split_colon
    parse_port fitted parse_u64_dec digits_from isdigit
parse_url_runs = refl

parse_url-IsUrl_example : IsUrl local
parse_url-IsUrl_example = parse_url-IsUrl (codes "https://a.b:8443/x") parse_url_runs

parse_ipv4_runs : parse_ipv4_be (codes "10.0.2.15") ≡ some 167772687
unfolding parse_ipv4_be parse_ipv4_from
parse_ipv4_runs = refl

parse_ipv4_be-lt_example : 167772687 < 2 ^ 32
parse_ipv4_be-lt_example = parse_ipv4_be-lt (codes "10.0.2.15") parse_ipv4_runs

parse_url-append_example :
    parse_url (scheme false ++ (codes "a.b" ++ (b'/' ∷ codes "x")))
    ≡ some (record { tls = false; port = 80; host = codes "a.b"; path = codes "/x" })
parse_url-append_example =
    parse_url-append false (codes "a.b") (codes "x") (omega arith) (omega arith) (omega arith)
      (omega arith, (omega arith, (omega arith, tt)))
      (omega arith, (omega arith, (omega arith, tt)))
