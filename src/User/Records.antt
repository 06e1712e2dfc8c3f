-- ===== src/User/Records.antt =====
-- The records of the account database in xiaobaios/apps/user/cleonos_user.c, which are lines of text.
-- A C string is the list of its characters without the NUL.
pub mod RoundTrip
use xiaobai_os.Base.{
  ℕ, ◌+◌, ◌-◌, ◌≤◌, Bool, true, false, not, ◌&&◌, ◌||◌, ◌==◌, ltb, leb, if◌then◌else◌, Option, none,
  some, ◌>>=◌, List, [], ◌∷◌, ◌++◌, Bytes, codes, length, take,
}
use xiaobai_os.Runtime.Words.{streq, copy, trim_line}

-- `cleonos_user_record`; the role is 1 for an administrator.
pub record Account : Type 0 where
  pub name : Bytes
  pub hash : Bytes
  pub role : ℕ
  pub home : Bytes

abbrev pub role_admin : ℕ
role_admin = 1

unfoldable pub append : Bytes → ℕ → Bytes → Bytes
append dst size src =
    if size == 0
    then dst
    else if leb size (length dst)
    then take (size - 1) dst
    else dst ++ copy [] (size - length dst) src

abbrev pub name_char : ℕ → Bool
name_char ch =
    (leb b'a' ch && leb ch b'z')
    || ((leb b'A' ch && leb ch b'Z')
        || ((leb b'0' ch && leb ch b'9') || (ch == b'_' || ch == b'-')))

unfoldable pub all_name_chars : Bytes → Bool
all_name_chars [] = true
all_name_chars (c ∷ name) = name_char c && all_name_chars name

unfoldable pub name_valid : Bytes → Bool
name_valid name = not (length name == 0) && (ltb (length name) 32 && all_name_chars name)

unfoldable pub home_for : Bytes → ℕ → Bytes
home_for name size = append (append [] size (codes "/home/")) size name

abbrev pub colon : ℕ
colon = b':'

-- strtok_r with the delimiter `:` on a text: the field and what it saves.
unfoldable pub take_field : Bytes → Bytes × Bytes
take_field [] = ([], [])
take_field (c ∷ text) =
    let (field, rest) = take_field text in if c == colon then ([], text) else (c ∷ field, rest)

unfoldable pub next_field : Bytes → Option (Bytes × Bytes)
next_field [] = none
next_field (c ∷ text) =
    let rest = next_field text in if c == colon then rest else some (take_field (c ∷ text))

abbrev pub begins : ℕ → Bytes → Bool
begins c [] = false
begins c (d ∷ text) = c == d

-- The record of four fields, where they are valid.
unfoldable pub checked : Bytes → Bytes → Bytes → Bytes → Option Account
checked name role_text hash home =
    if not (name_valid name) || (not (length hash == 64) || not (begins b'/' home))
    then none
    else some (record {
      name = copy [] 32 name;
      hash = copy [] 65 hash;
      role =
          if streq role_text (codes "admin") || streq role_text (codes "root")
          then role_admin
          else 0;
      home = copy [] 96 home;
    })

unfoldable pub parse_fields : Bytes → Option Account
parse_fields text = next_field text >>= λ (name, s). next_field s >>= λ (role_text, t).
    next_field t >>= λ (hash, u). next_field u >>= λ (home, v). checked name role_text hash home

unfoldable pub parse_record : Bytes → Option Account
parse_record line =
    let tmp = trim_line (copy [] 192 line) in
    if length tmp == 0 || begins b'#' tmp then none else parse_fields tmp

-- Calls of cu_append one after another.
unfoldable pub append_all : Bytes → ℕ → List Bytes → Bytes
append_all dst size [] = dst
append_all dst size (src ∷ more) = append_all (append dst size src) size more

abbrev pub role_name : ℕ → Bytes
role_name role = if role == role_admin then codes "admin" else codes "user"

unfoldable pub record_line : Account → ℕ → Bytes
record_line r size = append_all [] size (
    r.name
    ∷ (codes ":"
        ∷ (role_name r.role ∷ (codes ":" ∷ (r.hash ∷ (codes ":" ∷ (r.home ∷ ((10 ∷ []) ∷ []))))))))
