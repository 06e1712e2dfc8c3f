-- ===== src/User/Records/RoundTrip.antt =====
-- A record written as a line is read back.
use xiaobai_os.Base.{
  ℕ, zero, suc, ◌+◌, ◌-◌, ◌≤◌, ◌<◌, ◌≡◌, ◌≢◌, ◌⊎◌, refl, sym, ap, subst, ◌∙◌, arith, inl, inr, true,
  false, ◌||◌, ◌==◌, if◌then◌else◌, some, List, [], ◌∷◌, ◌++◌, append-nil, append_assoc, Bytes,
  codes, length, length-append, take, All,
}
use xiaobai_os.Libc.Ctype.{isspace}
use xiaobai_os.Runtime.Words.{streq, copy, trim_line}
use xiaobai_os.Runtime.Words.Laws.{Spaces, Starts, Ends, trim_line-append}
use xiaobai_os.User.Records.{
  Account, role_admin, append, name_char, all_name_chars, name_valid, colon, take_field, next_field,
  begins, checked, parse_fields, parse_record, append_all, role_name, record_line,
}

abbrev pub NoColon : Bytes → Type 0
NoColon = All (λ c. c ≢ colon)

unfoldable pub flatten : List Bytes → Bytes
flatten [] = []
flatten (b ∷ bs) = b ++ flatten bs

pub take_whole : (n : ℕ) (s : Bytes) → length s ≤ n → take n s ≡ s
take_whole zero [] h = refl
take_whole zero (c ∷ s) h = absurd (omega arith)
take_whole (suc n) [] h = refl
take_whole (suc n) (c ∷ s) h = ap (λ t. c ∷ t) (take_whole n s (omega arith))

pub copy_whole : (size : ℕ) (s : Bytes) → length s < size → copy [] size s ≡ s
unfolding copy
copy_whole zero s h = absurd (omega arith)
copy_whole (suc n) s h = take_whole n s (omega arith)

pub append_whole :
    (dst : Bytes) (size : ℕ) (src : Bytes)
    → length dst + length src < size
    → append dst size src ≡ dst ++ src
unfolding append
append_whole dst size src h = ground (arith, copy_whole (size - length dst) src (omega arith))

append_all-flatten :
    (dst : Bytes) (size : ℕ) (srcs : List Bytes)
    → length dst + length (flatten srcs) < size
    → append_all dst size srcs ≡ dst ++ flatten srcs
unfolding append_all flatten
append_all-flatten dst size [] h = sym (append-nil dst)
append_all-flatten dst size (src ∷ more) h =
    let split = length-append src (flatten more) in
    let joined = length-append dst src in
    rw (append_whole dst size src (omega arith)) (
      append_all-flatten (dst ++ src) size more (omega arith) ∙ append_assoc dst src (flatten more))

take_field-append : (f t : Bytes) → NoColon f → take_field (f ++ (colon ∷ t)) ≡ (f, t)
unfolding take_field
take_field-append [] t h = refl
take_field-append (c ∷ f) t (ne, h) = ground (arith, take_field-append f t h)

take_field_last : (f : Bytes) → NoColon f → take_field f ≡ (f, [])
unfolding take_field
take_field_last [] h = refl
take_field_last (c ∷ f) (ne, h) = ground (arith, take_field_last f h)

next_field-append : (f t : Bytes) → NoColon f → f ≢ [] → next_field (f ++ (colon ∷ t)) ≡ some (f, t)
unfolding next_field
next_field-append [] t h ne = absurd (ne refl)
next_field-append (c ∷ f) t h ne = ground (arith, take_field-append (c ∷ f) t h, h.0)

next_field_last : (f : Bytes) → NoColon f → f ≢ [] → next_field f ≡ some (f, [])
unfolding next_field
next_field_last [] h ne = absurd (ne refl)
next_field_last (c ∷ f) h ne = ground (arith, take_field_last (c ∷ f) h, h.0)

pub all_name_chars-NoColon : (name : Bytes) → all_name_chars name ≡ true → NoColon name
unfolding all_name_chars
all_name_chars-NoColon [] e = tt
all_name_chars-NoColon (c ∷ name) e = (ground arith, all_name_chars-NoColon name (ground arith))

-- A record that fits its fields and its line.
pub record IsValid (r : Account) : Type 0 where
  pub named : name_valid r.name ≡ true
  pub hashed : length r.hash ≡ 64
  pub hash_field : NoColon r.hash
  pub rooted : begins b'/' r.home ≡ true
  pub home_field : NoColon r.home
  pub home_ends : Ends r.home
  pub home_fits : length r.home < 96
  pub role_known : (r.role ≡ 0) ⊎ (r.role ≡ role_admin)
  pub line_fits : length r.name + length (role_name r.role) + length r.home < 124

-- The line without its end.
abbrev pub fields : Account → Bytes
fields r = r.name ++ (colon ∷ (role_name r.role ++ (colon ∷ (r.hash ++ (colon ∷ r.home)))))

role_name-NoColon :
    (role : ℕ) → (role ≡ 0) ⊎ (role ≡ role_admin) → NoColon (role_name role) × (role_name role ≢ [])
role_name-NoColon role (inl e) =
    rw e ((omega arith, (omega arith, (omega arith, (omega arith, tt)))), (λ q. cc))
role_name-NoColon role (inr e) =
    rw e ((omega arith, (omega arith, (omega arith, (omega arith, (omega arith, tt))))), (λ q. cc))

role-read :
    (role : ℕ)
    → (role ≡ 0) ⊎ (role ≡ role_admin)
    → (if streq (role_name role) (codes "admin") || streq (role_name role) (codes "root")
        then role_admin
        else 0)
      ≡ role
unfolding streq
role-read role (inl e) = rw e refl
role-read role (inr e) = rw e refl

checked-Valid : (r : Account) → IsValid r → checked r.name (role_name r.role) r.hash r.home ≡ some r
unfolding checked
checked-Valid r v =
    let short : length r.name < 32 = unfold name_valid in ground (arith, v.named) in
    let hash_length : (length r.hash == 64) ≡ true = ground (arith, v.hashed) in
    rw
      (
        v.named,
        hash_length,
        v.rooted,
        copy_whole 32 r.name short,
        copy_whole 65 r.hash (omega (arith, v.hashed)),
        copy_whole 96 r.home v.home_fits,
        role-read r.role v.role_known,
      )
      refl

begins_some : (c : ℕ) (s : Bytes) → begins c s ≡ true → s ≢ []
begins_some c [] e = cc
begins_some c (d ∷ s) e = λ q. cc

pub name_head :
    (name : Bytes)
    → name_valid name ≡ true
    → (c : ℕ) × (t : Bytes) × (name ≡ c ∷ t) × (name_char c ≡ true)
unfolding name_valid all_name_chars
name_head [] e = absurd (ground arith)
name_head (c ∷ t) e = (c, t, refl, ground arith)

length_some : (n : ℕ) (s : Bytes) → length s ≡ suc n → s ≢ []
length_some n [] e = absurd (omega arith)
length_some n (c ∷ s) e = λ q. cc

parse_fields-fields : (r : Account) → IsValid r → parse_fields (fields r) ≡ some r
unfolding parse_fields
parse_fields-fields r v =
    let (c, t, e, ok) = name_head r.name v.named in
    let named : r.name ≢ [] = λ q. cc in
    let chars : all_name_chars r.name ≡ true = unfold name_valid in ground (arith, v.named) in
    let (role_field, role_some) = role_name-NoColon r.role v.role_known in
    rw
      (
        next_field-append r.name _ (all_name_chars-NoColon r.name chars) named,
        next_field-append (role_name r.role) (r.hash ++ (colon ∷ r.home)) role_field role_some,
        next_field-append r.hash r.home v.hash_field (length_some 63 r.hash v.hashed),
        next_field_last r.home v.home_field (begins_some b'/' r.home v.rooted),
      )
      (checked-Valid r v)

pub Ends-append : (u w : Bytes) → w ≢ [] → Ends w → Ends (u ++ w)
Ends-append [] w ne e = e
Ends-append (c ∷ []) [] ne e = absurd (ne refl)
Ends-append (c ∷ []) (d ∷ w) ne e = e
Ends-append (c ∷ (d ∷ u)) w ne e = Ends-append (d ∷ u) w ne e

Ends-cons : (c : ℕ) (w : Bytes) → w ≢ [] → Ends w → Ends (c ∷ w)
Ends-cons c [] ne e = absurd (ne refl)
Ends-cons c (d ∷ w) ne e = e

some-append : (u : Bytes) (c : ℕ) (w : Bytes) → u ++ (c ∷ w) ≢ []
some-append [] c w = λ q. cc
some-append (d ∷ u) c w = λ q. cc

fields-Ends : (r : Account) → IsValid r → Ends (fields r)
fields-Ends r v =
    let home_some = begins_some b'/' r.home v.rooted in
    let hash =
      Ends-append r.hash (colon ∷ r.home) (λ q. cc)
        (Ends-cons colon r.home home_some v.home_ends) in
    let role =
      Ends-append (role_name r.role) (colon ∷ (r.hash ++ (colon ∷ r.home))) (λ q. cc)
        (Ends-cons colon _ (some-append r.hash colon r.home) hash) in
    Ends-append r.name _ (λ q. cc) (Ends-cons colon _ (some-append (role_name r.role) colon _) role)

pub record_line-fields :
    (r : Account)
    → IsValid r
    → (record_line r 192 ≡ fields r ++ (10 ∷ [])) × (length (fields r ++ (10 ∷ [])) < 192)
unfolding record_line
record_line-fields r v =
    let text =
      r.name
      ∷ (codes ":"
          ∷ (role_name r.role
              ∷ (codes ":" ∷ (r.hash ∷ (codes ":" ∷ (r.home ∷ ((10 ∷ []) ∷ []))))))) in
    let flat : flatten text ≡ fields r ++ (10 ∷ []) =
      unfold flatten in
      rw
        (
          append_assoc r.name (colon ∷ (role_name r.role ++ (colon ∷ (r.hash ++ (colon ∷ r.home)))))
              (10 ∷ []),
          append_assoc (role_name r.role) (colon ∷ (r.hash ++ (colon ∷ r.home))) (10 ∷ []),
          append_assoc r.hash (colon ∷ r.home) (10 ∷ []),
        )
        refl in
    let short : length (fields r ++ (10 ∷ [])) < 192 = omega (
      arith,
      length-append (fields r) (10 ∷ []),
      length-append r.name (colon ∷ (role_name r.role ++ (colon ∷ (r.hash ++ (colon ∷ r.home))))),
      length-append (role_name r.role) (colon ∷ (r.hash ++ (colon ∷ r.home))),
      length-append r.hash (colon ∷ r.home),
      v.hashed,
      v.line_fits,
    ) in
    let room : length (flatten text) < 192 = subst (λ t. length t < 192) (sym flat) short in
    (append_all-flatten [] 192 text (omega (arith, room)) ∙ flat, short)

-- The text of a valid record is read back, with spaces behind it or none.
pub parse_record-fields :
    (r : Account) (after : Bytes)
    → IsValid r
    → Spaces after
    → length (fields r ++ after) < 192
    → parse_record (fields r ++ after) ≡ some r
unfolding parse_record
parse_record-fields r after v sp short =
    let (c, t, e, ok) = name_head r.name v.named in
    let starts : isspace c ≡ false = unfold isspace in ground arith in
    let plain : (b'#' == c) ≡ false = ground arith in
    let rest = colon ∷ (role_name r.role ++ (colon ∷ (r.hash ++ (colon ∷ r.home)))) in
    let first : fields r ≡ c ∷ (t ++ rest) = ap (λ n. n ++ rest) e in
    let trimmed : trim_line (fields r ++ after) ≡ fields r =
      trim_line-append [] (fields r) after tt sp
        (subst (λ f. Starts (f ++ after)) (sym first) starts) (fields-Ends r v) in
    let not_comment : begins b'#' (fields r) ≡ false = rw (first, plain) refl in
    let not_empty : (length (fields r) == 0) ≡ false = rw first (ground arith) in
    rw (copy_whole 192 (fields r ++ after) short, trimmed, not_empty, not_comment)
      (parse_fields-fields r v)

-- The line that cu_record_line writes for a valid record reads back as that record. Valid is a valid
-- name, a hash of 64 characters, a home that begins with a slash and does not end with a space, no colon
-- in either, a known role, and no part longer than its field or the whole than the line.
pub parse_record-record_line : (r : Account) → IsValid r → parse_record (record_line r 192) ≡ some r
unfolding isspace
parse_record-record_line r v =
    let (line, short) = record_line-fields r v in
    rw line (parse_record-fields r (10 ∷ []) v (refl, tt) short)
