-- ===== src/User/Database/Plain.antt =====
-- Records of the account database whose text is one line, and the records of one line.
use xiaobai_os.Base.{
  ℕ, ◌<◌, ◌≡◌, ◌≢◌, refl, ap, subst, ◌∙◌, arith, true, ◌==◌, Bool-cases, Option-cases, inl, inr,
  Option, none, some, List, [], ◌∷◌, ◌++◌, append-nil, Bytes, codes, length, length-append, All,
  All-append, All-imp, NoNul,
}
use xiaobai_os.Runtime.Words.{copy, skip_spaces, trim_end, trim_line}
use xiaobai_os.User.Records.{
  Account, role_admin, parse_record, colon, role_name, all_name_chars, name_valid,
}
use xiaobai_os.User.Records.RoundTrip.{IsValid, fields, record_line-fields, parse_record-fields}
use xiaobai_os.User.Database.{newline, split_lines, until_nul, account_of, accounts_in}
use xiaobai_os.User.Database.Lines.{
  AreLines, unlines, split_lines-unlines, accounts_in-append, NoNewline, account_of_plain,
}

-- A character that neither ends a line nor a text.
abbrev pub IsPlain : ℕ → Type 0
IsPlain c = (c ≢ newline) × (c ≢ 0)

-- A valid record that is one line of text, without a NUL.
pub record IsLine (r : Account) : Type 0 where
  pub valid : IsValid r
  pub plain_hash : All IsPlain r.hash
  pub plain_home : All IsPlain r.home

pub name-IsPlain : (name : Bytes) → all_name_chars name ≡ true → All IsPlain name
unfolding all_name_chars
name-IsPlain [] e = tt
name-IsPlain (c ∷ name) e = ((ground arith, ground arith), name-IsPlain name (ground arith))

role_name-IsPlain : (role : ℕ) → All IsPlain (role_name role)
unfolding all_name_chars
role_name-IsPlain role = elim (Bool-cases (role == role_admin)) [
  | inl e ↦ rw e (name-IsPlain (codes "admin") refl)
  | inr e ↦ rw e (name-IsPlain (codes "user") refl)
]

fields-IsPlain : (r : Account) → IsLine r → All IsPlain (fields r)
unfolding name_valid
fields-IsPlain r h =
    let named = h.valid.named in
    let dot : IsPlain colon = (omega arith, omega arith) in
    All-append IsPlain r.name _ (name-IsPlain r.name (ground arith)) (
      dot,
      All-append IsPlain (role_name r.role) _ (role_name-IsPlain r.role)
          (dot, All-append IsPlain r.hash _ h.plain_hash (dot, h.plain_home)),
    )

pub one_line : (r : Account) → IsLine r → NoNewline (fields r)
one_line r h = All-imp (λ c p. p.0) (fields r) (fields-IsPlain r h)

no_nul : (r : Account) → IsLine r → NoNul (fields r)
no_nul r h = All-imp (λ c p. p.1) (fields r) (fields-IsPlain r h)

abbrev pub listed : Option Account → List Account
listed none = []
listed (some r) = r ∷ []

pub one-account : (line : Bytes) → accounts_in (line ∷ []) ≡ listed (account_of line)
unfolding accounts_in
one-account line = elim (Option-cases (account_of line)) [
  | inl e ↦ rw (e, accounts_in) refl
  | inr (r, e) ↦ rw (e, accounts_in) refl
]

pub no-account : account_of [] ≡ none
unfolding account_of parse_record trim_line trim_end skip_spaces copy until_nul
no-account = refl

fields_fit : (r : Account) → IsValid r → length (fields r) < 191
fields_fit r v =
    let (line, short) = record_line-fields r v in omega (arith, length-append (fields r) (10 ∷ []))

pub account_of-fields : (r : Account) → IsLine r → account_of (fields r) ≡ some r
account_of-fields r h =
    let fit = fields_fit r h.valid in
    account_of_plain (fields r) (no_nul r h) (omega arith)
    ∙ subst (λ t. parse_record t ≡ some r) (append-nil (fields r))
        (parse_record-fields r [] h.valid tt (rw (append-nil (fields r)) (omega arith)))

-- A text of whole lines has the records of its lines.
pub accounts_in-unlines :
    (lines : List Bytes)
    → AreLines lines
    → accounts_in (split_lines (unlines lines)) ≡ accounts_in lines
unfolding split_lines
accounts_in-unlines lines h =
    let split : split_lines (unlines lines) ≡ lines ++ ([] ∷ []) =
      subst (λ t. split_lines t ≡ lines ++ ([] ∷ [])) (append-nil (unlines lines))
        (split_lines-unlines lines [] h) in
    ap accounts_in split
    ∙ accounts_in-append lines ([] ∷ [])
    ∙ ap (λ rs. accounts_in lines ++ rs) (one-account [] ∙ ap listed no-account)
    ∙ append-nil (accounts_in lines)
