-- ===== src/User/Database.antt =====
-- The account database of xiaobaios/apps/user/cleonos_user.c: a file of lines, of which some are records.
-- A null name is refused like one that is not valid.
pub mod Lines
pub mod Plain
pub mod Rewriting
pub mod Finding
use xiaobai_os.Base.{
  ℕ, zero, suc, ◌+◌, ◌-◌, ◌^◌, Bool, true, false, not, ◌||◌, ◌==◌, ltb, leb, if◌then◌else◌, Option,
  none, some, ◌>>=◌, List, [], ◌∷◌, ◌++◌, Bytes, length, take,
}
use xiaobai_os.Runtime.Words.{streq}
use xiaobai_os.User.Records.{Account, append, name_valid, parse_record, record_line}
use xiaobai_os.User.Sha.{hash_password}
use xiaobai_os.User.Kernel.{Kernel, db_path}

abbrev pub newline : ℕ
newline = 10

unfoldable pub cons_first : ℕ → List Bytes → List Bytes
cons_first c [] = (c ∷ []) ∷ []
cons_first c (line ∷ more) = (c ∷ line) ∷ more

-- The texts between `start` and `i` in the loops over the database.
unfoldable pub split_lines : Bytes → List Bytes
unfolding cons_first
split_lines [] = [] ∷ []
split_lines (c ∷ db) =
    let rest = split_lines db in if c == newline then [] ∷ rest else cons_first c rest

-- The characters that a C function reads.
unfoldable pub until_nul : Bytes → Bytes
until_nul [] = []
until_nul (c ∷ text) = let rest = until_nul text in if c == 0 then [] else c ∷ rest

-- What is left of a line in the buffer of a record.
abbrev pub cut_line : Bytes → Bytes
cut_line raw = take 191 raw

unfoldable pub account_of : Bytes → Option Account
account_of raw = parse_record (until_nul (cut_line raw))

unfoldable pub find_in : Bytes → List Bytes → Option Account
find_in name [] = none
find_in name (raw ∷ more) = elim (account_of raw) [
  | none ↦ find_in name more
  | some r ↦ if streq r.name name then some r else find_in name more
]

-- The records that cleonos_user_list finds.
unfoldable pub accounts_in : List Bytes → List Account
accounts_in [] = []
accounts_in (raw ∷ more) =
    let rest = accounts_in more in elim (account_of raw) [ some r ↦ r ∷ rest | none ↦ rest ]

-- The text `next_db`, the count `next_len` that goes with it, and `found`.
pub record Rewrite : Type 0 where
  pub next : Bytes
  pub next_len : ℕ
  pub found : Bool

-- A line that stays as it was; an empty one is dropped.
unfoldable pub keep_line : Bytes → Rewrite → Option Rewrite
keep_line raw st =
    let line = cut_line raw in
    let text = until_nul line in
    if length text == 0
    then some st
    else if leb 4096 (st.next_len + length line + 2)
    then none
    else some (record {
      next = append (append st.next 4096 text) 4096 (newline ∷ []);
      next_len = st.next_len + length line + 1;
      found = st.found;
    })

unfoldable pub put_record : Account → Rewrite → Option Rewrite
put_record r st =
    let line = record_line r 192 in
    if leb 4096 (st.next_len + length line + 1)
    then none
    else some (record {
      next = append st.next 4096 line;
      next_len = st.next_len + length line;
      found = true;
    })

-- Whether the name is the one to remove, and whether it is the one to replace.
unfoldable pub removes : Option Bytes → Account → Bool
removes none r = false
removes (some name) r = streq r.name name

unfoldable pub replaced_by : Option Account → Account → Option Account
replaced_by none r = none
replaced_by (some r') r = if streq r.name r'.name then some r' else none

unfoldable pub rewrite_line : Option Account → Option Bytes → Bytes → Rewrite → Option Rewrite
unfolding keep_line put_record removes replaced_by
rewrite_line replace remove raw st = elim (account_of raw) [
  | none ↦ keep_line raw st
  | some r ↦
      if removes remove r
      then some (record { next = st.next; next_len = st.next_len; found = true })
      else elim (replaced_by replace r) [ some r' ↦ put_record r' st | none ↦ keep_line raw st ]
]

unfoldable pub rewrite_lines : Option Account → Option Bytes → List Bytes → Rewrite → Option Rewrite
unfolding rewrite_line
rewrite_lines replace remove [] st = some st
rewrite_lines replace remove (raw ∷ more) st =
    rewrite_line replace remove raw st >>= λ st'. rewrite_lines replace remove more st'

abbrev pub start : Rewrite
start = record { next = []; next_len = 0; found = false }

module _ {S : Type 0} (K : Kernel S) where
  -- The text in `out` where the call succeeds.
  unfoldable pub read_all : Bytes → ℕ → S → Option Bytes
  read_all path out_size s =
      let size = K.stat_size s path in
      let got = K.read s path size in
      if size == 2 ^ 64 - 1 || ltb out_size (size + 1)
      then none
      else if size == 0
      then some []
      else if length got == size
      then some got
      else none

  unfoldable pub db_load : S → Option Bytes
  unfolding read_all
  db_load s = read_all db_path 4096 s

  unfoldable pub find : Bytes → S → Option Account
  unfolding db_load
  find name s =
      let looked_up = (db_load s >>= λ db. find_in name (split_lines db)) in
      if name_valid name then looked_up else none

  -- `buffer` is what the hasher's one held before.
  unfoldable pub verify_password : Bytes → Bytes → Bytes → S → Option Account
  unfolding find
  verify_password buffer name password s =
      find name s >>= λ r. if streq r.hash (hash_password buffer password) then some r else none

  -- The state after, and what the function returns.
  unfoldable pub db_rewrite_with : Option Account → Option Bytes → S → S × Bool
  unfolding db_load
  db_rewrite_with replace remove s =
      elim (db_load s >>= λ db. rewrite_lines replace remove (split_lines db) start) [
        | none ↦ (s, false)
        | some st ↦
            let (s', n) = K.write s db_path st.next in
            if st.found then (s', not (n == 0)) else (s, false)
      ]
