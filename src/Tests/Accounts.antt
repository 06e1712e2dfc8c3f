-- ===== src/Tests/Accounts.antt =====
-- The hash at a known text, and a record of the database.
use xiaobai_os.Base.{
  ◌++◌, ◌<◌, ◌≢◌, [], false, inl, subst, All, All-append, length, none, true, if◌then◌else◌, ℕ,
  zero, suc, arith, some, inr, ◌≡◌, refl, codes, replicate, Bytes,
}
use xiaobai_os.Libc.Ctype.{isspace}
use xiaobai_os.Runtime.Words.{streq, copy, trim_line, skip_spaces, trim_end}
use xiaobai_os.User.Kernel.{Kernel, Keeps, db_path}
use xiaobai_os.User.Database.{
  start, accounts_in, verify_password, find, find_in, split_lines, account_of, until_nul,
  db_rewrite_with, rewrite_lines,
}
use xiaobai_os.User.Database.Lines.{unlines}
use xiaobai_os.User.Database.Plain.{IsPlain, IsLine, name-IsPlain}
use xiaobai_os.User.Database.Rewriting.{edit_all, rewrite_lines-edit}
use xiaobai_os.User.Accounts.Changes.{change_password-verify, set_role-find, remove-find}
use xiaobai_os.User.Accounts.Creation.{plain_account}
use xiaobai_os.User.Accounts.Created.{create_in_db-verify, create_record_overfills}
use xiaobai_os.User.Accounts.{
  new_account, with_hash, with_role, change_password, set_role, remove, create_in_db, make_db,
  create_record, make_dir, append_record,
}
use xiaobai_os.User.Records.{
  parse_fields, next_field, take_field, checked, append_all, append, home_for, Account,
  all_name_chars, name_valid, parse_record, record_line,
}
use xiaobai_os.User.Records.RoundTrip.{NoColon, IsValid, parse_record-record_line}
use xiaobai_os.User.Sha.Padding.{Digest, hash_password-Digest}
use xiaobai_os.User.Compress.{transform}
use xiaobai_os.User.Sha.{
  put, update, zeros, pad_block, put_length, sha_final, hex_digit, hex, hash_password,
}

hash_password_runs :
    hash_password (replicate 64 7) (codes "abc")
    ≡ codes "ba7816bf8f01cfea414140de5dae2223b00361a396177a9cb410ff61f20015ad"
unfolding hash_password hex hex_digit sha_final put_length pad_block zeros update put transform
hash_password_runs = refl

hash_password-Digest_example :
    (hash : Bytes) × (hash_password (replicate 64 7) (codes "abc") ≡ hex hash)
    × Digest (codes "abc") hash
hash_password-Digest_example = hash_password-Digest (replicate 64 7) (codes "abc") refl

-- An administrator, with a hash of 64 zeros.
abbrev ann : Account
ann = record { name = codes "ann"; hash = replicate 64 48; role = 1; home = codes "/home/ann" }

ann-IsValid : IsValid ann
unfolding name_valid all_name_chars isspace
ann-IsValid = record {
  named = refl;
  hashed = refl;
  hash_field = zeros-NoColon 64;
  rooted = refl;
  home_field = all_name-path;
  home_ends = refl;
  home_fits = omega arith;
  role_known = inr refl;
  line_fits = omega arith;
}
  where
    zeros-NoColon : (n : ℕ) → NoColon (replicate n 48)
    zeros-NoColon zero = tt
    zeros-NoColon (suc n) = (omega arith, zeros-NoColon n)

    all_name-path : NoColon (codes "/home/ann")
    all_name-path = (
      omega arith,
      (
        omega arith,
        (
          omega arith,
          (
            omega arith,
            (omega arith, (omega arith, (omega arith, (omega arith, (omega arith, tt))))),
          ),
        ),
      ),
    )

parse_record-record_line_example : parse_record (record_line ann 192) ≡ some ann
parse_record-record_line_example = parse_record-record_line ann ann-IsValid

-- A kernel with no users of its own, whose state is the text of the database.
abbrev memory : Kernel Bytes
memory = record {
  disk_mounted = λ s. 0;
  disk_mount_path = λ s. none;
  stat_type = λ s path. if streq path db_path then 1 else 2;
  stat_size = λ s path. length s;
  read = λ s path n. s;
  write = λ s path t. (t, 1);
  append_file = λ s path t. (s ++ t, 1);
  remove_file = λ s path. s;
  mkdir = λ s path. (s, 1);
  user_add = λ s name password role. (s, 0);
  user_set_role = λ s name role. (s, 0);
  user_remove = λ s name. (s, 0);
  user_count = λ s. 0;
  user_at = λ s i. none;
  user_current = λ s. none;
  user_logout = λ s. s;
  user_is_admin = λ s. 0;
}

memory-Keeps : Keeps memory some
memory-Keeps = record {
  no_size = λ s e. cc;
  size = λ s t e. cc;
  reads = λ s t e. cc;
  written = λ s t e. refl;
  appended = λ s t u e ne. cc;
  made = λ s path. refl;
  added = λ s name password role. refl;
  raised = λ s name role. refl;
  removed = λ s name. refl;
}

abbrev ann_text : Bytes
ann_text =
    codes "ann:admin:0000000000000000000000000000000000000000000000000000000000000000:/home/ann\n"

ann_found : find memory (codes "ann") ann_text ≡ some ann
unfolding find find_in split_lines account_of until_nul parse_record name_valid all_name_chars streq
    copy trim_line skip_spaces trim_end isspace parse_fields next_field take_field checked
ann_found = refl

ann_changed : change_password memory (replicate 64 7) (codes "ann") (codes "abc") ann_text ≡ (
  codes "ann:admin:ba7816bf8f01cfea414140de5dae2223b00361a396177a9cb410ff61f20015ad:/home/ann\n",
  true,
)
unfolding change_password find find_in split_lines account_of until_nul parse_record name_valid
    all_name_chars streq copy trim_line skip_spaces trim_end isspace parse_fields next_field
    take_field checked db_rewrite_with rewrite_lines record_line append_all append hash_password hex
    hex_digit sha_final put_length pad_block zeros update put transform
ann_changed = refl

-- The record with a known hash, and as a user.
abbrev ann_abc : Account
ann_abc = with_hash (hash_password (replicate 64 7) (codes "abc")) ann

zeros-IsPlain : (n : ℕ) → All IsPlain (replicate n 48)
zeros-IsPlain zero = tt
zeros-IsPlain (suc n) = ((omega arith, omega arith), zeros-IsPlain n)

home-IsPlain : All IsPlain (codes "/home/ann")
unfolding all_name_chars
home-IsPlain =
    let slash : IsPlain b'/' = (omega arith, omega arith) in
    (
      slash,
      All-append IsPlain (codes "home") (codes "/ann") (name-IsPlain (codes "home") refl)
          (slash, name-IsPlain (codes "ann") refl),
    )

ann-IsLine : IsLine ann
ann-IsLine = record {
  valid = ann-IsValid;
  plain_hash = zeros-IsPlain 64;
  plain_home = home-IsPlain;
}

change_password-verify_example :
    (verify_password memory (replicate 64 9) (codes "ann") (codes "abc") (
        codes
          "ann:admin:ba7816bf8f01cfea414140de5dae2223b00361a396177a9cb410ff61f20015ad:/home/ann\n")
      ≡ some (with_hash (hash_password (replicate 64 7) (codes "abc")) ann))
    × ((other : Bytes)
        → other ≢ codes "ann"
        → find memory other (
            codes
              "ann:admin:ba7816bf8f01cfea414140de5dae2223b00361a396177a9cb410ff61f20015ad:/home/ann\n")
          ≡ find memory other ann_text)
change_password-verify_example =
    change_password-verify memory memory-Keeps (replicate 64 7) (replicate 64 9) (codes "ann")
      (codes "abc") ann_text refl refl ann_found ann-IsLine ann_changed

abbrev ann_user : Account
ann_user = with_role 0 ann

ann_user-IsLine : IsLine ann_user
ann_user-IsLine =
    let v = ann-IsValid in
    let valid : IsValid ann_user = record {
      named = v.named;
      hashed = v.hashed;
      hash_field = v.hash_field;
      rooted = v.rooted;
      home_field = v.home_field;
      home_ends = v.home_ends;
      home_fits = v.home_fits;
      role_known = inl refl;
      line_fits = omega arith;
    } in
    record { valid = valid; plain_hash = zeros-IsPlain 64; plain_home = home-IsPlain }

abbrev user_text : Bytes
user_text =
    codes "ann:user:0000000000000000000000000000000000000000000000000000000000000000:/home/ann\n"

ann_demoted : set_role memory (codes "ann") 0 ann_text ≡ (user_text, true)
unfolding change_password find find_in split_lines account_of until_nul parse_record name_valid
    all_name_chars streq copy trim_line skip_spaces trim_end isspace parse_fields next_field
    take_field checked db_rewrite_with rewrite_lines record_line append_all append set_role
ann_demoted = refl

set_role-find_example :
    (find memory (codes "ann") user_text ≡ some ann_user)
    × ((other : Bytes)
        → other ≢ codes "ann"
        → find memory other user_text ≡ find memory other ann_text)
set_role-find_example =
    set_role-find memory memory-Keeps (codes "ann") 0 ann_text ann_found ann_user-IsLine refl
      ann_demoted

ann_removed : remove memory (codes "ann") ann_text ≡ ([], true)
unfolding change_password find find_in split_lines account_of until_nul parse_record name_valid
    all_name_chars streq copy trim_line skip_spaces trim_end isspace parse_fields next_field
    take_field checked db_rewrite_with rewrite_lines record_line append_all append remove
ann_removed = refl

remove-find_example :
    (find memory (codes "ann") [] ≡ none)
    × ((other : Bytes) → other ≢ codes "ann" → find memory other [] ≡ find memory other ann_text)
    × (codes "ann" ≢ codes "root")
remove-find_example = remove-find memory memory-Keeps (codes "ann") ann_text refl ann_removed

abbrev bob : Account
bob = plain_account (replicate 64 7) (codes "bob") (codes "abc") 0

bob_created :
    create_in_db memory (replicate 64 7) (codes "bob") (codes "abc") 0 false []
    ≡ (record_line bob 192, true)
unfolding change_password find find_in split_lines account_of until_nul parse_record name_valid
    all_name_chars streq copy trim_line skip_spaces trim_end isspace parse_fields next_field
    take_field checked db_rewrite_with rewrite_lines record_line append_all append create_in_db
    make_db create_record make_dir append_record home_for
bob_created = refl

create_in_db-verify_example :
    (verify_password memory (replicate 64 9) (codes "bob") (codes "abc") (record_line bob 192)
      ≡ some bob)
    × ((other : Bytes)
        → other ≢ codes "bob"
        → find memory other (record_line bob 192) ≡ find memory other [])
unfolding name_valid all_name_chars streq unlines
create_in_db-verify_example =
    create_in_db-verify memory memory-Keeps (replicate 64 7) (replicate 64 9) (codes "bob")
      (codes "abc") 0 [] [] refl refl refl refl refl tt (omega arith) bob_created

rewritten :
    rewrite_lines (some ann_user) none (split_lines ann_text) start
    ≡ some (record { next = user_text; next_len = length user_text; found = true })
unfolding change_password find find_in split_lines account_of until_nul parse_record name_valid
    all_name_chars streq copy trim_line skip_spaces trim_end isspace parse_fields next_field
    take_field checked db_rewrite_with rewrite_lines record_line append_all append
rewritten = refl

rewrite_lines-edit_example :
    (accounts_in (split_lines user_text)
      ≡ edit_all (some ann_user) none (accounts_in (split_lines ann_text)))
    × (length user_text < 4096)
rewrite_lines-edit_example =
    rewrite_lines-edit (some ann_user) none ann_text
      {st = record { next = user_text; next_len = length user_text; found = true }}
      (λ r e. subst IsLine (cc) ann_user-IsLine) rewritten

-- A database that is full but for 50 bytes.
abbrev full_text : Bytes
full_text = replicate 4045 35

abbrev bob_line : Bytes
bob_line = record_line (new_account (replicate 64 7) (codes "bob") (codes "abc") 0) 192

bob_long : length bob_line ≡ 84
unfolding record_line append_all append home_for copy create_record make_dir append_record streq
    hash_password hex sha_final
bob_long = refl

bob_appended :
    create_record memory (replicate 64 7) (codes "bob") (codes "abc") 0 full_text
    ≡ (full_text ++ bob_line, true)
unfolding record_line append_all append home_for copy create_record make_dir append_record streq
bob_appended = refl

create_record_overfills_example : find memory (codes "ann") (full_text ++ bob_line) ≡ none
create_record_overfills_example =
    create_record_overfills memory memory-Keeps (replicate 64 7) (codes "bob") (codes "abc")
      (codes "ann") 0 full_text full_text refl (omega (arith, bob_long)) bob_appended
