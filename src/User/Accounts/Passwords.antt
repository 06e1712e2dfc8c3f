-- ===== src/User/Accounts/Passwords.antt =====
-- The hashes of passwords in xiaobaios/apps/user/cleonos_user.c as parts of a record.
use xiaobai_os.Base.{
  ℕ, ◌*◌, ◌/◌, ◌≡◌, ◌≢◌, refl, sym, ap, subst, ◌∙◌, arith, List, [], ◌∷◌, ◌++◌, Bytes, length,
  length-append, All, All-imp,
}
use xiaobai_os.User.Records.{colon, Account}
use xiaobai_os.User.Records.RoundTrip.{IsValid}
use xiaobai_os.User.Compress.{State}
use xiaobai_os.User.Sha.{spill, initial, hex_digit, hex, hash_password}
use xiaobai_os.User.Sha.Blocks.{absorb, joined, AreBlocks}
use xiaobai_os.User.Sha.Padding.{hash_password-Digest}
use xiaobai_os.User.Database.Plain.{IsPlain, IsLine}
use xiaobai_os.User.Accounts.{with_hash}

-- Two texts of equal heads of a length.
prefix-eq : (a b s t : Bytes) → length a ≡ length b → a ++ s ≡ b ++ t → (a ≡ b) × (s ≡ t)
prefix-eq [] [] s t len e = (refl, e)
prefix-eq [] (d ∷ b) s t len e = absurd (omega arith)
prefix-eq (c ∷ a) [] s t len e = absurd (omega arith)
prefix-eq (c ∷ a) (d ∷ b) s t len e =
    let (same, rest) = prefix-eq a b s t (omega arith) (cc) in (cc, rest)

joined-eq : (cs bs : List Bytes) → AreBlocks cs → AreBlocks bs → joined cs ≡ joined bs → cs ≡ bs
unfolding joined
joined-eq [] [] g h e = refl
joined-eq [] (b ∷ bs) g (h, hs) e =
    absurd (omega (arith, h, ap length e, length-append b (joined bs)))
joined-eq (a ∷ cs) [] (g, gs) h e =
    absurd (omega (arith, g, ap length e, length-append a (joined cs)))
joined-eq (a ∷ cs) (b ∷ bs) (g, gs) (h, hs) e =
    let (same, rest) = prefix-eq a b (joined cs) (joined bs) (g ∙ sym h) e in
    let more = joined-eq cs bs gs hs rest in cc

-- What the buffer held before makes no difference.
pub hash_password-eq :
    (buffer buffer' password : Bytes)
    → length buffer ≡ 64
    → length buffer' ≡ 64
    → hash_password buffer password ≡ hash_password buffer' password
hash_password-eq buffer buffer' password e e' =
    let (hash, shown, (bs, blocks, whole, digest)) = hash_password-Digest buffer password e in
    let (hash', shown', (bs', blocks', whole', digest')) =
      hash_password-Digest buffer' password e' in
    let same = joined-eq bs bs' blocks blocks' (whole ∙ sym whole') in
    shown ∙ ap hex (digest ∙ ap (λ b. spill (absorb initial b)) same ∙ sym digest') ∙ sym shown'

-- The characters of a hash in a record.
abbrev IsHashChar : ℕ → Type 0
IsHashChar c = (c ≢ colon) × IsPlain c

hex_digit-IsHashChar : (n : ℕ) → IsHashChar (hex_digit n)
unfolding hex_digit
hex_digit-IsHashChar n = (ground arith, (ground arith, ground arith))

hex-IsHashChar : (s : Bytes) → All IsHashChar (hex s)
unfolding hex
hex-IsHashChar [] = tt
hex-IsHashChar (c ∷ s) = (hex_digit-IsHashChar (c / 16), (hex_digit-IsHashChar c, hex-IsHashChar s))

length-hex : (s : Bytes) → length (hex s) ≡ 2 * length s
unfolding hex
length-hex [] = refl
length-hex (c ∷ s) = omega (arith, length-hex s)

length-spill : (s : State) → length (spill s) ≡ 32
length-spill s = refl

pub hash_password-chars :
    (buffer password : Bytes)
    → length buffer ≡ 64
    → (length (hash_password buffer password) ≡ 64) × All IsHashChar (hash_password buffer password)
hash_password-chars buffer password e =
    let (hash, shown, (bs, blocks, whole, digest)) = hash_password-Digest buffer password e in
    let long : length hash ≡ 32 = ap length digest ∙ length-spill (absorb initial bs) in
    (
      ap length shown ∙ length-hex hash ∙ ap (λ n. 2 * n) long,
      subst (All IsHashChar) (sym shown) (hex-IsHashChar hash),
    )

-- A record of one line is one with another password too.
pub with_hash-IsLine :
    (r : Account) (buffer password : Bytes)
    → length buffer ≡ 64
    → IsLine r
    → IsLine (with_hash (hash_password buffer password) r)
with_hash-IsLine r buffer password e h =
    let (long, chars) = hash_password-chars buffer password e in
    let hash = hash_password buffer password in
    let v = h.valid in
    let valid : IsValid (with_hash hash r) = record {
      named = v.named;
      hashed = long;
      hash_field = All-imp (λ c p. p.0) hash chars;
      rooted = v.rooted;
      home_field = v.home_field;
      home_ends = v.home_ends;
      home_fits = v.home_fits;
      role_known = v.role_known;
      line_fits = v.line_fits;
    } in
    record {
      valid = valid;
      plain_hash = All-imp (λ c p. p.1) hash chars;
      plain_home = h.plain_home;
    }
