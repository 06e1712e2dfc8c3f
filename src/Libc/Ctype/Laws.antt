-- ===== src/Libc/Ctype/Laws.antt =====
-- What the character tests of xiaobaios/src/libc_ctype.c say of one another.
use xiaobai_os.Base.{ℕ, ◌+◌, ◌<◌, ◌≡◌, Bool, ◌==◌, arith, if◌then◌else◌, ◌||◌}
use xiaobai_os.Libc.Ctype.{
  isalnum, isalpha, isdigit, isxdigit, isupper, islower, isprint, isgraph, ispunct, iscntrl,
  tolower, toupper,
}

abbrev pub count : Bool → ℕ
count b = if b then 1 else 0

-- Every ASCII character is in exactly one of four classes: control characters, the space, letters
-- and digits, and punctuation. The printing ones are the last three, the graphic ones the last two.
pub ascii_partition :
    (c : ℕ)
    → c < 128
    → (count (iscntrl c) + count (c == 32) + count (isalnum c) + count (ispunct c) ≡ 1)
      × (isprint c ≡ ((c == 32) || isgraph c))
      × (isgraph c ≡ (isalnum c || ispunct c))
unfolding iscntrl isalnum ispunct isprint isgraph
ascii_partition c h = ground arith

-- The case maps undo one another up to case, have fixed points exactly at the other letters'
-- absence, and keep the classes of letters, digits and hexadecimal digits.
pub case_maps :
    (c : ℕ)
    → (tolower (toupper c) ≡ tolower c)
      × (toupper (tolower c) ≡ toupper c)
      × (isalpha (tolower c) ≡ isalpha c)
      × (isdigit (tolower c) ≡ isdigit c)
      × (isxdigit (toupper c) ≡ isxdigit c)
      × (islower (tolower c) ≡ isalpha c)
      × (isupper (toupper c) ≡ isalpha c)
unfolding tolower toupper isalpha isdigit isxdigit islower isupper
case_maps c = (
  ground arith,
  ground arith,
  ground arith,
  ground arith,
  ground arith,
  ground arith,
  ground arith,
)
