-- ===== src/Libc/Ctype.antt =====
-- xiaobaios/src/libc_ctype.c: the character tests and case maps. A character is a byte, which is what
-- every caller passes after its cast to `unsigned char`; a test returns a Bool for the 0 or 1.
pub mod Laws
use xiaobai_os.Base.{ℕ, ◌+◌, ◌-◌, Bool, ◌&&◌, ◌||◌, not, leb, ◌==◌, if◌then◌else◌}

unfoldable pub isspace : ℕ → Bool
isspace ch = ch == 32 || ch == 9 || ch == 13 || ch == 10 || ch == 11 || ch == 12

unfoldable pub isdigit : ℕ → Bool
isdigit ch = leb b'0' ch && leb ch b'9'

unfoldable pub isalpha : ℕ → Bool
isalpha ch = (leb b'a' ch && leb ch b'z') || (leb b'A' ch && leb ch b'Z')

unfoldable pub isalnum : ℕ → Bool
unfolding isalpha isdigit
isalnum ch = isalpha ch || isdigit ch

unfoldable pub isxdigit : ℕ → Bool
unfolding isdigit
isxdigit ch = isdigit ch || (leb b'a' ch && leb ch b'f') || (leb b'A' ch && leb ch b'F')

unfoldable pub isupper : ℕ → Bool
isupper ch = leb b'A' ch && leb ch b'Z'

unfoldable pub islower : ℕ → Bool
islower ch = leb b'a' ch && leb ch b'z'

unfoldable pub isprint : ℕ → Bool
isprint ch = leb 0x20 ch && leb ch 0x7E

unfoldable pub isgraph : ℕ → Bool
isgraph ch = leb 0x21 ch && leb ch 0x7E

unfoldable pub ispunct : ℕ → Bool
unfolding isgraph isalnum
ispunct ch = isgraph ch && not (isalnum ch)

unfoldable pub iscntrl : ℕ → Bool
iscntrl ch = (leb 0x00 ch && leb ch 0x1F) || ch == 0x7F

unfoldable pub tolower : ℕ → ℕ
unfolding isupper
tolower ch = if isupper ch then ch - b'A' + b'a' else ch

unfoldable pub toupper : ℕ → ℕ
unfolding islower
toupper ch = if islower ch then ch - b'a' + b'A' else ch
