-- ===== src/Libc/Pointer.antt =====
-- How the string functions of xiaobaios/src/libc_string.c see a `char *`: the address, and the bytes
-- from there to the end of the object that it points into. Address 0 is the null pointer. A step that
-- reads or writes past the end of the object is a fault, `none`.
use xiaobai_os.Base.{ℕ, ◌+◌, Bool, ◌==◌, [], ◌∷◌, ◌++◌, Bytes, drop}

pub record Ptr : Type 0 where
  pub addr : ℕ
  pub bytes : Bytes

abbrev pub null : Ptr
null = record { addr = 0; bytes = [] }

abbrev pub is_null : Ptr → Bool
is_null p = p.addr == 0

abbrev pub advance : Ptr → ℕ → Ptr
advance p n = record { addr = p.addr + n; bytes = drop n p.bytes }

-- The C string `s` at an address, with what stands behind its NUL in the object.
abbrev pub text : ℕ → Bytes → Bytes → Ptr
text a s rest = record { addr = a; bytes = s ++ (0 ∷ rest) }
