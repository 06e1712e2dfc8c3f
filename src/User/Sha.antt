-- ===== src/User/Sha.antt =====
-- The hash of passwords in xiaobaios/apps/user/cleonos_user.c.
pub mod Blocks
pub mod Filling
pub mod Padding
use xiaobai_os.Base.{
  ℕ, zero, suc, ◌+◌, ◌-◌, ◌*◌, ◌/◌, ◌%◌, ◌^◌, Bool, true, false, ◌==◌, ltb, if◌then◌else◌, List, [],
  ◌∷◌, ◌++◌, Bytes, length, get_or, set, replicate,
}
use xiaobai_os.User.Compress.{State, transform}

pub record Hasher : Type 0 where
  pub buffer : Bytes
  pub datalen : ℕ
  pub bitlen : ℕ
  pub state : State

abbrev pub store_be32 : ℕ → Bytes
store_be32 value =
    (value / 2 ^ 24 % 256)
    ∷ ((value / 2 ^ 16 % 256) ∷ ((value / 2 ^ 8 % 256) ∷ ((value % 256) ∷ [])))

abbrev pub initial : State
initial = record {
  a = 0x6A09E667;
  b = 0xBB67AE85;
  c = 0x3C6EF372;
  d = 0xA54FF53A;
  e = 0x510E527F;
  f = 0x9B05688C;
  g = 0x1F83D9AB;
  h = 0x5BE0CD19;
}

-- The buffer is not set by the code; `buffer` is what it holds.
abbrev pub sha_init : Bytes → Hasher
sha_init buffer = record { buffer = buffer; datalen = 0; bitlen = 0; state = initial }

-- One round of the loop of cu_sha256_update.
unfoldable pub put : Hasher → ℕ → Hasher
put ctx byte =
    let buffer' = set ctx.buffer ctx.datalen byte in
    if ctx.datalen + 1 == 64
    then record {
      buffer = buffer';
      datalen = 0;
      bitlen = (ctx.bitlen + 512) % 2 ^ 64;
      state = transform ctx.state buffer';
    }
    else record ctx { buffer = buffer'; datalen = ctx.datalen + 1 }

unfoldable pub update : Hasher → Bytes → Hasher
update ctx [] = ctx
update ctx (c ∷ buffer) = update (put ctx c) buffer

-- `n` zeros from the place `i` on.
unfoldable pub zeros : ℕ → ℕ → Bytes → Bytes
zeros zero i buffer = buffer
zeros (suc n) i buffer = zeros n (i + 1) (set buffer i 0)

-- The buffer and the state when the byte 0x80 and the zeros are in.
unfoldable pub pad_block : Hasher → Bytes × State
pad_block ctx =
    let marked = set ctx.buffer ctx.datalen 0x80 in
    if ltb ctx.datalen 56
    then (zeros (55 - ctx.datalen) (ctx.datalen + 1) marked, ctx.state)
    else (let full = zeros (63 - ctx.datalen) (ctx.datalen + 1) marked in
        (zeros 56 0 full, transform ctx.state full))

abbrev pub byte_of : ℕ → ℕ → ℕ
byte_of bits shift = bits / 2 ^ shift % 256

-- The bytes 63 to 56, in the order of the code.
unfoldable pub put_length : ℕ → Bytes → Bytes
put_length bits buffer =
    set
      (set
        (set
          (set
            (set
              (set (set (set buffer 63 (byte_of bits 0)) 62 (byte_of bits 8)) 61 (byte_of bits 16))
              60 (byte_of bits 24))
            59 (byte_of bits 32))
          58 (byte_of bits 40))
        57 (byte_of bits 48))
      56 (byte_of bits 56)

abbrev pub spill : State → Bytes
spill s =
    store_be32 s.a
    ++ (store_be32 s.b
        ++ (store_be32 s.c
            ++ (store_be32 s.d
                ++ (store_be32 s.e ++ (store_be32 s.f ++ (store_be32 s.g ++ store_be32 s.h))))))

unfoldable pub sha_final : Hasher → Bytes
sha_final ctx =
    let (buffer, state) = pad_block ctx in
    spill (transform state (put_length ((ctx.bitlen + ctx.datalen * 8) % 2 ^ 64) buffer))

unfoldable pub hex_digit : ℕ → ℕ
hex_digit value = if ltb (value % 16) 10 then b'0' + value % 16 else b'a' + (value % 16 - 10)

unfoldable pub hex : Bytes → Bytes
hex [] = []
hex (c ∷ hash) = hex_digit (c / 16) ∷ (hex_digit c ∷ hex hash)

-- The text in `out_hex`; a null password is hashed like an empty one, and `buffer` is what the context's one held before.
unfoldable pub hash_password : Bytes → Bytes → Bytes
hash_password buffer password = hex (sha_final (update (sha_init buffer) password))
