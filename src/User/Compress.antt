-- ===== src/User/Compress.antt =====
-- The compression of one block of 64 bytes, cu_sha256_transform in xiaobaios/apps/user/cleonos_user.c. A
-- word of 32 bits is a number, with its wrap-around written out.
use xiaobai_os.Base.{
  ℕ, zero, suc, ◌+◌, ◌-◌, ◌*◌, ◌/◌, ◌%◌, ◌^◌, List, [], ◌∷◌, ◌++◌, Bytes, length, get_or,
}
use Prim.Native.Nat.{bit_and, bit_or, bit_xor}

-- The eight words of `state`, which are also the variables a to h of a round.
pub record State : Type 0 where
  pub a : ℕ
  pub b : ℕ
  pub c : ℕ
  pub d : ℕ
  pub e : ℕ
  pub f : ℕ
  pub g : ℕ
  pub h : ℕ

abbrev pub rotr : ℕ → ℕ → ℕ
rotr value count = bit_or (value / 2 ^ count) (value * 2 ^ (32 - count) % 2 ^ 32)

-- The big-endian word at a place of the data.
abbrev pub load_be32 : Bytes → ℕ → ℕ
load_be32 buffer i =
    bit_or
      (bit_or (bit_or (get_or buffer i 0 * 2 ^ 24) (get_or buffer (i + 1) 0 * 2 ^ 16))
        (get_or buffer (i + 2) 0 * 2 ^ 8))
      (get_or buffer (i + 3) 0)

abbrev pub k : List ℕ
k =
    0x428A2F98
    ∷ (0x71374491
        ∷ (0xB5C0FBCF
            ∷ (0xE9B5DBA5
                ∷ (0x3956C25B
                    ∷ (0x59F111F1
                        ∷ (0x923F82A4
                            ∷ (0xAB1C5ED5
                                ∷ (0xD807AA98
                                    ∷ (0x12835B01
                                        ∷ (0x243185BE
                                            ∷ (0x550C7DC3
                                                ∷ (0x72BE5D74
                                                    ∷ (0x80DEB1FE
                                                        ∷ (0x9BDC06A7
                                                            ∷ (0xC19BF174
                                                            ∷ (0xE49B69C1
                                                            ∷ (0xEFBE4786
                                                            ∷ (0x0FC19DC6
                                                            ∷ (0x240CA1CC
                                                            ∷ (0x2DE92C6F
                                                            ∷ (0x4A7484AA
                                                            ∷ (0x5CB0A9DC
                                                            ∷ (0x76F988DA
                                                            ∷ (0x983E5152
                                                            ∷ (0xA831C66D
                                                            ∷ (0xB00327C8
                                                            ∷ (0xBF597FC7
                                                            ∷ (0xC6E00BF3
                                                            ∷ (0xD5A79147
                                                            ∷ (0x06CA6351
                                                            ∷ (0x14292967
                                                            ∷ (0x27B70A85
                                                            ∷ (0x2E1B2138
                                                            ∷ (0x4D2C6DFC
                                                            ∷ (0x53380D13
                                                            ∷ (0x650A7354
                                                            ∷ (0x766A0ABB
                                                            ∷ (0x81C2C92E
                                                            ∷ (0x92722C85
                                                            ∷ (0xA2BFE8A1
                                                            ∷ (0xA81A664B
                                                            ∷ (0xC24B8B70
                                                            ∷ (0xC76C51A3
                                                            ∷ (0xD192E819
                                                            ∷ (0xD6990624
                                                            ∷ (0xF40E3585
                                                            ∷ (0x106AA070
                                                            ∷ (0x19A4C116
                                                            ∷ (0x1E376C08
                                                            ∷ (0x2748774C
                                                            ∷ (0x34B0BCB5
                                                            ∷ (0x391C0CB3
                                                            ∷ (0x4ED8AA4A
                                                            ∷ (0x5B9CCA4F
                                                            ∷ (0x682E6FF3
                                                            ∷ (0x748F82EE
                                                            ∷ (0x78A5636F
                                                            ∷ (0x84C87814
                                                            ∷ (0x8CC70208
                                                            ∷ (0x90BEFFFA
                                                            ∷ (0xA4506CEB
                                                            ∷ (0xBEF9A3F7 ∷ (0xC67178F2 ∷ []))))))))
                                                            ))))))))))))))))))))))))))))))))))))))))
                                                            )))))))))))))))

abbrev first_words : ℕ → ℕ → Bytes → List ℕ
first_words zero i buffer = []
first_words (suc n) i buffer = load_be32 buffer (i * 4) ∷ first_words n (i + 1) buffer

-- The word of the schedule behind those in `m`.
abbrev next_word : List ℕ → ℕ
next_word m =
    let i = length m in
    let x = get_or m (i - 15) 0 in
    let y = get_or m (i - 2) 0 in
    let s0 = bit_xor (bit_xor (rotr x 7) (rotr x 18)) (x / 2 ^ 3) in
    let s1 = bit_xor (bit_xor (rotr y 17) (rotr y 19)) (y / 2 ^ 10) in
    (get_or m (i - 16) 0 + s0 + get_or m (i - 7) 0 + s1) % 2 ^ 32

abbrev schedule : ℕ → List ℕ → List ℕ
schedule zero m = m
schedule (suc n) m = schedule n (m ++ (next_word m ∷ []))

abbrev sha_round : ℕ → ℕ → State → State
sha_round ki mi v =
    let s1 = bit_xor (bit_xor (rotr v.e 6) (rotr v.e 11)) (rotr v.e 25) in
    let ch = bit_xor (bit_and v.e v.f) (bit_and (2 ^ 32 - 1 - v.e) v.g) in
    let temp1 = (v.h + s1 + ch + ki + mi) % 2 ^ 32 in
    let s0 = bit_xor (bit_xor (rotr v.a 2) (rotr v.a 13)) (rotr v.a 22) in
    let maj = bit_xor (bit_xor (bit_and v.a v.b) (bit_and v.a v.c)) (bit_and v.b v.c) in
    let temp2 = (s0 + maj) % 2 ^ 32 in
    record {
      a = (temp1 + temp2) % 2 ^ 32;
      b = v.a;
      c = v.b;
      d = v.c;
      e = (v.d + temp1) % 2 ^ 32;
      f = v.e;
      g = v.f;
      h = v.g;
    }

abbrev rounds : List ℕ → List ℕ → State → State
rounds [] m v = v
rounds (ki ∷ ks) [] v = v
rounds (ki ∷ ks) (mi ∷ m) v = rounds ks m (sha_round ki mi v)

abbrev add32 : ℕ → ℕ → ℕ
add32 x y = (x + y) % 2 ^ 32

unfoldable pub transform : State → Bytes → State
transform s buffer =
    let v = rounds k (schedule 48 (first_words 16 0 buffer)) s in
    record {
      a = add32 s.a v.a;
      b = add32 s.b v.b;
      c = add32 s.c v.c;
      d = add32 s.d v.d;
      e = add32 s.e v.e;
      f = add32 s.f v.f;
      g = add32 s.g v.g;
      h = add32 s.h v.h;
    }
