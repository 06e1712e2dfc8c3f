-- ===== src/User/Sha/Padding.antt =====
-- The last blocks of the hash: what cu_sha256_final adds to the buffer is the padding of the message.
use xiaobai_os.Base.{
  ℕ, suc, ◌+◌, ◌-◌, ◌*◌, ◌%◌, ◌^◌, ◌≤◌, ◌<◌, ◌≡◌, refl, sym, ap, ◌∙◌, arith, inl, inr, true, false,
  ltb, Bool-cases, List, [], ◌∷◌, ◌++◌, append-nil, append_assoc, Bytes, All-append, length,
  length-append, set, replicate, length-replicate, replicate_add,
}
use xiaobai_os.User.Compress.{State, transform}
use xiaobai_os.User.Sha.{
  Hasher, initial, sha_init, update, zeros, pad_block, put_length, spill, sha_final, hex,
  hash_password,
}
use xiaobai_os.User.Sha.Blocks.{
  absorb, joined, be64, padded, AreBlocks, Holds, absorb-append, joined-append, joined_one,
  length-joined, nonempty, written, message-Holds,
}
use xiaobai_os.User.Sha.Filling.{one_block, full_block, last_block}

pad_near :
    (ctx : Hasher)
    → ltb ctx.datalen 56 ≡ true
    → pad_block ctx
      ≡ (zeros (55 - ctx.datalen) (ctx.datalen + 1) (set ctx.buffer ctx.datalen 0x80), ctx.state)
unfolding pad_block
pad_near ctx e = rw e refl

pad_far :
    (ctx : Hasher)
    → ltb ctx.datalen 56 ≡ false
    → pad_block ctx ≡ (
      zeros 56 0 (zeros (63 - ctx.datalen) (ctx.datalen + 1) (set ctx.buffer ctx.datalen 0x80)),
      transform ctx.state
          (zeros (63 - ctx.datalen) (ctx.datalen + 1) (set ctx.buffer ctx.datalen 0x80)),
    )
unfolding pad_block
pad_far ctx e = rw e refl

final-pad :
    (ctx : Hasher) (buffer : Bytes) (state : State)
    → pad_block ctx ≡ (buffer, state)
    → sha_final ctx
      ≡ spill (transform state (put_length ((ctx.bitlen + ctx.datalen * 8) % 2 ^ 64) buffer))
unfolding sha_final
final-pad ctx buffer state e = rw e refl

length-whole :
    {msg : Bytes} {ctx : Hasher} (h : Holds msg ctx)
    → length msg ≡ 64 * length h.blocks + length h.rest
length-whole {msg} h = omega (
  arith,
  ap length h.whole,
  length-append (joined h.blocks) h.rest,
  length-joined h.blocks h.full,
)

total_bits :
    {msg : Bytes} {ctx : Hasher} (h : Holds msg ctx)
    → (ctx.bitlen + ctx.datalen * 8) % 2 ^ 64 ≡ length msg * 8 % 2 ^ 64
total_bits h = omega (arith, h.bits, h.pending, length-whole h)

-- The digest of a message by its padded blocks.
abbrev pub Digest : Bytes → Bytes → Type 0
Digest msg hash =
    (bs : List Bytes) × AreBlocks bs × (joined bs ≡ padded msg) × (hash ≡ spill (absorb initial bs))

absorb_last :
    (s : State) (bs : List Bytes) (b : Bytes)
    → absorb s (bs ++ (b ∷ [])) ≡ transform (absorb s bs) b
absorb_last s bs b = absorb-append s bs (b ∷ []) ∙ (unfold absorb in refl)

near-Digest :
    (msg : Bytes) (ctx : Hasher) (h : Holds msg ctx)
    → length h.rest < 56
    → Digest msg (sha_final ctx)
near-Digest msg ctx h lt =
    let bits = length msg * 8 % 2 ^ 64 in
    let last = h.rest ++ (0x80 ∷ (replicate (55 - length h.rest) 0 ++ be64 bits)) in
    let (x, t, e) = nonempty h.tail (omega (arith, h.size, h.room)) in
    let old : length h.tail ≡ suc (length t) = ap length e in
    let zs : (119 - length msg % 64) % 64 ≡ 55 - length h.rest = omega (arith, length-whole h) in
    let len : length last ≡ 64 = omega (
      arith,
      length-append h.rest (0x80 ∷ (replicate (55 - length h.rest) 0 ++ be64 bits)),
      length-append (replicate (55 - length h.rest) 0) (be64 bits),
      length-replicate {A = ℕ} (55 - length h.rest) 0,
    ) in
    (
      h.blocks ++ (last ∷ []),
      All-append _ h.blocks (last ∷ []) h.full (len, tt),
      joined-append h.blocks (last ∷ [])
          ∙ ap (λ b. joined h.blocks ++ b) (joined_one last)
          ∙ sym (append_assoc (joined h.blocks) h.rest _)
          ∙ ap (λ m. m ++ (0x80 ∷ (replicate (55 - length h.rest) 0 ++ be64 bits))) (sym h.whole)
          ∙ ap (λ z. msg ++ (0x80 ∷ (replicate z 0 ++ be64 bits))) (sym zs),
      final-pad ctx _ _ (pad_near ctx (ground (arith, h.pending)))
          ∙ rw
              (
                total_bits h,
                written 0x80 x t h e,
                h.pending,
                one_block bits h.rest t lt (omega (arith, h.size)),
                h.absorbed,
                absorb_last initial h.blocks last,
              )
              refl,
    )

far-Digest :
    (msg : Bytes) (ctx : Hasher) (h : Holds msg ctx)
    → 56 ≤ length h.rest
    → Digest msg (sha_final ctx)
far-Digest msg ctx h le =
    let bits = length msg * 8 % 2 ^ 64 in
    let n = 63 - length h.rest in
    let first = h.rest ++ (0x80 ∷ replicate n 0) in
    let last = replicate 56 0 ++ be64 bits in
    let (x, t, e) = nonempty h.tail (omega (arith, h.size, h.room)) in
    let old : length h.tail ≡ suc (length t) = ap length e in
    let zs : (119 - length msg % 64) % 64 ≡ n + 56 = omega (arith, length-whole h, h.room) in
    let len : length first ≡ 64 =
      omega (
        arith,
        length-append h.rest (0x80 ∷ replicate n 0),
        length-replicate {A = ℕ} n 0,
        h.room,
      ) in
    let filled = full_block h.rest t (omega (arith, h.size)) in
    (
      h.blocks ++ (first ∷ (last ∷ [])),
      All-append _ h.blocks (first ∷ (last ∷ [])) h.full (len, (refl, tt)),
      joined-append h.blocks (first ∷ (last ∷ []))
          ∙ ap (λ b. joined h.blocks ++ b) (two_joined first last)
          ∙ ap (λ b. joined h.blocks ++ b) (append_assoc h.rest (0x80 ∷ replicate n 0) last)
          ∙ ap (λ b. joined h.blocks ++ (h.rest ++ (0x80 ∷ b))) (replicate_add n 56 0 (be64 bits))
          ∙ sym (append_assoc (joined h.blocks) h.rest _)
          ∙ ap (λ m. m ++ (0x80 ∷ (replicate (n + 56) 0 ++ be64 bits))) (sym h.whole)
          ∙ ap (λ z. msg ++ (0x80 ∷ (replicate z 0 ++ be64 bits))) (sym zs),
      final-pad ctx _ _ (pad_far ctx (ground (arith, h.pending)))
          ∙ rw
              (
                total_bits h,
                written 0x80 x t h e,
                h.pending,
                filled,
                last_block bits first len,
                h.absorbed,
                absorb-append initial h.blocks (first ∷ (last ∷ [])),
              )
              (unfold absorb in refl),
    )
  where
    two_joined : (a b : Bytes) → joined (a ∷ (b ∷ [])) ≡ a ++ b
    two_joined a b = unfold joined in ap (λ r. a ++ r) (append-nil b)

-- The hash of a password of any length is the hexadecimal text of the state that its padded blocks
-- are absorbed into, whatever the 64 bytes of the buffer held before: the bytes that go through the
-- buffer one by one and the two ways of ending it give the blocks of 64 bytes of the padded text, in
-- order.
pub hash_password-Digest :
    (buffer password : Bytes)
    → length buffer ≡ 64
    → (hash : Bytes) × (hash_password buffer password ≡ hex hash) × Digest password hash
hash_password-Digest buffer password e =
    let h = message-Holds buffer password e in
    let ctx = update (sha_init buffer) password in
    (
      sha_final ctx,
      unfold hash_password in refl,
      elim (Bool-cases (ltb (length h.rest) 56)) [
        | inl p ↦ near-Digest password ctx h (ground arith)
        | inr p ↦ far-Digest password ctx h (ground arith)
      ],
    )
