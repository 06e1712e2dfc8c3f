-- ===== src/User/Sha/Blocks.antt =====
-- The hash against its description by blocks: the message padded to whole blocks, and the states that
-- they are absorbed into one by one.
use xiaobai_os.Base.{
  ℕ, suc, ◌+◌, ◌-◌, ◌*◌, ◌%◌, ◌^◌, ◌<◌, ◌≡◌, refl, sym, ap, ◌∙◌, arith, inl, inr, true, false, ◌==◌,
  Bool-cases, List, [], ◌∷◌, ◌++◌, append-nil, append_assoc, Bytes, All, All-append, length,
  length-append, set, set-append, replicate,
}
use xiaobai_os.User.Compress.{State, transform}
use xiaobai_os.User.Sha.{Hasher, initial, sha_init, put, update, byte_of}

unfoldable pub absorb : State → List Bytes → State
absorb s [] = s
absorb s (b ∷ bs) = absorb (transform s b) bs

unfoldable pub joined : List Bytes → Bytes
joined [] = []
joined (b ∷ bs) = b ++ joined bs

-- A number of 64 bits in big-endian order.
abbrev pub be64 : ℕ → Bytes
be64 bits =
    byte_of bits 56
    ∷ (byte_of bits 48
        ∷ (byte_of bits 40
            ∷ (byte_of bits 32
                ∷ (byte_of bits 24
                    ∷ (byte_of bits 16 ∷ (byte_of bits 8 ∷ (byte_of bits 0 ∷ [])))))))

-- The message, a byte 0x80, as few zeros as fill a block but for 8 bytes, and the number of bits.
abbrev pub padded : Bytes → Bytes
padded msg =
    msg ++ (0x80 ∷ (replicate ((119 - length msg % 64) % 64) 0 ++ be64 (length msg * 8 % 2 ^ 64)))

abbrev pub AreBlocks : List Bytes → Type 0
AreBlocks = All (λ b. length b ≡ 64)

-- What the context holds of a message: whole blocks in the state, and the rest in the buffer.
pub record Holds (msg : Bytes) (ctx : Hasher) : Type 0 where
  pub blocks : List Bytes
  pub rest : Bytes
  pub tail : Bytes
  pub full : AreBlocks blocks
  pub whole : msg ≡ joined blocks ++ rest
  pub held : ctx.buffer ≡ rest ++ tail
  pub size : length rest + length tail ≡ 64
  pub room : length rest < 64
  pub pending : ctx.datalen ≡ length rest
  pub bits : ctx.bitlen ≡ 512 * length blocks % 2 ^ 64
  pub absorbed : ctx.state ≡ absorb initial blocks

pub absorb-append : (s : State) (bs cs : List Bytes) → absorb s (bs ++ cs) ≡ absorb (absorb s bs) cs
unfolding absorb
absorb-append s [] cs = refl
absorb-append s (b ∷ bs) cs = absorb-append (transform s b) bs cs

pub joined-append : (bs cs : List Bytes) → joined (bs ++ cs) ≡ joined bs ++ joined cs
unfolding joined
joined-append [] cs = refl
joined-append (b ∷ bs) cs =
    ap (λ t. b ++ t) (joined-append bs cs) ∙ sym (append_assoc b (joined bs) (joined cs))

pub joined_one : (b : Bytes) → joined (b ∷ []) ≡ b
unfolding joined
joined_one b = append-nil b

pub length-joined : (bs : List Bytes) → AreBlocks bs → length (joined bs) ≡ 64 * length bs
unfolding joined
length-joined [] h = refl
length-joined (b ∷ bs) (e, h) = omega (arith, length-append b (joined bs), length-joined bs h)

init-Holds : (buffer : Bytes) → length buffer ≡ 64 → Holds [] (sha_init buffer)
init-Holds buffer e = record {
  blocks = [];
  rest = [];
  tail = buffer;
  full = tt;
  whole = unfold joined in refl;
  held = refl;
  size = omega arith;
  room = omega arith;
  pending = refl;
  bits = refl;
  absorbed = unfold absorb in refl;
}

put_more :
    (ctx : Hasher) (c : ℕ)
    → (ctx.datalen + 1 == 64) ≡ false
    → put ctx c ≡ record ctx { buffer = set ctx.buffer ctx.datalen c; datalen = ctx.datalen + 1 }
unfolding put
put_more ctx c e = rw e refl

put_last :
    (ctx : Hasher) (c : ℕ)
    → (ctx.datalen + 1 == 64) ≡ true
    → put ctx c ≡ record {
      buffer = set ctx.buffer ctx.datalen c;
      datalen = 0;
      bitlen = (ctx.bitlen + 512) % 2 ^ 64;
      state = transform ctx.state (set ctx.buffer ctx.datalen c);
    }
unfolding put
put_last ctx c e = rw e refl

pub nonempty : (tail : Bytes) → 0 < length tail → (x : ℕ) × (t : Bytes) × (tail ≡ x ∷ t)
nonempty [] h = absurd (omega arith)
nonempty (x ∷ t) h = (x, t, refl)

-- The buffer with one more byte in it.
pub written :
    {msg : Bytes} {ctx : Hasher} (c x : ℕ) (t : Bytes) (h : Holds msg ctx)
    → h.tail ≡ x ∷ t
    → set ctx.buffer ctx.datalen c ≡ h.rest ++ (c ∷ t)
written c x t h e =
    rw (h.held, h.pending, e) (set-append h.rest (x ∷ t) 0 (length h.rest) c (omega arith))

no_more : (t : Bytes) → length t ≡ 0 → t ≡ []
no_more [] e = refl
no_more (x ∷ t) e = absurd (omega arith)

put-Holds_more :
    (msg : Bytes) (ctx : Hasher) (c x : ℕ) (t : Bytes) (h : Holds msg ctx)
    → h.tail ≡ x ∷ t
    → (ctx.datalen + 1 == 64) ≡ false
    → Holds (msg ++ (c ∷ [])) (put ctx c)
put-Holds_more msg ctx c x t h e q =
    let longer : length (h.rest ++ (c ∷ [])) ≡ length h.rest + 1 = length-append h.rest (c ∷ []) in
    let old : length h.tail ≡ suc (length t) = ap length e in
    rw (put_more ctx c q) (record {
      blocks = h.blocks;
      rest = h.rest ++ (c ∷ []);
      tail = t;
      full = h.full;
      whole = ap (λ m. m ++ (c ∷ [])) h.whole ∙ append_assoc (joined h.blocks) h.rest (c ∷ []);
      held = written c x t h e ∙ sym (append_assoc h.rest (c ∷ []) t);
      size = omega (arith, h.size);
      room = ground (arith, h.pending, h.room);
      pending = omega (arith, h.pending);
      bits = h.bits;
      absorbed = h.absorbed;
    })

put-Holds_last :
    (msg : Bytes) (ctx : Hasher) (c x : ℕ) (t : Bytes) (h : Holds msg ctx)
    → h.tail ≡ x ∷ t
    → (ctx.datalen + 1 == 64) ≡ true
    → Holds (msg ++ (c ∷ [])) (put ctx c)
put-Holds_last msg ctx c x t h e q =
    let block = h.rest ++ (c ∷ []) in
    let old : length h.tail ≡ suc (length t) = ap length e in
    let last : length h.rest ≡ 63 = ground (arith, h.pending) in
    let longer : length block ≡ 64 = omega (arith, length-append h.rest (c ∷ [])) in
    let stored : set ctx.buffer ctx.datalen c ≡ block =
      written c x t h e ∙ ap (λ r. h.rest ++ (c ∷ r)) (no_more t (omega (arith, h.size))) in
    let more : length (h.blocks ++ (block ∷ [])) ≡ length h.blocks + 1 =
      length-append h.blocks (block ∷ []) in
    rw (put_last ctx c q) (record {
      blocks = h.blocks ++ (block ∷ []);
      rest = [];
      tail = block;
      full = All-append _ h.blocks (block ∷ []) h.full (longer, tt);
      whole =
          ap (λ m. m ++ (c ∷ [])) h.whole
          ∙ append_assoc (joined h.blocks) h.rest (c ∷ [])
          ∙ ap (λ b. joined h.blocks ++ b) (sym (joined_one block))
          ∙ sym (joined-append h.blocks (block ∷ []))
          ∙ sym (append-nil (joined (h.blocks ++ (block ∷ []))));
      held = stored;
      size = omega arith;
      room = omega arith;
      pending = refl;
      bits = omega (arith, h.bits);
      absorbed =
          (rw (stored, h.absorbed, absorb-append initial h.blocks (block ∷ []))
            (unfold absorb in refl));
    })

put-Holds :
    (msg : Bytes) (ctx : Hasher) (c : ℕ) → Holds msg ctx → Holds (msg ++ (c ∷ [])) (put ctx c)
put-Holds msg ctx c h =
    let (x, t, e) = nonempty h.tail (omega (arith, h.size, h.room)) in
    elim (Bool-cases (ctx.datalen + 1 == 64)) [
      | inl q ↦ put-Holds_last msg ctx c x t h e q
      | inr q ↦ put-Holds_more msg ctx c x t h e q
    ]

update-Holds :
    (done msg : Bytes) (ctx : Hasher) → Holds done ctx → Holds (done ++ msg) (update ctx msg)
unfolding update
update-Holds done [] ctx h = rw (append-nil done) h
update-Holds done (c ∷ msg) ctx h =
    rw (← append_assoc done (c ∷ []) msg)
      (update-Holds (done ++ (c ∷ [])) msg (put ctx c) (put-Holds done ctx c h))

pub message-Holds :
    (buffer msg : Bytes) → length buffer ≡ 64 → Holds msg (update (sha_init buffer) msg)
message-Holds buffer msg e = update-Holds [] msg (sha_init buffer) (init-Holds buffer e)
