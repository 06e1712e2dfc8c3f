-- ===== src/User/Sha/Filling.antt =====
-- What the loops and the writes of cu_sha256_final leave in the buffer.
use xiaobai_os.Base.{
  ℕ, zero, suc, ◌+◌, ◌-◌, ◌<◌, ◌≡◌, refl, sym, ap, ◌∙◌, arith, [], ◌∷◌, ◌++◌, append-nil,
  append_assoc, Bytes, length, length-append, set, set-append, take, drop, take-drop, length-take,
  length-drop, replicate, length-replicate,
}
use xiaobai_os.User.Sha.{zeros, byte_of, put_length}
use xiaobai_os.User.Sha.Blocks.{be64}

-- Zeros overwrite what stands between a start and an end of the buffer.
zeros-append :
    (n i : ℕ) (u v w : Bytes)
    → i ≡ length u
    → length v ≡ n
    → zeros n i (u ++ (v ++ w)) ≡ u ++ (replicate n 0 ++ w)
unfolding zeros
zeros-append zero i u [] w e f = refl
zeros-append zero i u (x ∷ v) w e f = absurd (omega arith)
zeros-append (suc n) i u [] w e f = absurd (omega arith)
zeros-append (suc n) i u (x ∷ v) w e f =
    rw (set-append u (x ∷ (v ++ w)) 0 i 0 (omega arith), ← append_assoc u (0 ∷ []) (v ++ w))
      (zeros-append n (i + 1) (u ++ (0 ∷ [])) v w (omega (arith, length-append u (0 ∷ [])))
          (omega arith)
        ∙ append_assoc u (0 ∷ []) (replicate n 0 ++ w))

eight :
    (w : Bytes)
    → length w ≡ 8
    → (a b c d e f g h : ℕ) × (w ≡ a ∷ (b ∷ (c ∷ (d ∷ (e ∷ (f ∷ (g ∷ (h ∷ []))))))))
eight (a ∷ (b ∷ (c ∷ (d ∷ (e ∷ (f ∷ (g ∷ (h ∷ [])))))))) l = (a, b, c, d, e, f, g, h, refl)
eight [] l = absurd (omega arith)
eight (a ∷ []) l = absurd (omega arith)
eight (a ∷ (b ∷ [])) l = absurd (omega arith)
eight (a ∷ (b ∷ (c ∷ []))) l = absurd (omega arith)
eight (a ∷ (b ∷ (c ∷ (d ∷ [])))) l = absurd (omega arith)
eight (a ∷ (b ∷ (c ∷ (d ∷ (e ∷ []))))) l = absurd (omega arith)
eight (a ∷ (b ∷ (c ∷ (d ∷ (e ∷ (f ∷ [])))))) l = absurd (omega arith)
eight (a ∷ (b ∷ (c ∷ (d ∷ (e ∷ (f ∷ (g ∷ []))))))) l = absurd (omega arith)
eight (a ∷ (b ∷ (c ∷ (d ∷ (e ∷ (f ∷ (g ∷ (h ∷ (i ∷ w))))))))) l = absurd (omega arith)

-- The length goes over the last 8 bytes.
put_length-append :
    (bits : ℕ) (u w : Bytes)
    → length u ≡ 56
    → length w ≡ 8
    → put_length bits (u ++ w) ≡ u ++ be64 bits
unfolding put_length
put_length-append bits u w e l =
    let (a, b, c, d, x, f, g, h, q) = eight w l in
    let at : (j k v : ℕ) (t : Bytes) → k ≡ 56 + j → set (u ++ t) k v ≡ u ++ set t j v =
      λ j k v t p. set-append u t j k v (omega arith) in
    rw
      (
        q,
        at 7 63 (byte_of bits 0) _ (omega arith),
        at 6 62 (byte_of bits 8) _ (omega arith),
        at 5 61 (byte_of bits 16) _ (omega arith),
        at 4 60 (byte_of bits 24) _ (omega arith),
        at 3 59 (byte_of bits 32) _ (omega arith),
        at 2 58 (byte_of bits 40) _ (omega arith),
        at 1 57 (byte_of bits 48) _ (omega arith),
        at 0 56 (byte_of bits 56) _ (omega arith),
      )
      refl

-- The mark and the zeros behind a rest that leaves room for the length.
pub one_block :
    (bits : ℕ) (rest t : Bytes)
    → length rest < 56
    → length rest + length t ≡ 63
    → put_length bits (zeros (55 - length rest) (length rest + 1) (rest ++ (0x80 ∷ t)))
      ≡ rest ++ (0x80 ∷ (replicate (55 - length rest) 0 ++ be64 bits))
one_block bits rest t lt size =
    let n = 55 - length rest in
    let front = rest ++ (0x80 ∷ []) in
    let len : length front ≡ length rest + 1 = length-append rest (0x80 ∷ []) in
    let len' : length (front ++ replicate n 0) ≡ 56 =
      omega (arith, length-append front (replicate n 0), length-replicate {A = ℕ} n 0) in
    let split : rest ++ (0x80 ∷ t) ≡ front ++ (take n t ++ drop n t) =
      sym (append_assoc rest (0x80 ∷ []) t) ∙ ap (λ s. front ++ s) (sym (take-drop n t)) in
    rw
      (
        split,
        zeros-append n (length rest + 1) front (take n t) (drop n t) (omega arith)
            (length-take n t (omega arith)),
        ← append_assoc front (replicate n 0) (drop n t),
        put_length-append bits (front ++ replicate n 0) (drop n t) len'
            (omega (arith, length-drop n t)),
        append_assoc front (replicate n 0) (be64 bits),
        append_assoc rest (0x80 ∷ []) (replicate n 0 ++ be64 bits),
      )
      refl

-- The first of two blocks is filled with zeros.
pub full_block :
    (rest t : Bytes)
    → length rest + length t ≡ 63
    → zeros (63 - length rest) (length rest + 1) (rest ++ (0x80 ∷ t))
      ≡ rest ++ (0x80 ∷ replicate (63 - length rest) 0)
full_block rest t size =
    let n = 63 - length rest in
    let front = rest ++ (0x80 ∷ []) in
    let len : length front ≡ length rest + 1 = length-append rest (0x80 ∷ []) in
    let split : rest ++ (0x80 ∷ t) ≡ front ++ (t ++ []) =
      sym (append_assoc rest (0x80 ∷ []) t) ∙ ap (λ s. front ++ s) (sym (append-nil t)) in
    rw
      (
        split,
        zeros-append n (length rest + 1) front t [] (omega arith) (omega arith),
        append-nil (replicate {A = ℕ} n 0),
        append_assoc rest (0x80 ∷ []) (replicate n 0),
      )
      refl

pub last_block :
    (bits : ℕ) (full : Bytes)
    → length full ≡ 64
    → put_length bits (zeros 56 0 full) ≡ replicate 56 0 ++ be64 bits
last_block bits full e =
    let len : length (replicate {A = ℕ} 56 0) ≡ 56 = length-replicate {A = ℕ} 56 0 in
    rw
      (
        ← take-drop 56 full,
        zeros-append 56 0 [] (take 56 full) (drop 56 full) refl (length-take 56 full (omega arith)),
        put_length-append bits (replicate 56 0) (drop 56 full) len
            (omega (arith, length-drop 56 full)),
      )
      refl
