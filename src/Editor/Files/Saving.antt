-- ===== src/Editor/Files/Saving.antt =====
-- A file that xiaobaios/apps/vim_main.c saves holds the lines, however the kernel takes the writes.
use xiaobai_os.Base.{
  ℕ, zero, suc, ◌+◌, ◌-◌, ◌^◌, ◌≡◌, ◌≢◌, sym, ap, ◌∙◌, arith, true, Bool-cases, inl, inr, ◌||◌,
  ◌==◌, some, List, [], ◌∷◌, ◌++◌, append-nil, append_assoc, Bytes, length, length-append, take,
  drop, take-drop,
}
use xiaobai_os.Editor.Files.{
  Files, write_from, fd_write_all, newline_between, write_line, write_lines,
}

-- The text of the lines: a newline between them, and none at the end.
unfoldable pub joined : List Bytes → Bytes
joined [] = []
joined (line ∷ []) = line
joined (line ∷ (next ∷ more)) = line ++ (10 ∷ joined (next ∷ more))

-- What a write promises about the text that is written so far: where it does not fail, the bytes that it
-- says it took are added.
pub record Writes {W : Type 0} (F : Files W) (content : W → Bytes) : Type 0 where
  pub taken :
      (w : W) (fd : ℕ) (text : Bytes)
      → (F.fd_write w fd text).1 ≢ 2 ^ 64 - 1
      → content (F.fd_write w fd text).0 ≡ content w ++ take (F.fd_write w fd text).1 text

module _ {W : Type 0} (F : Files W) {content : W → Bytes} (laws : Writes F content) where
  write_from-content :
      (f fd : ℕ) (text : Bytes) (w : W)
      → (write_from F f fd text w).1 ≡ true
      → content (write_from F f fd text w).0 ≡ content w ++ text
  unfolding write_from
  write_from-content zero fd text w e = cc
  write_from-content (suc f) fd [] w e = sym (append-nil (content w))
  write_from-content (suc f) fd (c ∷ text) w e =
      let p = F.fd_write w fd (c ∷ text) in
      elim (Bool-cases (p.1 == 2 ^ 64 - 1 || p.1 == 0)) [
        | inl q ↦ let no = rw q at e in cc
        | inr q ↦
            let rest = write_from-content f fd (drop p.1 (c ∷ text)) p.0 (rw q at e) in
            rw q (
              rest
              ∙ ap (λ t. t ++ drop p.1 (c ∷ text)) (laws.taken w fd (c ∷ text) (ground arith))
              ∙ append_assoc (content w) (take p.1 (c ∷ text)) (drop p.1 (c ∷ text))
              ∙ ap (λ t. content w ++ t) (take-drop p.1 (c ∷ text)))
      ]

  write_line-content :
      (fd : ℕ) (line : Bytes) (more : List Bytes) (w : W)
      → (write_line F fd line more w).1 ≡ true
      → content (write_line F fd line more w).0 ≡ content w ++ (line ++ newline_between F more)
  unfolding write_line fd_write_all
  write_line-content fd line more w e =
      let first = fd_write_all F fd line w in
      elim (Bool-cases first.1) [
        | inr q ↦ let no = rw q at e in cc
        | inl q ↦ rw q (
            write_from-content (length (newline_between F more) + 1) fd (newline_between F more)
              first.0 (rw q at e)
            ∙ ap (λ t. t ++ newline_between F more)
                (write_from-content (length line + 1) fd line w q)
            ∙ append_assoc (content w) line (newline_between F more))
      ]

  -- The lines that are written with success are all there, with newlines between them, however many bytes
  -- the kernel takes at a time, and the count is that of the bytes written.
  pub write_lines-joined :
      (fd : ℕ) (lines : List Bytes) (count : ℕ) (w : W) {bytes : ℕ}
      → (write_lines F fd lines count w).1 ≡ some bytes
      → (content (write_lines F fd lines count w).0 ≡ content w ++ joined lines)
        × (bytes ≡ count + length (joined lines))
  unfolding write_lines joined
  write_lines-joined fd [] count w {bytes} e =
      let same : count ≡ bytes = cc in (sym (append-nil (content w)), omega arith)
  write_lines-joined fd (line ∷ more) count w {bytes} e =
      let p = write_line F fd line more w in
      let n = count + length line + length (newline_between F more) in
      elim (Bool-cases p.1) [
        | inr q ↦ let no = rw q at e in cc
        | inl q ↦
            let (text, size) = write_lines-joined fd more n p.0 {bytes = bytes} (rw q at e) in
            let whole = joined_first line more in
            rw q (
              text
                  ∙ ap (λ t. t ++ joined more) (write_line-content fd line more w q)
                  ∙ append_assoc (content w) (line ++ newline_between F more) (joined more)
                  ∙ ap (λ t. content w ++ t) whole,
              size
                  ∙ omega (
                    arith,
                    sym (ap length whole),
                    length-append (line ++ newline_between F more) (joined more),
                    length-append line (newline_between F more),
                  ),
            )
      ]
    where
      joined_first :
          (line : Bytes) (more : List Bytes)
          → (line ++ newline_between F more) ++ joined more ≡ joined (line ∷ more)
      joined_first line [] = append-nil (line ++ []) ∙ append-nil line
      joined_first line (next ∷ more) = append_assoc line (10 ∷ []) (joined (next ∷ more))
