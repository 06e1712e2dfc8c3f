-- ===== src/Runtime/Access/Exec.antt =====
-- The file of a command.
use xiaobai_os.Base.{
  ℕ, zero, suc, ◌+◌, ◌-◌, ◌≤◌, ◌<◌, ◌≡◌, refl, sym, ap, subst, ◌∙◌, arith, inl, inr, true, ◌==◌,
  leb, ltb, if◌then◌else◌, Bool-cases, Option-cases, none, some, [], ◌∷◌, ◌++◌, append-nil,
  append_assoc, Bytes, codes, length, length-append, take, take-drop,
}
use xiaobai_os.Runtime.Resolve.{slash}
use xiaobai_os.Runtime.Resolve.Canonical.{resolve_path-IsCanonical}
use xiaobai_os.Runtime.Words.{streq, has_suffix, contains_char, copy}
use xiaobai_os.Runtime.Access.{append_chars, exec_base, add_suffix, resolve_exec_path}

abbrev pub elf : Bytes
elf = codes ".elf"

-- A text that ends in `.elf`.
abbrev pub IsElf : Bytes → Type 0
IsElf path = (front : Bytes) × (path ≡ front ++ elf)

append_chars-append :
    (size : ℕ) (path text : Bytes)
    → length path < size
    → append_chars size path text
      ≡ (if ltb (length path + length text) size then some (path ++ text) else none)
unfolding append_chars
append_chars-append size path [] lt = ground (arith, append-nil path)
append_chars-append size path (c ∷ text) lt = elim (Bool-cases (leb size (length path + 1))) [
  | inl p ↦ ground arith
  | inr p ↦
      let longer = length-append path (c ∷ []) in
      rw p (
        append_chars-append size (path ++ (c ∷ [])) text (ground arith)
        ∙ (rw (longer, append_assoc path (c ∷ []) text) (ground arith)))
]

pub streq→eq : (l r : Bytes) → streq l r ≡ true → l ≡ r
unfolding streq
streq→eq [] [] e = refl
streq→eq [] (d ∷ r) e = cc
streq→eq (c ∷ l) [] e = cc
streq→eq (c ∷ l) (d ∷ r) e = ground (arith, streq→eq l r (ground arith))

has_suffix-IsElf : (path : Bytes) → has_suffix path elf ≡ true → IsElf path
unfolding has_suffix
has_suffix-IsElf path e = (
  take (length path - 4) path,
  sym (take-drop (length path - 4) path)
      ∙ ap (λ t. take (length path - 4) path ++ t) (streq→eq _ elf (ground arith)),
)

length-take_lt : (n : ℕ) (s : Bytes) → length (take n s) < n + 1
length-take_lt zero s = omega arith
length-take_lt (suc n) [] = omega arith
length-take_lt (suc n) (c ∷ s) = omega (arith, length-take_lt n s)

exec_base_fits :
    (cwd : Bytes) (c : ℕ) (arg : Bytes) (size : ℕ) {path : Bytes}
    → 2 ≤ size
    → exec_base cwd c arg size ≡ some path
    → length path < size
unfolding exec_base copy
exec_base_fits cwd c arg zero h e = absurd (omega arith)
exec_base_fits cwd c arg (suc n) {path} h e = elim (Bool-cases (c == slash)) [
  | inl p ↦
      subst (λ t. length t < suc n) {x = take n (c ∷ arg)} (ground arith)
        (omega (arith, length-take_lt n (c ∷ arg)))
  | inr p ↦ elim (Bool-cases (contains_char (c ∷ arg) slash)) [
    | inl q ↦
        let (st, whole, canonical, fits) =
          resolve_path-IsCanonical cwd (some (c ∷ arg)) (suc n) {path = path} h (ground arith) in
        fits
    | inr q ↦ elim (Bool-cases (leb (suc n) (7 + 1))) [
      | inl r ↦ absurd (ground arith)
      | inr r ↦
          let grown = append_chars-append (suc n) (codes "/shell/") (c ∷ arg) (ground arith) in
          elim (Bool-cases (ltb (7 + length (c ∷ arg)) (suc n))) [
            | inl s ↦
                subst (λ t. length t < suc n) {x = codes "/shell/" ++ (c ∷ arg)} (ground arith)
                  (ground arith)
            | inr s ↦ absurd (ground arith)
          ]
    ]
  ]
]

add_suffix-IsElf :
    (size : ℕ) (b : Bytes) {path : Bytes}
    → length b < size
    → add_suffix size b ≡ some path
    → IsElf path × (length path < size)
unfolding add_suffix
add_suffix-IsElf size b {path} lt f = elim (Bool-cases (has_suffix b elf)) [
  | inl p ↦
      subst (λ t. IsElf t × (length t < size)) {x = b} (ground arith) (has_suffix-IsElf b p, lt)
  | inr p ↦ elim (Bool-cases (ltb (length b + 4) size)) [
    | inl q ↦
        subst (λ t. IsElf t × (length t < size)) {x = b ++ elf}
          (ground (arith, append_chars-append size b elf lt))
          ((b, refl), ground (arith, length-append b elf))
    | inr q ↦ absurd (ground (arith, append_chars-append size b elf lt))
  ]
]

-- Where ush_resolve_exec_path succeeds in a buffer of 2 bytes or more, its path ends in `.elf`, and
-- with its NUL it fits the buffer.
pub resolve_exec_path-IsElf :
    (cwd arg : Bytes) (size : ℕ) {path : Bytes}
    → 2 ≤ size
    → resolve_exec_path cwd arg size ≡ some path
    → IsElf path × (length path < size)
unfolding resolve_exec_path
resolve_exec_path-IsElf cwd [] size h e = cc
resolve_exec_path-IsElf cwd (c ∷ arg) size {path} h e =
    elim (Option-cases (exec_base cwd c arg size)) [
      | inl n ↦ absurd (ground arith)
      | inr (b, n) ↦ add_suffix-IsElf size b (exec_base_fits cwd c arg size h n) (ground arith)
    ]
