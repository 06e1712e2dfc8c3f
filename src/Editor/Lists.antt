-- ===== src/Editor/Lists.antt =====
-- Lines that are set, put in and taken out, as the edits of xiaobaios/apps/vim_main.c do.
use xiaobai_os.Base.{
  ℕ, zero, suc, ◌≤◌, ◌<◌, ◌≡◌, ◌≢◌, refl, ap, arith, List, [], ◌∷◌, Bytes, length, get_or, set,
  take, All,
}
use xiaobai_os.Editor.State.{max_line_len}
use xiaobai_os.Editor.Edits.{insert_at, remove_at}

abbrev pub IsShort : Bytes → Type 0
IsShort line = length line < max_line_len

pub length-set : (lines : List Bytes) (i : ℕ) (l : Bytes) → length (set lines i l) ≡ length lines
length-set [] i l = refl
length-set (x ∷ lines) zero l = refl
length-set (x ∷ lines) (suc i) l = ap suc (length-set lines i l)

pub All-set :
    (lines : List Bytes) (i : ℕ) (l : Bytes)
    → All IsShort lines
    → IsShort l
    → All IsShort (set lines i l)
All-set [] i l h s = tt
All-set (x ∷ lines) zero l (g, h) s = (s, h)
All-set (x ∷ lines) (suc i) l (g, h) s = (g, All-set lines i l h s)

pub get_or-set_same :
    (lines : List Bytes) (i : ℕ) (l : Bytes) → i < length lines → get_or (set lines i l) i [] ≡ l
get_or-set_same [] i l h = absurd (omega arith)
get_or-set_same (x ∷ lines) zero l h = refl
get_or-set_same (x ∷ lines) (suc i) l h = get_or-set_same lines i l (omega arith)

pub get_or-set_other :
    (lines : List Bytes) (i j : ℕ) (l : Bytes)
    → i ≢ j
    → get_or (set lines i l) j [] ≡ get_or lines j []
get_or-set_other [] i j l ne = refl
get_or-set_other (x ∷ lines) zero zero l ne = absurd (ne refl)
get_or-set_other (x ∷ lines) zero (suc j) l ne = refl
get_or-set_other (x ∷ lines) (suc i) zero l ne = refl
get_or-set_other (x ∷ lines) (suc i) (suc j) l ne = get_or-set_other lines i j l (omega arith)

pub get_or-IsShort : (lines : List Bytes) (i : ℕ) → All IsShort lines → IsShort (get_or lines i [])
get_or-IsShort [] i h = omega arith
get_or-IsShort (x ∷ lines) zero (g, h) = g
get_or-IsShort (x ∷ lines) (suc i) (g, h) = get_or-IsShort lines i h

pub length-insert_at :
    (i : ℕ) (l : Bytes) (lines : List Bytes)
    → i ≤ length lines
    → length (insert_at i l lines) ≡ suc (length lines)
unfolding insert_at
length-insert_at zero l lines h = refl
length-insert_at (suc i) l [] h = absurd (omega arith)
length-insert_at (suc i) l (x ∷ lines) h = ap suc (length-insert_at i l lines (omega arith))

pub All-insert_at :
    (i : ℕ) (l : Bytes) (lines : List Bytes)
    → IsShort l
    → All IsShort lines
    → All IsShort (insert_at i l lines)
unfolding insert_at
All-insert_at zero l lines s h = (s, h)
All-insert_at (suc i) l [] s h = (s, tt)
All-insert_at (suc i) l (x ∷ lines) s (g, h) = (g, All-insert_at i l lines s h)

pub get_or-insert_at_before :
    (i : ℕ) (l : Bytes) (lines : List Bytes) (j : ℕ)
    → j < i
    → i ≤ length lines
    → get_or (insert_at i l lines) j [] ≡ get_or lines j []
unfolding insert_at
get_or-insert_at_before zero l lines j h le = absurd (omega arith)
get_or-insert_at_before (suc i) l [] j h le = absurd (omega arith)
get_or-insert_at_before (suc i) l (x ∷ lines) zero h le = refl
get_or-insert_at_before (suc i) l (x ∷ lines) (suc j) h le =
    get_or-insert_at_before i l lines j (omega arith) (omega arith)

pub get_or-insert_at_same :
    (i : ℕ) (l : Bytes) (lines : List Bytes)
    → i ≤ length lines
    → get_or (insert_at i l lines) i [] ≡ l
unfolding insert_at
get_or-insert_at_same zero l lines le = refl
get_or-insert_at_same (suc i) l [] le = absurd (omega arith)
get_or-insert_at_same (suc i) l (x ∷ lines) le = get_or-insert_at_same i l lines (omega arith)

pub length-remove_at :
    (i : ℕ) (lines : List Bytes)
    → i < length lines
    → suc (length (remove_at i lines)) ≡ length lines
unfolding remove_at
length-remove_at i [] h = absurd (omega arith)
length-remove_at zero (x ∷ lines) h = refl
length-remove_at (suc i) (x ∷ lines) h = ap suc (length-remove_at i lines (omega arith))

pub All-remove_at :
    (i : ℕ) (lines : List Bytes) → All IsShort lines → All IsShort (remove_at i lines)
unfolding remove_at
All-remove_at i [] h = tt
All-remove_at zero (x ∷ lines) (g, h) = h
All-remove_at (suc i) (x ∷ lines) (g, h) = (g, All-remove_at i lines h)

pub get_or-remove_at_before :
    (i j : ℕ) (lines : List Bytes) → j < i → get_or (remove_at i lines) j [] ≡ get_or lines j []
unfolding remove_at
get_or-remove_at_before i j [] h = refl
get_or-remove_at_before zero j (x ∷ lines) h = absurd (omega arith)
get_or-remove_at_before (suc i) zero (x ∷ lines) h = refl
get_or-remove_at_before (suc i) (suc j) (x ∷ lines) h =
    get_or-remove_at_before i j lines (omega arith)

-- A line that is split and joined again, and one that is joined and split.
pub remove_at-insert_at :
    (i : ℕ) (l : Bytes) (lines : List Bytes)
    → i ≤ length lines
    → remove_at i (insert_at i l lines) ≡ lines
unfolding remove_at insert_at
remove_at-insert_at zero l lines h = refl
remove_at-insert_at (suc i) l [] h = absurd (omega arith)
remove_at-insert_at (suc i) l (x ∷ lines) h =
    ap (λ t. x ∷ t) (remove_at-insert_at i l lines (omega arith))

pub length-take_min : (n : ℕ) (l : Bytes) → n ≤ length l → length (take n l) ≡ n
length-take_min zero l h = refl
length-take_min (suc n) [] h = absurd (omega arith)
length-take_min (suc n) (c ∷ l) h = ap suc (length-take_min n l (omega arith))
