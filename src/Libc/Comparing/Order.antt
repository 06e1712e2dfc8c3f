-- ===== src/Libc/Comparing/Order.antt =====
-- strcmp decides equality of C strings, and orders them by their first difference.
use xiaobai_os.Base.{
  ℕ, ◌<◌, ◌≤◌, ◌≡◌, ◌≢◌, refl, sym, ap, ◌∙◌, ◌↔◌, arith, ◌==◌, some, [], ◌∷◌, ◌++◌, Bytes, All,
  NoNul, IsByte, ℤ, pos, negsuc, neg, if◌then◌else◌,
}
use xiaobai_os.Libc.Pointer.{text}
use xiaobai_os.Libc.Comparing.{char_lt, cmp_from, strcmp}

-- The order that the comparison is meant to compute, on the characters without the NUL.
unfoldable pub compare_text : Bytes → Bytes → ℤ
compare_text [] [] = pos 0
compare_text [] (b ∷ r) = if char_lt 0 b then negsuc 0 else pos 1
compare_text (a ∷ l) [] = if char_lt a 0 then negsuc 0 else pos 1
compare_text (a ∷ l) (b ∷ r) =
    let rest = compare_text l r in if a == b then rest else if char_lt a b then negsuc 0 else pos 1

cmp_from-text :
    (l r u v : Bytes)
    → NoNul l
    → NoNul r
    → cmp_from (l ++ (0 ∷ u)) (r ++ (0 ∷ v)) ≡ some (compare_text l r)
unfolding cmp_from compare_text
cmp_from-text [] [] u v hl hr = ground arith
cmp_from-text [] (b ∷ r) u v hl (p, hr) = ground arith
cmp_from-text (a ∷ l) [] u v (p, hl) hr = ground arith
cmp_from-text (a ∷ l) (b ∷ r) u v (p, hl) (q, hr) = ground (arith, cmp_from-text l r u v hl hr)

compare_text_self : (l : Bytes) → compare_text l l ≡ pos 0
unfolding compare_text
compare_text_self [] = refl
compare_text_self (a ∷ l) = ground (arith, compare_text_self l)

compare_text-eq : (l r : Bytes) → compare_text l r ≡ pos 0 → l ≡ r
unfolding compare_text
compare_text-eq [] [] h = refl
compare_text-eq [] (b ∷ r) h = ground arith
compare_text-eq (a ∷ l) [] h = ground arith
compare_text-eq (a ∷ l) (b ∷ r) h = ground (arith, compare_text-eq l r)

compare_text_swap :
    (l r : Bytes)
    → All IsByte l
    → All IsByte r
    → NoNul l
    → NoNul r
    → compare_text r l ≡ neg (compare_text l r)
unfolding compare_text
compare_text_swap [] [] hl hr nl nr = refl
compare_text_swap [] (b ∷ r) hl (p, hr) nl (n, nr) = ground arith
compare_text_swap (a ∷ l) [] (p, hl) hr (n, nl) nr = ground arith
compare_text_swap (a ∷ l) (b ∷ r) (p, hl) (q, hr) (n, nl) (k, nr) =
    ground (arith, compare_text_swap l r hl hr nl nr)

-- No string lies before one that lies before it: the order is transitive.
compare_text_trans :
    (l m r : Bytes)
    → compare_text l m ≡ negsuc 0
    → compare_text m r ≡ negsuc 0
    → compare_text l r ≡ negsuc 0
unfolding compare_text
compare_text_trans [] [] r p q = ground arith
compare_text_trans [] (b ∷ m) [] p q = ground arith
compare_text_trans [] (b ∷ m) (c ∷ r) p q = ground arith
compare_text_trans (a ∷ l) [] [] p q = ground arith
compare_text_trans (a ∷ l) [] (c ∷ r) p q = ground arith
compare_text_trans (a ∷ l) (b ∷ m) [] p q = ground arith
compare_text_trans (a ∷ l) (b ∷ m) (c ∷ r) p q = ground (arith, compare_text_trans l m r)

pub strcmp-text :
    (a b : ℕ) (l r u v : Bytes)
    → a ≢ 0
    → b ≢ 0
    → a ≢ b
    → NoNul l
    → NoNul r
    → strcmp (text a l u) (text b r v) ≡ some (compare_text l r)
unfolding strcmp
strcmp-text a b l r u v ha hb ne hl hr = ground (arith, cmp_from-text l r u v hl hr)

-- strcmp of two C strings returns 0 exactly if they are the same string. The strings stand at
-- different addresses other than 0.
pub strcmp-eq :
    (a b : ℕ) (l r u v : Bytes)
    → a ≢ 0
    → b ≢ 0
    → a ≢ b
    → NoNul l
    → NoNul r
    → (strcmp (text a l u) (text b r v) ≡ some (pos 0)) ↔ (l ≡ r)
strcmp-eq a b l r u v ha hb ne hl hr = (
  λ e. compare_text-eq l r (ground (arith, strcmp-text a b l r u v ha hb ne hl hr)),
  λ e. rw (strcmp-text a b l r u v ha hb ne hl hr, e) (ap some (compare_text_self r)),
)

-- Swapping the arguments of strcmp negates its result. The strings stand at different addresses
-- other than 0.
pub strcmp_swap :
    (a b : ℕ) (l m u v : Bytes)
    → (a ≢ 0) × (b ≢ 0) × (a ≢ b)
    → NoNul l × All IsByte l
    → NoNul m × All IsByte m
    → (z : ℤ) × (strcmp (text a l u) (text b m v) ≡ some z)
      × (strcmp (text b m v) (text a l u) ≡ some (neg z))
strcmp_swap a b l m u v (ha, hb, ab) (nl, bl) (nm, bm) = (
  compare_text l m,
  strcmp-text a b l m u v ha hb ab nl nm,
  strcmp-text b a m l v u hb ha (λ e. ab (sym e)) nm nl
      ∙ ap some (compare_text_swap l m bl bm nl nm),
)

-- strcmp is transitive: a string before a second that is before a third is before the third. The
-- strings stand at different addresses other than 0.
pub strcmp_trans :
    (a b c : ℕ) (l m r u v w : Bytes)
    → (a ≢ 0) × (b ≢ 0) × (c ≢ 0) × (a ≢ b) × (b ≢ c) × (a ≢ c)
    → NoNul l
    → NoNul m
    → NoNul r
    → strcmp (text a l u) (text b m v) ≡ some (negsuc 0)
    → strcmp (text b m v) (text c r w) ≡ some (negsuc 0)
    → strcmp (text a l u) (text c r w) ≡ some (negsuc 0)
strcmp_trans a b c l m r u v w (ha, hb, hc, ab, bc, ac) nl nm nr p q =
    strcmp-text a c l r u w ha hc ac nl nr
    ∙ ap some (
        compare_text_trans l m r (ground (arith, strcmp-text a b l m u v ha hb ab nl nm))
          (ground (arith, strcmp-text b c m r v w hb hc bc nm nr)))

compare_text-append : (p l r : Bytes) → compare_text (p ++ l) (p ++ r) ≡ compare_text l r
unfolding compare_text
compare_text-append [] l r = refl
compare_text-append (c ∷ p) l r = ground (arith, compare_text-append p l r)

compare_text_high :
    (x y : ℕ) (l r : Bytes) → x < 128 → 128 ≤ y → y < 256 → compare_text (x ∷ l) (y ∷ r) ≡ pos 1
unfolding compare_text
compare_text_high x y l r hx hy h = ground arith

-- Where the first difference is an ASCII character against a byte of 128 or more, strcmp puts the
-- ASCII string last, though its byte is the smaller one. The strings stand at different addresses
-- other than 0.
pub strcmp_high :
    (a b x y : ℕ) (p l r u v : Bytes)
    → (a ≢ 0) × (b ≢ 0) × (a ≢ b)
    → (x < 128) × (128 ≤ y) × (y < 256)
    → NoNul (p ++ (x ∷ l))
    → NoNul (p ++ (y ∷ r))
    → strcmp (text a (p ++ (x ∷ l)) u) (text b (p ++ (y ∷ r)) v) ≡ some (pos 1)
strcmp_high a b x y p l r u v (ha, hb, ne) (hx, hy, h) nl nr =
    strcmp-text a b (p ++ (x ∷ l)) (p ++ (y ∷ r)) u v ha hb ne nl nr
    ∙ ap some (compare_text-append p (x ∷ l) (y ∷ r) ∙ compare_text_high x y l r hx hy h)
