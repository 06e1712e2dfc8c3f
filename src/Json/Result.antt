-- ===== src/Json/Result.antt =====
-- What a reading function of xiaobaios/apps/pkg_cjson_min.c leaves.
use xiaobai_os.Base.{◌≡◌, ◌≢◌, refl, subst, Bool, true, false, if◌then◌else◌, Bytes}

-- `failed` holds the text from `reader->error` on. `overflowed` is a signed overflow, which C leaves
-- undefined, and `out_of_fuel` has no counterpart in the code.
pub data Result {ℓ} (A : Type ℓ) : Type ℓ where
  ok : A → Result A
  failed : Bytes → Result A
  overflowed out_of_fuel : Result A

infixl 5 ◌>>=◌
abbrev pub ◌>>=◌ {ℓ κ} : {A : Type ℓ} {B : Type κ} → Result A → (A → Result B) → Result B
ok a >>= f = f a
failed s >>= f = failed s
overflowed >>= f = overflowed
out_of_fuel >>= f = out_of_fuel

-- The run ends within its fuel, and `P` holds of its value if it has one.
abbrev pub Ensures {ℓ} : {A : Type ℓ} → (A → Type 0) → Result A → Type 0
Ensures P (ok a) = P a
Ensures P (failed s) = Unit
Ensures P overflowed = Unit
Ensures P out_of_fuel = ⊥

module _ {ℓ} {A : Type ℓ} (P : A → Type 0) where
  pub Ensures-bind {κ} :
      {B : Type κ} (Q : B → Type 0) (r : Result A) (f : A → Result B)
      → Ensures P r
      → ((a : A) → P a → Ensures Q (f a))
      → Ensures Q (r >>= f)
  Ensures-bind Q (ok a) f h k = k a h
  Ensures-bind Q (failed s) f h k = tt
  Ensures-bind Q overflowed f h k = tt
  Ensures-bind Q out_of_fuel f h k = absurd h

  pub Ensures-if :
      (b : Bool) (x y : Result A)
      → (b ≡ true → Ensures P x)
      → (b ≡ false → Ensures P y)
      → Ensures P (if b then x else y)
  Ensures-if true x y h k = h refl
  Ensures-if false x y h k = k refl

  pub Ensures-ok : (r : Result A) {a : A} → Ensures P r → r ≡ ok a → P a
  Ensures-ok (ok b) {a} h e = let same : b ≡ a = cc in subst P same h
  Ensures-ok (failed s) h e = cc
  Ensures-ok overflowed h e = cc
  Ensures-ok out_of_fuel h e = cc

  pub Ensures-out_of_fuel : (r : Result A) → Ensures P r → r ≢ out_of_fuel
  Ensures-out_of_fuel (ok b) h e = cc
  Ensures-out_of_fuel (failed s) h e = cc
  Ensures-out_of_fuel overflowed h e = cc
  Ensures-out_of_fuel out_of_fuel h e = h

  pub Ensures-imp :
      (Q : A → Type 0) (r : Result A) → ((a : A) → P a → Q a) → Ensures P r → Ensures Q r
  Ensures-imp Q (ok b) k h = k b h
  Ensures-imp Q (failed s) k h = tt
  Ensures-imp Q overflowed k h = tt
  Ensures-imp Q out_of_fuel k h = h
