-- ===== src/Expr/Ensures.antt =====
-- Postconditions of the runs of playbook_expr.py: a run either returns a value with the property
-- or raises an ExprError, and does nothing else.
use mathlib.Core.Path.{subst}
use models_utils.Prelude.{◌≡◌, ◌≢◌, refl, Bool, true, false, Option, none, some, if◌then◌else◌}
use models_utils.Expr.Codes.{
  Code, Result, ok, err, key_error, out_of_fuel, ◌>>=◌, ◌>>◌, require, choose,
}

pub data Ensures {ℓ κ} {A : Type ℓ} (P : A → Type κ) : Result A → Type (ℓ ⊔ κ) where
  returned : {a : A} → P a → Ensures P (ok a)
  raised : {c : Code} → Ensures P (err c)

module _ {ℓ κ} {A : Type ℓ} {P : A → Type κ} where
  pub Ensures-ok : {r : Result A} {a : A} → Ensures P r → r ≡ ok a → P a
  Ensures-ok (returned h) e = subst P (cc) h
  Ensures-ok raised e = cc

  pub Ensures-out_of_fuel : {r : Result A} → Ensures P r → r ≢ out_of_fuel
  Ensures-out_of_fuel (returned h) e = cc
  Ensures-out_of_fuel raised e = cc

  pub Ensures-key_error : {r : Result A} → Ensures P r → r ≢ key_error
  Ensures-key_error (returned h) e = cc
  Ensures-key_error raised e = cc

  pub Ensures-weaken {κ'} :
      {Q : A → Type κ'} {r : Result A} → ((a : A) → P a → Q a) → Ensures P r → Ensures Q r
  Ensures-weaken k (returned {a} h) = returned (k a h)
  Ensures-weaken k raised = raised

  pub Ensures-if :
      (b : Bool) {x y : Result A}
      → (b ≡ true → Ensures P x)
      → (b ≡ false → Ensures P y)
      → Ensures P (if b then x else y)
  Ensures-if true hx hy = hx refl
  Ensures-if false hx hy = hy refl

  pub Ensures-choose {ℓ'} :
      {B : Type ℓ'} (o : Option B) {x : Result A} {f : B → Result A}
      → (o ≡ none → Ensures P x)
      → ((b : B) → o ≡ some b → Ensures P (f b))
      → Ensures P (choose o x f)
  Ensures-choose none hx hf = hx refl
  Ensures-choose (some b) hx hf = hf b refl

  pub Ensures-require :
      (b : Bool) (c : Code) (x : Result A) → (b ≡ true → Ensures P x) → Ensures P (require b c >> x)
  Ensures-require true c x hx = hx refl
  Ensures-require false c x hx = raised

  pub Ensures-bind {ℓ' κ'} :
      {B : Type ℓ'} {Q : B → Type κ'} {r : Result A} {f : A → Result B}
      → Ensures P r
      → ((a : A) → P a → Ensures Q (f a))
      → Ensures Q (r >>= f)
  Ensures-bind (returned {a} h) k = k a h
  Ensures-bind raised k = raised
