-- ===== src/Template/Ensures.antt =====
-- Postconditions of the functions of playbook_template.py that raise TemplateError: a run returns a
-- value with the property or raises, and does nothing else.
use mathlib.Core.Path.{subst}
use models_utils.Prelude.{◌≡◌, refl, Bool, true, false, Option, none, some, if◌then◌else◌}
use models_utils.Template.Errors.{TemplateError, Result, ok, raised, ◌>>=◌, ◌>>◌, require, choose}

pub data Ensures {ℓ κ} {A : Type ℓ} (P : A → Type κ) : Result A → Type (ℓ ⊔ κ) where
  returns : {a : A} → P a → Ensures P (ok a)
  raises : {e : TemplateError} → Ensures P (raised e)

module _ {ℓ κ} {A : Type ℓ} {P : A → Type κ} where
  pub Ensures-ok : {r : Result A} {a : A} → Ensures P r → r ≡ ok a → P a
  Ensures-ok (returns h) e = subst P (cc) h
  Ensures-ok raises e = cc

  pub Ensures-weaken {κ'} :
      {Q : A → Type κ'} {r : Result A} → ((a : A) → P a → Q a) → Ensures P r → Ensures Q r
  Ensures-weaken k (returns {a} h) = returns (k a h)
  Ensures-weaken k raises = raises

  pub Ensures-if :
      (b : Bool) {x y : Result A}
      → (b ≡ true → Ensures P x)
      → (b ≡ false → Ensures P y)
      → Ensures P (if b then x else y)
  Ensures-if true hx hy = hx refl
  Ensures-if false hx hy = hy refl

  pub Ensures-require :
      (b : Bool) (e : TemplateError) (x : Result A)
      → (b ≡ true → Ensures P x)
      → Ensures P (require b e >> x)
  Ensures-require true e x hx = hx refl
  Ensures-require false e x hx = raises

  pub Ensures-choose {ℓ'} :
      {B : Type ℓ'} (o : Option B) (e : TemplateError) {f : B → Result A}
      → ((b : B) → o ≡ some b → Ensures P (f b))
      → Ensures P (choose o (raised e) f)
  Ensures-choose none e hf = raises
  Ensures-choose (some b) e hf = hf b refl

  pub Ensures-bind {ℓ' κ'} :
      {B : Type ℓ'} {Q : B → Type κ'} {r : Result A} {f : A → Result B}
      → Ensures P r
      → ((a : A) → P a → Ensures Q (f a))
      → Ensures Q (r >>= f)
  Ensures-bind (returns {a} h) k = k a h
  Ensures-bind raises k = raises

-- A lookup that raises one error.
module _ {ℓ κ κ'} {A : Type ℓ} {B : Type κ} {P : B → Type κ'} where
  pub Ensures-found :
      (o : Option A) (e : TemplateError) {f : A → Result B}
      → ((a : A) → o ≡ some a → Ensures P (f a))
      → Ensures P (choose o (raised e) ok >>= f)
  Ensures-found none e hf = raises
  Ensures-found (some a) e hf = hf a refl
