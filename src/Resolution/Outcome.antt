-- ===== src/Resolution/Outcome.antt =====
-- database_utils/utils/provisioning_resolution.py: ResolutionError and its entries, without prose.
use models_utils.Prelude.{
  ℕ, Bool, true, false, ◌&&◌, Option, none, some, List, [], ◌∷◌, ◌++◌, nat_beq, Text, ◌==◌, text_eq,
  any, if◌then◌else◌,
}
use models_utils.Expr.Codes.{
  Code, syntax, limit, name_error, secret, type_error, overflow, div_zero, range,
}

pub data Reason : Type 0 where
  compute_syntax malformed role_ambiguous not_on_path missing_value : Reason
  no_slot no_link path_changed : Reason
  compute : Code → Reason

-- An entry of the errors that `_refusals` collects: the token or key, and the item it is about.
pub record Refusal : Type 0 where
  pub reason : Reason
  pub token : Option Text
  pub item : Option ℕ

pub data ResolutionError : Type 0 where
  cpe_not_set path_too_deep cpe_not_attached playbook_inactive old_cpe_not_set : ResolutionError
  role_shadows_category : Text → ResolutionError
  playbook_not_bound : List ℕ → ResolutionError
  missing_service_params : List Text → ResolutionError
  refused : List Refusal → ResolutionError

-- A value, a raised ResolutionError, or another exception.
pub data Outcome {ℓ} (A : Type ℓ) : Type ℓ where
  done : A → Outcome A
  raised : ResolutionError → Outcome A
  crashed : Outcome A

infixl 5 ◌>>=◌ ◌>>◌
abbrev pub ◌>>=◌ {ℓ κ} : {A : Type ℓ} {B : Type κ} → Outcome A → (A → Outcome B) → Outcome B
done a >>= f = f a
raised e >>= f = raised e
crashed >>= f = crashed

abbrev pub ◌>>◌ {ℓ} : {B : Type ℓ} → Outcome (Unit {0}) → Outcome B → Outcome B
m >> k = m >>= λ _. k

-- `if test: raise ResolutionError(...)`
abbrev pub refuse_if : Bool → ResolutionError → Outcome (Unit {0})
refuse_if true e = raised e
refuse_if false e = done tt

abbrev code_tag : Code → ℕ
code_tag syntax = 0
code_tag limit = 1
code_tag name_error = 2
code_tag secret = 3
code_tag type_error = 4
code_tag overflow = 5
code_tag div_zero = 6
code_tag range = 7

-- A number for each reason.
abbrev reason_tag : Reason → ℕ
reason_tag compute_syntax = 10
reason_tag malformed = 11
reason_tag role_ambiguous = 12
reason_tag not_on_path = 13
reason_tag missing_value = 14
reason_tag no_slot = 15
reason_tag no_link = 16
reason_tag path_changed = 17
reason_tag (compute c) = code_tag c

abbrev same_text : Option Text → Option Text → Bool
same_text none none = true
same_text (some a) (some b) = a == b
same_text _ _ = false

abbrev same_number : Option ℕ → Option ℕ → Bool
same_number none none = true
same_number (some a) (some b) = nat_beq a b
same_number _ _ = false

unfoldable pub same_refusal : Refusal → Refusal → Bool
same_refusal a b =
    nat_beq (reason_tag a.reason) (reason_tag b.reason)
    && (same_text a.token b.token && same_number a.item b.item)

abbrev pub add_refusal : List Refusal → Refusal → List Refusal
add_refusal seen e = if any (same_refusal e) seen then seen else seen ++ e ∷ []

-- The loop over `unique.setdefault(...)`
unfoldable pub unique : List Refusal → List Refusal → List Refusal
unfolding same_refusal
unique seen [] = seen
unique seen (e ∷ es) = unique (add_refusal seen e) es
