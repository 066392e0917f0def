-- ===== src/Template/ReservedLaws.antt =====
-- Who can set the reserved names that `resolve_variables` of playbook_template.py hands to a step.
use models_utils.Prelude.{
  ◌≡◌, ◌⊎◌, refl, sym, ◌∙◌, ap, true, false, Option, none, some, List, [], ◌∷◌, ◌++◌, Text, codes,
  ◌==◌, text_eq, text_beq_iff, lookup, assign, lookup-assign, is_some, arith, Bool-cases, inl, inr,
}
use models_utils.Prelude.Int.{ℤ}
use models_utils.Expr.Codes.{ok, is_prefix}
use models_utils.Expr.Eval.{Env, Value, null, num}
use models_utils.Expr.Arith.{IsBounded}
use models_utils.Expr.Block.{Entry, entries, Variables}
use models_utils.Expr.BlockLaws.{Justified, evaluate_all-IsSound}
use models_utils.Template.Variables.{
  Declared, input_key, is_reserved, Resolving, use_default, use_provided, declare_variables,
  set_default, pass_through, set_number, update_with, resolve_variables,
}

input-is_reserved : (s : Text) → is_prefix (codes "input.") s ≡ true → is_reserved s ≡ false
unfolding is_reserved
input-is_reserved [] h = cc
input-is_reserved (c ∷ s) h = ground arith

input_key-is_reserved : (key : Text) → is_reserved (input_key key) ≡ false
input_key-is_reserved key = elim (Bool-cases (is_prefix (codes "input.") key)) [
  | inl e ↦ rw e (input-is_reserved key e)
  | inr e ↦ rw e (input-is_reserved (codes "input." ++ key) refl)
]

-- No reserved name among the variables.
abbrev IsClean : Variables → Type 0
IsClean vars = (k : Text) → is_reserved k ≡ true → lookup vars k ≡ none

assign-IsClean :
    (vars : Variables) (j : Text) (v : Value)
    → is_reserved j ≡ false
    → IsClean vars
    → IsClean (assign vars j v)
assign-IsClean vars j v free h k r = rw (lookup-assign vars j k v) (elim (Bool-cases (j == k)) [
  | inl e ↦ let same = (text_beq_iff j k).0 e in let clash = ap is_reserved same in cc
  | inr e ↦ rw e (h k r)
])

use_default-IsClean :
    (var : Declared) (v : Value) (r : Resolving) → IsClean r.0 → IsClean (use_default var v r).0
use_default-IsClean var null r h = h
use_default-IsClean var v r h =
    assign-IsClean r.0 (input_key var.key) v (input_key-is_reserved var.key) h

use_provided-IsClean :
    (var : Declared) (a b : Option Value) (r : Resolving)
    → IsClean r.0
    → IsClean (use_provided var a b r).0
use_provided-IsClean var (some v) b r h =
    assign-IsClean r.0 (input_key var.key) v (input_key-is_reserved var.key) h
use_provided-IsClean var none (some v) r h =
    assign-IsClean r.0 (input_key var.key) v (input_key-is_reserved var.key) h
use_provided-IsClean var none none r h = use_default-IsClean var var.default r h

declare_variables-IsClean :
    (provided : Variables) (vars : List Declared) (r : Resolving)
    → IsClean r.0
    → IsClean (declare_variables provided vars r).0
unfolding declare_variables
declare_variables-IsClean provided [] r h = h
declare_variables-IsClean provided (var ∷ vars) r h =
    declare_variables-IsClean provided vars
      (use_provided var (lookup provided var.key) (lookup provided (input_key var.key)) r)
      (use_provided-IsClean var (lookup provided var.key) (lookup provided (input_key var.key)) r h)

set_default-IsClean :
    (vars : Variables) (k : Text) (v : Value)
    → is_reserved k ≡ false
    → IsClean vars
    → IsClean (set_default vars k v)
set_default-IsClean vars k v free h = elim (Bool-cases (is_some (lookup vars k))) [
  | inl e ↦ rw e h
  | inr e ↦ rw e (assign-IsClean vars k v free h)
]

pass_through-IsClean :
    (provided vars : Variables) → IsClean vars → IsClean (pass_through provided vars)
unfolding pass_through
pass_through-IsClean [] vars h = h
pass_through-IsClean ((k, v) ∷ provided) vars h = elim (Bool-cases (is_reserved k)) [
  | inl e ↦ rw e (pass_through-IsClean provided vars h)
  | inr e ↦
      rw e (pass_through-IsClean provided (set_default vars k v) (set_default-IsClean vars k v e h))
]

-- A value of the result stood there before, or is the number of its key.
Updated : Env → Variables → Text → Value → Type 0
Updated values vars k v =
    (lookup vars k ≡ some v) ⊎ ((x : ℤ) × (lookup values k ≡ some x) × (v ≡ num x))

set_number-Updated :
    (values : Env) (vars : Variables) (j k : Text) (v : Value) (o : Option ℤ)
    → lookup values j ≡ o
    → lookup (set_number vars j o) k ≡ some v
    → Updated values vars k v
unfolding Updated
set_number-Updated values vars j k v none e h = inl h
set_number-Updated values vars j k v (some x) e h =
    let h' = sym (lookup-assign vars j k (num x)) ∙ h in
    elim (Bool-cases (j == k)) [
      | inl b ↦
          let same = (text_beq_iff j k).0 b in
          let g = rw b at h' in inr (x, ap (lookup values) (sym same) ∙ e, cc)
      | inr b ↦ inl (rw b at h')
    ]

update_with-Updated :
    (values more : Env) (vars : Variables) (k : Text) (v : Value)
    → lookup (update_with values more vars) k ≡ some v
    → Updated values vars k v
unfolding update_with Updated
update_with-Updated values [] vars k v h = inl h
update_with-Updated values ((j, x) ∷ more) vars k v h =
    elim (update_with-Updated values more (set_number vars j (lookup values j)) k v h) [
      | inl e ↦ set_number-Updated values vars j k v (lookup values j) refl e
      | inr e ↦ inr e
    ]

-- A reserved name has a value only if it is computed: a number within the limit and within the
-- bounds of an entry of the block with that name.
abbrev pub IsGuarded : List Entry → Variables → Type 0
IsGuarded es vars =
    (k : Text) (v : Value)
    → is_reserved k ≡ true
    → lookup vars k ≡ some v
    → (x : ℤ) × (v ≡ num x) × IsBounded x × Justified es k x

-- The variables of a step are resolved for any declarations, computed block and provided values,
-- and no provided value reaches a reserved name: one that starts with computed., capture., secret.
-- or acs. has a value only if it is a computed number, within the limit |x| <= 2^31 - 1 and within
-- the min and max of an entry of the block of that name.
pub resolve_variables-IsGuarded :
    (declared : List Declared) (es : List Entry) (provided : Variables)
    → (r : Resolving) × (resolve_variables declared (entries es) provided ≡ ok r) × IsGuarded es r.0
unfolding resolve_variables Updated
resolve_variables-IsGuarded declared es provided =
    let before = declare_variables provided declared ([], []) in
    let merged = pass_through provided before.0 in
    let clean =
      pass_through-IsClean provided before.0
        (declare_variables-IsClean provided declared ([], []) λ k r. refl) in
    let (report, e, sound) = evaluate_all-IsSound es merged in
    rw e (
      _,
      refl,
      λ k v r h. elim (update_with-Updated report.values report.values merged k v h) [
        | inl old ↦ let gone = clean k r in cc
        | inr (x, found, same) ↦ let (small, from) = sound k x found in (x, same, small, from)
      ],
    )
