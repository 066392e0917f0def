-- ===== src/Workflow/Triggers.antt =====
-- database_utils/utils/workflow_engine.py: `find_matching_workflows` and `_matches_field_conditions`.
use models_utils.Prelude.{
  ℕ, Bool, true, false, not, ◌&&◌, Option, none, some, List, [], ◌∷◌, nat_beq, nat_eq, Text,
  text_eq, codes, ◌==◌, contains, lookup, any, if◌then◌else◌,
}

-- A value of a row's snapshot. A number holds its text; an enum member holds its value.
pub data Scalar : Type 0 where
  null : Scalar
  bool : Bool → Scalar
  str number : Text → Scalar

pub data Field : Type 0 where
  plain member : Scalar → Field

-- `str(v)`
abbrev pub text_of : Scalar → Text
text_of null = codes "None"
text_of (bool true) = codes "True"
text_of (bool false) = codes "False"
text_of (str s) = s
text_of (number s) = s

-- `_norm`: an enum member is compared by its value
unfoldable pub norm : Field → Text
norm (plain v) = text_of v
norm (member v) = text_of v

abbrev pub Snapshot : Type 0
Snapshot = List (Text × Field)

-- `data.get(field)`
abbrev pub or_null : Option Field → Field
or_null none = plain null
or_null (some v) = v

abbrev pub get : Snapshot → Text → Field
get d field = or_null (lookup d field)

pub record Conditions : Type 0 where
  pub field : Option Text
  pub operator : Option Text
  pub value : Field

-- A snapshot that is None or {} is false.
abbrev pub present : Option Snapshot → Option Snapshot
present (some (kv ∷ d)) = some (kv ∷ d)
present _ = none

-- `_norm(data.get(field)) if data else None`
abbrev pub norm_in : Option Snapshot → Text → Option Text
norm_in none field = none
norm_in (some d) field = some (norm (get d field))

abbrev pub is_text : Option Text → Text → Bool
is_text none w = false
is_text (some v) w = v == w

-- "changed": `before_data and after_data` are looked at together
unfoldable pub changed : Text → Option Snapshot → Option Snapshot → Bool
unfolding norm
changed field (some b) (some a) = not (norm (get b field) == norm (get a field))
changed field _ _ = true

unfoldable pub changed_to : Text → Field → Option Snapshot → Option Snapshot → Bool
unfolding norm
changed_to field value before none = false
changed_to field value before (some a) =
    not (is_text (norm_in before field) (norm value)) && norm (get a field) == norm value

unfoldable pub changed_from : Text → Field → Option Snapshot → Option Snapshot → Bool
unfolding norm
changed_from field value none after = false
changed_from field value (some b) after =
    norm (get b field) == norm value && not (is_text (norm_in after field) (norm value))

unfoldable pub equals : Text → Field → Option Snapshot → Bool
unfolding norm
equals field value none = false
equals field value (some a) = norm (get a field) == norm value

-- The operators, on snapshots that are none if they are false.
unfoldable pub matches_operator : Text → Text → Field → Option Snapshot → Option Snapshot → Bool
unfolding changed changed_to changed_from equals
matches_operator operator field value before after =
    if operator == codes "changed"
    then changed field before after
    else if operator == codes "changed_to"
    then changed_to field value before after
    else if operator == codes "changed_from"
    then changed_from field value before after
    else if operator == codes "equals"
    then equals field value after
    else true

-- A condition without a field or an operator matches.
unfoldable pub matches_named :
    Option Text → Option Text → Field → Option Snapshot → Option Snapshot → Bool
unfolding matches_operator
matches_named (some (c ∷ field)) (some (e ∷ operator)) value before after =
    matches_operator (e ∷ operator) (c ∷ field) value before after
matches_named _ _ value before after = true

unfoldable pub matches_field_conditions :
    Option Conditions → Option Snapshot → Option Snapshot → Bool
unfolding matches_named
matches_field_conditions none before after = true
matches_field_conditions (some c) before after =
    matches_named c.field c.operator c.value (present before) (present after)

pub record Trigger : Type 0 where
  pub resource_type : Text
  pub event_type : Text
  pub field_conditions : Option Conditions

pub record Workflow : Type 0 where
  pub id : ℕ
  pub company_id : ℕ
  pub is_active : Bool
  pub engine_version : ℕ
  pub triggers : List Trigger

-- An event with the snapshots of its row.
pub record Change : Type 0 where
  pub resource_type : Text
  pub event_type : Text
  pub before : Option Snapshot
  pub after : Option Snapshot

abbrev pub is_of_type : Change → Trigger → Bool
is_of_type e t = t.resource_type == e.resource_type && t.event_type == e.event_type

unfoldable pub fires : Change → Trigger → Bool
unfolding matches_field_conditions
fires e t = is_of_type e t && matches_field_conditions t.field_conditions e.before e.after

abbrev pub is_candidate : ℕ → Workflow → Bool
is_candidate company_id w =
    nat_beq w.company_id company_id && (w.is_active && nat_beq w.engine_version 1)

-- One row for each trigger of the type.
abbrev pub fan_out : Change → Workflow → List Trigger → List Workflow → List Workflow
fan_out e w [] rest = rest
fan_out e w (t ∷ ts) rest =
    let more = fan_out e w ts rest in if is_of_type e t then w ∷ more else more

-- The query: the join repeats a workflow once for each of its triggers of the type.
unfoldable pub query_rows : ℕ → Change → List Workflow → List Workflow
query_rows company_id e [] = []
query_rows company_id e (w ∷ ws) =
    let rest = query_rows company_id e ws in
    if is_candidate company_id w then fan_out e w w.triggers rest else rest

abbrev pub take_row : Bool → Workflow → List Workflow → List Workflow → List Workflow
take_row true w with_w without = w ∷ with_w
take_row false w with_w without = without

-- The loop with `seen`.
unfoldable pub match_rows : Change → List ℕ → List Workflow → List Workflow
unfolding fires
match_rows e seen [] = []
match_rows e seen (w ∷ ws) =
    take_row (not (contains seen w.id) && any (fires e) w.triggers) w
      (match_rows e (w.id ∷ seen) ws) (match_rows e seen ws)

unfoldable pub find_matching_workflows : ℕ → Change → List Workflow → List Workflow
unfolding query_rows match_rows
find_matching_workflows company_id e table = match_rows e [] (query_rows company_id e table)
