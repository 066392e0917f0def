-- ===== src/Runs/Open.antt =====
-- database_utils/utils/provisioning_runs.py: `create_run`, from a resolved path to the run row.
-- The definitions snapshot and the refusals of `_plan_checks` (secret specs, output keys, ACS) are
-- arguments, and so are the gates' tables. Mode, secrets and the trigger's user are not kept.
use models_utils.Prelude.{
  ℕ, suc, Bool, ◌&&◌, Option, none, some, List, [], ◌∷◌, leb, nat_eq, Text, text_eq, if◌then◌else◌,
}
use models_utils.Runs.Rows.{queued, Phase, Definition, PlanEntry, Job, Run}
use models_utils.Runs.Plan.{Node, order_for_purpose, build_plan}
use models_utils.Runs.Session.{Session, update_all, queue_child}
use models_utils.Policy.Gates.{Environment, DeviceType, NodeFailure, run_gate_failures}

pub record Resolved : Type 0 where
  pub steps : List Node
  pub shared_variables : List (Text × Text)
  pub device_variables : List (ℕ × List (Text × Text))

-- What the caller asks for, and what `_plan_checks` finds on the ordered nodes.
pub record Request : Type 0 where
  pub client_service_id : ℕ
  pub purpose : Text
  pub dry_run : Bool
  pub extra_variables : List (Text × Text)
  pub guided_timeout_seconds : Option ℕ

-- (definitions, ...) or the ResolutionError
pub data Checks : Type 0 where
  definitions : List (ℕ × Definition) → Checks
  resolution_error : Text → Checks

pub data Opening : Type 0 where
  opened : Session → Option Job → Opening
  value_error : Opening
  gate_error : List NodeFailure → Opening
  plan_error : Text → Opening

abbrev pub guided_timeout_default : ℕ
guided_timeout_default = 1800

abbrev pub timeout_or_default : Option ℕ → ℕ
timeout_or_default none = guided_timeout_default
timeout_or_default (some t) = t

-- GUIDED_TIMEOUT_MIN <= t <= GUIDED_TIMEOUT_MAX
abbrev pub is_timeout : ℕ → Bool
is_timeout t = leb 300 t && leb t 14400

abbrev pub first_phase : List PlanEntry → Option Phase
first_phase [] = none
first_phase (e ∷ es) = e.phase

-- The row before its first child.
unfoldable pub run_row : Request → Resolved → List (ℕ × Definition) → Session → Run
unfolding build_plan order_for_purpose
run_row q resolved defs s =
    let plan = build_plan defs q.purpose q.dry_run (order_for_purpose resolved.steps q.purpose) in
    record {
      id = s.fresh;
      client_service_id = q.client_service_id;
      created_at = s.clock;
      purpose = q.purpose;
      dry_run = q.dry_run;
      status = queued;
      phase = first_phase plan;
      plan = plan;
      frames = record {
        shared = update_all resolved.shared_variables q.extra_variables;
        device = resolved.device_variables;
        definitions = defs;
        rollback = none;
      };
      error_code = none;
      error = none;
      finished_at = none;
      outputs = [];
    }

abbrev pub as_opening : Session × Option Job → Opening
as_opening (s, job) = opened s job

-- The run that the session held is one of the others now.
unfoldable pub insert_run : Request → Resolved → Session → Checks → Opening
unfolding run_row queue_child
insert_run q resolved s (resolution_error e) = plan_error e
insert_run q resolved s (definitions defs) = as_opening (
    queue_child
      (record s { run = run_row q resolved defs s; others = s.run ∷ s.others; fresh = suc s.fresh })
      0)

abbrev pub unless_gated : List NodeFailure → Opening → Opening
unless_gated [] o = o
unless_gated (f ∷ fs) o = gate_error (f ∷ fs)

unfoldable pub create_run :
    Environment → List (ℕ × DeviceType) → Request → Resolved → Checks → Session → Opening
unfolding insert_run run_gate_failures
create_run env types q resolved checks s =
    if is_timeout (timeout_or_default q.guided_timeout_seconds)
    then unless_gated (run_gate_failures env s.playbooks types resolved.steps q.dry_run)
        (insert_run q resolved s checks)
    else value_error
