-- ===== src/Workflow/Examples.antt =====
-- A diamond of steps and a small table of workflows: instances of the theorems on
-- workflow_engine.py, and tests.
use models_utils.Prelude.{
  ℕ, suc, ◌≤◌, ◌≡◌, refl, true, Option, none, some, List, [], ◌∷◌, codes, keep_if, arith,
}
use models_utils.Workflow.Kahn.{Edge, is_known, execute_workflow, completed, detect_cycle, cycle}
use models_utils.Workflow.KahnInvariant.{occurs}
use models_utils.Workflow.CycleLaws.{detect_cycle-no_HasOrder}
use models_utils.Workflow.KahnLaws.{
  Executes, execute_workflow-Executes, HasOrder, detect_cycle-HasOrder,
}
use models_utils.Workflow.Triggers.{
  plain, str, Snapshot, Trigger, Workflow, Change, find_matching_workflows,
}
use models_utils.Workflow.TriggerLaws.{is_started, find_matching_workflows-keep_if}

abbrev edge : ℕ → ℕ → Edge
edge u v = record { from_step = u; to_step = v }

abbrev diamond : List Edge
diamond = edge 0 1 ∷ edge 0 2 ∷ edge 1 3 ∷ edge 2 3 ∷ []

abbrev four : List ℕ
four = 0 ∷ 1 ∷ 2 ∷ 3 ∷ []

-- Each step counts one.
abbrev count : ℕ → ℕ → Option ℕ
count v n = some (suc n)

four_distinct : (v : ℕ) → occurs v four ≤ 1
four_distinct v = ground arith

execute_workflow-Executes_example :
    Executes four (keep_if (is_known four) diamond) (execute_workflow count four diamond 0)
execute_workflow-Executes_example = execute_workflow-Executes count four diamond 0 four_distinct

detect_cycle-HasOrder_example : HasOrder 4 diamond
unfolding detect_cycle
detect_cycle-HasOrder_example = detect_cycle-HasOrder 4 diamond refl

-- Step 3 leads back to step 1.
abbrev looped : List Edge
looped = edge 3 1 ∷ diamond

detect_cycle-no_HasOrder_example : ¬ HasOrder 4 looped
unfolding detect_cycle
detect_cycle-no_HasOrder_example = detect_cycle-no_HasOrder 4 looped refl

abbrev to_active : Trigger
to_active = record {
  resource_type = codes "client";
  event_type = codes "UPDATED";
  field_conditions = some (record {
    field = some (codes "status");
    operator = some (codes "changed_to");
    value = plain (str (codes "ACTIVE"));
  });
}

abbrev any_update : Trigger
any_update = record {
  resource_type = codes "client";
  event_type = codes "UPDATED";
  field_conditions = none;
}

abbrev workflow : ℕ → List Trigger → Workflow
workflow id triggers = record {
  id = id;
  company_id = 1;
  is_active = true;
  engine_version = 1;
  triggers = triggers;
}

abbrev table : List Workflow
table = workflow 10 (to_active ∷ any_update ∷ []) ∷ workflow 11 (to_active ∷ []) ∷ []

abbrev pending_client : Option Snapshot
pending_client = some ((codes "status", plain (str (codes "PENDING"))) ∷ [])

abbrev active_client : Option Snapshot
active_client = some ((codes "status", plain (str (codes "ACTIVE"))) ∷ [])

abbrev update : Change
update = record {
  resource_type = codes "client";
  event_type = codes "UPDATED";
  before = active_client;
  after = active_client;
}

find_matching_workflows-keep_if_example :
    find_matching_workflows 1 update table ≡ keep_if (is_started 1 update) table
find_matching_workflows-keep_if_example =
    find_matching_workflows-keep_if 1 update table ((refl, tt), (tt, tt))

diamond_runs :
    execute_workflow count four diamond 0
    ≡ some (record { status = completed; executed = 3 ∷ 2 ∷ 1 ∷ 0 ∷ [] })
unfolding execute_workflow
diamond_runs = refl

loop_found : detect_cycle 2 (edge 0 1 ∷ edge 1 0 ∷ []) ≡ some cycle
unfolding detect_cycle
loop_found = refl

-- No transition into ACTIVE: only the workflow that any update starts.
found_once : find_matching_workflows 1 update table ≡ workflow 10 (to_active ∷ any_update ∷ []) ∷ []
unfolding find_matching_workflows
found_once = refl
