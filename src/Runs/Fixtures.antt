-- ===== src/Runs/Fixtures.antt =====
-- A service path of two devices, and its run at several moments, for the tests of
-- provisioning_runs.py.
use models_utils.Prelude.{ℕ, ◌+◌, false, none, some, List, [], ◌∷◌, Text, text_eq, codes}
use models_utils.Runs.Rows.{
  Status, running, succeeded, failed, Phase, configuration, verification, rollback, StepDef,
  Definition, PlanEntry, LogItem, entry, Job, Run, rollback_incomplete,
}
use models_utils.Runs.Plan.{Node}
use models_utils.Runs.Session.{Session, empty_log}
use models_utils.Runs.Open.{Request, Resolved}

abbrev pub step : Text → StepDef
step w = record { name = some w; label = none; driver = some (codes "ssh"); undoes = none }

abbrev pub definition : Definition
definition = record {
  preconditions = [];
  configuration = step (codes "set_vlan") ∷ [];
  verification = step (codes "read_vlan") ∷ [];
  rollback = step (codes "unset_vlan") ∷ [];
}

abbrev pub node : ℕ → ℕ → Node
node position item = record {
  position = position;
  item_id = item;
  device_type_id = none;
  playbook_id = 7;
  playbook_version = some 3;
  category_key = some (codes "OLT");
  device_type_name = codes "OLT";
  label = none;
  serial_number = none;
}

abbrev pub nodes : List Node
nodes = node 0 11 ∷ node 1 12 ∷ []

abbrev pub snapshots : List (ℕ × Definition)
snapshots = (7, definition) ∷ []

abbrev pub planned : Phase → ℕ → PlanEntry
planned phase item = record {
  item_id = item;
  playbook_id = 7;
  playbook_version = some 3;
  category_key = codes "olt";
  device_label = codes "OLT";
  phase = some phase;
  steps =
      record { name = some (codes "set_vlan"); label = none; manual = false; skip = false } ∷ [];
  probe = false;
  ran_steps = [];
}

abbrev pub log_step : Text → Text → LogItem
log_step w status = entry (record {
  name = some w;
  label = none;
  driver = some (codes "ssh");
  status = some status;
  stage = none;
  code = none;
  detail_code = none;
  display = none;
})

abbrev pub job : ℕ → Phase → Status → Job
job position phase status = record {
  id = 100 + position;
  run_id = some 1;
  run_position = some position;
  status = status;
  phase = some phase;
  playbook_id = 7;
  item_id = 11;
  dry_run = false;
  max_attempts = 3;
  finished_at = some 500;
  variables = [];
  log = record empty_log { steps = log_step (codes "set_vlan") (codes "OK") ∷ [] };
}

abbrev pub a_run : Status → Phase → List PlanEntry → Run
a_run status phase plan = record {
  id = 1;
  client_service_id = 5;
  created_at = 10;
  purpose = codes "ACTIVATION";
  dry_run = false;
  status = status;
  phase = some phase;
  plan = plan;
  frames = record { shared = []; device = []; definitions = snapshots; rollback = none };
  error_code = none;
  error = none;
  finished_at = none;
  outputs = [];
}

abbrev pub at_state : Run → List Job → Session
at_state run jobs = record {
  run = run;
  others = [];
  jobs = jobs;
  playbooks =
      record {
        id = 7;
        name = codes "olt_activate";
        version = some 3;
        last_dry_run_version = some 3;
      }
      ∷ [];
  services = [];
  events = [];
  actions = [];
  clock = 9000;
  fresh = 200;
}

abbrev pub plan : List PlanEntry
plan = planned configuration 11 ∷ planned verification 11 ∷ []

-- The first child has succeeded.
abbrev pub started : Session
started = at_state (a_run running configuration plan) (job 0 configuration succeeded ∷ [])

-- The verification has failed.
abbrev pub broken : Session
broken =
    at_state (a_run running verification plan)
      (job 0 configuration succeeded ∷ job 1 verification failed ∷ [])

abbrev pub undo_plan : List PlanEntry
undo_plan = planned configuration 11 ∷ planned rollback 11 ∷ []

-- The rollback of the only device has succeeded.
abbrev pub undone : Session
undone =
    at_state (a_run running rollback undo_plan)
      (job 0 configuration succeeded ∷ job 1 rollback succeeded ∷ [])

abbrev pub activated : Session
activated =
    at_state (a_run succeeded verification plan)
      (job 0 configuration succeeded ∷ job 1 verification succeeded ∷ [])

abbrev pub incomplete : Session
incomplete =
    at_state (record (a_run failed rollback undo_plan) { error_code = some rollback_incomplete })
      (job 0 configuration succeeded ∷ job 1 rollback failed ∷ [])

abbrev pub request : Request
request = record {
  client_service_id = 5;
  purpose = codes "ACTIVATION";
  dry_run = false;
  extra_variables = [];
  guided_timeout_seconds = none;
}

abbrev pub resolved : Resolved
resolved = record { steps = nodes; shared_variables = []; device_variables = [] }
