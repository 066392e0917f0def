-- ===== src/Runs/Rows.antt =====
-- The rows of database_utils/models/isp.py that provisioning_runs.py reads and writes, with the
-- columns that it uses. Ids are numbers; JSON columns are records. A `str` or None that a dict may
-- lack is an option.
use models_utils.Prelude.{ℕ, Bool, true, false, Option, none, some, List, Text, text_eq}

-- `ProvisioningJobStatus`, of jobs and of runs.
pub data Status : Type 0 where
  queued running pending_inform pending_manual : Status
  succeeded failed rolled_back cancelled : Status

-- `status in IN_FLIGHT`
abbrev pub in_flight : Status → Bool
in_flight queued = true
in_flight running = true
in_flight pending_inform = true
in_flight pending_manual = true
in_flight _ = false

-- `status in TERMINAL_OK`
abbrev pub is_ok : Status → Bool
is_ok succeeded = true
is_ok _ = false

abbrev pub is_cancelled : Status → Bool
is_cancelled cancelled = true
is_cancelled _ = false

-- `PROVISIONING_PHASES`
pub data Phase : Type 0 where
  preconditions configuration verification rollback : Phase

abbrev pub is_rollback : Phase → Bool
is_rollback rollback = true
is_rollback _ = false

abbrev pub is_configuration : Option Phase → Bool
is_configuration (some configuration) = true
is_configuration _ = false

-- The run outcome codes.
pub data Outcome : Type 0 where
  precondition_failed configuration_failed verification_failed run_cancelled : Outcome
  stranded_run_expired rollback_incomplete reverted : Outcome

-- A step of a normalized playbook definition.
pub record StepDef : Type 0 where
  pub name : Option Text
  pub label : Option Text
  pub driver : Option Text
  pub undoes : Option Text

pub record Definition : Type 0 where
  pub preconditions : List StepDef
  pub configuration : List StepDef
  pub verification : List StepDef
  pub rollback : List StepDef

-- A step of a plan entry: {name, label, kind?, skip?}
pub record StepLabel : Type 0 where
  pub name : Option Text
  pub label : Option Text
  pub manual : Bool
  pub skip : Bool

-- An entry of `run.plan`; a run opened before engine v2 has entries without a phase.
pub record PlanEntry : Type 0 where
  pub item_id : ℕ
  pub playbook_id : ℕ
  pub playbook_version : Option ℕ
  pub category_key : Text
  pub device_label : Text
  pub phase : Option Phase
  pub steps : List StepLabel
  pub probe : Bool
  pub ran_steps : List Text

-- A dict of `job.log["steps"]`: `stage` and `detail_code` are under its `detail`.
pub record LogStep : Type 0 where
  pub name : Option Text
  pub label : Option Text
  pub driver : Option Text
  pub status : Option Text
  pub stage : Option Text
  pub code : Option Text
  pub detail_code : Option Text
  pub display : Option Text

-- An element of the step log; what is no dict is passed over.
pub data LogItem : Type 0 where
  entry : LogStep → LogItem
  junk : LogItem

-- An output row. `body` stands for the fields that are only copied.
pub record Output : Type 0 where
  pub item_id : Option ℕ
  pub key : Option Text
  pub position : ℕ
  pub category_key : Text
  pub body : ℕ

-- `job.log or {}`; an `interrupted_step` that is no string is none.
pub record Log : Type 0 where
  pub steps : List LogItem
  pub interrupted_step : Option Text
  pub outputs : List Output
  pub code : Option Text

pub record Job : Type 0 where
  pub id : ℕ
  pub run_id : Option ℕ
  pub run_position : Option ℕ
  pub status : Status
  pub phase : Option Phase
  pub playbook_id : ℕ
  pub item_id : ℕ
  pub dry_run : Bool
  pub max_attempts : ℕ
  pub finished_at : Option ℕ
  pub variables : List (Text × Text)
  pub log : Log

-- `job.run_position or 0`
abbrev pub position_of : Job → ℕ
position_of job = elim job.run_position [ none ↦ 0 | some p ↦ p ]

-- The label of a device, or its item id where the plan has no label.
pub data Device : Type 0 where
  labelled : Text → Device
  item : ℕ → Device

-- A failed step as run.error lists it.
pub record FailedStep : Type 0 where
  pub device : Device
  pub step : Option Text
  pub code : Option Text
  pub display : Option Text

-- `run.error`: a text, or the cause and the JSON of the details below it.
pub data Message : Type 0 where
  text : Text → Message
  report : Text → List FailedStep → Message

-- run.frames["rollback"]
pub record RollbackState : Type 0 where
  pub cause_code : Option Outcome
  pub cause_error : Option Text
  pub no_rollback : List ℕ

pub record Frames : Type 0 where
  pub shared : List (Text × Text)
  pub device : List (ℕ × List (Text × Text))
  pub definitions : List (ℕ × Definition)
  pub rollback : Option RollbackState

pub record Run : Type 0 where
  pub id : ℕ
  pub client_service_id : ℕ
  pub created_at : ℕ
  pub purpose : Text
  pub dry_run : Bool
  pub status : Status
  pub phase : Option Phase
  pub plan : List PlanEntry
  pub frames : Frames
  pub error_code : Option Outcome
  pub error : Option Message
  pub finished_at : Option ℕ
  pub outputs : List Output

pub record Playbook : Type 0 where
  pub id : ℕ
  pub name : Text
  pub version : Option ℕ
  pub last_dry_run_version : Option ℕ

pub record Service : Type 0 where
  pub id : ℕ
  pub path_changed_at : Option ℕ

-- A RUN_CLOSED event and its payload.
pub record Event : Type 0 where
  pub run_id : ℕ
  pub status : Status
  pub error_code : Option Outcome

-- A device_action_log row "rollback_incomplete".
pub record ActionLog : Type 0 where
  pub job_id : ℕ
  pub item_id : ℕ
  pub steps : List FailedStep
