-- ===== src/Jobs/Finish.antt =====
-- database_utils/utils/provisioning_jobs.py: `write_device_action_log`, `stamp_connectivity`,
-- `finish_job` and `_emit_finished`.
use models_utils.Prelude.{
  ℕ, Bool, false, not, ◌&&◌, Option, none, some, List, [], ◌∷◌, ◌++◌, map, nat_beq, Text, codes,
  text_eq, lookup, contains, length, drop, is_some, if◌then◌else◌,
}
use models_utils.Policy.Gates.{core_connectivity_playbook_names}
use models_utils.Policy.Strings.{non_empty}
use models_utils.Runs.Rows.{Status, is_ok, Job, Log, LogItem, entry, junk, Event}
use models_utils.Runs.Logs.{is_text}
use models_utils.Runs.Session.{Session}
use models_utils.Runs.Advance.{advance_run}

-- The keys of the job's log that the runs do not read.
pub record Progress : Type 0 where
  pub inflight_step : Option ℕ
  pub inflight_name : Option Text
  pub resume_at : Option ℕ
  pub pending_kind : Option Text
  pub guided_preview : Option Text

-- A job with its other columns; `has_log` tells that the log is not None.
pub record JobRow : Type 0 where
  pub job : Job
  pub error : Option Text
  pub device_lock_key : Option Text
  pub claim_token : Option ℕ
  pub pending_step_index : Option ℕ
  pub pending_task_ids : Option (List Text)
  pub has_log : Bool
  pub progress : Progress
  pub playbook_name : Option Text
  pub inventory_item_id : Option ℕ
  pub by_user : Bool
  pub user_id : Option ℕ
  pub client_service_id : Option ℕ

-- A JOB_FINISHED event with its payload.
pub record Finished : Type 0 where
  pub job_id : ℕ
  pub run_id : Option ℕ
  pub status : Status
  pub error : Option Text
  pub probed : Bool
  pub playbook_name : Option Text
  pub client_service_id : Option ℕ

pub data Emitted : Type 0 where
  run_closed : Event → Emitted
  job_finished : Finished → Emitted

-- A row of device_action_log.
pub record DeviceAction : Type 0 where
  pub job_id : ℕ
  pub actor_user_id : Option ℕ
  pub is_user : Bool
  pub device_identity : Option Text
  pub action : Text
  pub job_status : Status
  pub steps : List (Option Text)
  pub error : Option Text

-- The management columns of an inventory item.
pub record Stamp : Type 0 where
  pub item_id : ℕ
  pub mgmt_last_check_at : Option ℕ
  pub mgmt_last_check_ok : Option Bool

-- `session` is the job's run with the jobs, and `emitted` the table of events, in which the
-- session's RUN_CLOSED events stand among the others.
pub record Desk : Type 0 where
  pub session : Session
  pub emitted : List Emitted
  pub device_actions : List DeviceAction
  pub items : List Stamp

abbrev pub tr069_steps : List LogItem → List (Option Text)
tr069_steps [] = []
tr069_steps (junk ∷ es) = tr069_steps es
tr069_steps (entry e ∷ es) =
    let rest = tr069_steps es in if is_text (codes "tr069") e.driver then e.name ∷ rest else rest

-- `variables.get("serial") or variables.get("cpe_serial")`
abbrev pub serial_of : List (Text × Text) → Option Text
serial_of vars = elim (lookup vars (codes "serial")) [
  | none ↦ lookup vars (codes "cpe_serial")
  | some s ↦ elim (non_empty s) [ none ↦ lookup vars (codes "cpe_serial") | some t ↦ some t ]
]

abbrev pub name_or : Option Text → Text
name_or none = codes "provisioning_job"
name_or (some n) = n

abbrev pub with_action : JobRow → List (Option Text) → Desk → Desk
with_action r [] d = d
with_action r (w ∷ ws) d = record d {
  device_actions =
      d.device_actions
      ++ record {
        job_id = r.job.id;
        actor_user_id = r.user_id;
        is_user = r.by_user;
        device_identity = serial_of r.job.variables;
        action = name_or r.playbook_name;
        job_status = r.job.status;
        steps = w ∷ ws;
        error = elim r.error [ none ↦ none | some e ↦ non_empty e ];
      }
        ∷ [];
}

unfoldable pub write_device_action_log : JobRow → Desk → Desk
write_device_action_log r d =
    if r.job.dry_run then d else with_action r (tr069_steps r.job.log.steps) d

abbrev pub stamp_item : ℕ → ℕ → Bool → List Stamp → List Stamp
stamp_item item now good [] = []
stamp_item item now good (x ∷ xs) =
    if nat_beq x.item_id item
    then record x { mgmt_last_check_at = some now; mgmt_last_check_ok = some good } ∷ xs
    else x ∷ stamp_item item now good xs

abbrev pub is_check : Option Text → Bool
is_check none = false
is_check (some n) = contains core_connectivity_playbook_names n

unfoldable pub stamp_connectivity : JobRow → Desk → Desk
stamp_connectivity r d = elim r.inventory_item_id [
  | none ↦ d
  | some item ↦
      if is_check r.playbook_name
      then record d { items = stamp_item item d.session.clock (is_ok r.job.status) d.items }
      else d
]

-- The follow-on `advance_run`, whose RUN_CLOSED events come into the table.
unfoldable pub advance_follow_on : JobRow → Desk → Desk
advance_follow_on r d =
    let (s, child) = advance_run r.job d.session in
    record d {
      session = s;
      emitted = d.emitted ++ map run_closed (drop (length d.session.events) s.events);
    }

abbrev pub finished_event : Bool → JobRow → Finished
finished_event probed r = record {
  job_id = r.job.id;
  run_id = r.job.run_id;
  status = r.job.status;
  error = r.error;
  probed = probed;
  playbook_name = r.playbook_name;
  client_service_id = r.client_service_id;
}

-- `_emit_finished`
unfoldable pub emit_finished : Bool → JobRow → Desk → Desk
emit_finished probed r d = record d {
  emitted = d.emitted ++ job_finished (finished_event probed r) ∷ [];
}

pub data FollowOn : Type 0 where
  device_action_log connectivity_stamp advance event : FollowOn

-- A follow-on in its savepoint: one that raises leaves nothing behind. Which ones raise is open.
abbrev pub in_savepoint : Bool → (Desk → Desk) → Desk → Desk
in_savepoint raises f d = if raises then d else f d

-- `interrupted_step`, where a run's child died in a step whose name is known.
abbrev pub died_in : Job → Status → Progress → Option Text
died_in job status p =
    if is_some job.run_id && (not (is_ok status) && is_some p.inflight_step)
    then elim p.inflight_name [ none ↦ none | some w ↦ non_empty w ]
    else none

abbrev pub interrupted : Option Text → Log → Log
interrupted none log = log
interrupted (some w) log = record log { interrupted_step = some w }

abbrev pub finished_log : Bool → Option Text → Log → Log
finished_log has died log = if has then interrupted died log else log

-- The columns of the job at its end. A log that is None stays so.
unfoldable pub finish_row : Status → Option Text → ℕ → JobRow → JobRow
finish_row status error now r = record r {
  job = record r.job {
    status = status;
    finished_at = some now;
    log = finished_log r.has_log (died_in r.job status r.progress) r.job.log;
  };
  error = error;
  device_lock_key = none;
  claim_token = none;
  pending_step_index = none;
  pending_task_ids = none;
  progress = record r.progress { inflight_step = none; inflight_name = none; resume_at = none };
}

abbrev pub put_job : Job → List Job → List Job
put_job job [] = []
put_job job (j ∷ js) = (if nat_beq j.id job.id then job else j) ∷ put_job job js

-- `db.flush()` of the job's row
abbrev pub flushed : JobRow → Desk → Desk
flushed r d = record d { session = record d.session { jobs = put_job r.job d.session.jobs } }

abbrev pub follow : (FollowOn → Bool) → Bool → JobRow → Desk → Desk
follow raises probed r d =
    let logged =
      if probed
      then in_savepoint (raises connectivity_stamp) (stamp_connectivity r)
          (in_savepoint (raises device_action_log) (write_device_action_log r) d)
      else d in
    in_savepoint (raises event) (emit_finished probed r)
      (in_savepoint (raises advance) (advance_follow_on r) logged)

unfoldable pub finish_job :
    (FollowOn → Bool) → Status → Option Text → Bool → JobRow → Desk → JobRow × Desk
unfolding finish_row write_device_action_log stamp_connectivity advance_follow_on emit_finished
finish_job raises status error probed r d =
    let r' = finish_row status error d.session.clock r in
    (r', follow raises probed r' (flushed r' d))
