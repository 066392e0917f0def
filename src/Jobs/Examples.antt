-- ===== src/Jobs/Examples.antt =====
-- Tests of the model of provisioning_jobs.py, and its theorems at concrete inputs.
use models_utils.Prelude.{
  ◌≡◌, refl, Bool, true, false, not, ◌||◌, none, some, List, [], ◌∷◌, ◌++◌, codes, text_eq,
  contains, any, length,
}
use models_utils.Runs.Rows.{running, succeeded, failed, configuration, LogItem, entry, LogStep, Job}
use models_utils.Runs.Logs.{ran_steps}
use models_utils.Runs.LogLaws.{may_have_run}
use models_utils.Runs.Advance.{advance_run, is_stale}
use models_utils.Runs.Fixtures.{job, at_state, a_run, plan, log_step}
use models_utils.Jobs.Finish.{
  JobRow, Desk, FollowOn, device_action_log, advance, event, finish_job, put_job,
}
use models_utils.Jobs.Parked.{fail_parked, is_guided}
use models_utils.Jobs.Laws.{Ending, last_event, finish_job-Ending, finish_job-ran_steps}
use models_utils.Jobs.ParkedLaws.{fail_parked-ran_steps}

-- The first child runs, in its step.
abbrev row : Job → JobRow
row j = record {
  job = j;
  error = none;
  device_lock_key = some (codes "item:11");
  claim_token = some 1;
  pending_step_index = none;
  pending_task_ids = none;
  has_log = true;
  progress = record {
    inflight_step = some 0;
    inflight_name = some (codes "save");
    resume_at = none;
    pending_kind = none;
    guided_preview = none;
  };
  playbook_name = some (codes "olt_activate");
  inventory_item_id = some 11;
  by_user = true;
  user_id = some 2;
  client_service_id = some 5;
}

abbrev desk : Job → Desk
desk j = record {
  session = at_state (a_run running configuration plan) (j ∷ []);
  emitted = [];
  device_actions = [];
  items = [];
}

abbrev busy : Job
busy = job 0 configuration running

abbrev all_well : FollowOn → Bool
all_well f = false

-- Only the log of device actions raises.
abbrev log_raises : FollowOn → Bool
log_raises device_action_log = true
log_raises _ = false

-- The job succeeds: the next child is queued, and one event is emitted.
finishes :
    let (r, d) = finish_job log_raises succeeded none true (row busy) (desk busy) in
    (length d.session.jobs ≡ 2) × (length d.emitted ≡ 1) × (r.device_lock_key ≡ none)
unfolding finish_job advance_run
finishes = (refl, refl, refl)

finish_job-Ending_example :
    let (r', d') = finish_job log_raises succeeded none true (row busy) (desk busy) in
    let s = record (desk busy).session { jobs = put_job r'.job (desk busy).session.jobs } in
    Ending (log_raises advance || is_stale s r'.job) s [] (last_event (log_raises event) true r') d'
finish_job-Ending_example = finish_job-Ending log_raises succeeded none true (row busy) (desk busy)

finish_job-ran_steps_example :
    contains
      (ran_steps
        (finish_job all_well failed
          (some (codes "LEASE_EXPIRED"))
          true
          (row busy)
          (desk busy)).0.job)
      (codes "save")
    ≡ true
finish_job-ran_steps_example =
    finish_job-ran_steps all_well failed (some (codes "LEASE_EXPIRED")) true (row busy) (desk busy)
      (codes "save") refl refl refl refl refl (λ h. cc) (λ h. cc)

-- The step waits for its approval.
abbrev waiting : LogStep
waiting = record {
  name = some (codes "reboot");
  label = none;
  driver = some (codes "ssh");
  status = some (codes "PENDING");
  stage = none;
  code = none;
  detail_code = none;
  display = none;
}

abbrev before : List LogItem
before = log_step (codes "set_vlan") (codes "OK") ∷ []

abbrev parked : Job
parked = record busy { log = record busy.log { steps = before ++ entry waiting ∷ [] } }

abbrev guided : JobRow
guided = record (row parked) {
  progress = record (row parked).progress { pending_kind = some (codes "guided") };
}

fail_parked-ran_steps_example :
    contains
      (ran_steps
        (fail_parked all_well (codes "STEP_ABORTED") (codes "aborted") guided (desk parked)).0.job)
      (codes "reboot")
    ≡ (any (may_have_run (codes "reboot")) before || not (is_guided guided))
fail_parked-ran_steps_example =
    fail_parked-ran_steps all_well (codes "STEP_ABORTED") (codes "aborted") guided (desk parked)
      before waiting (codes "reboot") refl refl refl refl (λ h. cc)
