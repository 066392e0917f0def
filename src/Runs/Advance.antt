-- ===== src/Runs/Advance.antt =====
-- database_utils/utils/provisioning_runs.py: `_advance_legacy` and `advance_run`.
use models_utils.Prelude.{
  ℕ, ◌+◌, Bool, not, ◌&&◌, ◌||◌, Option, none, some, ltb, get_elem?, any, if◌then◌else◌,
}
use models_utils.Runs.Rows.{
  running, succeeded, failed, cancelled, in_flight, is_ok, is_cancelled, Phase, preconditions,
  configuration, is_rollback, precondition_failed, configuration_failed, verification_failed,
  run_cancelled, PlanEntry, Job, position_of, text, Run,
}
use models_utils.Runs.Logs.{merge_outputs, placed, failure_text}
use models_utils.Runs.Session.{Session, queue_child, close_run, is_child_of}
use models_utils.Runs.Rollback.{enter_rollback}
use models_utils.Runs.Finish.{finish_rollback, finish_dry_run, succeed}
use mathlib.Core.List.{map}

-- A child was queued, or the plan is done and `finish` ends the run.
unfoldable pub next_or : (Session → Session) → Session × Option Job → Session × Option Job
next_or finish (s, some job) = (record s { run = record s.run { status = running } }, some job)
next_or finish (s, none) = (finish s, none)

abbrev pub finish_legacy : Session → Session
finish_legacy s = if s.run.dry_run then close_run succeeded none none s else succeed s

unfoldable pub advance_legacy : Job → Session → Session × Option Job
unfolding close_run queue_child next_or succeed
advance_legacy job s =
    if is_ok job.status
    then next_or finish_legacy (queue_child s (position_of job + 1))
    else (close_run job.status none none s, none)

unfoldable pub keep_outputs : PlanEntry → Job → Session → Session
unfolding merge_outputs
keep_outputs e job s = record s {
  run = record s.run { outputs = merge_outputs (map (placed e job) job.log.outputs) s.run.outputs };
}

abbrev pub finish_plan : Phase → Session → Session
finish_plan phase s =
    if s.run.dry_run
    then finish_dry_run s
    else if is_rollback phase
    then finish_rollback s
    else succeed s

-- A phase that failed, on a run that is not dry.
unfoldable pub fail_phase : Phase → PlanEntry → Job → Session → Session × Option Job
unfolding close_run enter_rollback failure_text
fail_phase preconditions e job s = (
  if is_cancelled job.status
      then close_run cancelled (some run_cancelled) none s
      else close_run failed (some precondition_failed) (some (text (failure_text job e))) s,
  none,
)
fail_phase configuration e job s =
    enter_rollback (if is_cancelled job.status then run_cancelled else configuration_failed)
      (some (failure_text job e)) (is_cancelled job.status) s
fail_phase _ e job s =
    enter_rollback (if is_cancelled job.status then run_cancelled else verification_failed)
      (some (failure_text job e)) (is_cancelled job.status) s

unfoldable pub advance_phase : Phase → PlanEntry → Job → Session → Session × Option Job
unfolding keep_outputs queue_child next_or fail_phase finish_rollback finish_dry_run succeed
advance_phase phase e job s =
    let t = keep_outputs e job s in
    if t.run.dry_run || (is_ok job.status || is_rollback phase)
    then next_or (finish_plan phase) (queue_child t (position_of job + 1))
    else fail_phase phase e job t

unfoldable pub advance_by : Option Phase → PlanEntry → Job → Session → Session × Option Job
unfolding advance_legacy advance_phase
advance_by none e job s = advance_legacy job s
advance_by (some phase) e job s = advance_phase phase e job s

-- An entry without a phase, or no entry at all, is of the engine before v2.
unfoldable pub advance_entry : Option PlanEntry → Job → Session → Session × Option Job
unfolding advance_by
advance_entry none job s = advance_legacy job s
advance_entry (some e) job s = advance_by e.phase e job s

-- A later child of the run exists.
abbrev pub is_later : Run → ℕ → Job → Bool
is_later run position job = is_child_of run job && ltb position (position_of job)

abbrev pub is_stale : Session → Job → Bool
is_stale s job =
    not (is_child_of s.run job)
    || (not (in_flight s.run.status)
        || (in_flight job.status || any (is_later s.run (position_of job)) s.jobs))

-- `s.run` is the row that `_lock_run` finds; a job of no run, or of another one, changes nothing.
unfoldable pub advance_run : Job → Session → Session × Option Job
unfolding advance_entry
advance_run job s =
    if is_stale s job
    then (s, none)
    else advance_entry (get_elem? s.run.plan (position_of job)) job s
