-- ===== src/Runs/Office.antt =====
-- database_utils/utils/provisioning_runs.py: the office actions, `in_flight_for_service` to
-- `retry_rollback`.
use models_utils.Prelude.{
  ℕ, Bool, true, false, not, ◌&&◌, ◌||◌, Option, none, some, List, [], ◌∷◌, ltb, nat_beq, nat_eq,
  codes, ◌==◌, text_eq, assign, length, any, is_some, ◌-◌, if◌then◌else◌,
}
use models_utils.Runs.Rows.{
  Status, running, failed, in_flight, is_ok, rollback, Outcome, rollback_incomplete, reverted,
  PlanEntry, Job, Run,
}
use models_utils.Runs.Session.{Session, queue_child, children}
use models_utils.Runs.Rollback.{
  plan_rollback, record_rollback, set_cause, rollback_state, message, close_after_rollback_planned,
}
use models_utils.Runs.Finish.{latest_rollbacks, finish_rollback}

-- Why an office action is refused: 409 RUN_NOT_REVERTIBLE and its reasons.
pub data Refusal : Type 0 where
  dry_run not_succeeded legacy not_activation : Refusal
  not_rollback_incomplete other_in_flight later_run : Refusal

-- The queries for another run of the same service; `others` leaves out the run itself.
abbrev pub in_flight_for_service : Session → Bool
in_flight_for_service s =
    any (λ (r : Run). nat_beq r.client_service_id s.run.client_service_id && in_flight r.status)
      s.others

abbrev pub later_run_for_service : Session → Bool
later_run_for_service s =
    any
      (λ (r : Run).
        nat_beq r.client_service_id s.run.client_service_id
        && (not r.dry_run && ltb s.run.created_at r.created_at))
      s.others

unfoldable pub service_refusal : Session → Option Refusal
service_refusal s =
    if in_flight_for_service s
    then some other_in_flight
    else if later_run_for_service s
    then some later_run
    else none

abbrev pub is_failed : Status → Bool
is_failed failed = true
is_failed _ = false

unfoldable pub revert_refusal : Session → Option Refusal
unfolding service_refusal
revert_refusal s =
    if s.run.dry_run
    then some dry_run
    else if not (is_ok s.run.status)
    then some not_succeeded
    else if not (is_some s.run.phase)
    then some legacy
    else if not (s.run.purpose == codes "ACTIVATION")
    then some not_activation
    else service_refusal s

abbrev pub is_incomplete : Option Outcome → Bool
is_incomplete (some rollback_incomplete) = true
is_incomplete _ = false

unfoldable pub rollback_retry_refusal : Session → Option Refusal
unfolding service_refusal
rollback_retry_refusal s =
    if s.run.dry_run
      || (not (is_failed s.run.status)
          || (not (is_incomplete s.run.error_code) || not (is_some s.run.phase)))
    then some not_rollback_incomplete
    else service_refusal s

-- What both actions write first.
abbrev pub reopen : Session → Session
reopen s = record s {
  run = record s.run { status = running; phase = some rollback; finished_at = none };
}

-- The new state and the child, or the refusal of `RunNotRevertible`.
pub data Action : Type 0 where
  done : Session → Option Job → Action
  refused : Refusal → Action

abbrev pub as_action : Session × Option Job → Action
as_action (s, job) = done s job

-- `if reason: raise RunNotRevertible(reason)`
abbrev pub unless_refused : Option Refusal → Session × Option Job → Action
unless_refused none r = as_action r
unless_refused (some reason) r = refused reason

unfoldable pub start_revert : Session → Session × Option Job
unfolding set_cause plan_rollback record_rollback close_after_rollback_planned
start_revert s =
    let t = reopen (set_cause reverted none s) in
    let u = plan_rollback t none in
    close_after_rollback_planned u.entries u.no_rollback (record_rollback u.entries u.no_rollback t)

unfoldable pub revert_run : Session → Action
unfolding revert_refusal start_revert
revert_run s = unless_refused (revert_refusal s) (start_revert s)

-- The items of the ROLLBACK entries of the plan, each once.
abbrev pub planned_items : List PlanEntry → List (ℕ × Option Job) → List (ℕ × Option Job)
planned_items [] latest = latest
planned_items (e ∷ es) latest =
    planned_items es (elim e.phase [ some rollback ↦ assign latest e.item_id none | _ ↦ latest ])

abbrev pub with_jobs : List (ℕ × (PlanEntry × Job)) → List (ℕ × Option Job) → List (ℕ × Option Job)
with_jobs [] latest = latest
with_jobs ((i, (e, job)) ∷ more) latest = with_jobs more (assign latest i (some job))

abbrev pub unfinished : List (ℕ × Option Job) → List ℕ
unfinished [] = []
unfinished ((i, none) ∷ more) = i ∷ unfinished more
unfinished ((i, some job) ∷ more) =
    let rest = unfinished more in if is_ok job.status then rest else i ∷ rest

unfoldable pub retry_items : Session → List ℕ
unfolding latest_rollbacks children
retry_items s =
    unfinished (with_jobs (latest_rollbacks s.run (children s) []) (planned_items s.run.plan []))

-- `error_code` and `error` go back to the cause.
abbrev pub restore_cause : Session → Session
restore_cause s =
    let state = rollback_state s.run in
    record s {
      run = record s.run {
        error_code = elim state.cause_code [ none ↦ s.run.error_code | some c ↦ some c ];
        error = message state.cause_error;
      };
    }

-- `append_rollback(items) if items else []`
unfoldable pub retry_entries : Session → List ℕ → Session × List PlanEntry
unfolding plan_rollback record_rollback
retry_entries s [] = (s, [])
retry_entries s (i ∷ is) =
    let u = plan_rollback s (some (i ∷ is)) in
    (record_rollback u.entries u.no_rollback s, u.entries)

unfoldable pub queue_or_finish : Session × List PlanEntry → Session × Option Job
unfolding queue_child finish_rollback
queue_or_finish (s, e ∷ es) = queue_child s (length s.run.plan - length (e ∷ es))
queue_or_finish (s, []) = (finish_rollback s, none)

unfoldable pub start_retry : Session → Session × Option Job
unfolding retry_items retry_entries queue_or_finish
start_retry s = queue_or_finish (retry_entries (reopen (restore_cause s)) (retry_items s))

unfoldable pub retry_rollback : Session → Action
unfolding rollback_retry_refusal start_retry
retry_rollback s = unless_refused (rollback_retry_refusal s) (start_retry s)
