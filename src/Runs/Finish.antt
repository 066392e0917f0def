-- ===== src/Runs/Finish.antt =====
-- database_utils/utils/provisioning_runs.py: the ends of a run, `_finish_rollback`,
-- `_finish_dry_run` and `_succeed`.
use models_utils.Prelude.{
  ℕ, Bool, false, ◌&&◌, Option, none, some, List, [], ◌∷◌, ◌++◌, map, nat_beq, nat_eq, Text, codes,
  text_eq, contains, assign, all, if◌then◌else◌,
}
use models_utils.Runs.Rows.{
  succeeded, failed, rolled_back, is_ok, rollback, rollback_incomplete, PlanEntry, Job, labelled,
  FailedStep, Message, Run, Playbook, Service, ActionLog,
}
use models_utils.Runs.Logs.{failed_steps, or_status, same_item}
use models_utils.Runs.Session.{Session, close_run, children}
use models_utils.Runs.Rollback.{entry_at, rollback_state, undefined_step, incomplete_text}

abbrev pub note_latest :
    Option PlanEntry → Job → List (ℕ × (PlanEntry × Job)) → List (ℕ × (PlanEntry × Job))
note_latest none job latest = latest
note_latest (some e) job latest = elim e.phase [
  | some rollback ↦ assign latest e.item_id (e, job)
  | _ ↦ latest
]

-- The latest ROLLBACK child of each item, with its entry.
unfoldable pub latest_rollbacks :
    Run → List Job → List (ℕ × (PlanEntry × Job)) → List (ℕ × (PlanEntry × Job))
latest_rollbacks run [] latest = latest
latest_rollbacks run (job ∷ jobs) latest =
    latest_rollbacks run jobs (note_latest (entry_at run job) job latest)

abbrev pub not_undone : List (ℕ × (PlanEntry × Job)) → List (PlanEntry × Job)
not_undone [] = []
not_undone ((i, (e, job)) ∷ latest) =
    let rest = not_undone latest in if is_ok job.status then rest else (e, job) ∷ rest

-- The failed steps of a child, or one that tells its code or status.
abbrev pub or_whole : List FailedStep → PlanEntry → Job → List FailedStep
or_whole [] e job =
    record {
      device = labelled e.device_label;
      step = none;
      code = some (or_status job.log.code job.status);
      display = none;
    }
    ∷ []
or_whole (f ∷ fs) e job = f ∷ fs

unfoldable pub undo_failures : PlanEntry × Job → List FailedStep
unfolding failed_steps
undo_failures (e, job) = or_whole (failed_steps job e) e job

abbrev pub all_failures : List (PlanEntry × Job) → List FailedStep
all_failures [] = []
all_failures (j ∷ js) = undo_failures j ++ all_failures js

abbrev pub action_row : PlanEntry × Job → ActionLog
action_row (e, job) = record {
  job_id = job.id;
  item_id = e.item_id;
  steps = undo_failures (e, job);
}

-- What was not undone, below the cause.
abbrev pub left_over : List (PlanEntry × Job) → List ℕ → Session → Message
left_over left no_rollback s =
    incomplete_text s.run (all_failures left ++ map (undefined_step s.run.plan) no_rollback)

abbrev pub log_actions : List (PlanEntry × Job) → Session → Session
log_actions left s = record s { actions = s.actions ++ map action_row left }

unfoldable pub end_rollback : List (PlanEntry × Job) → List ℕ → Session → Session
unfolding close_run undo_failures
end_rollback [] [] s = close_run rolled_back none none s
end_rollback left no_rollback s =
    close_run failed (some rollback_incomplete) (some (left_over left no_rollback s))
      (log_actions left s)

unfoldable pub finish_rollback : Session → Session
unfolding latest_rollbacks end_rollback children
finish_rollback s =
    end_rollback (not_undone (latest_rollbacks s.run (children s) []))
      (rollback_state s.run).no_rollback s

-- The stamp of a dry run on one playbook.
abbrev pub stamp : PlanEntry → Playbook → Playbook
stamp e pb =
    if nat_beq pb.id e.playbook_id && same_item pb.version e.playbook_version
    then record pb { last_dry_run_version = pb.version }
    else pb

abbrev pub stamp_all : List PlanEntry → List Playbook → List Playbook
stamp_all [] pbs = pbs
stamp_all (e ∷ es) pbs = stamp_all es (map (stamp e) pbs)

-- `bool(jobs) and all(j.status in TERMINAL_OK for j in jobs)`
abbrev pub all_succeeded : List Job → Bool
all_succeeded [] = false
all_succeeded (j ∷ js) = all (λ (k : Job). is_ok k.status) (j ∷ js)

unfoldable pub finish_dry_run : Session → Session
unfolding close_run children
finish_dry_run s =
    if all_succeeded (children s)
    then (let t = close_run succeeded none none s in
        record t { playbooks = stamp_all t.run.plan t.playbooks })
    else close_run failed none none s

abbrev pub settle_drift : ℕ → Service → Service
settle_drift id svc = if nat_beq svc.id id then record svc { path_changed_at = none } else svc

-- The purposes whose success settles a re-parent drift.
abbrev pub settling_purposes : List Text
settling_purposes = codes "ACTIVATION" ∷ codes "CPE_SWAP" ∷ []

unfoldable pub succeed : Session → Session
unfolding close_run
succeed s =
    let t = close_run succeeded none none s in
    if contains settling_purposes t.run.purpose
    then record t { services = map (settle_drift t.run.client_service_id) t.services }
    else t
