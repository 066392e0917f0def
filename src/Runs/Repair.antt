-- ===== src/Runs/Repair.antt =====
-- database_utils/utils/provisioning_runs.py: `repair_stranded_runs`, for one locked candidate.
use models_utils.Prelude.{
  ℕ, ◌+◌, ◌*◌, Bool, true, false, not, ◌&&◌, Option, none, some, List, [], ◌∷◌, ltb, nat_beq,
  length, Text, codes, if◌then◌else◌,
}
use models_utils.Runs.Rows.{
  succeeded, failed, in_flight, is_ok, Phase, configuration, verification, rollback,
  rollback_incomplete, stranded_run_expired, Job, position_of, Run,
}
use models_utils.Runs.Session.{Session, queue_child, close_run, is_child_of}
use models_utils.Runs.Rollback.{enter_rollback}
use models_utils.Runs.Advance.{advance_run}

-- STRANDED_RUN_MAX_AGE, in seconds
abbrev pub stranded_run_max_age : ℕ
stranded_run_max_age = 60 * 60

-- The child with the greatest position: `ORDER BY run_position DESC LIMIT 1`.
abbrev pub later_of : Job → Option Job → Job
later_of j none = j
later_of j (some k) = if ltb (position_of j) (position_of k) then k else j

unfoldable pub last_child : Run → List Job → Option Job
last_child run [] = none
last_child run (j ∷ js) =
    let rest = last_child run js in if is_child_of run j then some (later_of j rest) else rest

abbrev pub or_updated : Option ℕ → ℕ → ℕ
or_updated none updated_at = updated_at
or_updated (some t) updated_at = t

abbrev pub quiet_since : Option Job → ℕ → ℕ
quiet_since none updated_at = updated_at
quiet_since (some job) updated_at = or_updated job.finished_at updated_at

abbrev pub is_rolling_back : Option Phase → Bool
is_rolling_back (some rollback) = true
is_rolling_back _ = false

abbrev pub is_forward : Option Phase → Bool
is_forward (some configuration) = true
is_forward (some verification) = true
is_forward _ = false

-- `last.run_position == len(run.plan or []) - 1`
abbrev pub is_last_position : Option ℕ → ℕ → Bool
is_last_position none n = false
is_last_position (some p) n = nat_beq (p + 1) n

-- The last entry succeeded, and only the final advance was lost.
abbrev pub lost_advance : Option Job → ℕ → Bool
lost_advance none n = false
lost_advance (some job) n = is_ok job.status && is_last_position job.run_position n

abbrev pub stranded_text : Text
stranded_text = codes "La ejecución quedó detenida más de 1 h"

-- The first child again, or SUCCEEDED for an empty plan.
abbrev pub or_succeeded : Session × Option Job → Session × Option Job
or_succeeded (s, some job) = (s, some job)
or_succeeded (s, none) = (close_run succeeded none none s, none)

unfoldable pub restart : Option Job → Session → Session × Option Job
unfolding queue_child close_run advance_run
restart none s = or_succeeded (queue_child s 0)
restart (some job) s = advance_run job s

unfoldable pub resume_rollback : Option Job → Session → Session × Option Job
unfolding close_run advance_run
resume_rollback none s = (close_run failed (some rollback_incomplete) none s, none)
resume_rollback (some job) s = advance_run job s

-- The branches of an expired run.
unfoldable pub expire : Option Job → Session → Session × Option Job
unfolding resume_rollback restart enter_rollback close_run
expire last s =
    if is_rolling_back s.run.phase && not s.run.dry_run
    then resume_rollback last s
    else if not s.run.dry_run && lost_advance last (length s.run.plan)
    then restart last s
    else if not s.run.dry_run && is_forward s.run.phase
    then enter_rollback stranded_run_expired (some stranded_text) false s
    else (close_run failed (some stranded_run_expired) none s, none)

-- `make_aware_gt(quiet_since) < now_gt() - STRANDED_RUN_MAX_AGE`
abbrev pub is_expired : Option Job → ℕ → Session → Bool
is_expired last updated_at s = ltb (quiet_since last updated_at + stranded_run_max_age) s.clock

-- A candidate has no child in flight, since `has_live_child` leaves the others out; the loop's own
-- `continue` on a last child in flight is the first test.
unfoldable pub repair_last : Option Job → ℕ → Session → Session × Option Job
unfolding expire restart
repair_last last updated_at s =
    if is_expired last updated_at s then expire last s else restart last s

abbrev pub still_runs : Option Job → Bool
still_runs none = false
still_runs (some job) = in_flight job.status

unfoldable pub repair_run : ℕ → Session → Session × Option Job
unfolding last_child repair_last
repair_run updated_at s =
    let last = last_child s.run s.jobs in
    if still_runs last then (s, none) else repair_last last updated_at s
