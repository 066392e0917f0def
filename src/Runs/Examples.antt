-- ===== src/Runs/Examples.antt =====
-- Instances of the theorems on provisioning_runs.py, and tests of the model.
use models_utils.Prelude.{
  ◌≤◌, ℕ, ◌≡◌, ◌↔◌, refl, true, false, not, ◌&&◌, ◌||◌, none, some, [], ◌∷◌, map, arith, text_eq,
  codes, contains, any, keep_if, all, ◌==◌, if◌then◌else◌,
}
use mathlib.Core.List.{reverse}
use models_utils.Runs.Rows.{
  succeeded, failed, rolled_back, reverted, is_ok, preconditions, configuration, verification,
  rollback, PlanEntry, Job,
}
use models_utils.Runs.Plan.{
  Node, build_plan, teardown_purposes, session_probe_step, snapshot, step_labels,
}
use models_utils.Runs.Session.{children}
use models_utils.Runs.Logs.{ran_steps, same_option_text}
use models_utils.Runs.Rollback.{rollback_state}
use models_utils.Runs.Finish.{finish_rollback}
use models_utils.Runs.Advance.{advance_run}
use models_utils.Runs.Moves.{Moved}
use models_utils.Runs.AdvanceLaws.{advance_run-Moved}
use models_utils.Runs.Laziness.{advance_run_twice, live}
use models_utils.Runs.Lifecycle.{life, Turns, Steps-Turns}
use models_utils.Runs.Trace.{Alone, Steps, start, then_step, advanced, live-Steps}
use models_utils.Runs.PlanLaws.{Phases, items, takes_part, build_plan-Phases}
use models_utils.Runs.LogLaws.{may_have_run, ran_steps-contains}
use models_utils.Runs.FinishLaws.{last_rollback, finish_rollback-rolled_back_iff}
use models_utils.Runs.Repair.{repair_run, last_child}
use models_utils.Runs.RepairLaws.{MovesOn, repair_run-MovesOn}
use models_utils.Runs.Open.{definitions, create_run}
use models_utils.Runs.OpenLaws.{OpensOr, create_run-Opens}
use models_utils.Runs.Office.{revert_run, retry_rollback}
use models_utils.Runs.UndoLaws.{rollback_plan, undefined_for}
use models_utils.Runs.OfficeGuards.{RevertGuard, RetryGuard}
use models_utils.Runs.OfficeLaws.{Acts, Ends, RevertCloses, revert_run-Acts}
use models_utils.Runs.RetryItems.{needs_retry}
use models_utils.Runs.RetryEnds.{cause_of, RetryCloses}
use models_utils.Runs.RetryLaws.{retry_rollback-Acts}
use models_utils.Policy.GateLaws.{may_go_live}
use models_utils.Runs.Fixtures.{
  nodes, snapshots, job, started, broken, undone, activated, incomplete, request, resolved,
}

advance_run-Moved_example : Moved 0 started (advance_run (job 0 configuration succeeded) started)
advance_run-Moved_example = advance_run-Moved (job 0 configuration succeeded) started refl

advance_run_twice_example :
    advance_run (job 1 verification failed) (advance_run (job 1 verification failed) broken).0
    ≡ ((advance_run (job 1 verification failed) broken).0, none)
advance_run_twice_example = advance_run_twice (job 1 verification failed) broken

finish_rollback-rolled_back_iff_example : ((finish_rollback undone).run.status ≡ rolled_back) ↔ (
    ((i : ℕ) (e : PlanEntry) (j : Job)
      → last_rollback undone.run i (children undone) none ≡ some (e, j)
      → is_ok j.status ≡ true)
    × ((rollback_state undone.run).no_rollback ≡ []))
finish_rollback-rolled_back_iff_example = finish_rollback-rolled_back_iff undone

build_plan-Phases_example :
    let part = takes_part snapshots (not (contains teardown_purposes (codes "ACTIVATION"))) in
    let ids = map (λ (n : Node). n.item_id) in
    (p : Phases (build_plan snapshots (codes "ACTIVATION") true nodes)) × (items p.pre
      ≡ ids (keep_if (part preconditions) nodes))
    × (items p.conf ≡ ids (keep_if (part configuration) nodes))
    × (items p.ver ≡ ids (keep_if (part verification) nodes))
    × (items p.undo ≡ (if true then ids (keep_if (part rollback) (reverse nodes)) else []))
build_plan-Phases_example = build_plan-Phases snapshots (codes "ACTIVATION") true nodes

ran_steps-contains_example :
    contains (ran_steps (job 0 configuration succeeded)) (codes "set_vlan") ≡ (
      not (codes "set_vlan" == session_probe_step)
      && (any (may_have_run (codes "set_vlan")) (job 0 configuration succeeded).log.steps
          || same_option_text
              (job 0 configuration succeeded).log.interrupted_step
              (some (codes "set_vlan"))))
ran_steps-contains_example = ran_steps-contains (job 0 configuration succeeded) (codes "set_vlan")

repair_run-MovesOn_example : MovesOn broken (repair_run 400 broken)
unfolding last_child
repair_run-MovesOn_example = repair_run-MovesOn 400 broken (omega arith) refl refl

create_run-Opens_example :
    OpensOr
      ((false || all (may_go_live none activated.playbooks []) nodes) ≡ true)
      request
      resolved
      activated
      (create_run none [] request resolved (definitions snapshots) activated)
create_run-Opens_example =
    create_run-Opens none [] request resolved (definitions snapshots) activated

revert_run-Acts_example :
    Acts
      (RevertGuard activated)
      (Ends
        (some reverted)
        activated
        (rollback_plan activated (λ i. true))
        (RevertCloses (undefined_for activated (λ i. true))))
      (revert_run activated)
revert_run-Acts_example = revert_run-Acts activated

retry_rollback-Acts_example :
    Acts
      (RetryGuard incomplete)
      (Ends
        (cause_of incomplete)
        incomplete
        (rollback_plan incomplete (needs_retry incomplete))
        (RetryCloses incomplete))
      (retry_rollback incomplete)
retry_rollback-Acts_example = retry_rollback-Acts incomplete

-- Both runs have one device to undo.
rollback_plan_test :
    (map (λ (e : PlanEntry). e.item_id) (rollback_plan activated (λ i. true)) ≡ 11 ∷ [])
    × (map (λ (e : PlanEntry). e.item_id) (rollback_plan incomplete (needs_retry incomplete))
        ≡ 11 ∷ [])
unfolding children step_labels ran_steps snapshot
rollback_plan_test = (refl, refl)

-- advance_run is called twice for the settled child.
twice_advanced :
    Steps started
      (advance_run
        (job 0 configuration succeeded)
        (advance_run (job 0 configuration succeeded) started).0).0
unfolding advance_run
twice_advanced =
    then_step (then_step start (advanced [] [] (job 0 configuration succeeded) refl))
      (advanced [] _ (job 0 configuration succeeded) refl)

live-Steps_example :
    let t =
      (advance_run
        (job 0 configuration succeeded)
        (advance_run (job 0 configuration succeeded) started).0).0 in
    Alone t × (live t ≤ 1)
live-Steps_example =
    live-Steps started
      (advance_run (job 0 configuration succeeded)
        (advance_run (job 0 configuration succeeded) started).0).0
      (refl, tt) twice_advanced

Steps-Turns_example : Turns (life started) (
    life
      (advance_run
        (job 0 configuration succeeded)
        (advance_run (job 0 configuration succeeded) started).0).0)
Steps-Turns_example =
    Steps-Turns started
      (advance_run (job 0 configuration succeeded)
        (advance_run (job 0 configuration succeeded) started).0).0
      twice_advanced

-- The verification is queued behind the configuration.
next_phase : (advance_run (job 0 configuration succeeded) started).0.run.phase ≡ some verification
unfolding advance_run
next_phase = refl

-- A failed verification undoes the device that was configured.
undo_phase : (advance_run (job 1 verification failed) broken).0.run.phase ≡ some rollback
unfolding advance_run ran_steps
undo_phase = refl

ends_rolled_back : (advance_run (job 1 rollback succeeded) undone).0.run.status ≡ rolled_back
unfolding advance_run
ends_rolled_back = refl
