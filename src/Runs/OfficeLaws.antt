-- ===== src/Runs/OfficeLaws.antt =====
-- The office actions of provisioning_runs.py: what a refusal tells of the run, and what an action
-- that is not refused plans, queues or closes.
use models_utils.Prelude.{
  ℕ, ◌-◌, ◌≡◌, refl, sym, ◌∙◌, ap, subst, append-nil, true, Option, none, some, List, [], ◌∷◌, ◌++◌,
  length, All,
}
use models_utils.Runs.Rows.{
  failed, rolled_back, in_flight, Phase, rollback, Outcome, rollback_incomplete, reverted,
  PlanEntry, Job, Run,
}
use models_utils.Runs.Session.{
  Session, children, queue_entry, queue_child, child_at, enter_phase, close_run,
}
use models_utils.Runs.Rollback.{
  plan_rollback, record_rollback, set_cause, close_after_rollback_planned, incomplete_text,
  undefined_step,
}
use models_utils.Runs.Moves.{Closed, Moved-shift, Alike, close_run-Closed}
use models_utils.Runs.AdvanceLaws.{planned_at}
use models_utils.Runs.RepairLaws.{MovesOn}
use models_utils.Runs.UndoLaws.{
  rollback_plan, undefined_for, plan_rollback-rollback_plan, Undoes, rollback_plan-Undoes,
}
use models_utils.Runs.OfficeGuards.{RevertGuard, revert_refusal-RevertGuard}
use models_utils.Runs.Office.{
  Refusal, Action, done, refused, unless_refused, revert_refusal, reopen, start_revert, revert_run,
}
use mathlib.Core.List.{map}

-- The action is refused for a reason that holds, or it is done, the guard and the result holding.
abbrev pub Acts : (Option Refusal → Type 0) → (Session × Option Job → Type 0) → Action → Type 0
Acts guard result (refused r) = guard (some r)
Acts guard result (done t o) = guard none × result (t, o)

pub unless_refused-Acts :
    (guard : Option Refusal → Type 0) (result : Session × Option Job → Type 0)
    (reason : Option Refusal) (r : Session × Option Job)
    → guard reason
    → result r
    → Acts guard result (unless_refused reason r)
unless_refused-Acts guard result none (t, o) g m = (g, m)
unless_refused-Acts guard result (some reason) r g m = g

-- The end of an action that plans the entries: they are appended to the plan, and the first of them
-- gets one queued child, at its own position, with the run back in flight in its ROLLBACK phase and
-- the outcome code set. Without entries the run is closed with its event and its plan kept.
abbrev pub Ends :
    Option Outcome → Session → List PlanEntry → (Session → Type 0) → Session × Option Job → Type 0
Ends code s (e ∷ es) closes (t, some c) =
    MovesOn s (t, some c)
    × (t.run.plan ≡ s.run.plan ++ e ∷ es)
    × (t.run.phase ≡ some rollback)
    × (t.run.error_code ≡ code)
    × (c.phase ≡ some rollback)
    × (c.item_id ≡ e.item_id)
    × (c.run_position ≡ some (length s.run.plan))
Ends code s (e ∷ es) closes (t, none) = ⊥
Ends code s [] closes (t, some c) = ⊥
Ends code s [] closes (t, none) = Closed s t × (t.run.plan ≡ s.run.plan) × closes t

-- A run that enters the phase of a ROLLBACK entry: its plan, status and outcome code stay.
entered :
    (o : Option Phase) (run : Run)
    → o ≡ some rollback
    → ((enter_phase o run).plan ≡ run.plan)
      × ((enter_phase o run).status ≡ run.status)
      × ((enter_phase o run).error_code ≡ run.error_code)
      × ((enter_phase o run).phase ≡ some rollback)
entered none run h = cc
entered (some phase) run h = (refl, refl, refl, h)

pub queue_child-Ends :
    (code : Option Outcome) (s t : Session) (e : PlanEntry) (es : List PlanEntry)
    (closes : Session → Type 0)
    → Alike s t
    → t.run.plan ≡ s.run.plan ++ e ∷ es
    → in_flight t.run.status ≡ true
    → t.run.error_code ≡ code
    → e.phase ≡ some rollback
    → Ends code s (e ∷ es) closes (queue_child t (length t.run.plan - length (e ∷ es)))
unfolding queue_child queue_entry child_at
queue_child-Ends code s t e es closes alike planned going known undoes =
    let (at, found) = planned_at s.run.plan es t.run.plan e planned in
    let (plan, status, kept, phase) = entered e.phase t.run undoes in
    rw found (
      (
        ap (λ js. js ++ child_at t (length t.run.plan - length (e ∷ es)) e ∷ []) alike.jobs,
        ap some alike.id,
        refl,
        ap in_flight status ∙ going,
        alike.events,
      ),
      plan ∙ planned,
      phase,
      kept ∙ known,
      undoes,
      refl,
      ap some at,
    )

-- A revert without entries: ROLLED_BACK as reverted, unless a device lacks a rollback.
abbrev pub RevertCloses : List ℕ → Session → Type 0
RevertCloses [] t = (t.run.status ≡ rolled_back) × (t.run.error_code ≡ some reverted)
RevertCloses (i ∷ is) t = (t.run.status ≡ failed) × (t.run.error_code ≡ some rollback_incomplete)

after_planned-Ends :
    (s t : Session) (es : List PlanEntry) (ns : List ℕ)
    → Alike s t
    → t.run.plan ≡ s.run.plan ++ es
    → t.run.error_code ≡ some reverted
    → All Undoes es
    → Ends (some reverted) s es (RevertCloses ns) (close_after_rollback_planned es ns t)
unfolding close_after_rollback_planned
after_planned-Ends s t (e ∷ es) ns alike planned known (undoes, more) =
    queue_child-Ends (some reverted) s _ e es (RevertCloses ns)
      (record {
        id = alike.id;
        dry = alike.dry;
        jobs = alike.jobs;
        events = alike.events;
        clock = alike.clock;
      })
      planned refl known undoes
after_planned-Ends s t [] [] alike planned known undoes = (
  Moved-shift 0 (close_run rolled_back none none t, none) alike
      (close_run-Closed rolled_back none none t refl),
  planned ∙ append-nil s.run.plan,
  (refl, known),
)
after_planned-Ends s t [] (i ∷ is) alike planned known undoes =
    let error = some (incomplete_text t.run (map (undefined_step t.run.plan) (i ∷ is))) in
    (
      Moved-shift 0 (close_run failed (some rollback_incomplete) error t, none) alike
          (close_run-Closed failed (some rollback_incomplete) error t refl),
      planned ∙ append-nil s.run.plan,
      (refl, refl),
    )

start_revert-Ends :
    (s : Session)
    → Ends
        (some reverted)
        s
        (rollback_plan s (λ i. true))
        (RevertCloses (undefined_for s (λ i. true)))
        (start_revert s)
unfolding start_revert set_cause record_rollback children
start_revert-Ends s =
    let t = reopen (set_cause reverted none s) in
    let u = plan_rollback t none in
    let (es, ns) = plan_rollback-rollback_plan t none in
    rw⁻¹ (es, ns)
      (after_planned-Ends s (record_rollback u.entries u.no_rollback t) u.entries u.no_rollback
        (record { id = refl; dry = refl; jobs = refl; events = refl; clock = refl }) refl refl
        (subst (All Undoes) (sym es) (rollback_plan-Undoes t (λ i. true))))

-- A refusal to revert a run gives a reason that holds of it. A run that is reverted is no dry run,
-- is SUCCEEDED, has a phase and the purpose ACTIVATION, and no other run of its service is in flight
-- or, dry runs apart, newer. Its plan then gets one ROLLBACK entry for each CONFIGURATION child that
-- ran a step and whose device has a rollback step left to do, the last child first. The first such
-- entry has one child queued, at its own position, and the run is back in flight in its ROLLBACK
-- phase as REVERTED. Without entries the run is closed: ROLLED_BACK, or FAILED as
-- ROLLBACK_INCOMPLETE if a device without a rollback ran a step that needs undoing.
pub revert_run-Acts :
    (s : Session)
    → Acts
        (RevertGuard s)
        (Ends
          (some reverted)
          s
          (rollback_plan s (λ i. true))
          (RevertCloses (undefined_for s (λ i. true))))
        (revert_run s)
unfolding revert_run
revert_run-Acts s =
    unless_refused-Acts (RevertGuard s)
      (Ends (some reverted) s (rollback_plan s (λ i. true))
        (RevertCloses (undefined_for s (λ i. true))))
      (revert_refusal s) (start_revert s) (revert_refusal-RevertGuard s) (start_revert-Ends s)
