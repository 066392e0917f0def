-- ===== src/Runs/AdvanceLaws.antt =====
-- `advance_run` of provisioning_runs.py: it queues one child or closes the run.
use models_utils.Prelude.{
  ℕ, zero, suc, ◌+◌, ◌-◌, ◌<◌, ◌≡◌, inl, inr, refl, Bool, true, false, ◌||◌, Option, none, some,
  List, [], ◌∷◌, ◌++◌, arith, length, length-append, get_elem?, text_eq, Bool-cases, Option-cases,
  Text,
}
use models_utils.Runs.Rows.{
  running, in_flight, is_ok, Phase, is_rollback, preconditions, rollback, PlanEntry, Job,
  position_of, Outcome, text, is_cancelled, cancelled, precondition_failed, run_cancelled,
  rollback_incomplete, failed, rolled_back,
}
use models_utils.Runs.Session.{Session, queue_entry, queue_child}
use models_utils.Runs.Rollback.{
  Undo, set_cause, plan_rollback, record_rollback, close_after_rollback_planned, undo_touched,
  enter_rollback, incomplete_text, undefined_step,
}
use mathlib.Core.List.{map}
use models_utils.Runs.Logs.{failure_text}
use models_utils.Runs.Advance.{
  next_or, finish_legacy, advance_legacy, keep_outputs, finish_plan, fail_phase, advance_phase,
  advance_by, advance_entry, advance_run, is_stale,
}
use models_utils.Runs.Moves.{
  Moved, close_run-Closed, Closed-if, finish_plan-Closed, finish_legacy-Closed, insert-Queued,
  next_or-Moved, Moved-shift, Alike,
}

advance_legacy-Moved :
    (job : Job) (s : Session)
    → in_flight s.run.status ≡ true
    → in_flight job.status ≡ false
    → Moved (position_of job) s (advance_legacy job s)
unfolding advance_legacy
advance_legacy-Moved job s going ended = elim (Bool-cases (is_ok job.status)) [
  | inl e ↦ rw e (
      next_or-Moved (position_of job) (position_of job + 1) _ s finish_legacy (omega arith) going
        finish_legacy-Closed)
  | inr e ↦ rw e (close_run-Closed job.status none none s ended)
]

-- The first appended entry is at the old end of the plan.
get_elem?-append {ℓ} :
    {A : Type ℓ} (xs : List A) (y : A) (ys : List A) → get_elem? (xs ++ y ∷ ys) (length xs) ≡ some y
get_elem?-append [] y ys = refl
get_elem?-append (x ∷ xs) y ys = get_elem?-append xs y ys

pub planned_at :
    (plan xs zs : List PlanEntry) (x : PlanEntry)
    → zs ≡ plan ++ x ∷ xs
    → (length zs - length (x ∷ xs) ≡ length plan)
      × (get_elem? zs (length zs - length (x ∷ xs)) ≡ some x)
planned_at plan xs zs x e =
    let at : length zs - length (x ∷ xs) ≡ length plan =
      rw e (omega (arith, length-append plan (x ∷ xs))) in
    (at, rw at (rw e (get_elem?-append plan x xs)))

pub queue_child-Queued :
    (p position : ℕ) (x : PlanEntry) (t : Session)
    → get_elem? t.run.plan position ≡ some x
    → p < position
    → in_flight t.run.status ≡ true
    → Moved p t (queue_child t position)
unfolding queue_child
queue_child-Queued p position x t found h going = rw found (insert-Queued p position x t h going)

abbrev in_rollback : Session → Session
in_rollback s = record s { run = record s.run { phase = some rollback; status = running } }

-- The end of a planned rollback, from the state `s` to which the entries have been appended.
pub after_planned-Moved :
    (p : ℕ) (plan entries : List PlanEntry) (no_rollback : List ℕ) (s : Session)
    → s.run.plan ≡ plan ++ entries
    → p < length plan
    → Moved p s (close_after_rollback_planned entries no_rollback s)
unfolding close_after_rollback_planned
after_planned-Moved p plan [] [] s e h = close_run-Closed rolled_back none none s refl
after_planned-Moved p plan [] (i ∷ is) s e h =
    close_run-Closed failed (some rollback_incomplete)
      (some (incomplete_text s.run (map (undefined_step s.run.plan) (i ∷ is)))) s refl
after_planned-Moved p plan (x ∷ xs) no_rollback s e h =
    let (at, found) = planned_at plan xs s.run.plan x e in
    Moved-shift p (queue_child (in_rollback s) (length s.run.plan - length (x ∷ xs)))
      (record { id = refl; dry = refl; jobs = refl; events = refl; clock = refl })
      (queue_child-Queued p (length s.run.plan - length (x ∷ xs)) x (in_rollback s) found
        (omega arith) refl)

undo_touched-Moved :
    (p : ℕ) (was_cancelled : Bool) (touched : List ℕ) (u : Undo) (s : Session)
    → p < length s.run.plan
    → Moved p s (undo_touched was_cancelled touched u s)
unfolding undo_touched
undo_touched-Moved p true [] u s h = close_run-Closed cancelled none none s refl
undo_touched-Moved p false [] u s h = close_run-Closed failed none none s refl
undo_touched-Moved p c (i ∷ is) u s h =
    Moved-shift p
      (close_after_rollback_planned u.entries u.no_rollback
        (record_rollback u.entries u.no_rollback s))
      (record { id = refl; dry = refl; jobs = refl; events = refl; clock = refl })
      (after_planned-Moved p s.run.plan u.entries u.no_rollback _ refl h)

pub enter_rollback-Moved :
    (p : ℕ) (code : Outcome) (error : Option Text) (was_cancelled : Bool) (s : Session)
    → p < length s.run.plan
    → Moved p s (enter_rollback code error was_cancelled s)
unfolding enter_rollback
enter_rollback-Moved p code error c s h =
    let t = set_cause code error s in
    Moved-shift p (enter_rollback code error c s)
      (record { id = refl; dry = refl; jobs = refl; events = refl; clock = refl })
      (undo_touched-Moved p c (plan_rollback t none).touched (plan_rollback t none) t h)

fail_phase-Moved :
    (phase : Phase) (e : PlanEntry) (job : Job) (s : Session)
    → position_of job < length s.run.plan
    → Moved (position_of job) s (fail_phase phase e job s)
unfolding fail_phase
fail_phase-Moved preconditions e job s h =
    Closed-if (is_cancelled job.status)
      (close_run-Closed cancelled (some run_cancelled) none s refl)
      (close_run-Closed failed (some precondition_failed) (some (text (failure_text job e))) s refl)
fail_phase-Moved _ e job s h = enter_rollback-Moved (position_of job) _ _ _ s h

advance_phase-Moved :
    (phase : Phase) (e : PlanEntry) (job : Job) (s : Session)
    → in_flight s.run.status ≡ true
    → position_of job < length s.run.plan
    → Moved (position_of job) s (advance_phase phase e job s)
unfolding advance_phase queue_child
advance_phase-Moved phase e job s going h =
    let t = keep_outputs e job s in
    let p = position_of job in
    let alike : Alike s t = record {
      id = refl;
      dry = refl;
      jobs = refl;
      events = refl;
      clock = refl;
    } in
    elim (Bool-cases (s.run.dry_run || (is_ok job.status || is_rollback phase))) [
      | inl b ↦ rw b (
          Moved-shift p
            (next_or (finish_plan phase) (queue_entry t (p + 1) (get_elem? t.run.plan (p + 1))))
            alike
            (next_or-Moved p (p + 1) (get_elem? t.run.plan (p + 1)) t (finish_plan phase)
              (omega arith) going (finish_plan-Closed phase)))
      | inr b ↦
          rw b (Moved-shift p (fail_phase phase e job t) alike (fail_phase-Moved phase e job t h))
    ]

advance_by-Moved :
    (o : Option Phase) (e : PlanEntry) (job : Job) (s : Session)
    → in_flight s.run.status ≡ true
    → in_flight job.status ≡ false
    → position_of job < length s.run.plan
    → Moved (position_of job) s (advance_by o e job s)
unfolding advance_by
advance_by-Moved none e job s going ended h = advance_legacy-Moved job s going ended
advance_by-Moved (some phase) e job s going ended h = advance_phase-Moved phase e job s going h

in_bounds {ℓ} : {A : Type ℓ} (xs : List A) (p : ℕ) (x : A) → get_elem? xs p ≡ some x → p < length xs
in_bounds [] p x h = cc
in_bounds (y ∷ ys) zero x h = omega arith
in_bounds (y ∷ ys) (suc p) x h = omega (arith, in_bounds ys p x h)

-- An advance that is not stale queues one child behind the settled one, and leaves the run in
-- flight, or closes the run and queues nothing; a close tells one RUN_CLOSED event of its status,
-- unless the run is dry.
pub advance_run-Moved :
    (job : Job) (s : Session)
    → is_stale s job ≡ false
    → Moved (position_of job) s (advance_run job s)
unfolding advance_run advance_entry
advance_run-Moved job s fresh =
    let going : in_flight s.run.status ≡ true = ground arith in
    let ended : in_flight job.status ≡ false = ground arith in
    rw fresh (elim (Option-cases (get_elem? s.run.plan (position_of job))) [
      | inl e ↦ rw e (advance_legacy-Moved job s going ended)
      | inr (x, e) ↦
          rw e (advance_by-Moved x.phase x job s going ended (in_bounds _ (position_of job) x e))
    ])
