-- ===== src/Runs/OpenLaws.antt =====
-- What `create_run` of provisioning_runs.py opens.
use models_utils.Prelude.{
  ℕ, suc, ◌≡◌, refl, true, ◌||◌, Option, none, some, List, [], ◌∷◌, ◌++◌, append-nil, sym, ap, ◌∙◌,
  nat_eq, text_eq, all, get_elem?, Bool-cases, inl, inr,
}
use models_utils.Runs.Rows.{queued, Phase, Definition, PlanEntry, Job, Run}
use models_utils.Runs.Session.{Session, queue_entry, queue_child, child_at, enter_phase}
use models_utils.Policy.Gates.{Environment, DeviceType, NodeFailure, run_gate_failures}
use models_utils.Policy.GateLaws.{may_go_live, no_failure, run_gate_failures-may_go_live}
use models_utils.Runs.Open.{
  Resolved, Request, Checks, Opening, timeout_or_default, is_timeout, first_phase, run_row,
  as_opening, insert_run, unless_gated, create_run, definitions, resolution_error, opened,
}

-- A run that has been opened: QUEUED, with the planned entries and its first child alone.
pub record Opens (q : Request) (resolved : Resolved) (s t : Session) (o : Option Job) : Type 0 where
  pub waits : t.run.status ≡ queued
  pub asked : t.run.purpose ≡ q.purpose
  pub first : t.run.phase ≡ first_phase t.run.plan
  pub child : t.jobs ≡ s.jobs ++ (elim o [ none ↦ [] | some j ↦ j ∷ [] ])
  pub silent : t.events ≡ s.events
  pub kept : t.others ≡ s.run ∷ s.others

abbrev pub OpensOr : Type 0 → Request → Resolved → Session → Opening → Type 0
OpensOr P q resolved s (opened t o) = P × Opens q resolved s t o
OpensOr P q resolved s _ = Unit

enter_phase-keeps :
    (o : Option Phase) (run : Run)
    → ((enter_phase o run).status ≡ run.status)
      × ((enter_phase o run).purpose ≡ run.purpose)
      × ((enter_phase o run).plan ≡ run.plan)
      × (run.phase ≡ o → (enter_phase o run).phase ≡ o)
enter_phase-keeps none run = (refl, refl, refl, λ h. h)
enter_phase-keeps (some x) run = (refl, refl, refl, λ h. refl)

-- The state with the new row, and no child of it yet.
abbrev with_row : Request → Resolved → List (ℕ × Definition) → Session → Session
with_row q resolved defs s = record s {
  run = run_row q resolved defs s;
  others = s.run ∷ s.others;
  fresh = suc s.fresh;
}

queue_first-Opens :
    (P : Type 0) (q : Request) (resolved : Resolved) (s : Session) (defs : List (ℕ × Definition))
    (plan : List PlanEntry)
    → P
    → (run_row q resolved defs s).plan ≡ plan
    → OpensOr P q resolved s
        (as_opening (queue_entry (with_row q resolved defs s) 0 (get_elem? plan 0)))
unfolding queue_entry run_row child_at
queue_first-Opens P q resolved s defs [] p a = (
  p,
  record {
    waits = refl;
    asked = refl;
    first = refl;
    child = sym (append-nil s.jobs);
    silent = refl;
    kept = refl;
  },
)
queue_first-Opens P q resolved s defs (x ∷ xs) p a =
    let run = run_row q resolved defs s in
    let (waits, asked, plan, phase) = enter_phase-keeps x.phase run in
    let starts : run.phase ≡ x.phase = ap first_phase a in
    (
      p,
      record {
        waits = waits;
        asked = asked;
        first = phase starts ∙ sym (ap first_phase (plan ∙ a));
        child = refl;
        silent = refl;
        kept = refl;
      },
    )

gated_opens :
    (q : Request) (resolved : Resolved) (s : Session) (o : Opening) (fs : List NodeFailure)
    → (no_failure fs ≡ true → OpensOr (no_failure fs ≡ true) q resolved s o)
    → OpensOr (no_failure fs ≡ true) q resolved s (unless_gated fs o)
gated_opens q resolved s o [] h = h refl
gated_opens q resolved s o (f ∷ fs) h = tt

insert_run-Opens :
    (P : Type 0) (q : Request) (resolved : Resolved) (s : Session) (checks : Checks)
    → P
    → OpensOr P q resolved s (insert_run q resolved s checks)
unfolding insert_run queue_child
insert_run-Opens P q resolved s (resolution_error e) p = tt
insert_run-Opens P q resolved s (definitions defs) p =
    queue_first-Opens P q resolved s defs (run_row q resolved defs s).plan p refl

-- A run that opens has passed the gates, on every configured node unless it is a dry run. It is
-- QUEUED for the purpose that was asked for, in the phase of its first entry; at most its first
-- child is queued with it, no event tells of it, and the other runs stay as they were.
pub create_run-Opens :
    (env : Environment) (types : List (ℕ × DeviceType)) (q : Request) (resolved : Resolved)
    (checks : Checks) (s : Session)
    → OpensOr
        ((q.dry_run || all (may_go_live env s.playbooks types) resolved.steps) ≡ true)
        q
        resolved
        s
        (create_run env types q resolved checks s)
unfolding create_run
create_run-Opens env types q resolved checks s =
    let fs = run_gate_failures env s.playbooks types resolved.steps q.dry_run in
    let o = insert_run q resolved s checks in
    elim (Bool-cases (is_timeout (timeout_or_default q.guided_timeout_seconds))) [
      | inr b ↦ rw b tt
      | inl b ↦
          rw (b, sym (run_gate_failures-may_go_live env s.playbooks types resolved.steps q.dry_run))
            (gated_opens q resolved s o fs
              λ h. insert_run-Opens (no_failure fs ≡ true) q resolved s checks h)
    ]
