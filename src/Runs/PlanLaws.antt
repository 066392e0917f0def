-- ===== src/Runs/PlanLaws.antt =====
-- The plan that `create_run` builds: phase by phase, and in each phase the devices with steps in
-- configuration order.
use mathlib.Core.List.{reverse}
use models_utils.Prelude.{
  ℕ, ◌≡◌, ◌≢◌, refl, ◌∙◌, ap, Bool, true, false, not, some, List, [], ◌∷◌, ◌++◌, map, Text, text_eq,
  contains, All, All-append, keep_if, if◌then◌else◌,
}
use models_utils.Runs.Rows.{
  Phase, preconditions, configuration, verification, rollback, StepDef, Definition, PlanEntry,
}
use models_utils.Runs.Plan.{
  Node, plan_entry, job_steps, if_steps, probes, plan_phase, build_plan, teardown_purposes,
  snapshot,
}

abbrev pub is_empty {ℓ} : {A : Type ℓ} → List A → Bool
is_empty [] = true
is_empty (x ∷ xs) = false

abbrev pub items : List PlanEntry → List ℕ
items = map (λ e. e.item_id)

-- An entry of the phase that has something to run.
abbrev pub RunsIn : Phase → PlanEntry → Type 0
RunsIn phase e = (e.phase ≡ some phase) × (e.steps ≢ [])

if_steps-RunsIn :
    (n : Node) (phase : Phase) (probe : Bool) (steps : List StepDef)
    → All (RunsIn phase) (if_steps n phase probe steps)
unfolding plan_entry
if_steps-RunsIn n phase probe [] = tt
if_steps-RunsIn n phase probe (s ∷ ss) = ((refl, λ e. cc), tt)

pub plan_phase-RunsIn :
    (ds : List (ℕ × Definition)) (bring_up : Bool) (phase : Phase) (ns : List Node)
    → All (RunsIn phase) (plan_phase ds bring_up phase ns)
unfolding plan_phase
plan_phase-RunsIn ds b phase [] = tt
plan_phase-RunsIn ds b phase (n ∷ ns) =
    All-append (RunsIn phase) _ (plan_phase ds b phase ns)
      (if_steps-RunsIn n phase (probes phase (snapshot ds n.playbook_id) b n) _)
      (plan_phase-RunsIn ds b phase ns)

-- Whether a node has an entry in the phase: steps of its own, or the session probe.
abbrev pub takes_part : List (ℕ × Definition) → Bool → Phase → Node → Bool
takes_part ds b phase n =
    let d = snapshot ds n.playbook_id in not (is_empty (job_steps d phase (probes phase d b n)))

items-if_steps :
    (n : Node) (phase : Phase) (probe : Bool) (steps : List StepDef)
    → items (if_steps n phase probe steps) ≡ (if not (is_empty steps) then n.item_id ∷ [] else [])
unfolding plan_entry
items-if_steps n phase probe [] = refl
items-if_steps n phase probe (s ∷ ss) = refl

items-append : (xs ys : List PlanEntry) → items (xs ++ ys) ≡ items xs ++ items ys
items-append [] ys = refl
items-append (x ∷ xs) ys = ap (λ is. x.item_id ∷ is) (items-append xs ys)

prepend_if :
    (b : Bool) (n : Node) (ns : List Node)
    → (if b then n.item_id ∷ [] else []) ++ map (λ (m : Node). m.item_id) ns
      ≡ map (λ (m : Node). m.item_id) (if b then n ∷ ns else ns)
prepend_if true n ns = refl
prepend_if false n ns = refl

-- In a phase the plan has one entry for each node that takes part, in the given order.
pub items-plan_phase :
    (ds : List (ℕ × Definition)) (bring_up : Bool) (phase : Phase) (ns : List Node)
    → items (plan_phase ds bring_up phase ns)
      ≡ map (λ (n : Node). n.item_id) (keep_if (takes_part ds bring_up phase) ns)
unfolding plan_phase
items-plan_phase ds b phase [] = refl
items-plan_phase ds b phase (n ∷ ns) =
    let d = snapshot ds n.playbook_id in
    let probe = probes phase d b n in
    let steps = job_steps d phase probe in
    items-append (if_steps n phase probe steps) (plan_phase ds b phase ns)
    ∙ ap (λ is. is ++ items (plan_phase ds b phase ns)) (items-if_steps n phase probe steps)
    ∙ ap (λ is. (if not (is_empty steps) then n.item_id ∷ [] else []) ++ is)
        (items-plan_phase ds b phase ns)
    ∙ prepend_if (not (is_empty steps)) n (keep_if (takes_part ds b phase) ns)

-- A plan in four parts.
pub record Phases (plan : List PlanEntry) : Type 0 where
  pub pre : List PlanEntry
  pub conf : List PlanEntry
  pub ver : List PlanEntry
  pub undo : List PlanEntry
  pub whole : plan ≡ pre ++ (conf ++ (ver ++ undo))
  pub in_pre : All (RunsIn preconditions) pre
  pub in_conf : All (RunsIn configuration) conf
  pub in_ver : All (RunsIn verification) ver
  pub in_undo : All (RunsIn rollback) undo

undo-RunsIn :
    (ds : List (ℕ × Definition)) (b dry : Bool) (ns : List Node)
    → All (RunsIn rollback) (if dry then plan_phase ds b rollback ns else [])
undo-RunsIn ds b true ns = plan_phase-RunsIn ds b rollback ns
undo-RunsIn ds b false ns = tt

-- The plan is phase-major: PRECONDITIONS, then CONFIGURATION, then VERIFICATION, and last the
-- ROLLBACK of a dry run; in each part the devices that have steps there stand in configuration
-- order, for ROLLBACK in reverse, and every entry has steps. A live run plans no ROLLBACK.
pub build_plan-Phases :
    (ds : List (ℕ × Definition)) (purpose : Text) (dry : Bool) (ns : List Node)
    → let part = takes_part ds (not (contains teardown_purposes purpose)) in
      let ids = map (λ (n : Node). n.item_id) in
      (p : Phases (build_plan ds purpose dry ns)) × (items p.pre
        ≡ ids (keep_if (part preconditions) ns))
      × (items p.conf ≡ ids (keep_if (part configuration) ns))
      × (items p.ver ≡ ids (keep_if (part verification) ns))
      × (items p.undo ≡ (if dry then ids (keep_if (part rollback) (reverse ns)) else []))
unfolding build_plan
build_plan-Phases ds purpose dry ns =
    let b = not (contains teardown_purposes purpose) in
    (
      record {
        pre = plan_phase ds b preconditions ns;
        conf = plan_phase ds b configuration ns;
        ver = plan_phase ds b verification ns;
        undo = if dry then plan_phase ds b rollback (reverse ns) else [];
        whole = refl;
        in_pre = plan_phase-RunsIn ds b preconditions ns;
        in_conf = plan_phase-RunsIn ds b configuration ns;
        in_ver = plan_phase-RunsIn ds b verification ns;
        in_undo = undo-RunsIn ds b dry (reverse ns);
      },
      items-plan_phase ds b preconditions ns,
      items-plan_phase ds b configuration ns,
      items-plan_phase ds b verification ns,
      items-undo dry ds b (reverse ns),
    )
  where
    items-undo :
        (dry : Bool) (ds : List (ℕ × Definition)) (b : Bool) (ms : List Node)
        → items (if dry then plan_phase ds b rollback ms else []) ≡ (
            if dry
            then map (λ (n : Node). n.item_id) (keep_if (takes_part ds b rollback) ms)
            else [])
    items-undo true ds b ms = items-plan_phase ds b rollback ms
    items-undo false ds b ms = refl
