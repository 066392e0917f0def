-- ===== src/Runs/UndoLaws.antt =====
-- The rollback builder of provisioning_runs.py: which entries `_plan_rollback` plans for which
-- children, and which devices it finds without a rollback.
use mathlib.Core.List.{reverse}
use models_utils.Prelude.{
  ℕ, ◌≡◌, refl, sym, ◌∙◌, ap, subst, Bool, false, not, ◌&&◌, Option, none, some, List, [], ◌∷◌,
  ◌++◌, append-nil, append_assoc, Text, any, all, get_elem?, All, All-append, Bool-cases, inl, inr,
  if◌then◌else◌,
}
use models_utils.Runs.Rows.{
  is_configuration, rollback, StepDef, Definition, StepLabel, PlanEntry, Job, position_of, Run,
}
use models_utils.Runs.Plan.{snapshot, step_labels}
use models_utils.Runs.Logs.{ran_steps}
use models_utils.Runs.UndoSteps.{marked, rollback_steps-marked, needs_undo, harmless-needs_undo}
use models_utils.Runs.Session.{Session, children}
use models_utils.Runs.Rollback.{
  entry_at, Undo, rollback_steps, harmless, add_entry, undo_with, undo_device, is_wanted, undo_ran,
  undo_entry, undo_child, undo_all, no_undo, plan_rollback,
}

-- The ROLLBACK entry of a device that ran the steps: none unless a step of its rollback is left to do.
abbrev pub entry_for_undo : PlanEntry → List Text → List StepLabel → List PlanEntry
entry_for_undo e ran steps =
    if any (λ (s : StepLabel). not s.skip) steps
    then record e { probe = false; phase = some rollback; steps = steps; ran_steps = ran } ∷ []
    else []

abbrev pub undoing : Definition → PlanEntry → List Text → List PlanEntry
undoing d e [] = []
undoing d e (w ∷ ws) = entry_for_undo e (w ∷ ws) (marked d.rollback (w ∷ ws))

-- The device, if it has no rollback and ran a step that needs undoing.
abbrev pub lacking : Definition → PlanEntry → List Text → List ℕ
lacking d e [] = []
lacking d e (w ∷ ws) = elim d.rollback [
  | [] ↦ (if needs_undo d.configuration (w ∷ ws) then e.item_id ∷ [] else [])
  | _ ↦ []
]

-- What a child with the entry calls for: nothing unless it configured a wanted device.
abbrev pub due {ℓ} :
    {A : Type ℓ}
    → (Definition → PlanEntry → List Text → List A)
    → (ℕ → Bool)
    → List (ℕ × Definition)
    → Job
    → Option PlanEntry
    → List A
due f wanted snapshots job none = []
due f wanted snapshots job (some e) =
    if is_configuration e.phase && wanted e.item_id
    then f (snapshot snapshots e.playbook_id) e (ran_steps job)
    else []

abbrev pub due_all {ℓ} :
    {A : Type ℓ}
    → (Definition → PlanEntry → List Text → List A)
    → (ℕ → Bool)
    → List (ℕ × Definition)
    → List PlanEntry
    → List Job
    → List A
due_all f wanted snapshots plan [] = []
due_all f wanted snapshots plan (job ∷ jobs) =
    due f wanted snapshots job (get_elem? plan (position_of job))
    ++ due_all f wanted snapshots plan jobs

-- The entries and the devices without a rollback that are added to what was found before.
abbrev Adds : Undo → List PlanEntry → List ℕ → Undo → Type 0
Adds u es ns v = (v.entries ≡ u.entries ++ es) × (v.no_rollback ≡ u.no_rollback ++ ns)

Adds-nothing : (u v : Undo) → u.entries ≡ v.entries → u.no_rollback ≡ v.no_rollback → Adds v [] [] u
Adds-nothing u v h k = (h ∙ sym (append-nil v.entries), k ∙ sym (append-nil v.no_rollback))

any_to_do :
    (ss : List StepLabel)
    → any (λ (s : StepLabel). not s.skip) ss ≡ not (all (λ (s : StepLabel). s.skip) ss)
any_to_do [] = refl
any_to_do (s ∷ ss) = elim (Bool-cases s.skip) [
  | inl e ↦ rw (e, any_to_do ss) refl
  | inr e ↦ rw e refl
]

add_entry-Adds :
    (e : PlanEntry) (ran : List Text) (steps : List StepLabel) (u : Undo)
    → Adds u (entry_for_undo e ran steps) [] (add_entry e ran steps u)
add_entry-Adds e ran steps u =
    rw (any_to_do steps) (elim (Bool-cases (all (λ (s : StepLabel). s.skip) steps)) [
      | inl b ↦ rw b (Adds-nothing u u refl refl)
      | inr b ↦ rw b (refl, sym (append-nil u.no_rollback))
    ])

undo_with-Adds :
    (steps : List StepDef) (d : Definition) (e : PlanEntry) (ran : List Text) (u : Undo)
    → Adds u
        (entry_for_undo e ran (marked steps ran))
        (elim steps [
          | [] ↦ (if needs_undo d.configuration ran then e.item_id ∷ [] else [])
          | _ ↦ []
        ])
        (undo_with steps d e ran u)
unfolding undo_with step_labels
undo_with-Adds (s ∷ ss) d e ran u =
    let steps = rollback_steps (s ∷ ss) ran in
    subst (λ done. Adds u (entry_for_undo e ran done) [] (add_entry e ran steps u))
      (rollback_steps-marked (s ∷ ss) ran) (add_entry-Adds e ran steps u)
undo_with-Adds [] d e ran u =
    subst (λ needed. Adds u [] (if needed then e.item_id ∷ [] else []) (undo_with [] d e ran u))
      (harmless-needs_undo d.configuration ran)
      (elim (Bool-cases (harmless d.configuration ran)) [
        | inl b ↦ rw b (Adds-nothing u u refl refl)
        | inr b ↦ rw b (sym (append-nil u.entries), refl)
      ])

undo_ran-Adds :
    (d : Definition) (e : PlanEntry) (ran : List Text) (u : Undo)
    → Adds u (undoing d e ran) (lacking d e ran) (undo_ran d e ran u)
unfolding undo_ran undo_device
undo_ran-Adds d e [] u = Adds-nothing u u refl refl
undo_ran-Adds d e (w ∷ ws) u =
    undo_with-Adds d.rollback d e (w ∷ ws) (record u { touched = u.touched ++ e.item_id ∷ [] })

undo_entry-Adds :
    (run : Run) (items : Option (List ℕ)) (job : Job) (o : Option PlanEntry) (u : Undo)
    → Adds u
        (due undoing (is_wanted items) run.frames.definitions job o)
        (due lacking (is_wanted items) run.frames.definitions job o)
        (undo_entry run items job o u)
unfolding undo_entry
undo_entry-Adds run items job none u = Adds-nothing u u refl refl
undo_entry-Adds run items job (some e) u =
    elim (Bool-cases (is_configuration e.phase && is_wanted items e.item_id)) [
      | inl b ↦
          rw b (undo_ran-Adds (snapshot run.frames.definitions e.playbook_id) e (ran_steps job) u)
      | inr b ↦ rw b (Adds-nothing u u refl refl)
    ]

Adds-append :
    (u v w : Undo) (es es' : List PlanEntry) (ns ns' : List ℕ)
    → Adds u es ns v
    → Adds v es' ns' w
    → Adds u (es ++ es') (ns ++ ns') w
Adds-append u v w es es' ns ns' (h, k) (h', k') = (
  h' ∙ (ap (λ l. l ++ es') h ∙ append_assoc u.entries es es'),
  k' ∙ (ap (λ l. l ++ ns') k ∙ append_assoc u.no_rollback ns ns'),
)

undo_all-Adds :
    (run : Run) (items : Option (List ℕ)) (jobs : List Job) (u : Undo)
    → Adds u
        (due_all undoing (is_wanted items) run.frames.definitions run.plan jobs)
        (due_all lacking (is_wanted items) run.frames.definitions run.plan jobs)
        (undo_all run items jobs u)
unfolding undo_all undo_child
undo_all-Adds run items [] u = Adds-nothing u u refl refl
undo_all-Adds run items (job ∷ jobs) u =
    Adds-append u (undo_entry run items job (entry_at run job) u)
      (undo_all run items (job ∷ jobs) u) _ _ _ _
      (undo_entry-Adds run items job (entry_at run job) u)
      (undo_all-Adds run items jobs (undo_child run items job u))

-- The ROLLBACK entries for the wanted devices, the last child first.
abbrev pub rollback_plan : Session → (ℕ → Bool) → List PlanEntry
rollback_plan s wanted =
    due_all undoing wanted s.run.frames.definitions s.run.plan (reverse (children s))

-- The wanted devices without a rollback.
abbrev pub undefined_for : Session → (ℕ → Bool) → List ℕ
undefined_for s wanted =
    due_all lacking wanted s.run.frames.definitions s.run.plan (reverse (children s))

pub plan_rollback-rollback_plan :
    (s : Session) (items : Option (List ℕ))
    → ((plan_rollback s items).entries ≡ rollback_plan s (is_wanted items))
      × ((plan_rollback s items).no_rollback ≡ undefined_for s (is_wanted items))
unfolding plan_rollback
plan_rollback-rollback_plan s items = undo_all-Adds s.run items (reverse (children s)) no_undo

abbrev pub Undoes : PlanEntry → Type 0
Undoes e = e.phase ≡ some rollback

undoing-Undoes : (d : Definition) (e : PlanEntry) (ran : List Text) → All Undoes (undoing d e ran)
undoing-Undoes d e [] = tt
undoing-Undoes d e (w ∷ ws) =
    elim (Bool-cases (any (λ (s : StepLabel). not s.skip) (marked d.rollback (w ∷ ws)))) [
      | inl b ↦ rw b (refl, tt)
      | inr b ↦ rw b tt
    ]

due-Undoes :
    (wanted : ℕ → Bool) (ds : List (ℕ × Definition)) (job : Job) (o : Option PlanEntry)
    → All Undoes (due undoing wanted ds job o)
due-Undoes wanted ds job none = tt
due-Undoes wanted ds job (some e) =
    elim (Bool-cases (is_configuration e.phase && wanted e.item_id)) [
      | inl b ↦ rw b (undoing-Undoes (snapshot ds e.playbook_id) e (ran_steps job))
      | inr b ↦ rw b tt
    ]

pub due_all-Undoes :
    (wanted : ℕ → Bool) (ds : List (ℕ × Definition)) (plan : List PlanEntry) (jobs : List Job)
    → All Undoes (due_all undoing wanted ds plan jobs)
due_all-Undoes wanted ds plan [] = tt
due_all-Undoes wanted ds plan (job ∷ jobs) =
    All-append Undoes (due undoing wanted ds job (get_elem? plan (position_of job))) _
      (due-Undoes wanted ds job (get_elem? plan (position_of job)))
      (due_all-Undoes wanted ds plan jobs)

pub rollback_plan-Undoes : (s : Session) (wanted : ℕ → Bool) → All Undoes (rollback_plan s wanted)
rollback_plan-Undoes s wanted =
    due_all-Undoes wanted s.run.frames.definitions s.run.plan (reverse (children s))
