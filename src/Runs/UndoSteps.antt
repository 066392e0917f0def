-- ===== src/Runs/UndoSteps.antt =====
-- The rollback builder of provisioning_runs.py: which rollback steps of a device are left to do, and
-- which devices it finds without a rollback.
use models_utils.Prelude.{
  ◌≡◌, refl, sym, ◌∙◌, ap, Bool, true, false, not, ◌||◌, Option, none, some, List, [], ◌∷◌, map,
  Text, codes, text_eq, contains, any, all, Bool-cases, inl, inr, if◌then◌else◌,
}
use models_utils.Runs.Rows.{StepDef, StepLabel}
use models_utils.Runs.Plan.{is_one_of, no_undo_drivers, step_labels}
use models_utils.Runs.Logs.{same_option_text}
use models_utils.Runs.Rollback.{
  driver_of, undoes_of, undoes_nothing, mark_skip, rollback_steps, harmless,
}

-- Whether the first step of the name undoes a named step that did not run.
abbrev pub left_out : List StepDef → List Text → Option Text → Bool
left_out [] ran w = false
left_out (s ∷ ss) ran w =
    if same_option_text s.name w
    then elim s.undoes [ none ↦ false | some u ↦ not (contains ([] ∷ ran) u) ]
    else left_out ss ran w

-- The rollback steps, those to leave out marked.
abbrev pub marked : List StepDef → List Text → List StepLabel
marked steps ran =
    map (λ (s : StepLabel). record s { skip = s.skip || left_out steps ran s.name })
      (step_labels steps)

undoes_nothing-undoes_of :
    (steps : List StepDef) (ran : List Text) (w : Option Text)
    → undoes_nothing ran (undoes_of steps w) ≡ left_out steps ran w
undoes_nothing-undoes_of [] ran w = refl
undoes_nothing-undoes_of (s ∷ ss) ran w = elim (Bool-cases (same_option_text s.name w)) [
  | inl e ↦ rw e (of_undoes s.undoes)
  | inr e ↦ rw e (undoes_nothing-undoes_of ss ran w)
]
  where
    of_undoes :
        (o : Option Text)
        → undoes_nothing ran o ≡ elim o [ none ↦ false | some u ↦ not (contains ([] ∷ ran) u) ]
    of_undoes none = refl
    of_undoes (some []) = refl
    of_undoes (some (c ∷ u)) = refl

or_same : (b : Bool) → b ≡ (b || false)
or_same true = refl
or_same false = refl

or_true : (b : Bool) → true ≡ (b || true)
or_true true = refl
or_true false = refl

mark_skip_lem :
    (steps : List StepDef) (ran : List Text) (s : StepLabel)
    → mark_skip steps ran s ≡ record s { skip = s.skip || left_out steps ran s.name }
mark_skip_lem steps ran s =
    let e = undoes_nothing-undoes_of steps ran s.name in
    elim (Bool-cases (left_out steps ran s.name)) [
      | inl b ↦ rw (e, b) (ap (λ (k : Bool). record s { skip = k }) (or_true s.skip))
      | inr b ↦ rw (e, b) (ap (λ (k : Bool). record s { skip = k }) (or_same s.skip))
    ]

pub rollback_steps-marked :
    (steps : List StepDef) (ran : List Text) → rollback_steps steps ran ≡ marked steps ran
unfolding rollback_steps
rollback_steps-marked steps ran =
    ap (λ f. map f (step_labels steps)) (λ k s. mark_skip_lem steps ran s k)

abbrev pub is_named : Text → StepDef → Bool
is_named w s = same_option_text s.name (some w)

-- The driver of the last step of the name.
abbrev pub last_driver : List StepDef → Text → Option Text
last_driver [] w = none
last_driver (s ∷ ss) w =
    if any (is_named w) ss then last_driver ss w else if is_named w s then s.driver else none

driver_of_lem :
    (ss : List StepDef) (found : Option Text) (w : Text)
    → driver_of ss found w ≡ (if any (is_named w) ss then last_driver ss w else found)
driver_of_lem [] found w = refl
driver_of_lem (s ∷ ss) found w =
    driver_of_lem ss (if is_named w s then s.driver else found) w
    ∙ chosen (is_named w s) (any (is_named w) ss)
  where
    chosen :
        (a b : Bool)
        → (if b then last_driver ss w else if a then s.driver else found) ≡ (
            if a || b
            then (if b then last_driver ss w else if a then s.driver else none)
            else found)
    chosen true true = refl
    chosen true false = refl
    chosen false true = refl
    chosen false false = refl

last_driver_absent :
    (ss : List StepDef) (w : Text) → any (is_named w) ss ≡ false → last_driver ss w ≡ none
last_driver_absent [] w h = refl
last_driver_absent (s ∷ ss) w h = elim (Bool-cases (is_named w s)) [
  | inl a ↦ cc (rw a at h)
  | inr a ↦ rw (a, rw a at h) refl
]

driver_of-none : (ss : List StepDef) (w : Text) → driver_of ss none w ≡ last_driver ss w
driver_of-none ss w = driver_of_lem ss none w ∙ elim (Bool-cases (any (is_named w) ss)) [
  | inl a ↦ rw a refl
  | inr a ↦ rw a (sym (last_driver_absent ss w a))
]

-- A step needs undoing, unless its driver changes nothing on a device.
abbrev pub changes_device : Option Text → Bool
changes_device none = true
changes_device (some driver) =
    not (contains (codes "simulator" ∷ codes "ping" ∷ codes "connection_request" ∷ []) driver)

abbrev pub needs_undo : List StepDef → List Text → Bool
needs_undo configuration ran = any (λ w. changes_device (last_driver configuration w)) ran

changes_device_lem : (o : Option Text) → not (is_one_of no_undo_drivers o) ≡ changes_device o
changes_device_lem none = refl
changes_device_lem (some driver) = refl

any_or_all :
    (p q : Text → Bool) (ws : List Text)
    → ((w : Text) → not (p w) ≡ q w)
    → not (all p ws) ≡ any q ws
any_or_all p q [] h = refl
any_or_all p q (w ∷ ws) h = elim (Bool-cases (p w)) [
  | inl a ↦ rw (a, sym (h w) ∙ ap not a) (any_or_all p q ws h)
  | inr a ↦ rw (a, sym (h w) ∙ ap not a) refl
]

pub harmless-needs_undo :
    (configuration : List StepDef) (ran : List Text)
    → not (harmless configuration ran) ≡ needs_undo configuration ran
unfolding harmless
harmless-needs_undo configuration ran = any_or_all _ _ ran (λ w.
    ap (λ o. not (is_one_of no_undo_drivers o)) (driver_of-none configuration w)
    ∙ changes_device_lem (last_driver configuration w))
