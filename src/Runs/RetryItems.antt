-- ===== src/Runs/RetryItems.antt =====
-- The items that `retry_rollback` of provisioning_runs.py undoes again.
use models_utils.Prelude.{
  ℕ, ◌≡◌, refl, sym, ◌∙◌, ap, Bool, true, false, not, ◌||◌, Option, none, some, List, [], ◌∷◌,
  arith, nat_beq, nat_beq_iff, nat_eq, contains, lookup, assign, lookup-assign, any, Bool-cases,
  inl, inr, if◌then◌else◌,
}
use models_utils.Runs.Rows.{Phase, is_ok, rollback, PlanEntry, Job}
use models_utils.Runs.Session.{Session, children}
use models_utils.Runs.Finish.{latest_rollbacks}
use models_utils.Runs.FinishLaws.{
  last_rollback, Distinct, Distinct-assign, Distinct-latest_rollbacks, lookup-latest_rollbacks,
}
use models_utils.Runs.Office.{planned_items, with_jobs, unfinished, retry_items}

-- The plan has a ROLLBACK entry for the item.
abbrev pub is_rollback_of : ℕ → PlanEntry → Bool
is_rollback_of i e = elim e.phase [ some rollback ↦ nat_beq e.item_id i | _ ↦ false ]

abbrev pub not_done : Bool → Option (PlanEntry × Job) → Bool
not_done planned none = planned
not_done planned (some (e, job)) = not (is_ok job.status)

-- The last ROLLBACK child of the item did not succeed, or it has an entry and no child yet.
abbrev pub needs_retry : Session → ℕ → Bool
needs_retry s i =
    not_done (any (is_rollback_of i) s.run.plan) (last_rollback s.run i (children s) none)

-- A step of `planned_items`.
abbrev noted : Option Phase → ℕ → List (ℕ × Option Job) → List (ℕ × Option Job)
noted p i latest = elim p [ some rollback ↦ assign latest i none | _ ↦ latest ]

lookup-noted :
    (p : Option Phase) (e : PlanEntry) (latest : List (ℕ × Option Job)) (i : ℕ)
    → e.phase ≡ p
    → lookup (noted p e.item_id latest) i
      ≡ (if is_rollback_of i e then some none else lookup latest i)
lookup-noted (some rollback) e latest i h = rw h (lookup-assign latest e.item_id i none)
lookup-noted _ e latest i h = rw h refl

Distinct-noted :
    (p : Option Phase) (i : ℕ) (latest : List (ℕ × Option Job))
    → Distinct latest
    → Distinct (noted p i latest)
Distinct-noted (some rollback) i latest d = Distinct-assign latest i none d
Distinct-noted _ i latest d = d

either_or {ℓ} :
    {A : Type ℓ} (a b : Bool) (x y z : A)
    → y ≡ (if a then x else z)
    → (if b then x else y) ≡ (if a || b then x else z)
either_or true true x y z h = refl
either_or true false x y z h = h
either_or false true x y z h = refl
either_or false false x y z h = h

lookup-planned_items :
    (plan : List PlanEntry) (latest : List (ℕ × Option Job)) (i : ℕ)
    → lookup (planned_items plan latest) i
      ≡ (if any (is_rollback_of i) plan then some none else lookup latest i)
lookup-planned_items [] latest i = refl
lookup-planned_items (e ∷ es) latest i =
    lookup-planned_items es (noted e.phase e.item_id latest) i
    ∙ either_or (is_rollback_of i e) (any (is_rollback_of i) es) (some none) _ (lookup latest i)
        (lookup-noted e.phase e latest i refl)

Distinct-planned_items :
    (plan : List PlanEntry) (latest : List (ℕ × Option Job))
    → Distinct latest
    → Distinct (planned_items plan latest)
Distinct-planned_items [] latest d = d
Distinct-planned_items (e ∷ es) latest d =
    Distinct-planned_items es (noted e.phase e.item_id latest)
      (Distinct-noted e.phase e.item_id latest d)

-- What is found for an item: its child where it has one.
abbrev over : Option (PlanEntry × Job) → Option (Option Job) → Option (Option Job)
over none found = found
over (some (e, job)) found = some (some job)

lookup-with_jobs :
    (d : List (ℕ × (PlanEntry × Job))) (latest : List (ℕ × Option Job)) (i : ℕ)
    → Distinct d
    → lookup (with_jobs d latest) i ≡ over (lookup d i) (lookup latest i)
lookup-with_jobs [] latest i h = refl
lookup-with_jobs ((j, (e, job)) ∷ more) latest i (fresh, h) = elim (Bool-cases (nat_beq j i)) [
  | inl b ↦
      rw
        (
          lookup-with_jobs more (assign latest j (some job)) i h,
          lookup-assign latest j i (some job),
          b,
        )
        (rw (sym (ap (lookup more) ((nat_beq_iff j i).0 b)) ∙ fresh) refl)
  | inr b ↦
      rw
        (
          lookup-with_jobs more (assign latest j (some job)) i h,
          lookup-assign latest j i (some job),
          b,
        )
        refl
]

Distinct-with_jobs :
    (d : List (ℕ × (PlanEntry × Job))) (latest : List (ℕ × Option Job))
    → Distinct latest
    → Distinct (with_jobs d latest)
Distinct-with_jobs [] latest h = h
Distinct-with_jobs ((j, (e, job)) ∷ more) latest h =
    Distinct-with_jobs more (assign latest j (some job)) (Distinct-assign latest j (some job) h)

abbrev undone : Option (Option Job) → Bool
undone none = false
undone (some none) = true
undone (some (some job)) = not (is_ok job.status)

swapped : (i j : ℕ) {b : Bool} → nat_beq i j ≡ b → nat_beq j i ≡ b
swapped i j h = ground (arith, h)

contains-unfinished :
    (m : List (ℕ × Option Job)) (i : ℕ)
    → Distinct m
    → contains (unfinished m) i ≡ undone (lookup m i)
contains-unfinished [] i h = refl
contains-unfinished ((j, none) ∷ more) i (fresh, h) = elim (Bool-cases (nat_beq j i)) [
  | inl b ↦ rw (b, swapped j i b) refl
  | inr b ↦ rw (b, swapped j i b) (contains-unfinished more i h)
]
contains-unfinished ((j, some job) ∷ more) i (fresh, h) =
    let more_of = contains-unfinished more i h in
    elim (Bool-cases (nat_beq j i)) [
      | inr b ↦ elim (Bool-cases (is_ok job.status)) [
        | inl ok ↦ rw (b, ok) more_of
        | inr bad ↦ rw (b, bad, swapped j i b) more_of
      ]
      | inl b ↦ elim (Bool-cases (is_ok job.status)) [
        | inl ok ↦
            rw (b, ok)
              (more_of ∙ ap undone (sym (ap (lookup more) ((nat_beq_iff j i).0 b)) ∙ fresh))
        | inr bad ↦ rw (b, bad, swapped j i b) refl
      ]
    ]

undone-over :
    (planned : Bool) (o : Option (PlanEntry × Job))
    → undone (over o (if planned then some none else none)) ≡ not_done planned o
undone-over true none = refl
undone-over false none = refl
undone-over planned (some (e, job)) = refl

pub contains-retry_items : (s : Session) (i : ℕ) → contains (retry_items s) i ≡ needs_retry s i
unfolding retry_items
contains-retry_items s i =
    let latest = latest_rollbacks s.run (children s) [] in
    let planned = planned_items s.run.plan [] in
    contains-unfinished (with_jobs latest planned) i
      (Distinct-with_jobs latest planned (Distinct-planned_items s.run.plan [] tt))
    ∙ (ap undone
          (lookup-with_jobs latest planned i (Distinct-latest_rollbacks s.run (children s) [] tt))
        ∙ (ap (λ o. undone (over o (lookup planned i)))
              (lookup-latest_rollbacks s.run (children s) [] i)
            ∙ (ap (λ f. undone (over (last_rollback s.run i (children s) none) f))
                  (lookup-planned_items s.run.plan [] i)
                ∙ undone-over (any (is_rollback_of i) s.run.plan)
                    (last_rollback s.run i (children s) none))))
