-- ===== src/Runs/Lifecycle.antt =====
-- The life of a run of provisioning_runs.py between two office actions, which reopen a run, and that
-- advance_run keeps to it.
use models_utils.Prelude.{
  ℕ, suc, ◌≡◌, refl, sym, ap, ◌∙◌, true, false, Option, none, some, List, [], ◌∷◌, ◌++◌, arith,
  nat_beq_iff, length, keep_if, Bool-cases, inl, inr, if◌then◌else◌,
}
use models_utils.Runs.Rows.{Status, in_flight, Job, position_of}
use models_utils.Runs.Session.{Session, belongs}
use models_utils.Runs.Advance.{advance_run, is_stale}
use models_utils.Runs.Moves.{Moved}
use models_utils.Runs.AdvanceLaws.{advance_run-Moved}
use models_utils.Runs.Laziness.{advance_run-stale}
use models_utils.Runs.Trace.{Step, settled, advanced, Steps, start, then_step, belongs_same}

-- A run is in flight with a number of children, or over with a status.
pub data Life : Type 0 where
  going : ℕ → Life
  over : Status → Life

-- It gains a child, or comes to a terminal status; one that is over does nothing.
pub data Turn : Life → Life → Type 0 where
  child : (n : ℕ) → Turn (going n) (going (suc n))
  close : (n : ℕ) (status : Status) → in_flight status ≡ false → Turn (going n) (over status)

pub data Turns (l : Life) : Life → Type 0 where
  at_rest : Turns l l
  turned : {m n : Life} → Turns l m → Turn m n → Turns l n

abbrev child_count : ℕ → List Job → ℕ
child_count i js = length (keep_if (belongs i) js)

abbrev pub life : Session → Life
life s = if in_flight s.run.status then going (child_count s.run.id s.jobs) else over s.run.status

count-append :
    (i : ℕ) (js : List Job) (c : Job)
    → belongs i c ≡ true
    → child_count i (js ++ c ∷ []) ≡ suc (child_count i js)
count-append i [] c h = rw h
count-append i (j ∷ js) c h = ground (arith, count-append i js c)

count-same :
    (i : ℕ) (xs ys : List Job) (j k : Job)
    → belongs i j ≡ belongs i k
    → child_count i (xs ++ j ∷ ys) ≡ child_count i (xs ++ k ∷ ys)
count-same i [] ys j k h = ground arith
count-same i (x ∷ xs) ys j k h = ground (arith, count-same i xs ys j k)

Moved-Turn :
    (p : ℕ) (s : Session) (r : Session × Option Job)
    → in_flight s.run.status ≡ true
    → Moved p s r
    → Turn (life s) (life r.0)
Moved-Turn p s (t, none) flying m =
    rw (flying, m.ended) (close (child_count s.run.id s.jobs) t.run.status m.ended)
Moved-Turn p s (t, some c) flying m =
    let mine : belongs s.run.id c ≡ true = rw m.mine ((nat_beq_iff s.run.id s.run.id).1 refl) in
    rw (flying, m.going, m.id, m.jobs, count-append s.run.id s.jobs c mine)
      (child (child_count s.run.id s.jobs))

flying_of_fresh : (s : Session) (j : Job) → is_stale s j ≡ false → in_flight s.run.status ≡ true
flying_of_fresh s j h = ground arith

-- A settle or an advance is a turn of the run's life, or does not show there.
Step-Turns : (s t : Session) → Step s t → Turns (life s) (life t)
Step-Turns s t (settled xs ys j j' e r p f) =
    let same : child_count s.run.id s.jobs ≡ child_count s.run.id (xs ++ j' ∷ ys) =
      ap (child_count s.run.id) e
      ∙ count-same s.run.id xs ys j j' (sym (belongs_same s.run.id j j' r)) in
    rw same at_rest
Step-Turns s t (advanced xs ys j e) = elim (Bool-cases (is_stale s j)) [
  | inl b ↦ rw (advance_run-stale j s b) at_rest
  | inr b ↦ turned at_rest (
      Moved-Turn (position_of j) s (advance_run j s) (flying_of_fresh s j b)
        (advance_run-Moved j s b))
]

join : {k l m : Life} → Turns k l → Turns l m → Turns k m
join before at_rest = before
join before (turned after last) = turned (join before after) last

-- As long as children settle and advance_run is called, in whatever order, and no office action
-- comes in between, the run gains children one by one and comes at most once to a terminal status,
-- after which nothing of this changes its status. An office action may reopen it.
pub Steps-Turns : (s t : Session) → Steps s t → Turns (life s) (life t)
Steps-Turns s t start = at_rest
Steps-Turns s t (then_step {t = u} before last) =
    join (Steps-Turns s u before) (Step-Turns u t last)
