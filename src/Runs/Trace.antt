-- ===== src/Runs/Trace.antt =====
-- The life of a run in provisioning_runs.py: its children settle, and advance_run is called for
-- them in any order and as often as it may be.
use models_utils.Prelude.{
  ℕ, ◌≤◌, ◌<◌, ◌≡◌, refl, sym, ap, subst, ◌∙◌, Bool, true, false, ◌&&◌, ◌||◌, Option, none, some,
  List, [], ◌∷◌, ◌++◌, arith, leb, ltb, nat_beq, length, any, keep_if, Bool-cases, inl, inr,
}
use models_utils.Runs.Rows.{in_flight, Job, position_of}
use models_utils.Runs.Session.{Session, belongs}
use models_utils.Runs.Advance.{advance_run, is_stale, is_later}
use models_utils.Runs.Moves.{Moved}
use models_utils.Runs.AdvanceLaws.{advance_run-Moved}
use models_utils.Runs.Laziness.{live, advance_run-stale}

-- One step: a child comes to a terminal status, or advance_run is called for a job of the table.
pub data Step (s : Session) : Session → Type 0 where
  settled :
      (xs ys : List Job) (j j' : Job)
      → s.jobs ≡ xs ++ j ∷ ys
      → j'.run_id ≡ j.run_id
      → j'.run_position ≡ j.run_position
      → in_flight j'.status ≡ false
      → Step s (record s { jobs = xs ++ j' ∷ ys })
  advanced : (xs ys : List Job) (j : Job) → s.jobs ≡ xs ++ j ∷ ys → Step s (advance_run j s).0

pub data Steps (s : Session) : Session → Type 0 where
  start : Steps s s
  then_step : {t u : Session} → Steps s t → Step t u → Steps s u

abbrev live_in : ℕ → Job → Bool
live_in i k = belongs i k && in_flight k.status

abbrev not_behind : ℕ → ℕ → Job → Bool
not_behind i p k = belongs i k && leb (position_of k) p

-- The child is in flight with children behind it, or one of these has no greater position.
abbrev bad : ℕ → Job → List Job → Bool
bad i j js =
    belongs i j
    && ((in_flight j.status && any (belongs i) js) || any (not_behind i (position_of j)) js)

-- The positions of the children of a run grow, and at most the last child is in flight.
abbrev pub OnlyLast : ℕ → List Job → Type 0
OnlyLast i [] = Unit
OnlyLast i (j ∷ js) = (bad i j js ≡ false) × OnlyLast i js

any_at : (p : Job → Bool) (xs ys : List Job) (j : Job) → p j ≡ true → any p (xs ++ j ∷ ys) ≡ true
any_at p [] ys j h = ground arith
any_at p (x ∷ xs) ys j h = ground (arith, any_at p xs ys j h)

any_same :
    (p : Job → Bool) (xs ys : List Job) (j k : Job)
    → p j ≡ p k
    → any p (xs ++ j ∷ ys) ≡ any p (xs ++ k ∷ ys)
any_same p [] ys j k h = ap (λ b. b || any p ys) h
any_same p (x ∷ xs) ys j k h = ap (λ b. p x || b) (any_same p xs ys j k h)

any_last : (p : Job → Bool) (xs : List Job) (c : Job) → any p (xs ++ c ∷ []) ≡ (any p xs || p c)
any_last p [] c = ground arith
any_last p (x ∷ xs) c = ground (arith, any_last p xs c)

none_left :
    (i p : ℕ) (js : List Job)
    → any (not_behind i p) js ≡ false
    → any (λ k. belongs i k && ltb p (position_of k)) js ≡ false
    → any (belongs i) js ≡ false
none_left i p [] h k = refl
none_left i p (j ∷ js) h k = ground (arith, none_left i p js)

none_live : (i : ℕ) (js : List Job) → any (belongs i) js ≡ false → any (live_in i) js ≡ false
none_live i [] h = refl
none_live i (j ∷ js) h = ground (arith, none_live i js)

-- Where a settled child has none behind it, no child is in flight.
idle :
    (i : ℕ) (job : Job) (xs ys : List Job)
    → OnlyLast i (xs ++ job ∷ ys)
    → belongs i job ≡ true
    → in_flight job.status ≡ false
    → any (λ k. belongs i k && ltb (position_of job) (position_of k)) (xs ++ job ∷ ys) ≡ false
    → any (live_in i) (xs ++ job ∷ ys) ≡ false
idle i job [] ys (ok, h) b f l =
    let none_behind : any (not_behind i (position_of job)) ys ≡ false = ground arith in
    let none_later : any (λ k. belongs i k && ltb (position_of job) (position_of k)) ys ≡ false =
      ground arith in
    let rest = none_live i ys (none_left i (position_of job) ys none_behind none_later) in
    ground arith
idle i job (x ∷ xs) ys (ok, h) b f l =
    let here = any_at (belongs i) xs ys job b in
    let none_later : any (λ k. belongs i k && ltb (position_of job) (position_of k))
          (xs ++ job ∷ ys)
        ≡ false =
      ground arith in
    let rest = idle i job xs ys h b f none_later in ground arith

last_append :
    (i : ℕ) (js : List Job) (c : Job)
    → OnlyLast i js
    → any (live_in i) js ≡ false
    → any (λ k. belongs i k && leb (position_of c) (position_of k)) js ≡ false
    → OnlyLast i (js ++ c ∷ [])
last_append i [] c h f l = (ground arith, tt)
last_append i (j ∷ js) c (ok, h) f l =
    let one = any_last (belongs i) js c in
    let two = any_last (not_behind i (position_of j)) js c in
    (ground arith, last_append i js c h (ground arith) (ground arith))

settle_same :
    (i : ℕ) (xs ys : List Job) (j j' : Job)
    → belongs i j' ≡ belongs i j
    → position_of j' ≡ position_of j
    → in_flight j'.status ≡ false
    → OnlyLast i (xs ++ j ∷ ys)
    → OnlyLast i (xs ++ j' ∷ ys)
settle_same i [] ys j j' b p f (ok, h) =
    let same : any (not_behind i (position_of j')) ys ≡ any (not_behind i (position_of j)) ys =
      ap (λ q. any (not_behind i q) ys) p in
    (ground arith, h)
settle_same i (x ∷ xs) ys j j' b p f (ok, h) =
    let one = any_same (belongs i) xs ys j' j b in
    let two = any_same (not_behind i (position_of x)) xs ys j' j (ground arith) in
    (ground arith, settle_same i xs ys j j' b p f h)

live_one :
    (i : ℕ) (js : List Job)
    → OnlyLast i js
    → (length (keep_if (live_in i) js) ≤ 1)
      × (any (live_in i) js ≡ false → length (keep_if (live_in i) js) ≡ 0)
live_one i [] h = (omega arith, λ e. refl)
live_one i (j ∷ js) (ok, h) =
    let rest = live_one i js h in let none = none_live i js in ground arith

further :
    (i p q : ℕ) (js : List Job)
    → p < q
    → any (λ k. belongs i k && ltb p (position_of k)) js ≡ false
    → any (λ k. belongs i k && leb q (position_of k)) js ≡ false
further i p q [] h k = refl
further i p q (j ∷ js) h k = let rest = further i p q js h in ground arith

-- At most the last child of the run is in flight.
abbrev pub Alone : Session → Type 0
Alone s = OnlyLast s.run.id s.jobs

Moved-Alone :
    (s : Session) (xs ys : List Job) (j : Job) (r : Session × Option Job)
    → s.jobs ≡ xs ++ j ∷ ys
    → is_stale s j ≡ false
    → Alone s
    → Moved (position_of j) s r
    → Alone r.0
Moved-Alone s xs ys j (t, none) e fresh h m =
    subst (λ i. OnlyLast i t.jobs) (sym m.id) (subst (OnlyLast s.run.id) (sym m.jobs) h)
Moved-Alone s xs ys j (t, some c) e fresh h m =
    let i = s.run.id in
    let mine : belongs i j ≡ true = ground arith in
    let ended : in_flight j.status ≡ false = ground arith in
    let none_later : any (is_later s.run (position_of j)) s.jobs ≡ false = ground arith in
    let quiet =
      idle i j xs ys (subst (OnlyLast i) e h) mine ended
        (ap (any (is_later s.run (position_of j))) (sym e) ∙ none_later) in
    let far = further i (position_of j) (position_of c) s.jobs m.behind none_later in
    subst (λ n. OnlyLast n t.jobs) (sym m.id)
      (subst (OnlyLast i) (sym m.jobs)
        (last_append i s.jobs c h (ap (any (live_in i)) e ∙ quiet) far))

advanced-Alone :
    (s : Session) (xs ys : List Job) (j : Job)
    → s.jobs ≡ xs ++ j ∷ ys
    → Alone s
    → Alone (advance_run j s).0
advanced-Alone s xs ys j e h = elim (Bool-cases (is_stale s j)) [
  | inl b ↦ rw (advance_run-stale j s b) h
  | inr b ↦ Moved-Alone s xs ys j (advance_run j s) e b h (advance_run-Moved j s b)
]

pub belongs_same : (i : ℕ) (j j' : Job) → j'.run_id ≡ j.run_id → belongs i j' ≡ belongs i j
belongs_same i j j' h = ap (λ r. elim r [ none ↦ false | some n ↦ nat_beq n i ]) h

position_same : (j j' : Job) → j'.run_position ≡ j.run_position → position_of j' ≡ position_of j
position_same j j' h = ap (λ r. elim r [ none ↦ 0 | some n ↦ n ]) h

Step-Alone : (s t : Session) → Alone s → Step s t → Alone t
Step-Alone s t h (settled xs ys j j' e r p f) =
    settle_same s.run.id xs ys j j' (belongs_same s.run.id j j' r) (position_same j j' p) f
      (subst (OnlyLast s.run.id) e h)
Step-Alone s t h (advanced xs ys j e) = advanced-Alone s xs ys j e h

Steps-Alone : (s t : Session) → Alone s → Steps s t → Alone t
Steps-Alone s t h start = h
Steps-Alone s t h (then_step {t = u} before last) = Step-Alone u t (Steps-Alone s u h before) last

-- Whatever the order in which children settle and advance_run is called for the jobs of the table,
-- late, repeated or for an earlier child: at most one child of the run is in flight, it is the
-- last one, and the positions of the children grow, if this is so in the first state.
pub live-Steps : (s t : Session) → Alone s → Steps s t → Alone t × (live t ≤ 1)
live-Steps s t h steps =
    let alone = Steps-Alone s t h steps in (alone, (live_one t.run.id t.jobs alone).0)
