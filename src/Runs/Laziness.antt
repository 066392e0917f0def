-- ===== src/Runs/Laziness.antt =====
-- The children of a run are created lazily, one at a time, and a repeated advance queues nothing.
use models_utils.Prelude.{
  ℕ, ◌≡◌, inl, inr, refl, sym, ◌∙◌, Bool, true, not, ◌&&◌, ◌||◌, Option, none, some, List, [], ◌∷◌,
  ◌++◌, arith, nat_beq_iff, length, any, keep_if, Bool-cases,
}
use models_utils.Runs.Rows.{in_flight, Job, position_of, Run}
use models_utils.Runs.Session.{Session, is_child_of}
use models_utils.Runs.Advance.{advance_run, is_stale, is_later}
use models_utils.Runs.Moves.{Moved}
use models_utils.Runs.AdvanceLaws.{advance_run-Moved}

pub advance_run-stale :
    (job : Job) (s : Session) → is_stale s job ≡ true → advance_run job s ≡ (s, none)
unfolding advance_run
advance_run-stale job s h = rw h

any-append {ℓ} :
    {A : Type ℓ} (p : A → Bool) (xs : List A) (x : A) → p x ≡ true → any p (xs ++ x ∷ []) ≡ true
any-append p [] x h = rw h
any-append p (y ∷ ys) x h = ground (arith, any-append p ys x h)

child_of_same :
    (run run' : Run) (j : Job) (i : ℕ)
    → run'.id ≡ run.id
    → j.run_id ≡ some i
    → i ≡ run.id
    → is_child_of run' j ≡ true
child_of_same run run' j i h e k = rw e ((nat_beq_iff i run'.id).1 (k ∙ sym h))

or_chain : (a b c : Bool) → (a || (b || (c || true))) ≡ true
or_chain a b c = ground arith

Moved-stale :
    (job : Job) (s : Session) (r : Session × Option Job)
    → Moved (position_of job) s r
    → is_stale r.0 job ≡ true
Moved-stale job s (t, none) c = let ended = c.ended in ground arith
Moved-stale job s (t, some j) q =
    let mine = child_of_same s.run t.run j s.run.id q.id q.mine refl in
    let behind = q.behind in
    let found : any (is_later t.run (position_of job)) (s.jobs ++ j ∷ []) ≡ true =
      any-append (is_later t.run (position_of job)) s.jobs j (ground arith) in
    rw q.jobs (
      rw found (
        or_chain (not (is_child_of t.run job)) (not (in_flight t.run.status))
          (in_flight job.status)))

-- A second advance for the same settled child changes nothing and queues nothing, whatever the
-- first one did.
pub advance_run_twice :
    (job : Job) (s : Session)
    → advance_run job (advance_run job s).0 ≡ ((advance_run job s).0, none)
advance_run_twice job s = elim (Bool-cases (is_stale s job)) [
  | inl h ↦ rw (advance_run-stale job s h) (advance_run-stale job s h)
  | inr h ↦
      advance_run-stale job (advance_run job s).0
        (Moved-stale job s (advance_run job s) (advance_run-Moved job s h))
]

-- The children of the run that are in flight.
abbrev pub live : Session → ℕ
live s = length (keep_if (λ (j : Job). is_child_of s.run j && in_flight j.status) s.jobs)
