-- ===== src/Runs/LogLaws.antt =====
-- What `ran_steps` and `_merge_outputs` compute, described one step and one output at a time.
use models_utils.Prelude.{
  ◌≡◌, refl, sym, subst, ◌∙◌, ap, Bool, true, false, not, ◌&&◌, ◌||◌, Option, none, some, List, [],
  ◌∷◌, ◌++◌, arith, Text, codes, ◌==◌, text_eq, contains, any, Bool-cases, inl, inr, if◌then◌else◌,
}
use models_utils.Runs.Rows.{LogStep, LogItem, entry, junk, Job}
use models_utils.Runs.Plan.{session_probe_step, is_one_of}
use models_utils.Runs.Logs.{
  is_text, same_option_text, sent_nothing, note_step, ran_loop, note_interrupted, ran_steps,
}

contains-append :
    (xs : List Text) (w v : Text) → contains (xs ++ w ∷ []) v ≡ (contains xs v || v == w)
contains-append [] w v = ground arith
contains-append (x ∷ xs) w v = ground (arith, contains-append xs w v)

-- The entry may have changed the device: it is of that name, was not skipped, and did not fail
-- before a command was sent.
abbrev pub may_have_run : Text → LogItem → Bool
may_have_run w junk = false
may_have_run w (entry e) =
    same_option_text e.name (some w)
    && (not (is_text (codes "SKIPPED") e.status)
        && not (
            is_text (codes "FAILED") e.status
            && is_one_of (codes "connect" ∷ codes "render" ∷ []) e.stage))

text_beq_refl : (w : Text) → (w == w) ≡ true
text_beq_refl w = (text_eq.beq_iff w w).1 refl

text_beq_comm : (v w : Text) → (v == w) ≡ false → (w == v) ≡ false
text_beq_comm v w h = elim (Bool-cases (text_eq.beq w v)) [
  | inr e ↦ e
  | inl e ↦ cc ((text_eq.beq_iff v w).1 (sym ((text_eq.beq_iff w v).0 e)))
]

and_or : (p x y : Bool) → ((p && x) || (p && y)) ≡ (p && (x || y))
and_or p x y = ground arith

and_true : (b : Bool) → (b && true) ≡ b
and_true b = ground arith

guard_and :
    (p q : Bool) (x y : List Text) → (if p && q then x else y) ≡ (if p && (q && true) then x else y)
guard_and p q x y = ground arith

-- What a noted step adds, by cases on whether it is the word looked for.
noted :
    (v w : Text) (ran : List Text) (q : Bool)
    → contains
        (if not (v == session_probe_step) && (not (contains ran v) && q)
          then ran ++ v ∷ []
          else ran)
        w
      ≡ (contains ran w || (not (w == session_probe_step) && (v == w && q)))
noted v w ran q = elim (Bool-cases (text_eq.beq v w)) [
  | inl e ↦
      subst
        (λ (u : Text).
          contains
            (if not (u == session_probe_step) && (not (contains ran u) && q)
              then ran ++ u ∷ []
              else ran)
            w
          ≡ (contains ran w || (not (w == session_probe_step) && (u == w && q))))
        (sym ((text_eq.beq_iff v w).0 e)) (ground (arith, contains-append ran w w, text_beq_refl w))
  | inr e ↦ ground (arith, contains-append ran v w, text_beq_comm v w e)
]

or_and : (a p x y : Bool) → ((a || (p && x)) || (p && y)) ≡ (a || (p && (x || y)))
or_and a p x y = ground arith

or_none : (a p : Bool) → a ≡ (a || (p && false))
or_none a p = ground arith

-- The step counts for the word `w`, by its name `o`.
abbrev ran_as : Text → Option Text → LogStep → Bool
ran_as w o e =
    same_option_text o (some w)
    && (not (is_text (codes "SKIPPED") e.status)
        && not (
            is_text (codes "FAILED") e.status
            && is_one_of (codes "connect" ∷ codes "render" ∷ []) e.stage))

contains-note_step :
    (ran : List Text) (o : Option Text) (e : LogStep) (w : Text)
    → contains (note_step ran o e) w
      ≡ (contains ran w || (not (w == session_probe_step) && ran_as w o e))
contains-note_step ran none e w = or_none (contains ran w) (not (w == session_probe_step))
contains-note_step ran (some v) e w =
    noted v w ran (not (is_text (codes "SKIPPED") e.status) && not (sent_nothing e))

ran_loop-contains :
    (es : List LogItem) (ran : List Text) (w : Text)
    → contains (ran_loop es ran) w
      ≡ (contains ran w || (not (w == session_probe_step) && any (may_have_run w) es))
unfolding ran_loop
ran_loop-contains [] ran w = or_none (contains ran w) (not (w == session_probe_step))
ran_loop-contains (junk ∷ es) ran w = ran_loop-contains es ran w
ran_loop-contains (entry e ∷ es) ran w =
    ran_loop-contains es (note_step ran e.name e) w
    ∙ ap (λ b. b || (not (w == session_probe_step) && any (may_have_run w) es))
        (contains-note_step ran e.name e w)
    ∙ or_and (contains ran w) (not (w == session_probe_step)) (ran_as w e.name e)
        (any (may_have_run w) es)

interrupted_lem :
    (ran : List Text) (o : Option Text) (w : Text)
    → contains (note_interrupted ran o) w
      ≡ (contains ran w || (not (w == session_probe_step) && same_option_text o (some w)))
interrupted_lem ran none w = or_none (contains ran w) (not (w == session_probe_step))
interrupted_lem ran (some v) w =
    ap (λ b. contains b w)
      (guard_and (not (v == session_probe_step)) (not (contains ran v)) (ran ++ v ∷ []) ran)
    ∙ noted v w ran true
    ∙ ap (λ b. contains ran w || (not (w == session_probe_step) && b)) (and_true (v == w))

-- A step is among `ran_steps` exactly when it is not the session probe, and some log entry of its
-- name may have changed the device (it was not skipped and did not fail at stage connect or
-- render) or it is the interrupted step.
pub ran_steps-contains :
    (job : Job) (w : Text)
    → contains (ran_steps job) w ≡ (
        not (w == session_probe_step)
        && (any (may_have_run w) job.log.steps
            || same_option_text job.log.interrupted_step (some w)))
unfolding ran_steps
ran_steps-contains job w =
    interrupted_lem (ran_loop job.log.steps []) job.log.interrupted_step w
    ∙ ap
        (λ b.
          b
          || (not (w == session_probe_step) && same_option_text job.log.interrupted_step (some w)))
        (ran_loop-contains job.log.steps [] w)
    ∙ and_or (not (w == session_probe_step)) (any (may_have_run w) job.log.steps)
        (same_option_text job.log.interrupted_step (some w))
