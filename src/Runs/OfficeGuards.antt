-- ===== src/Runs/OfficeGuards.antt =====
-- The guards of the office actions of provisioning_runs.py, `revert_refusal` and
-- `rollback_retry_refusal`: what each refusal means, and what holds where there is none.
use models_utils.Prelude.{
  ◌<◌, ◌≡◌, ◌↔◌, ◌⊎◌, inl, inr, refl, Bool, true, false, not, ◌&&◌, ◌||◌, Option, none, some, List,
  [], ◌∷◌, arith, ltb, nat_beq, text_eq, codes, ◌==◌, text_beq_iff, any, All, is_some, Bool-cases,
  either_branch,
}
use models_utils.Runs.Rows.{
  Status, succeeded, failed, in_flight, is_ok, Outcome, rollback_incomplete, Phase, Run,
}
use models_utils.Runs.Session.{Session}
use models_utils.Runs.Office.{
  Refusal, dry_run, not_succeeded, legacy, not_activation, not_rollback_incomplete, other_in_flight,
  later_run, is_failed, is_incomplete, service_refusal, revert_refusal, rollback_retry_refusal,
}

-- Another run of the service is in flight.
abbrev pub Blocks : Session → Run → Type 0
Blocks s r = (r.client_service_id ≡ s.run.client_service_id) × (in_flight r.status ≡ true)

-- A run of the service that is no dry run was opened later.
abbrev pub Supersedes : Session → Run → Type 0
Supersedes s r =
    (r.client_service_id ≡ s.run.client_service_id)
    × (r.dry_run ≡ false)
    × (s.run.created_at < r.created_at)

abbrev pub Some : (Run → Type 0) → List Run → Type 0
Some P [] = ⊥
Some P (r ∷ rs) = P r ⊎ Some P rs

-- No other run of the service is in flight, and none was opened later.
abbrev pub IsCurrent : Session → Type 0
IsCurrent s = All (λ r. ¬ Blocks s r) s.others × All (λ r. ¬ Supersedes s r) s.others

-- What a refusal to revert says of the run, and what holds of a run that may be reverted.
abbrev pub RevertGuard : Session → Option Refusal → Type 0
RevertGuard s none =
    (s.run.dry_run ≡ false)
    × (s.run.status ≡ succeeded)
    × (is_some s.run.phase ≡ true)
    × (s.run.purpose ≡ codes "ACTIVATION")
    × IsCurrent s
RevertGuard s (some dry_run) = s.run.dry_run ≡ true
RevertGuard s (some not_succeeded) = ¬ (s.run.status ≡ succeeded)
RevertGuard s (some legacy) = s.run.phase ≡ none
RevertGuard s (some not_activation) = ¬ (s.run.purpose ≡ codes "ACTIVATION")
RevertGuard s (some other_in_flight) = Some (Blocks s) s.others
RevertGuard s (some later_run) = Some (Supersedes s) s.others
RevertGuard s (some not_rollback_incomplete) = ⊥

-- A run that ended with its rollback incomplete.
abbrev pub HalfUndone : Session → Type 0
HalfUndone s =
    (s.run.dry_run ≡ false)
    × (s.run.status ≡ failed)
    × (s.run.error_code ≡ some rollback_incomplete)
    × (is_some s.run.phase ≡ true)

-- The same of a retry of the rollback.
abbrev pub RetryGuard : Session → Option Refusal → Type 0
RetryGuard s none = HalfUndone s × IsCurrent s
RetryGuard s (some not_rollback_incomplete) = ¬ HalfUndone s
RetryGuard s (some other_in_flight) = Some (Blocks s) s.others
RetryGuard s (some later_run) = Some (Supersedes s) s.others
RetryGuard s (some _) = ⊥

found_by :
    (p : Run → Bool) (P : Run → Type 0) (rs : List Run)
    → ((r : Run) → (p r ≡ true) ↔ P r)
    → any p rs ≡ true
    → Some P rs
found_by p P [] same h = cc
found_by p P (r ∷ rs) same h = elim (Bool-cases (p r)) [
  | inl e ↦ inl ((same r).0 e)
  | inr e ↦ inr (found_by p P rs same (rw e at h))
]

clash : (b : Bool) → b ≡ true → b ≡ false → ⊥
clash b h k = cc

absent_by :
    (p : Run → Bool) (P : Run → Type 0) (rs : List Run)
    → ((r : Run) → (p r ≡ true) ↔ P r)
    → any p rs ≡ false
    → All (λ r. ¬ P r) rs
absent_by p P [] same h = tt
absent_by p P (r ∷ rs) same h = elim (Bool-cases (p r)) [
  | inl e ↦ absurd (clash (any p (r ∷ rs)) (rw e refl) h)
  | inr e ↦ (λ k. clash (p r) ((same r).1 k) e, absent_by p P rs same (rw e at h))
]

rival_test :
    (s : Session) (r : Run)
    → ((nat_beq r.client_service_id s.run.client_service_id && in_flight r.status) ≡ true)
      ↔ Blocks s r
rival_test s r = (λ h. ground arith, λ (a, b). ground arith)

newer_test :
    (s : Session) (r : Run)
    → ((nat_beq r.client_service_id s.run.client_service_id
          && (not r.dry_run && ltb s.run.created_at r.created_at))
        ≡ true)
      ↔ Supersedes s r
newer_test s r = (λ h. ground arith, λ (a, b, c). ground arith)

-- The guard of the service is the last of both actions.
service_refusal_lem :
    (s : Session) (P : Option Refusal → Type 0)
    → (Some (Blocks s) s.others → P (some other_in_flight))
    → (Some (Supersedes s) s.others → P (some later_run))
    → (IsCurrent s → P none)
    → P (service_refusal s)
unfolding service_refusal
service_refusal_lem s P busy late free =
    either_branch P _ _ _ (λ h. busy (found_by _ (Blocks s) s.others (rival_test s) h))
      (λ h.
        either_branch P _ _ _ (λ k. late (found_by _ (Supersedes s) s.others (newer_test s) k))
          (λ k. free (
            absent_by _ (Blocks s) s.others (rival_test s) h,
            absent_by _ (Supersedes s) s.others (newer_test s) k,
          )))

is_ok_iff : (status : Status) → (is_ok status ≡ true) ↔ (status ≡ succeeded)
is_ok_iff succeeded = (λ h. refl, λ h. refl)
is_ok_iff _ = (λ h. cc, λ h. cc)

is_failed_iff : (status : Status) → (is_failed status ≡ true) ↔ (status ≡ failed)
is_failed_iff failed = (λ h. refl, λ h. refl)
is_failed_iff _ = (λ h. cc, λ h. cc)

is_incomplete_iff : (o : Option Outcome) → (is_incomplete o ≡ true) ↔ (o ≡ some rollback_incomplete)
is_incomplete_iff none = (λ h. cc, λ h. cc)
is_incomplete_iff (some rollback_incomplete) = (λ h. refl, λ h. refl)
is_incomplete_iff (some _) = (λ h. cc, λ h. cc)

none_of_not : (o : Option Phase) → not (is_some o) ≡ true → o ≡ none
none_of_not none h = refl
none_of_not (some p) h = cc

of_not : (b : Bool) → not b ≡ true → b ≡ false
of_not true h = cc
of_not false h = refl

of_negated : (b : Bool) → not b ≡ false → b ≡ true
of_negated true h = refl
of_negated false h = cc

-- What each refusal of `revert_refusal` means, and what it lets through.
pub revert_refusal-RevertGuard : (s : Session) → RevertGuard s (revert_refusal s)
unfolding revert_refusal
revert_refusal-RevertGuard s =
    either_branch (RevertGuard s) _ _ _ (λ dry. dry)
      (λ live.
        either_branch (RevertGuard s) _ _ _
          (λ h e. clash (is_ok s.run.status) ((is_ok_iff s.run.status).1 e) (of_not _ h))
          (λ ok.
            either_branch (RevertGuard s) _ _ _ (λ h. none_of_not s.run.phase h)
              (λ phased.
                either_branch (RevertGuard s) _ _ _
                  (λ h e.
                    clash (s.run.purpose == codes "ACTIVATION")
                      ((text_beq_iff s.run.purpose (codes "ACTIVATION")).1 e) (of_not _ h))
                  (λ activates.
                    service_refusal_lem s (RevertGuard s) (λ h. h) (λ h. h)
                      (λ current. (
                        live,
                        (is_ok_iff s.run.status).0 (of_negated _ ok),
                        of_negated _ phased,
                        (text_beq_iff s.run.purpose (codes "ACTIVATION")).0
                            (of_negated _ activates),
                        current,
                      ))))))

bad_half :
    (s : Session)
    → (s.run.dry_run
        || (not (is_failed s.run.status)
            || (not (is_incomplete s.run.error_code) || not (is_some s.run.phase))))
      ≡ true
    → ¬ HalfUndone s
bad_half s h (live, bad, code, phased) =
    let b : is_failed s.run.status ≡ true = (is_failed_iff s.run.status).1 bad in
    let c : is_incomplete s.run.error_code ≡ true = (is_incomplete_iff s.run.error_code).1 code in
    ground arith

good_half :
    (s : Session)
    → (s.run.dry_run
        || (not (is_failed s.run.status)
            || (not (is_incomplete s.run.error_code) || not (is_some s.run.phase))))
      ≡ false
    → HalfUndone s
good_half s h = (
  ground arith,
  (is_failed_iff s.run.status).0 (ground arith),
  (is_incomplete_iff s.run.error_code).0 (ground arith),
  ground arith,
)

-- The same of `rollback_retry_refusal`.
pub rollback_retry_refusal-RetryGuard : (s : Session) → RetryGuard s (rollback_retry_refusal s)
unfolding rollback_retry_refusal
rollback_retry_refusal-RetryGuard s =
    either_branch (RetryGuard s) _ _ _ (λ h. bad_half s h)
      (λ h.
        service_refusal_lem s (RetryGuard s) (λ k. k) (λ k. k)
          (λ current. (good_half s h, current)))
