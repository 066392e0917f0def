-- ===== src/Policy/Billing.antt =====
-- database_utils/utils/tier_limits.py: `billing_access` and `quote_required`.
-- Instants are seconds; the invoices of the table are an argument.
use models_utils.Prelude.{
  ℕ, ◌+◌, ◌*◌, ◌≤◌, ◌≡◌, refl, Bool, true, false, not, ◌&&◌, Option, none, some, List, [], ◌∷◌, leb,
  ltb, nat_beq, Text, codes, ◌==◌, text_eq, arith, is_some, if◌then◌else◌,
}

pub record Subscription : Type 0 where
  pub id : ℕ
  pub status : Text
  pub discount_percent : ℕ
  pub discount_until : Option ℕ
  pub quote_above_clients : Option ℕ
  pub custom_monthly_price : Option ℕ

pub record Invoice : Type 0 where
  pub subscription_id : ℕ
  pub status : Text
  pub due_date : ℕ

pub data Access : Type 0 where
  full read_only locked : Access

abbrev pub day : ℕ
day = 24 * 60 * 60

abbrev pub read_only_after_days : ℕ
read_only_after_days = 15

abbrev pub locked_after_days : ℕ
locked_after_days = 30

-- The smaller of a new due date and the least so far.
abbrev pub earliest : ℕ → Option ℕ → ℕ
earliest d none = d
earliest d (some e) = if leb d e then d else e

-- The oldest due date of the subscription's PENDING invoices.
unfoldable pub oldest_due : ℕ → List Invoice → Option ℕ
oldest_due id [] = none
oldest_due id (i ∷ is) =
    let rest = oldest_due id is in
    if nat_beq i.subscription_id id && i.status == codes "PENDING"
    then some (earliest i.due_date rest)
    else rest

-- `discount_until is None or now < discount_until`
abbrev pub still_runs : ℕ → Option ℕ → Bool
still_runs now none = true
still_runs now (some t) = ltb now t

unfoldable pub is_complimentary : Subscription → ℕ → Bool
is_complimentary s now = nat_beq s.discount_percent 100 && still_runs now s.discount_until

unfoldable pub access_by_due : Option ℕ → ℕ → Access
access_by_due none now = full
access_by_due (some due) now =
    if leb (due + locked_after_days * day) now
    then locked
    else if leb (due + read_only_after_days * day) now
    then read_only
    else full

unfoldable pub subscription_access : Subscription → List Invoice → ℕ → Access
unfolding oldest_due is_complimentary access_by_due
subscription_access s invoices now =
    if s.status == codes "CANCELED"
    then locked
    else if is_complimentary s now
    then full
    else if s.status == codes "INCOMPLETE"
    then locked
    else access_by_due (oldest_due s.id invoices) now

unfoldable pub billing_access : Option Subscription → List Invoice → ℕ → Access
unfolding subscription_access
billing_access none invoices now = full
billing_access (some s) invoices now = subscription_access s invoices now

-- `subscription` None, or a tier without the column, reads as no limit.
unfoldable pub quote_required : Option Subscription → ℕ → Bool
quote_required none billable = false
quote_required (some s) billable = elim s.quote_above_clients [
  | none ↦ false
  | some limit ↦ leb limit billable && not (is_some s.custom_monthly_price)
]

abbrev pub severity : Access → ℕ
severity full = 0
severity read_only = 1
severity locked = 2

access_by_due-le :
    (due : Option ℕ) (now later : ℕ)
    → now ≤ later
    → severity (access_by_due due now) ≤ severity (access_by_due due later)
unfolding access_by_due
access_by_due-le none now later h = omega arith
access_by_due-le (some d) now later h = ground arith

complimentary_ends :
    (s : Subscription) (now later : ℕ)
    → now ≤ later
    → is_complimentary s later ≡ true
    → is_complimentary s now ≡ true
unfolding is_complimentary
complimentary_ends s now later h k = by_end s.discount_until k
  where
    by_end :
        (o : Option ℕ)
        → (nat_beq s.discount_percent 100 && still_runs later o) ≡ true
        → (nat_beq s.discount_percent 100 && still_runs now o) ≡ true
    by_end none e = e
    by_end (some t) e = ground arith

stricter :
    (canceled comp comp' incomplete : Bool) (x y : Access)
    → (comp' ≡ true → comp ≡ true)
    → severity x ≤ severity y
    → severity
        (if canceled then locked else if comp then full else if incomplete then locked else x)
      ≤ severity
          (if canceled then locked else if comp' then full else if incomplete then locked else y)
stricter true comp comp' incomplete x y h k = omega arith
stricter false true comp' incomplete x y h k = omega arith
stricter false false true incomplete x y h k = cc (h refl)
stricter false false false true x y h k = omega arith
stricter false false false false x y h k = k

-- As time goes by, and while nothing is paid or changed, access never becomes less strict.
pub billing_access-le :
    (s : Option Subscription) (invoices : List Invoice) (now later : ℕ)
    → now ≤ later
    → severity (billing_access s invoices now) ≤ severity (billing_access s invoices later)
unfolding billing_access subscription_access
billing_access-le none invoices now later h = omega arith
billing_access-le (some s) invoices now later h =
    stricter (s.status == codes "CANCELED") (is_complimentary s now) (is_complimentary s later)
      (s.status == codes "INCOMPLETE") (access_by_due (oldest_due s.id invoices) now)
      (access_by_due (oldest_due s.id invoices) later) (complimentary_ends s now later h)
      (access_by_due-le (oldest_due s.id invoices) now later h)
