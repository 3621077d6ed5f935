-- ===== src/Usage/Budget.antt =====
-- packages/db/src/usage-retention/budget-reservation.ts: the admission of a cost reservation
-- against a shared budget. Money is a natural number of the currency's unit.
pub mod Bounds
use devfootnote_project.Base.{
  Bool, List, Option, any, coalesce, false, if◌then◌else◌, is_some, leb, ltb, min, none, not, some,
  ℕ, ◌*◌, ◌+◌, ◌==◌, ◌||◌, ◌∷◌,
}
use devfootnote_project.Base.Table.{first, sum_of, update}
use devfootnote_project.Usage.Schema.{
  Budget, Ledger, PricingSnapshot, Purpose, Reservation, ReservationState, budget_check,
  insert_reservation, reserved, same_currency, same_purpose, settled,
}

-- The part of a policy that admission reads.
pub record ReservationPolicy : Type 0 where
  pub fingerprint : ℕ
  pub monthly : Bool
  pub budget_id : ℕ
  pub period_start : ℕ
  pub period_end : ℕ
  pub budget_limit : ℕ
  pub purpose_budget_limit : Option ℕ
  pub pricing : PricingSnapshot
  pub reservation_seconds : ℕ

pub record ReservationInput : Type 0 where
  pub owner_id : ℕ
  pub request_id : ℕ
  pub fingerprint : List ℕ
  pub epoch : ℕ
  pub amount : ℕ
  pub policy : ReservationPolicy
  pub purpose : Purpose

pub data Refusal : Type 0 where
  policy_conflict budget_exhausted : Refusal

pub data ReservationResult : Type 0 where
  accepted : ℕ → ReservationResult
  refused : Refusal → ReservationResult

-- A budget's identity and period.
pub record Period : Type 0 where
  pub budget_id : ℕ
  pub period_start : ℕ
  pub period_end : ℕ

-- What the database supplies during one call: its clock before and after the budget row is
-- locked, the start of the transaction, and a fresh UUID.
pub record Supply : Type 0 where
  pub before_lock : ℕ
  pub after_lock : ℕ
  pub transaction_start : ℕ
  pub uuid : ℕ

-- The amount of the budget that a reservation takes up at a time: `committedAmount`.
abbrev pub committed_in : ReservationState → Bool → Option ℕ → ℕ → ℕ
committed_in settled live settlement maximum = coalesce settlement 0
committed_in reserved live settlement maximum = if live then maximum else 0
committed_in _ live settlement maximum = 0

unfoldable pub committed : ℕ → Reservation → ℕ
committed now r =
    committed_in r.state (ltb now r.expires_at || is_some r.exposure_started_at) r.settled_amount
      r.reserved_maximum

-- `coalesce(sum(committedAmount), 0)` over the reservations of a budget.
unfoldable pub committed_to : ℕ → ℕ → Reservation → ℕ
unfolding committed
committed_to budget now r = if r.budget_id == budget then committed now r else 0

abbrev pub total : ℕ → ℕ → List Reservation → ℕ
total budget now = sum_of (committed_to budget now)

-- The same sum over the reservations of one purpose.
unfoldable pub committed_for : Purpose → ℕ → ℕ → Reservation → ℕ
unfolding committed_to
committed_for purpose budget now r =
    if same_purpose r.purpose purpose then committed_to budget now r else 0

abbrev pub purpose_total : Purpose → ℕ → ℕ → List Reservation → ℕ
purpose_total purpose budget now = sum_of (committed_for purpose budget now)

-- The budget's row does not agree with the policy.
unfoldable pub conflicts_with : ReservationPolicy → Period → Budget → Bool
conflicts_with policy period budget =
    not (budget.period_start == period.period_start)
    || not (budget.period_end == period.period_end)
    || not (same_currency budget.currency policy.pricing.currency)
    || not (budget.unit_scale == policy.pricing.unit_scale)
    || ltb budget.limit policy.budget_limit

abbrev exceeds_purpose_limit : Option ℕ → ℕ → Bool
exceeds_purpose_limit none sum = false
exceeds_purpose_limit (some limit) sum = ltb limit sum

-- `insert … on conflict do nothing` of the budget's row; `none` is a constraint error.
unfoldable insert_budget : ReservationPolicy → Period → List Budget → Option (List Budget)
insert_budget policy period budgets =
    if budget_check row
    then some (if any (λ b. b.id == row.id) budgets then budgets else row ∷ budgets)
    else none
  where
    row : Budget
    row = record {
      id = period.budget_id;
      period_start = period.period_start;
      period_end = period.period_end;
      currency = policy.pricing.currency;
      unit_scale = policy.pricing.unit_scale;
      limit = policy.budget_limit;
    }

-- The row that an admitted request leaves.
unfoldable pub new_reservation : ReservationInput → Period → Supply → Reservation
new_reservation input period supply = record {
  id = supply.uuid;
  owner_id = input.owner_id;
  budget_id = period.budget_id;
  request_id = input.request_id;
  fingerprint = input.fingerprint;
  config_fingerprint = input.policy.fingerprint;
  purpose = input.purpose;
  consent_epoch = input.epoch;
  reserved_maximum = input.amount;
  pricing_snapshot = input.policy.pricing;
  state = reserved;
  settled_amount = none;
  input_tokens = none;
  output_tokens = none;
  exposure_started_at = none;
  completed_at = none;
  cleanup_after = supply.transaction_start + 7776000000;
  created_at = supply.transaction_start;
  expires_at = min (supply.after_lock + input.policy.reservation_seconds * 1000) period.period_end;
}

-- The part after the budget's row is locked and its limit is lowered.
unfoldable admit : ReservationInput → Period → Supply → Ledger → Option (ReservationResult × Ledger)
unfolding committed_to committed_for new_reservation
admit input period supply ledger =
    if ltb now period.period_start || leb period.period_end now
    then some (refused policy_conflict, ledger)
    else if ltb policy.budget_limit (total period.budget_id now ledger.reservations + input.amount)
        || exceeds_purpose_limit policy.purpose_budget_limit
            (purpose_total input.purpose period.budget_id now ledger.reservations + input.amount)
    then some (refused budget_exhausted, ledger)
    else elim (insert_reservation (new_reservation input period supply) ledger.reservations) [
      | none ↦ none
      | some rows ↦ some (accepted supply.uuid, record ledger { reservations = rows })
    ]
  where
    now : ℕ
    now = supply.after_lock

    policy : ReservationPolicy
    policy = input.policy

-- The limit of a smaller approved policy replaces that of the row.
unfoldable pub lower_limit : ℕ → Period → Budget → Ledger → Ledger
lower_limit limit period budget ledger =
    if ltb limit budget.limit
    then record ledger {
      budgets =
          update (λ b. b.id == period.budget_id) (λ b. record b { limit = limit }) ledger.budgets;
    }
    else ledger

-- The part after the budget's row was inserted or found.
unfoldable check_budget :
    ReservationInput → Period → Supply → Ledger → Option (ReservationResult × Ledger)
unfolding conflicts_with lower_limit
check_budget input period supply ledger =
    elim (first (λ b. b.id == period.budget_id) ledger.budgets) [
      | none ↦ some (refused policy_conflict, ledger)
      | some budget ↦
          if conflicts_with input.policy period budget
          then some (refused policy_conflict, ledger)
          else admit input period supply
              (lower_limit input.policy.budget_limit period budget ledger)
    ]

-- The budget of the request: the policy's own, or that of the current UTC month. `utc_month` is the
-- calendar of the JavaScript runtime.
abbrev pub chosen_period : (ℕ → Period) → ReservationPolicy → ℕ → Period
chosen_period utc_month policy now = if policy.monthly then utc_month now else record {
  budget_id = policy.budget_id;
  period_start = policy.period_start;
  period_end = policy.period_end;
}

-- `reserveAiBudget`; `none` is an exception, upon which the caller's transaction rolls back.
unfoldable pub reserve_ai_budget :
    (ℕ → Period) → ReservationInput → Supply → Ledger → Option (ReservationResult × Ledger)
unfolding insert_budget check_budget admit conflicts_with lower_limit
reserve_ai_budget utc_month input supply ledger =
    elim (insert_budget input.policy period ledger.budgets) [
      | none ↦ none
      | some rows ↦ check_budget input period supply (record ledger { budgets = rows })
    ]
  where
    period : Period
    period = chosen_period utc_month input.policy supply.before_lock
