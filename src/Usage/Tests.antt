-- ===== src/Usage/Tests.antt =====
-- A ledger of one budget, on which the theorems of the usage modules are applied.
use mathlib.Core.Option
use devfootnote_project.Base.{[], arith, false, none, refl, some, ℕ, ◌∷◌, ◌≡◌}
use devfootnote_project.Usage.Budget.{
  Period, ReservationInput, ReservationPolicy, Supply, accepted, chosen_period, reserve_ai_budget,
}
use devfootnote_project.Usage.Budget.Bounds.{Leaves, reserve_ai_budget-Leaves}
use devfootnote_project.Usage.Consents.{ApprovedPolicy, grant, lock_row, ok, revoke}
use devfootnote_project.Usage.Consents.Epochs.{Raises, grant-Raises, revoke-Raises}
use devfootnote_project.Usage.Reservations.{
  decimal, insert_receipt, is_price, mark_exposure, record_call, record_cost, settle, settle_open,
  settlement_price,
}
use devfootnote_project.Usage.Schema.{
  Budget, CallReceipt, Consent, Ledger, PricingSnapshot, Reservation, embedding, insert_reservation,
  reserved, settled, usd,
}
use devfootnote_project.Usage.Soundness.{IsSound}
use devfootnote_project.Usage.Timeline.{IsBounded, Reach, admits, exposes, here, moment, next}
use devfootnote_project.Usage.Timeline.Bounded.{Reach-IsBounded}

abbrev month : ℕ → Period
month now = record { budget_id = 9; period_start = 0; period_end = 1000000 }

abbrev prices : PricingSnapshot
prices = record {
  version = 1;
  currency = usd;
  unit_scale = 1000000000;
  maximum_per_chunk = none;
  price_per_token = some (b'2' ∷ []);
  input_price_per_token = none;
  output_price_per_token = none;
  request_maximum = none;
}

abbrev policy : ReservationPolicy
policy = record {
  fingerprint = 7;
  monthly = false;
  budget_id = 1;
  period_start = 0;
  period_end = 1000000;
  budget_limit = 100;
  purpose_budget_limit = some 80;
  pricing = prices;
  reservation_seconds = 60;
}

abbrev request : ReservationInput
request = record {
  owner_id = 1;
  request_id = 2;
  fingerprint = [];
  epoch = 1;
  amount = 40;
  policy = policy;
  purpose = embedding;
}

abbrev supply_of : ReservationInput → Supply
supply_of input = record { before_lock = 10; after_lock = 12; transaction_start = 9; uuid = 33 }

abbrev no_rows : Ledger
no_rows = record { consents = []; budgets = []; reservations = []; receipts = [] }

abbrev shared_budget : Budget
shared_budget = record {
  id = 1;
  period_start = 0;
  period_end = 1000000;
  currency = usd;
  unit_scale = 1000000000;
  limit = 100;
}

abbrev admitted_row : Reservation
admitted_row = record {
  id = 33;
  owner_id = 1;
  budget_id = 1;
  request_id = 2;
  fingerprint = [];
  config_fingerprint = 7;
  purpose = embedding;
  consent_epoch = 1;
  reserved_maximum = 40;
  pricing_snapshot = prices;
  state = reserved;
  settled_amount = none;
  input_tokens = none;
  output_tokens = none;
  exposure_started_at = none;
  completed_at = none;
  cleanup_after = 7776000009;
  created_at = 9;
  expires_at = 60012;
}

abbrev admitted : Ledger
admitted = record no_rows { budgets = shared_budget ∷ []; reservations = admitted_row ∷ [] }

admission :
    reserve_ai_budget month request (supply_of request) no_rows ≡ some (accepted 33, admitted)
unfolding reserve_ai_budget insert_reservation
admission = refl

abbrev exposed_row : Reservation
exposed_row = record admitted_row { exposure_started_at = some 20 }

abbrev exposed_ledger : Ledger
exposed_ledger = record admitted { reservations = exposed_row ∷ [] }

exposure : (mark_exposure 1 33 20 admitted).1 ≡ exposed_ledger
unfolding mark_exposure
exposure = refl

start_of_month : IsBounded 1 100 (moment 0 no_rows)
start_of_month = record { sound = record { keyed = tt; checked = tt }; bounded = omega arith }

-- An admission and the exposure of what it reserved.
two_steps : Reach month 1 100 (moment 0 no_rows) (moment 20 (mark_exposure 1 33 20 admitted).1)
two_steps =
    next
      (next here (
        admits request (supply_of request) (accepted 33) admitted (omega arith) (λ e. omega arith)
          admission))
      (exposes 1 33 {t = 20} (omega arith))

Reach-IsBounded_example : IsBounded 1 100 (moment 20 (mark_exposure 1 33 20 admitted).1)
Reach-IsBounded_example = Reach-IsBounded month 1 100 start_of_month two_steps

reserve_ai_budget-Leaves_example :
    Leaves request (chosen_period month policy 10) (supply_of request) [] (accepted 33, admitted)
reserve_ai_budget-Leaves_example =
    reserve_ai_budget-Leaves month request (supply_of request) no_rows (accepted 33) admitted
      admission

abbrev receipt : CallReceipt
receipt = record {
  attempt_id = 5;
  owner_id = 1;
  reservation_id = 33;
  tokens = some 10;
  amount = some 20;
}

abbrev recorded_ledger : Ledger
recorded_ledger = record exposed_ledger { receipts = receipt ∷ [] }

recording : record_call 1 33 5 (some 10) exposed_ledger ≡ some recorded_ledger
unfolding record_call settlement_price is_price record_cost decimal insert_receipt
recording = refl

abbrev settled_row : Reservation
settled_row = record exposed_row {
  state = settled;
  settled_amount = some 20;
  completed_at = some 30;
}

abbrev settled_ledger : Ledger
settled_ledger = record recorded_ledger { reservations = settled_row ∷ [] }

settlement : settle 1 33 (5 ∷ []) 30 recorded_ledger ≡ some settled_ledger
unfolding settle settle_open Option.bind
settlement = refl

recorded-IsSound : IsSound recorded_ledger.reservations
recorded-IsSound = record { keyed = (refl, tt); checked = (refl, tt) }

abbrev approved : ApprovedPolicy
approved = record { fingerprint = 7; policy_version = 1 }

abbrev granted_row : Consent
granted_row = record {
  owner_id = 1;
  epoch = 1;
  config_fingerprint = some 7;
  policy_version = some 1;
  granted_at = some 5;
  revoked_at = none;
}

granting : grant 1 0 approved 5 [] ≡ ok (1, granted_row ∷ [])
unfolding grant lock_row
granting = refl

grant-Raises_example : Raises 1 0 [] (grant 1 0 approved 5 [])
grant-Raises_example = grant-Raises 1 0 5 approved []

revoke-Raises_example : Raises 1 1 (granted_row ∷ []) (revoke 1 1 6 (granted_row ∷ []))
revoke-Raises_example = revoke-Raises 1 1 6 (granted_row ∷ [])
