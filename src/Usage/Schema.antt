-- ===== src/Usage/Schema.antt =====
-- packages/db/src/schema/usage-retention.ts: the rows of the usage tables, and the constraints
-- that PostgreSQL checks on a write. Identifiers and opaque texts, which the code only compares,
-- are numbers; a time is a number of milliseconds; an amount of money is a natural number.
use devfootnote_project.Base.{
  Bool, List, Option, any, arith, false, if◌then◌else◌, is_some, leb, ltb, none, not, some, true, ℕ,
  ◌&&◌, ◌==◌, ◌||◌, ◌∷◌, ◌≡◌,
}

pub data Purpose : Type 0 where
  embedding grounded_answer : Purpose

abbrev pub same_purpose : Purpose → Purpose → Bool
same_purpose embedding embedding = true
same_purpose grounded_answer grounded_answer = true
same_purpose _ _ = false

pub data ReservationState : Type 0 where
  reserved released expired settled : ReservationState

abbrev pub is_reserved : ReservationState → Bool
is_reserved reserved = true
is_reserved _ = false

abbrev pub is_settled : ReservationState → Bool
is_settled settled = true
is_settled _ = false

-- A currency's code; the code tests only for the dollar.
pub data Currency : Type 0 where
  usd : Currency
  other : ℕ → Currency

abbrev pub same_currency : Currency → Currency → Bool
same_currency usd usd = true
same_currency (other a) (other b) = a == b
same_currency _ _ = false

-- The prices fixed when the reservation was made. A price is a text of character codes.
pub record PricingSnapshot : Type 0 where
  pub version : ℕ
  pub currency : Currency
  pub unit_scale : ℕ
  pub maximum_per_chunk : Option (List ℕ)
  pub price_per_token : Option (List ℕ)
  pub input_price_per_token : Option (List ℕ)
  pub output_price_per_token : Option (List ℕ)
  pub request_maximum : Option (List ℕ)

pub record Reservation : Type 0 where
  pub id : ℕ
  pub owner_id : ℕ
  pub budget_id : ℕ
  pub request_id : ℕ
  pub fingerprint : List ℕ
  pub config_fingerprint : ℕ
  pub purpose : Purpose
  pub consent_epoch : ℕ
  pub reserved_maximum : ℕ
  pub pricing_snapshot : PricingSnapshot
  pub state : ReservationState
  pub settled_amount : Option ℕ
  pub input_tokens : Option ℕ
  pub output_tokens : Option ℕ
  pub exposure_started_at : Option ℕ
  pub completed_at : Option ℕ
  pub cleanup_after : ℕ
  pub created_at : ℕ
  pub expires_at : ℕ

pub record Budget : Type 0 where
  pub id : ℕ
  pub period_start : ℕ
  pub period_end : ℕ
  pub currency : Currency
  pub unit_scale : ℕ
  pub limit : ℕ

pub record CallReceipt : Type 0 where
  pub attempt_id : ℕ
  pub owner_id : ℕ
  pub reservation_id : ℕ
  pub tokens : Option ℕ
  pub amount : Option ℕ

pub record Consent : Type 0 where
  pub owner_id : ℕ
  pub epoch : ℕ
  pub config_fingerprint : Option ℕ
  pub policy_version : Option ℕ
  pub granted_at : Option ℕ
  pub revoked_at : Option ℕ

-- The tables that the usage modules own.
pub record Ledger : Type 0 where
  pub consents : List Consent
  pub budgets : List Budget
  pub reservations : List Reservation
  pub receipts : List CallReceipt

-- `embedding_budget_bounds`
abbrev pub budget_check : Budget → Bool
budget_check b = ltb 0 b.limit && ltb 0 b.unit_scale && ltb b.period_start b.period_end

-- `settled_amount is null or settled_amount between 0 and reserved_maximum`
abbrev pub within_reserved : Option ℕ → ℕ → Bool
within_reserved none maximum = true
within_reserved (some amount) maximum = leb amount maximum

-- `embedding_reservation_settlement`
abbrev pub settlement_check : Reservation → Bool
settlement_check r =
    (if is_settled r.state then is_some r.settled_amount else not (is_some r.settled_amount))
    && within_reserved r.settled_amount r.reserved_maximum

-- `embedding_reservation_bounds`
abbrev pub reservation_bounds_check : Reservation → Bool
reservation_bounds_check r =
    ltb 0 r.reserved_maximum && ltb 0 r.consent_epoch && ltb r.created_at r.expires_at

-- `ai_reservation_usage`: the token counts are both null or both present.
abbrev pub reservation_usage_check : Reservation → Bool
reservation_usage_check r =
    if is_some r.input_tokens then is_some r.output_tokens else not (is_some r.output_tokens)

abbrev pub reservation_check : Reservation → Bool
reservation_check r = settlement_check r && reservation_bounds_check r && reservation_usage_check r

-- The primary key, and `embedding_reservation_request_unique`.
abbrev pub reservation_conflicts : Reservation → Reservation → Bool
reservation_conflicts new old =
    (old.id == new.id)
    || ((old.owner_id == new.owner_id)
        && same_purpose old.purpose new.purpose
        && (old.request_id == new.request_id))

-- An insert; `none` is the constraint error that PostgreSQL raises.
unfoldable pub insert_reservation : Reservation → List Reservation → Option (List Reservation)
insert_reservation new rows =
    if reservation_check new && not (any (reservation_conflicts new) rows)
    then some (new ∷ rows)
    else none

-- `embedding_call_usage_pair` and `embedding_call_usage_bounds`
abbrev pub receipt_check : CallReceipt → Bool
receipt_check c = elim c.tokens [
  | none ↦ not (is_some c.amount)
  | some n ↦ ltb 0 n && is_some c.amount
]

pub insert_reservation-cons :
    (new : Reservation) (rows : List Reservation) {after : List Reservation}
    → insert_reservation new rows ≡ some after
    → after ≡ new ∷ rows
unfolding insert_reservation
insert_reservation-cons new rows h = ground arith
