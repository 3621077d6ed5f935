-- ===== src/Usage/Reservations.antt =====
-- apps/worker/src/modules/usage-retention/usage.repository.ts: the exposure of a reservation, the
-- receipt of a call's cost, and the settlement. Each statement that reads `clock_timestamp()` takes
-- its reading `now` as an argument. `none` is an exception, upon which the transaction rolls back.
pub mod Settlement
use mathlib.Core.Option
use devfootnote_project.Base.{
  Bool, List, Option, [], any, coalesce, every, exceeds, false, if◌then◌else◌, is_some, leb, length,
  ltb, none, not, some, ℕ, ◌&&◌, ◌*◌, ◌+◌, ◌-◌, ◌==◌, ◌||◌, ◌∷◌,
}
use devfootnote_project.Base.Table.{first, select, sum_of, update}
use devfootnote_project.Usage.Schema.{
  CallReceipt, Consent, Ledger, PricingSnapshot, Reservation, ReservationState, is_reserved,
  receipt_check, same_currency, settled, usd,
}

-- A consent or a reservation as the execution of a work reads it under its lock.
pub record EmbeddingConsent : Type 0 where
  pub epoch : ℕ
  pub config_fingerprint : Option ℕ
  pub granted : Bool

pub record EmbeddingReservation : Type 0 where
  pub id : ℕ
  pub config_fingerprint : ℕ
  pub consent_epoch : ℕ
  pub state : ReservationState
  pub active : Bool
  pub exposed : Bool

abbrev consent_view : Consent → EmbeddingConsent
consent_view c = record {
  epoch = c.epoch;
  config_fingerprint = c.config_fingerprint;
  granted = is_some c.granted_at && not (is_some c.revoked_at);
}

unfoldable pub lock_consent : ℕ → Ledger → Option EmbeddingConsent
lock_consent owner ledger =
    Option.map consent_view (first (λ c. c.owner_id == owner) ledger.consents)

-- `owner_id = owner and id = id`
abbrev pub names_reservation : ℕ → ℕ → Reservation → Bool
names_reservation owner id r = (r.owner_id == owner) && (r.id == id)

abbrev pub find_reservation : ℕ → ℕ → Ledger → Option Reservation
find_reservation owner id ledger = first (names_reservation owner id) ledger.reservations

-- `state = 'reserved' and expires_at > now`
abbrev pub is_active : ℕ → Reservation → Bool
is_active now r = is_reserved r.state && ltb now r.expires_at

abbrev pub reservation_view : ℕ → Reservation → EmbeddingReservation
reservation_view now r = record {
  id = r.id;
  config_fingerprint = r.config_fingerprint;
  consent_epoch = r.consent_epoch;
  state = r.state;
  active = is_active now r;
  exposed = is_some r.exposure_started_at;
}

-- `now` is read after the lock is held.
unfoldable pub lock_reservation : ℕ → ℕ → ℕ → Ledger → Option EmbeddingReservation
lock_reservation owner id now ledger =
    Option.map (reservation_view now) (find_reservation owner id ledger)

abbrev pub exposable : ℕ → ℕ → ℕ → Reservation → Bool
exposable owner id now r = names_reservation owner id r && is_active now r

abbrev pub expose : ℕ → Reservation → Reservation
expose now r = record r { exposure_started_at = some (coalesce r.exposure_started_at now) }

unfoldable pub mark_exposure : ℕ → ℕ → ℕ → Ledger → Bool × Ledger
mark_exposure owner id now ledger = (
  is_some (first (exposable owner id now) ledger.reservations),
  record ledger { reservations = update (exposable owner id now) (expose now) ledger.reservations },
)

-- The regular expression `^[1-9][0-9]*$`.
abbrev pub is_digit : ℕ → Bool
is_digit c = leb b'0' c && leb c b'9'

unfoldable pub is_price : List ℕ → Bool
is_price [] = false
is_price (c ∷ cs) = leb b'1' c && leb c b'9' && every is_digit cs

-- `BigInt(text)` of a text of digits.
decimal_from : ℕ → List ℕ → ℕ
decimal_from n [] = n
decimal_from n (c ∷ cs) = decimal_from (n * 10 + (c - b'0')) cs

unfoldable pub decimal : List ℕ → ℕ
unfolding decimal_from
decimal = decimal_from 0

-- The price that a call is settled at: fixed when the reservation was made, in billionths of a
-- dollar for one token.
unfoldable pub settlement_price : PricingSnapshot → Option ℕ
settlement_price p = elim p.price_per_token [
  | none ↦ none
  | some text ↦
      if same_currency p.currency usd && (p.unit_scale == 1000000000) && is_price text
      then some (decimal text)
      else none
]

-- `insert … on conflict (attempt_id) do nothing`; `none` is a constraint error.
unfoldable pub insert_receipt : CallReceipt → List CallReceipt → Option (List CallReceipt)
insert_receipt new rows =
    if receipt_check new
    then some (if any (λ c. c.attempt_id == new.attempt_id) rows then rows else new ∷ rows)
    else none

-- The cost of a call, once the price is known. A cost above the reserved maximum is an exception.
unfoldable pub record_cost : Reservation → ℕ → Option ℕ → ℕ → Ledger → Option Ledger
record_cost r attempt tokens price ledger =
    let amount = Option.map (λ (n : ℕ). n * price) tokens in
    if exceeds amount r.reserved_maximum
    then none
    else elim (insert_receipt
        (record {
          attempt_id = attempt;
          owner_id = r.owner_id;
          reservation_id = r.id;
          tokens = tokens;
          amount = amount;
        })
        ledger.receipts) [ none ↦ none | some rows ↦ some (record ledger { receipts = rows }) ]

-- `recordCall`
unfoldable pub record_call : ℕ → ℕ → ℕ → Option ℕ → Ledger → Option Ledger
record_call owner id attempt tokens ledger = elim (find_reservation owner id ledger) [
  | none ↦ none
  | some r ↦ elim (settlement_price r.pricing_snapshot) [
    | none ↦ none
    | some price ↦ record_cost r attempt tokens price ledger
  ]
]

-- The receipts of a reservation.
abbrev pub receipts_of : ℕ → ℕ → Ledger → List CallReceipt
receipts_of owner id ledger =
    select (λ c. (c.owner_id == owner) && (c.reservation_id == id)) ledger.receipts

-- `amounts.get(attempt)`: missing or null is `none`.
abbrev pub amount_of : List CallReceipt → ℕ → Option ℕ
amount_of receipts attempt =
    Option.bind (first (λ c. c.attempt_id == attempt) receipts) (λ c. c.amount)

-- The sum of the amounts known.
pub actual_cost : List CallReceipt → List ℕ → ℕ
actual_cost receipts = sum_of (λ attempt. coalesce (amount_of receipts attempt) 0)

-- The cost of some attempt is not known.
pub has_unknown_cost : Reservation → List CallReceipt → List ℕ → Bool
has_unknown_cost r receipts attempts =
    (is_some r.exposure_started_at && (length attempts == 0))
    || any (λ attempt. not (is_some (amount_of receipts attempt))) attempts

-- A call whose cost is not known keeps the whole reserved maximum.
unfoldable pub settlement_amount : Reservation → List CallReceipt → List ℕ → ℕ
unfolding actual_cost has_unknown_cost
settlement_amount r receipts attempts =
    if has_unknown_cost r receipts attempts
    then r.reserved_maximum
    else actual_cost receipts attempts

abbrev pub settleable : ℕ → ℕ → Reservation → Bool
settleable owner id r = names_reservation owner id r && is_reserved r.state

abbrev pub close : ℕ → ℕ → Reservation → Reservation
close amount now r = record r {
  state = settled;
  settled_amount = some amount;
  completed_at = some now;
}

-- The part of `settle` for the row `r` of a reservation that is still open. A cost above the
-- reserved maximum is an exception.
unfoldable pub settle_open : ℕ → ℕ → Reservation → List ℕ → ℕ → Ledger → Option Ledger
unfolding settlement_amount
settle_open owner id r attempts now ledger =
    let receipts = receipts_of owner id ledger in
    if ltb r.reserved_maximum (actual_cost receipts attempts)
    then none
    else some (record ledger {
      reservations =
          update (settleable owner id) (close (settlement_amount r receipts attempts) now)
            ledger.reservations;
    })

-- `settle`. A reservation that is missing or closed is left alone.
unfoldable pub settle : ℕ → ℕ → List ℕ → ℕ → Ledger → Option Ledger
settle owner id attempts now ledger = elim (find_reservation owner id ledger) [
  | none ↦ some ledger
  | some r ↦ if is_reserved r.state then settle_open owner id r attempts now ledger else some ledger
]
