-- ===== src/Usage/Answering.antt =====
-- The reservation of an answer's cost as the worker uses it:
-- apps/worker/src/modules/usage-retention/answer-usage.repository.ts and answer-usage.service.ts.
-- Each statement that reads `clock_timestamp()` takes its reading `now`. `none` is an exception.
pub mod Settled
pub mod Steps
use mathlib.Core.Option
use devfootnote_project.Base.{
  Bool, List, Option, every, false, if◌then◌else◌, is_some, leb, ltb, none, not, some, ℕ, ◌&&◌, ◌*◌,
  ◌+◌, ◌>>=◌, ◌∷◌,
}
use devfootnote_project.Base.Table.{delete, first, update}
use devfootnote_project.Usage.Reservations.{decimal, is_digit, names_reservation, settleable}
use devfootnote_project.Usage.Schema.{
  Ledger, Reservation, grounded_answer, is_reserved, released, same_purpose, settled,
}

-- What the provider reports of a call. A number of JavaScript that is negative or has a fraction is
-- `not_count`.
pub data TokenNumber : Type 0 where
  count : ℕ → TokenNumber
  not_count : TokenNumber

pub record TokenUsage : Type 0 where
  pub input_tokens : TokenNumber
  pub output_tokens : TokenNumber

-- The view of a reservation that `lockReservation` of the service returns.
pub record AnswerReservation : Type 0 where
  pub id : ℕ
  pub consent_epoch : ℕ
  pub fingerprint : ℕ
  pub active : Bool
  pub exposed : Bool

-- `owner_id = owner and id = id and purpose = 'grounded-answer'`
abbrev pub names_answer : ℕ → ℕ → Reservation → Bool
names_answer owner id r = names_reservation owner id r && same_purpose r.purpose grounded_answer

abbrev pub find_answer_reservation : ℕ → ℕ → Ledger → Option Reservation
find_answer_reservation owner id ledger = first (names_answer owner id) ledger.reservations

abbrev answer_view : ℕ → Reservation → AnswerReservation
answer_view now r = record {
  id = r.id;
  consent_epoch = r.consent_epoch;
  fingerprint = r.config_fingerprint;
  active = ltb now r.expires_at && is_reserved r.state;
  exposed = is_some r.exposure_started_at;
}

-- `lockReservation`
unfoldable pub lock_answer_reservation : ℕ → ℕ → ℕ → Ledger → Option AnswerReservation
lock_answer_reservation owner id now ledger =
    Option.map (answer_view now) (find_answer_reservation owner id ledger)

abbrev pub exposable_answer : ℕ → ℕ → ℕ → Reservation → Bool
exposable_answer owner id now r =
    names_answer owner id r && is_reserved r.state && ltb now r.expires_at

abbrev pub expose_again : ℕ → Reservation → Reservation
expose_again now r = record r { exposure_started_at = some now }

-- `expose`: whether a row was changed, and the rows.
unfoldable pub expose_answer : ℕ → ℕ → ℕ → Ledger → Bool × Ledger
expose_answer owner id now ledger = (
  is_some (first (exposable_answer owner id now) ledger.reservations),
  record ledger {
    reservations = update (exposable_answer owner id now) (expose_again now) ledger.reservations;
  },
)

-- `Number.isSafeInteger(n) && n >= 0`, and the number then.
abbrev pub safe_count : TokenNumber → Option ℕ
safe_count (count n) = if leb n 9007199254740991 then some n else none
safe_count not_count = none

-- `BigInt(text)` of a price. A price of a policy is a text of digits; another text is taken to
-- throw.
unfoldable pub big_int : List ℕ → Option ℕ
big_int text = if every is_digit text then some (decimal text) else none

-- A text that is there and not empty, which is what counts as true.
abbrev pub given_text : Option (List ℕ) → Option (List ℕ)
given_text (some (c ∷ cs)) = some (c ∷ cs)
given_text _ = none

-- The tokens and the texts of the prices, if the usage of an exposed reservation can be priced.
pub record Priced : Type 0 where
  pub input : ℕ
  pub output : ℕ
  pub input_price : List ℕ
  pub output_price : List ℕ

unfoldable pub pricing_of : Option TokenUsage → Reservation → Option Priced
pricing_of usage r = do
  u ← usage
  exposed ← r.exposure_started_at
  input ← safe_count u.input_tokens
  output ← safe_count u.output_tokens
  input_price ← given_text r.pricing_snapshot.input_price_per_token
  output_price ← given_text r.pricing_snapshot.output_price_per_token
  some (record {
    input = input;
    output = output;
    input_price = input_price;
    output_price = output_price;
  })

-- The cost of a call by its tokens.
unfoldable pub actual_amount : Priced → Option ℕ
actual_amount p = do
  input_price ← big_int p.input_price
  output_price ← big_int p.output_price
  some (p.input * input_price + p.output * output_price)

-- What a settlement writes: the amount, and the tokens if they were accepted.
pub record Charge : Type 0 where
  pub amount : ℕ
  pub accepted : Option (ℕ × ℕ)

abbrev pub most : Reservation → Charge
most r = record {
  amount = if is_some r.exposure_started_at then r.reserved_maximum else 0;
  accepted = none;
}

-- A usage above the approved maximum is not believed.
abbrev pub charge_within : Reservation → Priced → ℕ → Charge
charge_within r p actual =
    if leb actual r.reserved_maximum
    then record { amount = actual; accepted = some (p.input, p.output) }
    else most r

unfoldable pub charge : Option TokenUsage → Reservation → Option Charge
charge usage r = elim (pricing_of usage r) [
  | none ↦ some (most r)
  | some p ↦ Option.map (charge_within r p) (actual_amount p)
]

abbrev pub close_answer : Charge → ℕ → Reservation → Reservation → Reservation
close_answer c now seen r =
    let exposed = is_some seen.exposure_started_at in
    record r {
      state = if exposed then settled else released;
      settled_amount = if exposed then some c.amount else none;
      input_tokens = Option.map (λ (t : ℕ × ℕ). t.0) c.accepted;
      output_tokens = Option.map (λ (t : ℕ × ℕ). t.1) c.accepted;
      completed_at = some now;
    }

-- `settle`: a reservation that is missing or closed is left alone.
unfoldable pub settle_answer : ℕ → ℕ → Option TokenUsage → ℕ → Ledger → Option Ledger
settle_answer owner id usage now ledger = elim (find_answer_reservation owner id ledger) [
  | none ↦ some ledger
  | some r ↦
      if is_reserved r.state
      then Option.map
          (λ (c : Charge). record ledger {
            reservations = update (settleable owner id) (close_answer c now r) ledger.reservations;
          })
          (charge usage r)
      else some ledger
]

-- 90 days
abbrev pub receipt_retention : ℕ
receipt_retention = 7776000000

abbrev pub lapsed_receipt : ℕ → ℕ → ℕ → Reservation → Bool
lapsed_receipt owner id now r =
    names_answer owner id r
    && not (is_reserved r.state)
    && elim r.completed_at [ none ↦ false | some t ↦ ltb (t + receipt_retention) now ]

-- `receiptExpired`
unfoldable pub receipt_expired : ℕ → ℕ → ℕ → Ledger → Bool
receipt_expired owner id now ledger =
    is_some (first (lapsed_receipt owner id now) ledger.reservations)

-- `deleteReceipt`
unfoldable pub delete_answer_receipt : ℕ → ℕ → ℕ → Ledger → Ledger
delete_answer_receipt owner id now ledger = record ledger {
  reservations = delete (lapsed_receipt owner id now) ledger.reservations;
}
