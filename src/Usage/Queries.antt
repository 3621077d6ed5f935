-- ===== src/Usage/Queries.antt =====
-- The cost of a semantic search: `beginQuery` and `settleQuery` of
-- apps/api/src/modules/usage-retention/usage.service.ts and usage.repository.ts. An error rolls the
-- transaction back.
use mathlib.Core.Option
use devfootnote_project.Base.{
  Bool, List, Option, any, false, holds, if◌then◌else◌, is_some, ltb, none, not, some, ℕ, ◌&&◌, ◌*◌,
  ◌==◌, ◌||◌,
}
use devfootnote_project.Base.Table.{first, update}
use devfootnote_project.Usage.Budget.{
  Period, Refusal, ReservationInput, ReservationPolicy, Supply, accepted, refused,
  reserve_ai_budget,
}
use devfootnote_project.Usage.Consents.{
  Result, UsageError, err, is_granted, lock_row, ok, unavailable,
}
use devfootnote_project.Usage.Reservations.{
  close, decimal, exposable, find_reservation, insert_receipt, is_price, settleable,
  settlement_price,
}
use devfootnote_project.Usage.Schema.{Ledger, Reservation, embedding, is_reserved, same_purpose}

-- `queryRequestExists`
unfoldable pub query_request_exists : ℕ → ℕ → Ledger → Bool
query_request_exists owner request ledger =
    any
      (λ (r : Reservation).
        (r.owner_id == owner) && (r.request_id == request) && same_purpose r.purpose embedding)
      ledger.reservations

abbrev pub expose_anew : ℕ → Reservation → Reservation
expose_anew now r = record r { exposure_started_at = some now }

-- `exposeQuery`
unfoldable pub expose_query : ℕ → ℕ → ℕ → Ledger → Result Ledger
expose_query owner id now ledger =
    if is_some (first (exposable owner id now) ledger.reservations)
    then ok (record ledger {
      reservations = update (exposable owner id now) (expose_anew now) ledger.reservations;
    })
    else err unavailable

pub data QueryRefusal : Type 0 where
  no_policy consent_required request_used : QueryRefusal

pub data BeginResult : Type 0 where
  reason : QueryRefusal → BeginResult
  begun : ℕ → ℕ → BeginResult

-- An exception of the database reaches the caller as one that is no `UsageError`; both roll back.
pub data Begun : Type 0 where
  done : BeginResult → Ledger → Begun
  failed : UsageError → Begun
  broken : Begun

-- `policy.pricePerToken`, if it is a price.
abbrev pub price_of : ReservationPolicy → Option ℕ
price_of policy = elim policy.pricing.price_per_token [
  | none ↦ none
  | some text ↦ if is_price text then some (decimal text) else none
]

abbrev pub query_input : ReservationPolicy → ℕ → ℕ → ℕ → List ℕ → ℕ → ReservationInput
query_input policy price owner request fingerprint epoch = record {
  owner_id = owner;
  request_id = request;
  fingerprint = fingerprint;
  epoch = epoch;
  amount = 8192 * price;
  policy = policy;
  purpose = embedding;
}

abbrev refusal_error : Refusal → UsageError
refusal_error Refusal.policy_conflict = UsageError.policy_conflict
refusal_error Refusal.budget_exhausted = UsageError.budget_exhausted

abbrev pub expose_begun : ℕ → ℕ → ℕ → ℕ → Ledger → Begun
expose_begun owner epoch id now ledger = elim (expose_query owner id now ledger) [
  | ok after ↦ done (begun id epoch) after
  | err e ↦ failed e
]

-- `reserve` of the repository, then `exposeQuery`.
unfoldable pub reserve_and_expose : (ℕ → Period) → ReservationInput → Supply → ℕ → Ledger → Begun
reserve_and_expose utc_month input supply exposed_at ledger =
    elim (reserve_ai_budget utc_month input supply ledger) [
      | none ↦ broken
      | some (accepted id, after) ↦ expose_begun input.owner_id input.epoch id exposed_at after
      | some (refused why, after) ↦ failed (refusal_error why)
    ]

-- The policy with its price, if both are there.
abbrev pub priced : Option ReservationPolicy → Option (ReservationPolicy × ℕ)
priced none = none
priced (some policy) = Option.map (λ price. (policy, price)) (price_of policy)

-- `beginQuery`; `configuration` is the approved policy of the server, if it has one.
unfoldable pub begin_query :
    (ℕ → Period) → Option ReservationPolicy → ℕ → ℕ → List ℕ → Supply → ℕ → Ledger → Begun
unfolding reserve_and_expose
begin_query utc_month configuration owner request fingerprint supply exposed_at ledger =
    elim (priced configuration) [
      | none ↦ done (reason no_policy) ledger
      | some (policy, price) ↦
          let (c, rows) = lock_row owner ledger.consents in
          let locked = record ledger { consents = rows } in
          if not (is_granted c) || not (holds c.config_fingerprint policy.fingerprint)
          then done (reason consent_required) locked
          else if query_request_exists owner request locked
          then done (reason request_used) locked
          else reserve_and_expose utc_month
              (query_input policy price owner request fingerprint c.epoch) supply exposed_at locked
    ]

-- `tokens !== null && (!Number.isSafeInteger(tokens) || tokens < 1 || tokens > 8192)`
abbrev pub bad_tokens : Option ℕ → Bool
bad_tokens none = false
bad_tokens (some n) = ltb n 1 || ltb 8192 n

-- The amount that a query costs at a price.
abbrev pub query_amount : Reservation → ℕ → Option ℕ → ℕ
query_amount r price none = r.reserved_maximum
query_amount r price (some n) = n * price

-- The part of `settleQuery` for the row of a reservation that is still open, at a known price: the
-- answer says whether the reservation is still in time.
unfoldable pub settle_query_at :
    ℕ → ℕ → Reservation → ℕ → Option ℕ → ℕ → Ledger → Result (Bool × Ledger)
settle_query_at owner id r price tokens now ledger =
    if bad_tokens tokens || ltb r.reserved_maximum (query_amount r price tokens)
    then err UsageError.policy_conflict
    else elim (insert_receipt
        (record {
          attempt_id = r.id;
          owner_id = owner;
          reservation_id = id;
          tokens = tokens;
          amount = Option.map (λ n. n * price) tokens;
        })
        ledger.receipts) [
          | none ↦ err unavailable
          | some receipts ↦ ok (
            ltb now r.expires_at,
            record ledger {
              receipts = receipts;
              reservations =
                  update (settleable owner id) (close (query_amount r price tokens) now)
                    ledger.reservations;
            },
          )
        ]

-- `settleQuery`
unfoldable pub settle_query : ℕ → ℕ → Option ℕ → ℕ → Ledger → Result (Bool × Ledger)
settle_query owner id tokens now ledger = elim (find_reservation owner id ledger) [
  | none ↦ err unavailable
  | some r ↦
      if is_reserved r.state
      then elim (settlement_price r.pricing_snapshot) [
        | none ↦ err UsageError.policy_conflict
        | some price ↦ settle_query_at owner id r price tokens now ledger
      ]
      else ok (false, ledger)
]
