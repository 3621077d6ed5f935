-- ===== src/Usage/Cleanup.antt =====
-- apps/worker/src/modules/usage-retention/usage.repository.ts: the sweeps over reservations whose
-- time has passed, and the removal of records after the retention period. A batch takes the first
-- rows in order that no other transaction has locked; `locked` says which those are.
use devfootnote_project.Base.{
  Bool, List, [], any, false, is_some, leb, length, ltb, map, none, not, some, take, true, ℕ, ◌&&◌,
  ◌+◌, ◌==◌, ◌||◌, ◌∷◌,
}
use devfootnote_project.Base.Table.{delete, order_by, select, update}
use devfootnote_project.Usage.Reservations.{find_reservation, names_reservation}
use devfootnote_project.Usage.Schema.{
  Budget, CallReceipt, Ledger, Purpose, Reservation, embedding, expired, grounded_answer,
  is_reserved, settled,
}

-- `interval '90 days'` and `interval '15 seconds'`, in milliseconds.
abbrev pub retention : ℕ
retention = 7776000000

abbrev pub scan_interval : ℕ
scan_interval = 15000

-- `order by first key, second key limit n for update skip locked`: the keys of the chosen rows.
unfoldable pub batch {ℓ} :
    {A : Type ℓ} → (A → ℕ) → (A → ℕ) → (ℕ → Bool) → ℕ → (A → Bool) → List A → List A
batch due key locked limit eligible rows = take limit (
    order_by (λ a b. ltb (due a) (due b) || ((due a == due b) && leb (key a) (key b)))
      (select (λ a. eligible a && not (locked (key a))) rows))

-- The environment of a sweep: the rows that others have locked, and the clock's readings by the
-- statement that chooses the batch and by the one that writes.
pub record Sweep : Type 0 where
  pub locked : ℕ → Bool
  pub chosen_at : ℕ
  pub written_at : ℕ

abbrev is_embedding : Purpose → Bool
is_embedding embedding = true
is_embedding grounded_answer = false

-- The rows that `expireUnexposed` may close: no call was exposed, and the time has passed.
abbrev pub lapsed : ℕ → Reservation → Bool
lapsed now r =
    is_embedding r.purpose
    && is_reserved r.state
    && not (is_some r.exposure_started_at)
    && leb r.expires_at now

abbrev pub expire_row : ℕ → Reservation → Reservation
expire_row now r = record r { state = expired; completed_at = some now }

abbrev pub chosen_ids : Sweep → ℕ → (ℕ → Reservation → Bool) → List Reservation → List ℕ
chosen_ids sweep limit eligible rows =
    map (λ (r : Reservation). r.id)
      (batch (λ (r : Reservation). r.expires_at) (λ r. r.id) sweep.locked limit
        (eligible sweep.chosen_at) rows)

-- `id in ids and eligible`, read by the statement that writes.
abbrev pub chosen_and : Sweep → ℕ → (ℕ → Reservation → Bool) → List Reservation → Reservation → Bool
chosen_and sweep limit eligible rows r =
    any (λ id. id == r.id) (chosen_ids sweep limit eligible rows) && eligible sweep.written_at r

unfoldable pub expire_unexposed : ℕ → Sweep → Ledger → ℕ × Ledger
expire_unexposed limit sweep ledger = (
  length (select (chosen_and sweep limit lapsed ledger.reservations) ledger.reservations),
  record ledger {
    reservations =
        update (chosen_and sweep limit lapsed ledger.reservations) (expire_row sweep.written_at)
          ledger.reservations;
  },
)

-- `fingerprint like 'query-v1:%'`
abbrev is_prefix : List ℕ → List ℕ → Bool
is_prefix [] text = true
is_prefix (c ∷ cs) [] = false
is_prefix (c ∷ cs) (d ∷ ds) = (c == d) && is_prefix cs ds

abbrev query_prefix : List ℕ
query_prefix = b'q' ∷ b'u' ∷ b'e' ∷ b'r' ∷ b'y' ∷ b'-' ∷ b'v' ∷ b'1' ∷ b':' ∷ []

-- The rows that `settleExpiredQueries` may close: an exposed query whose time has passed.
abbrev pub lapsed_query : ℕ → Reservation → Bool
lapsed_query now r =
    is_reserved r.state
    && is_prefix query_prefix r.fingerprint
    && is_some r.exposure_started_at
    && leb r.expires_at now

abbrev pub settle_row : ℕ → Reservation → Reservation
settle_row now r = record r {
  state = settled;
  settled_amount = some r.reserved_maximum;
  completed_at = some now;
}

unfoldable pub settle_expired_queries : ℕ → Sweep → Ledger → ℕ × Ledger
settle_expired_queries limit sweep ledger = (
  length (select (chosen_and sweep limit lapsed_query ledger.reservations) ledger.reservations),
  record ledger {
    reservations =
        update (chosen_and sweep limit lapsed_query ledger.reservations)
          (settle_row sweep.written_at) ledger.reservations;
  },
)

abbrev period_over : ℕ → ℕ → Ledger → Bool
period_over budget now ledger =
    any (λ (b : Budget). (b.id == budget) && leb b.period_end now) ledger.budgets

-- The record of a reservation may be removed: it is closed since the retention period, and the
-- period of its budget is over.
pub audit_row_expired : ℕ → Ledger → Reservation → Bool
audit_row_expired now ledger r =
    is_embedding r.purpose
    && not (is_reserved r.state)
    && (elim r.completed_at [ none ↦ false | some t ↦ leb (t + retention) now ])
    && period_over r.budget_id now ledger

unfoldable pub audit_expired : ℕ → ℕ → ℕ → Ledger → Bool
unfolding audit_row_expired
audit_expired owner id now ledger = elim (find_reservation owner id ledger) [
  | none ↦ false
  | some r ↦ audit_row_expired now ledger r
]

-- `reserveAuditCleanup`: the batch, each row put off by the scan interval.
unfoldable pub reserve_audit_cleanup : ℕ → Sweep → Ledger → List (ℕ × ℕ) × Ledger
unfolding audit_row_expired
reserve_audit_cleanup limit sweep ledger = (
  map (λ (r : Reservation). (r.owner_id, r.id)) rows,
  record ledger {
    reservations =
        update (λ r. any (λ (c : Reservation). c.id == r.id) rows)
          (λ r. record r { cleanup_after = sweep.written_at + scan_interval }) ledger.reservations;
  },
)
  where
    rows : List Reservation
    rows =
        batch (λ (r : Reservation). r.cleanup_after) (λ r. r.id) sweep.locked limit
          (λ r. audit_row_expired sweep.chosen_at ledger r && leb r.cleanup_after sweep.chosen_at)
          ledger.reservations

unfoldable pub delete_audit : ℕ → ℕ → Ledger → Ledger
delete_audit owner id ledger = record ledger {
  receipts =
      delete (λ (c : CallReceipt). (c.owner_id == owner) && (c.reservation_id == id))
        ledger.receipts;
  reservations = delete (names_reservation owner id) ledger.reservations;
}

-- A budget whose period ended before the retention period, and that no reservation names.
pub budget_expired : ℕ → Ledger → Budget → Bool
budget_expired now ledger b =
    leb (b.period_end + retention) now
    && not (any (λ (r : Reservation). r.budget_id == b.id) ledger.reservations)

unfoldable pub delete_expired_budgets : ℕ → (ℕ → Bool) → ℕ → Ledger → ℕ × Ledger
unfolding budget_expired
delete_expired_budgets limit locked now ledger = (
  length rows,
  record ledger { budgets = delete (λ b. any (λ (c : Budget). c.id == b.id) rows) ledger.budgets },
)
  where
    rows : List Budget
    rows =
        batch (λ (b : Budget). b.period_end) (λ b. b.id) locked limit (budget_expired now ledger)
          ledger.budgets
