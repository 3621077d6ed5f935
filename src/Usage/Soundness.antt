-- ===== src/Usage/Soundness.antt =====
-- The rows of the reservations table: their keys are distinct, and every row keeps the constraints
-- of packages/db/src/schema/usage-retention.ts, so that no write of the operations is refused.
use devfootnote_project.Base.{
  Bool, List, Option-cases, [], any, arith, false, inl, inr, refl, some, subst, sym, true, ℕ, ◌+◌,
  ◌==◌, ◌∷◌, ◌≡◌, ◌≤◌,
}
use devfootnote_project.Base.Keys.{All-key, Keyed-delete, Keyed-update}
use devfootnote_project.Base.Table.{
  All, All-delete, All-map, All-update, All-update_on, delete, first, first-holds, update,
}
use devfootnote_project.Usage.Cleanup.{
  Sweep, chosen_and, delete_audit, expire_row, expire_unexposed, lapsed, lapsed_query,
  reserve_audit_cleanup, scan_interval, settle_expired_queries, settle_row,
}
use devfootnote_project.Usage.Reservations.{
  close, exposable, expose, find_reservation, mark_exposure, names_reservation, receipts_of, settle,
  settle_open, settleable, settlement_amount,
}
use devfootnote_project.Usage.Reservations.Settlement.{KeyedReservations, ids, settlement_amount-le}
use devfootnote_project.Usage.Schema.{
  Ledger, Reservation, insert_reservation, insert_reservation-cons, reservation_check,
  reservation_conflicts,
}

pub record IsSound (rows : List Reservation) : Type 0 where
  pub keyed : KeyedReservations rows
  pub checked : All (λ r. reservation_check r ≡ true) rows

pub IsSound-update :
    (p : Reservation → Bool) (f : Reservation → Reservation) (rows : List Reservation)
    → ((r : Reservation) → (f r).id ≡ r.id)
    → ((r : Reservation) → p r ≡ true → reservation_check r ≡ true → reservation_check (f r) ≡ true)
    → IsSound rows
    → IsSound (update p f rows)
IsSound-update p f rows same_id keeps h = record {
  keyed = Keyed-update ids p f rows same_id h.keyed;
  checked = All-update p f (λ r. reservation_check r ≡ true) rows keeps h.checked;
}

pub IsSound-delete :
    (p : Reservation → Bool) (rows : List Reservation) → IsSound rows → IsSound (delete p rows)
IsSound-delete p rows h = record {
  keyed = Keyed-delete ids p rows h.keyed;
  checked = All-delete (λ r. reservation_check r ≡ true) p rows h.checked;
}

any-conflict_id :
    (new : Reservation) (rows : List Reservation)
    → any (reservation_conflicts new) rows ≡ false
    → any (λ (y : Reservation). y.id == new.id) rows ≡ false
any-conflict_id new [] h = refl
any-conflict_id new (r ∷ rows) h = ground (arith, any-conflict_id new rows)

pub insert_reservation-IsSound :
    (new : Reservation) (rows : List Reservation) {after : List Reservation}
    → insert_reservation new rows ≡ some after
    → IsSound rows
    → IsSound after
unfolding insert_reservation
insert_reservation-IsSound new rows {after} h s =
    subst IsSound (sym (insert_reservation-cons new rows h)) (record {
      keyed = (any-conflict_id new rows (ground arith), s.keyed);
      checked = (ground arith, s.checked);
    })

pub mark_exposure-IsSound :
    (owner id now : ℕ) (ledger : Ledger)
    → IsSound ledger.reservations
    → IsSound (mark_exposure owner id now ledger).1.reservations
unfolding mark_exposure
mark_exposure-IsSound owner id now ledger h =
    IsSound-update (exposable owner id now) (expose now) ledger.reservations (λ r. refl)
      (λ r p c. c) h

pub expire_unexposed-IsSound :
    (limit : ℕ) (sweep : Sweep) (ledger : Ledger)
    → IsSound ledger.reservations
    → IsSound (expire_unexposed limit sweep ledger).1.reservations
unfolding expire_unexposed
expire_unexposed-IsSound limit sweep ledger h =
    IsSound-update (chosen_and sweep limit lapsed ledger.reservations) (expire_row sweep.written_at)
      ledger.reservations (λ r. refl) (λ r p c. ground arith) h

pub settle_expired_queries-IsSound :
    (limit : ℕ) (sweep : Sweep) (ledger : Ledger)
    → IsSound ledger.reservations
    → IsSound (settle_expired_queries limit sweep ledger).1.reservations
unfolding settle_expired_queries
settle_expired_queries-IsSound limit sweep ledger h =
    IsSound-update (chosen_and sweep limit lapsed_query ledger.reservations)
      (settle_row sweep.written_at) ledger.reservations (λ r. refl) (λ r p c. ground arith) h

pub delete_audit-IsSound :
    (owner id : ℕ) (ledger : Ledger)
    → IsSound ledger.reservations
    → IsSound (delete_audit owner id ledger).reservations
unfolding delete_audit
delete_audit-IsSound owner id ledger h =
    IsSound-delete (names_reservation owner id) ledger.reservations h

pub reserve_audit_cleanup-IsSound :
    (limit : ℕ) (sweep : Sweep) (ledger : Ledger)
    → IsSound ledger.reservations
    → IsSound (reserve_audit_cleanup limit sweep ledger).1.reservations
unfolding reserve_audit_cleanup
reserve_audit_cleanup-IsSound limit sweep ledger h =
    IsSound-update _ (λ r. record r { cleanup_after = sweep.written_at + scan_interval })
      ledger.reservations (λ r. refl) (λ r p c. c) h

close-check :
    (amount now : ℕ) (r : Reservation)
    → amount ≤ r.reserved_maximum
    → reservation_check r ≡ true
    → reservation_check (close amount now r) ≡ true
close-check amount now r h c = ground arith

pub close_row-IsSound :
    (owner id amount now : ℕ) (rows : List Reservation) {r : Reservation}
    → first (names_reservation owner id) rows ≡ some r
    → amount ≤ r.reserved_maximum
    → IsSound rows
    → IsSound (update (settleable owner id) (close amount now) rows)
close_row-IsSound owner id amount now rows {r} found fits h = record {
  keyed = Keyed-update ids (settleable owner id) (close amount now) rows (λ x. refl) h.keyed;
  checked =
      All-update_on (λ x. reservation_check x ≡ true) (settleable owner id) (close amount now) rows
        (All-map rows
          (λ x same_row open_row. close-check amount now x (
            subst (λ (y : Reservation). amount ≤ y.reserved_maximum) (sym (same_row (ground arith)))
              fits))
          (All-key ids (names_reservation owner id) (names_reservation owner id) rows
            (λ x e. ground (arith, first-holds (names_reservation owner id) rows {x = r} found))
            h.keyed found))
        h.checked;
}

-- A settlement keeps every row within the constraints: the amount is at most the reserved maximum.
pub settle-IsSound :
    (owner id now : ℕ) (attempts : List ℕ) (ledger : Ledger) {after : Ledger}
    → settle owner id attempts now ledger ≡ some after
    → IsSound ledger.reservations
    → IsSound after.reservations
unfolding settle settle_open
settle-IsSound owner id now attempts ledger {after} h s =
    elim (Option-cases (find_reservation owner id ledger)) [
      | inl missing ↦ ground arith
      | inr (r, found) ↦ ground (
        arith,
        close_row-IsSound owner id (settlement_amount r (receipts_of owner id ledger) attempts) now
            ledger.reservations found,
        settlement_amount-le r (receipts_of owner id ledger) attempts,
      )
    ]
