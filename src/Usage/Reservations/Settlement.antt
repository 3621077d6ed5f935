-- ===== src/Usage/Reservations/Settlement.antt =====
-- What an exposure and a settlement do to the amounts committed to a budget.
use devfootnote_project.Base.{
  Bool-cases, List, Option-cases, [], arith, false, inl, inr, is_some, ltb, some, subst, sym, true,
  ℕ, ◌≡◌, ◌≤◌,
}
use devfootnote_project.Base.Keys.{All-key, Keyed}
use devfootnote_project.Base.Table.{
  All-map, first, first-holds, sum_of-update-le, sum_of-update-le_on, update,
}
use devfootnote_project.Usage.Budget.{committed, committed_to, total}
use devfootnote_project.Usage.Reservations.{
  actual_cost, close, exposable, expose, find_reservation, mark_exposure, names_reservation,
  receipts_of, settle, settle_open, settleable, settlement_amount,
}
use devfootnote_project.Usage.Schema.{CallReceipt, Ledger, Reservation, is_reserved}

abbrev pub ids : Reservation → ℕ
ids r = r.id

abbrev pub KeyedReservations : List Reservation → Type 0
KeyedReservations = Keyed ids

expose-committed_to :
    (budget owner id now : ℕ) (r : Reservation)
    → exposable owner id now r ≡ true
    → committed_to budget now (expose now r) ≤ committed_to budget now r
unfolding committed_to
expose-committed_to budget owner id now r h = ground arith

-- At the time of an exposure the amount committed does not grow: a row is exposed only while its
-- maximum still counts.
pub mark_exposure-total :
    (budget owner id now : ℕ) (ledger : Ledger)
    → total budget now (mark_exposure owner id now ledger).1.reservations
      ≤ total budget now ledger.reservations
unfolding mark_exposure
mark_exposure-total budget owner id now ledger =
    sum_of-update-le _ _ _ ledger.reservations (expose-committed_to budget owner id now)

-- A settlement charges at most the reserved maximum.
pub settlement_amount-le :
    (r : Reservation) (receipts : List CallReceipt) (attempts : List ℕ)
    → ltb r.reserved_maximum (actual_cost receipts attempts) ≡ false
    → settlement_amount r receipts attempts ≤ r.reserved_maximum
unfolding settlement_amount
settlement_amount-le r receipts attempts h = ground arith

-- The attempts of a reservation that no call has exposed: there are none.
abbrev pub Accounts : List ℕ → Reservation → Type 0
Accounts attempts r = is_some r.exposure_started_at ≡ false → attempts ≡ []

settlement_amount-unexposed :
    (r : Reservation) (receipts : List CallReceipt)
    → is_some r.exposure_started_at ≡ false
    → settlement_amount r receipts [] ≡ 0
unfolding settlement_amount
settlement_amount-unexposed r receipts h = ground arith

settlement_amount-committed :
    (r : Reservation) (receipts : List CallReceipt) (attempts : List ℕ) (t : ℕ)
    → is_reserved r.state ≡ true
    → ltb r.reserved_maximum (actual_cost receipts attempts) ≡ false
    → Accounts attempts r
    → settlement_amount r receipts attempts ≤ committed t r
unfolding committed
settlement_amount-committed r receipts attempts t open_row fits accounts =
    elim (Bool-cases (is_some r.exposure_started_at)) [
      | inl exposed ↦ ground (arith, settlement_amount-le r receipts attempts fits)
      | inr unexposed ↦
          rw (accounts unexposed)
            (rw (settlement_amount-unexposed r receipts unexposed) (omega arith))
    ]

close-committed_to :
    (budget t amount now : ℕ) (r : Reservation)
    → amount ≤ committed t r
    → committed_to budget t (close amount now r) ≤ committed_to budget t r
unfolding committed_to
close-committed_to budget t amount now r h = ground arith

-- Closing a row at no more than it has committed.
pub close_row-total :
    (budget owner id t amount now : ℕ) (rows : List Reservation) {r : Reservation}
    → Keyed ids rows
    → first (names_reservation owner id) rows ≡ some r
    → amount ≤ committed t r
    → total budget t (update (settleable owner id) (close amount now) rows) ≤ total budget t rows
close_row-total budget owner id t amount now rows {r} keyed found fits =
    sum_of-update-le_on (settleable owner id) (close amount now) (committed_to budget t) rows (
      All-map rows
        (λ x same_row open_row.
          subst (λ y. committed_to budget t (close amount now y) ≤ committed_to budget t y)
            (sym (same_row (ground arith))) (close-committed_to budget t amount now r fits))
        (All-key ids (names_reservation owner id) (names_reservation owner id) rows
          (λ x e. ground (arith, first-holds (names_reservation owner id) rows {x = r} found)) keyed
          found))

-- Settling never adds to what is committed to a budget, at any time, as long as an attempt was
-- made only after the exposure of the reservation.
pub settle-total :
    (budget owner id t now : ℕ) (attempts : List ℕ) (ledger : Ledger) {after : Ledger}
    → KeyedReservations ledger.reservations
    → ((r : Reservation) → find_reservation owner id ledger ≡ some r → Accounts attempts r)
    → settle owner id attempts now ledger ≡ some after
    → total budget t after.reservations ≤ total budget t ledger.reservations
unfolding settle settle_open
settle-total budget owner id t now attempts ledger {after} keyed accounts h =
    elim (Option-cases (find_reservation owner id ledger)) [
      | inl missing ↦ ground arith
      | inr (r, found) ↦ ground (
        arith,
        close_row-total budget owner id t
            (settlement_amount r (receipts_of owner id ledger) attempts) now ledger.reservations
            keyed found,
        settlement_amount-committed r (receipts_of owner id ledger) attempts t,
        accounts r found,
      )
    ]
