-- ===== src/Usage/Answering/Steps.antt =====
-- The operations on an answer's reservation keep the rows within the constraints, and raise the
-- total of no budget.
use native.Mathlib.Nat.{le_refl}
use devfootnote_project.Base.{
  Bool-cases, List, Option, Option-cases, arith, false, inl, inr, refl, same, some, subst, sym,
  true, ℕ, ◌≡◌, ◌≤◌, ◌⊎◌,
}
use devfootnote_project.Base.Keys.{All-key, Keyed-update}
use devfootnote_project.Base.Table.{
  All, All-map, All-update_on, first, first-holds, sum_of-delete-le, sum_of-update-le,
  sum_of-update-le_on, update,
}
use devfootnote_project.Usage.Answering.{
  Charge, TokenUsage, charge, close_answer, delete_answer_receipt, exposable_answer, expose_again,
  expose_answer, find_answer_reservation, lapsed_receipt, names_answer, settle_answer,
}
use devfootnote_project.Usage.Answering.Settled.{charge-le, close_answer-check}
use devfootnote_project.Usage.Budget.{committed_to, total}
use devfootnote_project.Usage.Reservations.{settleable}
use devfootnote_project.Usage.Reservations.Settlement.{KeyedReservations, ids}
use devfootnote_project.Usage.Schema.{
  Ledger, Reservation, is_reserved, reservation_bounds_check, reservation_check,
}
use devfootnote_project.Usage.Soundness.{IsSound, IsSound-delete, IsSound-update}

-- The rows that a settlement closes are the one row that it has locked.
settleable-row :
    (owner id : ℕ) (rows : List Reservation) {r : Reservation}
    → KeyedReservations rows
    → first (names_answer owner id) rows ≡ some r
    → All (λ x. settleable owner id x ≡ true → x ≡ r) rows
settleable-row owner id rows {r} keyed found =
    All-key ids (names_answer owner id) (settleable owner id) rows
      (λ x e. ground (arith, first-holds (names_answer owner id) rows {x = r} found)) keyed found

close_answer-committed_to :
    (usage : Option TokenUsage) (budget now : ℕ) (r : Reservation) (c : Charge)
    → charge usage r ≡ some c
    → is_reserved r.state ≡ true
    → committed_to budget now (close_answer c now r r) ≤ committed_to budget now r
unfolding committed_to
close_answer-committed_to usage budget now r c e waiting = ground (arith, charge-le usage r e)

-- What the settlement leaves: the ledger, or one row closed.
pub settle_answer-cases :
    (owner id : ℕ) (usage : Option TokenUsage) (now : ℕ) (ledger : Ledger) {after : Ledger}
    → settle_answer owner id usage now ledger ≡ some after
    → ((after ≡ ledger)
        × ((r : Reservation)
            → find_answer_reservation owner id ledger ≡ some r
            → is_reserved r.state ≡ false))
      ⊎ ((r : Reservation) × (c : Charge) × (find_answer_reservation owner id ledger ≡ some r)
          × (is_reserved r.state ≡ true)
          × (charge usage r ≡ some c)
          × (after.reservations
              ≡ update (settleable owner id) (close_answer c now r) ledger.reservations))
unfolding settle_answer
settle_answer-cases owner id usage now ledger {after} e =
    elim (Option-cases (find_answer_reservation owner id ledger)) [
      | inl missing ↦ inl (ground arith, λ r found. absurd (ground arith))
      | inr (r, found) ↦ elim (Bool-cases (is_reserved r.state)) [
        | inr closed ↦ inl (
          ground arith,
          λ x found_x.
              let eq : r ≡ x = ground arith in subst (λ y. is_reserved y.state ≡ false) eq closed,
        )
        | inl waiting ↦ elim (Option-cases (charge usage r)) [
          | inl broken_price ↦ absurd (ground arith)
          | inr (c, e_c) ↦ inr (r, c, found, waiting, e_c, ground arith)
        ]
      ]
    ]

pub settle_answer-IsSound :
    (owner id : ℕ) (usage : Option TokenUsage) (now : ℕ) (ledger : Ledger) {after : Ledger}
    → settle_answer owner id usage now ledger ≡ some after
    → IsSound ledger.reservations
    → IsSound after.reservations
settle_answer-IsSound owner id usage now ledger {after} e s =
    elim (settle_answer-cases owner id usage now ledger e) [
      | inl (same, _) ↦ subst (λ (l : Ledger). IsSound l.reservations) (sym same) s
      | inr (r, c, found, waiting, e_c, eq) ↦ subst IsSound (sym eq) (record {
        keyed =
            Keyed-update ids (settleable owner id) (close_answer c now r) ledger.reservations
              (λ x. refl) s.keyed;
        checked =
            All-update_on (λ x. reservation_check x ≡ true) (settleable owner id)
              (close_answer c now r) ledger.reservations
              (All-map ledger.reservations
                (λ x same_row open_row checked.
                  let eq_x : x ≡ r = same_row open_row in
                  subst (λ y. reservation_check (close_answer c now r y) ≡ true) (sym eq_x)
                    (close_answer-check usage r c now e_c
                      (subst (λ y. reservation_bounds_check y ≡ true) eq_x (ground arith))))
                (settleable-row owner id ledger.reservations s.keyed found))
              s.checked;
      })
    ]

pub settle_answer-total :
    (budget owner id : ℕ) (usage : Option TokenUsage) (now : ℕ) (ledger : Ledger) {after : Ledger}
    → settle_answer owner id usage now ledger ≡ some after
    → IsSound ledger.reservations
    → total budget now after.reservations ≤ total budget now ledger.reservations
settle_answer-total budget owner id usage now ledger {after} e s =
    elim (settle_answer-cases owner id usage now ledger e) [
      | inl (same, _) ↦
          subst
            (λ (l : Ledger). total budget now l.reservations ≤ total budget now ledger.reservations)
            (sym same) (le_refl _)
      | inr (r, c, found, waiting, e_c, eq) ↦
          subst (λ rows. total budget now rows ≤ total budget now ledger.reservations) (sym eq)
            (sum_of-update-le_on (settleable owner id) (close_answer c now r)
              (committed_to budget now) ledger.reservations
              (All-map ledger.reservations
                (λ x same_row open_row.
                  subst
                    (λ y.
                      committed_to budget now (close_answer c now r y) ≤ committed_to budget now y)
                    (sym (same_row open_row))
                    (close_answer-committed_to usage budget now r c e_c waiting))
                (settleable-row owner id ledger.reservations s.keyed found)))
    ]

pub expose_answer-IsSound :
    (owner id now : ℕ) (ledger : Ledger)
    → IsSound ledger.reservations
    → IsSound (expose_answer owner id now ledger).1.reservations
unfolding expose_answer
expose_answer-IsSound owner id now ledger s =
    IsSound-update (exposable_answer owner id now) (expose_again now) ledger.reservations
      (λ r. refl) (λ r p c. c) s

expose_again-committed_to :
    (budget owner id now : ℕ) (r : Reservation)
    → exposable_answer owner id now r ≡ true
    → committed_to budget now (expose_again now r) ≤ committed_to budget now r
unfolding committed_to
expose_again-committed_to budget owner id now r h = ground arith

pub expose_answer-total :
    (budget owner id now : ℕ) (ledger : Ledger)
    → total budget now (expose_answer owner id now ledger).1.reservations
      ≤ total budget now ledger.reservations
unfolding expose_answer
expose_answer-total budget owner id now ledger =
    sum_of-update-le _ _ _ ledger.reservations (expose_again-committed_to budget owner id now)

pub delete_answer_receipt-IsSound :
    (owner id now : ℕ) (ledger : Ledger)
    → IsSound ledger.reservations
    → IsSound (delete_answer_receipt owner id now ledger).reservations
unfolding delete_answer_receipt
delete_answer_receipt-IsSound owner id now ledger s =
    IsSound-delete (lapsed_receipt owner id now) ledger.reservations s

pub delete_answer_receipt-total :
    (budget owner id now : ℕ) (ledger : Ledger)
    → total budget now (delete_answer_receipt owner id now ledger).reservations
      ≤ total budget now ledger.reservations
unfolding delete_answer_receipt
delete_answer_receipt-total budget owner id now ledger =
    sum_of-delete-le (lapsed_receipt owner id now) (committed_to budget now) ledger.reservations
