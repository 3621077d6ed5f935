-- ===== src/Usage/Timeline/Totals.antt =====
-- What each operation does to the total that a budget is committed to.
use native.Mathlib.Decide.{ℕ_discrete}
use native.Mathlib.Nat.{le_trans}
use devfootnote_project.Base.{
  Bool, List, Option, Option-cases, arith, inl, inr, is_some, refl, some, subst, true, ℕ, ◌+◌, ◌∙◌,
  ◌∷◌, ◌≡◌, ◌≤◌,
}
use devfootnote_project.Base.Table.{sum_of-delete-le, sum_of-update-le}
use devfootnote_project.Usage.Budget.{
  Period, ReservationInput, ReservationResult, Supply, accepted, chosen_period, committed,
  committed_to, new_reservation, refused, reserve_ai_budget, total,
}
use devfootnote_project.Usage.Budget.Bounds.{Leaves, reserve_ai_budget-Leaves, total-antitone}
use devfootnote_project.Usage.Cleanup.{
  Sweep, delete_audit, delete_expired_budgets, expire_row, expire_unexposed, lapsed_query,
  reserve_audit_cleanup, scan_interval, settle_expired_queries, settle_row,
}
use devfootnote_project.Usage.Consents.{ok}
use devfootnote_project.Usage.Queries.{query_amount, settle_query, settle_query_at}
use devfootnote_project.Usage.Reservations.{
  find_reservation, names_reservation, record_call, record_cost, settlement_price,
}
use devfootnote_project.Usage.Reservations.Settlement.{close_row-total}
use devfootnote_project.Usage.Schema.{Ledger, Reservation, is_reserved}
use devfootnote_project.Usage.Soundness.{IsSound, close_row-IsSound, insert_reservation-IsSound}

pub total-cons :
    (budget now : ℕ) (r : Reservation) (rows : List Reservation)
    → (r.budget_id ≡ budget → ⊥)
    → total budget now (r ∷ rows) ≡ total budget now rows
unfolding committed_to
total-cons budget now r rows h = ground arith

pub reserve-bounded :
    (utc_month : ℕ → Period) (input : ReservationInput) (supply : Supply) (ledger : Ledger)
    (budget limit now : ℕ) (result : ReservationResult) (after : Ledger)
    → now ≤ supply.after_lock
    → ((chosen_period utc_month input.policy supply.before_lock).budget_id ≡ budget
        → input.policy.budget_limit ≤ limit)
    → reserve_ai_budget utc_month input supply ledger ≡ some (result, after)
    → total budget now ledger.reservations ≤ limit
    → total budget supply.after_lock after.reservations ≤ limit
unfolding new_reservation
reserve-bounded utc_month input supply ledger budget limit now (accepted id) after later small h
      bound =
    elim (ℕ_discrete period.budget_id budget) [
      | yes same_budget ↦
          subst (λ b. total b supply.after_lock after.reservations ≤ limit) same_budget
            (le_trans (leaves.2).in_budget (small same_budget))
      | no different ↦
          rw
            (
              leaves.1,
              total-cons budget supply.after_lock (new_reservation input period supply)
                  ledger.reservations (λ e. different (new_budget ∙ e)),
            )
            (le_trans (total-antitone budget ledger.reservations later) bound)
    ]
  where
    period : Period
    period = chosen_period utc_month input.policy supply.before_lock

    leaves : Leaves input period supply ledger.reservations (accepted id, after)
    leaves = reserve_ai_budget-Leaves utc_month input supply ledger (accepted id) after h

    new_budget : period.budget_id ≡ (new_reservation input period supply).budget_id
    new_budget = refl
reserve-bounded utc_month input supply ledger budget limit now (refused why) after later small h
      bound =
    rw (reserve_ai_budget-Leaves utc_month input supply ledger (refused why) after h)
      (le_trans (total-antitone budget ledger.reservations later) bound)

-- The effect of the sweeps on the total at the time that they write.
pub expire_row-committed_to :
    (budget now : ℕ) (r : Reservation)
    → committed_to budget now (expire_row now r) ≤ committed_to budget now r
unfolding committed_to
expire_row-committed_to budget now r = ground arith

pub settle_row-committed_to :
    (budget now : ℕ) (r : Reservation)
    → lapsed_query now r ≡ true
    → committed_to budget now (settle_row now r) ≤ committed_to budget now r
unfolding committed_to
settle_row-committed_to budget now r h = ground arith

pub put_off-committed_to :
    (budget now t : ℕ) (r : Reservation)
    → committed_to budget now (record r { cleanup_after = t }) ≤ committed_to budget now r
unfolding committed_to
put_off-committed_to budget now t r = ground arith

pub expire_unexposed-total :
    (budget limit : ℕ) (sweep : Sweep) (ledger : Ledger)
    → total budget sweep.written_at (expire_unexposed limit sweep ledger).1.reservations
      ≤ total budget sweep.written_at ledger.reservations
unfolding expire_unexposed
expire_unexposed-total budget limit sweep ledger =
    sum_of-update-le _ _ _ ledger.reservations
      (λ r p. expire_row-committed_to budget sweep.written_at r)

pub settle_expired_queries-total :
    (budget limit : ℕ) (sweep : Sweep) (ledger : Ledger)
    → total budget sweep.written_at (settle_expired_queries limit sweep ledger).1.reservations
      ≤ total budget sweep.written_at ledger.reservations
unfolding settle_expired_queries
settle_expired_queries-total budget limit sweep ledger =
    sum_of-update-le _ _ _ ledger.reservations
      (λ r p. settle_row-committed_to budget sweep.written_at r (ground arith))

pub reserve_audit_cleanup-total :
    (budget limit t : ℕ) (sweep : Sweep) (ledger : Ledger)
    → total budget t (reserve_audit_cleanup limit sweep ledger).1.reservations
      ≤ total budget t ledger.reservations
unfolding reserve_audit_cleanup
reserve_audit_cleanup-total budget limit t sweep ledger =
    sum_of-update-le _ _ _ ledger.reservations
      (λ r p. put_off-committed_to budget t (sweep.written_at + scan_interval) r)

pub delete_audit-total :
    (budget owner id t : ℕ) (ledger : Ledger)
    → total budget t (delete_audit owner id ledger).reservations
      ≤ total budget t ledger.reservations
unfolding delete_audit
delete_audit-total budget owner id t ledger =
    sum_of-delete-le (names_reservation owner id) (committed_to budget t) ledger.reservations

pub record_call-reservations :
    (owner id attempt : ℕ) (tokens : Option ℕ) (ledger : Ledger) {after : Ledger}
    → record_call owner id attempt tokens ledger ≡ some after
    → after.reservations ≡ ledger.reservations
unfolding record_call record_cost
record_call-reservations owner id attempt tokens ledger h = ground arith

pub delete_expired_budgets-reservations :
    (limit : ℕ) (locked : ℕ → Bool) (now : ℕ) (ledger : Ledger)
    → (delete_expired_budgets limit locked now ledger).1.reservations ≡ ledger.reservations
unfolding delete_expired_budgets
delete_expired_budgets-reservations limit locked now ledger = refl

pub reserve-IsSound :
    (utc_month : ℕ → Period) (input : ReservationInput) (supply : Supply) (ledger : Ledger)
    (result : ReservationResult) (after : Ledger)
    → reserve_ai_budget utc_month input supply ledger ≡ some (result, after)
    → IsSound ledger.reservations
    → IsSound after.reservations
reserve-IsSound utc_month input supply ledger (accepted id) after h s =
    insert_reservation-IsSound _ ledger.reservations
      (reserve_ai_budget-Leaves utc_month input supply ledger (accepted id) after h).5 s
reserve-IsSound utc_month input supply ledger (refused why) after h s =
    rw (reserve_ai_budget-Leaves utc_month input supply ledger (refused why) after h) s

pub exposed-committed :
    (r : Reservation) (t : ℕ)
    → is_reserved r.state ≡ true
    → is_some r.exposure_started_at ≡ true
    → committed t r ≡ r.reserved_maximum
unfolding committed
exposed-committed r t h e = ground arith

pub settle_query-step :
    (budget owner id t : ℕ) (tokens : Option ℕ) (ledger : Ledger) {current : Bool} {after : Ledger}
    → ((r : Reservation)
        → find_reservation owner id ledger ≡ some r
        → is_some r.exposure_started_at ≡ true)
    → settle_query owner id tokens t ledger ≡ ok (current, after)
    → IsSound ledger.reservations
    → IsSound after.reservations
      × (total budget t after.reservations ≤ total budget t ledger.reservations)
unfolding settle_query settle_query_at
settle_query-step budget owner id t tokens ledger {current} {after} exposed h s =
    elim (Option-cases (find_reservation owner id ledger)) [
      | inl missing ↦ absurd (ground arith)
      | inr (r, found) ↦ elim (Option-cases (settlement_price r.pricing_snapshot)) [
        | inl no_price ↦ ground arith
        | inr (price, priced_at) ↦ ground (
          arith,
          exposed r found,
          exposed-committed r t,
          close_row-total budget owner id t (query_amount r price tokens) t ledger.reservations
              s.keyed found,
          close_row-IsSound owner id (query_amount r price tokens) t ledger.reservations found,
        )
      ]
    ]
