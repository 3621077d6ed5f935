-- ===== src/Usage/Budget/Bounds.antt =====
-- What an admitted reservation leaves of its budget.
use devfootnote_project.Base.{
  List, Option, Option-cases, arith, inl, inr, none, some, ℕ, ◌<◌, ◌==◌, ◌∷◌, ◌≡◌, ◌≤◌,
}
use devfootnote_project.Base.Table.{first, sum_of_mono}
use devfootnote_project.Usage.Budget.{
  Period, ReservationInput, ReservationResult, Supply, accepted, admit, check_budget, chosen_period,
  committed, committed_for, committed_to, insert_budget, lower_limit, new_reservation,
  purpose_total, refused, reserve_ai_budget, total,
}
use devfootnote_project.Usage.Schema.{
  Budget, Ledger, Reservation, insert_reservation, insert_reservation-cons,
}

-- Time only frees an amount that no call has exposed.
pub committed-antitone :
    (r : Reservation) {now later : ℕ} → now ≤ later → committed later r ≤ committed now r
unfolding committed
committed-antitone r h = ground arith

pub committed_to-antitone :
    (budget : ℕ) (r : Reservation) {now later : ℕ}
    → now ≤ later
    → committed_to budget later r ≤ committed_to budget now r
unfolding committed_to
committed_to-antitone budget r h = ground (arith, committed-antitone r h)

pub total-antitone :
    (budget : ℕ) (rows : List Reservation) {now later : ℕ}
    → now ≤ later
    → total budget later rows ≤ total budget now rows
total-antitone budget rows h = sum_of_mono _ _ rows (λ r. committed_to-antitone budget r h)

-- A new row takes up at most its maximum.
committed_to-new :
    (input : ReservationInput) (period : Period) (supply : Supply) (budget now : ℕ)
    → committed_to budget now (new_reservation input period supply) ≤ input.amount
unfolding committed_to new_reservation
committed_to-new input period supply budget now = ground arith

committed_for-new :
    (input : ReservationInput) (period : Period) (supply : Supply) (budget now : ℕ)
    → committed_for input.purpose budget now (new_reservation input period supply) ≤ input.amount
unfolding committed_for
committed_for-new input period supply budget now =
    ground (arith, committed_to-new input period supply budget now)

abbrev pub WithinPurpose : Option ℕ → ℕ → Type 0
WithinPurpose none sum = Unit
WithinPurpose (some limit) sum = sum ≤ limit

-- What an admission has established of the budget at the time of its lock.
pub record IsWithin (input : ReservationInput) (period : Period) (now : ℕ) (rows : List Reservation)
    : Type 0 where
  pub in_budget : total period.budget_id now rows ≤ input.policy.budget_limit
  pub in_purpose :
      WithinPurpose input.policy.purpose_budget_limit
        (purpose_total input.purpose period.budget_id now rows)

admit-IsWithin :
    (input : ReservationInput) (period : Period) (supply : Supply) (ledger : Ledger) {id : ℕ}
    {after : Ledger}
    → admit input period supply ledger ≡ some (accepted id, after)
    → IsWithin input period supply.after_lock after.reservations
unfolding admit
admit-IsWithin input period supply ledger {after = after} h = ground (
  arith,
  insert_reservation-cons (new_reservation input period supply) ledger.reservations
      {after = after.reservations},
  committed_to-new input period supply period.budget_id supply.after_lock,
  committed_for-new input period supply period.budget_id supply.after_lock,
)

lower_limit-reservations :
    (limit : ℕ) (period : Period) (budget : Budget) (ledger : Ledger)
    → (lower_limit limit period budget ledger).reservations ≡ ledger.reservations
unfolding lower_limit
lower_limit-reservations limit period budget ledger = ground arith

-- What a call has done to the reservations, by its answer.
abbrev pub Leaves :
    ReservationInput → Period → Supply → List Reservation → ReservationResult × Ledger → Type 0
Leaves input period supply rows (accepted id, after) =
    (id ≡ supply.uuid)
    × (after.reservations ≡ new_reservation input period supply ∷ rows)
    × IsWithin input period supply.after_lock after.reservations
    × (period.period_start ≤ supply.after_lock)
    × (supply.after_lock < period.period_end)
    × (insert_reservation (new_reservation input period supply) rows ≡ some after.reservations)
Leaves input period supply rows (refused why, after) = after.reservations ≡ rows

admit-Leaves :
    (input : ReservationInput) (period : Period) (supply : Supply) (ledger : Ledger)
    (result : ReservationResult) (after : Ledger)
    → admit input period supply ledger ≡ some (result, after)
    → Leaves input period supply ledger.reservations (result, after)
unfolding admit
admit-Leaves input period supply ledger (accepted id) after h = ground (
  arith,
  admit-IsWithin input period supply ledger {id = id} {after = after} h,
  insert_reservation-cons (new_reservation input period supply) ledger.reservations
      {after = after.reservations},
)
admit-Leaves input period supply ledger (refused why) after h = ground arith

check_budget-Leaves :
    (input : ReservationInput) (period : Period) (supply : Supply) (ledger : Ledger)
    (result : ReservationResult) (after : Ledger)
    → check_budget input period supply ledger ≡ some (result, after)
    → Leaves input period supply ledger.reservations (result, after)
unfolding check_budget
check_budget-Leaves input period supply ledger (accepted id) after h =
    elim (Option-cases (first (λ b. b.id == period.budget_id) ledger.budgets)) [
      | inl missing ↦ ground arith
      | inr (b, found) ↦ ground (
        arith,
        admit-Leaves input period supply (lower_limit input.policy.budget_limit period b ledger)
            (accepted id) after,
        lower_limit-reservations input.policy.budget_limit period b ledger,
      )
    ]
check_budget-Leaves input period supply ledger (refused why) after h =
    elim (Option-cases (first (λ b. b.id == period.budget_id) ledger.budgets)) [
      | inl missing ↦ ground arith
      | inr (b, found) ↦ ground (
        arith,
        admit-Leaves input period supply (lower_limit input.policy.budget_limit period b ledger)
            (refused why) after,
        lower_limit-reservations input.policy.budget_limit period b ledger,
      )
    ]

-- An accepted request leaves its row, under the fresh UUID, in front of the rows there were; at the
-- time read after the lock the amounts committed to the budget and to the purpose are within the
-- limits of the policy, and that time lies in the budget's period. A refused one leaves the rows.
pub reserve_ai_budget-Leaves :
    (utc_month : ℕ → Period) (input : ReservationInput) (supply : Supply) (ledger : Ledger)
    (result : ReservationResult) (after : Ledger)
    → reserve_ai_budget utc_month input supply ledger ≡ some (result, after)
    → Leaves input
        (chosen_period utc_month input.policy supply.before_lock)
        supply
        ledger.reservations
        (result, after)
unfolding reserve_ai_budget
reserve_ai_budget-Leaves utc_month input supply ledger result after h =
    elim (Option-cases (insert_budget input.policy period ledger.budgets)) [
      | inl missing ↦ absurd (ground arith)
      | inr (rows, found) ↦
          check_budget-Leaves input period supply (record ledger { budgets = rows }) result after
            (ground arith)
    ]
  where
    period : Period
    period = chosen_period utc_month input.policy supply.before_lock
