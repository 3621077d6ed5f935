-- ===== src/Usage/Timeline.antt =====
-- The ledger over time. Every operation of the API and of the workers on reservations is one step,
-- since it holds the lock of the budget or of the reservation until its transaction commits; the
-- clock moves on between them.
pub mod Totals
pub mod Bounded
use devfootnote_project.Base.{Bool, List, Option, is_some, some, true, ℕ, ◌≡◌, ◌≤◌}
use devfootnote_project.Usage.Answering.{
  TokenUsage, delete_answer_receipt, expose_answer, settle_answer,
}
use devfootnote_project.Usage.Budget.{
  Period, ReservationInput, ReservationResult, Supply, chosen_period, reserve_ai_budget, total,
}
use devfootnote_project.Usage.Cleanup.{
  Sweep, delete_audit, delete_expired_budgets, expire_unexposed, reserve_audit_cleanup,
  settle_expired_queries,
}
use devfootnote_project.Usage.Consents.{ok}
use devfootnote_project.Usage.Queries.{settle_query}
use devfootnote_project.Usage.Reservations.{find_reservation, mark_exposure, record_call, settle}
use devfootnote_project.Usage.Reservations.Settlement.{Accounts}
use devfootnote_project.Usage.Schema.{Ledger, Reservation}
use devfootnote_project.Usage.Soundness.{IsSound}

pub record Moment : Type 0 where
  pub now : ℕ
  pub ledger : Ledger

abbrev pub moment : ℕ → Ledger → Moment
moment now ledger = record { now = now; ledger = ledger }

module _ (utc_month : ℕ → Period) (budget limit : ℕ) where
  -- A step at which every admission to `budget` goes by a policy that allows at most `limit`. The
  -- reading of the clock that an operation decides by is not before the present.
  pub data Step (m : Moment) : Moment → Type 0 where
    waits : {t : ℕ} → m.now ≤ t → Step m (moment t m.ledger)
    admits :
        (input : ReservationInput) (supply : Supply) (result : ReservationResult) (after : Ledger)
        → m.now ≤ supply.after_lock
        → ((chosen_period utc_month input.policy supply.before_lock).budget_id ≡ budget
            → input.policy.budget_limit ≤ limit)
        → reserve_ai_budget utc_month input supply m.ledger ≡ some (result, after)
        → Step m (moment supply.after_lock after)
    exposes :
        (owner id : ℕ) {t : ℕ} → m.now ≤ t → Step m (moment t (mark_exposure owner id t m.ledger).1)
    records :
        (owner id attempt : ℕ) (tokens : Option ℕ) (after : Ledger)
        → record_call owner id attempt tokens m.ledger ≡ some after
        → Step m (moment m.now after)
    settles :
        (owner id : ℕ) (attempts : List ℕ) {t : ℕ} (after : Ledger)
        → m.now ≤ t
        → ((r : Reservation) → find_reservation owner id m.ledger ≡ some r → Accounts attempts r)
        → settle owner id attempts t m.ledger ≡ some after
        → Step m (moment t after)
    settles_query :
        (owner id : ℕ) (tokens : Option ℕ) {t : ℕ} (current : Bool) (after : Ledger)
        → m.now ≤ t
        → ((r : Reservation)
            → find_reservation owner id m.ledger ≡ some r
            → is_some r.exposure_started_at ≡ true)
        → settle_query owner id tokens t m.ledger ≡ ok (current, after)
        → Step m (moment t after)
    expires :
        (limit_rows : ℕ) (sweep : Sweep)
        → m.now ≤ sweep.written_at
        → Step m (moment sweep.written_at (expire_unexposed limit_rows sweep m.ledger).1)
    settles_lapsed :
        (limit_rows : ℕ) (sweep : Sweep)
        → m.now ≤ sweep.written_at
        → Step m (moment sweep.written_at (settle_expired_queries limit_rows sweep m.ledger).1)
    puts_off :
        (limit_rows : ℕ) (sweep : Sweep)
        → m.now ≤ sweep.written_at
        → Step m (moment sweep.written_at (reserve_audit_cleanup limit_rows sweep m.ledger).1)
    deletes_audit : (owner id : ℕ) → Step m (moment m.now (delete_audit owner id m.ledger))
    deletes_budgets :
        (limit_rows : ℕ) (locked : ℕ → Bool) {t : ℕ}
        → m.now ≤ t
        → Step m (moment t (delete_expired_budgets limit_rows locked t m.ledger).1)
    exposes_answer :
        (owner id : ℕ) {t : ℕ} → m.now ≤ t → Step m (moment t (expose_answer owner id t m.ledger).1)
    settles_answer :
        (owner id : ℕ) (usage : Option TokenUsage) {t : ℕ} (after : Ledger)
        → m.now ≤ t
        → settle_answer owner id usage t m.ledger ≡ some after
        → Step m (moment t after)
    drops_receipt :
        (owner id : ℕ) {t : ℕ}
        → m.now ≤ t
        → Step m (moment t (delete_answer_receipt owner id t m.ledger))

  pub data Reach (m : Moment) : Moment → Type 0 where
    here : Reach m m
    next : {n o : Moment} → Reach m n → Step n o → Reach m o

-- What holds of the ledger at every moment.
pub record IsBounded (budget limit : ℕ) (m : Moment) : Type 0 where
  pub sound : IsSound m.ledger.reservations
  pub bounded : total budget m.now m.ledger.reservations ≤ limit
