-- ===== src/Indexing/Runs.antt =====
-- A work, its material and its reservation, on which the service starts an attempt.
use mathlib.Core.Option
use devfootnote_project.Base.{[], arith, is_some, none, refl, some, true, ◌↔◌, ◌∷◌, ◌≡◌}
use devfootnote_project.Base.Table.{order_by}
use devfootnote_project.Indexing.Execution.{
  Database, Environment, close_work, fences, settle_completed, went_final, went_to_retry,
  with_fenced_work, with_locked_work, with_snapshot,
}
use devfootnote_project.Indexing.Execution.Calls.{
  begin_exposed, begin_work, fail_attempt, start_attempt,
}
use devfootnote_project.Indexing.Execution.Completion.{
  CallResult, closed, complete_attempt, complete_current, record_usage,
}
use devfootnote_project.Indexing.Execution.Consents.{
  MayGoOn, fences-MayGoOn, regrant-fences, revoke-fences,
}
use devfootnote_project.Indexing.Execution.Failures.{
  fail_attempt-IsConsistent, recover-IsConsistent,
}
use devfootnote_project.Indexing.Execution.Histories.{
  AllLast, History, History-AllLast, ServiceCall-Progresses, complete_call, no_calls, recover_call,
  start_call, then_call,
}
use devfootnote_project.Indexing.Execution.Outcomes.{start_attempt-IsConsistent}
use devfootnote_project.Indexing.Execution.Recovery.{is_pending, put_back, recover}
use devfootnote_project.Indexing.Execution.Results.{complete_attempt-IsConsistent}
use devfootnote_project.Indexing.Execution.Starts.{MayCall, start_attempt-MayCall}
use devfootnote_project.Indexing.Policy.{
  call_failed, failure_decision, fence_failure, holds_lease, retry_delay,
}
use devfootnote_project.Indexing.Samples.{
  consented, held_work, started_tables, surroundings, tables, works,
}
use devfootnote_project.Indexing.Schema.{insert_attempt, retryable_failed, timeout}
use devfootnote_project.Indexing.Works.{
  completed_reservation_attempts, finish, has_active_attempt, lock, locked_view, return_row,
  return_to_pending, start, start_row, to_retry_wait,
}
use devfootnote_project.Indexing.Works.Lives.{Progresses}
use devfootnote_project.Indexing.Works.Tracking.{IsConsistent, held_in, started_in}
use devfootnote_project.Materials.Current.{chunks_of, lock_current_intent}
use devfootnote_project.Usage.Consents.{ApprovedPolicy, grant, lock_row, ok, revoke}
use devfootnote_project.Usage.Reservations.{
  decimal, insert_receipt, is_price, lock_consent, lock_reservation, mark_exposure, record_call,
  record_cost, settle, settle_open, settlement_price,
}
use devfootnote_project.Usage.Schema.{Consent}

starting_call : start_attempt surroundings 1 77 tables tables ≡ some (some (500, 1), started_tables)
unfolding start_attempt with_fenced_work with_snapshot lock with_locked_work holds_lease
    fence_failure lock_consent lock_current_intent lock_reservation begin_work start insert_attempt
    begin_exposed mark_exposure settle_completed completed_reservation_attempts
starting_call = refl

start_attempt-MayCall_example : MayCall surroundings 1 77 tables (500, 1) started_tables
start_attempt-MayCall_example =
    start_attempt-MayCall surroundings 1 77 tables tables (500, 1) started_tables starting_call

works-IsConsistent : IsConsistent works
unfolding started_in held_in
works-IsConsistent = record {
  keyed = (refl, tt);
  checked = (refl, tt);
  tracked = (record { count = refl; held = refl; numbers = tt }, tt);
}

start_attempt-IsConsistent_example : IsConsistent started_tables.index
start_attempt-IsConsistent_example =
    start_attempt-IsConsistent surroundings 1 77 tables tables (some (500, 1)) started_tables
      starting_call works-IsConsistent

started-IsConsistent : IsConsistent started_tables.index
started-IsConsistent =
    start_attempt-IsConsistent surroundings 1 77 tables tables (some (500, 1)) started_tables
      starting_call works-IsConsistent

-- The call times out.
abbrev failed_tables : Database
failed_tables = record started_tables {
  index =
      (finish (locked_view 21 (start_row held_work))
        (to_retry_wait (call_failed timeout) retryable_failed 0) true 22 started_tables.index).1;
}

failing_call :
    fail_attempt surroundings 1 77 500 timeout true started_tables started_tables
    ≡ some (went_to_retry, failed_tables)
unfolding fail_attempt with_fenced_work with_snapshot lock with_locked_work holds_lease
    has_active_attempt fence_failure lock_consent lock_current_intent lock_reservation close_work
    finish failure_decision retry_delay settle_completed completed_reservation_attempts
failing_call = refl

fail_attempt-IsConsistent_example : IsConsistent failed_tables.index
fail_attempt-IsConsistent_example =
    fail_attempt-IsConsistent surroundings 1 77 500 timeout true started_tables started_tables
      went_to_retry failed_tables failing_call started-IsConsistent

-- After the lease and before the end of the reservation.
abbrev later : Environment
later = record surroundings { reservation_at = 60011; locked_at = 60011; written_at = 60011 }

abbrev recovered_tables : Database
recovered_tables = record tables { index = record works { works = return_row held_work ∷ [] } }

recovering : recover later 1 tables tables ≡ some (is_pending, recovered_tables)
unfolding recover with_fenced_work with_snapshot lock with_locked_work fence_failure lock_consent
    lock_current_intent lock_reservation put_back return_to_pending settle_completed
    completed_reservation_attempts
recovering = refl

recover-IsConsistent_example : IsConsistent recovered_tables.index
recover-IsConsistent_example =
    recover-IsConsistent later 1 tables tables is_pending recovered_tables recovering
      works-IsConsistent

-- A result without vectors: the attempt fails finally, and the reservation of its last work is
-- settled.
abbrev no_vectors : CallResult
no_vectors = record { config_fingerprint = 7; vectors = []; tokens = none }

abbrev completed_tables : Database
completed_tables =
    elim (complete_attempt (λ n. true) (λ n. true) surroundings 1 77 500 no_vectors started_tables
      started_tables) [ none ↦ tables | some (c, after) ↦ after ]

completing :
    complete_attempt
      (λ n. true)
      (λ n. true)
      surroundings
      1
      77
      500
      no_vectors
      started_tables
      started_tables
    ≡ some (closed went_final, completed_tables)
unfolding complete_attempt with_fenced_work with_snapshot lock with_locked_work holds_lease
    has_active_attempt fence_failure lock_consent lock_current_intent lock_reservation record_usage
    record_call settlement_price is_price record_cost decimal insert_receipt complete_current
    chunks_of close_work finish failure_decision settle_completed completed_reservation_attempts
    settle settle_open Option.bind order_by
completing = refl

complete_attempt-IsConsistent_example : IsConsistent completed_tables.index
complete_attempt-IsConsistent_example =
    complete_attempt-IsConsistent (λ n. true) (λ n. true) surroundings 1 77 500 no_vectors
      started_tables started_tables (closed went_final) completed_tables completing
      started-IsConsistent

fences-MayGoOn_example :
    (fences surroundings 7 held_work held_work tables ≡ none)
    ↔ MayGoOn surroundings 7 held_work held_work tables
fences-MayGoOn_example = fences-MayGoOn surroundings 7 held_work held_work tables

abbrev revoked_row : Consent
revoked_row = record consented { epoch = 2; revoked_at = some 6 }

revoking : revoke 1 1 6 (consented ∷ []) ≡ ok (2, revoked_row ∷ [])
unfolding revoke lock_row
revoking = refl

abbrev revoked_tables : Database
revoked_tables = record tables { ledger = record tables.ledger { consents = revoked_row ∷ [] } }

revoke-fences_example : is_some (fences surroundings 7 held_work held_work revoked_tables) ≡ true
revoke-fences_example =
    revoke-fences 1 1 6 (consented ∷ []) 2 (revoked_row ∷ []) revoking surroundings 7 held_work
      held_work revoked_tables refl refl

abbrev approved : ApprovedPolicy
approved = record { fingerprint = 7; policy_version = 1 }

abbrev regranted_row : Consent
regranted_row = record consented { epoch = 3; granted_at = some 8 }

regranting : grant 1 2 approved 8 (revoked_row ∷ []) ≡ ok (3, regranted_row ∷ [])
unfolding grant lock_row
regranting = refl

abbrev regranted_tables : Database
regranted_tables = record tables { ledger = record tables.ledger { consents = regranted_row ∷ [] } }

regrant-fences_example : is_some (fences surroundings 7 held_work held_work regranted_tables) ≡ true
regrant-fences_example =
    regrant-fences 1 1 6 (consented ∷ []) 2 (revoked_row ∷ []) revoking 2 8 approved 3
      (regranted_row ∷ []) regranting surroundings 7 held_work held_work regranted_tables refl refl
      (omega arith)

-- The attempt is started and ends.
history : History (λ n. true) (λ n. true) tables completed_tables
history =
    then_call started_tables completed_tables
      (then_call tables started_tables no_calls
        (start_call surroundings 1 77 tables (some (500, 1)) started_tables starting_call))
      (complete_call surroundings 1 77 500 no_vectors started_tables (closed went_final)
        completed_tables completing)

ServiceCall-Progresses_example : Progresses tables.index.works recovered_tables.index.works
ServiceCall-Progresses_example =
    ServiceCall-Progresses (λ n. true) (λ n. true) tables recovered_tables
      (recover_call later 1 tables is_pending recovered_tables recovering)

History-AllLast_example : AllLast tables.index.works completed_tables.index.works
History-AllLast_example = History-AllLast (λ n. true) (λ n. true) tables completed_tables history
