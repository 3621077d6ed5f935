-- ===== src/Answers/Runs.antt =====
-- The service on the sample request.
use mathlib.Core.Option
use devfootnote_project.Answers.Completion.{candidate, complete_answer, complete_locked}
use devfootnote_project.Answers.Completion.Published.{MayPublish, complete_answer-MayPublish}
use devfootnote_project.Answers.Execution.{
  Call, begin_call, call_locked, call_parts, callable, finish_and_settle, settle_request,
  start_answer, start_locked,
}
use devfootnote_project.Answers.Execution.Granted.{MayCall, start_answer-MayCall}
use devfootnote_project.Answers.Execution.Once.{start_answer-once}
use devfootnote_project.Answers.Fences.{Tables, fences, lock_answer_consent, set_target, targets_of}
use devfootnote_project.Answers.Requests.{
  Ending, find_attempt, finish, lock, read, record_start, start,
}
use devfootnote_project.Answers.Requests.Attempts.{IsConsistent}
use devfootnote_project.Answers.Requests.Changes.{starts, then_one, unchanged}
use devfootnote_project.Answers.Requests.Endings.{tables_finished}
use devfootnote_project.Answers.Requests.History.{Keeps-Follows, and_then, from_start}
use devfootnote_project.Answers.Requests.Order.{Follows}
use devfootnote_project.Answers.Requests.Receipts.{Changes-IsConsistent}
use devfootnote_project.Answers.Safety.{has_markup, is_safe_answer_claim, starts_markup}
use devfootnote_project.Answers.Samples.{
  answer_reservation, answer_tables, clock_at, first_call, good_candidate, good_claim,
  running_tables, waiting, waiting_row, worker,
}
use devfootnote_project.Answers.Scanner.{Turn, process, sweep}
use devfootnote_project.Answers.Scanner.Expiry.{HasEnded, process-HasEnded}
use devfootnote_project.Answers.Scanner.Sweeps.{sweep-IsConsistent}
use devfootnote_project.Answers.Schema.{
  held, insert_attempt, names_request, published, running, succeeded, update_requests,
}
use devfootnote_project.Answers.View.{AnswerView, find_request, judge, read_answer, show_answer}
use devfootnote_project.Answers.View.Shown.{Shows, read_answer-Shows}
use devfootnote_project.Base.{
  Bool-cases, Option, [], arith, false, inl, inr, length, none, refl, some, true, ◌∷◌, ◌≡◌, ◌⊎◌,
}
use devfootnote_project.Base.Table.{order_by}
use devfootnote_project.Materials.Current.{chunks_of, lock_answer_evidence, lock_targets}
use devfootnote_project.Materials.Evidence.{lock_embedding_intents, lock_evidence}
use devfootnote_project.Usage.Answering.{
  Charge, actual_amount, big_int, charge, close_answer, expose_again, expose_answer,
  lock_answer_reservation, pricing_of, settle_answer,
}
use devfootnote_project.Usage.Consents.{lock_row}
use devfootnote_project.Usage.Reservations.{decimal}

waiting-IsConsistent : IsConsistent waiting
waiting-IsConsistent = record {
  distinct = (refl, tt);
  agrees = λ owner id. elim (Bool-cases (names_request owner id waiting_row)) [
    | inl named ↦ rw named refl
    | inr other_row ↦ rw other_row refl
  ];
}

calling :
    start_answer worker 1 2 500 (waiting_row ∷ []) (clock_at 20) answer_tables
    ≡ some (some first_call, running_tables)
unfolding start_answer read lock start_locked fences lock_answer_consent lock_answer_evidence
    lock_targets order_by targets_of set_target chunks_of Option.bind lock_answer_reservation
    call_locked callable call_parts begin_call record_start start insert_attempt update_requests
    expose_answer
calling = refl

start_answer-MayCall_example :
    MayCall worker 1 2 500 (waiting_row ∷ []) (clock_at 20) answer_tables first_call running_tables
start_answer-MayCall_example =
    start_answer-MayCall worker 1 2 500 (waiting_row ∷ []) (clock_at 20) answer_tables (refl, tt)
      calling

-- The second run finds the request running.
not_calling :
    start_answer worker 1 2 501 (waiting_row ∷ []) (clock_at 30) running_tables
    ≡ some (none, running_tables)
unfolding start_answer read lock start_locked fences lock_answer_consent lock_answer_evidence
    lock_targets order_by targets_of set_target chunks_of Option.bind lock_answer_reservation
    call_locked callable call_parts begin_call record_start start insert_attempt update_requests
    expose_answer
not_calling = refl

abbrev no_call : Option Call
no_call = none

starting : start 1 2 500 20 waiting ≡ some (true, running_tables.answers)
unfolding start record_start insert_attempt update_requests
starting = refl

start_answer-once_example : no_call ≡ none
start_answer-once_example =
    start_answer-once worker worker 1 2 500 501 (waiting_row ∷ []) (waiting_row ∷ []) (clock_at 20)
      (clock_at 30) answer_tables running_tables waiting-IsConsistent calling from_start not_calling

abbrev published_ending : Ending
published_ending = record {
  state = published;
  failure = none;
  claims = some (good_claim ∷ []);
  outcome = succeeded;
}

abbrev published_charge : Charge
published_charge = record { amount = 550; accepted = some (100, 10) }

abbrev published_tables : Tables
published_tables = record running_tables {
  answers = tables_finished 1 2 published_ending 40 40 running_tables.answers;
  ledger = record answer_tables.ledger {
    reservations =
        close_answer published_charge 40 (expose_again 20 answer_reservation)
          (expose_again 20 answer_reservation)
        ∷ [];
  };
}

publishing :
    complete_answer worker 1 2 500
      (candidate good_candidate)
      running_tables.answers.requests
      (clock_at 40)
      running_tables
    ≡ some published_tables
unfolding complete_answer read lock complete_locked fences lock_answer_consent lock_answer_evidence
    lock_targets order_by targets_of set_target chunks_of Option.bind lock_answer_reservation
    find_attempt finish_and_settle finish update_requests settle_request settle_answer charge
    pricing_of actual_amount big_int decimal is_safe_answer_claim has_markup starts_markup
publishing = refl

complete_answer-MayPublish_example :
    MayPublish worker 1 2
      (candidate good_candidate)
      running_tables.answers.requests
      (clock_at 40)
      running_tables
      published_tables
complete_answer-MayPublish_example =
    complete_answer-MayPublish worker 1 2 500 (candidate good_candidate)
      running_tables.answers.requests (clock_at 40) running_tables publishing refl refl

Keeps-Follows_example : Follows held running
Keeps-Follows_example =
    Keeps-Follows 1 2 held running
      (and_then from_start (starts 1 2 500 20 true running_tables.answers starting) refl)
      waiting-IsConsistent refl refl

sweep-IsConsistent_example :
    IsConsistent
      (sweep worker
        (λ call. candidate good_candidate)
        (λ r. false)
        15
        16
        (λ n. some (record { attempt_id = 500; starting = clock_at 20; completing = clock_at 40 }))
        answer_tables).1.answers
sweep-IsConsistent_example =
    sweep-IsConsistent worker (λ call. candidate good_candidate) (λ r. false) 15 16
      (λ n. some (record { attempt_id = 500; starting = clock_at 20; completing = clock_at 40 }))
      answer_tables waiting-IsConsistent

Changes-IsConsistent_example : IsConsistent running_tables.answers
Changes-IsConsistent_example =
    Changes-IsConsistent
      (then_one unchanged (starts 1 2 500 20 true running_tables.answers starting))
      waiting-IsConsistent

abbrev late_turn : Turn
late_turn = record { attempt_id = 600; starting = clock_at 700000; completing = clock_at 700001 }

process-HasEnded_example :
    ((process worker (λ call. candidate good_candidate) 1 2 late_turn answer_tables).0 ≡ true)
    × HasEnded 1 2 waiting_row
        (process worker (λ call. candidate good_candidate) 1 2 late_turn answer_tables).1
unfolding read
process-HasEnded_example =
    process-HasEnded worker (λ call. candidate good_candidate) 1 2 late_turn answer_tables
      waiting_row (refl, tt) waiting-IsConsistent refl refl (omega arith)

abbrev shown_view : AnswerView
shown_view = record {
  state = published;
  failure = none;
  claims = good_claim ∷ [];
  citations = waiting_row.evidence;
  answer_expires_at = some 604800040;
}

showing :
    read_answer
      (λ text. length text)
      (some 7)
      1
      2
      50
      51
      published_tables
      published_tables.answers.requests
    ≡ some (shown_view, answer_tables.consents)
unfolding read_answer show_answer judge find_request lock_row lock_evidence lock_embedding_intents
    targets_of set_target order_by
showing = refl

read_answer-Shows_example :
    ((shown_view.claims ≡ []) × (shown_view.citations ≡ []))
    ⊎ Shows
        (λ text. length text)
        (some 7)
        1
        2
        50
        51
        published_tables
        published_tables.answers.requests
        shown_view
read_answer-Shows_example =
    read_answer-Shows (λ text. length text) (some 7) 1 2 50 51 published_tables
      published_tables.answers.requests showing
