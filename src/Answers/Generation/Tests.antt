-- ===== src/Answers/Generation/Tests.antt =====
-- A question about one material, asked twice.
use devfootnote_project.Answers.Admission.{
  AdmissionClock, AnswerCommand, AnswerPolicy, Server, admitted, conflict, evidence_from,
  fit_history, new_request, refused, retell, trim, trim_end, trim_start,
}
use devfootnote_project.Answers.Fences.{Tables}
use devfootnote_project.Answers.Generation.{
  admit, admit_request, ask_in_context, choose_evidence, generate, prepared, reserve_and_insert,
}
use devfootnote_project.Answers.Generation.Once.{generate-once, is_askable}
use devfootnote_project.Answers.Samples.{answer_reservation, answer_tables, waiting_row}
use devfootnote_project.Answers.Schema.{insert_request}
use devfootnote_project.Answers.View.{find_request}
use devfootnote_project.Base.{
  [], false, if◌then◌else◌, length, none, refl, some, true, ℕ, ◌&&◌, ◌==◌, ◌∷◌, ◌≡◌,
}
use devfootnote_project.Base.Table.{order_by}
use devfootnote_project.Indexing.Schema.{Index}
use devfootnote_project.Materials.Evidence.{lock_embedding_intents, lock_evidence}
use devfootnote_project.Search.Evidence.{
  add_word, best_of, best_of_all, reverse_onto, snapshot_answer_evidence, words_from, words_of,
}
use devfootnote_project.Usage.Answering.{big_int}
use devfootnote_project.Usage.Budget.{reserve_ai_budget}
use devfootnote_project.Usage.Consents.{lock_row}
use devfootnote_project.Usage.Reservations.{decimal}
use devfootnote_project.Usage.Schema.{insert_reservation, usd}

abbrev asked_policy : AnswerPolicy
asked_policy = record {
  budget = record {
    fingerprint = 7;
    monthly = false;
    budget_id = 1;
    period_start = 0;
    period_end = 1000000;
    budget_limit = 100;
    purpose_budget_limit = none;
    pricing = answer_reservation.pricing_snapshot;
    reservation_seconds = 600;
  };
  request_maximum = b'4' ∷ b'0' ∷ [];
  reservation_seconds = 600;
  receipt_retention_days = 90;
  answer_retention_seconds = 604800;
}

-- A server whose digests are lengths and identifiers.
abbrev asked_server : Server
asked_server = record {
  policy = some asked_policy;
  embedding_policy = none;
  utc_month = λ now. record { budget_id = 9; period_start = 0; period_end = 1000000 };
  fold = λ text. text;
  digest = λ text. length text;
  command_digest = λ (cmd : AnswerCommand). length cmd.question;
  digest_text = λ n. [];
  compose = λ question turns. question;
  byte_length = λ text. length text;
}

-- A question with a space before and after it.
abbrev asked : AnswerCommand
asked = record {
  request_id = 2;
  question = b' ' ∷ b'b' ∷ b' ' ∷ [];
  evidence = record { material_id = 10; revision_id = 100 } ∷ [];
  history = [];
}

abbrev asked_at : ℕ → AdmissionClock
asked_at t = record {
  read_at = t;
  created_at = t;
  inserted_at = t;
  supply = record { before_lock = t; after_lock = t; transaction_start = t; uuid = 33 };
}

abbrev no_index : Index
no_index = record { works = []; attempts = []; vectors = []; activations = [] }

abbrev unasked_tables : Tables
unasked_tables = record answer_tables {
  ledger = record answer_tables.ledger { reservations = [] };
  answers = record { requests = []; attempts = [] };
}

abbrev asked_tables : Tables
asked_tables = record unasked_tables {
  ledger = record answer_tables.ledger {
    budgets =
        record {
          id = 1;
          period_start = 0;
          period_end = 1000000;
          currency = usd;
          unit_scale = 1000000000;
          limit = 100;
        }
        ∷ [];
    reservations = record answer_reservation { reserved_maximum = 40; config_fingerprint = 7 } ∷ [];
  };
  answers = record {
    requests =
        new_request 1 2 1 (b'b' ∷ []) waiting_row.evidence 33 1 asked_policy (asked_at 10) ∷ [];
    attempts = [];
  };
}

asking : generate asked_server no_index 1 asked (asked_at 10) unasked_tables ≡ admitted asked_tables
unfolding generate admit admit_request ask_in_context choose_evidence reserve_and_insert trim
    trim_start trim_end order_by lock_row find_request retell fit_history snapshot_answer_evidence
    lock_evidence lock_embedding_intents best_of best_of_all words_of words_from add_word
    reverse_onto evidence_from big_int decimal reserve_ai_budget insert_reservation insert_request
asking = refl

generate-once_example :
    (is_askable asked ≡ true)
    × (generate asked_server no_index 1 asked (asked_at 20) asked_tables ≡ (
        if is_askable asked
          && (asked_server.command_digest (prepared asked)
              == asked_server.command_digest (prepared asked))
        then admitted (record asked_tables { consents = (lock_row 1 asked_tables.consents).1 })
        else refused conflict))
generate-once_example =
    generate-once asked_server no_index no_index 1 asked asked (asked_at 10) (asked_at 20)
      unasked_tables {after = asked_tables} asking refl
