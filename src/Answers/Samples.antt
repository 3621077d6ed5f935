-- ===== src/Answers/Samples.antt =====
-- A request that waits for its answer, with its consent, its material and its reservation.
use devfootnote_project.Answers.Completion.{Candidate}
use devfootnote_project.Answers.Execution.{Call}
use devfootnote_project.Answers.Fences.{Clock, Setup, Tables}
use devfootnote_project.Answers.Requests.Starts.{tables_started}
use devfootnote_project.Answers.Schema.{AnswerClaim, AnswerRequest, Answers, held}
use devfootnote_project.Base.{[], false, length, none, some, true, ℕ, ◌∷◌}
use devfootnote_project.Materials.Schema.{Store}
use devfootnote_project.Usage.Answering.{count, expose_again}
use devfootnote_project.Usage.Schema.{Reservation, grounded_answer, reserved, usd}

abbrev pub waiting_row : AnswerRequest
waiting_row = record {
  owner_id = 1;
  request_id = 2;
  fingerprint = 3;
  config_fingerprint = 7;
  consent_epoch = 1;
  reservation_id = some 33;
  state = held;
  question = some (b'?' ∷ []);
  evidence =
      record {
        evidence_id = 1;
        material_id = 10;
        revision_id = 100;
        chunk_id = 1000;
        content_hash = 1;
        start_offset = 0;
        end_offset = 1;
      }
      ∷ [];
  claims = none;
  failure = none;
  created_at = 10;
  expires_at = 600010;
  answer_expires_at = none;
  dedupe_expires_at = 7776000010;
  scan_after = 10;
  answer_retention_seconds = 604800;
}

abbrev pub waiting : Answers
waiting = record { requests = waiting_row ∷ []; attempts = [] }

abbrev pub answer_store : Store
answer_store = record {
  materials =
      record { id = 10; owner_id = 1; current_revision_id = 100; updated_at = 0; deleted_at = none }
      ∷ [];
  revisions = [];
  chunks =
      record {
        id = 1000;
        owner_id = 1;
        material_id = 10;
        revision_id = 100;
        chunk = record { ordinal = 0; text = b'b' ∷ []; start_offset = 0; end_offset = 1 };
      }
      ∷ [];
  keywords = [];
  receipts = [];
  intents =
      record {
        id = 200;
        owner_id = 1;
        material_id = 10;
        revision_id = 100;
        content_fingerprint = 5;
      }
      ∷ [];
}

abbrev pub answer_reservation : Reservation
answer_reservation = record {
  id = 33;
  owner_id = 1;
  budget_id = 1;
  request_id = 2;
  fingerprint = [];
  config_fingerprint = 7;
  purpose = grounded_answer;
  consent_epoch = 1;
  reserved_maximum = 100000;
  pricing_snapshot = record {
    version = 1;
    currency = usd;
    unit_scale = 1000000000;
    maximum_per_chunk = none;
    price_per_token = none;
    input_price_per_token = some (b'3' ∷ []);
    output_price_per_token = some (b'2' ∷ b'5' ∷ []);
    request_maximum = none;
  };
  state = reserved;
  settled_amount = none;
  input_tokens = none;
  output_tokens = none;
  exposure_started_at = none;
  completed_at = none;
  cleanup_after = 7776000010;
  created_at = 10;
  expires_at = 600010;
}

abbrev pub answer_tables : Tables
answer_tables = record {
  consents =
      record {
        owner_id = 1;
        epoch = 1;
        config_fingerprint = some 7;
        policy_version = some 1;
        granted_at = some 5;
        revoked_at = none;
      }
      ∷ [];
  store = answer_store;
  ledger = record {
    consents = [];
    budgets = [];
    reservations = answer_reservation ∷ [];
    receipts = [];
  };
  answers = waiting;
}

-- A worker whose digest of a text is its length.
abbrev pub worker : Setup
worker = record { policy = some 7; has_provider = true; digest = λ text. length text }

abbrev pub clock_at : ℕ → Clock
clock_at t = record {
  fenced_at = t;
  locked_at = t;
  relocked_at = t;
  receipt_at = t;
  deleted_at = t;
  dropped_at = t;
  started_at = t;
  exposed_at = t;
  finished_at = t;
  ended_at = t;
  settled_at = t;
}

abbrev pub first_call : Call
first_call = record { attempt_id = 500; question = b'?' ∷ []; evidence = (1, b'b' ∷ []) ∷ [] }

abbrev pub running_tables : Tables
running_tables = record answer_tables {
  answers = tables_started 1 2 500 20 waiting;
  ledger = record answer_tables.ledger { reservations = expose_again 20 answer_reservation ∷ [] };
}

-- A claim that cites the evidence.
abbrev pub good_claim : AnswerClaim
good_claim = record { text = b'o' ∷ b'k' ∷ []; evidence_ids = 1 ∷ [] }

abbrev pub good_candidate : Candidate
good_candidate = record {
  insufficient_evidence = false;
  claims = good_claim ∷ [];
  usage = some (record { input_tokens = count 100; output_tokens = count 10 });
}
