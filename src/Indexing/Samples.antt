-- ===== src/Indexing/Samples.antt =====
-- A work that is leased, its material and its reservation, as sample tables.
use devfootnote_project.Base.{[], none, some, ◌∷◌}
use devfootnote_project.Indexing.Execution.{Database, Environment}
use devfootnote_project.Indexing.Schema.{Index, Work, leased, started}
use devfootnote_project.Indexing.Works.{start_row}
use devfootnote_project.Materials.Schema.{Content, Store}
use devfootnote_project.Usage.Reservations.{expose}
use devfootnote_project.Usage.Schema.{
  Consent, PricingSnapshot, Reservation, embedding, reserved, usd,
}

abbrev pub held_work : Work
held_work = record {
  id = 1;
  owner_id = 1;
  intent_id = 200;
  config_fingerprint = 7;
  consent_epoch = 1;
  generation = 1;
  activation_id = 4;
  reservation_id = some 33;
  state = leased;
  next_attempt_at = 5;
  attempt_count = 0;
  last_failure = none;
  delivery_after = 0;
  lease_token = some 77;
  lease_expires_at = some 60010;
  terminal_at = none;
}

abbrev pub works : Index
works = record { works = held_work ∷ []; attempts = []; vectors = []; activations = [] }

abbrev pub text : Content
text = record { title = none; body = 98 ∷ []; note = none; context = none; source_url = none }

abbrev pub materials : Store
materials = record {
  materials =
      record { id = 10; owner_id = 1; current_revision_id = 100; updated_at = 0; deleted_at = none }
      ∷ [];
  revisions =
      record {
        id = 100;
        owner_id = 1;
        material_id = 10;
        revision = 1;
        content = text;
        content_fingerprint = 5;
      }
      ∷ [];
  chunks = [];
  keywords = [];
  receipts = [];
  intents =
      record {
        id = 200;
        owner_id = 1;
        material_id = 10;
        revision_id = 100;
        content_fingerprint = 5;
      }
      ∷ [];
}

abbrev pub prices : PricingSnapshot
prices = record {
  version = 1;
  currency = usd;
  unit_scale = 1000000000;
  maximum_per_chunk = none;
  price_per_token = some (b'2' ∷ []);
  input_price_per_token = none;
  output_price_per_token = none;
  request_maximum = none;
}

abbrev pub row : Reservation
row = record {
  id = 33;
  owner_id = 1;
  budget_id = 1;
  request_id = 2;
  fingerprint = [];
  config_fingerprint = 7;
  purpose = embedding;
  consent_epoch = 1;
  reserved_maximum = 40;
  pricing_snapshot = prices;
  state = reserved;
  settled_amount = none;
  input_tokens = none;
  output_tokens = none;
  exposure_started_at = none;
  completed_at = none;
  cleanup_after = 7776000009;
  created_at = 9;
  expires_at = 60012;
}

abbrev pub consented : Consent
consented = record {
  owner_id = 1;
  epoch = 1;
  config_fingerprint = some 7;
  policy_version = some 1;
  granted_at = some 5;
  revoked_at = none;
}

abbrev pub tables : Database
tables = record {
  ledger = record {
    consents = consented ∷ [];
    budgets = [];
    reservations = row ∷ [];
    receipts = [];
  };
  store = materials;
  index = works;
}

abbrev pub surroundings : Environment
surroundings = record {
  configuration = some 7;
  reservation_at = 20;
  locked_at = 21;
  written_at = 22;
  exposed_at = 23;
  settled_at = 24;
  attempt_id = 500;
  draw = λ n. 0;
}

abbrev pub started_tables : Database
started_tables = record {
  ledger = record tables.ledger { reservations = expose 23 row ∷ [] };
  store = materials;
  index = record works {
    works = start_row held_work ∷ [];
    attempts =
        record {
          id = 500;
          owner_id = 1;
          work_id = 1;
          number = 1;
          lease_token = 77;
          outcome = started;
          failure = none;
          finished_at = none;
        }
        ∷ [];
  };
}
