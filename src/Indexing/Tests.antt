-- ===== src/Indexing/Tests.antt =====
-- One work, from its claim to the start of its first call.
use devfootnote_project.Base.{[], none, refl, some, true, ◌∷◌, ◌≡◌, ◌≢◌}
use devfootnote_project.Indexing.Policy.{LockedWork}
use devfootnote_project.Indexing.Schema.{Attempt, Index, Work, insert_attempt, pending, started}
use devfootnote_project.Indexing.Works.{claim_lease, lease_row, start, start_row}
use devfootnote_project.Indexing.Works.Attempts.{start-ne-none}
use devfootnote_project.Indexing.Works.Steps.{
  Reach, Reach-IsConsistent, begins, claims, stays, then_step,
}
use devfootnote_project.Indexing.Works.Tracking.{IsConsistent, held_in, started_in}
use devfootnote_project.Indexing.Works.Transitions.{claim_lease-IsConsistent}

abbrev waiting : Work
waiting = record {
  id = 1;
  owner_id = 1;
  intent_id = 200;
  config_fingerprint = 7;
  consent_epoch = 1;
  generation = 1;
  activation_id = 4;
  reservation_id = some 33;
  state = pending;
  next_attempt_at = 5;
  attempt_count = 0;
  last_failure = none;
  delivery_after = 0;
  lease_token = none;
  lease_expires_at = none;
  terminal_at = none;
}

abbrev before : Index
before = record { works = waiting ∷ []; attempts = []; vectors = []; activations = [] }

abbrev claimed : Index
claimed = (claim_lease 1 77 10 before).1

abbrev leased_row : Work
leased_row = lease_row 77 10 waiting

abbrev locked : LockedWork
locked = record { work = leased_row; lease_active = true; due = true }

abbrev first_attempt : Attempt
first_attempt = record {
  id = 500;
  owner_id = 1;
  work_id = 1;
  number = 1;
  lease_token = 77;
  outcome = started;
  failure = none;
  finished_at = none;
}

abbrev called : Index
called = record before { works = start_row leased_row ∷ []; attempts = first_attempt ∷ [] }

starting : start locked 77 500 20 claimed ≡ some (some 1, called)
unfolding start claim_lease insert_attempt
starting = refl

before-IsConsistent : IsConsistent before
unfolding started_in held_in
before-IsConsistent = record {
  keyed = (refl, tt);
  checked = (refl, tt);
  tracked = (record { count = refl; held = refl; numbers = tt }, tt);
}

claim_and_start : Reach before called
claim_and_start =
    then_step claimed called (then_step before claimed stays (claims 1 77 10))
      (begins locked 77 500 20 (some 1) called starting)

Reach-IsConsistent_example : IsConsistent called
Reach-IsConsistent_example = Reach-IsConsistent before called claim_and_start before-IsConsistent

start-ne-none_example : start locked 77 500 20 claimed ≢ none
unfolding claim_lease
start-ne-none_example =
    start-ne-none locked 77 500 20 claimed
      (claim_lease-IsConsistent 1 77 10 before before-IsConsistent) refl refl
