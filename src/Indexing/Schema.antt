-- ===== src/Indexing/Schema.antt =====
-- packages/db/src/indexing-policy.ts and packages/db/src/schema/indexing.ts: the states of a work,
-- the classes of failure, the rows, and the constraints that PostgreSQL checks.
use devfootnote_project.Base.{
  Bool, List, Option, [], any, arith, false, if◌then◌else◌, is_some, leb, length, ltb, none, not,
  some, true, ℕ, ◌&&◌, ◌==◌, ◌||◌, ◌∷◌, ◌≡◌,
}
use devfootnote_project.Materials.Schema.{ChunkRow}

-- `embeddingWorkStates`
pub data WorkState : Type 0 where
  pending leased calling retry_wait published final_failed obsolete : WorkState

-- `eq(state, value)`
abbrev pub state_code : WorkState → ℕ
state_code pending = 0
state_code leased = 1
state_code calling = 2
state_code retry_wait = 3
state_code published = 4
state_code final_failed = 5
state_code obsolete = 6

abbrev pub in_state : WorkState → WorkState → Bool
in_state a b = state_code a == state_code b

-- `EmbeddingCallFailure`: what a call of the provider may fail with.
pub data CallFailure : Type 0 where
  timeout rate_limited provider_error access_denied invalid_response unknown_outcome : CallFailure

-- `EmbeddingFenceFailure`: why a work may not go on.
pub data FenceFailure : Type 0 where
  material_obsolete consent_revoked config_changed reservation_expired reservation_missing :
      FenceFailure

-- `embeddingFailureClasses`
pub data Failure : Type 0 where
  call : CallFailure → Failure
  lease_expired : Failure
  fence : FenceFailure → Failure

-- The outcome of an attempt; `started` is that of an attempt that has not finished.
pub data Outcome : Type 0 where
  started succeeded retryable_failed failed_finally unknown discarded : Outcome

abbrev pub is_started : Outcome → Bool
is_started started = true
is_started _ = false

-- `embeddingMaxAttempts`
abbrev pub max_attempts : ℕ
max_attempts = 5

pub record Work : Type 0 where
  pub id : ℕ
  pub owner_id : ℕ
  pub intent_id : ℕ
  pub config_fingerprint : ℕ
  pub consent_epoch : ℕ
  pub generation : ℕ
  pub activation_id : ℕ
  pub reservation_id : Option ℕ
  pub state : WorkState
  pub next_attempt_at : ℕ
  pub attempt_count : ℕ
  pub last_failure : Option Failure
  pub delivery_after : ℕ
  pub lease_token : Option ℕ
  pub lease_expires_at : Option ℕ
  pub terminal_at : Option ℕ

pub record Attempt : Type 0 where
  pub id : ℕ
  pub owner_id : ℕ
  pub work_id : ℕ
  pub number : ℕ
  pub lease_token : ℕ
  pub outcome : Outcome
  pub failure : Option Failure
  pub finished_at : Option ℕ

-- A stored vector; a component is an opaque floating-point number.
pub record Vector : Type 0 where
  pub work_id : ℕ
  pub owner_id : ℕ
  pub material_id : ℕ
  pub revision_id : ℕ
  pub chunk_id : ℕ
  pub embedding : List ℕ
  pub published_at : ℕ
  pub cleanup_after : ℕ

-- `vector('embedding', { dimensions: 1536 })`
abbrev pub vector_dimensions : ℕ
vector_dimensions = 1536

pub record Activation : Type 0 where
  pub owner_id : ℕ
  pub config_fingerprint : ℕ
  pub consent_epoch : ℕ
  pub request_id : ℕ
  pub scan_after : ℕ
  pub intent_cursor : Option ℕ
  pub enabled_at : ℕ
  pub include_existing : Bool

-- The tables that the indexing module owns.
pub record Index : Type 0 where
  pub works : List Work
  pub attempts : List Attempt
  pub vectors : List Vector
  pub activations : List Activation

-- `embedding_work_lease_pair`
abbrev pub lease_pair_check : Work → Bool
lease_pair_check w =
    if is_some w.lease_token then is_some w.lease_expires_at else not (is_some w.lease_expires_at)

-- `embedding_work_active_lease`
abbrev pub active_lease_check : Work → Bool
active_lease_check w =
    if in_state w.state leased || in_state w.state calling then is_some w.lease_token else true

-- `embedding_work_positive_identity` and `embedding_work_attempt_bounds`
abbrev pub work_bounds_check : Work → Bool
work_bounds_check w =
    ltb 0 w.consent_epoch && ltb 0 w.generation && leb w.attempt_count max_attempts

abbrev pub work_check : Work → Bool
work_check w = lease_pair_check w && active_lease_check w && work_bounds_check w

-- `embedding_attempt_number_bounds` and `embedding_attempt_finished`
abbrev pub attempt_check : Attempt → Bool
attempt_check a =
    leb 1 a.number
    && leb a.number max_attempts
    && (if is_started a.outcome then not (is_some a.finished_at) else is_some a.finished_at)

-- The primary key, `embedding_attempt_number_unique` and `embedding_attempt_started_unique`.
abbrev pub attempt_conflicts : Attempt → Attempt → Bool
attempt_conflicts new old =
    (old.id == new.id)
    || ((old.work_id == new.work_id)
        && ((old.number == new.number) || (is_started old.outcome && is_started new.outcome)))

-- The foreign key to the works: `(owner_id, work_id)` names one.
abbrev pub has_work : ℕ → ℕ → List Work → Bool
has_work owner id works = any (λ (w : Work). (w.owner_id == owner) && (w.id == id)) works

-- An insert; `none` is the constraint error that PostgreSQL raises. The checks, the keys, and
-- `embedding_attempt_owner_work_fk`.
unfoldable pub insert_attempt : List Work → Attempt → List Attempt → Option (List Attempt)
insert_attempt works new rows =
    if attempt_check new
      && not (any (attempt_conflicts new) rows)
      && has_work new.owner_id new.work_id works
    then some (new ∷ rows)
    else none

pub insert_attempt-cons :
    (works : List Work) (new : Attempt) (rows : List Attempt) {after : List Attempt}
    → insert_attempt works new rows ≡ some after
    → after ≡ new ∷ rows
unfolding insert_attempt
insert_attempt-cons works new rows h = ground arith

-- `embedding_vector_chunk_identity_fk`
abbrev pub has_chunk : List ChunkRow → Vector → Bool
has_chunk chunks v =
    any
      (λ (c : ChunkRow).
        (c.owner_id == v.owner_id)
        && (c.material_id == v.material_id)
        && (c.revision_id == v.revision_id)
        && (c.id == v.chunk_id))
      chunks

-- The dimensions of the column, `embedding_vector_nonzero`, and the foreign keys; `nonzero` says of a
-- component whether its rounding to 32 bits is not zero.
abbrev pub vector_check : (ℕ → Bool) → List ChunkRow → List Work → Vector → Bool
vector_check nonzero chunks works v =
    (length v.embedding == vector_dimensions)
    && any nonzero v.embedding
    && has_chunk chunks v
    && has_work v.owner_id v.work_id works

-- The primary key.
abbrev pub same_vector : Vector → Vector → Bool
same_vector a b = (a.work_id == b.work_id) && (a.chunk_id == b.chunk_id)

abbrev pub insert_each :
    (ℕ → Bool) → List ChunkRow → List Work → List Vector → List Vector → Option (List Vector)
insert_each nonzero chunks works [] rows = some rows
insert_each nonzero chunks works (v ∷ vs) rows =
    let rest = insert_each nonzero chunks works vs (v ∷ rows) in
    if vector_check nonzero chunks works v && not (any (same_vector v) rows) then rest else none

-- An insert of vectors; `none` is a constraint error, or that of an insert of no values.
unfoldable pub insert_vectors :
    (ℕ → Bool) → List ChunkRow → List Work → List Vector → List Vector → Option (List Vector)
insert_vectors nonzero chunks works [] rows = none
insert_vectors nonzero chunks works (v ∷ vs) rows = insert_each nonzero chunks works (v ∷ vs) rows
