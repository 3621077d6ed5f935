-- ===== src/Indexing/Works.antt =====
-- apps/worker/src/modules/indexing/embedding-work.repository.ts: the transitions of a work. Every
-- one is a single conditional update, whose reading of the clock is the argument `now`. Random UUIDs
-- are arguments.
pub mod Tracking
pub mod Transitions
pub mod Attempts
pub mod Endings
pub mod Lives
pub mod Leases
pub mod Steps
use mathlib.Core.Option
use devfootnote_project.Base.{
  Bool, List, Option, any, at_most, exceeds, false, holds, if◌then◌else◌, is_some, leb, length, ltb,
  map, none, not, some, true, ℕ, ◌&&◌, ◌+◌, ◌==◌, ◌||◌,
}
use devfootnote_project.Base.Table.{first, select, update}
use devfootnote_project.Indexing.Policy.{AttemptFailure, LockedWork, failure_of, is_terminal}
use devfootnote_project.Indexing.Schema.{
  Attempt, Failure, FenceFailure, Index, Outcome, Vector, Work, WorkState, calling, discarded,
  fence, final_failed, in_state, insert_attempt, insert_vectors, is_started, leased, max_attempts,
  obsolete, pending, published, retry_wait, started, succeeded,
}
use devfootnote_project.Materials.Schema.{ChunkRow}
use devfootnote_project.Usage.Cleanup.{Sweep, batch, scan_interval}
use devfootnote_project.Usage.Reservations.Settlement.{ids}
use devfootnote_project.Usage.Schema.{embedding}

-- `FinishTransition`, without `requireLiveLease`.
pub data Transition : Type 0 where
  to_retry_wait : AttemptFailure → Outcome → ℕ → Transition
  to_final_failed : Failure → Outcome → Transition
  to_obsolete : FenceFailure → Transition

abbrev pub transition_state : Transition → WorkState
transition_state (to_retry_wait f o delay) = retry_wait
transition_state (to_final_failed f o) = final_failed
transition_state (to_obsolete f) = obsolete

abbrev pub transition_failure : Transition → Failure
transition_failure (to_retry_wait f o delay) = failure_of f
transition_failure (to_final_failed f o) = f
transition_failure (to_obsolete f) = fence f

abbrev pub transition_outcome : Transition → Outcome
transition_outcome (to_retry_wait f o delay) = o
transition_outcome (to_final_failed f o) = o
transition_outcome (to_obsolete f) = discarded

abbrev pub lease_milliseconds : ℕ
lease_milliseconds = 60000

-- The row that a conditional update changes, if there is one: `returning`.
abbrev pub changed : (Work → Bool) → Index → Bool
changed p index = is_some (first p index.works)

abbrev pub update_works : (Work → Bool) → (Work → Work) → Index → Index
update_works p f index = record index { works = update p f index.works }

abbrev pub claimable : ℕ → ℕ → Work → Bool
claimable id now w = (w.id == id) && in_state w.state pending && leb w.next_attempt_at now

abbrev pub lease_row : ℕ → ℕ → Work → Work
lease_row token now w = record w {
  state = leased;
  lease_token = some token;
  lease_expires_at = some (now + lease_milliseconds);
}

-- `claimLease`: the token, if the work was claimed.
unfoldable pub claim_lease : ℕ → ℕ → ℕ → Index → Option ℕ × Index
claim_lease id token now index = (
  if changed (claimable id now) index then some token else none,
  update_works (claimable id now) (lease_row token now) index,
)

abbrev pub find_work : ℕ → Index → Option Work
find_work id index = first (λ w. w.id == id) index.works

abbrev pub locked_view : ℕ → Work → LockedWork
locked_view now w = record {
  work = w;
  lease_active = exceeds w.lease_expires_at now;
  due = leb w.next_attempt_at now;
}

-- `lock`: the times are compared once the lock is held.
unfoldable pub lock : ℕ → ℕ → Index → Option LockedWork
lock id now index = Option.map (locked_view now) (find_work id index)

abbrev pub startable : ℕ → ℕ → ℕ → Work → Bool
startable id token now w =
    (w.id == id)
    && in_state w.state leased
    && holds w.lease_token token
    && exceeds w.lease_expires_at now
    && ltb w.attempt_count max_attempts

abbrev pub start_row : Work → Work
start_row w = record w { state = calling; attempt_count = w.attempt_count + 1 }

-- The row of the attempt that a start of `row` inserts.
abbrev pub new_attempt : LockedWork → Work → ℕ → ℕ → Attempt
new_attempt w row token attempt_id = record {
  id = attempt_id;
  owner_id = w.work.owner_id;
  work_id = w.work.id;
  number = row.attempt_count + 1;
  lease_token = token;
  outcome = started;
  failure = none;
  finished_at = none;
}

-- `start`: the number of the attempt, whose row is inserted as started; `none` is a constraint
-- error.
unfoldable pub start : LockedWork → ℕ → ℕ → ℕ → Index → Option (Option ℕ × Index)
start w token attempt_id now index = elim (first (startable w.work.id token now) index.works) [
  | none ↦ some (none, index)
  | some row ↦
      elim (insert_attempt index.works (new_attempt w row token attempt_id) index.attempts) [
        | none ↦ none
        | some attempts ↦ some (
          some (row.attempt_count + 1),
          record index {
            works = update (startable w.work.id token now) start_row index.works;
            attempts = attempts;
          },
        )
      ]
]

-- `hasActiveAttempt`
unfoldable pub has_active_attempt : ℕ → ℕ → ℕ → Index → Bool
has_active_attempt work_id token attempt_id index =
    any
      (λ (a : Attempt).
        (a.id == attempt_id)
        && (a.work_id == work_id)
        && (a.lease_token == token)
        && is_started a.outcome)
      index.attempts

abbrev pub publishable : LockedWork → WorkState → ℕ → Work → Bool
publishable w state now row =
    (row.id == w.work.id)
    && (row.owner_id == w.work.owner_id)
    && in_state row.state state
    && (elim w.work.lease_token [ none ↦ false | some token ↦ holds row.lease_token token ])
    && exceeds row.lease_expires_at now

abbrev pub publish_row : ℕ → Work → Work
publish_row now w = record w {
  state = published;
  terminal_at = some now;
  last_failure = none;
  lease_token = none;
  lease_expires_at = none;
}

-- The chunk and the components of a vector to be stored.
pub record ChunkVector : Type 0 where
  pub chunk_id : ℕ
  pub values : List ℕ

abbrev pub stored : Work → ℕ → ℕ → ℕ → ChunkVector → Vector
stored w material_id revision_id now v = record {
  work_id = w.id;
  owner_id = w.owner_id;
  material_id = material_id;
  revision_id = revision_id;
  chunk_id = v.chunk_id;
  embedding = v.values;
  published_at = now;
  cleanup_after = now;
}

-- `publishReused`: whether the work was published; `none` is the error of the insert.
unfoldable pub publish_reused :
    (ℕ → Bool)
    → List ChunkRow
    → LockedWork
    → ℕ
    → ℕ
    → List ChunkVector
    → ℕ
    → Index
    → Option (Bool × Index)
publish_reused nonzero chunks w material_id revision_id vectors now index =
    if changed (publishable w leased now) index
    then Option.map
        (λ rows. (
          true,
          record index {
            works = update (publishable w leased now) (publish_row now) index.works;
            vectors = rows;
          },
        ))
        (insert_vectors nonzero chunks index.works
          (map (stored w.work material_id revision_id now) vectors) index.vectors)
    else some (false, index)

abbrev pub finishable : ℕ → ℕ → Attempt → Bool
finishable work_id attempt_id a =
    (a.id == attempt_id) && (a.work_id == work_id) && is_started a.outcome

abbrev pub finish_attempt : Outcome → Option Failure → ℕ → Attempt → Attempt
finish_attempt outcome failure now a = record a {
  outcome = outcome;
  failure = failure;
  finished_at = some now;
}

-- The end of the attempt in `publish`; `none` is the exception that it is not the started one.
unfoldable pub publish_attempt : LockedWork → ℕ → ℕ → Index → List Vector → Option (Bool × Index)
publish_attempt w attempt_id now index rows =
    if length (select (finishable w.work.id attempt_id) index.attempts) == 1
    then some (
      true,
      record index {
        works = update (publishable w calling now) (publish_row now) index.works;
        vectors = rows;
        attempts =
            update (finishable w.work.id attempt_id) (finish_attempt succeeded none now)
              index.attempts;
      },
    )
    else none

-- `publish`; `none` is that exception, or the error of the insert.
unfoldable pub publish :
    (ℕ → Bool)
    → List ChunkRow
    → LockedWork
    → ℕ
    → ℕ
    → ℕ
    → List ChunkVector
    → ℕ
    → Index
    → Option (Bool × Index)
publish nonzero chunks w attempt_id material_id revision_id vectors now index =
    if changed (publishable w calling now) index
    then elim (insert_vectors nonzero chunks index.works
        (map (stored w.work material_id revision_id now) vectors) index.vectors) [
          | none ↦ none
          | some rows ↦ publish_attempt w attempt_id now index rows
        ]
    else some (false, index)

abbrev pub closable : LockedWork → Bool → ℕ → Work → Bool
closable w require_live_lease now row =
    (row.id == w.work.id)
    && in_state row.state w.work.state
    && (if require_live_lease then exceeds row.lease_expires_at now else true)

abbrev pub closed_terminal_at : Transition → ℕ → Option ℕ
closed_terminal_at (to_retry_wait f o delay) now = none
closed_terminal_at (to_final_failed f o) now = some now
closed_terminal_at (to_obsolete f) now = some now

abbrev pub closed_next_attempt : Transition → ℕ → ℕ → ℕ
closed_next_attempt (to_retry_wait f o delay) now old = now + delay
closed_next_attempt (to_final_failed f o) now old = old
closed_next_attempt (to_obsolete f) now old = old

abbrev pub close_row : Transition → ℕ → Work → Work
close_row t now w = record w {
  state = transition_state t;
  terminal_at = closed_terminal_at t now;
  last_failure = some (transition_failure t);
  lease_token = none;
  lease_expires_at = none;
  next_attempt_at = closed_next_attempt t now w.next_attempt_at;
}

abbrev pub attempt_of_lease : LockedWork → Attempt → Bool
attempt_of_lease w a =
    in_state w.work.state calling
    && (a.work_id == w.work.id)
    && holds w.work.lease_token a.lease_token
    && is_started a.outcome

-- `finish`: whether the row was in the state that was read under the lock.
unfoldable pub finish : LockedWork → Transition → Bool → ℕ → Index → Bool × Index
finish w t require_live_lease now index =
    if changed (closable w require_live_lease now) index
    then (
      true,
      record index {
        works = update (closable w require_live_lease now) (close_row t now) index.works;
        attempts =
            update (attempt_of_lease w)
              (finish_attempt (transition_outcome t) (some (transition_failure t)) now)
              index.attempts;
      },
    )
    else (false, index)

abbrev pub returnable : LockedWork → ℕ → Work → Bool
returnable w now row =
    (row.id == w.work.id)
    && in_state row.state w.work.state
    && (if in_state w.work.state leased
        then at_most row.lease_expires_at now
        else leb row.next_attempt_at now)

abbrev pub return_row : Work → Work
return_row w = record w { state = pending; lease_token = none; lease_expires_at = none }

-- `returnToPending`
unfoldable pub return_to_pending : LockedWork → ℕ → Index → Bool × Index
return_to_pending w now index =
    (changed (returnable w now) index, update_works (returnable w now) return_row index)

abbrev pub extendable : ℕ → ℕ → ℕ → Work → Bool
extendable id token now w =
    (w.id == id)
    && holds w.lease_token token
    && (in_state w.state leased || in_state w.state calling)
    && exceeds w.lease_expires_at now

abbrev pub extend_row : ℕ → Work → Work
extend_row now w = record w { lease_expires_at = some (now + lease_milliseconds) }

-- `heartbeat`
unfoldable pub heartbeat : ℕ → ℕ → ℕ → Index → Bool × Index
heartbeat id token now index = (
  changed (extendable id token now) index,
  update_works (extendable id token now) (extend_row now) index,
)

abbrev is_active_state : WorkState → Bool
is_active_state s = not (is_terminal s)

abbrev pub shares_reservation : ℕ → ℕ → Work → Bool
shares_reservation owner reservation w = (w.owner_id == owner) && holds w.reservation_id reservation

-- `completedReservationAttempts`: the attempts of all works of a reservation, once none is active.
unfoldable pub completed_reservation_attempts : ℕ → ℕ → Index → Option (List ℕ)
completed_reservation_attempts owner reservation index =
    let works = select (shares_reservation owner reservation) index.works in
    if (length works == 0) || any (λ (w : Work). is_active_state w.state) works
    then none
    else some (
        map (λ (a : Attempt). a.id)
          (select
            (λ (a : Attempt). (a.owner_id == owner) && any (λ (w : Work). w.id == a.work_id) works)
            index.attempts))

-- `reserveRepairBatch`: the works whose delivery is due, each put off by the scan interval.
unfoldable pub reserve_repair_batch : ℕ → Sweep → Index → List ℕ × Index
reserve_repair_batch limit sweep index =
    let ids =
      map (λ (w : Work). w.id)
        (batch (λ (w : Work). w.delivery_after) (λ w. w.id) sweep.locked limit
          (λ w. is_active_state w.state && leb w.delivery_after sweep.chosen_at) index.works) in
    (
      ids,
      update_works (λ w. any (λ id. id == w.id) ids)
          (λ w. record w { delivery_after = sweep.written_at + scan_interval }) index,
    )
