-- ===== src/Answers/Requests.antt =====
-- apps/worker/src/modules/answers/answers.repository.ts: the statements on a request and on the
-- attempt to answer it. Each statement that reads `clock_timestamp()` takes its reading `now`.
-- `none` is an exception, upon which the transaction rolls back.
pub mod Changes
pub mod Attempts
pub mod Starts
pub mod Starting
pub mod Endings
pub mod Finishing
pub mod Receipts
pub mod Order
pub mod History
use mathlib.Core.Option
use devfootnote_project.Answers.Schema.{
  AnswerAttempt, AnswerClaim, AnswerFailure, AnswerRequest, AnswerState, Answers, AttemptState,
  held, insert_attempt, is_answered, is_of_request, is_pending, is_started, names_request, running,
  started, update_requests,
}
use devfootnote_project.Base.{
  Bool, List, Option, [], exceeds, false, if◌then◌else◌, is_some, leb, ltb, map, none, not, some,
  take, true, ℕ, ◌&&◌, ◌*◌, ◌+◌, ◌==◌, ◌>>=◌, ◌||◌, ◌∷◌,
}
use devfootnote_project.Base.Table.{delete, first, order_by, select, update}

-- `read`
unfoldable pub read : ℕ → ℕ → List AnswerRequest → Option AnswerRequest
read owner id rows = first (names_request owner id) rows

-- What `lock` returns. The three tests of the statement share a reading of the clock.
pub record LockedRequest : Type 0 where
  pub request : AnswerRequest
  pub live : Bool
  pub answer_live : Bool
  pub dedupe_live : Bool

abbrev pub locked_view : ℕ → AnswerRequest → LockedRequest
locked_view now r = record {
  request = r;
  live = ltb now r.expires_at;
  answer_live = exceeds r.answer_expires_at now;
  dedupe_live = ltb now r.dedupe_expires_at;
}

unfoldable pub lock : ℕ → ℕ → ℕ → Answers → Option LockedRequest
unfolding read
lock owner id now tables = Option.map (locked_view now) (read owner id tables.requests)

abbrev pub startable : ℕ → ℕ → ℕ → AnswerRequest → Bool
startable owner id now r =
    names_request owner id r && elim r.state [ held ↦ true | _ ↦ false ] && ltb now r.expires_at

abbrev pub run : AnswerRequest → AnswerRequest
run r = record r { state = running }

abbrev pub new_attempt : ℕ → ℕ → ℕ → AnswerAttempt
new_attempt owner id attempt = record {
  id = attempt;
  owner_id = owner;
  request_id = id;
  state = started;
  completed_at = none;
}

abbrev pub with_true : Answers → Bool × Answers
with_true after = (true, after)

-- The second statement of `start`, once the first has changed some row.
unfoldable pub record_start : ℕ → ℕ → ℕ → Bool → Answers → Option (Bool × Answers)
record_start owner id attempt found tables =
    if found
    then Option.map with_true (insert_attempt (new_attempt owner id attempt) tables)
    else some (false, tables)

-- `start`: whether the request was started, and the tables.
unfoldable pub start : ℕ → ℕ → ℕ → ℕ → Answers → Option (Bool × Answers)
start owner id attempt now tables = do
  rows ← update_requests (startable owner id now) run tables.requests
  record_start owner id attempt (is_some (first (startable owner id now) tables.requests))
      (record tables { requests = rows })

-- `attempt`
unfoldable pub find_attempt : ℕ → ℕ → ℕ → Answers → Option AnswerAttempt
find_attempt owner id attempt tables =
    first (λ a. is_of_request owner id a && (a.id == attempt)) tables.attempts

-- What `finish` writes.
pub record Ending : Type 0 where
  pub state : AnswerState
  pub failure : Option AnswerFailure
  pub claims : Option (List AnswerClaim)
  pub outcome : AttemptState

abbrev pub finishable : ℕ → ℕ → AnswerRequest → Bool
finishable owner id r = names_request owner id r && is_pending r.state

abbrev pub finish_request : Ending → ℕ → AnswerRequest → AnswerRequest
finish_request e now r = record r {
  state = e.state;
  failure = e.failure;
  question = none;
  claims = e.claims;
  answer_expires_at =
      if is_answered e.state then some (now + r.answer_retention_seconds * 1000) else none;
}

abbrev pub open_attempt : ℕ → ℕ → AnswerAttempt → Bool
open_attempt owner id a = is_of_request owner id a && is_started a.state

abbrev pub end_attempt : AttemptState → ℕ → AnswerAttempt → AnswerAttempt
end_attempt outcome now a = record a { state = outcome; completed_at = some now }

-- `finish`; the two statements read the clock one after the other.
unfoldable pub finish : ℕ → ℕ → Ending → ℕ → ℕ → Answers → Option Answers
finish owner id e now ended_at tables = do
  rows ← update_requests (finishable owner id) (finish_request e now) tables.requests
  some (record {
    requests = rows;
    attempts = update (open_attempt owner id) (end_attempt e.outcome ended_at) tables.attempts;
  })

abbrev pub clear : AnswerFailure → AnswerRequest → AnswerRequest
clear why r = record r { question = none; claims = none; evidence = []; failure = some why }

-- `clearContent`
unfoldable pub clear_content : ℕ → ℕ → AnswerFailure → Answers → Option Answers
clear_content owner id why tables = do
  rows ← update_requests (names_request owner id) (clear why) tables.requests
  some (record tables { requests = rows })

abbrev pub deletable : ℕ → ℕ → ℕ → AnswerRequest → Bool
deletable owner id now r =
    names_request owner id r && ltb r.dedupe_expires_at now && not (is_pending r.state)

-- `deleteReceipt`. The attempts of a request go with it: `on delete cascade`.
unfoldable pub delete_receipt : ℕ → ℕ → ℕ → Answers → Answers
delete_receipt owner id now tables = record {
  requests = delete (deletable owner id now) tables.requests;
  attempts =
      if is_some (first (deletable owner id now) tables.requests)
      then delete (is_of_request owner id) tables.attempts
      else tables.attempts;
}

abbrev scans_before : AnswerRequest → AnswerRequest → Bool
scans_before a b =
    ltb a.scan_after b.scan_after
    || ((a.scan_after == b.scan_after) && leb a.request_id b.request_id)

-- 15 seconds
abbrev pub scan_delay : ℕ
scan_delay = 15000

abbrev pub scan_later : ℕ → AnswerRequest → AnswerRequest
scan_later now r = record r { scan_after = now + scan_delay }

-- The rows that are due and that no other transaction holds: at most 20, the longest due first.
unfoldable pub due_requests : (AnswerRequest → Bool) → ℕ → Answers → List AnswerRequest
due_requests held_elsewhere now tables = take 20 (
    order_by scans_before
      (select (λ r. leb r.scan_after now && not (held_elsewhere r)) tables.requests))

put_off : ℕ → List AnswerRequest → List AnswerRequest → Option (List AnswerRequest)
put_off now [] rows = some rows
put_off now (r ∷ rest) rows =
    update_requests (names_request r.owner_id r.request_id) (scan_later now) rows
    >>= put_off now rest

-- `reserveBatch`: the batch, and the tables with its rows put off. The updates share a reading of
-- the clock.
unfoldable pub reserve_batch :
    (AnswerRequest → Bool) → ℕ → ℕ → Answers → Option (List (ℕ × ℕ) × Answers)
unfolding due_requests put_off
reserve_batch held_elsewhere chosen_at now tables = do
  rows ← put_off now (due_requests held_elsewhere chosen_at tables) tables.requests
  some (
    map (λ r. (r.owner_id, r.request_id)) (due_requests held_elsewhere chosen_at tables),
    record tables { requests = rows },
  )
