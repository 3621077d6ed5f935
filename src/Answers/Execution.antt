-- ===== src/Answers/Execution.antt =====
-- `start` of apps/worker/src/modules/answers/answers.service.ts: it lets a request be answered, or
-- ends it, or tidies up after it. `none` is an exception, upon which the transaction rolls back.
pub mod Calls
pub mod Granted
pub mod Traces
pub mod Once
use mathlib.Core.Option
use devfootnote_project.Answers.Fences.{Clock, Fenced, Setup, Tables, fences}
use devfootnote_project.Answers.Requests.{
  Ending, LockedRequest, clear_content, delete_receipt, finish, lock, read, start,
}
use devfootnote_project.Answers.Schema.{
  AnswerFailure, AnswerRequest, Answers, evidence_changed, expired, invalidated, is_pending,
  is_running, lapsed, reservation_expired, unknown,
}
use devfootnote_project.Base.{
  Bool, List, Option, [], any, coalesce, false, holds, if◌then◌else◌, is_some, length, ltb, map,
  none, not, some, true, ℕ, ◌&&◌, ◌==◌, ◌>>=◌, ◌||◌,
}
use devfootnote_project.Base.Table.{first}
use devfootnote_project.Materials.Schema.{ChunkRow}
use devfootnote_project.Usage.Answering.{
  TokenUsage, delete_answer_receipt, expose_answer, given_text, receipt_expired, settle_answer,
}
use devfootnote_project.Usage.Reservations.{find_reservation}
use devfootnote_project.Usage.Schema.{Ledger}

-- What the worker sends to the provider, under the attempt that it recorded.
pub record Call : Type 0 where
  pub attempt_id : ℕ
  pub question : List ℕ
  pub evidence : List (ℕ × List ℕ)

abbrev text_of : Option ChunkRow → List ℕ
text_of none = []
text_of (some c) = c.chunk.text

abbrev pub call_of : ℕ → List ℕ → List ChunkRow → AnswerRequest → Call
call_of attempt question chunks r = record {
  attempt_id = attempt;
  question = question;
  evidence =
      map (λ e. (e.evidence_id, text_of (first (λ (c : ChunkRow). c.id == e.chunk_id) chunks)))
        r.evidence;
}

abbrev is_lapse : Option AnswerFailure → Bool
is_lapse (some reservation_expired) = true
is_lapse _ = false

-- Whether the content of an answer that has ended is to be removed.
abbrev pub must_clear : LockedRequest → Option AnswerFailure → Bool
must_clear l failure =
    ltb 0 (length l.request.evidence)
    && (not l.answer_live || (is_some failure && not (is_lapse failure)))

abbrev pub cleared_for : LockedRequest → Option AnswerFailure → AnswerFailure
cleared_for l failure = if l.answer_live then coalesce failure evidence_changed else lapsed

-- `answer_requests` names a reservation of an owner.
abbrev pub is_named : ℕ → ℕ → List AnswerRequest → Bool
is_named owner reservation requests =
    any (λ (r : AnswerRequest). (r.owner_id == owner) && holds r.reservation_id reservation)
      requests

-- `none` is the error of the foreign key to the reservations: the reservation is removed and a request
-- that is kept still names it.
unfoldable pub commit_drop : ℕ → ℕ → Answers → Ledger → Tables → Option Tables
commit_drop owner reservation answers ledger db =
    if is_some (find_reservation owner reservation db.ledger)
      && not (is_some (find_reservation owner reservation ledger))
      && is_named owner reservation answers.requests
    then none
    else some (record db { answers = answers; ledger = ledger })

-- The removal of the receipts, once both retention periods are over.
unfoldable pub drop_receipts : ℕ → ℕ → LockedRequest → Clock → Tables → Option Tables
drop_receipts owner id l clock db = elim l.request.reservation_id [
  | none ↦ some db
  | some reservation ↦
      if not l.dedupe_live && receipt_expired owner reservation clock.receipt_at db.ledger
      then commit_drop owner reservation (delete_receipt owner id clock.deleted_at db.answers)
          (delete_answer_receipt owner reservation clock.dropped_at db.ledger) db
      else some db
]

-- An answer without a call.
abbrev pub with_none : Tables → Option Call × Tables
with_none after = (none, after)

-- The branch of `start` for a request that has ended.
unfoldable pub tidy : ℕ → ℕ → LockedRequest → Option AnswerFailure → Clock → Tables → Option Tables
tidy owner id l failure clock db =
    let cleared =
      if must_clear l failure
      then clear_content owner id (cleared_for l failure) db.answers
      else some db.answers in
    elim cleared [
      | none ↦ none
      | some tables ↦ drop_receipts owner id l clock (record db { answers = tables })
    ]

-- `if (request.reservationId) await this.usage.settle(…)`
unfoldable pub settle_request : ℕ → Option ℕ → Option TokenUsage → ℕ → Ledger → Option Ledger
settle_request owner none usage now ledger = some ledger
settle_request owner (some id) usage now ledger = settle_answer owner id usage now ledger

-- `finish`, then the settlement.
unfoldable pub finish_and_settle :
    ℕ → ℕ → Ending → Option TokenUsage → AnswerRequest → Clock → Tables → Option Tables
finish_and_settle owner id e usage r clock db = do
  answers ← finish owner id e clock.finished_at clock.ended_at db.answers
  ledger ← settle_request owner r.reservation_id usage clock.settled_at db.ledger
  some (record db { answers = answers; ledger = ledger })

-- The ending of a request that may not go on.
abbrev pub stopped : LockedRequest → Option AnswerFailure → Ending
stopped l failure = record {
  state = if not l.live || is_lapse failure then expired else invalidated;
  failure = some (coalesce failure lapsed);
  claims = none;
  outcome = unknown;
}

-- The recording of a call that may go on; a reservation that cannot be exposed is an exception.
unfoldable pub begin_call : ℕ → ℕ → ℕ → ℕ → Call → Clock → Tables → Option (Option Call × Tables)
begin_call owner id attempt reservation call clock db =
    elim (start owner id attempt clock.started_at db.answers) [
      | none ↦ none
      | some (recorded, answers) ↦
          let (exposed, ledger) = expose_answer owner reservation clock.exposed_at db.ledger in
          if recorded && exposed
          then some (some call, record db { answers = answers; ledger = ledger })
          else none
    ]

-- The question, the chunks and the reservation of a call, if they are all there.
unfoldable pub call_parts : ℕ → AnswerRequest → Option (List ChunkRow) → Option (ℕ × Call)
call_parts attempt r chunks = do
  question ← given_text r.question
  rows ← chunks
  reservation ← r.reservation_id
  some (reservation, call_of attempt question rows r)

-- What a call needs: the request is not `RUNNING`, and the parts and the provider are there.
unfoldable pub callable : Setup → ℕ → AnswerRequest → Option (List ChunkRow) → Option (ℕ × Call)
callable setup attempt r chunks =
    if is_running r.state || not setup.has_provider then none else call_parts attempt r chunks

-- The rest of `start`, for a request that may go on.
unfoldable pub call_locked :
    Setup
    → ℕ
    → ℕ
    → ℕ
    → AnswerRequest
    → Option (List ChunkRow)
    → Clock
    → Tables
    → Option (Option Call × Tables)
call_locked setup owner id attempt r chunks clock db = elim (callable setup attempt r chunks) [
  | none ↦ some (none, db)
  | some (reservation, call) ↦ begin_call owner id attempt reservation call clock db
]

-- `start` of a locked request.
unfoldable pub start_locked :
    Setup → ℕ → ℕ → ℕ → LockedRequest → Fenced → Clock → Tables → Option (Option Call × Tables)
start_locked setup owner id attempt l f clock db =
    if not (is_pending l.request.state)
    then Option.map with_none (tidy owner id l f.failure clock db)
    else if not l.live || is_some f.failure
    then Option.map with_none
        (finish_and_settle owner id (stopped l f.failure) none l.request clock db)
    else call_locked setup owner id attempt l.request f.chunks clock db

-- `start`. The first read takes no lock: `seen` is the table as it finds it.
unfoldable pub start_answer :
    Setup → ℕ → ℕ → ℕ → List AnswerRequest → Clock → Tables → Option (Option Call × Tables)
start_answer setup owner id attempt seen clock db = elim (read owner id seen) [
  | none ↦ some (none, db)
  | some reference ↦ elim (lock owner id clock.locked_at db.answers) [
    | none ↦ some (none, db)
    | some l ↦
        start_locked setup owner id attempt l (fences setup reference clock.fenced_at db) clock db
  ]
]
