-- ===== src/Answers/Schema.antt =====
-- packages/db/src/schema/answers.ts: the rows of the answers, and the constraints that PostgreSQL
-- checks. An evidence's name and a digest are numbers, a text is its list of code units.
use devfootnote_project.Base.{
  Bool, List, Option, any, every, false, if◌then◌else◌, is_some, leb, ltb, none, not, some, true, ℕ,
  ◌&&◌, ◌==◌, ◌||◌, ◌∷◌,
}
use devfootnote_project.Base.Table.{select, update}

-- `held` is 'RESERVED'. `REQUESTED` is the column's default; no code writes it.
pub data AnswerState : Type 0 where
  requested held running published no_answer failed expired invalidated : AnswerState

abbrev pub is_running : AnswerState → Bool
is_running running = true
is_running _ = false

-- `state in ('RESERVED', 'RUNNING')`
abbrev pub is_pending : AnswerState → Bool
is_pending held = true
is_pending running = true
is_pending _ = false

-- `state in ('PUBLISHED', 'NO_ANSWER')`
abbrev pub is_answered : AnswerState → Bool
is_answered published = true
is_answered no_answer = true
is_answered _ = false

abbrev pub may_hold_question : AnswerState → Bool
may_hold_question requested = true
may_hold_question s = is_pending s

-- `AnswerEvidenceSnapshot`
pub record Evidence : Type 0 where
  pub evidence_id : ℕ
  pub material_id : ℕ
  pub revision_id : ℕ
  pub chunk_id : ℕ
  pub content_hash : ℕ
  pub start_offset : ℕ
  pub end_offset : ℕ

-- `StoredAnswerClaim`
pub record AnswerClaim : Type 0 where
  pub text : List ℕ
  pub evidence_ids : List ℕ

-- The words of the column `failure`; `lapsed` is 'expired'. The kinds of the provider's error are
-- `invalid_response`, `unknown_outcome` and the words of the second line.
pub data AnswerFailure : Type 0 where
  consent_changed evidence_changed reservation_expired lapsed invalid_response unknown_outcome :
      AnswerFailure
  not_configured invalid_input access_denied rate_limited provider_error : AnswerFailure

pub record AnswerRequest : Type 0 where
  pub owner_id : ℕ
  pub request_id : ℕ
  pub fingerprint : ℕ
  pub config_fingerprint : ℕ
  pub consent_epoch : ℕ
  pub reservation_id : Option ℕ
  pub state : AnswerState
  pub question : Option (List ℕ)
  pub evidence : List Evidence
  pub claims : Option (List AnswerClaim)
  pub failure : Option AnswerFailure
  pub created_at : ℕ
  pub expires_at : ℕ
  pub answer_expires_at : Option ℕ
  pub dedupe_expires_at : ℕ
  pub scan_after : ℕ
  pub answer_retention_seconds : ℕ

pub data AttemptState : Type 0 where
  started succeeded unsuccessful unknown : AttemptState

abbrev pub is_started : AttemptState → Bool
is_started started = true
is_started _ = false

pub record AnswerAttempt : Type 0 where
  pub id : ℕ
  pub owner_id : ℕ
  pub request_id : ℕ
  pub state : AttemptState
  pub completed_at : Option ℕ

-- The tables of the answers.
pub record Answers : Type 0 where
  pub requests : List AnswerRequest
  pub attempts : List AnswerAttempt

-- `answer_request_retention`
abbrev pub retention_check : AnswerRequest → Bool
retention_check r =
    ltb 0 r.answer_retention_seconds
    && ltb r.created_at r.expires_at
    && ltb r.expires_at r.dedupe_expires_at
    && not (elim r.answer_expires_at [ none ↦ false | some t ↦ leb r.dedupe_expires_at t ])

-- `answer_request_terminal_content`
abbrev pub content_check : AnswerRequest → Bool
content_check r = may_hold_question r.state || not (is_some r.question)

abbrev pub request_check : AnswerRequest → Bool
request_check r = retention_check r && content_check r

-- `owner_id = owner and request_id = id`
abbrev pub names_request : ℕ → ℕ → AnswerRequest → Bool
names_request owner id r = (r.owner_id == owner) && (r.request_id == id)

abbrev pub is_of_request : ℕ → ℕ → AnswerAttempt → Bool
is_of_request owner id a = (a.owner_id == owner) && (a.request_id == id)

-- An update of the requests; `none` is the constraint error that PostgreSQL raises.
unfoldable pub update_requests :
    (AnswerRequest → Bool)
    → (AnswerRequest → AnswerRequest)
    → List AnswerRequest
    → Option (List AnswerRequest)
update_requests p f rows =
    if every (λ r. request_check (f r)) (select p rows) then some (update p f rows) else none

-- An insert of a request: the checks, and the primary key.
unfoldable pub insert_request : AnswerRequest → List AnswerRequest → Option (List AnswerRequest)
insert_request new rows =
    if request_check new && not (any (names_request new.owner_id new.request_id) rows)
    then some (new ∷ rows)
    else none

-- `answer_attempt_request_unique`, and the primary key.
abbrev pub attempt_conflicts : AnswerAttempt → AnswerAttempt → Bool
attempt_conflicts new old = (old.id == new.id) || is_of_request new.owner_id new.request_id old

-- An insert of an attempt: `answer_attempt_completion`, the keys, and the foreign key.
unfoldable pub insert_attempt : AnswerAttempt → Answers → Option Answers
insert_attempt new tables =
    if (if is_started new.state then not (is_some new.completed_at) else is_some new.completed_at)
      && not (any (attempt_conflicts new) tables.attempts)
      && any (names_request new.owner_id new.request_id) tables.requests
    then some (record tables { attempts = new ∷ tables.attempts })
    else none
