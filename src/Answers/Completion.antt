-- ===== src/Answers/Completion.antt =====
-- `complete` of apps/worker/src/modules/answers/answers.service.ts: the
-- publication of what the provider returned.
pub mod Endings
pub mod Published
use devfootnote_project.Answers.Execution.{finish_and_settle}
use devfootnote_project.Answers.Fences.{Clock, Setup, Tables, fences, reservation_of}
use devfootnote_project.Answers.Requests.{Ending, LockedRequest, find_attempt, lock, read}
use devfootnote_project.Answers.Safety.{is_safe_answer_claim, is_space}
use devfootnote_project.Answers.Schema.{
  AnswerAttempt, AnswerClaim, AnswerFailure, AnswerRequest, AnswerState, Evidence, expired, failed,
  invalid_response, invalidated, is_running, is_started, lapsed, no_answer, published,
  reservation_expired, succeeded, unknown, unknown_outcome, unsuccessful,
}
use devfootnote_project.Base.{
  Bool, List, Option, any, every, false, if◌then◌else◌, is_some, leb, length, ltb, none, not, some,
  true, ℕ, ◌&&◌, ◌==◌,
}
use devfootnote_project.Usage.Answering.{AnswerReservation, TokenUsage}

-- `AnswerCandidate`
pub record Candidate : Type 0 where
  pub insufficient_evidence : Bool
  pub claims : List AnswerClaim
  pub usage : Option TokenUsage

-- What the provider's call came to: a candidate, or an error with the usage that it reports. An
-- error of another class is `unknown_outcome` without a usage.
pub data Generated : Type 0 where
  candidate : Candidate → Generated
  broke : AnswerFailure → Option TokenUsage → Generated

abbrev pub candidate_of : Generated → Option Candidate
candidate_of (candidate c) = some c
candidate_of (broke why usage) = none

abbrev failure_of : Generated → Option AnswerFailure
failure_of (candidate c) = none
failure_of (broke why usage) = some why

-- `candidate?.usage ?? failureUsage`
abbrev pub usage_of : Generated → Option TokenUsage
usage_of (candidate c) = c.usage
usage_of (broke why usage) = usage

abbrev same_bool : Bool → Bool → Bool
same_bool true b = b
same_bool false b = not b

-- `ids.has(id)` of the set of the evidence's names
abbrev pub is_offered : List Evidence → ℕ → Bool
is_offered evidence id = any (λ e. e.evidence_id == id) evidence

abbrev pub valid_claim : List Evidence → AnswerClaim → Bool
valid_claim evidence c =
    not (every is_space c.text)
    && leb (length c.text) 2000
    && ltb 0 (length c.evidence_ids)
    && every (is_offered evidence) c.evidence_ids
    && is_safe_answer_claim c.text

abbrev pub valid_candidate : List Evidence → Option Candidate → Bool
valid_candidate evidence none = false
valid_candidate evidence (some c) =
    same_bool c.insufficient_evidence (length c.claims == 0)
    && leb (length c.claims) 12
    && every (valid_claim evidence) c.claims

abbrev insufficient : Option Candidate → Bool
insufficient none = false
insufficient (some c) = c.insufficient_evidence

abbrev pub final_state : LockedRequest → Option AnswerFailure → Option Candidate → AnswerState
final_state l failure c =
    if not l.live
    then expired
    else if is_some failure
    then invalidated
    else if not (valid_candidate l.request.evidence c)
    then failed
    else if insufficient c
    then no_answer
    else published

abbrev or_else : Option AnswerFailure → Option AnswerFailure → Option AnswerFailure
or_else none b = b
or_else (some a) b = some a

abbrev final_failure : LockedRequest → Option AnswerFailure → Generated → Option AnswerFailure
final_failure l failure g =
    if l.live
    then or_else failure (
        or_else (failure_of g) (
          if valid_candidate l.request.evidence (candidate_of g)
          then none
          else some invalid_response))
    else some lapsed

abbrev is_unknown : Option AnswerFailure → Bool
is_unknown (some unknown_outcome) = true
is_unknown _ = false

abbrev final_claims : AnswerState → Option Candidate → Option (List AnswerClaim)
final_claims published (some c) = some c.claims
final_claims _ _ = none

abbrev pub final : LockedRequest → Option AnswerFailure → Generated → Ending
final l failure g =
    let state = final_state l failure (candidate_of g) in
    record {
      state = state;
      failure = final_failure l failure g;
      claims = final_claims state (candidate_of g);
      outcome =
          if is_some (candidate_of g)
          then succeeded
          else if is_unknown (failure_of g)
          then unknown
          else unsuccessful;
    }

abbrev pub is_active_view : Option AnswerReservation → Bool
is_active_view none = false
is_active_view (some v) = v.active

-- The failure once the reservation has been locked again, after all other locks.
abbrev pub failure_now : Option AnswerFailure → Option AnswerReservation → Option AnswerFailure
failure_now (some why) current = some why
failure_now none current = if is_active_view current then none else some reservation_expired

abbrev pub is_open_attempt : Option AnswerAttempt → Bool
is_open_attempt none = false
is_open_attempt (some a) = is_started a.state

-- `complete` of a locked request.
unfoldable pub complete_locked :
    ℕ → ℕ → ℕ → Generated → LockedRequest → Option AnswerFailure → Clock → Tables → Option Tables
complete_locked owner id attempt g l failure clock db =
    if is_running l.request.state && is_open_attempt (find_attempt owner id attempt db.answers)
    then finish_and_settle owner id
        (final l
          (failure_now failure
            (reservation_of owner l.request.reservation_id clock.relocked_at db.ledger))
          g)
        (usage_of g) l.request clock db
    else some db

-- `complete`. The first read takes no lock: `seen` is the table as it finds it.
unfoldable pub complete_answer :
    Setup → ℕ → ℕ → ℕ → Generated → List AnswerRequest → Clock → Tables → Option Tables
complete_answer setup owner id attempt g seen clock db = elim (read owner id seen) [
  | none ↦ some db
  | some reference ↦ elim (lock owner id clock.locked_at db.answers) [
    | none ↦ some db
    | some l ↦
        complete_locked owner id attempt g l (fences setup reference clock.fenced_at db).failure
          clock db
  ]
]
