-- ===== src/Answers/View.antt =====
-- `read` of apps/api/src/modules/answers/answers.service.ts: what a user is shown of an answer. The
-- statement of the repository, apps/api/src/modules/answers/answers.repository.ts, reads the row and
-- tests its times.
pub mod Shown
use devfootnote_project.Answers.Fences.{Tables, is_source, targets_of}
use devfootnote_project.Answers.Schema.{
  AnswerClaim, AnswerFailure, AnswerRequest, AnswerState, Evidence, consent_changed,
  evidence_changed, expired, invalidated, is_answered, is_pending, lapsed, names_request, published,
}
use devfootnote_project.Base.{
  Bool, List, Option, [], any, coalesce, every, exceeds, false, holds, if◌then◌else◌, length, ltb,
  none, not, some, true, ℕ, ◌&&◌, ◌==◌, ◌||◌,
}
use devfootnote_project.Base.Table.{first, select}
use devfootnote_project.Materials.Evidence.{lock_evidence}
use devfootnote_project.Materials.Schema.{ChunkRow}
use devfootnote_project.Usage.Consents.{lock_row, view}
use devfootnote_project.Usage.Reservations.{EmbeddingConsent}
use devfootnote_project.Usage.Schema.{Consent}

-- What the repository's `read` returns.
pub record FoundRequest : Type 0 where
  pub request : AnswerRequest
  pub execution_live : Bool
  pub answer_live : Bool

abbrev pub found_view : ℕ → AnswerRequest → FoundRequest
found_view now r = record {
  request = r;
  execution_live = ltb now r.expires_at;
  answer_live = exceeds r.answer_expires_at now;
}

unfoldable pub find_request : ℕ → ℕ → ℕ → List AnswerRequest → Option FoundRequest
find_request owner id now rows = elim (first (names_request owner id) rows) [
  | none ↦ none
  | some r ↦ some (found_view now r)
]

-- The state and the failure that are shown.
pub record Verdict : Type 0 where
  pub state : AnswerState
  pub failure : Option AnswerFailure

abbrev verdict : AnswerState → Option AnswerFailure → Verdict
verdict state failure = record { state = state; failure = failure }

-- The time of the answer, or of its execution, is over.
abbrev pub is_over : AnswerState → FoundRequest → Bool
is_over state f =
    (is_answered state && not f.answer_live) || (is_pending state && not f.execution_live)

abbrev pub same_consent : Option ℕ → EmbeddingConsent → AnswerRequest → Bool
same_consent policy c r =
    c.granted
    && (c.epoch == r.consent_epoch)
    && holds c.config_fingerprint r.config_fingerprint
    && holds policy r.config_fingerprint

abbrev pub has_source : (List ℕ → ℕ) → List Evidence → Option (List ChunkRow) → Bool
has_source digest evidence none = false
has_source digest evidence (some chunks) = every (λ e. any (is_source digest e) chunks) evidence

-- The verdict on a row whose evidence has been locked, and the row once more after that.
abbrev pub after_evidence : Bool → AnswerRequest → Verdict
after_evidence kept r =
    if kept then verdict r.state r.failure else verdict invalidated (some evidence_changed)

abbrev pub after_locks : Verdict → Option FoundRequest → Verdict
after_locks v none = verdict expired (some lapsed)
after_locks v (some f) = if is_over v.state f then verdict expired (some lapsed) else v

abbrev is_lapsed : Option AnswerFailure → Bool
is_lapsed (some lapsed) = true
is_lapsed _ = false

unfoldable pub judge :
    (List ℕ → ℕ)
    → Option ℕ
    → EmbeddingConsent
    → FoundRequest
    → Option (List ChunkRow)
    → Option FoundRequest
    → Verdict
judge digest policy consent_now f chunks later =
    let r = f.request in
    if is_answered r.state && (length r.evidence == 0)
    then verdict (if is_lapsed r.failure then expired else invalidated) r.failure
    else if not (same_consent policy consent_now r)
    then verdict invalidated (some consent_changed)
    else if is_over r.state f
    then verdict expired (some lapsed)
    else if is_answered r.state || is_pending r.state
    then after_locks (after_evidence (has_source digest r.evidence chunks) r) later
    else verdict r.state r.failure

abbrev pub is_published : AnswerState → Bool
is_published published = true
is_published _ = false

pub record AnswerView : Type 0 where
  pub state : AnswerState
  pub failure : Option AnswerFailure
  pub claims : List AnswerClaim
  pub citations : List Evidence
  pub answer_expires_at : Option ℕ

-- `used.has(id)` of the names that the claims cite.
abbrev pub is_cited : List AnswerClaim → ℕ → Bool
is_cited claims id = any (λ (c : AnswerClaim). any (λ used. used == id) c.evidence_ids) claims

-- The claims and the citations of a row, if it is visible. A citation shows its evidence without the
-- digest, and a link made of it.
abbrev pub shown_claims : Bool → AnswerRequest → List AnswerClaim
shown_claims visible r = if visible then coalesce r.claims [] else []

abbrev pub shown_citations : Bool → AnswerRequest → List Evidence
shown_citations visible r =
    if visible
    then select (λ (e : Evidence). is_cited (shown_claims visible r) e.evidence_id) r.evidence
    else []

unfoldable pub show_answer : AnswerRequest → Verdict → AnswerView
show_answer r v = record {
  state = v.state;
  failure = v.failure;
  claims = shown_claims (is_published v.state) r;
  citations = shown_citations (is_published v.state) r;
  answer_expires_at = if is_answered v.state then r.answer_expires_at else none;
}

-- `read`: the answer and the consents, to which the lock adds a missing row. `later` is the table as
-- the second read finds it. `none` is the error `not_found`.
unfoldable pub read_answer :
    (List ℕ → ℕ)
    → Option ℕ
    → ℕ
    → ℕ
    → ℕ
    → ℕ
    → Tables
    → List AnswerRequest
    → Option (AnswerView × List Consent)
read_answer digest policy owner id found_at later_at db later =
    let (c, consents) = lock_row owner db.consents in
    elim (find_request owner id found_at db.answers.requests) [
      | none ↦ none
      | some f ↦ some (
        show_answer f.request (
            judge digest policy (view c) f
              (lock_evidence owner (targets_of f.request.evidence) db.store)
              (find_request owner id later_at later)),
        consents,
      )
    ]
