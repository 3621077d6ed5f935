-- ===== src/Answers/Admission.antt =====
-- `generate` of apps/api/src/modules/answers/answers.service.ts: the admission of a question. What
-- the user is shown afterwards is the `read` of `View`.
use mathlib.Core.Option
use devfootnote_project.Answers.Fences.{Tables}
use devfootnote_project.Answers.Safety.{is_space}
use devfootnote_project.Answers.Schema.{
  AnswerClaim, AnswerRequest, Evidence, held, insert_request, published,
}
use devfootnote_project.Answers.View.{FoundRequest, find_request}
use devfootnote_project.Base.{
  Bool, List, Option, [], any, coalesce, every, false, if◌then◌else◌, leb, length, ltb, none, not,
  some, true, ℕ, ◌&&◌, ◌*◌, ◌++◌, ◌+◌, ◌==◌, ◌∷◌,
}
use devfootnote_project.Materials.Current.{EvidenceTarget}
use devfootnote_project.Materials.Schema.{ChunkRow}
use devfootnote_project.Usage.Budget.{Period, ReservationInput, ReservationPolicy, Supply}
use devfootnote_project.Usage.Reservations.{EmbeddingConsent}
use devfootnote_project.Usage.Schema.{Ledger, grounded_answer}

-- `AnswerPolicy`, as far as an admission reads it; `budget` is what the reservation reads.
pub record AnswerPolicy : Type 0 where
  pub budget : ReservationPolicy
  pub request_maximum : List ℕ
  pub reservation_seconds : ℕ
  pub receipt_retention_days : ℕ
  pub answer_retention_seconds : ℕ

-- A turn of the conversation so far: the request that was answered, and its question.
pub record PastTurn : Type 0 where
  pub request_id : ℕ
  pub question : List ℕ

-- `AnswerCommand`
pub record AnswerCommand : Type 0 where
  pub request_id : ℕ
  pub question : List ℕ
  pub evidence : List EvidenceTarget
  pub history : List PastTurn

-- The server's policies of answers and of embeddings, the calendar, and the libraries: NFKC with lower
-- case; the digest of a text; the digest of the JSON of a command with its question trimmed and its
-- targets sorted, and the text of such a digest; the JSON of a question with its history; and the
-- length of a text in UTF-8.
pub record Server : Type 0 where
  pub policy : Option AnswerPolicy
  pub embedding_policy : Option ℕ
  pub utc_month : ℕ → Period
  pub fold : List ℕ → List ℕ
  pub digest : List ℕ → ℕ
  pub command_digest : AnswerCommand → ℕ
  pub digest_text : ℕ → List ℕ
  pub compose : List ℕ → List (List ℕ × List ℕ) → List ℕ
  pub byte_length : List ℕ → ℕ

-- The readings of the clock: by the reads, by the row's default, and by the insert.
pub record AdmissionClock : Type 0 where
  pub read_at : ℕ
  pub created_at : ℕ
  pub inserted_at : ℕ
  pub supply : Supply

-- `AnswerError`, as far as an admission throws it.
pub data AnswerError : Type 0 where
  not_configured consent_required conflict evidence_unavailable : AnswerError

-- The transaction committed, or threw one of the errors of the module, or another one.
pub data Admission : Type 0 where
  admitted : Tables → Admission
  refused : AnswerError → Admission
  broken : Admission

unfoldable pub trim_start : List ℕ → List ℕ
trim_start [] = []
trim_start (c ∷ cs) = let rest = trim_start cs in if is_space c then rest else c ∷ cs

unfoldable pub trim_end : List ℕ → List ℕ
trim_end [] = []
trim_end (c ∷ cs) =
    let rest = trim_end cs in if is_space c && (length rest == 0) then [] else c ∷ rest

-- `text.trim()`
unfoldable pub trim : List ℕ → List ℕ
unfolding trim_start trim_end
trim text = trim_end (trim_start text)

abbrev pub sorts_before : EvidenceTarget → EvidenceTarget → Bool
sorts_before a b = leb a.material_id b.material_id

-- The materials of the targets are all different.
abbrev pub all_different : List EvidenceTarget → Bool
all_different [] = true
all_different (t ∷ ts) =
    not (any (λ (u : EvidenceTarget). u.material_id == t.material_id) ts) && all_different ts

abbrev is_published_row : AnswerRequest → Bool
is_published_row r = elim r.state [ published ↦ true | _ ↦ false ]

-- The answer of a past turn may be told to the provider once more: it is about the one target.
abbrev pub may_retell : ℕ → EmbeddingConsent → List EvidenceTarget → FoundRequest → Bool
may_retell policy c (target ∷ []) f =
    f.answer_live
    && is_published_row f.request
    && (f.request.consent_epoch == c.epoch)
    && (f.request.config_fingerprint == policy)
    && ltb 0 (length f.request.evidence)
    && every
        (λ (e : Evidence).
          (e.material_id == target.material_id) && (e.revision_id == target.revision_id))
        f.request.evidence
may_retell policy c _ f = false

-- `claims.map(claim => claim.text).join('\n')`
pub join_claims : List AnswerClaim → List ℕ
join_claims [] = []
join_claims (c ∷ []) = c.text
join_claims (c ∷ d ∷ cs) = c.text ++ 10 ∷ join_claims (d ∷ cs)

-- The turns with their answers; `none` is the error `evidence_unavailable`.
unfoldable pub retell :
    ℕ
    → EmbeddingConsent
    → List EvidenceTarget
    → ℕ
    → ℕ
    → List AnswerRequest
    → List PastTurn
    → Option (List (List ℕ × List ℕ))
unfolding join_claims
retell policy c targets owner now rows [] = some []
retell policy c targets owner now rows (t ∷ ts) =
    let rest = retell policy c targets owner now rows ts in
    elim (find_request owner t.request_id now rows) [
      | none ↦ none
      | some f ↦
          if may_retell policy c targets f
          then Option.map
              (λ turns. (t.question, join_claims (coalesce f.request.claims [])) ∷ turns) rest
          else none
    ]

-- `history.length ? JSON.stringify({ question, history }) : question`
abbrev pub in_context : Server → List ℕ → List (List ℕ × List ℕ) → List ℕ
in_context server question [] = question
in_context server question (h ∷ hs) = server.compose question (h ∷ hs)

-- The oldest turns are left out until the rest fits, but for the last one.
unfoldable pub fit_history : Server → List ℕ → List (List ℕ × List ℕ) → List (List ℕ × List ℕ)
fit_history server question [] = []
fit_history server question (h ∷ []) = h ∷ []
fit_history server question (h ∷ i ∷ hs) =
    let rest = fit_history server question (i ∷ hs) in
    if ltb 20000 (server.byte_length (server.compose question (h ∷ i ∷ hs)))
    then rest
    else h ∷ i ∷ hs

-- The evidence of the chunks, named from 1.
unfoldable pub evidence_from : (List ℕ → ℕ) → ℕ → List ChunkRow → List Evidence
evidence_from digest n [] = []
evidence_from digest n (c ∷ cs) =
    record {
      evidence_id = n;
      material_id = c.material_id;
      revision_id = c.revision_id;
      chunk_id = c.id;
      content_hash = digest c.chunk.text;
      start_offset = c.chunk.start_offset;
      end_offset = c.chunk.end_offset;
    }
    ∷ evidence_from digest (n + 1) cs

-- The row that `reserve` of the repository inserts.
abbrev pub new_request :
    ℕ → ℕ → ℕ → List ℕ → List Evidence → ℕ → ℕ → AnswerPolicy → AdmissionClock → AnswerRequest
new_request owner id fingerprint question evidence reservation epoch policy clock = record {
  owner_id = owner;
  request_id = id;
  fingerprint = fingerprint;
  config_fingerprint = policy.budget.fingerprint;
  consent_epoch = epoch;
  reservation_id = some reservation;
  state = held;
  question = some question;
  evidence = evidence;
  claims = none;
  failure = none;
  created_at = clock.created_at;
  expires_at = clock.inserted_at + policy.reservation_seconds * 1000;
  answer_expires_at = none;
  dedupe_expires_at = clock.inserted_at + policy.receipt_retention_days * 86400000;
  scan_after = clock.created_at;
  answer_retention_seconds = policy.answer_retention_seconds;
}

abbrev pub cost_input : ℕ → ℕ → List ℕ → ℕ → ℕ → AnswerPolicy → ReservationInput
cost_input owner id fingerprint epoch amount policy = record {
  owner_id = owner;
  request_id = id;
  fingerprint = fingerprint;
  epoch = epoch;
  amount = amount;
  policy = policy.budget;
  purpose = grounded_answer;
}

-- The insert, once the cost is reserved.
abbrev pub insert_admitted : AnswerRequest → Ledger → Tables → Admission
insert_admitted new ledger db = elim (insert_request new db.answers.requests) [
  | none ↦ broken
  | some rows ↦
      admitted (record db { ledger = ledger; answers = record db.answers { requests = rows } })
]
