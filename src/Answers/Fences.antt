-- ===== src/Answers/Fences.antt =====
-- `fences` of apps/worker/src/modules/answers/answers.service.ts: the consent, the materials and the
-- reservation of a request, checked on rows locked in the transaction that decides.
use mathlib.Core.Option
use devfootnote_project.Answers.Schema.{
  AnswerFailure, AnswerRequest, Answers, Evidence, consent_changed, evidence_changed,
  reservation_expired,
}
use devfootnote_project.Base.{
  Bool, List, Option, [], any, every, false, holds, if◌then◌else◌, length, ltb, none, not, some, ℕ,
  ◌&&◌, ◌==◌, ◌∷◌,
}
use devfootnote_project.Base.Table.{first}
use devfootnote_project.Materials.Current.{EvidenceTarget, lock_answer_evidence}
use devfootnote_project.Materials.Schema.{ChunkRow, Store}
use devfootnote_project.Usage.Answering.{AnswerReservation, lock_answer_reservation}
use devfootnote_project.Usage.Consents.{owned_by, view}
use devfootnote_project.Usage.Reservations.{EmbeddingConsent}
use devfootnote_project.Usage.Schema.{Consent, Ledger}

-- The tables that a transaction sees.
pub record Tables : Type 0 where
  pub consents : List Consent
  pub store : Store
  pub ledger : Ledger
  pub answers : Answers

-- The readings of the clock by the statements of one transaction, in their order.
pub record Clock : Type 0 where
  pub fenced_at : ℕ
  pub locked_at : ℕ
  pub relocked_at : ℕ
  pub receipt_at : ℕ
  pub deleted_at : ℕ
  pub dropped_at : ℕ
  pub started_at : ℕ
  pub exposed_at : ℕ
  pub finished_at : ℕ
  pub ended_at : ℕ
  pub settled_at : ℕ

-- The approved policy's fingerprint, if the worker has a policy; whether it has a provider; and the
-- SHA-256 digest of a text.
pub record Setup : Type 0 where
  pub policy : Option ℕ
  pub has_provider : Bool
  pub digest : List ℕ → ℕ

abbrev target_of : Evidence → EvidenceTarget
target_of e = record { material_id = e.material_id; revision_id = e.revision_id }

-- `map.set(target.materialId, target)`: a key keeps the place where it came first.
unfoldable pub set_target : EvidenceTarget → List EvidenceTarget → List EvidenceTarget
set_target t [] = t ∷ []
set_target t (u ∷ us) = if t.material_id == u.material_id then t ∷ us else u ∷ set_target t us

set_targets : List Evidence → List EvidenceTarget → List EvidenceTarget
set_targets [] known = known
set_targets (e ∷ es) known = set_targets es (set_target (target_of e) known)

-- `[...new Map(…).values()]`
unfoldable pub targets_of : List Evidence → List EvidenceTarget
unfolding set_targets
targets_of evidence = set_targets evidence []

-- The chunk is the one that the evidence was taken from, unchanged.
abbrev pub is_source : (List ℕ → ℕ) → Evidence → ChunkRow → Bool
is_source digest e c =
    (c.id == e.chunk_id)
    && (c.chunk.start_offset == e.start_offset)
    && (c.chunk.end_offset == e.end_offset)
    && (digest c.chunk.text == e.content_hash)

abbrev pub valid_evidence : (List ℕ → ℕ) → List Evidence → Option (List ChunkRow) → Bool
valid_evidence digest evidence none = false
valid_evidence digest evidence (some chunks) =
    ltb 0 (length evidence) && every (λ e. any (is_source digest e) chunks) evidence

abbrev pub valid_consent : Option ℕ → Option EmbeddingConsent → AnswerRequest → Bool
valid_consent (some policy) (some c) r =
    (policy == r.config_fingerprint)
    && c.granted
    && (c.epoch == r.consent_epoch)
    && holds c.config_fingerprint r.config_fingerprint
valid_consent _ _ r = false

abbrev pub valid_reservation : Option AnswerReservation → AnswerRequest → Bool
valid_reservation none r = false
valid_reservation (some v) r =
    v.active && (v.consent_epoch == r.consent_epoch) && (v.fingerprint == r.config_fingerprint)

-- `lockConsent`
unfoldable pub lock_answer_consent : ℕ → List Consent → Option EmbeddingConsent
lock_answer_consent owner rows = Option.map view (first (owned_by owner) rows)

abbrev pub reservation_of : ℕ → Option ℕ → ℕ → Ledger → Option AnswerReservation
reservation_of owner id now ledger =
    Option.bind id (λ r. lock_answer_reservation owner r now ledger)

pub record Fenced : Type 0 where
  pub chunks : Option (List ChunkRow)
  pub failure : Option AnswerFailure

-- `fences`, for the row of a request.
unfoldable pub fences : Setup → AnswerRequest → ℕ → Tables → Fenced
fences setup r now db =
    let chunks = lock_answer_evidence r.owner_id (targets_of r.evidence) db.store in
    record {
      chunks = chunks;
      failure =
          if not (valid_consent setup.policy (lock_answer_consent r.owner_id db.consents) r)
          then some consent_changed
          else if not (valid_evidence setup.digest r.evidence chunks)
          then some evidence_changed
          else if not
              (valid_reservation (reservation_of r.owner_id r.reservation_id now db.ledger) r)
          then some reservation_expired
          else none;
    }
