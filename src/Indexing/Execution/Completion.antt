-- ===== src/Indexing/Execution/Completion.antt =====
-- embedding-execution.service.ts: `completeAttempt`. A component of a vector is an opaque
-- floating-point number; whether its rounding to 32 bits is finite, and whether it is not zero, are
-- parameters.
use mathlib.Core.Option
use devfootnote_project.Base.{
  Bool, List, Option, [], any, every, false, if◌then◌else◌, leb, length, ltb, none, not, some, true,
  ℕ, ◌&&◌, ◌*◌, ◌==◌, ◌||◌, ◌∷◌,
}
use devfootnote_project.Indexing.Execution.{
  Action, Answer, Closing, Database, Environment, Run, acted, fail_current_attempt, nothing_to_do,
  reject_fence, rejects, returns_with, throws, was_ignored, went_final, with_fenced_work,
}
use devfootnote_project.Indexing.Policy.{LockedWork, call_failed, holds_lease}
use devfootnote_project.Indexing.Schema.{calling, invalid_response}
use devfootnote_project.Indexing.Works.{ChunkVector, has_active_attempt, publish}
use devfootnote_project.Indexing.Works.Transitions.{work_id}
use devfootnote_project.Materials.Current.{CurrentIntent, chunks_of}
use devfootnote_project.Materials.Schema.{ChunkRow}
use devfootnote_project.Usage.Reservations.{record_call}

-- The result of a call of the provider.
pub record CallResult : Type 0 where
  pub config_fingerprint : ℕ
  pub vectors : List ChunkVector
  pub tokens : Option ℕ

pub data Completion : Type 0 where
  was_published : Completion
  closed : Closing → Completion

-- `geminiEmbeddingDimensions` and `geminiEmbeddingBatchLimit`
abbrev pub dimensions : ℕ
dimensions = 1536

abbrev pub batch_limit : ℕ
batch_limit = 20

abbrev pub valid_usage : Option ℕ → Bool
valid_usage none = true
valid_usage (some n) = ltb 0 n && leb n (batch_limit * 8192)

-- The receipt of the call; `none` is an exception.
unfoldable pub record_usage : LockedWork → ℕ → Option ℕ → Database → Option Database
record_usage w attempt_id tokens db = elim w.work.reservation_id [
  | none ↦ some db
  | some r ↦
      if valid_usage tokens
      then Option.map (λ ledger. record db { ledger = ledger })
          (record_call w.work.owner_id r attempt_id tokens db.ledger)
      else some db
]

abbrev pub completed : Run Closing → Run Completion
completed (returns_with was_ignored db) = returns_with (closed was_ignored) db
completed (returns_with c db) = returns_with (closed went_final) db
completed rejects = rejects
completed throws = throws

abbrev pub rejected_fence : Run Closing → Run Completion
rejected_fence (returns_with c db) = returns_with (closed c) db
rejected_fence rejects = rejects
rejected_fence throws = throws

unfoldable pub publish_result :
    (ℕ → Bool)
    → Environment
    → LockedWork
    → ℕ
    → CurrentIntent
    → CallResult
    → Database
    → Run Completion
publish_result nonzero env w attempt_id current result db =
    elim (publish nonzero db.store.chunks w attempt_id current.material_id current.revision_id
      result.vectors env.written_at db.index) [
        | none ↦ throws
        | some (published_now, index) ↦
            returns_with (if published_now then was_published else closed was_ignored)
              (record db { index = index })
      ]

abbrev pub completion_answer : Run (Answer Completion) → Option (Completion × Database)
completion_answer (returns_with nothing_to_do after) = some (closed was_ignored, after)
completion_answer (returns_with (acted c) after) = some (c, after)
completion_answer rejects = none
completion_answer throws = none

module _ (finite nonzero : ℕ → Bool) where
  abbrev pub valid_vector : ChunkVector → ChunkRow → Bool
  valid_vector v c =
      (v.chunk_id == c.id)
      && (length v.values == dimensions)
      && every finite v.values
      && any nonzero v.values

  -- One vector for each chunk, in order.
  abbrev pub match_chunks : List ChunkVector → List ChunkRow → Bool
  match_chunks [] [] = true
  match_chunks (v ∷ vs) (c ∷ cs) = valid_vector v c && match_chunks vs cs
  match_chunks _ _ = false

  abbrev pub valid_vectors : List ChunkVector → List ChunkRow → Bool
  valid_vectors vectors chunks = ltb 0 (length chunks) && match_chunks vectors chunks

  -- The part after the usage is recorded and the fences have passed.
  unfoldable pub complete_current :
      Environment → LockedWork → ℕ → CurrentIntent → CallResult → Database → Run Completion
  complete_current env w attempt_id current result db =
      let chunks = chunks_of w.work.owner_id current.material_id current.revision_id db.store in
      if valid_usage result.tokens && valid_vectors result.vectors chunks
      then publish_result nonzero env w attempt_id current result db
      else completed (fail_current_attempt env w (call_failed invalid_response) true false db)

  abbrev pub complete_open :
      Environment → LockedWork → ℕ → Option CurrentIntent → CallResult → Database → Run Completion
  complete_open env w attempt_id none result db = throws
  complete_open env w attempt_id (some current) result db =
      complete_current env w attempt_id current result db

  abbrev pub complete_action : Environment → ℕ → ℕ → CallResult → Action Completion
  complete_action env token attempt_id result w failure current db =
      if not (holds_lease w token calling)
        || not (result.config_fingerprint == w.work.config_fingerprint)
        || not (has_active_attempt w.work.id token attempt_id db.index)
      then returns_with (closed was_ignored) db
      else elim (record_usage w attempt_id result.tokens db) [
        | none ↦ throws
        | some recorded ↦ elim failure [
          | some f ↦ rejected_fence (reject_fence env w f true recorded)
          | none ↦ complete_open env w attempt_id current result recorded
        ]
      ]

  -- `completeAttempt`; `none` is an exception.
  unfoldable pub complete_attempt :
      Environment → ℕ → ℕ → ℕ → CallResult → Database → Database → Option (Completion × Database)
  complete_attempt env work_id token attempt_id result before db =
      completion_answer
        (with_fenced_work env work_id (complete_action env token attempt_id result) before db)
