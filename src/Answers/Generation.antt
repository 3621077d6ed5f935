-- ===== src/Answers/Generation.antt =====
-- `generate` of apps/api/src/modules/answers/answers.service.ts, put together from the parts of
-- `Admission`: one transaction under the lock of the owner's consent, which decides between two
-- commands of one request.
pub mod Once
pub mod Tests
use devfootnote_project.Answers.Admission.{
  Admission, AdmissionClock, AnswerCommand, AnswerPolicy, Server, admitted, all_different, broken,
  conflict, consent_required, cost_input, evidence_from, evidence_unavailable, fit_history,
  in_context, insert_admitted, new_request, not_configured, refused, retell, sorts_before, trim,
}
use devfootnote_project.Answers.Fences.{Tables}
use devfootnote_project.Answers.View.{find_request}
use devfootnote_project.Base.{
  List, [], holds, if◌then◌else◌, length, ltb, none, not, some, ℕ, ◌==◌, ◌||◌, ◌∷◌,
}
use devfootnote_project.Base.Table.{order_by}
use devfootnote_project.Indexing.Schema.{Index}
use devfootnote_project.Materials.Schema.{ChunkRow}
use devfootnote_project.Search.Evidence.{snapshot_answer_evidence}
use devfootnote_project.Usage.Answering.{big_int}
use devfootnote_project.Usage.Budget.{ReservationResult, accepted, reserve_ai_budget}
use devfootnote_project.Usage.Consents.{lock_row, view}
use devfootnote_project.Usage.Reservations.{EmbeddingConsent}

-- `reserve` of the costs and of the repository. The costs' errors are not those of this module.
unfoldable pub reserve_and_insert :
    Server
    → ℕ
    → AnswerCommand
    → List ℕ
    → List ChunkRow
    → ℕ
    → AnswerPolicy
    → AdmissionClock
    → Tables
    → Admission
reserve_and_insert server owner cmd question chunks epoch policy clock db =
    let fingerprint = server.command_digest cmd in
    elim (big_int policy.request_maximum) [
      | none ↦ broken
      | some amount ↦
          elim (reserve_ai_budget server.utc_month
            (cost_input owner cmd.request_id (server.digest_text fingerprint) epoch amount policy)
            clock.supply db.ledger) [
              | none ↦ broken
              | some (ReservationResult.refused why, ledger) ↦ broken
              | some (accepted reservation, ledger) ↦
                  insert_admitted
                    (new_request owner cmd.request_id fingerprint question
                      (evidence_from server.digest 1 chunks) reservation epoch policy clock)
                    ledger db
            ]
    ]

-- The choice of the evidence; a material that is not current is an error of its module.
unfoldable pub choose_evidence :
    Server
    → Index
    → ℕ
    → AnswerCommand
    → List ℕ
    → ℕ
    → AnswerPolicy
    → AdmissionClock
    → Tables
    → Admission
choose_evidence server index owner cmd question epoch policy clock db =
    elim (snapshot_answer_evidence server.fold server.embedding_policy
      (not (length cmd.evidence == 1)) owner question cmd.evidence db.ledger.consents index
      db.store) [
        | none ↦ broken
        | some [] ↦ refused evidence_unavailable
        | some (chunk ∷ chunks) ↦
            reserve_and_insert server owner cmd question (chunk ∷ chunks) epoch policy clock db
      ]

-- The question in its context, if that is not too long.
unfoldable pub ask_in_context :
    Server
    → Index
    → ℕ
    → AnswerCommand
    → List (List ℕ × List ℕ)
    → ℕ
    → AnswerPolicy
    → AdmissionClock
    → Tables
    → Admission
ask_in_context server index owner cmd history epoch policy clock db =
    let question = in_context server cmd.question (fit_history server cmd.question history) in
    if ltb 20000 (server.byte_length question)
    then refused conflict
    else choose_evidence server index owner cmd question epoch policy clock db

-- A request that is not there yet. `c` is the consent under its lock.
unfoldable pub admit_request :
    Server → Index → ℕ → AnswerCommand → EmbeddingConsent → AdmissionClock → Tables → Admission
admit_request server index owner cmd c clock db = elim server.policy [
  | none ↦ refused not_configured
  | some policy ↦
      if not c.granted || not (holds c.config_fingerprint policy.budget.fingerprint)
      then refused consent_required
      else elim (retell policy.budget.fingerprint c cmd.evidence owner clock.read_at
          db.answers.requests cmd.history) [
            | none ↦ refused evidence_unavailable
            | some history ↦ ask_in_context server index owner cmd history c.epoch policy clock db
          ]
]

-- The transaction, for a command whose question is trimmed and whose targets are sorted.
unfoldable pub admit : Server → Index → ℕ → AnswerCommand → AdmissionClock → Tables → Admission
admit server index owner cmd clock db =
    let (c, consents) = lock_row owner db.consents in
    let locked : Tables = record db { consents = consents } in
    elim (find_request owner cmd.request_id clock.read_at db.answers.requests) [
      | none ↦ admit_request server index owner cmd (view c) clock locked
      | some f ↦
          if f.request.fingerprint == server.command_digest cmd
          then admitted locked
          else refused conflict
    ]

abbrev pub prepared : AnswerCommand → AnswerCommand
prepared cmd = record cmd {
  question = trim cmd.question;
  evidence = order_by sorts_before cmd.evidence;
}

-- `generate`, up to its last read.
unfoldable pub generate : Server → Index → ℕ → AnswerCommand → AdmissionClock → Tables → Admission
generate server index owner cmd clock db =
    if (length (trim cmd.question) == 0) || not (all_different (prepared cmd).evidence)
    then refused conflict
    else admit server index owner (prepared cmd) clock db
