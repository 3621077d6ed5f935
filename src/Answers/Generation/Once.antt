-- ===== src/Answers/Generation/Once.antt =====
-- A command that is sent again once it has been admitted.
use devfootnote_project.Answers.Admission.{
  AdmissionClock, AnswerCommand, AnswerPolicy, Server, admitted, all_different, conflict,
  cost_input, evidence_from, fit_history, in_context, insert_admitted, new_request, refused, retell,
  trim,
}
use devfootnote_project.Answers.Fences.{Tables}
use devfootnote_project.Answers.Generation.{
  admit, admit_request, ask_in_context, choose_evidence, generate, prepared, reserve_and_insert,
}
use devfootnote_project.Answers.Schema.{AnswerRequest, insert_request, names_request}
use devfootnote_project.Answers.View.{find_request}
use devfootnote_project.Base.{
  Bool, Bool-cases, List, Option-cases, [], arith, if◌then◌else◌, inl, inr, length, not, refl, same,
  some, true, ℕ, ◌&&◌, ◌==◌, ◌∷◌, ◌≡◌,
}
use devfootnote_project.Base.Table.{first}
use devfootnote_project.Indexing.Schema.{Index}
use devfootnote_project.Materials.Schema.{ChunkRow}
use devfootnote_project.Search.Evidence.{snapshot_answer_evidence}
use devfootnote_project.Usage.Answering.{big_int}
use devfootnote_project.Usage.Budget.{ReservationResult, accepted, reserve_ai_budget}
use devfootnote_project.Usage.Consents.{lock_row, view}
use devfootnote_project.Usage.Reservations.{EmbeddingConsent}
use devfootnote_project.Usage.Schema.{Ledger}

-- The request is there, with the fingerprint of its command.
abbrev pub HasRow : ℕ → ℕ → ℕ → Tables → Type 0
HasRow owner id fingerprint db =
    (r : AnswerRequest) × (first (names_request owner id) db.answers.requests ≡ some r)
    × (r.fingerprint ≡ fingerprint)

insert_admitted-HasRow :
    (new : AnswerRequest) (ledger : Ledger) (db : Tables) {after : Tables}
    → insert_admitted new ledger db ≡ admitted after
    → HasRow new.owner_id new.request_id new.fingerprint after
unfolding insert_request
insert_admitted-HasRow new ledger db {after = after} e =
    let eq : after.answers.requests ≡ new ∷ db.answers.requests = ground arith in
    (new, ground arith, refl)

reserve_and_insert-HasRow :
    (server : Server) (owner : ℕ) (cmd : AnswerCommand) (question : List ℕ) (chunks : List ChunkRow)
    (epoch : ℕ) (policy : AnswerPolicy) (clock : AdmissionClock) (db : Tables) {after : Tables}
    → reserve_and_insert server owner cmd question chunks epoch policy clock db ≡ admitted after
    → HasRow owner cmd.request_id (server.command_digest cmd) after
unfolding reserve_and_insert
reserve_and_insert-HasRow server owner cmd question chunks epoch policy clock db {after = after} e =
    elim (Option-cases (big_int policy.request_maximum)) [
      | inl none_given ↦ absurd (ground arith)
      | inr (amount, given) ↦
          let input =
            cost_input owner cmd.request_id (server.digest_text (server.command_digest cmd)) epoch
              amount policy in
          elim (Option-cases (reserve_ai_budget server.utc_month input clock.supply db.ledger)) [
            | inl e' ↦ absurd (ground arith)
            | inr ((ReservationResult.refused why, ledger), e') ↦ absurd (ground arith)
            | inr ((accepted reservation, ledger), e') ↦
                insert_admitted-HasRow
                  (new_request owner cmd.request_id (server.command_digest cmd) question
                    (evidence_from server.digest 1 chunks) reservation epoch policy clock)
                  ledger db {after = after} (ground arith)
          ]
    ]

choose_evidence-HasRow :
    (server : Server) (index : Index) (owner : ℕ) (cmd : AnswerCommand) (question : List ℕ)
    (epoch : ℕ) (policy : AnswerPolicy) (clock : AdmissionClock) (db : Tables) {after : Tables}
    → choose_evidence server index owner cmd question epoch policy clock db ≡ admitted after
    → HasRow owner cmd.request_id (server.command_digest cmd) after
unfolding choose_evidence
choose_evidence-HasRow server index owner cmd question epoch policy clock db {after = after} e =
    elim (Option-cases (
      snapshot_answer_evidence server.fold server.embedding_policy (not (length cmd.evidence == 1))
        owner question cmd.evidence db.ledger.consents index db.store)) [
          | inl e' ↦ absurd (ground arith)
          | inr ([], empty) ↦ absurd (ground arith)
          | inr (chunk ∷ chunks, chosen) ↦
              reserve_and_insert-HasRow server owner cmd question (chunk ∷ chunks) epoch policy
                clock db {after = after} (ground arith)
        ]

admit_request-HasRow :
    (server : Server) (index : Index) (owner : ℕ) (cmd : AnswerCommand) (c : EmbeddingConsent)
    (clock : AdmissionClock) (db : Tables) {after : Tables}
    → admit_request server index owner cmd c clock db ≡ admitted after
    → HasRow owner cmd.request_id (server.command_digest cmd) after
unfolding admit_request ask_in_context
admit_request-HasRow server index owner cmd c clock db {after = after} e =
    elim (Option-cases server.policy) [
      | inl missing ↦ absurd (ground arith)
      | inr (policy, given) ↦
          elim (Option-cases (
            retell policy.budget.fingerprint c cmd.evidence owner clock.read_at db.answers.requests
              cmd.history)) [
                | inl e' ↦ absurd (ground arith)
                | inr (history, told) ↦
                    choose_evidence-HasRow server index owner cmd
                      (in_context server cmd.question (fit_history server cmd.question history))
                      c.epoch policy clock db {after = after} (ground arith)
              ]
    ]

admit-HasRow :
    (server : Server) (index : Index) (owner : ℕ) (cmd : AnswerCommand) (clock : AdmissionClock)
    (db : Tables) {after : Tables}
    → admit server index owner cmd clock db ≡ admitted after
    → HasRow owner cmd.request_id (server.command_digest cmd) after
unfolding admit find_request
admit-HasRow server index owner cmd clock db {after = after} e =
    elim (Option-cases (first (names_request owner cmd.request_id) db.answers.requests)) [
      | inl missing ↦
          admit_request-HasRow server index owner cmd (view (lock_row owner db.consents).0) clock
            (record db { consents = (lock_row owner db.consents).1 }) {after = after} (ground arith)
      | inr (r, found) ↦
          let same : r.fingerprint ≡ server.command_digest cmd = ground arith in
          let kept : after.answers.requests ≡ db.answers.requests = ground arith in
          (r, rw kept found, same)
    ]

-- A request that is there decides.
admit-decided :
    (server : Server) (index : Index) (owner : ℕ) (cmd : AnswerCommand) (clock : AdmissionClock)
    (db : Tables) {fingerprint : ℕ}
    → HasRow owner cmd.request_id fingerprint db
    → admit server index owner cmd clock db ≡ (
        if fingerprint == server.command_digest cmd
        then admitted (record db { consents = (lock_row owner db.consents).1 })
        else refused conflict)
unfolding admit find_request
admit-decided server index owner cmd clock db (r, found, same) = ground arith

-- The tests of `generate` before its transaction.
abbrev pub is_askable : AnswerCommand → Bool
is_askable cmd = not (length (trim cmd.question) == 0) && all_different (prepared cmd).evidence

generate-askable :
    (server : Server) (index : Index) (owner : ℕ) (cmd : AnswerCommand) (clock : AdmissionClock)
    (db : Tables)
    → generate server index owner cmd clock db ≡ (
        if is_askable cmd
        then admit server index owner (prepared cmd) clock db
        else refused conflict)
unfolding generate
generate-askable server index owner cmd clock db = ground arith

-- Once a command is admitted, a command with the same request, sent to the tables as they were left,
-- with whatever clock and index, costs nothing and adds no request: it is admitted with the tables
-- unchanged but for the row of the owner's consent, which is locked, if it passes the tests before the
-- transaction and has the same fingerprint, as the command itself does; any other is refused as a
-- conflict.
pub generate-once :
    (server : Server) (index later_index : Index) (owner : ℕ) (cmd again : AnswerCommand)
    (clock later_clock : AdmissionClock) (db : Tables) {after : Tables}
    → generate server index owner cmd clock db ≡ admitted after
    → again.request_id ≡ cmd.request_id
    → (is_askable cmd ≡ true)
      × (generate server later_index owner again later_clock after ≡ (
          if is_askable again
            && (server.command_digest (prepared cmd) == server.command_digest (prepared again))
          then admitted (record after { consents = (lock_row owner after.consents).1 })
          else refused conflict))
generate-once server index later_index owner cmd again clock later_clock db {after = after} e same =
    let shape = generate-askable server index owner cmd clock db in
    elim (Bool-cases (is_askable cmd)) [
      | inl askable ↦
          let row : HasRow owner again.request_id (server.command_digest (prepared cmd)) after =
            rw same (
              admit-HasRow server index owner (prepared cmd) clock db {after = after}
                (ground arith)) in
          let decided =
            admit-decided server later_index owner (prepared again) later_clock after row in
          (
            askable,
            ground
                (arith, decided, generate-askable server later_index owner again later_clock after),
          )
      | inr refused_first ↦ absurd (ground arith)
    ]
