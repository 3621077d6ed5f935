-- ===== src/Answers/Completion/Endings.antt =====
-- A completion changes the requests and the attempts by the changes of
-- `Requests.Changes` alone.
use devfootnote_project.Answers.Completion.{
  Generated, complete_answer, complete_locked, failure_now, final, is_open_attempt, usage_of,
}
use devfootnote_project.Answers.Execution.{finish_and_settle}
use devfootnote_project.Answers.Execution.Traces.{finish_and_settle-some, one-Change}
use devfootnote_project.Answers.Fences.{Clock, Setup, Tables, fences, reservation_of}
use devfootnote_project.Answers.Requests.{Ending, LockedRequest, find_attempt, lock, read}
use devfootnote_project.Answers.Requests.Changes.{Changes, finishes, is_final, unchanged}
use devfootnote_project.Answers.Schema.{AnswerFailure, AnswerRequest, is_running, is_started}
use devfootnote_project.Base.{
  Bool-cases, List, Option, Option-cases, arith, false, inl, inr, some, subst, true, ℕ, ◌&&◌, ◌≡◌,
}

final-IsFinal :
    (l : LockedRequest) (failure : Option AnswerFailure) (g : Generated)
    → (is_final (final l failure g).state ≡ true) × (is_started (final l failure g).outcome ≡ false)
final-IsFinal l failure g = (ground arith, ground arith)

-- The ending that `complete` writes for a locked request.
abbrev pub ending_now :
    ℕ → LockedRequest → Option AnswerFailure → Generated → Clock → Tables → Ending
ending_now owner l failure g clock db =
    final l
      (failure_now failure
        (reservation_of owner l.request.reservation_id clock.relocked_at db.ledger))
      g

complete_locked-Changes :
    (owner id attempt : ℕ) (g : Generated) (l : LockedRequest) (failure : Option AnswerFailure)
    (clock : Clock) (db : Tables) {after : Tables}
    → complete_locked owner id attempt g l failure clock db ≡ some after
    → Changes db.answers after.answers
unfolding complete_locked
complete_locked-Changes owner id attempt g l failure clock db {after} e =
    elim (Bool-cases
      (is_running l.request.state && is_open_attempt (find_attempt owner id attempt db.answers))) [
        | inr closed ↦
            let eq : db ≡ after = ground arith in
            subst (λ (u : Tables). Changes db.answers u.answers) eq unchanged
        | inl running_now ↦
            let ending = ending_now owner l failure g clock db in
            let h : finish_and_settle owner id ending (usage_of g) l.request clock db ≡ some after =
              ground arith in
            let (e_state, e_outcome) =
              final-IsFinal l
                (failure_now failure
                  (reservation_of owner l.request.reservation_id clock.relocked_at db.ledger))
                g in
            one-Change (
              finishes owner id ending clock.finished_at clock.ended_at after.answers e_state
                e_outcome
                (finish_and_settle-some owner id ending (usage_of g) l.request clock db h).0)
      ]

pub complete_answer-Changes :
    (setup : Setup) (owner id attempt : ℕ) (g : Generated) (seen : List AnswerRequest)
    (clock : Clock) (db : Tables) {after : Tables}
    → complete_answer setup owner id attempt g seen clock db ≡ some after
    → Changes db.answers after.answers
unfolding complete_answer
complete_answer-Changes setup owner id attempt g seen clock db {after} e =
    elim (Option-cases (read owner id seen)) [
      | inl unseen ↦ same_tables (ground arith)
      | inr (reference, e_seen) ↦ elim (Option-cases (lock owner id clock.locked_at db.answers)) [
        | inl missing ↦ same_tables (ground arith)
        | inr (l, e_l) ↦
            complete_locked-Changes owner id attempt g l
              (fences setup reference clock.fenced_at db).failure clock db {after = after}
              (ground arith)
      ]
    ]
  where
    same_tables : db ≡ after → Changes db.answers after.answers
    same_tables eq = subst (λ (u : Tables). Changes db.answers u.answers) eq unchanged
