-- ===== src/Answers/Scanner/Sweeps.antt =====
-- A run and a sweep change the requests and the attempts by the changes of `Requests.Changes` alone.
use devfootnote_project.Answers.Completion.{Generated, complete_answer}
use devfootnote_project.Answers.Completion.Endings.{complete_answer-Changes}
use devfootnote_project.Answers.Execution.{Call, start_answer}
use devfootnote_project.Answers.Execution.Traces.{start_answer-Changes}
use devfootnote_project.Answers.Fences.{Setup, Tables}
use devfootnote_project.Answers.Requests.{reserve_batch}
use devfootnote_project.Answers.Requests.Attempts.{IsConsistent, reserve_batch-IsConsistent}
use devfootnote_project.Answers.Requests.Changes.{Changes, append, unchanged}
use devfootnote_project.Answers.Requests.Receipts.{Changes-IsConsistent}
use devfootnote_project.Answers.Scanner.{
  Turn, after_start, process, process_started, sweep, sweep_batch, sweep_reserved, zip_turns,
}
use devfootnote_project.Answers.Schema.{AnswerRequest, Answers}
use devfootnote_project.Base.{
  Bool, Bool-cases, List, Option, [], inl, inr, none, refl, some, ℕ, ◌∷◌, ◌≡◌,
}
use devfootnote_project.Usage.Cleanup.{batch}

process_started-Changes :
    (setup : Setup) (generate : Call → Generated) (owner id : ℕ) (turn : Turn) (db : Tables)
    (o : Option (Option Call × Tables))
    → start_answer setup owner id turn.attempt_id db.answers.requests turn.starting db ≡ o
    → Changes db.answers (process_started setup generate owner id turn db o).1.answers
unfolding process_started
process_started-Changes setup generate owner id turn db none e = unchanged
process_started-Changes setup generate owner id turn db (some (none, after)) e =
    start_answer-Changes setup owner id turn.attempt_id db.answers.requests turn.starting db e
process_started-Changes setup generate owner id turn db (some (some call, after)) e =
    let begun_changes =
      start_answer-Changes setup owner id turn.attempt_id db.answers.requests turn.starting db e in
    elim (Bool-cases setup.has_provider) [
      | inr absent ↦ simp absent begun_changes
      | inl present ↦ simp present (completed_changes begun_changes _ refl)
    ]
  where
    completed_changes :
        Changes db.answers after.answers
        → (o : Option Tables)
        → complete_answer setup owner id call.attempt_id
            (generate call)
            after.answers.requests
            turn.completing
            after
          ≡ o
        → Changes db.answers (after_start after o).1.answers
    completed_changes begun_changes none h = begun_changes
    completed_changes begun_changes (some u) h = append begun_changes (
        complete_answer-Changes setup owner id call.attempt_id (generate call)
          after.answers.requests turn.completing after h)

process-Changes :
    (setup : Setup) (generate : Call → Generated) (owner id : ℕ) (turn : Turn) (db : Tables)
    → Changes db.answers (process setup generate owner id turn db).1.answers
unfolding process
process-Changes setup generate owner id turn db =
    process_started-Changes setup generate owner id turn db _ refl

sweep_batch-Changes :
    (setup : Setup) (generate : Call → Generated) (turns : List ((ℕ × ℕ) × Option Turn))
    (db : Tables)
    → Changes db.answers (sweep_batch setup generate turns db).1.answers
unfolding sweep_batch
sweep_batch-Changes setup generate [] db = unchanged
sweep_batch-Changes setup generate ((key, none) ∷ rest) db = unchanged
sweep_batch-Changes setup generate (((owner, id), some turn) ∷ rest) db =
    let run_changes = process-Changes setup generate owner id turn db in
    let after = (process setup generate owner id turn db).1 in
    elim (Bool-cases (process setup generate owner id turn db).0) [
      | inl returned ↦
          rw returned (append run_changes (sweep_batch-Changes setup generate rest after))
      | inr threw ↦ rw threw run_changes
    ]

-- A sweep of the scanner, whichever of its runs throw, keeps the states of the requests in agreement
-- with the attempts to answer them.
pub sweep-IsConsistent :
    (setup : Setup) (generate : Call → Generated) (held_elsewhere : AnswerRequest → Bool)
    (chosen_at now : ℕ) (turns : ℕ → Option Turn) (db : Tables)
    → IsConsistent db.answers
    → IsConsistent (sweep setup generate held_elsewhere chosen_at now turns db).1.answers
unfolding sweep sweep_reserved
sweep-IsConsistent setup generate held_elsewhere chosen_at now turns db c =
    go (reserve_batch held_elsewhere chosen_at now db.answers) refl
  where
    go :
        (o : Option (List (ℕ × ℕ) × Answers))
        → reserve_batch held_elsewhere chosen_at now db.answers ≡ o
        → IsConsistent (sweep_reserved setup generate turns db o).1.answers
    go none e = c
    go (some (batch, answers)) e =
        Changes-IsConsistent
          (sweep_batch-Changes setup generate (zip_turns batch turns 0)
            (record db { answers = answers }))
          (reserve_batch-IsConsistent held_elsewhere chosen_at now db.answers e c)
