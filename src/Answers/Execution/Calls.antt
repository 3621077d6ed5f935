-- ===== src/Answers/Execution/Calls.antt =====
-- When `start` lets the provider be called.
use devfootnote_project.Answers.Execution.{Call, begin_call, call_of, call_parts, callable}
use devfootnote_project.Answers.Fences.{Clock, Setup, Tables}
use devfootnote_project.Answers.Requests.{start}
use devfootnote_project.Answers.Schema.{AnswerRequest, Answers, is_running}
use devfootnote_project.Base.{
  Bool, Bool-cases, List, Option, [], arith, bind-some, false, inl, inr, none, not, refl, some,
  true, ℕ, ◌||◌, ◌∷◌, ◌≡◌,
}
use devfootnote_project.Materials.Schema.{ChunkRow}
use devfootnote_project.Usage.Answering.{expose_answer, given_text}

-- What `begin_call` has done when it returns a call.
pub begin_call-some :
    (owner id attempt reservation : ℕ) (call : Call) (clock : Clock) (db : Tables)
    {answer : Option Call} {after : Tables}
    → begin_call owner id attempt reservation call clock db ≡ some (answer, after)
    → (answers : Answers) × (start owner id attempt clock.started_at db.answers
        ≡ some (true, answers))
      × ((expose_answer owner reservation clock.exposed_at db.ledger).0 ≡ true)
      × (answer ≡ some call)
      × (after ≡ record db {
        answers = answers;
        ledger = (expose_answer owner reservation clock.exposed_at db.ledger).1;
      })
unfolding begin_call
begin_call-some owner id attempt reservation call clock db {answer} {after} =
    go (start owner id attempt clock.started_at db.answers) refl
  where
    go :
        (o : Option (Bool × Answers))
        → start owner id attempt clock.started_at db.answers ≡ o
        → begin_call owner id attempt reservation call clock db ≡ some (answer, after)
        → (answers : Answers) × (start owner id attempt clock.started_at db.answers
            ≡ some (true, answers))
          × ((expose_answer owner reservation clock.exposed_at db.ledger).0 ≡ true)
          × (answer ≡ some call)
          × (after ≡ record db {
            answers = answers;
            ledger = (expose_answer owner reservation clock.exposed_at db.ledger).1;
          })
    go none e_start e = absurd (ground arith)
    go (some (false, answers)) e_start e = absurd (ground arith)
    go (some (true, answers)) e_start e =
        elim (Bool-cases (expose_answer owner reservation clock.exposed_at db.ledger).0) [
          | inl exposed ↦ (answers, e_start, exposed, ground arith, ground arith)
          | inr unexposed ↦ absurd (ground arith)
        ]

-- The call of a request, and what it needs.
pub callable-some :
    (setup : Setup) (attempt : ℕ) (r : AnswerRequest) (chunks : Option (List ChunkRow))
    {reservation : ℕ} {call : Call}
    → callable setup attempt r chunks ≡ some (reservation, call)
    → (setup.has_provider ≡ true)
      × (r.reservation_id ≡ some reservation)
      × ((question : List ℕ) × (rows : List ChunkRow) × (r.question ≡ some question)
          × (chunks ≡ some rows)
          × (call ≡ call_of attempt question rows r))
unfolding callable call_parts
callable-some setup attempt r chunks {reservation} {call} e =
    elim (Bool-cases (is_running r.state || not setup.has_provider)) [
      | inl blocked ↦ absurd (ground arith)
      | inr free ↦
          let opened : call_parts attempt r chunks ≡ some (reservation, call) = ground arith in
          let (question, e_question, e1) = bind-some (given_text r.question) _ opened in
          let (rows, e_rows, e2) = bind-some chunks _ e1 in
          let (found, e_found, e3) = bind-some r.reservation_id _ e2 in
          (
            ground arith,
            ground arith,
            (question, rows, given r.question e_question, e_rows, ground arith),
          )
    ]
  where
    given : (o : Option (List ℕ)) {text : List ℕ} → given_text o ≡ some text → o ≡ some text
    given none e = cc
    given (some []) e = cc
    given (some (c ∷ cs)) e = e
