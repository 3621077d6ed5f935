-- ===== src/Answers/Execution/Granted.antt =====
-- What has been checked and what has been recorded when `start` lets the provider be called.
use mathlib.Core.Option
use devfootnote_project.Answers.Execution.{
  Call, begin_call, call_locked, call_of, callable, finish_and_settle, start_answer, start_locked,
  stopped, tidy, with_none,
}
use devfootnote_project.Answers.Execution.Calls.{begin_call-some, callable-some}
use devfootnote_project.Answers.Fences.{Clock, Fenced, Setup, Tables, fences}
use devfootnote_project.Answers.Keys.{Distinct}
use devfootnote_project.Answers.Requests.{LockedRequest, lock, locked_view, read, startable}
use devfootnote_project.Answers.Requests.Changes.{attempts_of}
use devfootnote_project.Answers.Requests.Starts.{start-cases, tables_started}
use devfootnote_project.Answers.Schema.{AnswerRequest, is_pending, names_request}
use devfootnote_project.Base.{
  Bool-cases, List, Option, Option-cases, [], arith, inl, inr, is_some, none, not, refl, some,
  subst, true, ℕ, ◌||◌, ◌≡◌,
}
use devfootnote_project.Base.Table.{first}
use devfootnote_project.Materials.Schema.{ChunkRow}
use devfootnote_project.Usage.Answering.{expose_answer}

pub read-first :
    (owner id : ℕ) (rows : List AnswerRequest)
    → read owner id rows ≡ first (names_request owner id) rows
unfolding read
read-first owner id rows = refl

module _ (setup : Setup) (owner id attempt : ℕ) (seen : List AnswerRequest) (clock : Clock) where
  -- The reason for which a call may be made, and its trace in the tables.
  pub record MayCall (db : Tables) (call : Call) (after : Tables) : Type 0 where
    pub reference : AnswerRequest
    pub row : AnswerRequest
    pub question : List ℕ
    pub chunks : List ChunkRow
    pub reservation : ℕ
    pub was_seen : read owner id seen ≡ some reference
    pub was_locked : read owner id db.answers.requests ≡ some row
    pub fenced :
        fences setup reference clock.fenced_at db ≡ record { chunks = some chunks; failure = none }
    pub waiting : startable owner id clock.started_at row ≡ true
    pub untried : attempts_of owner id db.answers ≡ []
    pub reserved_for : row.reservation_id ≡ some reservation
    pub exposed : (expose_answer owner reservation clock.exposed_at db.ledger).0 ≡ true
    pub asked : row.question ≡ some question
    pub content : call ≡ call_of attempt question chunks row
    pub recorded : after ≡ record db {
      answers = tables_started owner id attempt clock.started_at db.answers;
      ledger = (expose_answer owner reservation clock.exposed_at db.ledger).1;
    }

  call_locked-some :
      (r : AnswerRequest) (chunks : Option (List ChunkRow)) (db : Tables) {call : Call}
      {after : Tables}
      → call_locked setup owner id attempt r chunks clock db ≡ some (some call, after)
      → (reservation : ℕ) × (k : Call) × (callable setup attempt r chunks ≡ some (reservation, k))
        × (begin_call owner id attempt reservation k clock db ≡ some (some call, after))
  unfolding call_locked
  call_locked-some r chunks db {call} {after} e =
      elim (Option-cases (callable setup attempt r chunks)) [
        | inl stuck ↦ absurd (ground arith)
        | inr ((reservation, k), e_call) ↦ (reservation, k, e_call, ground arith)
      ]

  -- The locked request that is called.
  start_locked-some :
      (l : LockedRequest) (f : Fenced) (db : Tables) {call : Call} {after : Tables}
      → start_locked setup owner id attempt l f clock db ≡ some (some call, after)
      → (f.failure ≡ none)
        × (call_locked setup owner id attempt l.request f.chunks clock db ≡ some (some call, after))
  unfolding start_locked
  start_locked-some l f db {call} {after} e = elim (Bool-cases (is_pending l.request.state)) [
    | inr ended ↦ absurd (closed (tidy owner id l f.failure clock db) (ground arith))
    | inl pending ↦ elim (Bool-cases (not l.live || is_some f.failure)) [
      | inl stops ↦ absurd (
          closed (finish_and_settle owner id (stopped l f.failure) none l.request clock db)
            (ground arith))
      | inr goes_on ↦ (ground arith, ground arith)
    ]
  ]
    where
      closed : (o : Option Tables) → Option.map with_none o ≡ some (some call, after) → ⊥
      closed none h = ground arith
      closed (some u) h = ground arith

  -- A call is made only for a request that waits in time and has never been tried, whose consent,
  -- materials and reservation all pass on rows locked in the same transaction, and whose reservation
  -- is exposed there; the attempt is recorded in what is committed, and the call carries the
  -- question and the chunks of the request's evidence. (The requests have no two rows with one key.)
  pub start_answer-MayCall :
      (db : Tables) {call : Call} {after : Tables}
      → Distinct db.answers.requests
      → start_answer setup owner id attempt seen clock db ≡ some (some call, after)
      → MayCall db call after
  unfolding start_answer lock
  start_answer-MayCall db {call} {after} d e = elim (Option-cases (read owner id seen)) [
    | inl unseen ↦ absurd (ground arith)
    | inr (reference, e_seen) ↦ elim (Option-cases (read owner id db.answers.requests)) [
      | inl missing ↦ absurd (ground arith)
      | inr (r, e_r) ↦
          let l = locked_view clock.locked_at r in
          let f = fences setup reference clock.fenced_at db in
          let e_locked : start_locked setup owner id attempt l f clock db
              ≡ some (some call, after) =
            ground arith in
          let (passed, e_call) = start_locked-some l f db e_locked in
          let (reservation, k, e_callable, e_begin) = call_locked-some r f.chunks db e_call in
          let (_, e_reservation, (question, chunks, e_question, e_chunks, e_k)) =
            callable-some setup attempt r f.chunks e_callable in
          let (answers, e_start, e_exposed, e_answer, e_after) =
            begin_call-some owner id attempt reservation k clock db e_begin in
          elim (start-cases owner id attempt clock.started_at db.answers d e_start) [
            | inr (_, unfound) ↦ absurd (ground arith)
            | inl (row, e_row, e_waiting, e_untried, e_answers, _) ↦
                let e_first = read-first owner id db.answers.requests in
                let same_row : row ≡ r = cc in
                record {
                  reference = reference;
                  row = r;
                  question = question;
                  chunks = chunks;
                  reservation = reservation;
                  was_seen = e_seen;
                  was_locked = e_r;
                  fenced = fenced_as f e_chunks passed;
                  waiting =
                      subst (λ x. startable owner id clock.started_at x ≡ true) same_row e_waiting;
                  untried = e_untried;
                  reserved_for = e_reservation;
                  exposed = e_exposed;
                  asked = e_question;
                  content = ground arith;
                  recorded =
                      subst
                        (λ a. after ≡ record db {
                          answers = a;
                          ledger = (expose_answer owner reservation clock.exposed_at db.ledger).1;
                        })
                        e_answers e_after;
                }
          ]
    ]
  ]
    where
      fenced_as :
          (f : Fenced) {chunks : List ChunkRow}
          → f.chunks ≡ some chunks
          → f.failure ≡ none
          → f ≡ record { chunks = some chunks; failure = none }
      fenced_as f a b = ground arith
