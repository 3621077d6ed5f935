-- ===== src/Answers/Scanner/Expiry.antt =====
-- The run that ends a request whose time is over.
use devfootnote_project.Answers.Completion.{Generated}
use devfootnote_project.Answers.Execution.{
  Call, finish_and_settle, settle_request, start_answer, start_locked, stopped,
}
use devfootnote_project.Answers.Execution.Granted.{read-first}
use devfootnote_project.Answers.Fences.{Clock, Setup, Tables, fences}
use devfootnote_project.Answers.Requests.{
  LockedRequest, finish_request, finishable, lock, locked_view, read,
}
use devfootnote_project.Answers.Requests.Attempts.{Agrees, IsConsistent}
use devfootnote_project.Answers.Requests.Changes.{attempts_of, state_of, state_of-update}
use devfootnote_project.Answers.Requests.Endings.{tables_finished}
use devfootnote_project.Answers.Requests.Finishing.{finish-IsConsistent, tables_finished-state}
use devfootnote_project.Answers.Scanner.{Turn, process, process_started}
use devfootnote_project.Answers.Scanner.Lapses.{
  settle_answer-closed, settle_request-total, stop-total,
}
use devfootnote_project.Answers.Schema.{
  AnswerAttempt, AnswerFailure, AnswerRequest, Answers, expired, is_pending, is_started,
  names_request, request_check,
}
use devfootnote_project.Base.{
  Bool, Option, ap, arith, every, false, ltb, none, not, refl, some, subst, sym, true, ℕ, ◌∙◌, ◌≡◌,
  ◌≤◌,
}
use devfootnote_project.Base.Table.{All, first, first-holds}
use devfootnote_project.Usage.Answering.{find_answer_reservation}
use devfootnote_project.Usage.Schema.{Ledger, Reservation, is_reserved}

-- What the end of a request leaves: its state, no question, no call that is still recorded as
-- started, and a reservation that holds no more of the budget.
pub record HasEnded (owner id : ℕ) (r : AnswerRequest) (after : Tables) : Type 0 where
  pub ended : state_of owner id after.answers ≡ some expired
  pub forgotten :
      {row : AnswerRequest}
      → first (names_request owner id) after.answers.requests ≡ some row
      → row.question ≡ none
  pub uncalled :
      every (λ (a : AnswerAttempt). not (is_started a.state)) (attempts_of owner id after.answers)
      ≡ true
  pub released :
      (reservation : ℕ) {v : Reservation}
      → r.reservation_id ≡ some reservation
      → find_answer_reservation owner reservation after.ledger ≡ some v
      → is_reserved v.state ≡ false

-- The tables that the end leaves.
abbrev tables_ended :
    ℕ → ℕ → LockedRequest → Option AnswerFailure → Clock → Ledger → Tables → Tables
tables_ended owner id l failure clock ledger db = record db {
  answers =
      tables_finished owner id (stopped l failure) clock.finished_at clock.ended_at db.answers;
  ledger = ledger;
}

finish_and_settle-stop :
    (owner id : ℕ) (l : LockedRequest) (failure : Option AnswerFailure) (clock : Clock)
    (db : Tables) {ledger : Ledger}
    → All (λ r. request_check r ≡ true) db.answers.requests
    → settle_request owner l.request.reservation_id none clock.settled_at db.ledger ≡ some ledger
    → finish_and_settle owner id (stopped l failure) none l.request clock db
      ≡ some (tables_ended owner id l failure clock ledger db)
unfolding finish_and_settle
finish_and_settle-stop owner id l failure clock db all e =
    rw (stop-total owner id l failure clock.finished_at clock.ended_at db.answers all) (rw e refl)

start_answer-stop :
    (setup : Setup) (owner id attempt : ℕ) (clock : Clock) (db : Tables) (r : AnswerRequest)
    {ledger : Ledger}
    → All (λ r. request_check r ≡ true) db.answers.requests
    → read owner id db.answers.requests ≡ some r
    → is_pending r.state ≡ true
    → ltb clock.locked_at r.expires_at ≡ false
    → settle_request owner r.reservation_id none clock.settled_at db.ledger ≡ some ledger
    → start_answer setup owner id attempt db.answers.requests clock db
      ≡ some (
        none,
        tables_ended owner id
            (locked_view clock.locked_at r)
            (fences setup r clock.fenced_at db).failure
            clock
            ledger
            db,
      )
unfolding start_answer lock start_locked
start_answer-stop setup owner id attempt clock db r all e_r pending over e_ledger =
    let failure = (fences setup r clock.fenced_at db).failure in
    let l = locked_view clock.locked_at r in
    let e_stop = finish_and_settle-stop owner id l failure clock db all e_ledger in ground arith

ended-HasEnded :
    (owner id : ℕ) (l : LockedRequest) (failure : Option AnswerFailure) (clock : Clock)
    (db : Tables) {ledger : Ledger}
    → All (λ r. request_check r ≡ true) db.answers.requests
    → IsConsistent db.answers
    → first (names_request owner id) db.answers.requests ≡ some l.request
    → is_pending l.request.state ≡ true
    → l.live ≡ false
    → settle_request owner l.request.reservation_id none clock.settled_at db.ledger ≡ some ledger
    → HasEnded owner id l.request (tables_ended owner id l failure clock ledger db)
unfolding settle_request
ended-HasEnded owner id l failure clock db {ledger} all c e_r pending over e_ledger = record {
  ended = is_expired;
  forgotten = λ e_row. forgets e_row;
  uncalled =
      (subst (λ s. Agrees s (attempts_of owner id t)) is_expired (c_after.agrees owner id)).0;
  released = λ reservation e_id found.
      settle_answer-closed owner reservation none clock.settled_at db.ledger
        (subst (λ o. settle_request owner o none clock.settled_at db.ledger ≡ some ledger) e_id
          e_ledger)
        found;
}
  where
    t : Answers
    t = tables_finished owner id (stopped l failure) clock.finished_at clock.ended_at db.answers

    is_expired : state_of owner id t ≡ some expired
    is_expired =
        tables_finished-state owner id (stopped l failure) clock.finished_at clock.ended_at
          db.answers
        ∙ rw e_r (rw pending (rw over refl))

    c_after : IsConsistent t
    c_after =
        finish-IsConsistent owner id (stopped l failure) clock.finished_at clock.ended_at db.answers
          (rw over refl) refl
          (stop-total owner id l failure clock.finished_at clock.ended_at db.answers all) c

    forgets :
        {row : AnswerRequest}
        → first (names_request owner id) t.requests ≡ some row
        → row.question ≡ none
    forgets {row} e_row =
        let e_map =
          state_of-update owner id (finishable owner id)
            (finish_request (stopped l failure) clock.finished_at) db.answers.requests
            (λ y. (refl, refl)) in
        let named = first-holds (names_request owner id) db.answers.requests e_r in
        let finishes_it : finishable owner id l.request ≡ true = ground arith in
        let e_finished : first (names_request owner id) t.requests
            ≡ some (finish_request (stopped l failure) clock.finished_at l.request) =
          e_map ∙ rw e_r (rw finishes_it refl) in
        let eq : finish_request (stopped l failure) clock.finished_at l.request ≡ row =
          ground arith in
        subst (λ (x : AnswerRequest). x.question ≡ none) eq refl

process_started-none :
    (setup : Setup) (generate : Call → Generated) (owner id : ℕ) (turn : Turn) (db after : Tables)
    → process_started setup generate owner id turn db (some (none, after)) ≡ (true, after)
unfolding process_started
process_started-none setup generate owner id turn db after = refl

-- A run that finds a waiting or running request whose time is over returns and ends it, whatever the
-- provider and the policy are and whatever has become of the consent, the materials and the
-- reservation: the request is expired, its question is gone, no call of it is recorded as started,
-- and its reservation, if there is one, is closed. (The rows keep the table's constraints, and the
-- requests agree with their attempts.)
pub process-HasEnded :
    (setup : Setup) (generate : Call → Generated) (owner id : ℕ) (turn : Turn) (db : Tables)
    (r : AnswerRequest)
    → All (λ r. request_check r ≡ true) db.answers.requests
    → IsConsistent db.answers
    → read owner id db.answers.requests ≡ some r
    → is_pending r.state ≡ true
    → r.expires_at ≤ turn.starting.locked_at
    → ((process setup generate owner id turn db).0 ≡ true)
      × HasEnded owner id r (process setup generate owner id turn db).1
unfolding process
process-HasEnded setup generate owner id turn db r all c e_r pending late =
    let clock = turn.starting in
    let l = locked_view clock.locked_at r in
    let failure = (fences setup r clock.fenced_at db).failure in
    let over : ltb clock.locked_at r.expires_at ≡ false = ground arith in
    let (ledger, e_ledger) =
      settle_request-total owner r.reservation_id clock.settled_at db.ledger in
    let e_start =
      start_answer-stop setup owner id turn.attempt_id clock db r all e_r pending over e_ledger in
    let eq : (true, tables_ended owner id l failure clock ledger db)
        ≡ process_started setup generate owner id turn db
            (start_answer setup owner id turn.attempt_id db.answers.requests clock db) =
      sym (
        ap (process_started setup generate owner id turn db) e_start
        ∙ process_started-none setup generate owner id turn db
            (tables_ended owner id l failure clock ledger db)) in
    subst (λ (p : Bool × Tables). (p.0 ≡ true) × HasEnded owner id r p.1) eq
      (
        refl,
        ended-HasEnded owner id l failure clock db all c
            (sym (read-first owner id db.answers.requests) ∙ e_r) pending over e_ledger,
      )
