-- ===== src/Answers/Execution/Once.antt =====
-- A request is sent to the provider at most once: a run that comes again, or after a restart, makes
-- no second call.
use devfootnote_project.Answers.Execution.{Call, start_answer}
use devfootnote_project.Answers.Execution.Granted.{MayCall, read-first, start_answer-MayCall}
use devfootnote_project.Answers.Execution.Traces.{start_answer-Changes}
use devfootnote_project.Answers.Fences.{Clock, Setup, Tables}
use devfootnote_project.Answers.Keys.{Distinct}
use devfootnote_project.Answers.Requests.{startable}
use devfootnote_project.Answers.Requests.Attempts.{IsConsistent}
use devfootnote_project.Answers.Requests.Changes.{state_of}
use devfootnote_project.Answers.Requests.History.{Keeps, Keeps-Follows, Keeps-IsConsistent}
use devfootnote_project.Answers.Requests.Order.{Follows, ends}
use devfootnote_project.Answers.Requests.Receipts.{Changes-IsConsistent}
use devfootnote_project.Answers.Requests.Starting.{tables_started-own}
use devfootnote_project.Answers.Schema.{AnswerRequest, held, running}
use devfootnote_project.Base.{List, Option, ap, arith, none, refl, some, sym, true, ℕ, ◌∙◌, ◌≡◌}

running-not_held : Follows running held → ⊥
running-not_held (ends p f) = ground arith

MayCall-running :
    (setup : Setup) (owner id attempt : ℕ) (seen : List AnswerRequest) (clock : Clock) (db : Tables)
    {call : Call} {after : Tables}
    → MayCall setup owner id attempt seen clock db call after
    → state_of owner id after.answers ≡ some running
MayCall-running setup owner id attempt seen clock db {call} {after} m =
    ap (λ (u : Tables). state_of owner id u.answers) m.recorded
    ∙ tables_started-own owner id attempt clock.started_at db.answers m.row
        (sym (read-first owner id db.answers.requests) ∙ m.was_locked) m.waiting

MayCall-held :
    (setup : Setup) (owner id attempt : ℕ) (seen : List AnswerRequest) (clock : Clock) (db : Tables)
    {call : Call} {after : Tables}
    → MayCall setup owner id attempt seen clock db call after
    → state_of owner id db.answers ≡ some held
MayCall-held setup owner id attempt seen clock db m =
    let e_r = sym (read-first owner id db.answers.requests) ∙ m.was_locked in
    let e_state : m.row.state ≡ held = startable-held m.row m.waiting in rw e_r (ap some e_state)
  where
    startable-held :
        (r : AnswerRequest) → startable owner id clock.started_at r ≡ true → r.state ≡ held
    startable-held r h = ground arith

-- Once a call has been made for a request, no later start makes another, whatever the worker and the
-- API change in between, as long as the receipt of the request is kept. (The tables are consistent
-- at first.)
pub start_answer-once :
    (setup later_setup : Setup) (owner id attempt again : ℕ) (seen later_seen : List AnswerRequest)
    (clock later_clock : Clock) (db later : Tables) {call : Call} {answer : Option Call}
    {after final : Tables}
    → IsConsistent db.answers
    → start_answer setup owner id attempt seen clock db ≡ some (some call, after)
    → Keeps owner id after.answers later.answers
    → start_answer later_setup owner id again later_seen later_clock later ≡ some (answer, final)
    → answer ≡ none
start_answer-once setup later_setup owner id attempt again seen later_seen clock later_clock db
      later {call} {answer} {after} {final} c e path e' =
    let called = start_answer-MayCall setup owner id attempt seen clock db c.distinct e in
    let c_after : IsConsistent after.answers =
      Changes-IsConsistent (start_answer-Changes setup owner id attempt seen clock db e) c in
    let c_later = Keeps-IsConsistent path c_after in
    go answer e' c_later.distinct (MayCall-running setup owner id attempt seen clock db called)
      c_after
  where
    go :
        (answer : Option Call)
        → start_answer later_setup owner id again later_seen later_clock later
          ≡ some (answer, final)
        → Distinct later.answers.requests
        → state_of owner id after.answers ≡ some running
        → IsConsistent after.answers
        → answer ≡ none
    go none e'' d e_running c_after = refl
    go (some k) e'' d e_running c_after = absurd (
        running-not_held (
          Keeps-Follows owner id running held path c_after e_running (
            MayCall-held later_setup owner id again later_seen later_clock later (
              start_answer-MayCall later_setup owner id again later_seen later_clock later d e''))))
