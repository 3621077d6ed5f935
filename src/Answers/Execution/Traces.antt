-- ===== src/Answers/Execution/Traces.antt =====
-- `start` changes the requests and the attempts by the changes of `Requests.Changes` alone.
use mathlib.Core.Option
use devfootnote_project.Answers.Execution.{
  Call, begin_call, call_locked, callable, cleared_for, commit_drop, drop_receipts,
  finish_and_settle, must_clear, settle_request, start_answer, start_locked, stopped, tidy,
  with_none,
}
use devfootnote_project.Answers.Execution.Calls.{begin_call-some}
use devfootnote_project.Answers.Fences.{Clock, Fenced, Setup, Tables, fences}
use devfootnote_project.Answers.Requests.{
  Ending, LockedRequest, clear_content, delete_receipt, finish, lock, read,
}
use devfootnote_project.Answers.Requests.Changes.{
  Change, Changes, append, clears, deletes, finishes, is_final, starts, then_one, unchanged,
}
use devfootnote_project.Answers.Schema.{
  AnswerFailure, AnswerRequest, Answers, is_pending, is_started,
}
use devfootnote_project.Base.{
  Bool-cases, List, Option, Option-cases, arith, bind-some, false, inl, inr, is_some, none, not,
  refl, some, subst, sym, true, ℕ, ◌||◌, ◌≡◌, ◌⊎◌,
}
use devfootnote_project.Usage.Answering.{TokenUsage}

pub one-Change : {t u : Answers} → Change t u → Changes t u
one-Change c = then_one unchanged c

drop_receipts-cases :
    (owner id : ℕ) (l : LockedRequest) (clock : Clock) (db : Tables) {after : Tables}
    → drop_receipts owner id l clock db ≡ some after
    → (after.answers ≡ db.answers)
      ⊎ (after.answers ≡ delete_receipt owner id clock.deleted_at db.answers)
unfolding drop_receipts commit_drop
drop_receipts-cases owner id l clock db {after} e = ground arith

drop_receipts-Changes :
    (owner id : ℕ) (l : LockedRequest) (clock : Clock) (db : Tables) {after : Tables}
    → drop_receipts owner id l clock db ≡ some after
    → Changes db.answers after.answers
drop_receipts-Changes owner id l clock db {after} e =
    elim (drop_receipts-cases owner id l clock db {after = after} e) [
      | inl kept ↦ subst (Changes db.answers) (sym kept) unchanged
      | inr dropped ↦
          subst (Changes db.answers) (sym dropped) (one-Change (deletes owner id clock.deleted_at))
    ]

tidy-Changes :
    (owner id : ℕ) (l : LockedRequest) (failure : Option AnswerFailure) (clock : Clock)
    (db : Tables) {after : Tables}
    → tidy owner id l failure clock db ≡ some after
    → Changes db.answers after.answers
unfolding tidy
tidy-Changes owner id l failure clock db {after} e = elim (Bool-cases (must_clear l failure)) [
  | inr kept ↦ drop_receipts-Changes owner id l clock db {after = after} (ground arith)
  | inl cleared ↦ go (clear_content owner id (cleared_for l failure) db.answers) refl (ground arith)
]
  where
    go :
        (o : Option Answers)
        → clear_content owner id (cleared_for l failure) db.answers ≡ o
        → (elim o [
          | none ↦ none
          | some tables ↦ drop_receipts owner id l clock (record db { answers = tables })
        ])
          ≡ some after
        → Changes db.answers after.answers
    go none e_clear h = absurd (ground arith)
    go (some tables) e_clear h =
        append (one-Change (clears owner id (cleared_for l failure) tables e_clear)) (
          drop_receipts-Changes owner id l clock (record db { answers = tables }) {after = after}
            (ground arith))

-- The two writes of an ending.
pub finish_and_settle-some :
    (owner id : ℕ) (e : Ending) (usage : Option TokenUsage) (r : AnswerRequest) (clock : Clock)
    (db : Tables) {after : Tables}
    → finish_and_settle owner id e usage r clock db ≡ some after
    → (finish owner id e clock.finished_at clock.ended_at db.answers ≡ some after.answers)
      × (settle_request owner r.reservation_id usage clock.settled_at db.ledger ≡ some after.ledger)
unfolding finish_and_settle
finish_and_settle-some owner id e usage r clock db {after} h =
    let (answers, e_finish, h1) =
      bind-some (finish owner id e clock.finished_at clock.ended_at db.answers) _ h in
    let (ledger, e_settle, h2) =
      bind-some (settle_request owner r.reservation_id usage clock.settled_at db.ledger) _ h1 in
    let eq : record db { answers = answers; ledger = ledger } ≡ after = ground arith in
    (
      subst
          (λ (u : Tables).
            finish owner id e clock.finished_at clock.ended_at db.answers ≡ some u.answers)
          eq e_finish,
      subst
          (λ (u : Tables).
            settle_request owner r.reservation_id usage clock.settled_at db.ledger ≡ some u.ledger)
          eq e_settle,
    )

stopped-Final :
    (l : LockedRequest) (failure : Option AnswerFailure)
    → (is_final (stopped l failure).state ≡ true) × (is_started (stopped l failure).outcome ≡ false)
stopped-Final l failure = (ground arith, refl)

begin_call-Changes :
    (owner id attempt reservation : ℕ) (call : Call) (clock : Clock) (db : Tables)
    {answer : Option Call} {after : Tables}
    → begin_call owner id attempt reservation call clock db ≡ some (answer, after)
    → Changes db.answers after.answers
begin_call-Changes owner id attempt reservation call clock db {answer} {after} e =
    let (answers, e_start, _, _, e_after) =
      begin_call-some owner id attempt reservation call clock db e in
    subst (λ (u : Tables). Changes db.answers u.answers) (sym e_after)
      (one-Change (starts owner id attempt clock.started_at true answers e_start))

start_locked-Changes :
    (setup : Setup) (owner id attempt : ℕ) (l : LockedRequest) (f : Fenced) (clock : Clock)
    (db : Tables) {answer : Option Call} {after : Tables}
    → start_locked setup owner id attempt l f clock db ≡ some (answer, after)
    → Changes db.answers after.answers
unfolding start_locked call_locked
start_locked-Changes setup owner id attempt l f clock db {answer} {after} e =
    elim (Bool-cases (is_pending l.request.state)) [
      | inr ended ↦
          closed (tidy owner id l f.failure clock db)
            (λ u e_u. tidy-Changes owner id l f.failure clock db e_u) (ground arith)
      | inl pending ↦ elim (Bool-cases (not l.live || is_some f.failure)) [
        | inl stops ↦
            closed (finish_and_settle owner id (stopped l f.failure) none l.request clock db)
              (λ u e_u. one-Change (
                finishes owner id (stopped l f.failure) clock.finished_at clock.ended_at u.answers
                  (stopped-Final l f.failure).0 (stopped-Final l f.failure).1
                  (finish_and_settle-some owner id (stopped l f.failure) none l.request clock db
                    e_u).0))
              (ground arith)
        | inr goes_on ↦ elim (Option-cases (callable setup attempt l.request f.chunks)) [
          | inl stuck ↦
              let eq : db ≡ after = ground arith in
              subst (λ (u : Tables). Changes db.answers u.answers) eq unchanged
          | inr ((reservation, call), e_call) ↦
              begin_call-Changes owner id attempt reservation call clock db {answer = answer}
                {after = after} (ground arith)
        ]
      ]
    ]
  where
    closed :
        (o : Option Tables)
        → ((u : Tables) → o ≡ some u → Changes db.answers u.answers)
        → Option.map with_none o ≡ some (answer, after)
        → Changes db.answers after.answers
    closed none changes h = cc
    closed (some u) changes h =
        let eq : u ≡ after = ground arith in
        subst (λ (u : Tables). Changes db.answers u.answers) eq (changes u refl)

pub start_answer-Changes :
    (setup : Setup) (owner id attempt : ℕ) (seen : List AnswerRequest) (clock : Clock) (db : Tables)
    {answer : Option Call} {after : Tables}
    → start_answer setup owner id attempt seen clock db ≡ some (answer, after)
    → Changes db.answers after.answers
unfolding start_answer
start_answer-Changes setup owner id attempt seen clock db {answer} {after} e =
    elim (Option-cases (read owner id seen)) [
      | inl unseen ↦ same_tables (ground arith)
      | inr (reference, e_seen) ↦ elim (Option-cases (lock owner id clock.locked_at db.answers)) [
        | inl missing ↦ same_tables (ground arith)
        | inr (l, e_l) ↦
            start_locked-Changes setup owner id attempt l
              (fences setup reference clock.fenced_at db) clock db {answer = answer} {after = after}
              (ground arith)
      ]
    ]
  where
    same_tables : db ≡ after → Changes db.answers after.answers
    same_tables eq = subst (λ (u : Tables). Changes db.answers u.answers) eq unchanged
