-- ===== src/Answers/Scanner/Lapses.antt =====
-- A request whose time is over is ended by the first run that finds it, whatever state it is in.
use mathlib.Core.Option
use devfootnote_project.Answers.Execution.{settle_request, stopped}
use devfootnote_project.Answers.Requests.{LockedRequest, finish, finish_request, finishable}
use devfootnote_project.Answers.Requests.Endings.{tables_finished}
use devfootnote_project.Answers.Schema.{
  AnswerFailure, AnswerRequest, Answers, request_check, update_requests,
}
use devfootnote_project.Base.{
  Bool, Bool-cases, List, Option, Option-cases, [], ap, arith, every, false, if◌then◌else◌, inl,
  inr, none, refl, same, some, subst, sym, true, ℕ, ◌∙◌, ◌∷◌, ◌≡◌,
}
use devfootnote_project.Base.Rows.{first-update-map}
use devfootnote_project.Base.Table.{All, first, first-holds, select, update}
use devfootnote_project.Usage.Answering.{
  Charge, TokenUsage, charge, close_answer, find_answer_reservation, most, names_answer, pricing_of,
  settle_answer,
}
use devfootnote_project.Usage.Answering.Steps.{settle_answer-cases}
use devfootnote_project.Usage.Reservations.{settleable}
use devfootnote_project.Usage.Schema.{Ledger, Reservation, is_reserved}

-- The constraints of the table hold of a row that has been stopped.
stopped-check :
    (l : LockedRequest) (failure : Option AnswerFailure) (now : ℕ) (r : AnswerRequest)
    → request_check r ≡ true
    → request_check (finish_request (stopped l failure) now r) ≡ true
stopped-check l failure now r h = ground arith

every-select :
    (p q : AnswerRequest → Bool) (f : AnswerRequest → AnswerRequest) (rows : List AnswerRequest)
    → ((r : AnswerRequest) → q r ≡ true → q (f r) ≡ true)
    → All (λ r. q r ≡ true) rows
    → every (λ r. q (f r)) (select p rows) ≡ true
every-select p q f [] keeps all = refl
every-select p q f (r ∷ rows) keeps (h, all) =
    ground (arith, keeps r h, every-select p q f rows keeps all)

-- No constraint refuses the statements that stop a request.
pub stop-total :
    (owner id : ℕ) (l : LockedRequest) (failure : Option AnswerFailure) (now ended_at : ℕ)
    (t : Answers)
    → All (λ r. request_check r ≡ true) t.requests
    → finish owner id (stopped l failure) now ended_at t
      ≡ some (tables_finished owner id (stopped l failure) now ended_at t)
unfolding finish update_requests
stop-total owner id l failure now ended_at t all =
    rw
      (every-select (finishable owner id) request_check (finish_request (stopped l failure) now)
        t.requests (stopped-check l failure now) all)
      refl

-- A settlement without a usage needs no price, so nothing can go wrong.
settle_answer-total_of_none :
    (owner id now : ℕ) (ledger : Ledger)
    → (after : Ledger) × (settle_answer owner id none now ledger ≡ some after)
unfolding settle_answer charge pricing_of
settle_answer-total_of_none owner id now ledger =
    elim (Option-cases (find_answer_reservation owner id ledger)) [
      | inl missing ↦ (ledger, ground arith)
      | inr (r, found) ↦ elim (Bool-cases (is_reserved r.state)) [
        | inr closed ↦ (ledger, ground arith)
        | inl waiting ↦ (
          record ledger {
            reservations =
                update (settleable owner id) (close_answer (most r) now r) ledger.reservations;
          },
          ground arith,
        )
      ]
    ]

pub settle_request-total :
    (owner : ℕ) (id : Option ℕ) (now : ℕ) (ledger : Ledger)
    → (after : Ledger) × (settle_request owner id none now ledger ≡ some after)
unfolding settle_request
settle_request-total owner none now ledger = (ledger, refl)
settle_request-total owner (some id) now ledger = settle_answer-total_of_none owner id now ledger

-- After a settlement the reservation is closed.
pub settle_answer-closed :
    (owner id : ℕ) (usage : Option TokenUsage) (now : ℕ) (ledger : Ledger) {after : Ledger}
    {r : Reservation}
    → settle_answer owner id usage now ledger ≡ some after
    → find_answer_reservation owner id after ≡ some r
    → is_reserved r.state ≡ false
settle_answer-closed owner id usage now ledger {after} {r} e found =
    elim (settle_answer-cases owner id usage now ledger e) [
      | inl (same, closed) ↦ closed r (ap (find_answer_reservation owner id) (sym same) ∙ found)
      | inr (open_row, c, found_open, waiting, e_c, eq) ↦
          let e_first : first (names_answer owner id)
                (update (settleable owner id) (close_answer c now open_row) ledger.reservations)
              ≡ some r =
            subst (λ rows. first (names_answer owner id) rows ≡ some r) eq found in
          let e_map =
            first-update-map (names_answer owner id) (settleable owner id)
              (close_answer c now open_row) ledger.reservations (λ y. refl) in
          let named = first-holds (names_answer owner id) ledger.reservations found_open in
          let closes : settleable owner id open_row ≡ true = ground arith in
          let e_r : Option.map
                (λ x. if settleable owner id x then close_answer c now open_row x else x)
                (some open_row)
              ≡ some r =
            subst
              (λ o.
                Option.map (λ x. if settleable owner id x then close_answer c now open_row x else x)
                  o
                ≡ some r)
              found_open (sym e_map ∙ e_first) in
          closed_row c open_row closes e_r
    ]
  where
    closed_row :
        (c : Charge) (open_row : Reservation)
        → settleable owner id open_row ≡ true
        → some (
            if settleable owner id open_row then close_answer c now open_row open_row else open_row)
          ≡ some r
        → is_reserved r.state ≡ false
    closed_row c open_row closes e_r = ground arith
