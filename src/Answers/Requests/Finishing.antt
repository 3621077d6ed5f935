-- ===== src/Answers/Requests/Finishing.antt =====
-- `finish` keeps the states and the attempts of the requests in agreement.
use mathlib.Core.Option
use devfootnote_project.Answers.Keys.{Distinct-update}
use devfootnote_project.Answers.Requests.{
  Ending, end_attempt, finish, finish_request, finishable, open_attempt,
}
use devfootnote_project.Answers.Requests.Attempts.{Agrees, IsConsistent}
use devfootnote_project.Answers.Requests.Changes.{attempts_of, is_final, state_of, state_of-update}
use devfootnote_project.Answers.Requests.Endings.{
  Agrees-length, ended-Unstarted, final-Agrees, finish-tables, kept-Agrees, length-update,
  tables_finished,
}
use devfootnote_project.Answers.Requests.Starts.{is_of_request-apart, names_request-apart}
use devfootnote_project.Answers.Schema.{
  AnswerAttempt, AnswerRequest, AnswerState, Answers, is_of_request, is_pending, is_started,
  names_request,
}
use devfootnote_project.Base.{
  Bool-cases, List, Option, ap, arith, false, if◌then◌else◌, inl, inr, none, refl, some, subst, sym,
  true, ℕ, ◌&&◌, ◌==◌, ◌∙◌, ◌≡◌,
}
use devfootnote_project.Base.Rows.{All-select, first-update_other, select-update, update-other}
use devfootnote_project.Base.Table.{All, first, first-holds, update}

-- Every row of the request is final, or as it was.
pub tables_finished-other :
    (owner id : ℕ) (e : Ending) (now ended_at o i : ℕ) (t : Answers)
    → ((owner == o) && (id == i)) ≡ false
    → (state_of o i (tables_finished owner id e now ended_at t) ≡ state_of o i t)
      × (attempts_of o i (tables_finished owner id e now ended_at t) ≡ attempts_of o i t)
tables_finished-other owner id e now ended_at o i t apart = (
  ap (Option.map (λ (r : AnswerRequest). r.state)) (
      first-update_other (names_request o i) (finishable owner id) (finish_request e now) t.requests
        (λ y. refl) (λ y n. let no_y = names_request-apart owner id o i y apart n in ground arith)),
  select-update (is_of_request o i) (open_attempt owner id) (end_attempt e.outcome ended_at)
        t.attempts (λ y. refl)
      ∙ update-other (is_of_request o i) (open_attempt owner id) (end_attempt e.outcome ended_at)
          (attempts_of o i t)
          (λ y n. let no_y = is_of_request-apart owner id o i y apart n in ground arith)
          (All-select (is_of_request o i) t.attempts),
)

pub tables_finished-state :
    (owner id : ℕ) (e : Ending) (now ended_at : ℕ) (t : Answers)
    → state_of owner id (tables_finished owner id e now ended_at t)
      ≡ Option.map (λ s. if is_pending s then e.state else s) (state_of owner id t)
tables_finished-state owner id e now ended_at t =
    rw
      (state_of-update owner id (finishable owner id) (finish_request e now) t.requests
        (λ y. (refl, refl)))
      (go (first (names_request owner id) t.requests) refl)
  where
    go :
        (o : Option AnswerRequest)
        → first (names_request owner id) t.requests ≡ o
        → Option.map
            (λ (r : AnswerRequest). r.state)
            (Option.map (λ r. if finishable owner id r then finish_request e now r else r) o)
          ≡ Option.map
              (λ s. if is_pending s then e.state else s)
              (Option.map (λ (r : AnswerRequest). r.state) o)
    go none found = refl
    go (some r) found =
        ground (arith, first-holds (names_request owner id) t.requests {x = r} found)

finished-Agrees :
    (owner id : ℕ) (e : Ending) (ended_at : ℕ) (o : Option AnswerState) (xs : List AnswerAttempt)
    → is_final e.state ≡ true
    → is_started e.outcome ≡ false
    → All (λ a. is_of_request owner id a ≡ true) xs
    → Agrees o xs
    → Agrees
        (Option.map (λ s. if is_pending s then e.state else s) o)
        (update (open_attempt owner id) (end_attempt e.outcome ended_at) xs)
finished-Agrees owner id e ended_at none xs final_state over all a = rw a refl
finished-Agrees owner id e ended_at (some s) xs final_state over all a =
    elim (Bool-cases (is_pending s)) [
      | inl pending ↦ rw pending (
          final-Agrees e.state _ final_state
            (ended-Unstarted owner id e.outcome ended_at xs over all)
            (rw (length-update (open_attempt owner id) (end_attempt e.outcome ended_at) xs)
              (Agrees-length s xs a)))
      | inr ended ↦ rw ended (
          subst (Agrees (some s))
            (sym (kept-Agrees owner id (end_attempt e.outcome ended_at) s xs ended a)) a)
    ]

pub finish-IsConsistent :
    (owner id : ℕ) (e : Ending) (now ended_at : ℕ) (t : Answers) {after : Answers}
    → is_final e.state ≡ true
    → is_started e.outcome ≡ false
    → finish owner id e now ended_at t ≡ some after
    → IsConsistent t
    → IsConsistent after
finish-IsConsistent owner id e now ended_at t {after} final_state over h c =
    subst IsConsistent (sym (finish-tables owner id e now ended_at t h)) (record {
      distinct =
          Distinct-update (finishable owner id) (finish_request e now) t.requests
            (λ y. (refl, refl)) c.distinct;
      agrees = λ o i. elim (Bool-cases ((owner == o) && (id == i))) [
        | inl own ↦
            let eq_o : owner ≡ o = ground arith in
            let eq_i : id ≡ i = ground arith in
            subst (λ o. AgreesAt o i) eq_o (subst (AgreesAt owner) eq_i own_agrees)
        | inr apart ↦
            let (same_state, same_attempts) =
              tables_finished-other owner id e now ended_at o i t apart in
            rw same_state (rw same_attempts (c.agrees o i))
      ];
    })
  where
    AgreesAt : ℕ → ℕ → Type 0
    AgreesAt o i =
        Agrees (state_of o i (tables_finished owner id e now ended_at t))
          (attempts_of o i (tables_finished owner id e now ended_at t))

    own_agrees : AgreesAt owner id
    own_agrees =
        subst (λ s. Agrees s (attempts_of owner id (tables_finished owner id e now ended_at t)))
          (sym (tables_finished-state owner id e now ended_at t))
          (subst (Agrees _)
            (sym (
              select-update (is_of_request owner id) (open_attempt owner id)
                (end_attempt e.outcome ended_at) t.attempts (λ y. refl)))
            (finished-Agrees owner id e ended_at (state_of owner id t) (attempts_of owner id t)
              final_state over (All-select (is_of_request owner id) t.attempts)
              (c.agrees owner id)))
