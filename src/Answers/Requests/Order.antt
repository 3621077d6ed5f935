-- ===== src/Answers/Requests/Order.antt =====
-- The states of a request follow one another in one direction, until its receipt is deleted.
use mathlib.Core.Option
use devfootnote_project.Answers.Requests.{
  Ending, clear, clear_content, due_requests, finish, put_off, reserve_batch, scan_later, start,
}
use devfootnote_project.Answers.Requests.Attempts.{IsConsistent, update-state_of}
use devfootnote_project.Answers.Requests.Changes.{is_final, state_of, update_requests-update}
use devfootnote_project.Answers.Requests.Endings.{finish-tables, tables_finished}
use devfootnote_project.Answers.Requests.Finishing.{tables_finished-other, tables_finished-state}
use devfootnote_project.Answers.Requests.Starting.{tables_started-other, tables_started-own}
use devfootnote_project.Answers.Requests.Starts.{start-cases, tables_started}
use devfootnote_project.Answers.Schema.{
  AnswerAttempt, AnswerFailure, AnswerRequest, AnswerState, Answers, held, is_pending,
  names_request, running, update_requests,
}
use devfootnote_project.Base.{
  Bool, Bool-cases, List, Option, [], ap, arith, bind-some, if◌then◌else◌, inl, inr, none, refl,
  some, subst, sym, true, ℕ, ◌&&◌, ◌==◌, ◌∙◌, ◌∷◌, ◌≡◌,
}
use devfootnote_project.Base.Table.{update}

-- A request waits, then may run, then ends in one state.
pub data Follows : AnswerState → AnswerState → Type 0 where
  stays : (s : AnswerState) → Follows s s
  runs : Follows held running
  ends : {s s' : AnswerState} → is_pending s ≡ true → is_final s' ≡ true → Follows s s'

unfoldable pub Moves : Option AnswerState → Option AnswerState → Type 0
Moves (some s) (some s') = Follows s s'
Moves _ _ = Unit

pub Moves-refl : (o : Option AnswerState) → Moves o o
unfolding Moves
Moves-refl none = tt
Moves-refl (some s) = stays s

abbrev pub ends_as : AnswerState → Option AnswerState → Option AnswerState
ends_as final_state none = none
ends_as final_state (some s) = some (if is_pending s then final_state else s)

Moves-ends_as :
    (s : AnswerState) (o : Option AnswerState) → is_final s ≡ true → Moves o (ends_as s o)
unfolding Moves
Moves-ends_as s none e = tt
Moves-ends_as s (some old) e = elim (Bool-cases (is_pending old)) [
  | inl pending ↦ rw pending (ends pending e)
  | inr ended ↦ rw ended (stays old)
]

pub start-Moves :
    (owner id attempt now o i : ℕ) (t : Answers) {found : Bool} {after : Answers}
    → IsConsistent t
    → start owner id attempt now t ≡ some (found, after)
    → Moves (state_of o i t) (state_of o i after)
unfolding Moves
start-Moves owner id attempt now o i t {found} {after} c e =
    elim (start-cases owner id attempt now t c.distinct e) [
      | inr (eq, _) ↦
          subst (λ u. Moves (state_of o i t) (state_of o i u)) (sym eq)
            (Moves-refl (state_of o i t))
      | inl (r, e_r, yes_r, _, eq, _) ↦
          subst (λ u. Moves (state_of o i t) (state_of o i u)) (sym eq)
            (elim (Bool-cases ((owner == o) && (id == i))) [
              | inl own ↦
                  let eq_o : owner ≡ o = ground arith in
                  let eq_i : id ≡ i = ground arith in
                  let waiting : r.state ≡ held = ground arith in
                  let s_before : state_of o i t ≡ some held =
                    subst (λ o. state_of o i t ≡ some held) eq_o
                      (subst (λ i. state_of owner i t ≡ some held) eq_i
                        (rw e_r (ap some waiting))) in
                  let s_after : state_of o i (tables_started owner id attempt now t)
                      ≡ some running =
                    subst (λ o. state_of o i (tables_started owner id attempt now t) ≡ some running)
                      eq_o
                      (subst
                        (λ i.
                          state_of owner i (tables_started owner id attempt now t) ≡ some running)
                        eq_i (tables_started-own owner id attempt now t r e_r yes_r)) in
                  rw s_before (rw s_after runs)
              | inr apart ↦
                  rw (tables_started-other owner id attempt now o i t apart).0
                    (Moves-refl (state_of o i t))
            ])
    ]

pub finish-Moves :
    (owner id : ℕ) (e : Ending) (now ended_at o i : ℕ) (t : Answers) {after : Answers}
    → is_final e.state ≡ true
    → finish owner id e now ended_at t ≡ some after
    → Moves (state_of o i t) (state_of o i after)
unfolding Moves
finish-Moves owner id e now ended_at o i t {after} final_state h =
    subst (λ u. Moves (state_of o i t) (state_of o i u))
      (sym (finish-tables owner id e now ended_at t h))
      (elim (Bool-cases ((owner == o) && (id == i))) [
        | inl own ↦
            let eq_o : owner ≡ o = ground arith in
            let eq_i : id ≡ i = ground arith in
            subst (λ o. MovesAt o i) eq_o (subst (λ i. MovesAt owner i) eq_i own_moves)
        | inr apart ↦
            rw (tables_finished-other owner id e now ended_at o i t apart).0
              (Moves-refl (state_of o i t))
      ])
  where
    MovesAt : ℕ → ℕ → Type 0
    MovesAt o i = Moves (state_of o i t) (state_of o i (tables_finished owner id e now ended_at t))

    own_moves : MovesAt owner id
    own_moves =
        subst (Moves (state_of owner id t)) (sym (tables_finished-state owner id e now ended_at t))
          (go (state_of owner id t))
      where
        go :
            (o : Option AnswerState)
            → Moves o (Option.map (λ s. if is_pending s then e.state else s) o)
        go none = tt
        go (some s) = Moves-ends_as e.state (some s) final_state

-- The changes that leave the state of every request as it is.
pub clear_content-state_of :
    (owner id : ℕ) (why : AnswerFailure) (o i : ℕ) (t : Answers) {after : Answers}
    → clear_content owner id why t ≡ some after
    → state_of o i after ≡ state_of o i t
unfolding clear_content
clear_content-state_of owner id why o i t {after} e =
    let (rows, e_rows, e_after) =
      bind-some (update_requests (names_request owner id) (clear why) t.requests) _ e in
    let eq_rows = update_requests-update _ _ _ e_rows in
    let eq : after
        ≡ record t { requests = update (names_request owner id) (clear why) t.requests } =
      ground arith in
    ap (state_of o i) eq
    ∙ update-state_of o i (names_request owner id) (clear why) t (λ y. (refl, refl)) (λ y p. refl)

put_off-state_of :
    (now o i : ℕ) (due rows : List AnswerRequest) (attempts : List AnswerAttempt)
    {after : List AnswerRequest}
    → put_off now due rows ≡ some after
    → state_of o i (record { requests = after; attempts = attempts })
      ≡ state_of o i (record { requests = rows; attempts = attempts })
unfolding put_off
put_off-state_of now o i [] rows attempts {after} e =
    let eq : after ≡ rows = ground arith in
    ap (λ x. state_of o i (record { requests = x; attempts = attempts })) eq
put_off-state_of now o i (r ∷ rest) rows attempts {after} e =
    let (next_rows, e_next, e_rest) = bind-some _ _ e in
    put_off-state_of now o i rest next_rows attempts e_rest
    ∙ ap (λ x. state_of o i (record { requests = x; attempts = attempts }))
        (update_requests-update _ _ _ e_next)
    ∙ update-state_of o i (names_request r.owner_id r.request_id) (scan_later now)
        (record { requests = rows; attempts = attempts }) (λ y. (refl, refl)) (λ y p. refl)

pub reserve_batch-state_of :
    (held_elsewhere : AnswerRequest → Bool) (chosen_at now o i : ℕ) (t : Answers)
    {batch : List (ℕ × ℕ)} {after : Answers}
    → reserve_batch held_elsewhere chosen_at now t ≡ some (batch, after)
    → state_of o i after ≡ state_of o i t
unfolding reserve_batch
reserve_batch-state_of held_elsewhere chosen_at now o i t {batch} {after} e =
    let (rows, e_rows, e_after) =
      bind-some (put_off now (due_requests held_elsewhere chosen_at t) t.requests) _ e in
    let eq : after ≡ record t { requests = rows } = ground arith in
    ap (state_of o i) eq
    ∙ put_off-state_of now o i (due_requests held_elsewhere chosen_at t) t.requests t.attempts
        e_rows

pub Moves-Follows :
    (s s' : AnswerState) (o o' : Option AnswerState)
    → o ≡ some s
    → o' ≡ some s'
    → Moves o o'
    → Follows s s'
unfolding Moves
Moves-Follows s s' o o' e e' m = subst (λ o'. Moves (some s) o') e' (subst (λ o. Moves o o') e m)
