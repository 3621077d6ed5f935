-- ===== src/Answers/Requests/Attempts.antt =====
-- A call is recorded as started exactly while its request is running, and each request has at most
-- one attempt.
use mathlib.Core.Option
use devfootnote_project.Answers.Keys.{Distinct, Distinct-update, KeepsKey}
use devfootnote_project.Answers.Requests.{
  clear, clear_content, due_requests, put_off, reserve_batch, scan_later,
}
use devfootnote_project.Answers.Requests.Changes.{
  attempts_of, state_of, state_of-update, update_requests-update,
}
use devfootnote_project.Answers.Schema.{
  AnswerAttempt, AnswerFailure, AnswerRequest, AnswerState, Answers, held, is_started,
  names_request, requested, running,
}
use devfootnote_project.Base.{
  Bool, List, Option, [], arith, bind-some, every, if◌then◌else◌, length, none, not, refl, some,
  subst, sym, true, ℕ, ◌∷◌, ◌≡◌, ◌≤◌,
}
use devfootnote_project.Base.Table.{first, update}

-- How the attempts of a request go with its state.
abbrev pub Agrees : Option AnswerState → List AnswerAttempt → Type 0
Agrees (some running) attempts =
    (a : AnswerAttempt) × (attempts ≡ a ∷ []) × (is_started a.state ≡ true)
Agrees (some held) attempts = attempts ≡ []
Agrees (some requested) attempts = attempts ≡ []
Agrees none attempts = attempts ≡ []
Agrees (some _) attempts =
    (every (λ (a : AnswerAttempt). not (is_started a.state)) attempts ≡ true)
    × (length attempts ≤ 1)

pub record IsConsistent (t : Answers) : Type 0 where
  pub distinct : Distinct t.requests
  pub agrees : (owner id : ℕ) → Agrees (state_of owner id t) (attempts_of owner id t)

-- An update that keeps the states of the rows it is made on.
abbrev KeepsState : (AnswerRequest → Bool) → (AnswerRequest → AnswerRequest) → Type 0
KeepsState p f = (r : AnswerRequest) → p r ≡ true → (f r).state ≡ r.state

pub update-state_of :
    (owner id : ℕ) (p : AnswerRequest → Bool) (f : AnswerRequest → AnswerRequest) (t : Answers)
    → KeepsKey f
    → KeepsState p f
    → state_of owner id (record t { requests = update p f t.requests }) ≡ state_of owner id t
update-state_of owner id p f t keeps same_state =
    rw (state_of-update owner id p f t.requests keeps)
      (go (first (names_request owner id) t.requests))
  where
    go :
        (o : Option AnswerRequest)
        → Option.map (λ (r : AnswerRequest). r.state) (Option.map (λ r. if p r then f r else r) o)
          ≡ Option.map (λ (r : AnswerRequest). r.state) o
    go none = refl
    go (some r) = ground (arith, same_state r)

pub update-IsConsistent :
    (p : AnswerRequest → Bool) (f : AnswerRequest → AnswerRequest) (t : Answers)
    → KeepsKey f
    → KeepsState p f
    → IsConsistent t
    → IsConsistent (record t { requests = update p f t.requests })
update-IsConsistent p f t keeps same_state c = record {
  distinct = Distinct-update p f t.requests keeps c.distinct;
  agrees = λ owner id.
      subst (λ s. Agrees s (attempts_of owner id t))
        (sym (update-state_of owner id p f t keeps same_state)) (c.agrees owner id);
}

-- `clearContent` and `reserveBatch` change no state.
pub clear_content-IsConsistent :
    (owner id : ℕ) (why : AnswerFailure) (t : Answers) {after : Answers}
    → clear_content owner id why t ≡ some after
    → IsConsistent t
    → IsConsistent after
unfolding clear_content
clear_content-IsConsistent owner id why t {after} e c =
    let (rows, e_rows, e_after) = bind-some _ _ e in
    let eq_rows = update_requests-update _ _ _ e_rows in
    let eq : record t { requests = update (names_request owner id) (clear why) t.requests }
        ≡ after =
      ground arith in
    subst IsConsistent eq (
      update-IsConsistent (names_request owner id) (clear why) t (λ y. (refl, refl)) (λ y p. refl)
        c)

put_off-IsConsistent :
    (now : ℕ) (due rows : List AnswerRequest) (attempts : List AnswerAttempt)
    {after : List AnswerRequest}
    → put_off now due rows ≡ some after
    → IsConsistent (record { requests = rows; attempts = attempts })
    → IsConsistent (record { requests = after; attempts = attempts })
unfolding put_off
put_off-IsConsistent now [] rows attempts {after} e c =
    let eq : rows ≡ after = ground arith in
    subst (λ x. IsConsistent (record { requests = x; attempts = attempts })) eq c
put_off-IsConsistent now (r ∷ rest) rows attempts {after} e c =
    let (next_rows, e_next, e_rest) = bind-some _ _ e in
    put_off-IsConsistent now rest next_rows attempts e_rest (
      subst (λ x. IsConsistent (record { requests = x; attempts = attempts }))
        (sym (update_requests-update _ _ _ e_next))
        (update-IsConsistent (names_request r.owner_id r.request_id) (scan_later now)
          (record { requests = rows; attempts = attempts }) (λ y. (refl, refl)) (λ y p. refl) c))

pub reserve_batch-IsConsistent :
    (held_elsewhere : AnswerRequest → Bool) (chosen_at now : ℕ) (t : Answers) {batch : List (ℕ × ℕ)}
    {after : Answers}
    → reserve_batch held_elsewhere chosen_at now t ≡ some (batch, after)
    → IsConsistent t
    → IsConsistent after
unfolding reserve_batch
reserve_batch-IsConsistent held_elsewhere chosen_at now t {batch} {after} e c =
    let (rows, e_rows, e_after) =
      bind-some (put_off now (due_requests held_elsewhere chosen_at t) t.requests) _ e in
    let eq : record t { requests = rows } ≡ after = ground arith in
    subst IsConsistent eq (
      put_off-IsConsistent now (due_requests held_elsewhere chosen_at t) t.requests t.attempts
        e_rows c)
