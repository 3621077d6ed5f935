-- ===== src/Answers/Requests/Starts.antt =====
-- What `start` does to the requests and the attempts.
use mathlib.Core.Option
use devfootnote_project.Answers.Keys.{Distinct, first-key}
use devfootnote_project.Answers.Requests.{
  new_attempt, record_start, run, start, startable, with_true,
}
use devfootnote_project.Answers.Requests.Changes.{attempts_of, update_requests-update}
use devfootnote_project.Answers.Schema.{
  AnswerAttempt, AnswerRequest, Answers, attempt_conflicts, insert_attempt, is_of_request,
  names_request, update_requests,
}
use devfootnote_project.Base.{
  Bool, List, Option, Option-cases, [], any, arith, bind-some, false, inl, inr, none, refl, some,
  true, ℕ, ◌&&◌, ◌==◌, ◌∷◌, ◌≡◌, ◌⊎◌,
}
use devfootnote_project.Base.Rows.{any-select_nil, update-none}
use devfootnote_project.Base.Table.{first, first-holds, update}

-- A row of one request is not a row of another.
pub names_request-apart :
    (owner id o i : ℕ) (r : AnswerRequest)
    → ((owner == o) && (id == i)) ≡ false
    → names_request o i r ≡ true
    → names_request owner id r ≡ false
names_request-apart owner id o i r apart n = ground arith

pub is_of_request-apart :
    (owner id o i : ℕ) (a : AnswerAttempt)
    → ((owner == o) && (id == i)) ≡ false
    → is_of_request o i a ≡ true
    → is_of_request owner id a ≡ false
is_of_request-apart owner id o i a apart n = ground arith

-- What an insert of an attempt takes, and what it leaves.
pub insert_attempt-cons :
    (new : AnswerAttempt) (t : Answers) {after : Answers}
    → insert_attempt new t ≡ some after
    → (after ≡ record t { attempts = new ∷ t.attempts })
      × (any (attempt_conflicts new) t.attempts ≡ false)
unfolding insert_attempt
insert_attempt-cons new t e = ground arith

attempts-free :
    (new : AnswerAttempt) (xs : List AnswerAttempt)
    → any (attempt_conflicts new) xs ≡ false
    → any (is_of_request new.owner_id new.request_id) xs ≡ false
attempts-free new [] e = refl
attempts-free new (x ∷ xs) e = ground (arith, attempts-free new xs)

-- The tables after a start that found its request.
abbrev pub tables_started : ℕ → ℕ → ℕ → ℕ → Answers → Answers
tables_started owner id attempt now t = record {
  requests = update (startable owner id now) run t.requests;
  attempts = new_attempt owner id attempt ∷ t.attempts;
}

-- A start finds its request waiting and without an attempt, or changes nothing.
pub start-cases :
    (owner id attempt now : ℕ) (t : Answers) {found : Bool} {after : Answers}
    → Distinct t.requests
    → start owner id attempt now t ≡ some (found, after)
    → ((r : AnswerRequest) × (first (names_request owner id) t.requests ≡ some r)
        × (startable owner id now r ≡ true)
        × (attempts_of owner id t ≡ [])
        × (after ≡ tables_started owner id attempt now t)
        × (found ≡ true))
      ⊎ ((after ≡ t) × (found ≡ false))
unfolding start record_start
start-cases owner id attempt now t {found} {after} d e =
    let p = startable owner id now in
    let (rows, e_rows, e_record) = bind-some (update_requests p run t.requests) _ e in
    let eq_rows : rows ≡ update p run t.requests = update_requests-update p run t.requests e_rows in
    elim (Option-cases (first p t.requests)) [
      | inl free ↦
          let same_rows : update p run t.requests ≡ t.requests =
            update-none p run t.requests free in
          inr (ground arith, ground arith)
      | inr (r, e_r) ↦
          let named : p r ≡ true = first-holds p t.requests e_r in
          let inserting : Option.map with_true
                (insert_attempt (new_attempt owner id attempt) (record t { requests = rows }))
              ≡ some (found, after) =
            ground arith in
          go r e_r named rows eq_rows _ refl inserting
    ]
  where
    go :
        (r : AnswerRequest)
        → first (startable owner id now) t.requests ≡ some r
        → startable owner id now r ≡ true
        → (rows : List AnswerRequest) → rows ≡ update (startable owner id now) run t.requests
        → (o : Option Answers)
        → insert_attempt (new_attempt owner id attempt) (record t { requests = rows }) ≡ o
        → Option.map with_true o ≡ some (found, after)
        → ((r : AnswerRequest) × (first (names_request owner id) t.requests ≡ some r)
            × (startable owner id now r ≡ true)
            × (attempts_of owner id t ≡ [])
            × (after ≡ tables_started owner id attempt now t)
            × (found ≡ true))
          ⊎ ((after ≡ t) × (found ≡ false))
    go r e_r named rows eq_rows none e_o e_done = cc
    go r e_r named rows eq_rows (some u) e_o e_done =
        let (eq_u, free) = insert_attempt-cons (new_attempt owner id attempt) _ e_o in
        inl (
          r,
          first-key owner id (startable owner id now) t.requests (λ y h. ground arith) d e_r,
          ground arith,
          any-select_nil (is_of_request owner id) t.attempts
              (attempts-free (new_attempt owner id attempt) t.attempts free),
          ground arith,
          ground arith,
        )
