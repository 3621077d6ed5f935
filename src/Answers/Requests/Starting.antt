-- ===== src/Answers/Requests/Starting.antt =====
-- A start keeps the states and the attempts of the requests in agreement.
use mathlib.Core.Option
use devfootnote_project.Answers.Keys.{Distinct-update}
use devfootnote_project.Answers.Requests.{new_attempt, run, start, startable}
use devfootnote_project.Answers.Requests.Attempts.{Agrees, IsConsistent}
use devfootnote_project.Answers.Requests.Changes.{attempts_of, state_of, state_of-update}
use devfootnote_project.Answers.Requests.Starts.{names_request-apart, start-cases, tables_started}
use devfootnote_project.Answers.Schema.{AnswerRequest, Answers, names_request, running}
use devfootnote_project.Base.{
  Bool, Bool-cases, [], ap, arith, false, inl, inr, refl, some, subst, sym, true, ℕ, ◌&&◌, ◌==◌,
  ◌≡◌,
}
use devfootnote_project.Base.Rows.{first-update_other}
use devfootnote_project.Base.Table.{first}

-- What an operation on one request leaves of the others.
pub tables_started-other :
    (owner id attempt now o i : ℕ) (t : Answers)
    → ((owner == o) && (id == i)) ≡ false
    → (state_of o i (tables_started owner id attempt now t) ≡ state_of o i t)
      × (attempts_of o i (tables_started owner id attempt now t) ≡ attempts_of o i t)
tables_started-other owner id attempt now o i t apart = (
  ap (Option.map (λ (r : AnswerRequest). r.state)) (
      first-update_other (names_request o i) (startable owner id now) run t.requests (λ y. refl)
        (λ y n. let no_y = names_request-apart owner id o i y apart n in ground arith)),
  ground arith,
)

pub tables_started-own :
    (owner id attempt now : ℕ) (t : Answers) (r : AnswerRequest)
    → first (names_request owner id) t.requests ≡ some r
    → startable owner id now r ≡ true
    → state_of owner id (tables_started owner id attempt now t) ≡ some running
tables_started-own owner id attempt now t r e_r yes_r =
    rw (state_of-update owner id (startable owner id now) run t.requests (λ y. (refl, refl)))
      (rw e_r (rw yes_r refl))

pub start-IsConsistent :
    (owner id attempt now : ℕ) (t : Answers) {found : Bool} {after : Answers}
    → start owner id attempt now t ≡ some (found, after)
    → IsConsistent t
    → IsConsistent after
start-IsConsistent owner id attempt now t {found} {after} e c =
    elim (start-cases owner id attempt now t c.distinct e) [
      | inr (eq, _) ↦ subst IsConsistent (sym eq) c
      | inl (r, e_r, yes_r, none_yet, eq, _) ↦ subst IsConsistent (sym eq) (record {
        distinct =
            Distinct-update (startable owner id now) run t.requests (λ y. (refl, refl)) c.distinct;
        agrees = λ o i. elim (Bool-cases ((owner == o) && (id == i))) [
          | inl own ↦
              let eq_o : owner ≡ o = ground arith in
              let eq_i : id ≡ i = ground arith in
              subst
                (λ o.
                  Agrees (state_of o i (tables_started owner id attempt now t))
                    (attempts_of o i (tables_started owner id attempt now t)))
                eq_o
                (subst
                  (λ i.
                    Agrees (state_of owner i (tables_started owner id attempt now t))
                      (attempts_of owner i (tables_started owner id attempt now t)))
                  eq_i (started_agrees r e_r yes_r none_yet))
          | inr apart ↦
              let (same_state, same_attempts) =
                tables_started-other owner id attempt now o i t apart in
              rw same_state (rw same_attempts (c.agrees o i))
        ];
      })
    ]
  where
    started_agrees :
        (r : AnswerRequest)
        → first (names_request owner id) t.requests ≡ some r
        → startable owner id now r ≡ true
        → attempts_of owner id t ≡ []
        → Agrees
            (state_of owner id (tables_started owner id attempt now t))
            (attempts_of owner id (tables_started owner id attempt now t))
    started_agrees r e_r yes_r none_yet =
        rw (tables_started-own owner id attempt now t r e_r yes_r)
          (new_attempt owner id attempt, ground arith, refl)
