-- ===== src/Answers/Requests/Changes.antt =====
-- The changes that the code makes to the tables of the answers, put together as one relation.
use mathlib.Core.Option
use devfootnote_project.Answers.Keys.{KeepsKey}
use devfootnote_project.Answers.Requests.{
  Ending, clear_content, delete_receipt, finish, reserve_batch, start,
}
use devfootnote_project.Answers.Schema.{
  AnswerAttempt, AnswerFailure, AnswerRequest, AnswerState, Answers, held, insert_request,
  is_of_request, is_pending, is_started, names_request, requested, update_requests,
}
use devfootnote_project.Base.{
  Bool, List, Option, arith, false, if◌then◌else◌, none, not, refl, some, true, ℕ, ◌≡◌,
}
use devfootnote_project.Base.Rows.{first-update-map}
use devfootnote_project.Base.Table.{first, select, update}

-- The states that end a request.
abbrev pub is_final : AnswerState → Bool
is_final requested = false
is_final s = not (is_pending s)

-- `reserve` of apps/api/src/modules/answers/answers.repository.ts inserts such a row.
abbrev pub IsNew : AnswerRequest → Type 0
IsNew r = (r.state ≡ held) × (r.claims ≡ none) × (r.answer_expires_at ≡ none)

pub data Change (t : Answers) : Answers → Type 0 where
  reserves :
      (new : AnswerRequest) (rows : List AnswerRequest)
      → IsNew new
      → insert_request new t.requests ≡ some rows
      → Change t (record t { requests = rows })
  starts :
      (owner id attempt now : ℕ) (found : Bool) (after : Answers)
      → start owner id attempt now t ≡ some (found, after)
      → Change t after
  finishes :
      (owner id : ℕ) (e : Ending) (now ended_at : ℕ) (after : Answers)
      → is_final e.state ≡ true
      → is_started e.outcome ≡ false
      → finish owner id e now ended_at t ≡ some after
      → Change t after
  clears :
      (owner id : ℕ) (why : AnswerFailure) (after : Answers)
      → clear_content owner id why t ≡ some after
      → Change t after
  deletes : (owner id now : ℕ) → Change t (delete_receipt owner id now t)
  scans :
      (held_elsewhere : AnswerRequest → Bool) (chosen_at now : ℕ) (batch : List (ℕ × ℕ))
      (after : Answers)
      → reserve_batch held_elsewhere chosen_at now t ≡ some (batch, after)
      → Change t after

pub data Changes (t : Answers) : Answers → Type 0 where
  unchanged : Changes t t
  then_one : {u v : Answers} → Changes t u → Change u v → Changes t v

-- The state of a request, and its attempts.
abbrev pub state_of : ℕ → ℕ → Answers → Option AnswerState
state_of owner id t =
    Option.map (λ (r : AnswerRequest). r.state) (first (names_request owner id) t.requests)

abbrev pub attempts_of : ℕ → ℕ → Answers → List AnswerAttempt
attempts_of owner id t = select (is_of_request owner id) t.attempts

pub update_requests-update :
    (p : AnswerRequest → Bool) (f : AnswerRequest → AnswerRequest) (rows : List AnswerRequest)
    {after : List AnswerRequest}
    → update_requests p f rows ≡ some after
    → after ≡ update p f rows
unfolding update_requests
update_requests-update p f rows e = ground arith

-- The state that an update leaves.
pub state_of-update :
    (owner id : ℕ) (p : AnswerRequest → Bool) (f : AnswerRequest → AnswerRequest)
    (rows : List AnswerRequest)
    → KeepsKey f
    → first (names_request owner id) (update p f rows)
      ≡ Option.map (λ r. if p r then f r else r) (first (names_request owner id) rows)
state_of-update owner id p f rows keeps =
    first-update-map (names_request owner id) p f rows (λ y. rw (keeps y).0 (rw (keeps y).1 refl))

pub append : {t u v : Answers} → Changes t u → Changes u v → Changes t v
append path unchanged = path
append path (then_one rest last) = then_one (append path rest) last
