-- ===== src/Indexing/Execution/Calls.antt =====
-- embedding-execution.service.ts: `startAttempt` and `failAttempt`.
-- The action of `startAttempt`: the attempt's id and number.
use devfootnote_project.Base.{Bool, Option, if◌then◌else◌, none, not, some, true, ℕ, ◌&&◌}
use devfootnote_project.Indexing.Execution.{
  Action, Answer, Closing, Database, Environment, Run, acted, fail_current_attempt, nothing_to_do,
  reject_fence, rejects, returns_with, throws, was_ignored, with_fenced_work,
}
use devfootnote_project.Indexing.Policy.{LockedWork, call_failed, holds_lease}
use devfootnote_project.Indexing.Schema.{CallFailure, Index, calling, leased}
use devfootnote_project.Indexing.Works.{has_active_attempt, start}
use devfootnote_project.Indexing.Works.Transitions.{work_id}
use devfootnote_project.Usage.Reservations.{mark_exposure}

unfoldable pub begin_exposed :
    Environment → LockedWork → ℕ → Index → Database → Run (Option (ℕ × ℕ))
begin_exposed env w number index db = elim w.work.reservation_id [
  | none ↦ rejects
  | some r ↦
      let (exposed, ledger) = mark_exposure w.work.owner_id r env.exposed_at db.ledger in
      if exposed
      then returns_with (some (env.attempt_id, number))
          (record db { index = index; ledger = ledger })
      else rejects
]

-- The answer of a closing, which the caller drops.
abbrev pub none_after : Run Closing → Run (Option (ℕ × ℕ))
none_after (returns_with c db) = returns_with none db
none_after rejects = rejects
none_after throws = throws

unfoldable pub begin_work : Environment → ℕ → LockedWork → Database → Run (Option (ℕ × ℕ))
begin_work env token w db = elim (start w token env.attempt_id env.written_at db.index) [
  | none ↦ throws
  | some (none, index) ↦ returns_with none (record db { index = index })
  | some (some number, index) ↦ begin_exposed env w number index db
]

abbrev pub start_action : Environment → ℕ → Action (Option (ℕ × ℕ))
start_action env token w failure current db =
    if not (holds_lease w token leased) then returns_with none db else elim failure [
      | some f ↦ none_after (reject_fence env w f true db)
      | none ↦ begin_work env token w db
    ]

-- What `startAttempt` makes of the end of its transaction: a rejection is no attempt.
abbrev pub started_answer :
    Database → Run (Answer (Option (ℕ × ℕ))) → Option (Option (ℕ × ℕ) × Database)
started_answer db (returns_with nothing_to_do after) = some (none, after)
started_answer db (returns_with (acted a) after) = some (a, after)
started_answer db rejects = some (none, db)
started_answer db throws = none

-- `startAttempt`; `none` is an exception.
unfoldable pub start_attempt :
    Environment → ℕ → ℕ → Database → Database → Option (Option (ℕ × ℕ) × Database)
start_attempt env work_id token before db =
    started_answer db (with_fenced_work env work_id (start_action env token) before db)

-- The other calls: `undefined` is answered as ignored.
abbrev pub closing_answer : Run (Answer Closing) → Option (Closing × Database)
closing_answer (returns_with nothing_to_do after) = some (was_ignored, after)
closing_answer (returns_with (acted c) after) = some (c, after)
closing_answer rejects = none
closing_answer throws = none

abbrev pub holds_call : Environment → ℕ → ℕ → LockedWork → Database → Bool
holds_call env token attempt_id w db =
    holds_lease w token calling && has_active_attempt w.work.id token attempt_id db.index

abbrev pub fail_action : Environment → ℕ → ℕ → CallFailure → Bool → Action Closing
fail_action env token attempt_id failure retryable w fence_error current db =
    if not (holds_call env token attempt_id w db)
    then returns_with was_ignored db
    else elim fence_error [
      | some f ↦ reject_fence env w f true db
      | none ↦ fail_current_attempt env w (call_failed failure) true retryable db
    ]

-- `failAttempt`
unfoldable pub fail_attempt :
    Environment → ℕ → ℕ → ℕ → CallFailure → Bool → Database → Database → Option (Closing × Database)
fail_attempt env work_id token attempt_id failure retryable before db =
    closing_answer
      (with_fenced_work env work_id (fail_action env token attempt_id failure retryable) before db)
