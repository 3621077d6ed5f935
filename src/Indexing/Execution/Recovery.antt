-- ===== src/Indexing/Execution/Recovery.antt =====
-- embedding-execution.service.ts: `recover`.
-- `EmbeddingRecoveryResult`
use devfootnote_project.Base.{Option, false, if◌then◌else◌, none, not, some, true, ℕ}
use devfootnote_project.Indexing.Execution.{
  Action, Answer, Closing, Database, Environment, Run, acted, fail_current_attempt, nothing_to_do,
  reject_fence, rejects, returns_with, throws, was_ignored, went_to_retry, with_fenced_work,
}
use devfootnote_project.Indexing.Policy.{LockedWork, expired_lease}
use devfootnote_project.Indexing.Schema.{in_state, leased, pending, retry_wait}
use devfootnote_project.Indexing.Works.{return_to_pending}
use devfootnote_project.Indexing.Works.Transitions.{work_id}

pub data Recovery : Type 0 where
  is_pending is_waiting : Recovery
  closed_as : Closing → Recovery

abbrev pub recovery_of : Closing → Recovery
recovery_of went_to_retry = is_waiting
recovery_of c = closed_as c

abbrev pub recovered : Run Closing → Run Recovery
recovered (returns_with c db) = returns_with (recovery_of c) db
recovered rejects = rejects
recovered throws = throws

unfoldable pub put_back : Environment → LockedWork → Database → Run Recovery
put_back env w db =
    let (was_changed, index) = return_to_pending w env.written_at db.index in
    returns_with (if was_changed then is_pending else closed_as was_ignored)
      (record db { index = index })

-- The part of the action of `recover` for a work whose lease is over.
abbrev pub recover_lapsed : Environment → LockedWork → Database → Run Recovery
recover_lapsed env w db =
    if in_state w.work.state leased
    then put_back env w db
    else recovered (fail_current_attempt env w expired_lease false true db)

abbrev pub recover_open : Environment → LockedWork → Database → Run Recovery
recover_open env w db =
    if in_state w.work.state pending
    then returns_with (if w.due then is_pending else is_waiting) db
    else if in_state w.work.state retry_wait
    then (if not w.due then returns_with is_waiting db else put_back env w db)
    else if w.lease_active
    then returns_with is_waiting db
    else recover_lapsed env w db

abbrev pub recover_action : Environment → Action Recovery
recover_action env w failure current db = elim failure [
  | some f ↦ recovered (reject_fence env w f false db)
  | none ↦ recover_open env w db
]

abbrev pub recovery_answer : Run (Answer Recovery) → Option (Recovery × Database)
recovery_answer (returns_with nothing_to_do after) = some (closed_as was_ignored, after)
recovery_answer (returns_with (acted r) after) = some (r, after)
recovery_answer rejects = none
recovery_answer throws = none

-- `recover`
unfoldable pub recover : Environment → ℕ → Database → Database → Option (Recovery × Database)
recover env work_id before db =
    recovery_answer (with_fenced_work env work_id (recover_action env) before db)
