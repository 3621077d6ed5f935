-- ===== src/Indexing/Execution/Failures.antt =====
-- The failure and the completion of an attempt and the recovery of a work keep the works and the
-- attempts consistent.
use devfootnote_project.Base.{
  Bool, Bool-cases, Option, arith, false, inl, inr, none, some, subst, true, ℕ, ◌≡◌,
}
use devfootnote_project.Indexing.Execution.{
  Answer, Closing, Database, Environment, Run, acted, fail_current_attempt, nothing_to_do,
  reject_fence, rejects, returns_with, throws, with_fenced_work,
}
use devfootnote_project.Indexing.Execution.Calls.{
  closing_answer, fail_action, fail_attempt, holds_call,
}
use devfootnote_project.Indexing.Execution.Consistency.{
  ActsWell, Keeps, Keeps-refl, Leaves, fail_current_attempt-Leaves, holds_lease-state,
  reject_fence-Leaves, with_fenced_work-Leaves,
}
use devfootnote_project.Indexing.Execution.Recovery.{
  Recovery, put_back, recover, recover_action, recover_lapsed, recover_open, recovered,
  recovery_answer,
}
use devfootnote_project.Indexing.Policy.{LockedWork, call_failed, expired_lease, is_terminal}
use devfootnote_project.Indexing.Schema.{
  CallFailure, FenceFailure, Index, calling, in_state, leased, pending, retry_wait,
}
use devfootnote_project.Indexing.Works.Endings.{IsLocked}
use devfootnote_project.Indexing.Works.Leases.{return_to_pending-Progresses}
use devfootnote_project.Indexing.Works.Lives.{may_follow}
use devfootnote_project.Indexing.Works.Tracking.{IsConsistent}
use devfootnote_project.Indexing.Works.Transitions.{return_to_pending-IsConsistent}

recovered-Leaves : (from : Index) (r : Run Closing) → Leaves from r → Leaves from (recovered r)
recovered-Leaves from (returns_with c db) h = h
recovered-Leaves from rejects h = tt
recovered-Leaves from throws h = tt

fail_action-ActsWell :
    (env : Environment) (token attempt : ℕ) (failure : CallFailure) (retryable : Bool)
    → ActsWell (fail_action env token attempt failure retryable)
fail_action-ActsWell env token attempt failure retryable w blocked current db locked running =
    elim (Bool-cases (holds_call env token attempt w db)) [
      | inl held ↦ rw held (go (holds_lease-state w token calling (ground (arith, held))) blocked)
      | inr not_held ↦ rw not_held (Keeps-refl db.index)
    ]
  where
    go :
        in_state w.work.state calling ≡ true
        → (o : Option FenceFailure)
        → Leaves {A = Closing} db.index (elim o [
          | some f ↦ reject_fence env w f true db
          | none ↦ fail_current_attempt env w (call_failed failure) true retryable db
        ])
    go called none =
        fail_current_attempt-Leaves env w (call_failed failure) true retryable db locked called
    go called (some f) = reject_fence-Leaves env w f true db locked running

-- `failAttempt` keeps the works and the attempts, also when it rolls back.
pub fail_attempt-Keeps :
    (env : Environment) (k token attempt : ℕ) (failure : CallFailure) (retryable : Bool)
    (before db : Database) (closing : Closing) (after : Database)
    → fail_attempt env k token attempt failure retryable before db ≡ some (closing, after)
    → Keeps db.index after.index
unfolding fail_attempt
fail_attempt-Keeps env k token attempt failure retryable before db closing after e =
    go (with_fenced_work env k (fail_action env token attempt failure retryable) before db)
      (with_fenced_work-Leaves env (fail_action env token attempt failure retryable)
        (fail_action-ActsWell env token attempt failure retryable) k before db)
      e
  where
    go :
        (r : Run (Answer Closing))
        → Leaves db.index r
        → closing_answer r ≡ some (closing, after)
        → Keeps db.index after.index
    go (returns_with nothing_to_do x) l q =
        let same_tables : x ≡ after = ground arith in
        subst (λ (y : Database). Keeps db.index y.index) same_tables l
    go (returns_with (acted a) x) l q =
        let same_tables : x ≡ after = ground arith in
        subst (λ (y : Database). Keeps db.index y.index) same_tables l
    go rejects l q = absurd (ground arith)
    go throws l q = absurd (ground arith)

-- `failAttempt` keeps the works and the attempts consistent.
pub fail_attempt-IsConsistent :
    (env : Environment) (k token attempt : ℕ) (failure : CallFailure) (retryable : Bool)
    (before db : Database) (closing : Closing) (after : Database)
    → fail_attempt env k token attempt failure retryable before db ≡ some (closing, after)
    → IsConsistent db.index
    → IsConsistent after.index
fail_attempt-IsConsistent env k token attempt failure retryable before db closing after e =
    (fail_attempt-Keeps env k token attempt failure retryable before db closing after e).0

put_back-Leaves :
    (env : Environment) (w : LockedWork) (db : Database)
    → may_follow w.work.state pending ≡ true
    → Leaves db.index (put_back env w db)
unfolding put_back
put_back-Leaves env w db may = (
  return_to_pending-IsConsistent w env.written_at db.index (ground (arith, may)),
  return_to_pending-Progresses w env.written_at db.index may,
)

recover_lapsed-Leaves :
    (env : Environment) (w : LockedWork) (db : Database)
    → IsLocked w db.index
    → is_terminal w.work.state ≡ false
    → in_state w.work.state pending ≡ false
    → in_state w.work.state retry_wait ≡ false
    → Leaves db.index (recover_lapsed env w db)
recover_lapsed-Leaves env w db locked running busy in_call =
    elim (Bool-cases (in_state w.work.state leased)) [
      | inl held ↦ rw held (put_back-Leaves env w db (ground (arith, held)))
      | inr called ↦ rw called (
          recovered-Leaves db.index (fail_current_attempt env w expired_lease false true db) (
            fail_current_attempt-Leaves env w expired_lease false true db locked
              (ground (arith, called, running, busy, in_call))))
    ]

recover_open-Leaves :
    (env : Environment) (w : LockedWork) (db : Database)
    → IsLocked w db.index
    → is_terminal w.work.state ≡ false
    → Leaves db.index (recover_open env w db)
recover_open-Leaves env w db locked running = elim (Bool-cases (in_state w.work.state pending)) [
  | inl idle ↦ rw idle (Keeps-refl db.index)
  | inr busy ↦ elim (Bool-cases (in_state w.work.state retry_wait)) [
    | inl retrying ↦ elim (Bool-cases w.due) [
      | inl is_due ↦
          rw busy (rw retrying (simp is_due (put_back-Leaves env w db (ground (arith, retrying)))))
      | inr not_due ↦ rw busy (rw retrying (simp not_due (Keeps-refl db.index)))
    ]
    | inr in_call ↦ elim (Bool-cases w.lease_active) [
      | inl alive ↦ rw busy (rw in_call (simp alive (Keeps-refl db.index)))
      | inr lapsed_lease ↦ rw busy (
          rw in_call
            (simp lapsed_lease (recover_lapsed-Leaves env w db locked running busy in_call)))
    ]
  ]
]

recover_action-ActsWell : (env : Environment) → ActsWell (recover_action env)
recover_action-ActsWell env w none current db locked running =
    recover_open-Leaves env w db locked running
recover_action-ActsWell env w (some f) current db locked running =
    recovered-Leaves db.index (reject_fence env w f false db)
      (reject_fence-Leaves env w f false db locked running)

-- `recover` keeps the works and the attempts, also when it rolls back.
pub recover-Keeps :
    (env : Environment) (k : ℕ) (before db : Database) (recovery : Recovery) (after : Database)
    → recover env k before db ≡ some (recovery, after)
    → Keeps db.index after.index
unfolding recover
recover-Keeps env k before db recovery after e =
    go (with_fenced_work env k (recover_action env) before db)
      (with_fenced_work-Leaves env (recover_action env) (recover_action-ActsWell env) k before db) e
  where
    go :
        (r : Run (Answer Recovery))
        → Leaves db.index r
        → recovery_answer r ≡ some (recovery, after)
        → Keeps db.index after.index
    go (returns_with nothing_to_do x) l q =
        let same_tables : x ≡ after = ground arith in
        subst (λ (y : Database). Keeps db.index y.index) same_tables l
    go (returns_with (acted a) x) l q =
        let same_tables : x ≡ after = ground arith in
        subst (λ (y : Database). Keeps db.index y.index) same_tables l
    go rejects l q = absurd (ground arith)
    go throws l q = absurd (ground arith)

-- `recover` keeps the works and the attempts consistent, whatever state it finds the work in.
pub recover-IsConsistent :
    (env : Environment) (k : ℕ) (before db : Database) (recovery : Recovery) (after : Database)
    → recover env k before db ≡ some (recovery, after)
    → IsConsistent db.index
    → IsConsistent after.index
recover-IsConsistent env k before db recovery after e =
    (recover-Keeps env k before db recovery after e).0
