-- ===== src/Indexing/Execution.antt =====
-- apps/worker/src/modules/indexing/embedding-execution.service.ts: the transactions that join the
-- consent and the reservation of an owner, the current revision of a material, and a work.
pub mod Calls
pub mod Completion
pub mod Recovery
pub mod Starts
pub mod Consents
pub mod Consistency
pub mod Outcomes
pub mod Failures
pub mod Results
pub mod Histories
use devfootnote_project.Base.{
  Bool, Option, false, if◌then◌else◌, is_some, none, not, same, some, true, ℕ, ◌&&◌, ◌==◌,
}
use devfootnote_project.Indexing.Policy.{
  AttemptFailure, LockedWork, failure_decision, failure_of, fence_failure, is_terminal, retry_delay,
}
use devfootnote_project.Indexing.Schema.{
  FenceFailure, Index, Work, failed_finally, fence, reservation_expired, reservation_missing,
}
use devfootnote_project.Indexing.Works.{
  Transition, completed_reservation_attempts, find_work, finish, lock, to_final_failed, to_obsolete,
  to_retry_wait,
}
use devfootnote_project.Indexing.Works.Transitions.{work_id}
use devfootnote_project.Materials.Current.{CurrentIntent, lock_current_intent}
use devfootnote_project.Materials.Schema.{Store}
use devfootnote_project.Usage.Reservations.{
  EmbeddingReservation, lock_consent, lock_reservation, settle,
}
use devfootnote_project.Usage.Schema.{Ledger, is_reserved}

-- The tables of the three modules.
pub record Database : Type 0 where
  pub ledger : Ledger
  pub store : Store
  pub index : Index

-- What one call gets from outside: the configuration, the clock's readings by the statements of the
-- transaction in their order, and the random values.
pub record Environment : Type 0 where
  pub configuration : Option ℕ
  pub reservation_at : ℕ
  pub locked_at : ℕ
  pub written_at : ℕ
  pub exposed_at : ℕ
  pub settled_at : ℕ
  pub attempt_id : ℕ
  pub draw : ℕ → ℕ

-- How a transaction ends: with a value and the tables it commits, or rolled back, by
-- `AttemptStartRejected` or by another exception.
pub data Run {ℓ} (A : Type ℓ) : Type ℓ where
  returns_with : A → Database → Run A
  rejects : Run A
  throws : Run A

-- Where the code returns `undefined` before it runs the action.
pub data Answer {ℓ} (A : Type ℓ) : Type ℓ where
  nothing_to_do : Answer A
  acted : A → Answer A

-- What an action is given of the locked work.
abbrev pub Action {ℓ} : Type ℓ → Type ℓ
Action A = LockedWork → Option FenceFailure → Option CurrentIntent → Database → Run A

abbrev pub reservation_of : Environment → Work → Ledger → Option EmbeddingReservation
reservation_of env w ledger = elim w.reservation_id [
  | none ↦ none
  | some r ↦ lock_reservation w.owner_id r env.reservation_at ledger
]

-- The identity of the work has not changed since the snapshot.
abbrev pub same_identity : Work → Work → Bool
same_identity w snapshot =
    (w.owner_id == snapshot.owner_id)
    && (w.intent_id == snapshot.intent_id)
    && (w.config_fingerprint == snapshot.config_fingerprint)
    && (w.consent_epoch == snapshot.consent_epoch)
    && same w.reservation_id snapshot.reservation_id

abbrev pub is_open : Option EmbeddingReservation → Bool
is_open none = false
is_open (some r) = is_reserved r.state

-- The settlement of a reservation once all its works have ended.
unfoldable pub settle_completed {ℓ} : {A : Type ℓ} → Environment → Work → ℕ → A → Database → Run A
settle_completed env w r a db = elim (completed_reservation_attempts w.owner_id r db.index) [
  | none ↦ returns_with a db
  | some attempts ↦ elim (settle w.owner_id r attempts env.settled_at db.ledger) [
    | none ↦ throws
    | some ledger ↦ returns_with a (record db { ledger = ledger })
  ]
]

abbrev pub after_action {ℓ} : {A : Type ℓ} → Environment → Work → Bool → Run A → Run (Answer A)
after_action env w open_reservation rejects = rejects
after_action env w open_reservation throws = throws
after_action env w open_reservation (returns_with a db) = elim w.reservation_id [
  | none ↦ returns_with (acted a) db
  | some r ↦
      if open_reservation then settle_completed env w r (acted a) db else returns_with (acted a) db
]

-- The fences as `withFencedWork` evaluates them.
abbrev pub fences : Environment → ℕ → Work → Work → Database → Option FenceFailure
fences env configuration snapshot w db =
    fence_failure configuration w (lock_consent snapshot.owner_id db.ledger)
      (is_some (lock_current_intent snapshot.owner_id snapshot.intent_id db.store))
      (reservation_of env snapshot db.ledger)

-- The part of `withFencedWork` once the work is locked.
unfoldable pub with_locked_work {ℓ} :
    {A : Type ℓ} → Environment → ℕ → Work → Action A → LockedWork → Database → Run (Answer A)
with_locked_work env configuration snapshot action w db =
    if is_terminal w.work.state
    then returns_with nothing_to_do db
    else if not (same_identity w.work snapshot)
    then throws
    else after_action env w.work (is_open (reservation_of env snapshot db.ledger)) (
        action w (fences env configuration snapshot w.work db)
          (lock_current_intent snapshot.owner_id snapshot.intent_id db.store) db)

unfoldable pub with_snapshot {ℓ} :
    {A : Type ℓ} → Environment → ℕ → ℕ → Action A → Work → Database → Run (Answer A)
with_snapshot env configuration work_id action snapshot db =
    if is_terminal snapshot.state
    then returns_with nothing_to_do db
    else elim (lock work_id env.locked_at db.index) [
      | none ↦ returns_with nothing_to_do db
      | some w ↦ with_locked_work env configuration snapshot action w db
    ]

-- `withFencedWork`; `before` are the tables when the snapshot is read, outside the transaction.
unfoldable pub with_fenced_work {ℓ} :
    {A : Type ℓ} → Environment → ℕ → Action A → Database → Database → Run (Answer A)
with_fenced_work env work_id action before db = elim env.configuration [
  | none ↦ returns_with nothing_to_do db
  | some configuration ↦ elim (find_work work_id before.index) [
    | none ↦ returns_with nothing_to_do db
    | some snapshot ↦ with_snapshot env configuration work_id action snapshot db
  ]
]

-- What `rejectFence` and `failCurrentAttempt` answer.
pub data Closing : Type 0 where
  went_obsolete went_final went_to_retry was_ignored : Closing

abbrev pub is_reservation_failure : FenceFailure → Bool
is_reservation_failure reservation_missing = true
is_reservation_failure reservation_expired = true
is_reservation_failure _ = false

abbrev pub fence_transition : FenceFailure → Transition
fence_transition f =
    if is_reservation_failure f then to_final_failed (fence f) failed_finally else to_obsolete f

abbrev pub closing_of : Transition → Closing
closing_of (to_retry_wait f o delay) = went_to_retry
closing_of (to_final_failed f o) = went_final
closing_of (to_obsolete f) = went_obsolete

-- `finish` and the answer that it leads to.
unfoldable pub close_work : Environment → LockedWork → Transition → Bool → Database → Run Closing
close_work env w t live db =
    let (was_changed, index) = finish w t live env.written_at db.index in
    returns_with (if was_changed then closing_of t else was_ignored) (record db { index = index })

-- `rejectFence`
abbrev pub reject_fence : Environment → LockedWork → FenceFailure → Bool → Database → Run Closing
reject_fence env w f live db = close_work env w (fence_transition f) live db

abbrev pub failure_transition : Environment → ℕ → AttemptFailure → Bool → Transition
failure_transition env attempt_count failure retryable =
    let decision = failure_decision attempt_count failure retryable in
    if decision.final
    then to_final_failed (failure_of failure) decision.outcome
    else to_retry_wait failure decision.outcome (retry_delay env.draw attempt_count)

-- `failCurrentAttempt`
abbrev pub fail_current_attempt :
    Environment → LockedWork → AttemptFailure → Bool → Bool → Database → Run Closing
fail_current_attempt env w failure live retryable db =
    close_work env w (failure_transition env w.work.attempt_count failure retryable) live db
