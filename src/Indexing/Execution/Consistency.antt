-- ===== src/Indexing/Execution/Consistency.antt =====
-- What the calls of the service do to the works and the attempts.
use devfootnote_project.Base.{
  Bool, Bool-cases, List, Option, Option-cases, arith, false, if◌then◌else◌, inl, inr, none, some,
  subst, sym, true, ℕ, ◌==◌, ◌≡◌,
}
use devfootnote_project.Base.Table.{first-holds}
use devfootnote_project.Indexing.Execution.{
  Action, Database, Environment, Run, acted, after_action, close_work, fail_current_attempt,
  failure_transition, fence_transition, fences, nothing_to_do, reject_fence, rejects, returns_with,
  same_identity, settle_completed, throws, with_fenced_work, with_locked_work, with_snapshot,
}
use devfootnote_project.Indexing.Policy.{
  AttemptFailure, LockedWork, failure_decision, holds_lease, is_terminal,
}
use devfootnote_project.Indexing.Schema.{FenceFailure, Index, Work, WorkState, calling, in_state}
use devfootnote_project.Indexing.Works.{
  Transition, completed_reservation_attempts, find_work, lock, locked_view, transition_state,
}
use devfootnote_project.Indexing.Works.Endings.{Ends, IsLocked, finish-IsConsistent}
use devfootnote_project.Indexing.Works.Leases.{finish-Progresses}
use devfootnote_project.Indexing.Works.Lives.{Progresses, Progresses-refl, may_follow}
use devfootnote_project.Indexing.Works.Tracking.{IsConsistent}
use devfootnote_project.Indexing.Works.Transitions.{work_id}
use devfootnote_project.Materials.Current.{CurrentIntent, lock_current_intent}
use devfootnote_project.Usage.Reservations.{settle}
use devfootnote_project.Usage.Schema.{Ledger}

-- What a transaction does to the works and the attempts: it keeps them consistent, and moves each
-- work along its life or leaves it as it is.
abbrev pub Keeps : Index → Index → Type 0
Keeps from index = (IsConsistent from → IsConsistent index) × Progresses from.works index.works

pub Keeps-refl : (index : Index) → Keeps index index
Keeps-refl index = (λ h. h, Progresses-refl index.works)

-- A transaction that commits does so.
abbrev pub Leaves {ℓ} : {A : Type ℓ} → Index → Run A → Type 0
Leaves from (returns_with a db) = Keeps from db.index
Leaves from rejects = Unit
Leaves from throws = Unit

-- An action does so where its work is locked and has not ended.
abbrev pub ActsWell {ℓ} : {A : Type ℓ} → Action A → Type 0
ActsWell action =
    (w : LockedWork) (failure : Option FenceFailure) (current : Option CurrentIntent)
    (db : Database)
    → IsLocked w db.index
    → is_terminal w.work.state ≡ false
    → Leaves db.index (action w failure current db)

pub lock-IsLocked :
    (id now : ℕ) (index : Index) {w : LockedWork} → lock id now index ≡ some w → IsLocked w index
unfolding lock
lock-IsLocked id now index {w} e = elim (Option-cases (find_work id index)) [
  | inl missing ↦ absurd (ground (arith, missing))
  | inr (row, found_row) ↦
      let same_id : (row.id == id) ≡ true =
        first-holds (λ (x : Work). x.id == id) index.works {x = row} found_row in
      let equal_id : row.id ≡ id = ground (arith, same_id) in
      let is_row : locked_view now row ≡ w = ground (arith, found_row) in
      subst (λ (x : LockedWork). find_work x.work.id index ≡ some x.work) is_row
        (subst (λ n. find_work n index ≡ some row) (sym equal_id) found_row)
]

settle_completed-Leaves {ℓ} :
    {A : Type ℓ} (from : Index) (env : Environment) (w : Work) (r : ℕ) (a : A) (db : Database)
    → Keeps from db.index
    → Leaves from (settle_completed env w r a db)
unfolding settle_completed
settle_completed-Leaves from env w r a db h =
    go (completed_reservation_attempts w.owner_id r db.index)
  where
    settled_ledger :
        (o : Option Ledger)
        → Leaves from (elim o [
          | none ↦ throws
          | some ledger ↦ returns_with a (record db { ledger = ledger })
        ])
    settled_ledger none = tt
    settled_ledger (some ledger) = h

    go :
        (o : Option (List ℕ))
        → Leaves from (elim o [
          | none ↦ returns_with a db
          | some attempts ↦ elim (settle w.owner_id r attempts env.settled_at db.ledger) [
            | none ↦ throws
            | some ledger ↦ returns_with a (record db { ledger = ledger })
          ]
        ])
    go none = h
    go (some attempts) = settled_ledger (settle w.owner_id r attempts env.settled_at db.ledger)

after_action-Leaves {ℓ} :
    {A : Type ℓ} (from : Index) (env : Environment) (w : Work) (b : Bool) (r : Run A)
    → Leaves from r
    → Leaves from (after_action env w b r)
after_action-Leaves from env w b rejects h = tt
after_action-Leaves from env w b throws h = tt
after_action-Leaves from env w b (returns_with a db) h = go w.reservation_id b
  where
    go :
        (o : Option ℕ) (b' : Bool)
        → Leaves from (elim o [
          | none ↦ returns_with (acted a) db
          | some r ↦ if b' then settle_completed env w r (acted a) db else returns_with (acted a) db
        ])
    go none b' = h
    go (some r) true = settle_completed-Leaves from env w r (acted a) db h
    go (some r) false = h

module _ {ℓ} {A : Type ℓ} (env : Environment) (action : Action A) (well : ActsWell action) where
  with_locked_work-Leaves :
      (configuration : ℕ) (snapshot : Work) (w : LockedWork) (db : Database)
      → IsLocked w db.index
      → Leaves db.index (with_locked_work env configuration snapshot action w db)
  unfolding with_locked_work
  with_locked_work-Leaves configuration snapshot w db locked =
      elim (Bool-cases (is_terminal w.work.state)) [
        | inl ended ↦ rw ended (Keeps-refl db.index)
        | inr running ↦ elim (Bool-cases (same_identity w.work snapshot)) [
          | inl same_work ↦ rw running (
              rw same_work (
                after_action-Leaves db.index env w.work _ _ (
                  well w (fences env configuration snapshot w.work db)
                    (lock_current_intent snapshot.owner_id snapshot.intent_id db.store) db locked
                    running)))
          | inr differs ↦ rw running (rw differs tt)
        ]
      ]

  with_snapshot-Leaves :
      (configuration work_id : ℕ) (snapshot : Work) (db : Database)
      → Leaves db.index (with_snapshot env configuration work_id action snapshot db)
  unfolding with_snapshot
  with_snapshot-Leaves configuration work_id snapshot db =
      elim (Bool-cases (is_terminal snapshot.state)) [
        | inl ended ↦ rw ended (Keeps-refl db.index)
        | inr running ↦ elim (Option-cases (lock work_id env.locked_at db.index)) [
          | inl missing ↦ rw running (rw missing (Keeps-refl db.index))
          | inr (w, locked) ↦ rw running (
              rw locked (
                with_locked_work-Leaves configuration snapshot w db
                  (lock-IsLocked work_id env.locked_at db.index {w = w} locked)))
        ]
      ]

  -- Whatever ends the transaction, what it commits is consistent.
  pub with_fenced_work-Leaves :
      (work_id : ℕ) (before db : Database)
      → Leaves db.index (with_fenced_work env work_id action before db)
  unfolding with_fenced_work
  with_fenced_work-Leaves work_id before db = go env.configuration
    where
      snapshot_of :
          (configuration : ℕ) (o : Option Work)
          → Leaves db.index (elim o [
            | none ↦ returns_with nothing_to_do db
            | some snapshot ↦ with_snapshot env configuration work_id action snapshot db
          ])
      snapshot_of configuration none = Keeps-refl db.index
      snapshot_of configuration (some snapshot) =
          with_snapshot-Leaves configuration work_id snapshot db

      go :
          (o : Option ℕ)
          → Leaves db.index (elim o [
            | none ↦ returns_with nothing_to_do db
            | some configuration ↦ elim (find_work work_id before.index) [
              | none ↦ returns_with nothing_to_do db
              | some snapshot ↦ with_snapshot env configuration work_id action snapshot db
            ]
          ])
      go none = Keeps-refl db.index
      go (some configuration) = snapshot_of configuration (find_work work_id before.index)

close_work-Leaves :
    (env : Environment) (w : LockedWork) (t : Transition) (live : Bool) (db : Database)
    → Ends t
    → IsLocked w db.index
    → is_terminal w.work.state ≡ false
    → may_follow w.work.state (transition_state t) ≡ true
    → Leaves db.index (close_work env w t live db)
unfolding close_work
close_work-Leaves env w t live db not_started locked running may = (
  finish-IsConsistent w t live env.written_at db.index not_started locked,
  finish-Progresses w t live env.written_at db.index running may,
)

fence_transition-Ends : (f : FenceFailure) → Ends (fence_transition f)
fence_transition-Ends f = ground arith

fence_transition-may :
    (s : WorkState) (f : FenceFailure)
    → is_terminal s ≡ false
    → may_follow s (transition_state (fence_transition f)) ≡ true
fence_transition-may s f running = ground arith

failure_transition-Ends :
    (env : Environment) (n : ℕ) (f : AttemptFailure) (retryable : Bool)
    → Ends (failure_transition env n f retryable)
unfolding failure_decision
failure_transition-Ends env n f retryable = ground arith

failure_transition-may :
    (env : Environment) (s : WorkState) (n : ℕ) (f : AttemptFailure) (retryable : Bool)
    → in_state s calling ≡ true
    → may_follow s (transition_state (failure_transition env n f retryable)) ≡ true
unfolding failure_decision
failure_transition-may env s n f retryable called = ground arith

pub reject_fence-Leaves :
    (env : Environment) (w : LockedWork) (f : FenceFailure) (live : Bool) (db : Database)
    → IsLocked w db.index
    → is_terminal w.work.state ≡ false
    → Leaves db.index (reject_fence env w f live db)
reject_fence-Leaves env w f live db locked running =
    close_work-Leaves env w (fence_transition f) live db (fence_transition-Ends f) locked running
      (fence_transition-may w.work.state f running)

-- A failure is one of a work in a call.
pub fail_current_attempt-Leaves :
    (env : Environment) (w : LockedWork) (f : AttemptFailure) (live retryable : Bool)
    (db : Database)
    → IsLocked w db.index
    → in_state w.work.state calling ≡ true
    → Leaves db.index (fail_current_attempt env w f live retryable db)
fail_current_attempt-Leaves env w f live retryable db locked called =
    close_work-Leaves env w (failure_transition env w.work.attempt_count f retryable) live db
      (failure_transition-Ends env w.work.attempt_count f retryable) locked (ground (arith, called))
      (failure_transition-may env w.work.state w.work.attempt_count f retryable called)

pub holds_lease-state :
    (w : LockedWork) (token : ℕ) (state : WorkState)
    → holds_lease w token state ≡ true
    → in_state w.work.state state ≡ true
unfolding holds_lease
holds_lease-state w token state e = ground (arith, e)
