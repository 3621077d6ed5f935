-- ===== src/Indexing/Execution/Outcomes.antt =====
-- The start of an attempt keeps the works and the attempts consistent.
use devfootnote_project.Base.{
  Bool, Bool-cases, Option, arith, false, if◌then◌else◌, inl, inr, none, refl, some, subst, true, ℕ,
  ◌≡◌,
}
use devfootnote_project.Indexing.Execution.{
  Answer, Closing, Database, Environment, Run, acted, nothing_to_do, reject_fence, rejects,
  returns_with, throws, with_fenced_work,
}
use devfootnote_project.Indexing.Execution.Calls.{
  begin_exposed, begin_work, none_after, start_action, start_attempt, started_answer,
}
use devfootnote_project.Indexing.Execution.Consistency.{
  ActsWell, Keeps, Keeps-refl, Leaves, reject_fence-Leaves, with_fenced_work-Leaves,
}
use devfootnote_project.Indexing.Policy.{LockedWork, holds_lease}
use devfootnote_project.Indexing.Schema.{FenceFailure, Index, leased}
use devfootnote_project.Indexing.Works.{start}
use devfootnote_project.Indexing.Works.Attempts.{start-IsConsistent}
use devfootnote_project.Indexing.Works.Leases.{start-Progresses}
use devfootnote_project.Indexing.Works.Tracking.{IsConsistent}
use devfootnote_project.Usage.Reservations.{mark_exposure}
use devfootnote_project.Usage.Schema.{Ledger}

none_after-Leaves : (from : Index) (r : Run Closing) → Leaves from r → Leaves from (none_after r)
none_after-Leaves from (returns_with c db) h = h
none_after-Leaves from rejects h = tt
none_after-Leaves from throws h = tt

begin_exposed-Leaves :
    (from : Index) (env : Environment) (w : LockedWork) (number : ℕ) (index : Index) (db : Database)
    → Keeps from index
    → Leaves from (begin_exposed env w number index db)
unfolding begin_exposed
begin_exposed-Leaves from env w number index db h = go w.work.reservation_id
  where
    decided :
        (b : Bool) (ledger : Ledger)
        → Leaves {A = Option (ℕ × ℕ)} from (
            if b
            then returns_with
                (some (env.attempt_id, number))
                (record db { index = index; ledger = ledger })
            else rejects)
    decided true ledger = h
    decided false ledger = tt

    go :
        (o : Option ℕ)
        → Leaves {A = Option (ℕ × ℕ)} from (elim o [
          | none ↦ rejects
          | some r ↦
              if (mark_exposure w.work.owner_id r env.exposed_at db.ledger).0
              then returns_with (some (env.attempt_id, number)) (record db {
                index = index;
                ledger = (mark_exposure w.work.owner_id r env.exposed_at db.ledger).1;
              })
              else rejects
        ])
    go none = tt
    go (some r) = decided _ _

start-Keeps :
    (w : LockedWork) (token attempt_id now : ℕ) (index : Index) (number : Option ℕ) (after : Index)
    → start w token attempt_id now index ≡ some (number, after)
    → Keeps index after
start-Keeps w token attempt_id now index number after e = (
  start-IsConsistent w token attempt_id now index number after e,
  start-Progresses w token attempt_id now index {o = number} {after = after} e,
)

begin_work-Leaves :
    (env : Environment) (token : ℕ) (w : LockedWork) (db : Database)
    → Leaves db.index (begin_work env token w db)
unfolding begin_work
begin_work-Leaves env token w db = go (start w token env.attempt_id env.written_at db.index) refl
  where
    go :
        (o : Option (Option ℕ × Index))
        → start w token env.attempt_id env.written_at db.index ≡ o
        → Leaves {A = Option (ℕ × ℕ)} db.index (elim o [
          | none ↦ throws
          | some (none, index) ↦ returns_with none (record db { index = index })
          | some (some number, index) ↦ begin_exposed env w number index db
        ])
    go none e = tt
    go (some (none, index)) e =
        start-Keeps w token env.attempt_id env.written_at db.index none index e
    go (some (some number, index)) e =
        begin_exposed-Leaves db.index env w number index db
          (start-Keeps w token env.attempt_id env.written_at db.index (some number) index e)

start_action-ActsWell : (env : Environment) (token : ℕ) → ActsWell (start_action env token)
start_action-ActsWell env token w failure current db locked running =
    elim (Bool-cases (holds_lease w token leased)) [
      | inl held ↦ rw held (go failure)
      | inr not_held ↦ rw not_held (Keeps-refl db.index)
    ]
  where
    go :
        (o : Option FenceFailure)
        → Leaves {A = Option (ℕ × ℕ)} db.index (elim o [
          | some f ↦ none_after (reject_fence env w f true db)
          | none ↦ begin_work env token w db
        ])
    go none = begin_work-Leaves env token w db
    go (some f) =
        none_after-Leaves db.index (reject_fence env w f true db)
          (reject_fence-Leaves env w f true db locked running)

-- `startAttempt` keeps the works and the attempts, also when it rolls back.
pub start_attempt-Keeps :
    (env : Environment) (k token : ℕ) (before db : Database) (got : Option (ℕ × ℕ))
    (after : Database)
    → start_attempt env k token before db ≡ some (got, after)
    → Keeps db.index after.index
unfolding start_attempt
start_attempt-Keeps env k token before db got after e =
    go (with_fenced_work env k (start_action env token) before db)
      (with_fenced_work-Leaves env (start_action env token) (start_action-ActsWell env token) k
        before db)
      e
  where
    go :
        (r : Run (Answer (Option (ℕ × ℕ))))
        → Leaves db.index r
        → started_answer db r ≡ some (got, after)
        → Keeps db.index after.index
    go (returns_with nothing_to_do x) l q =
        let same_tables : x ≡ after = ground arith in
        subst (λ (y : Database). Keeps db.index y.index) same_tables l
    go (returns_with (acted a) x) l q =
        let same_tables : x ≡ after = ground arith in
        subst (λ (y : Database). Keeps db.index y.index) same_tables l
    go rejects l q =
        let same_tables : db ≡ after = ground arith in
        subst (λ (y : Database). Keeps db.index y.index) same_tables (Keeps-refl db.index)
    go throws l q = absurd (ground arith)

-- `startAttempt` keeps the works and the attempts consistent, also when it rolls back because the
-- reservation could not be exposed.
pub start_attempt-IsConsistent :
    (env : Environment) (k token : ℕ) (before db : Database) (got : Option (ℕ × ℕ))
    (after : Database)
    → start_attempt env k token before db ≡ some (got, after)
    → IsConsistent db.index
    → IsConsistent after.index
start_attempt-IsConsistent env k token before db got after e =
    (start_attempt-Keeps env k token before db got after e).0
