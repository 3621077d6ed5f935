-- ===== src/Indexing/Execution/Results.antt =====
-- The completion of an attempt keeps the works and the attempts consistent.
use devfootnote_project.Base.{
  Bool, Bool-cases, Option, Option-cases, arith, false, if◌then◌else◌, inl, inr, none, not, refl,
  some, subst, sym, true, ℕ, ◌&&◌, ◌==◌, ◌||◌, ◌≡◌,
}
use devfootnote_project.Indexing.Execution.{
  Answer, Closing, Database, Environment, Run, acted, nothing_to_do, reject_fence, rejects,
  returns_with, throws, was_ignored, went_final, went_obsolete, went_to_retry, with_fenced_work,
}
use devfootnote_project.Indexing.Execution.Completion.{
  CallResult, Completion, closed, complete_action, complete_attempt, complete_current,
  complete_open, completed, completion_answer, publish_result, record_usage, rejected_fence,
  valid_usage, valid_vectors, was_published,
}
use devfootnote_project.Indexing.Execution.Consistency.{
  ActsWell, Keeps, Keeps-refl, Leaves, fail_current_attempt-Leaves, holds_lease-state,
  reject_fence-Leaves, with_fenced_work-Leaves,
}
use devfootnote_project.Indexing.Policy.{LockedWork, call_failed, holds_lease}
use devfootnote_project.Indexing.Schema.{FenceFailure, Index, calling, in_state, invalid_response}
use devfootnote_project.Indexing.Works.{has_active_attempt, publish}
use devfootnote_project.Indexing.Works.Endings.{IsLocked, publish-IsConsistent}
use devfootnote_project.Indexing.Works.Leases.{publish-Progresses}
use devfootnote_project.Indexing.Works.Tracking.{IsConsistent}
use devfootnote_project.Materials.Current.{CurrentIntent, chunks_of}
use devfootnote_project.Usage.Reservations.{record_call}

record_usage-index :
    (w : LockedWork) (attempt : ℕ) (tokens : Option ℕ) (db : Database) {recorded : Database}
    → record_usage w attempt tokens db ≡ some recorded
    → db.index ≡ recorded.index
unfolding record_usage
record_usage-index w attempt tokens db {recorded} e = elim (Option-cases w.work.reservation_id) [
  | inl no_reservation ↦ ground (arith, no_reservation)
  | inr (r, reserved_by) ↦
      elim (Option-cases (record_call w.work.owner_id r attempt tokens db.ledger)) [
        | inl excess ↦ ground (arith, reserved_by, excess)
        | inr (ledger, recorded_call) ↦ ground (arith, reserved_by, recorded_call)
      ]
]

completed-Leaves : (from : Index) (r : Run Closing) → Leaves from r → Leaves from (completed r)
completed-Leaves from (returns_with went_obsolete db) h = h
completed-Leaves from (returns_with went_final db) h = h
completed-Leaves from (returns_with went_to_retry db) h = h
completed-Leaves from (returns_with was_ignored db) h = h
completed-Leaves from rejects h = tt
completed-Leaves from throws h = tt

rejected_fence-Leaves :
    (from : Index) (r : Run Closing) → Leaves from r → Leaves from (rejected_fence r)
rejected_fence-Leaves from (returns_with c db) h = h
rejected_fence-Leaves from rejects h = tt
rejected_fence-Leaves from throws h = tt

publish_result-Leaves :
    (nonzero : ℕ → Bool) (env : Environment) (w : LockedWork) (attempt : ℕ)
    (current : CurrentIntent) (result : CallResult) (db : Database)
    → Leaves db.index (publish_result nonzero env w attempt current result db)
unfolding publish_result
publish_result-Leaves nonzero env w attempt current result db =
    go
      (publish nonzero db.store.chunks w attempt current.material_id current.revision_id
        result.vectors env.written_at db.index)
      refl
  where
    go :
        (o : Option (Bool × Index))
        → publish nonzero db.store.chunks w attempt current.material_id current.revision_id
            result.vectors env.written_at db.index
          ≡ o
        → Leaves {A = Completion} db.index (elim o [
          | none ↦ throws
          | some (published_now, index) ↦
              returns_with
                (if published_now then was_published else closed was_ignored)
                (record db { index = index })
        ])
    go none e = tt
    go (some (published_now, index)) e = (
      publish-IsConsistent nonzero db.store.chunks w attempt current.material_id current.revision_id
          result.vectors env.written_at db.index published_now index e,
      publish-Progresses nonzero db.store.chunks w attempt current.material_id current.revision_id
          result.vectors env.written_at db.index {published_now = published_now} {after = index} e,
    )

module _ (finite nonzero : ℕ → Bool) (env : Environment) where
  complete_open-Leaves :
      (w : LockedWork) (attempt : ℕ) (current : Option CurrentIntent) (result : CallResult)
      (db : Database)
      → IsLocked w db.index
      → in_state w.work.state calling ≡ true
      → Leaves db.index (complete_open finite nonzero env w attempt current result db)
  unfolding complete_current
  complete_open-Leaves w attempt none result db locked called = tt
  complete_open-Leaves w attempt (some c) result db locked called =
      elim (Bool-cases (
        valid_usage result.tokens
        && valid_vectors finite nonzero result.vectors
            (chunks_of w.work.owner_id c.material_id c.revision_id db.store))) [
              | inl valid ↦ rw valid (publish_result-Leaves nonzero env w attempt c result db)
              | inr invalid ↦ rw invalid (
                  completed-Leaves db.index _ (
                    fail_current_attempt-Leaves env w (call_failed invalid_response) true false db
                      locked called))
            ]

  abbrev complete_rest :
      ℕ
      → CallResult
      → LockedWork
      → Option FenceFailure
      → Option CurrentIntent
      → Database
      → Run Completion
  complete_rest attempt result w failure current recorded = elim failure [
    | some f ↦ rejected_fence (reject_fence env w f true recorded)
    | none ↦ complete_open finite nonzero env w attempt current result recorded
  ]

  complete_recorded-Leaves :
      (attempt : ℕ) (result : CallResult) (w : LockedWork) (failure : Option FenceFailure)
      (current : Option CurrentIntent) (recorded : Database)
      → IsLocked w recorded.index
      → in_state w.work.state calling ≡ true
      → Leaves {A = Completion} recorded.index (elim failure [
        | some f ↦ rejected_fence (reject_fence env w f true recorded)
        | none ↦ complete_open finite nonzero env w attempt current result recorded
      ])
  complete_recorded-Leaves attempt result w none current recorded locked called =
      complete_open-Leaves w attempt current result recorded locked called
  complete_recorded-Leaves attempt result w (some f) current recorded locked called =
      rejected_fence-Leaves recorded.index (reject_fence env w f true recorded)
        (reject_fence-Leaves env w f true recorded locked (ground (arith, called)))

  complete_action-ActsWell :
      (token attempt : ℕ) (result : CallResult)
      → ActsWell (complete_action finite nonzero env token attempt result)
  complete_action-ActsWell token attempt result w failure current db locked running =
      elim (Bool-cases (
        not (holds_lease w token calling)
        || not (result.config_fingerprint == w.work.config_fingerprint)
        || not (has_active_attempt w.work.id token attempt db.index))) [
          | inl ignored ↦ rw ignored (Keeps-refl db.index)
          | inr ours ↦ elim (Option-cases (record_usage w attempt result.tokens db)) [
            | inl excess ↦ rw ours (rw excess tt)
            | inr (recorded, e) ↦
                let same_index =
                  record_usage-index w attempt result.tokens db {recorded = recorded} e in
                rw ours (
                  rw e (
                    subst
                      (λ (x : Index).
                        Leaves x (complete_rest attempt result w failure current recorded))
                      (sym same_index)
                      (complete_recorded-Leaves attempt result w failure current recorded
                        (subst (λ (x : Index). IsLocked w x) same_index locked)
                        (holds_lease-state w token calling (ground (arith, ours))))))
          ]
        ]

-- `completeAttempt` keeps the works and the attempts, also when it rolls back.
pub complete_attempt-Keeps :
    (finite nonzero : ℕ → Bool) (env : Environment) (k token attempt : ℕ) (result : CallResult)
    (before db : Database) (completion : Completion) (after : Database)
    → complete_attempt finite nonzero env k token attempt result before db
      ≡ some (completion, after)
    → Keeps db.index after.index
unfolding complete_attempt
complete_attempt-Keeps finite nonzero env k token attempt result before db completion after e =
    go (with_fenced_work env k (complete_action finite nonzero env token attempt result) before db)
      (with_fenced_work-Leaves env (complete_action finite nonzero env token attempt result)
        (complete_action-ActsWell finite nonzero env token attempt result) k before db)
      e
  where
    go :
        (r : Run (Answer Completion))
        → Leaves db.index r
        → completion_answer r ≡ some (completion, after)
        → Keeps db.index after.index
    go (returns_with nothing_to_do x) l q =
        let same_tables : x ≡ after = ground arith in
        subst (λ (y : Database). Keeps db.index y.index) same_tables l
    go (returns_with (acted a) x) l q =
        let same_tables : x ≡ after = ground arith in
        subst (λ (y : Database). Keeps db.index y.index) same_tables l
    go rejects l q = absurd (ground arith)
    go throws l q = absurd (ground arith)

-- `completeAttempt` keeps the works and the attempts consistent, whether it publishes the vectors,
-- refuses them, or finds that the work may not go on.
pub complete_attempt-IsConsistent :
    (finite nonzero : ℕ → Bool) (env : Environment) (k token attempt : ℕ) (result : CallResult)
    (before db : Database) (completion : Completion) (after : Database)
    → complete_attempt finite nonzero env k token attempt result before db
      ≡ some (completion, after)
    → IsConsistent db.index
    → IsConsistent after.index
complete_attempt-IsConsistent finite nonzero env k token attempt result before db completion after
      e =
    (complete_attempt-Keeps finite nonzero env k token attempt result before db completion after
      e).0
