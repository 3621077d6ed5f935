-- ===== src/Indexing/Works/Attempts.antt =====
-- The start and the end of an attempt keep the works and the attempts consistent.
use native.Mathlib.Nat.{le_refl}
use devfootnote_project.Base.{
  Bool, Bool-cases, List, Option, Option-cases, [], any, ap, arith, false, inl, inr, none, refl,
  some, true, ℕ, ◌==◌, ◌∷◌, ◌≡◌, ◌≢◌, ◌≤◌,
}
use devfootnote_project.Base.Table.{All, All-first, first, first-holds, update}
use devfootnote_project.Indexing.Policy.{LockedWork}
use devfootnote_project.Indexing.Schema.{
  Attempt, Index, Work, attempt_conflicts, calling, has_work, in_state, insert_attempt,
  insert_attempt-cons,
}
use devfootnote_project.Indexing.Works.{new_attempt, start, start_row, startable}
use devfootnote_project.Indexing.Works.Endings.{IsLocked}
use devfootnote_project.Indexing.Works.Tracking.{
  Consistent, IsConsistent, Tracks, TracksAt-cons_other, TracksAt-cons_started, started_in,
}
use devfootnote_project.Indexing.Works.Transitions.{Consistent-change, idle_row}

start_rows :
    (w : LockedWork) (token attempt_id now : ℕ) (index : Index) (row : Work)
    → first (startable w.work.id token now) index.works ≡ some row
    → IsConsistent index
    → Consistent
        (update (startable w.work.id token now) start_row index.works)
        (new_attempt w row token attempt_id ∷ index.attempts)
start_rows w token attempt_id now index row found h =
    Consistent-change p start_row w.work.id index.attempts after row is_startable
      (λ x e. ground arith)
      (λ t.
        TracksAt-cons_started row.id row.lease_token row.attempt_count
          (new_attempt w row token attempt_id) index.attempts (ground (arith, is_startable))
          (ground (arith, is_startable)) (le_refl _)
          (idle_row index.attempts row row.lease_token (ground (arith, is_startable)) t))
      (λ x other_id t.
        TracksAt-cons_other x.id x.lease_token (in_state x.state calling) x.attempt_count
          (new_attempt w row token attempt_id) index.attempts (ground arith) t)
      index.works found (λ x. refl) (λ x q c. ground arith) h
  where
    p : Work → Bool
    p = startable w.work.id token now

    after : List Attempt
    after = new_attempt w row token attempt_id ∷ index.attempts

    is_startable : startable w.work.id token now row ≡ true
    is_startable = first-holds p index.works {x = row} found

-- A start keeps the works and the attempts consistent.
pub start-IsConsistent :
    (w : LockedWork) (token attempt_id now : ℕ) (index : Index) (number : Option ℕ) (after : Index)
    → start w token attempt_id now index ≡ some (number, after)
    → IsConsistent index
    → IsConsistent after
unfolding start
start-IsConsistent w token attempt_id now index number after e h =
    elim (Option-cases (first (startable w.work.id token now) index.works)) [
      | inl nothing ↦ ground arith
      | inr (row, found) ↦ ground (
        arith,
        start_rows w token attempt_id now index row found h,
        insert_attempt-cons index.works (new_attempt w row token attempt_id) index.attempts
            {after = after.attempts},
      )
    ]

no_conflict :
    (w : LockedWork) (row : Work) (token attempt_id : ℕ) (attempts : List Attempt)
    → w.work.id ≡ row.id
    → any (λ (a : Attempt). a.id == attempt_id) attempts ≡ false
    → started_in row.id attempts ≡ 0
    → All (λ (a : Attempt). (a.work_id == row.id) ≡ true → a.number ≤ row.attempt_count) attempts
    → any (attempt_conflicts (new_attempt w row token attempt_id)) attempts ≡ false
unfolding started_in
no_conflict w row token attempt_id [] same_id unused idle numbers = refl
no_conflict w row token attempt_id (a ∷ attempts) same_id unused idle numbers = ground (
  arith,
  numbers.0,
  no_conflict w row token attempt_id attempts same_id (ground arith) (ground arith) numbers.1,
)

found-has_work :
    (id : ℕ) (row : Work) (works : List Work)
    → first (λ (x : Work). x.id == id) works ≡ some row
    → has_work row.owner_id id works ≡ true
found-has_work id row [] e = absurd (ground arith)
found-has_work id row (x ∷ works) e = elim (Bool-cases (x.id == id)) [
  | inl named ↦
      let is_row : x ≡ row = ground arith in
      let same_owner : x.owner_id ≡ row.owner_id = ap (λ (y : Work). y.owner_id) is_row in
      ground arith
  | inr other_work ↦ ground (arith, found-has_work id row works (ground arith))
]

-- In consistent tables, the start of a work that was read under its lock in the same transaction,
-- with an identifier that no attempt has, never runs into a constraint of the database.
pub start-ne-none :
    (w : LockedWork) (token attempt_id now : ℕ) (index : Index)
    → IsConsistent index
    → IsLocked w index
    → any (λ (a : Attempt). a.id == attempt_id) index.attempts ≡ false
    → start w token attempt_id now index ≢ none
unfolding start insert_attempt
start-ne-none w token attempt_id now index h locked unused =
    elim (Option-cases (first (startable w.work.id token now) index.works)) [
      | inl nothing ↦ ground arith
      | inr (row, found) ↦
          let is_startable =
            first-holds (startable w.work.id token now) index.works {x = row} found in
          let t =
            All-first (Tracks index.attempts) (startable w.work.id token now) index.works {x = row}
              h.tracked found in
          let i = idle_row index.attempts row none (ground (arith, is_startable)) t in
          ground (
            arith,
            is_startable,
            no_conflict w row token attempt_id index.attempts,
            found-has_work w.work.id w.work index.works locked,
            unused,
            i.count,
            i.numbers,
          )
    ]
