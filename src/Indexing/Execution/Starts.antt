-- ===== src/Indexing/Execution/Starts.antt =====
-- What an attempt that was started may rely on.
use devfootnote_project.Base.{
  Bool, Bool-cases, Option, Option-cases, arith, inl, inr, is_some, none, refl, some, subst, sym,
  true, ℕ, ◌≡◌, ◌≢◌,
}
use devfootnote_project.Base.Table.{first}
use devfootnote_project.Indexing.Execution.{
  Action, Answer, Closing, Database, Environment, Run, acted, after_action, fences, is_open,
  nothing_to_do, reject_fence, rejects, reservation_of, returns_with, same_identity,
  settle_completed, throws, with_fenced_work, with_locked_work, with_snapshot,
}
use devfootnote_project.Indexing.Execution.Calls.{
  begin_exposed, begin_work, none_after, start_action, start_attempt, started_answer,
}
use devfootnote_project.Indexing.Policy.{LockedWork, holds_lease}
use devfootnote_project.Indexing.Schema.{FenceFailure, Index, Work, insert_attempt, leased}
use devfootnote_project.Indexing.Works.{
  completed_reservation_attempts, find_work, has_active_attempt, lock, start, startable,
}
use devfootnote_project.Materials.Current.{CurrentIntent, lock_current_intent}
use devfootnote_project.Usage.Reservations.{exposable, mark_exposure, settle}

settle_completed-inv {ℓ} :
    {A : Type ℓ} (env : Environment) (w : Work) (r : ℕ) (x a : A) (db after : Database)
    → settle_completed env w r x db ≡ returns_with a after
    → (x ≡ a) × (after.index ≡ db.index)
unfolding settle_completed
settle_completed-inv env w r x a db after e =
    elim (Option-cases (completed_reservation_attempts w.owner_id r db.index)) [
      | inl busy ↦ ground (arith, busy)
      | inr (attempts, all_ended) ↦
          elim (Option-cases (settle w.owner_id r attempts env.settled_at db.ledger)) [
            | inl excess ↦ absurd (ground (arith, all_ended, excess))
            | inr (ledger, closed_row) ↦ ground (arith, all_ended, closed_row)
          ]
    ]

after_action-inv {ℓ} :
    {A : Type ℓ} (env : Environment) (w : Work) (b : Bool) (r : Run A) (a : A) (after : Database)
    → after_action env w b r ≡ returns_with (acted a) after
    → (inner : Database) × (r ≡ returns_with a inner) × (after.index ≡ inner.index)
after_action-inv env w b rejects a after e = absurd (ground arith)
after_action-inv env w b throws a after e = absurd (ground arith)
after_action-inv env w b (returns_with x db) a after e = elim (Option-cases w.reservation_id) [
  | inl no_reservation ↦ (db, ground (arith, no_reservation), ground (arith, no_reservation))
  | inr (r, reserved_by) ↦ elim (Bool-cases b) [
    | inl open_one ↦
        let (same_answer, same_index) =
          settle_completed-inv env w r (acted x) (acted a) db after
            (ground (arith, reserved_by, open_one)) in
        (db, ground (arith, same_answer), same_index)
    | inr closed_one ↦
        (db, ground (arith, reserved_by, closed_one), ground (arith, reserved_by, closed_one))
  ]
]

-- That an action ran, on what the transaction had locked, and what came of it.
record Acted {ℓ} {A : Type ℓ} (env : Environment) (k : ℕ) (action : Action A) (db : Database)
    (a : A) (after : Database) : Type ℓ where
  configuration : ℕ
  snapshot : Work
  w : LockedWork
  inner : Database
  locked : lock k env.locked_at db.index ≡ some w
  ran :
      action w
        (fences env configuration snapshot w.work db)
        (lock_current_intent snapshot.owner_id snapshot.intent_id db.store)
        db
      ≡ returns_with a inner
  same_index : after.index ≡ inner.index
  configured : env.configuration ≡ some configuration
  unchanged : same_identity w.work snapshot ≡ true

with_fenced_work-inv {ℓ} :
    {A : Type ℓ} (env : Environment) (k : ℕ) (action : Action A) (before db : Database) (a : A)
    (after : Database)
    → with_fenced_work env k action before db ≡ returns_with (acted a) after
    → Acted env k action db a after
unfolding with_fenced_work with_snapshot with_locked_work
with_fenced_work-inv env k action before db a after e = elim (Option-cases env.configuration) [
  | inl unset ↦ absurd (ground (arith, unset))
  | inr (configuration, configured) ↦ elim (Option-cases (find_work k before.index)) [
    | inl missing ↦ absurd (ground (arith, configured, missing))
    | inr (snapshot, seen_before) ↦ elim (Option-cases (lock k env.locked_at db.index)) [
      | inl gone ↦ absurd (ground (arith, configured, seen_before, gone))
      | inr (w, locked) ↦ elim (Bool-cases (same_identity w.work snapshot)) [
        | inl unchanged ↦
            let (inner, ran, same_index) =
              after_action-inv env w.work (is_open (reservation_of env snapshot db.ledger)) _ a
                after (ground (arith, configured, seen_before, locked, unchanged)) in
            record {
              configuration = configuration;
              snapshot = snapshot;
              w = w;
              inner = inner;
              locked = locked;
              ran = ran;
              same_index = same_index;
              configured = configured;
              unchanged = unchanged;
            }
        | inr differs ↦ absurd (ground (arith, configured, seen_before, locked, differs))
      ]
    ]
  ]
]

begin_exposed-inv :
    (env : Environment) (w : LockedWork) (number : ℕ) (index : Index) (db : Database) (a : ℕ × ℕ)
    (inner : Database)
    → begin_exposed env w number index db ≡ returns_with (some a) inner
    → (r : ℕ) × (w.work.reservation_id ≡ some r)
      × (is_some (first (exposable w.work.owner_id r env.exposed_at) db.ledger.reservations) ≡ true)
      × (a.0 ≡ env.attempt_id)
      × (inner.index ≡ index)
unfolding begin_exposed mark_exposure
begin_exposed-inv env w number index db a inner e = elim (Option-cases w.work.reservation_id) [
  | inl no_reservation ↦ absurd (ground (arith, no_reservation))
  | inr (r, reserved_by) ↦ (
    r,
    reserved_by,
    ground (arith, reserved_by),
    ground (arith, reserved_by),
    ground (arith, reserved_by),
  )
]

start-active :
    (w : LockedWork) (token attempt now : ℕ) (index after : Index) (number : ℕ)
    → start w token attempt now index ≡ some (some number, after)
    → has_active_attempt w.work.id token attempt after ≡ true
unfolding start insert_attempt has_active_attempt
start-active w token attempt now index after number e =
    elim (Option-cases (first (startable w.work.id token now) index.works)) [
      | inl nothing ↦ absurd (ground (arith, nothing))
      | inr (row, found_row) ↦ ground (arith, found_row)
    ]

none_after-some :
    (r : Run Closing) (a : ℕ × ℕ) (inner : Database) → none_after r ≢ returns_with (some a) inner
none_after-some (returns_with c db) a inner e = ground arith
none_after-some rejects a inner e = ground arith
none_after-some throws a inner e = ground arith

started_answer-inv :
    (db : Database) (r : Run (Answer (Option (ℕ × ℕ)))) (a : ℕ × ℕ) (after : Database)
    → started_answer db r ≡ some (some a, after)
    → r ≡ returns_with (acted (some a)) after
started_answer-inv db (returns_with nothing_to_do x) a after e = absurd (ground arith)
started_answer-inv db (returns_with (acted x) y) a after e = ground arith
started_answer-inv db rejects a after e = absurd (ground arith)
started_answer-inv db throws a after e = absurd (ground arith)

-- What the caller of the provider may rely on.
pub record MayCall (env : Environment) (k token : ℕ) (db : Database) (a : ℕ × ℕ) (after : Database)
    : Type 0 where
  pub configuration : ℕ
  pub snapshot : Work
  pub w : LockedWork
  pub reservation : ℕ
  pub configured : env.configuration ≡ some configuration
  pub locked : lock k env.locked_at db.index ≡ some w
  pub unchanged : same_identity w.work snapshot ≡ true
  pub leased_to : holds_lease w token leased ≡ true
  pub unfenced : fences env configuration snapshot w.work db ≡ none
  pub reserved_by : w.work.reservation_id ≡ some reservation
  pub exposed :
      is_some (first (exposable w.work.owner_id reservation env.exposed_at) db.ledger.reservations)
      ≡ true
  pub drawn : a.0 ≡ env.attempt_id
  pub active : has_active_attempt w.work.id token a.0 after.index ≡ true

begun_exposed :
    (env : Environment) (token : ℕ) (w : LockedWork) (db : Database) (a : ℕ × ℕ) (inner : Database)
    → begin_work env token w db ≡ returns_with (some a) inner
    → (r : ℕ) × (w.work.reservation_id ≡ some r)
      × (is_some (first (exposable w.work.owner_id r env.exposed_at) db.ledger.reservations) ≡ true)
      × (a.0 ≡ env.attempt_id)
      × (has_active_attempt w.work.id token a.0 inner.index ≡ true)
unfolding begin_work
begun_exposed env token w db a inner e =
    elim (Option-cases (start w token env.attempt_id env.written_at db.index)) [
      | inl refused_row ↦ absurd (ground (arith, refused_row))
      | inr ((none, index), started_row) ↦ absurd (ground (arith, started_row))
      | inr ((some number, index), started_row) ↦
          let (r, reserved_by, exposed, same_id, same_index) =
            begin_exposed-inv env w number index db a inner (ground (arith, started_row)) in
          (
            r,
            reserved_by,
            exposed,
            same_id,
            rw same_id (
                rw same_index (
                  start-active w token env.attempt_id env.written_at db.index index number
                    started_row)),
          )
    ]

start_action-inv :
    (env : Environment) (token : ℕ) (w : LockedWork) (failure : Option FenceFailure)
    (current : Option CurrentIntent) (db : Database) (a : ℕ × ℕ) (inner : Database)
    → start_action env token w failure current db ≡ returns_with (some a) inner
    → (holds_lease w token leased ≡ true)
      × (failure ≡ none)
      × (begin_work env token w db ≡ returns_with (some a) inner)
start_action-inv env token w none current db a inner e =
    elim (Bool-cases (holds_lease w token leased)) [
      | inl held ↦ (held, refl, ground (arith, held))
      | inr not_held ↦ absurd (ground (arith, not_held))
    ]
start_action-inv env token w (some f) current db a inner e =
    elim (Bool-cases (holds_lease w token leased)) [
      | inl held ↦
          absurd (none_after-some (reject_fence env w f true db) a inner (ground (arith, held)))
      | inr not_held ↦ absurd (ground (arith, not_held))
    ]

-- When `startAttempt` returns an attempt, the provider may be called: the work that was locked held
-- the lease of the token, all its fences passed on the rows locked in the same transaction, its
-- reservation was open and not expired when it was exposed, and the attempt is recorded as started
-- under the token in what was committed.
pub start_attempt-MayCall :
    (env : Environment) (k token : ℕ) (before db : Database) (a : ℕ × ℕ) (after : Database)
    → start_attempt env k token before db ≡ some (some a, after)
    → MayCall env k token db a after
unfolding start_attempt
start_attempt-MayCall env k token before db a after e =
    let t =
      with_fenced_work-inv env k (start_action env token) before db (some a) after
        (started_answer-inv db _ a after e) in
    let (held, unfenced, begun_work) =
      start_action-inv env token t.w _
        (lock_current_intent t.snapshot.owner_id t.snapshot.intent_id db.store) db a t.inner
        t.ran in
    let (r, reserved_by, exposed, drawn, active) =
      begun_exposed env token t.w db a t.inner begun_work in
    record {
      configuration = t.configuration;
      snapshot = t.snapshot;
      w = t.w;
      reservation = r;
      configured = t.configured;
      locked = t.locked;
      unchanged = t.unchanged;
      leased_to = held;
      unfenced = unfenced;
      reserved_by = reserved_by;
      exposed = exposed;
      drawn = drawn;
      active =
          subst (λ (x : Index). has_active_attempt t.w.work.id token a.0 x ≡ true)
            (sym t.same_index) active;
    }
