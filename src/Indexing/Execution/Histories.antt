-- ===== src/Indexing/Execution/Histories.antt =====
-- The calls of the service, and the writes of the repository that need no lock, in any order, with any
-- changes of the other modules in between. A repair, which only puts off a delivery, and the insert of
-- a new work are no calls here.
use devfootnote_project.Base.{
  Bool, List, Option, [], arith, refl, some, subst, sym, true, ℕ, ◌∙◌, ◌∷◌, ◌≡◌, ◌≤◌,
}
use devfootnote_project.Indexing.Execution.{Closing, Database, Environment}
use devfootnote_project.Indexing.Execution.Calls.{fail_attempt, start_attempt}
use devfootnote_project.Indexing.Execution.Completion.{CallResult, Completion, complete_attempt}
use devfootnote_project.Indexing.Execution.Failures.{fail_attempt-Keeps, recover-Keeps}
use devfootnote_project.Indexing.Execution.Outcomes.{start_attempt-Keeps}
use devfootnote_project.Indexing.Execution.Recovery.{Recovery, recover}
use devfootnote_project.Indexing.Execution.Results.{complete_attempt-Keeps}
use devfootnote_project.Indexing.Policy.{LockedWork, is_terminal}
use devfootnote_project.Indexing.Schema.{CallFailure, Index, Work}
use devfootnote_project.Indexing.Works.{ChunkVector, claim_lease, heartbeat, publish_reused}
use devfootnote_project.Indexing.Works.Leases.{
  claim_lease-Progresses, heartbeat-Progresses, publish_reused-Progresses,
}
use devfootnote_project.Indexing.Works.Lives.{Progress, Progresses, Progresses-refl}
use devfootnote_project.Materials.Schema.{Store}
use devfootnote_project.Usage.Schema.{Ledger}

-- One call that commits. `before` are the tables when its snapshot was read.
pub data ServiceCall (finite nonzero : ℕ → Bool) (db : Database) : Database → Type 0 where
  claim_call :
      (id token now : ℕ)
      → ServiceCall finite nonzero db (record db { index = (claim_lease id token now db.index).1 })
  heartbeat_call :
      (id token now : ℕ)
      → ServiceCall finite nonzero db (record db { index = (heartbeat id token now db.index).1 })
  start_call :
      (env : Environment) (k token : ℕ) (before : Database) (got : Option (ℕ × ℕ))
      (after : Database)
      → start_attempt env k token before db ≡ some (got, after)
      → ServiceCall finite nonzero db after
  fail_call :
      (env : Environment) (k token attempt : ℕ) (failure : CallFailure) (retryable : Bool)
      (before : Database) (closing : Closing) (after : Database)
      → fail_attempt env k token attempt failure retryable before db ≡ some (closing, after)
      → ServiceCall finite nonzero db after
  complete_call :
      (env : Environment) (k token attempt : ℕ) (result : CallResult) (before : Database)
      (completion : Completion) (after : Database)
      → complete_attempt finite nonzero env k token attempt result before db
        ≡ some (completion, after)
      → ServiceCall finite nonzero db after
  recover_call :
      (env : Environment) (k : ℕ) (before : Database) (recovery : Recovery) (after : Database)
      → recover env k before db ≡ some (recovery, after)
      → ServiceCall finite nonzero db after
  reuse_call :
      (w : LockedWork) (material_id revision_id : ℕ) (vectors : List ChunkVector) (now : ℕ)
      (published_now : Bool) (index : Index)
      → publish_reused nonzero db.store.chunks w material_id revision_id vectors now db.index
        ≡ some (published_now, index)
      → ServiceCall finite nonzero db (record db { index = index })
  outside_change :
      (ledger : Ledger) (store : Store)
      → ServiceCall finite nonzero db (record db { ledger = ledger; store = store })

pub data History (finite nonzero : ℕ → Bool) (db : Database) : Database → Type 0 where
  no_calls : History finite nonzero db db
  then_call :
      (middle after : Database)
      → History finite nonzero db middle
      → ServiceCall finite nonzero middle after
      → History finite nonzero db after

-- Every call moves each work to a state that may follow its own, or leaves it in its state; a work
-- that has ended keeps every column; and the count of attempts grows by one when it goes from
-- `LEASED` to `CALLING`, and not otherwise. Nothing is assumed of the tables: what a call may do, the
-- service finds out under the lock.
pub ServiceCall-Progresses :
    (finite nonzero : ℕ → Bool) (db after : Database)
    → ServiceCall finite nonzero db after
    → Progresses db.index.works after.index.works
ServiceCall-Progresses finite nonzero db _ (claim_call id token now) =
    claim_lease-Progresses id token now db.index
ServiceCall-Progresses finite nonzero db _ (heartbeat_call id token now) =
    heartbeat-Progresses id token now db.index
ServiceCall-Progresses finite nonzero db _ (start_call env k token before got after e) =
    (start_attempt-Keeps env k token before db got after e).1
ServiceCall-Progresses finite nonzero db _
      (fail_call env k token attempt failure retryable before closing after e) =
    (fail_attempt-Keeps env k token attempt failure retryable before db closing after e).1
ServiceCall-Progresses finite nonzero db _
      (complete_call env k token attempt result before completion after e) =
    (complete_attempt-Keeps finite nonzero env k token attempt result before db completion after
      e).1
ServiceCall-Progresses finite nonzero db _ (recover_call env k before recovery after e) =
    (recover-Keeps env k before db recovery after e).1
ServiceCall-Progresses finite nonzero db _
      (reuse_call w material_id revision_id vectors now published_now index e) =
    publish_reused-Progresses nonzero db.store.chunks w material_id revision_id vectors now db.index
      {published_now = published_now} {after = index} e
ServiceCall-Progresses finite nonzero db _ (outside_change ledger store) =
    Progresses-refl db.index.works

-- What lasts over any number of transitions, row by row: the same works in the same order, the
-- record of a work that has ended, and the count of attempts or a higher one.
pub record Lasts (old new : Work) : Type 0 where
  pub same_work : new.id ≡ old.id
  pub ended : is_terminal old.state ≡ true → new ≡ old
  pub grown : old.attempt_count ≤ new.attempt_count

abbrev pub AllLast : List Work → List Work → Type 0
AllLast [] [] = Unit
AllLast (old ∷ olds) (new ∷ news) = Lasts old new × AllLast olds news
AllLast _ _ = ⊥

AllLast-refl : (works : List Work) → AllLast works works
AllLast-refl [] = tt
AllLast-refl (w ∷ works) =
    (record { same_work = refl; ended = λ e. refl; grown = omega arith }, AllLast-refl works)

Lasts-Progress : (a b c : Work) → Lasts a b → Progress b c → Lasts a c
Lasts-Progress a b c l p = record {
  same_work = p.same_work ∙ l.same_work;
  ended = λ e. p.ended (subst (λ x. is_terminal x.state ≡ true) (sym (l.ended e)) e) ∙ l.ended e;
  grown = ground (arith, l.grown, p.counted);
}

AllLast-Progresses : (a b c : List Work) → AllLast a b → Progresses b c → AllLast a c
AllLast-Progresses [] [] [] l p = tt
AllLast-Progresses (a ∷ olds) (b ∷ mids) (c ∷ news) (l, ls) (p, ps) =
    (Lasts-Progress a b c l p, AllLast-Progresses olds mids news ls ps)
AllLast-Progresses [] [] (c ∷ news) l p = absurd p
AllLast-Progresses [] (b ∷ mids) c l p = absurd l
AllLast-Progresses (a ∷ olds) [] c l p = absurd l
AllLast-Progresses (a ∷ olds) (b ∷ mids) [] l p = absurd p

-- Over any sequence of calls no work is lost, a work that was published, failed finally or became
-- obsolete keeps every column, and no count of attempts falls.
pub History-AllLast :
    (finite nonzero : ℕ → Bool) (db after : Database)
    → History finite nonzero db after
    → AllLast db.index.works after.index.works
History-AllLast finite nonzero db _ no_calls = AllLast-refl db.index.works
History-AllLast finite nonzero db _ (then_call middle after calls last_call) =
    AllLast-Progresses db.index.works middle.index.works after.index.works
      (History-AllLast finite nonzero db middle calls)
      (ServiceCall-Progresses finite nonzero middle after last_call)
