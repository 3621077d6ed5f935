-- ===== src/Indexing/Works/Steps.antt =====
-- The transitions as the steps of a relation. A repair, which only puts off a delivery, and the
-- insert of a new work are no steps of it.
use devfootnote_project.Base.{Bool, List, Option, false, some, ℕ, ◌≡◌}
use devfootnote_project.Indexing.Policy.{LockedWork}
use devfootnote_project.Indexing.Schema.{Index, calling, in_state}
use devfootnote_project.Indexing.Works.{
  ChunkVector, Transition, claim_lease, finish, heartbeat, publish, publish_reused,
  return_to_pending, start,
}
use devfootnote_project.Indexing.Works.Attempts.{start-IsConsistent}
use devfootnote_project.Indexing.Works.Endings.{
  Ends, IsLocked, finish-IsConsistent, publish-IsConsistent,
}
use devfootnote_project.Indexing.Works.Tracking.{IsConsistent}
use devfootnote_project.Indexing.Works.Transitions.{
  claim_lease-IsConsistent, heartbeat-IsConsistent, publish_reused-IsConsistent,
  return_to_pending-IsConsistent,
}
use devfootnote_project.Materials.Schema.{ChunkRow}

-- One transition, of a work that was read under its lock where the code locks one.
pub data Step (index : Index) : Index → Type 0 where
  claims : (id token now : ℕ) → Step index (claim_lease id token now index).1
  extends : (id token now : ℕ) → Step index (heartbeat id token now index).1
  begins :
      (w : LockedWork) (token attempt_id now : ℕ) (number : Option ℕ) (after : Index)
      → start w token attempt_id now index ≡ some (number, after)
      → Step index after
  reuses :
      (nonzero : ℕ → Bool) (chunks : List ChunkRow) (w : LockedWork) (material_id revision_id : ℕ)
      (vectors : List ChunkVector) (now : ℕ) (published_now : Bool) (after : Index)
      → publish_reused nonzero chunks w material_id revision_id vectors now index
        ≡ some (published_now, after)
      → Step index after
  publishes :
      (nonzero : ℕ → Bool) (chunks : List ChunkRow) (w : LockedWork)
      (attempt_id material_id revision_id : ℕ) (vectors : List ChunkVector) (now : ℕ)
      (published_now : Bool) (after : Index)
      → publish nonzero chunks w attempt_id material_id revision_id vectors now index
        ≡ some (published_now, after)
      → Step index after
  ends :
      (w : LockedWork) (t : Transition) (live : Bool) (now : ℕ)
      → IsLocked w index
      → Ends t
      → Step index (finish w t live now index).1
  returns :
      (w : LockedWork) (now : ℕ)
      → in_state w.work.state calling ≡ false
      → Step index (return_to_pending w now index).1

-- Every transition keeps the works and the attempts consistent.
pub Step-IsConsistent :
    (index after : Index) → Step index after → IsConsistent index → IsConsistent after
Step-IsConsistent index _ (claims id token now) h = claim_lease-IsConsistent id token now index h
Step-IsConsistent index _ (extends id token now) h = heartbeat-IsConsistent id token now index h
Step-IsConsistent index _ (begins w token attempt_id now number after e) h =
    start-IsConsistent w token attempt_id now index number after e h
Step-IsConsistent index _
      (reuses nonzero chunks w material_id revision_id vectors now published_now after e) h =
    publish_reused-IsConsistent nonzero chunks w material_id revision_id vectors now index
      published_now after e h
Step-IsConsistent index _
      (publishes nonzero chunks w attempt_id material_id revision_id vectors now published_now after
        e)
      h =
    publish-IsConsistent nonzero chunks w attempt_id material_id revision_id vectors now index
      published_now after e h
Step-IsConsistent index _ (ends w t live now locked outcome) h =
    finish-IsConsistent w t live now index outcome locked h
Step-IsConsistent index _ (returns w now idle) h = return_to_pending-IsConsistent w now index idle h

pub data Reach (index : Index) : Index → Type 0 where
  stays : Reach index index
  then_step : (middle after : Index) → Reach index middle → Step middle after → Reach index after

-- Over any sequence of transitions, a work in the state `CALLING` has exactly one started attempt,
-- under the token of its lease, any other work has none, and the constraints of the works hold.
pub Reach-IsConsistent :
    (index after : Index) → Reach index after → IsConsistent index → IsConsistent after
Reach-IsConsistent index _ stays h = h
Reach-IsConsistent index _ (then_step middle after r s) h =
    Step-IsConsistent middle after s (Reach-IsConsistent index middle r h)
