-- ===== src/Indexing/Works/Leases.antt =====
-- Every transition moves the works along their lives.
use devfootnote_project.Base.{
  Bool, Bool-cases, List, Option, Option-cases, arith, false, inl, inr, refl, some, subst, true, ℕ,
  ◌≡◌,
}
use devfootnote_project.Base.Table.{first, update}
use devfootnote_project.Indexing.Policy.{LockedWork, is_terminal}
use devfootnote_project.Indexing.Schema.{Index, calling, leased, pending}
use devfootnote_project.Indexing.Works.{
  ChunkVector, Transition, changed, claim_lease, claimable, closable, close_row, extend_row,
  extendable, finish, heartbeat, lease_row, publish, publish_attempt, publish_reused, publish_row,
  publishable, return_row, return_to_pending, returnable, start, start_row, startable,
  transition_state,
}
use devfootnote_project.Indexing.Works.Lives.{
  Progresses, Progresses-refl, Progresses-update, in_state-eq, may_follow, moves,
}
use devfootnote_project.Materials.Schema.{ChunkRow}

pub claim_lease-Progresses :
    (id token now : ℕ) (index : Index)
    → Progresses index.works (claim_lease id token now index).1.works
unfolding claim_lease
claim_lease-Progresses id token now index =
    Progresses-update (claimable id now) (lease_row token now) index.works
      (λ w e. moves w _ refl (ground arith) (ground arith) (ground arith))

pub heartbeat-Progresses :
    (id token now : ℕ) (index : Index)
    → Progresses index.works (heartbeat id token now index).1.works
unfolding heartbeat
heartbeat-Progresses id token now index =
    Progresses-update (extendable id token now) (extend_row now) index.works
      (λ w e. moves w _ refl (ground arith) (ground arith) (ground arith))

pub start-Progresses :
    (w : LockedWork) (token attempt_id now : ℕ) (index : Index) {o : Option ℕ} {after : Index}
    → start w token attempt_id now index ≡ some (o, after)
    → Progresses index.works after.works
unfolding start
start-Progresses w token attempt_id now index {o} {after} e =
    elim (Option-cases (first (startable w.work.id token now) index.works)) [
      | inl nothing ↦
          let same_index : index ≡ after = ground (arith, nothing) in
          subst (λ x. Progresses index.works x.works) same_index (Progresses-refl index.works)
      | inr (row, found_row) ↦
          let moved : update (startable w.work.id token now) start_row index.works ≡ after.works =
            ground (arith, found_row) in
          subst (Progresses index.works) moved (
            Progresses-update (startable w.work.id token now) start_row index.works
              (λ x q. moves x _ refl (ground arith) (ground arith) (ground arith)))
    ]

pub publish_reused-Progresses :
    (nonzero : ℕ → Bool) (chunks : List ChunkRow) (w : LockedWork) (material_id revision_id : ℕ)
    (vectors : List ChunkVector) (now : ℕ) (index : Index) {published_now : Bool} {after : Index}
    → publish_reused nonzero chunks w material_id revision_id vectors now index
      ≡ some (published_now, after)
    → Progresses index.works after.works
unfolding publish_reused
publish_reused-Progresses nonzero chunks w material_id revision_id vectors now index {published_now}
      {after} e =
    elim (Bool-cases (changed (publishable w leased now) index)) [
      | inl was ↦
          let moved : update (publishable w leased now) (publish_row now) index.works
              ≡ after.works =
            ground (arith, was) in
          subst (Progresses index.works) moved (
            Progresses-update (publishable w leased now) (publish_row now) index.works
              (λ x q. moves x _ refl (ground arith) (ground arith) (ground arith)))
      | inr was ↦
          let same_index : index ≡ after = ground (arith, was) in
          subst (λ x. Progresses index.works x.works) same_index (Progresses-refl index.works)
    ]

pub publish-Progresses :
    (nonzero : ℕ → Bool) (chunks : List ChunkRow) (w : LockedWork)
    (attempt_id material_id revision_id : ℕ) (vectors : List ChunkVector) (now : ℕ) (index : Index)
    {published_now : Bool} {after : Index}
    → publish nonzero chunks w attempt_id material_id revision_id vectors now index
      ≡ some (published_now, after)
    → Progresses index.works after.works
unfolding publish publish_attempt
publish-Progresses nonzero chunks w attempt_id material_id revision_id vectors now index
      {published_now} {after} e =
    elim (Bool-cases (changed (publishable w calling now) index)) [
      | inl was ↦
          let moved : update (publishable w calling now) (publish_row now) index.works
              ≡ after.works =
            ground (arith, was) in
          subst (Progresses index.works) moved (
            Progresses-update (publishable w calling now) (publish_row now) index.works
              (λ x e. moves x _ refl (ground arith) (ground arith) (ground arith)))
      | inr was ↦
          let same_index : index ≡ after = ground (arith, was) in
          subst (λ x. Progresses index.works x.works) same_index (Progresses-refl index.works)
    ]

pub finish-Progresses :
    (w : LockedWork) (t : Transition) (live : Bool) (now : ℕ) (index : Index)
    → (is_terminal w.work.state) ≡ false
    → may_follow w.work.state (transition_state t) ≡ true
    → Progresses index.works (finish w t live now index).1.works
unfolding finish
finish-Progresses w t live now index running may =
    elim (Bool-cases (changed (closable w live now) index)) [
      | inl was ↦ rw was (
          Progresses-update (closable w live now) (close_row t now) index.works (λ x e.
            let here_too : w.work.state ≡ x.state =
              in_state-eq x.state w.work.state (ground (arith, e)) in
            moves x (close_row t now x) refl (subst (λ s. is_terminal s ≡ false) here_too running)
              (ground (arith, subst (λ s. may_follow s (transition_state t) ≡ true) here_too may))
              (ground arith)))
      | inr was ↦ rw was (Progresses-refl index.works)
    ]

pub return_to_pending-Progresses :
    (w : LockedWork) (now : ℕ) (index : Index)
    → may_follow w.work.state pending ≡ true
    → Progresses index.works (return_to_pending w now index).1.works
unfolding return_to_pending
return_to_pending-Progresses w now index may =
    Progresses-update (returnable w now) return_row index.works (λ x e.
      let here_too : w.work.state ≡ x.state =
        in_state-eq x.state w.work.state (ground (arith, e)) in
      let may_here = subst (λ s. may_follow s pending ≡ true) here_too may in
      moves x (return_row x) refl (ground (arith, may_here)) (ground (arith, may_here))
        (ground arith))
