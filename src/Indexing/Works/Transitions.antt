-- ===== src/Indexing/Works/Transitions.antt =====
-- Every transition of a work keeps the works and the attempts consistent.
use devfootnote_project.Base.{
  Bool, Bool-cases, List, Option, [], arith, false, if◌then◌else◌, inl, inr, none, refl, some,
  subst, sym, true, ℕ, ◌==◌, ◌∷◌, ◌≡◌,
}
use devfootnote_project.Base.Keys.{All-key, Keyed-update}
use devfootnote_project.Base.Table.{All, All-update, first, update}
use devfootnote_project.Indexing.Policy.{LockedWork}
use devfootnote_project.Indexing.Schema.{
  Attempt, Index, Work, calling, in_state, leased, work_check,
}
use devfootnote_project.Indexing.Works.{
  ChunkVector, changed, claim_lease, claimable, extend_row, extendable, heartbeat, lease_row,
  publish_reused, publish_row, publishable, reserve_repair_batch, return_row, return_to_pending,
  returnable, update_works,
}
use devfootnote_project.Indexing.Works.Tracking.{
  Consistent, IsConsistent, Tracks, TracksAt, TracksAt-retoken,
}
use devfootnote_project.Materials.Schema.{ChunkRow}
use devfootnote_project.Usage.Cleanup.{Sweep}

abbrev pub work_id : Work → ℕ
work_id w = w.id

-- An update of works alone, row by row.
IsConsistent-update_works :
    (p : Work → Bool) (f : Work → Work) (index : Index)
    → ((w : Work) → (f w).id ≡ w.id)
    → ((w : Work) → p w ≡ true → work_check w ≡ true → work_check (f w) ≡ true)
    → ((w : Work) → p w ≡ true → Tracks index.attempts w → Tracks index.attempts (f w))
    → IsConsistent index
    → IsConsistent (update_works p f index)
IsConsistent-update_works p f index same_id checks tracks h = record {
  keyed = Keyed-update work_id p f index.works same_id h.keyed;
  checked = All-update p f (λ w. work_check w ≡ true) index.works checks h.checked;
  tracked = All-update p f (Tracks index.attempts) index.works tracks h.tracked;
}

-- A row outside a call, under another token.
pub idle_row :
    (attempts : List Attempt) (w : Work) (token : Option ℕ)
    → in_state w.state calling ≡ false
    → Tracks attempts w
    → TracksAt w.id token false w.attempt_count attempts
idle_row attempts w token idle t =
    TracksAt-retoken w.id w.lease_token token w.attempt_count attempts
      (subst (λ b. TracksAt w.id w.lease_token b w.attempt_count attempts) idle t)

-- A claim keeps the works and the attempts consistent.
pub claim_lease-IsConsistent :
    (id token now : ℕ) (index : Index)
    → IsConsistent index
    → IsConsistent (claim_lease id token now index).1
unfolding claim_lease
claim_lease-IsConsistent id token now index h =
    IsConsistent-update_works (claimable id now) (lease_row token now) index (λ w. refl)
      (λ w p c. ground arith) (λ w p t. idle_row index.attempts w (some token) (ground arith) t) h

pub heartbeat-IsConsistent :
    (id token now : ℕ) (index : Index)
    → IsConsistent index
    → IsConsistent (heartbeat id token now index).1
unfolding heartbeat
heartbeat-IsConsistent id token now index h =
    IsConsistent-update_works (extendable id token now) (extend_row now) index (λ w. refl)
      (λ w p c. ground arith) (λ w p t. t) h

pub reserve_repair_batch-IsConsistent :
    (limit : ℕ) (sweep : Sweep) (index : Index)
    → IsConsistent index
    → IsConsistent (reserve_repair_batch limit sweep index).1
unfolding reserve_repair_batch
reserve_repair_batch-IsConsistent limit sweep index h =
    IsConsistent-update_works _ _ index (λ w. refl) (λ w p c. c) (λ w p t. t) h

-- A lease that ran out before the call, or a retry that is due.
pub return_to_pending-IsConsistent :
    (w : LockedWork) (now : ℕ) (index : Index)
    → in_state w.work.state calling ≡ false
    → IsConsistent index
    → IsConsistent (return_to_pending w now index).1
unfolding return_to_pending
return_to_pending-IsConsistent w now index idle h =
    IsConsistent-update_works (returnable w now) return_row index (λ x. refl)
      (λ x p c. ground arith) (λ x p t. idle_row index.attempts x none (ground arith) t) h

pub publish_reused-IsConsistent :
    (nonzero : ℕ → Bool) (chunks : List ChunkRow) (w : LockedWork) (material_id revision_id : ℕ)
    (vectors : List ChunkVector) (now : ℕ) (index : Index) (published_now : Bool) (after : Index)
    → publish_reused nonzero chunks w material_id revision_id vectors now index
      ≡ some (published_now, after)
    → IsConsistent index
    → IsConsistent after
unfolding publish_reused
publish_reused-IsConsistent nonzero chunks w material_id revision_id vectors now index published_now
      after e h =
    elim (Bool-cases (changed (publishable w leased now) index)) [
      | inl was ↦ ground (
        arith,
        IsConsistent-update_works (publishable w leased now) (publish_row now) index (λ x. refl)
            (λ x p c. ground arith) (λ x p t. idle_row index.attempts x none (ground arith) t) h,
      )
      | inr was ↦ ground arith
    ]

-- A change of one row together with the attempts.
module _ (p : Work → Bool) (f : Work → Work) (k : ℕ) (attempts after : List Attempt) (row : Work)
    (found : p row ≡ true) (at_k : (w : Work) → p w ≡ true → (w.id == k) ≡ true)
    (row_tracks : Tracks attempts row → Tracks after (f row))
    (others : (w : Work) → (w.id == k) ≡ false → Tracks attempts w → Tracks after w) where
  keep_row :
      (w : Work)
      → ((w.id == k) ≡ true → w ≡ row)
      → Tracks attempts w
      → Tracks after (if p w then f w else w)
  keep_row w is_row t = elim (Bool-cases (w.id == k)) [
    | inl same_id ↦
        subst (λ v. Tracks after (if p v then f v else v)) (sym (is_row same_id))
          (rw found (row_tracks (subst (Tracks attempts) (is_row same_id) t)))
    | inr other_id ↦
        let unchanged : p w ≡ false = ground (arith, at_k w) in rw unchanged (others w other_id t)
  ]

  keep_rows :
      (works : List Work)
      → All (λ w. (w.id == k) ≡ true → w ≡ row) works
      → All (Tracks attempts) works
      → All (Tracks after) (update p f works)
  keep_rows [] are h = tt
  keep_rows (w ∷ works) (is_row, are) (t, h) = (keep_row w is_row t, keep_rows works are h)

  pub Consistent-change :
      (works : List Work)
      → first p works ≡ some row
      → ((w : Work) → (f w).id ≡ w.id)
      → ((w : Work) → p w ≡ true → work_check w ≡ true → work_check (f w) ≡ true)
      → Consistent works attempts
      → Consistent (update p f works) after
  Consistent-change works first_row same_id checks h = record {
    keyed = Keyed-update work_id p f works same_id h.keyed;
    checked = All-update p f (λ w. work_check w ≡ true) works checks h.checked;
    tracked =
        keep_rows works
          (All-key work_id p (λ w. w.id == k) works {r = row}
            (λ x q. ground (arith, at_k row found)) h.keyed first_row)
          h.tracked;
  }
