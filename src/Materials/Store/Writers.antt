-- ===== src/Materials/Store/Writers.antt =====
-- Two writers of one material that expect the same revision.
use devfootnote_project.Base.{
  Bool-cases, List, Option, [], ap, arith, false, inl, inr, is_some, none, refl, some, sym, true, ℕ,
  ◌+◌, ◌==◌, ◌∙◌, ◌≡◌,
}
use devfootnote_project.Base.Table.{first, first-holds, first-update, update}
use devfootnote_project.Materials.Schema.{
  Material, MaterialReceipt, PreparedMaterial, Revision, Store,
}
use devfootnote_project.Materials.Store.{
  Ending, FreshIds, Mutation, Target, advance_row, change_current, commit, crash, delete_material,
  delete_row, delete_tx, find_receipt, fresh, guarded_by, is_current, is_material, is_revision,
  not_found, race, receipt_for, refuse, rejected, revision_conflict, update_current, update_from,
  update_material, update_tx, with_replays, write_with_receipt, wrote,
}
use devfootnote_project.Materials.Store.Revisions.{
  change_current-materials, insert_receipt_of-materials, store_revision-materials,
}

-- The request has not been answered.
abbrev pub Unanswered : Target → Store → Type 0
Unanswered t s = find_receipt t.owner_id t.idempotency_key t.fingerprint s.receipts ≡ fresh

-- Two requests about one revision of one material.
pub record Rivals (a b : Target) : Type 0 where
  pub owner : b.owner_id ≡ a.owner_id
  pub material : b.material_id ≡ a.material_id
  pub expected : b.expected_revision_id ≡ a.expected_revision_id

committed_of :
    (t : Target) (s : Store) (e : Ending) (m : Mutation) (after : Store)
    → Unanswered t s
    → write_with_receipt t.owner_id t.idempotency_key t.fingerprint [] s e ≡ (wrote m, after)
    → e ≡ commit m after
unfolding write_with_receipt
committed_of t s (commit m' after') m after u e = cc
committed_of t s (refuse r) m after u e = absurd (ground arith)
committed_of t s race m after u e = absurd (ground (arith, u))
committed_of t s crash m after u e = absurd (ground arith)

with_replays-fresh :
    (t : Target) (seen s : Store) (otherwise : Ending)
    → Unanswered t seen
    → Unanswered t s
    → with_replays t seen s otherwise ≡ otherwise
with_replays-fresh t seen s otherwise u v = rw u (rw v refl)

-- A write got past the guard.
guarded_by-commit :
    (t : Target) (otherwise : Material → Ending) (locked : Option Material) {m : Mutation}
    {after : Store}
    → guarded_by t otherwise locked ≡ commit m after
    → (current : Material) × (locked ≡ some current)
      × ((current.current_revision_id == t.expected_revision_id) ≡ true)
      × (is_some current.deleted_at ≡ false)
      × (otherwise current ≡ commit m after)
guarded_by-commit t otherwise none {m} {after} e = absurd (ground arith)
guarded_by-commit t otherwise (some current) {m} {after} e =
    elim (Bool-cases (is_some current.deleted_at)) [
      | inl deleted ↦ absurd (ground (arith, deleted))
      | inr live ↦ elim (Bool-cases (current.current_revision_id == t.expected_revision_id)) [
        | inl expected ↦ (current, refl, expected, live, ground (arith, live, expected))
        | inr moved ↦ absurd (ground (arith, live, moved))
      ]
    ]

update_from-materials :
    (t : Target) (prepared : PreparedMaterial) (uuids : FreshIds) (now : ℕ)
    (late : List MaterialReceipt) (s : Store) (current : Material) (previous : Option Revision)
    {m : Mutation} {after : Store}
    → update_from t prepared uuids now late s current previous ≡ commit m after
    → (m.revision_id == current.current_revision_id) ≡ false
    → after.materials ≡ update (is_current t) (advance_row m.revision_id now) s.materials
update_from-materials t prepared uuids now late s current none {m} {after} e new =
    absurd (ground arith)
update_from-materials t prepared uuids now late s current (some previous) {m} {after} e new =
    elim (Bool-cases (previous.content_fingerprint == prepared.fingerprint)) [
      | inl unchanged ↦
          let (same_materials, written) =
            insert_receipt_of-materials (receipt_for t current.current_revision_id) late s {m = m}
              {after = after} (ground (arith, unchanged)) in
          let same_revision : m.revision_id ≡ current.current_revision_id =
            ap (λ (x : Mutation). x.revision_id) written in
          absurd (ground (arith, same_revision, new))
      | inr new_content ↦
          store_revision-materials t prepared uuids now (previous.revision + 1) late s {m = m}
            {after = after} (ground (arith, new_content))
    ]

-- The row of the material after a change of what was current.
changed_row :
    (t : Target) (f : Material → Material) (s : Store) (current : Material) (after : List Material)
    → ((x : Material)
        → is_material t.owner_id t.material_id (f x) ≡ is_material t.owner_id t.material_id x)
    → first (is_material t.owner_id t.material_id) s.materials ≡ some current
    → (current.current_revision_id == t.expected_revision_id) ≡ true
    → is_some current.deleted_at ≡ false
    → after ≡ update (is_current t) f s.materials
    → first (is_material t.owner_id t.material_id) after ≡ some (f current)
changed_row t f s current after same_test found_row expected live e = rw e (
    rw
      (first-update (is_material t.owner_id t.material_id) (is_current t) f s.materials
        {x = current} same_test found_row)
      (rw was_current refl))
  where
    named : is_material t.owner_id t.material_id current ≡ true
    named = first-holds (is_material t.owner_id t.material_id) s.materials {x = current} found_row

    was_current : is_current t current ≡ true
    was_current = ground (arith, named, expected, live)

-- What a rival finds after the row has changed.
rival_of :
    (a b : Target) (s : Store) (row : Material)
    → Rivals a b
    → first (is_material a.owner_id a.material_id) s.materials ≡ some row
    → first (is_material b.owner_id b.material_id) s.materials ≡ some row
rival_of a b s row rivals e = rw rivals.owner (rw rivals.material e)

-- The row of a material that a first update moved to a new revision.
pub update_material-moves :
    (t : Target) (prepared : PreparedMaterial) (uuids : FreshIds) (now : ℕ) (seen s : Store)
    (m : Mutation) (after : Store)
    → Unanswered t seen
    → Unanswered t s
    → update_material t prepared uuids now [] seen s ≡ (wrote m, after)
    → (m.revision_id == t.expected_revision_id) ≡ false
    → (row : Material) × (first (is_material t.owner_id t.material_id) after.materials ≡ some row)
      × (row.current_revision_id ≡ m.revision_id)
      × (is_some row.deleted_at ≡ false)
      × (after.materials ≡ update (is_current t) (advance_row m.revision_id now) s.materials)
unfolding update_material update_tx update_current
update_material-moves t prepared uuids now seen s m after u v e new =
    let committed = committed_of t s (update_tx t prepared uuids now [] seen s) m after v e in
    let (current, found_row, expected, live, rest) =
      guarded_by-commit t (update_current t prepared uuids now [] s)
        (first (is_material t.owner_id t.material_id) s.materials) {m = m} {after = after}
        (sym (with_replays-fresh t seen s _ u v) ∙ committed) in
    let after_materials =
      update_from-materials t prepared uuids now [] s current
        (first (is_revision t.owner_id t.material_id t.expected_revision_id) s.revisions) {m = m}
        {after = after} rest (ground (arith, new, expected)) in
    (
      advance_row m.revision_id now current,
      changed_row t (advance_row m.revision_id now) s current after.materials (λ x. refl) found_row
          expected live after_materials,
      refl,
      live,
      after_materials,
    )

-- Of two writers that expect the same revision of a material, with requests not answered before,
-- one wins: once an update has moved the material to a new revision, the other's update and the
-- other's deletion are refused as a revision conflict and change no table.
pub update_material-one_winner :
    (t : Target) (prepared : PreparedMaterial) (uuids : FreshIds) (now : ℕ) (seen s : Store)
    (m : Mutation) (after : Store)
    → Unanswered t seen
    → Unanswered t s
    → update_material t prepared uuids now [] seen s ≡ (wrote m, after)
    → (m.revision_id == t.expected_revision_id) ≡ false
    → (b : Target) (prepared' : PreparedMaterial) (uuids' : FreshIds) (now' : ℕ)
      (late' : List MaterialReceipt) (seen' : Store)
    → Rivals t b
    → Unanswered b seen'
    → Unanswered b after
    → (update_material b prepared' uuids' now' late' seen' after
        ≡ (rejected revision_conflict, after))
      × (delete_material b now' late' seen' after ≡ (rejected revision_conflict, after))
unfolding update_material update_tx delete_material delete_tx write_with_receipt
update_material-one_winner t prepared uuids now seen s m after u v e new b prepared' uuids' now'
      late' seen' rivals u' v' =
    let (row, found_row, moved, live, materials) =
      update_material-moves t prepared uuids now seen s m after u v e new in
    let stale : (row.current_revision_id == b.expected_revision_id) ≡ false =
      ground (arith, moved, rivals.expected, new) in
    (
      rw u' (rw v' (rw (rival_of t b after row rivals found_row) (rw live (rw stale refl)))),
      rw u' (rw v' (rw (rival_of t b after row rivals found_row) (rw live (rw stale refl)))),
    )

-- After a first deletion of a material, no request that was not answered before updates it or
-- deletes it again: both are answered as not found and change no table.
pub delete_material-once :
    (t : Target) (now : ℕ) (seen s : Store) (m : Mutation) (after : Store)
    → Unanswered t seen
    → Unanswered t s
    → delete_material t now [] seen s ≡ (wrote m, after)
    → (b : Target) (prepared' : PreparedMaterial) (uuids' : FreshIds) (now' : ℕ)
      (late' : List MaterialReceipt) (seen' : Store)
    → b.owner_id ≡ t.owner_id
    → b.material_id ≡ t.material_id
    → Unanswered b seen'
    → Unanswered b after
    → (update_material b prepared' uuids' now' late' seen' after ≡ (rejected not_found, after))
      × (delete_material b now' late' seen' after ≡ (rejected not_found, after))
unfolding update_material update_tx delete_material delete_tx write_with_receipt
delete_material-once t now seen s m after u v e b prepared' uuids' now' late' seen' same_owner
      same_material u' v' =
    let committed = committed_of t s (delete_tx t now [] seen s) m after v e in
    let (current, found_row, expected, live, rest) =
      guarded_by-commit t (λ x. change_current t (delete_row now) x.current_revision_id [] s)
        (first (is_material t.owner_id t.material_id) s.materials) {m = m} {after = after}
        (sym (with_replays-fresh t seen s _ u v) ∙ committed) in
    let (after_materials, written) =
      change_current-materials t (delete_row now) current.current_revision_id [] s {m = m}
        {after = after} rest in
    let row_of_t =
      changed_row t (delete_row now) s current after.materials (λ x. refl) found_row expected live
        after_materials in
    let row_of_b : first (is_material b.owner_id b.material_id) after.materials
        ≡ some (delete_row now current) =
      rw same_owner (rw same_material row_of_t) in
    (rw u' (rw v' (rw row_of_b refl)), rw u' (rw v' (rw row_of_b refl)))
