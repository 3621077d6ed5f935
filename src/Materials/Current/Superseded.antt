-- ===== src/Materials/Current/Superseded.antt =====
-- What is left to index of a material once its current revision has moved on.
use devfootnote_project.Base.{
  Option-cases, [], ap, arith, false, inl, inr, is_some, refl, some, subst, true, ℕ, ◌==◌, ◌∙◌, ◌≡◌,
}
use devfootnote_project.Base.Keys.{All-key, Keyed, Keyed-update}
use devfootnote_project.Base.Table.{All, All-map, any-All, first, first-holds}
use devfootnote_project.Materials.Current.{
  CurrentIntent, current_intent, intent_view, is_live, lock_current_intent,
}
use devfootnote_project.Materials.Schema.{Material, PreparedMaterial, Store}
use devfootnote_project.Materials.Store.{
  FreshIds, Mutation, Target, advance_row, is_current, is_material, update_material, wrote,
}
use devfootnote_project.Materials.Store.Writers.{Unanswered, update_material-moves}

abbrev material_id_of : Material → ℕ
material_id_of m = m.id

-- Where all rows of a material are one row, a current intent of it is for that row's revision.
live_row :
    (owner id : ℕ) (s : Store) (row : Material) {c : CurrentIntent}
    → All (λ (x : Material). (x.id == row.id) ≡ true → x ≡ row) s.materials
    → lock_current_intent owner id s ≡ some c
    → (c.material_id == row.id) ≡ true
    → (c.revision_id ≡ row.current_revision_id) × (is_some row.deleted_at ≡ false)
unfolding lock_current_intent
live_row owner id s row {c} only e same_material =
    elim (Option-cases (first (current_intent owner id s) s.intents)) [
      | inl nothing ↦ absurd (ground (arith, nothing))
      | inr (i, found_intent) ↦
          let current : current_intent owner id s i ≡ true =
            first-holds (current_intent owner id s) s.intents {x = i} found_intent in
          let is_c : intent_view i ≡ c = ground (arith, found_intent) in
          let m_of : i.material_id ≡ c.material_id =
            ap (λ (x : CurrentIntent). x.material_id) is_c in
          let r_of : i.revision_id ≡ c.revision_id =
            ap (λ (x : CurrentIntent). x.revision_id) is_c in
          any-All (is_live i) s.materials (ground (arith, current)) (
            All-map s.materials
              (λ x one live.
                let same_row : x ≡ row = one (ground (arith, live, m_of, same_material)) in
                let live_there : is_live i row ≡ true =
                  subst (λ y. is_live i y ≡ true) same_row live in
                (ground (arith, live_there, r_of), ground (arith, live_there)))
              only)
    ]

-- Once an update has moved a material to a new revision, the worker locks a current intent of the
-- material for that revision alone: an intent to embed an older revision is not current any more.
-- The ids of the materials are their primary key.
pub update_material-supersedes :
    (t : Target) (prepared : PreparedMaterial) (uuids : FreshIds) (now : ℕ) (seen s : Store)
    (m : Mutation) (after : Store)
    → Keyed material_id_of s.materials
    → Unanswered t seen
    → Unanswered t s
    → update_material t prepared uuids now [] seen s ≡ (wrote m, after)
    → (m.revision_id == t.expected_revision_id) ≡ false
    → (owner id : ℕ) (c : CurrentIntent) → lock_current_intent owner id after ≡ some c
    → (c.material_id == t.material_id) ≡ true
    → c.revision_id ≡ m.revision_id
update_material-supersedes t prepared uuids now seen s m after keyed u v e new owner id c locked
      same_material =
    let (row, found_row, moved, live, materials) =
      update_material-moves t prepared uuids now seen s m after u v e new in
    let keyed_after : Keyed material_id_of after.materials = rw materials (
      Keyed-update material_id_of (is_current t) (advance_row m.revision_id now) s.materials
        (λ x. refl) keyed) in
    let named : is_material t.owner_id t.material_id row ≡ true =
      first-holds (is_material t.owner_id t.material_id) after.materials {x = row} found_row in
    let only =
      All-key material_id_of (is_material t.owner_id t.material_id)
        (λ (x : Material). x.id == row.id) after.materials {r = row} (λ x q. ground arith)
        keyed_after found_row in
    (live_row owner id after row {c = c} only locked (ground (arith, same_material, named))).0
    ∙ moved
