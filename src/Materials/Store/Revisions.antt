-- ===== src/Materials/Store/Revisions.antt =====
-- The revisions of a material: of the writers that expect one revision, one moves the material on.
use devfootnote_project.Base.{
  Bool-cases, List, Option, Option-cases, [], any, ap, arith, bind-some, false, if◌then◌else◌, inl,
  inr, is_some, length, map, none, some, ℕ, ◌==◌, ◌>>=◌, ◌∙◌, ◌∷◌, ◌≡◌,
}
use devfootnote_project.Base.Table.{first, update}
use devfootnote_project.Materials.Schema.{
  ChunkRow, EmbeddingIntent, Keywords, Material, MaterialReceipt, PreparedMaterial, Revision, Store,
  chunk_check, insert_chunks, insert_intent, insert_keywords, insert_revision_row,
  revision_conflicts,
}
use devfootnote_project.Materials.Store.{
  FreshIds, Mutation, Target, advance_row, answer, change_current, change_material, chunk_row,
  commit, insert_receipt_of, insert_revision, intent_row, is_current, keywords_row, receipt_for,
  revision_row, store_revision,
}

-- An insert of a revision leaves the materials as they are.
insert_chunks-materials :
    (rows : List ChunkRow) (s : Store) {after : Store}
    → insert_chunks rows s ≡ some after
    → after.materials ≡ s.materials
unfolding insert_chunks
insert_chunks-materials [] s {after} e = ground arith
insert_chunks-materials (row ∷ rows) s {after} e = elim (Bool-cases (chunk_check row s)) [
  | inl checked ↦
      insert_chunks-materials rows (record s { chunks = row ∷ s.chunks }) {after = after}
        (ground (arith, checked))
  | inr broken_row ↦ absurd (ground (arith, broken_row))
]

insert_revision_row-materials :
    (row : Revision) (s : Store) {after : Store}
    → insert_revision_row row s ≡ some after
    → (after.materials ≡ s.materials) × (any (revision_conflicts row) s.revisions ≡ false)
unfolding insert_revision_row
insert_revision_row-materials row s {after} e = ground arith

insert_keywords-materials :
    (row : Keywords) (s : Store) {after : Store}
    → insert_keywords row s ≡ some after
    → after.materials ≡ s.materials
unfolding insert_keywords
insert_keywords-materials row s {after} e = ground arith

insert_intent-materials :
    (row : EmbeddingIntent) (s : Store) {after : Store}
    → insert_intent row s ≡ some after
    → after.materials ≡ s.materials
unfolding insert_intent
insert_intent-materials row s {after} e = ground arith

pub insert_revision-materials :
    (owner material : ℕ) (uuids : FreshIds) (number : ℕ) (prepared : PreparedMaterial) (s : Store)
    {after : Store}
    → insert_revision owner material uuids number prepared s ≡ some after
    → (after.materials ≡ s.materials)
      × (any (revision_conflicts (revision_row owner material uuids number prepared)) s.revisions
          ≡ false)
unfolding insert_revision
insert_revision-materials owner material uuids number prepared s {after} e =
    let (a, ea, ra) = bind-some (insert_revision_row row s) with_parts {b = after} e in
    let (b, eb, rb) = bind-some (with_chunks a) with_index {b = after} ra in
    let (c, ec, rc) =
      bind-some (insert_keywords keywords b) (insert_intent intent) {b = after} rb in
    let (same_a, free) = insert_revision_row-materials row s {after = a} ea in
    (
      insert_intent-materials intent c {after = after} rc
          ∙ insert_keywords-materials keywords b {after = c} ec
          ∙ insert_chunks-materials chunks a {after = b} (ground arith)
          ∙ same_a,
      free,
    )
  where
    row : Revision
    row = revision_row owner material uuids number prepared

    chunks : List ChunkRow
    chunks = map (chunk_row owner material uuids) prepared.chunks

    keywords : Keywords
    keywords = keywords_row owner material uuids prepared

    intent : EmbeddingIntent
    intent = intent_row owner material uuids prepared

    with_index : Store → Option Store
    with_index b = insert_keywords keywords b >>= insert_intent intent

    with_chunks : Store → Option Store
    with_chunks a = if length prepared.chunks == 0 then none else insert_chunks chunks a

    with_parts : Store → Option Store
    with_parts a = with_chunks a >>= with_index

pub insert_receipt_of-materials :
    (receipt : MaterialReceipt) (late : List MaterialReceipt) (s : Store) {m : Mutation}
    {after : Store}
    → insert_receipt_of receipt late s ≡ commit m after
    → (after.materials ≡ s.materials) × (m ≡ answer receipt)
unfolding insert_receipt_of
insert_receipt_of-materials receipt late s {m} {after} e = ground arith

-- The one row that a change of the current revision changes.
pub change_current-materials :
    (t : Target) (f : Material → Material) (revision : ℕ) (late : List MaterialReceipt) (s : Store)
    {m : Mutation} {after : Store}
    → change_current t f revision late s ≡ commit m after
    → (after.materials ≡ update (is_current t) f s.materials) × (m.revision_id ≡ revision)
unfolding change_current
change_current-materials t f revision late s {m} {after} e =
    elim (Bool-cases (is_some (first (is_current t) s.materials))) [
      | inl yes_current ↦
          let (same_materials, written) =
            insert_receipt_of-materials (receipt_for t revision) late (change_material t f s)
              {m = m} {after = after} (ground (arith, yes_current)) in
          (same_materials, ap (λ (x : Mutation). x.revision_id) written)
      | inr no_current ↦ absurd (ground (arith, no_current))
    ]

pub store_revision-materials :
    (t : Target) (prepared : PreparedMaterial) (uuids : FreshIds) (now number : ℕ)
    (late : List MaterialReceipt) (s : Store) {m : Mutation} {after : Store}
    → store_revision t prepared uuids now late
        (insert_revision t.owner_id t.material_id uuids number prepared s)
      ≡ commit m after
    → after.materials ≡ update (is_current t) (advance_row m.revision_id now) s.materials
store_revision-materials t prepared uuids now number late s {m} {after} e =
    elim (Option-cases (insert_revision t.owner_id t.material_id uuids number prepared s)) [
      | inl failed_insert ↦ absurd (ground (arith, failed_insert))
      | inr (written, e') ↦
          let (same_materials, free) =
            insert_revision-materials t.owner_id t.material_id uuids number prepared s
              {after = written} e' in
          let (changed_row, drawn) =
            change_current-materials t (advance_row uuids.revision now) uuids.revision late written
              {m = m} {after = after} (ground (arith, e')) in
          rw drawn (
            changed_row
            ∙ ap (λ ms. update (is_current t) (advance_row uuids.revision now) ms) same_materials)
    ]
