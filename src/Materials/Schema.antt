-- ===== src/Materials/Schema.antt =====
-- packages/db/src/schema/materials.ts and apps/api/src/modules/materials/domain/material.types.ts:
-- the rows of the materials, and the constraints that PostgreSQL checks. A fingerprint, a SHA-256
-- digest in the code, is a number; a text is its list of code units.
use devfootnote_project.Base.{
  Bool, List, Option, [], any, if◌then◌else◌, ltb, none, not, some, ℕ, ◌&&◌, ◌==◌, ◌||◌, ◌∷◌,
}
use devfootnote_project.Materials.Content.{MaterialChunk}

pub record Content : Type 0 where
  pub title : Option (List ℕ)
  pub body : List ℕ
  pub note : Option (List ℕ)
  pub context : Option (List ℕ)
  pub source_url : Option (List ℕ)

-- `PreparedMaterial`
pub record PreparedMaterial : Type 0 where
  pub content : Content
  pub fingerprint : ℕ
  pub normalized_text : List ℕ
  pub chunks : List MaterialChunk

pub record Material : Type 0 where
  pub id : ℕ
  pub owner_id : ℕ
  pub current_revision_id : ℕ
  pub updated_at : ℕ
  pub deleted_at : Option ℕ

pub record Revision : Type 0 where
  pub id : ℕ
  pub owner_id : ℕ
  pub material_id : ℕ
  pub revision : ℕ
  pub content : Content
  pub content_fingerprint : ℕ

pub record ChunkRow : Type 0 where
  pub id : ℕ
  pub owner_id : ℕ
  pub material_id : ℕ
  pub revision_id : ℕ
  pub chunk : MaterialChunk

pub record Keywords : Type 0 where
  pub revision_id : ℕ
  pub owner_id : ℕ
  pub material_id : ℕ
  pub normalized_text : List ℕ

pub record MaterialReceipt : Type 0 where
  pub owner_id : ℕ
  pub idempotency_key : ℕ
  pub fingerprint : ℕ
  pub material_id : ℕ
  pub revision_id : ℕ

pub record EmbeddingIntent : Type 0 where
  pub id : ℕ
  pub owner_id : ℕ
  pub material_id : ℕ
  pub revision_id : ℕ
  pub content_fingerprint : ℕ

-- The tables of the materials.
pub record Store : Type 0 where
  pub materials : List Material
  pub revisions : List Revision
  pub chunks : List ChunkRow
  pub keywords : List Keywords
  pub receipts : List MaterialReceipt
  pub intents : List EmbeddingIntent

-- The foreign key to `material_revisions`.
abbrev pub has_revision : ℕ → ℕ → ℕ → List Revision → Bool
has_revision owner material revision rows =
    any
      (λ (r : Revision). (r.owner_id == owner) && (r.material_id == material) && (r.id == revision))
      rows

abbrev pub has_material : ℕ → ℕ → List Material → Bool
has_material owner material rows =
    any (λ (m : Material). (m.owner_id == owner) && (m.id == material)) rows

-- The inserts; `none` is the constraint error that PostgreSQL raises.
unfoldable pub insert_material : Material → Store → Option Store
insert_material new s =
    if any (λ (m : Material). m.id == new.id) s.materials
    then none
    else some (record s { materials = new ∷ s.materials })

abbrev pub revision_conflicts : Revision → Revision → Bool
revision_conflicts new old =
    (old.id == new.id) || ((old.material_id == new.material_id) && (old.revision == new.revision))

unfoldable pub insert_revision_row : Revision → Store → Option Store
insert_revision_row new s =
    if ltb 0 new.revision
      && has_material new.owner_id new.material_id s.materials
      && not (any (revision_conflicts new) s.revisions)
    then some (record s { revisions = new ∷ s.revisions })
    else none

abbrev pub chunk_conflicts : ChunkRow → ChunkRow → Bool
chunk_conflicts new old =
    (old.id == new.id)
    || ((old.revision_id == new.revision_id) && (old.chunk.ordinal == new.chunk.ordinal))

-- `chunks_valid_offsets` and the keys of a chunk.
abbrev pub chunk_check : ChunkRow → Store → Bool
chunk_check new s =
    ltb new.chunk.start_offset new.chunk.end_offset
    && has_revision new.owner_id new.material_id new.revision_id s.revisions
    && not (any (chunk_conflicts new) s.chunks)

unfoldable pub insert_chunks : List ChunkRow → Store → Option Store
insert_chunks [] s = some s
insert_chunks (new ∷ rest) s =
    let inserted = insert_chunks rest (record s { chunks = new ∷ s.chunks }) in
    if chunk_check new s then inserted else none

unfoldable pub insert_keywords : Keywords → Store → Option Store
insert_keywords new s =
    if has_revision new.owner_id new.material_id new.revision_id s.revisions
      && not (any (λ (k : Keywords). k.revision_id == new.revision_id) s.keywords)
    then some (record s { keywords = new ∷ s.keywords })
    else none

abbrev pub intent_conflicts : EmbeddingIntent → EmbeddingIntent → Bool
intent_conflicts new old = (old.id == new.id) || (old.revision_id == new.revision_id)

unfoldable pub insert_intent : EmbeddingIntent → Store → Option Store
insert_intent new s =
    if has_revision new.owner_id new.material_id new.revision_id s.revisions
      && not (any (intent_conflicts new) s.intents)
    then some (record s { intents = new ∷ s.intents })
    else none
