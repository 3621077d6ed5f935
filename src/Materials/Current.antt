-- ===== src/Materials/Current.antt =====
-- apps/worker/src/modules/materials/materials.repository.ts: what the worker reads of the materials
-- under their locks.
pub mod Superseded
use mathlib.Core.Option
use devfootnote_project.Base.{
  Bool, List, Option, [], any, false, if◌then◌else◌, is_some, leb, map, none, not, some, take, true,
  ℕ, ◌&&◌, ◌++◌, ◌==◌, ◌∷◌,
}
use devfootnote_project.Base.Table.{first, order_by, select}
use devfootnote_project.Materials.Schema.{ChunkRow, EmbeddingIntent, Material, Revision, Store}
use devfootnote_project.Materials.Store.{is_material}

-- `CurrentEmbeddingIntent`
pub record CurrentIntent : Type 0 where
  pub material_id : ℕ
  pub revision_id : ℕ
  pub content_fingerprint : ℕ

-- The joins of an intent with its material, of which it is the current revision, and with that
-- revision.
abbrev pub is_live : EmbeddingIntent → Material → Bool
is_live i m =
    (m.owner_id == i.owner_id)
    && (m.id == i.material_id)
    && (m.current_revision_id == i.revision_id)
    && not (is_some m.deleted_at)

abbrev pub is_content : EmbeddingIntent → Revision → Bool
is_content i r =
    (r.owner_id == i.owner_id)
    && (r.material_id == i.material_id)
    && (r.id == i.revision_id)
    && (r.content_fingerprint == i.content_fingerprint)

abbrev pub current_intent : ℕ → ℕ → Store → EmbeddingIntent → Bool
current_intent owner id s i =
    (i.owner_id == owner)
    && (i.id == id)
    && any (is_live i) s.materials
    && any (is_content i) s.revisions

abbrev intent_view : EmbeddingIntent → CurrentIntent
intent_view i = record {
  material_id = i.material_id;
  revision_id = i.revision_id;
  content_fingerprint = i.content_fingerprint;
}

-- `lockCurrentIntent`
unfoldable pub lock_current_intent : ℕ → ℕ → Store → Option CurrentIntent
lock_current_intent owner id s =
    Option.map intent_view (first (current_intent owner id s) s.intents)

abbrev pub of_revision : ℕ → ℕ → ℕ → ChunkRow → Bool
of_revision owner material revision c =
    (c.owner_id == owner) && (c.material_id == material) && (c.revision_id == revision)

abbrev by_ordinal : ChunkRow → ChunkRow → Bool
by_ordinal a b = leb a.chunk.ordinal b.chunk.ordinal

-- `chunks`, in the order of their ordinals.
unfoldable pub chunks_of : ℕ → ℕ → ℕ → Store → List ChunkRow
chunks_of owner material revision s =
    order_by by_ordinal (select (of_revision owner material revision) s.chunks)

abbrev same_text : List ℕ → List ℕ → Bool
same_text [] [] = true
same_text (u ∷ us) (v ∷ vs) = (u == v) && same_text us vs
same_text _ _ = false

abbrev by_id_descending : ChunkRow → ChunkRow → Bool
by_id_descending a b = leb b.id a.id

-- `reusableChunks`: chunks of other revisions with the same text, at most 100.
unfoldable pub reusable_chunks : ℕ → ℕ → ℕ → List ℕ → Store → List ℕ
reusable_chunks owner material revision text s =
    map (λ (c : ChunkRow). c.id)
      (take 100 (
        order_by by_id_descending (
          select
            (λ (c : ChunkRow).
              (c.owner_id == owner)
              && (c.material_id == material)
              && not (c.revision_id == revision)
              && same_text c.chunk.text text)
            s.chunks)))

-- The source of a vector and the current revision of its material, for `lock_reusable_chunk`.
abbrev repeats : ℕ → Material → Store → ChunkRow → Bool
repeats owner m s source =
    any
      (λ (c : ChunkRow).
        of_revision owner m.id m.current_revision_id c && same_text c.chunk.text source.chunk.text)
      s.chunks

-- `lockReusableChunk`: whether the current revision of a live material has the text of a chunk.
unfoldable pub lock_reusable_chunk : ℕ → ℕ → ℕ → Store → Bool
lock_reusable_chunk owner material chunk_id s =
    elim (first (is_material owner material) s.materials) [
      | none ↦ false
      | some m ↦
          if is_some m.deleted_at
          then false
          else elim (first
              (λ (c : ChunkRow).
                (c.owner_id == owner) && (c.material_id == material) && (c.id == chunk_id))
              s.chunks) [ none ↦ false | some source ↦ repeats owner m s source ]
    ]

pub record EvidenceTarget : Type 0 where
  pub material_id : ℕ
  pub revision_id : ℕ

abbrev by_material : EvidenceTarget → EvidenceTarget → Bool
by_material a b = leb a.material_id b.material_id

-- The target's material is live and at the target's revision.
abbrev pub is_current : EvidenceTarget → Option Material → Bool
is_current t none = false
is_current t (some m) = not (is_some m.deleted_at) && (m.current_revision_id == t.revision_id)

unfoldable pub lock_targets : ℕ → List EvidenceTarget → Store → Option (List ChunkRow)
lock_targets owner [] s = some []
lock_targets owner (t ∷ ts) s =
    let rest = lock_targets owner ts s in
    if is_current t (first (is_material owner t.material_id) s.materials)
    then Option.map (λ rows. chunks_of owner t.material_id t.revision_id s ++ rows) rest
    else none

-- `lockAnswerEvidence`: the chunks of all targets, unless one of them is not current. The order in
-- which it locks the materials is that of their identifiers.
unfoldable pub lock_answer_evidence : ℕ → List EvidenceTarget → Store → Option (List ChunkRow)
lock_answer_evidence owner targets s = lock_targets owner (order_by by_material targets) s
