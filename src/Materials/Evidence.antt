-- ===== src/Materials/Evidence.antt =====
-- `lockAnswerEvidence` and `lockEmbeddingIntents` of
-- apps/api/src/modules/materials/infrastructure/drizzle-materials.repository.ts: what the API reads of
-- the materials of an answer under their locks.
use devfootnote_project.Base.{
  Bool, List, Option, [], any, every, if◌then◌else◌, is_some, leb, length, ltb, map, none, not,
  some, ℕ, ◌&&◌, ◌++◌, ◌==◌, ◌||◌, ◌∷◌,
}
use devfootnote_project.Base.Table.{order_by, select}
use devfootnote_project.Materials.Current.{EvidenceTarget}
use devfootnote_project.Materials.Schema.{ChunkRow, EmbeddingIntent, Material, Store}

-- A row of the join of the materials with the intents of their current revisions.
abbrev pub joins : Material → EmbeddingIntent → Bool
joins m i =
    (i.owner_id == m.owner_id)
    && (i.material_id == m.id)
    && (i.revision_id == m.current_revision_id)

abbrev current_target : Material → EvidenceTarget
current_target m = record { material_id = m.id; revision_id = m.current_revision_id }

unfoldable pub join_intents : List Material → List EmbeddingIntent → List EvidenceTarget
join_intents [] intents = []
join_intents (m ∷ ms) intents =
    map (λ i. current_target m) (select (joins m) intents) ++ join_intents ms intents

-- `owner_id = owner and deleted_at is null and id in (…)`
abbrev pub is_wanted : ℕ → List EvidenceTarget → Material → Bool
is_wanted owner targets m =
    (m.owner_id == owner)
    && not (is_some m.deleted_at)
    && any (λ (t : EvidenceTarget). t.material_id == m.id) targets

-- `lockEmbeddingIntents`, as far as it is read here; the order in which it locks is left out.
unfoldable pub lock_embedding_intents : ℕ → List EvidenceTarget → Store → List EvidenceTarget
unfolding join_intents
lock_embedding_intents owner targets s =
    join_intents (select (is_wanted owner targets) s.materials) s.intents

abbrev pub same_target : EvidenceTarget → EvidenceTarget → Bool
same_target a b = (a.material_id == b.material_id) && (a.revision_id == b.revision_id)

abbrev pub is_among : List EvidenceTarget → EvidenceTarget → Bool
is_among targets t = any (same_target t) targets

abbrev chunk_before : ChunkRow → ChunkRow → Bool
chunk_before a b =
    ltb a.material_id b.material_id
    || ((a.material_id == b.material_id) && leb a.chunk.ordinal b.chunk.ordinal)

abbrev pub of_targets : ℕ → List EvidenceTarget → ChunkRow → Bool
of_targets owner targets c =
    (c.owner_id == owner) && any (λ (t : EvidenceTarget). t.revision_id == c.revision_id) targets

-- `lockAnswerEvidence`; `none` is the error `revision_conflict`.
unfoldable pub lock_evidence : ℕ → List EvidenceTarget → Store → Option (List ChunkRow)
lock_evidence owner targets s =
    let locked = lock_embedding_intents owner targets s in
    if not (length locked == length targets) || not (every (is_among targets) locked)
    then none
    else some (order_by chunk_before (select (of_targets owner targets) s.chunks))
