-- ===== src/Materials/Store.antt =====
-- apps/api/src/modules/materials/infrastructure/drizzle-materials.repository.ts: a write of a
-- material, with the receipt that makes its repetition harmless. Random UUIDs are arguments. Under
-- Read Committed a statement sees what is committed when it begins: `seen` are the tables at the
-- first statement of a transaction, `s` those once its lock is held, and `late` are the receipts
-- that other transactions commit between the lock and the insert of this one's receipt.
pub mod Receipts
pub mod Creation
pub mod Revisions
pub mod Writers
use devfootnote_project.Base.{
  Bool, List, Option, any, if◌then◌else◌, is_some, length, map, none, not, some, ℕ, ◌&&◌, ◌++◌, ◌+◌,
  ◌==◌, ◌>>=◌, ◌∷◌,
}
use devfootnote_project.Base.Table.{first, update}
use devfootnote_project.Materials.Content.{MaterialChunk}
use devfootnote_project.Materials.Schema.{
  ChunkRow, EmbeddingIntent, Keywords, Material, MaterialReceipt, PreparedMaterial, Revision, Store,
  has_revision, insert_chunks, insert_intent, insert_keywords, insert_material, insert_revision_row,
}

-- `MaterialMutationResult`
pub record Mutation : Type 0 where
  pub id : ℕ
  pub revision_id : ℕ

pub data MaterialsError : Type 0 where
  conflict revision_conflict not_found unavailable : MaterialsError

-- How a transaction ends: committed, or rolled back by an error of the materials, by `ReceiptRace`,
-- or by any other exception.
pub data Ending : Type 0 where
  commit : Mutation → Store → Ending
  refuse : MaterialsError → Ending
  race : Ending
  crash : Ending

-- The UUIDs that a new revision draws.
pub record FreshIds : Type 0 where
  pub revision : ℕ
  pub chunk : ℕ → ℕ
  pub intent : ℕ

abbrev pub keyed_by : ℕ → ℕ → MaterialReceipt → Bool
keyed_by owner key r = (r.owner_id == owner) && (r.idempotency_key == key)

abbrev pub answer : MaterialReceipt → Mutation
answer r = record { id = r.material_id; revision_id = r.revision_id }

-- `findReceipt`: nothing, the mutation that it answers, or `conflict`.
pub data Replay : Type 0 where
  fresh : Replay
  replayed : Mutation → Replay
  mismatch : Replay

unfoldable pub find_receipt : ℕ → ℕ → ℕ → List MaterialReceipt → Replay
find_receipt owner key fingerprint receipts = elim (first (keyed_by owner key) receipts) [
  | none ↦ fresh
  | some r ↦ if r.fingerprint == fingerprint then replayed (answer r) else mismatch
]

-- `insertReceipt` after the rest of a transaction; a key that is taken is a race.
unfoldable pub insert_receipt_of : MaterialReceipt → List MaterialReceipt → Store → Ending
insert_receipt_of new late s =
    if any (keyed_by new.owner_id new.idempotency_key) (late ++ s.receipts)
    then race
    else if has_revision new.owner_id new.material_id new.revision_id s.revisions
    then commit (answer new) (record s { receipts = new ∷ (late ++ s.receipts) })
    else crash

abbrev pub revision_row : ℕ → ℕ → FreshIds → ℕ → PreparedMaterial → Revision
revision_row owner material uuids number prepared = record {
  id = uuids.revision;
  owner_id = owner;
  material_id = material;
  revision = number;
  content = prepared.content;
  content_fingerprint = prepared.fingerprint;
}

abbrev pub chunk_row : ℕ → ℕ → FreshIds → MaterialChunk → ChunkRow
chunk_row owner material uuids chunk = record {
  id = uuids.chunk chunk.ordinal;
  owner_id = owner;
  material_id = material;
  revision_id = uuids.revision;
  chunk = chunk;
}

abbrev pub keywords_row : ℕ → ℕ → FreshIds → PreparedMaterial → Keywords
keywords_row owner material uuids prepared = record {
  revision_id = uuids.revision;
  owner_id = owner;
  material_id = material;
  normalized_text = prepared.normalized_text;
}

abbrev pub intent_row : ℕ → ℕ → FreshIds → PreparedMaterial → EmbeddingIntent
intent_row owner material uuids prepared = record {
  id = uuids.intent;
  owner_id = owner;
  material_id = material;
  revision_id = uuids.revision;
  content_fingerprint = prepared.fingerprint;
}

-- `insertRevision`; an insert of no chunks is an error of Drizzle.
unfoldable pub insert_revision : ℕ → ℕ → FreshIds → ℕ → PreparedMaterial → Store → Option Store
insert_revision owner material uuids number prepared s = do
  with_revision ← insert_revision_row (revision_row owner material uuids number prepared) s
  with_chunks ←
      if length prepared.chunks == 0
      then none
      else insert_chunks (map (chunk_row owner material uuids) prepared.chunks) with_revision
  with_keywords ← insert_keywords (keywords_row owner material uuids prepared) with_chunks
  insert_intent (intent_row owner material uuids prepared) with_keywords

abbrev pub receipt_of : ℕ → ℕ → ℕ → ℕ → ℕ → MaterialReceipt
receipt_of owner key fingerprint material revision = record {
  owner_id = owner;
  idempotency_key = key;
  fingerprint = fingerprint;
  material_id = material;
  revision_id = revision;
}

-- The receipt after what may have failed on a constraint.
abbrev pub finish_with : MaterialReceipt → List MaterialReceipt → Option Store → Ending
finish_with receipt late none = crash
finish_with receipt late (some s) = insert_receipt_of receipt late s

abbrev pub after_replay : Replay → Ending → Store → Ending
after_replay fresh otherwise s = otherwise
after_replay (replayed m) otherwise s = commit m s
after_replay mismatch otherwise s = refuse conflict

abbrev pub new_material : ℕ → ℕ → ℕ → ℕ → Material
new_material id owner revision now = record {
  id = id;
  owner_id = owner;
  current_revision_id = revision;
  updated_at = now;
  deleted_at = none;
}

unfoldable pub create_rows : ℕ → PreparedMaterial → ℕ → FreshIds → ℕ → Store → Option Store
create_rows owner prepared id uuids now s = do
  with_material ← insert_material (new_material id owner uuids.revision now) s
  insert_revision owner id uuids 1 prepared with_material

-- The transaction of `create`.
unfoldable pub create_tx :
    ℕ → ℕ → PreparedMaterial → ℕ → FreshIds → ℕ → List MaterialReceipt → Store → Store → Ending
create_tx owner key prepared id uuids now late seen s =
    after_replay (find_receipt owner key prepared.fingerprint seen.receipts)
      (finish_with (receipt_of owner key prepared.fingerprint id uuids.revision) late
        (create_rows owner prepared id uuids now s))
      s

-- `UpdateMaterialWrite`, and `DeleteMaterialWrite` but for the content.
pub record Target : Type 0 where
  pub owner_id : ℕ
  pub idempotency_key : ℕ
  pub material_id : ℕ
  pub expected_revision_id : ℕ
  pub fingerprint : ℕ

abbrev pub is_material : ℕ → ℕ → Material → Bool
is_material owner id m = (m.owner_id == owner) && (m.id == id)

abbrev pub is_revision : ℕ → ℕ → ℕ → Revision → Bool
is_revision owner material id r =
    (r.owner_id == owner) && (r.material_id == material) && (r.id == id)

-- The guard of both updates of a material.
abbrev pub is_current : Target → Material → Bool
is_current t m =
    (m.owner_id == t.owner_id)
    && (m.id == t.material_id)
    && (m.current_revision_id == t.expected_revision_id)
    && not (is_some m.deleted_at)

abbrev pub advance_row : ℕ → ℕ → Material → Material
advance_row revision now m = record m { current_revision_id = revision; updated_at = now }

abbrev pub delete_row : ℕ → Material → Material
delete_row now m = record m { deleted_at = some now; updated_at = now }

abbrev pub receipt_for : Target → ℕ → MaterialReceipt
receipt_for t revision =
    receipt_of t.owner_id t.idempotency_key t.fingerprint t.material_id revision

abbrev pub change_material : Target → (Material → Material) → Store → Store
change_material t f s = record s { materials = update (is_current t) f s.materials }

-- The conditional update, and the receipt if it changed a row.
unfoldable pub change_current :
    Target → (Material → Material) → ℕ → List MaterialReceipt → Store → Ending
change_current t f revision late s =
    if is_some (first (is_current t) s.materials)
    then insert_receipt_of (receipt_for t revision) late (change_material t f s)
    else refuse revision_conflict

-- What a locked row allows: `not_found`, `revision_conflict`, or the rest of the write.
abbrev pub guarded_by : Target → (Material → Ending) → Option Material → Ending
guarded_by t otherwise none = refuse not_found
guarded_by t otherwise (some current) =
    if is_some current.deleted_at
    then refuse not_found
    else if not (current.current_revision_id == t.expected_revision_id)
    then refuse revision_conflict
    else otherwise current

abbrev pub guarded : Target → Store → (Material → Ending) → Ending
guarded t s otherwise =
    guarded_by t otherwise (first (is_material t.owner_id t.material_id) s.materials)

abbrev pub store_revision :
    Target → PreparedMaterial → FreshIds → ℕ → List MaterialReceipt → Option Store → Ending
store_revision t prepared uuids now late none = crash
store_revision t prepared uuids now late (some s) =
    change_current t (advance_row uuids.revision now) uuids.revision late s

-- An update without a change of content leaves a receipt alone.
abbrev pub update_from :
    Target
    → PreparedMaterial
    → FreshIds
    → ℕ
    → List MaterialReceipt
    → Store
    → Material
    → Option Revision
    → Ending
update_from t prepared uuids now late s current none = crash
update_from t prepared uuids now late s current (some previous) =
    if previous.content_fingerprint == prepared.fingerprint
    then insert_receipt_of (receipt_for t current.current_revision_id) late s
    else store_revision t prepared uuids now late
        (insert_revision t.owner_id t.material_id uuids (previous.revision + 1) prepared s)

unfoldable pub update_current :
    Target → PreparedMaterial → FreshIds → ℕ → List MaterialReceipt → Store → Material → Ending
update_current t prepared uuids now late s current =
    update_from t prepared uuids now late s current
      (first (is_revision t.owner_id t.material_id t.expected_revision_id) s.revisions)

-- The receipt is looked for before the lock and once it is held.
abbrev pub with_replays : Target → Store → Store → Ending → Ending
with_replays t seen s otherwise =
    after_replay (find_receipt t.owner_id t.idempotency_key t.fingerprint seen.receipts)
      (after_replay (find_receipt t.owner_id t.idempotency_key t.fingerprint s.receipts) otherwise
        s)
      s

-- The transaction of `update`.
unfoldable pub update_tx :
    Target → PreparedMaterial → FreshIds → ℕ → List MaterialReceipt → Store → Store → Ending
update_tx t prepared uuids now late seen s =
    with_replays t seen s (guarded t s (update_current t prepared uuids now late s))

-- The transaction of `delete`.
unfoldable pub delete_tx : Target → ℕ → List MaterialReceipt → Store → Store → Ending
delete_tx t now late seen s =
    with_replays t seen s (
      guarded t s (λ current. change_current t (delete_row now) current.current_revision_id late s))

-- What the caller gets; any exception but a `MaterialsError` becomes an internal error.
pub data Response : Type 0 where
  wrote : Mutation → Response
  rejected : MaterialsError → Response
  internal_error : Response

abbrev pub replay_response : Replay → Response
replay_response fresh = internal_error
replay_response (replayed m) = wrote m
replay_response mismatch = rejected conflict

-- `writeWithReceipt`: after a race the winner's receipt is read, in a new statement.
unfoldable pub write_with_receipt :
    ℕ → ℕ → ℕ → List MaterialReceipt → Store → Ending → Response × Store
write_with_receipt owner key fingerprint late s (commit m after) = (wrote m, after)
write_with_receipt owner key fingerprint late s (refuse e) = (rejected e, s)
write_with_receipt owner key fingerprint late s race = (
  replay_response (find_receipt owner key fingerprint (late ++ s.receipts)),
  record s { receipts = late ++ s.receipts },
)
write_with_receipt owner key fingerprint late s crash = (internal_error, s)

-- `create`, `update` and `delete`
unfoldable pub create :
    ℕ
    → ℕ
    → PreparedMaterial
    → ℕ
    → FreshIds
    → ℕ
    → List MaterialReceipt
    → Store
    → Store
    → Response × Store
create owner key prepared id uuids now late seen s =
    write_with_receipt owner key prepared.fingerprint late s
      (create_tx owner key prepared id uuids now late seen s)

unfoldable pub update_material :
    Target
    → PreparedMaterial
    → FreshIds
    → ℕ
    → List MaterialReceipt
    → Store
    → Store
    → Response × Store
update_material t prepared uuids now late seen s =
    write_with_receipt t.owner_id t.idempotency_key t.fingerprint late s
      (update_tx t prepared uuids now late seen s)

unfoldable pub delete_material :
    Target → ℕ → List MaterialReceipt → Store → Store → Response × Store
delete_material t now late seen s =
    write_with_receipt t.owner_id t.idempotency_key t.fingerprint late s
      (delete_tx t now late seen s)
