-- ===== src/Materials/Tests.antt =====
-- A material with one revision, and two requests about it.
use mathlib.Core.Option
use devfootnote_project.Base.{List, [], none, refl, some, suc, zero, ℕ, ◌++◌, ◌+◌, ◌∷◌, ◌≡◌}
use devfootnote_project.Materials.Content.{MaterialChunk, chunk_body, chunks_from}
use devfootnote_project.Materials.Content.Chunks.{
  IsChunking, chunk_body-IsChunking, texts, texts-chunk_body,
}
use devfootnote_project.Materials.Current.{CurrentIntent, lock_current_intent}
use devfootnote_project.Materials.Current.Superseded.{update_material-supersedes}
use devfootnote_project.Materials.Schema.{
  Content, EmbeddingIntent, Material, PreparedMaterial, Revision, Store, insert_chunks,
  insert_intent, insert_keywords, insert_material, insert_revision_row,
}
use devfootnote_project.Materials.Store.{
  FreshIds, Mutation, Target, change_current, create, create_rows, create_tx, delete_material,
  delete_tx, find_receipt, insert_receipt_of, insert_revision, not_found, rejected,
  revision_conflict, update_current, update_material, update_tx, write_with_receipt, wrote,
}
use devfootnote_project.Materials.Store.Creation.{create-repeats}
use devfootnote_project.Materials.Store.Receipts.{delete_material-repeats, update_material-repeats}
use devfootnote_project.Materials.Store.Writers.{
  Rivals, Unanswered, delete_material-once, update_material-one_winner,
}

abbrev replicate : ℕ → ℕ → List ℕ
replicate zero u = []
replicate (suc n) u = u ∷ replicate n u

-- 1199 letters, a character outside the basic plane, and a letter.
abbrev emoji : List ℕ
emoji = replicate 1199 97 ++ 55357 ∷ 56832 ∷ 98 ∷ []

chunk_body-IsChunking_example :
    (chunks : List MaterialChunk) × (chunk_body emoji ≡ some chunks) × IsChunking emoji 0 0 chunks
chunk_body-IsChunking_example = chunk_body-IsChunking emoji

abbrev letter : MaterialChunk
letter = record { ordinal = 0; text = 97 ∷ []; start_offset = 0; end_offset = 1 }

one_letter : chunk_body (97 ∷ []) ≡ some (letter ∷ [])
unfolding chunk_body chunks_from Option.map
one_letter = refl

texts-chunk_body_example : texts (letter ∷ []) ≡ 97 ∷ []
texts-chunk_body_example = texts-chunk_body (97 ∷ []) (letter ∷ []) one_letter

abbrev text_of : ℕ → Content
text_of u = record { title = none; body = u ∷ []; note = none; context = none; source_url = none }

abbrev old_row : Material
old_row = record {
  id = 10;
  owner_id = 1;
  current_revision_id = 100;
  updated_at = 0;
  deleted_at = none;
}

abbrev old_revision : Revision
old_revision = record {
  id = 100;
  owner_id = 1;
  material_id = 10;
  revision = 1;
  content = text_of 98;
  content_fingerprint = 5;
}

abbrev old_intent : EmbeddingIntent
old_intent = record {
  id = 200;
  owner_id = 1;
  material_id = 10;
  revision_id = 100;
  content_fingerprint = 5;
}

abbrev before : Store
before = record {
  materials = old_row ∷ [];
  revisions = old_revision ∷ [];
  chunks = [];
  keywords = [];
  receipts = [];
  intents = old_intent ∷ [];
}

abbrev request_by : ℕ → Target
request_by key = record {
  owner_id = 1;
  idempotency_key = key;
  material_id = 10;
  expected_revision_id = 100;
  fingerprint = 900 + key;
}

abbrev new_text : PreparedMaterial
new_text = record {
  content = text_of 97;
  fingerprint = 6;
  normalized_text = 97 ∷ [];
  chunks = letter ∷ [];
}

abbrev drawn : FreshIds
drawn = record { revision = 101; chunk = λ n. 300 + n; intent = 201 }

abbrev written : Mutation
written = record { id = 10; revision_id = 101 }

abbrev updated : Store
updated = (update_material (request_by 50) new_text drawn 7 [] before before).1

updating :
    update_material (request_by 50) new_text drawn 7 [] before before ≡ (wrote written, updated)
unfolding update_material update_tx find_receipt update_current insert_revision insert_revision_row
    insert_chunks insert_keywords insert_intent change_current insert_receipt_of write_with_receipt
updating = refl

update_material-repeats_example :
    update_material (request_by 50) new_text drawn 9 [] updated updated ≡ (wrote written, updated)
update_material-repeats_example =
    update_material-repeats (request_by 50) new_text drawn 7 [] before before written updated
      (λ r e. e) updating new_text drawn 9 [] updated updated (λ r e. e)

unanswered : (key : ℕ) → Unanswered (request_by key) before
unfolding find_receipt
unanswered key = refl

rival_of_update : Unanswered (request_by 51) updated
unfolding update_material update_tx find_receipt update_current insert_revision insert_revision_row
    insert_chunks insert_keywords insert_intent change_current insert_receipt_of write_with_receipt
rival_of_update = refl

rivals : Rivals (request_by 50) (request_by 51)
rivals = record { owner = refl; material = refl; expected = refl }

update_material-one_winner_example :
    (update_material (request_by 51) new_text drawn 9 [] before updated
      ≡ (rejected revision_conflict, updated))
    × (delete_material (request_by 51) 9 [] before updated ≡ (rejected revision_conflict, updated))
update_material-one_winner_example =
    update_material-one_winner (request_by 50) new_text drawn 7 before before written updated
      (unanswered 50) (unanswered 50) updating refl (request_by 51) new_text drawn 9 [] before
      rivals (unanswered 51) rival_of_update

abbrev new_intent : CurrentIntent
new_intent = record { material_id = 10; revision_id = 101; content_fingerprint = 6 }

locking : lock_current_intent 1 201 updated ≡ some new_intent
unfolding update_material update_tx find_receipt update_current insert_revision insert_revision_row
    insert_chunks insert_keywords insert_intent change_current insert_receipt_of write_with_receipt
    lock_current_intent Option.map
locking = refl

update_material-supersedes_example : new_intent.revision_id ≡ 101
update_material-supersedes_example =
    update_material-supersedes (request_by 50) new_text drawn 7 before before written updated
      (refl, tt) (unanswered 50) (unanswered 50) updating refl 1 201 new_intent locking refl

abbrev erased : Mutation
erased = record { id = 10; revision_id = 100 }

abbrev deleted : Store
deleted = (delete_material (request_by 60) 8 [] before before).1

deleting : delete_material (request_by 60) 8 [] before before ≡ (wrote erased, deleted)
unfolding delete_material delete_tx find_receipt change_current insert_receipt_of write_with_receipt
deleting = refl

delete_material-repeats_example :
    delete_material (request_by 60) 9 [] deleted deleted ≡ (wrote erased, deleted)
delete_material-repeats_example =
    delete_material-repeats (request_by 60) 8 [] before before erased deleted (λ r e. e) deleting 9
      [] deleted deleted (λ r e. e)

rival_of_deletion : Unanswered (request_by 51) deleted
unfolding delete_material delete_tx find_receipt change_current insert_receipt_of write_with_receipt
rival_of_deletion = refl

delete_material-once_example :
    (update_material (request_by 51) new_text drawn 9 [] before deleted
      ≡ (rejected not_found, deleted))
    × (delete_material (request_by 51) 9 [] before deleted ≡ (rejected not_found, deleted))
delete_material-once_example =
    delete_material-once (request_by 60) 8 before before erased deleted (unanswered 60)
      (unanswered 60) deleting (request_by 51) new_text drawn 9 [] before refl refl (unanswered 51)
      rival_of_deletion

abbrev no_rows : Store
no_rows = record {
  materials = [];
  revisions = [];
  chunks = [];
  keywords = [];
  receipts = [];
  intents = [];
}

abbrev created : Store
created = (create 1 70 new_text 11 drawn 3 [] no_rows no_rows).1

abbrev first_version : Mutation
first_version = record { id = 11; revision_id = 101 }

creating : create 1 70 new_text 11 drawn 3 [] no_rows no_rows ≡ (wrote first_version, created)
unfolding create create_tx create_rows find_receipt insert_material insert_revision
    insert_revision_row insert_chunks insert_keywords insert_intent insert_receipt_of
    write_with_receipt
creating = refl

create-repeats_example :
    create 1 70 new_text 12 drawn 9 [] created created ≡ (wrote first_version, created)
create-repeats_example =
    create-repeats 1 70 new_text 11 drawn 3 [] no_rows no_rows first_version created (λ r e. e)
      creating new_text 12 drawn 9 [] created created refl (λ r e. e)
