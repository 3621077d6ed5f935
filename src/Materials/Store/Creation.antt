-- ===== src/Materials/Store/Creation.antt =====
-- The repetition of a creation.
use devfootnote_project.Base.{List, Option, ap, none, refl, some, ℕ, ◌∙◌, ◌≡◌}
use devfootnote_project.Materials.Schema.{MaterialReceipt, PreparedMaterial, Store}
use devfootnote_project.Materials.Store.{
  FreshIds, Mutation, Target, create, create_rows, create_tx, find_receipt, finish_with,
  receipt_for, replayed, write_with_receipt, wrote,
}
use devfootnote_project.Materials.Store.Receipts.{
  Answers, Keeps, Receipted, after_replay-Receipted, find_receipt-kept, insert_receipt_of-Receipted,
  write_with_receipt-Answers,
}

-- A creation as a request; it expects no revision.
abbrev pub creation : ℕ → ℕ → ℕ → ℕ → Target
creation owner key fingerprint id = record {
  owner_id = owner;
  idempotency_key = key;
  material_id = id;
  expected_revision_id = 0;
  fingerprint = fingerprint;
}

create_tx-Receipted :
    (owner key : ℕ) (prepared : PreparedMaterial) (id : ℕ) (uuids : FreshIds) (now : ℕ)
    (late : List MaterialReceipt) (seen s : Store)
    → Keeps (creation owner key prepared.fingerprint id) seen s
    → Receipted
        (creation owner key prepared.fingerprint id)
        (create_tx owner key prepared id uuids now late seen s)
unfolding create_tx
create_tx-Receipted owner key prepared id uuids now late seen s kept =
    after_replay-Receipted t seen s _ kept (go (create_rows owner prepared id uuids now s))
  where
    t : Target
    t = creation owner key prepared.fingerprint id

    go :
        (written : Option Store)
        → Receipted t (finish_with (receipt_for t uuids.revision) late written)
    go none = tt
    go (some with_rows) = insert_receipt_of-Receipted t late uuids.revision with_rows

-- A creation that succeeded is repeated without effect: the same request, with the same content and
-- whatever identifiers it draws anew, is given the material that was created first and changes no
-- table, as long as receipts are kept.
pub create-repeats :
    (owner key : ℕ) (prepared : PreparedMaterial) (id : ℕ) (uuids : FreshIds) (now : ℕ)
    (late : List MaterialReceipt) (seen s : Store) (m : Mutation) (after : Store)
    → Keeps (creation owner key prepared.fingerprint id) seen s
    → create owner key prepared id uuids now late seen s ≡ (wrote m, after)
    → (prepared' : PreparedMaterial) (id' : ℕ) (uuids' : FreshIds) (now' : ℕ)
      (late' : List MaterialReceipt) (seen' s' : Store)
    → prepared'.fingerprint ≡ prepared.fingerprint
    → Keeps (creation owner key prepared.fingerprint id) after seen'
    → create owner key prepared' id' uuids' now' late' seen' s' ≡ (wrote m, s')
unfolding create create_tx write_with_receipt
create-repeats owner key prepared id uuids now late seen s m after kept e prepared' id' uuids' now'
      late' seen' s' same_content kept' =
    let answers : Answers t m seen' = find_receipt-kept t after seen' {m = m} kept' (
      write_with_receipt-Answers t late s _ m after
        (create_tx-Receipted owner key prepared id uuids now late seen s kept) e) in
    let found_again : find_receipt owner key prepared'.fingerprint seen'.receipts ≡ replayed m =
      ap (λ f. find_receipt owner key f seen'.receipts) same_content ∙ answers in
    rw found_again refl
  where
    t : Target
    t = creation owner key prepared.fingerprint id
