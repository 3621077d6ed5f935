-- ===== src/Materials/Store/Receipts.antt =====
-- The repetition of a write: the receipt that the write leaves answers it.
use devfootnote_project.Base.{
  Bool-cases, List, Option, Option-cases, any, ap, arith, inl, inr, is_some, none, refl, some,
  subst, ℕ, ◌++◌, ◌+◌, ◌==◌, ◌≡◌,
}
use devfootnote_project.Base.Table.{first}
use devfootnote_project.Materials.Schema.{
  Material, MaterialReceipt, PreparedMaterial, Revision, Store, has_revision,
}
use devfootnote_project.Materials.Store.{
  Ending, FreshIds, Mutation, Replay, Target, advance_row, after_replay, change_current,
  change_material, commit, crash, delete_material, delete_row, delete_tx, find_receipt, fresh,
  guarded_by, insert_receipt_of, insert_revision, is_current, is_material, keyed_by, mismatch, race,
  receipt_for, refuse, replay_response, replayed, store_revision, update_current, update_from,
  update_material, update_tx, with_replays, write_with_receipt, wrote,
}

-- The receipts answer the request with a mutation.
abbrev pub Answers : Target → Mutation → Store → Type 0
Answers t m s = find_receipt t.owner_id t.idempotency_key t.fingerprint s.receipts ≡ replayed m

-- A transaction that commits leaves such a receipt.
abbrev pub Receipted : Target → Ending → Type 0
Receipted t (commit m after) = Answers t m after
Receipted t _ = Unit

-- Receipts are neither removed nor changed between the readings of a transaction.
abbrev pub Keeps : Target → Store → Store → Type 0
Keeps t seen s =
    (r : MaterialReceipt)
    → first (keyed_by t.owner_id t.idempotency_key) seen.receipts ≡ some r
    → first (keyed_by t.owner_id t.idempotency_key) s.receipts ≡ some r

pub find_receipt-kept :
    (t : Target) (seen s : Store) {m : Mutation} → Keeps t seen s → Answers t m seen → Answers t m s
unfolding find_receipt
find_receipt-kept t seen s kept e =
    elim (Option-cases (first (keyed_by t.owner_id t.idempotency_key) seen.receipts)) [
      | inl nothing ↦ ground arith
      | inr (r, found_receipt) ↦ ground (arith, kept r found_receipt)
    ]

pub after_replay-Receipted :
    (t : Target) (seen s : Store) (e : Ending)
    → Keeps t seen s
    → Receipted t e
    → Receipted t
        (after_replay (find_receipt t.owner_id t.idempotency_key t.fingerprint seen.receipts) e s)
after_replay-Receipted t seen s e kept h =
    go (find_receipt t.owner_id t.idempotency_key t.fingerprint seen.receipts) refl
  where
    go :
        (r : Replay)
        → find_receipt t.owner_id t.idempotency_key t.fingerprint seen.receipts ≡ r
        → Receipted t (after_replay r e s)
    go fresh q = h
    go (replayed m) q = find_receipt-kept t seen s kept q
    go mismatch q = tt

pub insert_receipt_of-Receipted :
    (t : Target) (late : List MaterialReceipt) (revision : ℕ) (s : Store)
    → Receipted t (insert_receipt_of (receipt_for t revision) late s)
unfolding insert_receipt_of find_receipt
insert_receipt_of-Receipted t late revision s =
    elim (Bool-cases (any (keyed_by t.owner_id t.idempotency_key) (late ++ s.receipts))) [
      | inl taken ↦ rw taken tt
      | inr free ↦ elim (Bool-cases (has_revision t.owner_id t.material_id revision s.revisions)) [
        | inl there ↦ rw free (rw there (ground arith))
        | inr missing ↦ rw free (rw missing tt)
      ]
    ]

change_current-Receipted :
    (t : Target) (f : Material → Material) (revision : ℕ) (late : List MaterialReceipt) (s : Store)
    → Receipted t (change_current t f revision late s)
unfolding change_current
change_current-Receipted t f revision late s =
    elim (Bool-cases (is_some (first (is_current t) s.materials))) [
      | inl yes_current ↦
          rw yes_current (insert_receipt_of-Receipted t late revision (change_material t f s))
      | inr no_current ↦ rw no_current tt
    ]

guarded_by-Receipted :
    (t : Target) (otherwise : Material → Ending) (locked : Option Material)
    → ((current : Material) → Receipted t (otherwise current))
    → Receipted t (guarded_by t otherwise locked)
guarded_by-Receipted t otherwise none h = tt
guarded_by-Receipted t otherwise (some current) h = elim (Bool-cases (is_some current.deleted_at)) [
  | inl deleted ↦ rw deleted tt
  | inr live ↦ elim (Bool-cases (current.current_revision_id == t.expected_revision_id)) [
    | inl expected ↦ rw live (rw expected (h current))
    | inr moved ↦ rw live (rw moved tt)
  ]
]

update_from-Receipted :
    (t : Target) (prepared : PreparedMaterial) (uuids : FreshIds) (now : ℕ)
    (late : List MaterialReceipt) (s : Store) (current : Material) (previous : Option Revision)
    → Receipted t (update_from t prepared uuids now late s current previous)
update_from-Receipted t prepared uuids now late s current none = tt
update_from-Receipted t prepared uuids now late s current (some previous) =
    elim (Bool-cases (previous.content_fingerprint == prepared.fingerprint)) [
      | inl unchanged ↦
          rw unchanged (insert_receipt_of-Receipted t late current.current_revision_id s)
      | inr new_content ↦
          rw new_content
            (go (insert_revision t.owner_id t.material_id uuids (previous.revision + 1) prepared s))
    ]
  where
    go : (written : Option Store) → Receipted t (store_revision t prepared uuids now late written)
    go none = tt
    go (some with_revision) =
        change_current-Receipted t (advance_row uuids.revision now) uuids.revision late
          with_revision

update_tx-Receipted :
    (t : Target) (prepared : PreparedMaterial) (uuids : FreshIds) (now : ℕ)
    (late : List MaterialReceipt) (seen s : Store)
    → Keeps t seen s
    → Receipted t (update_tx t prepared uuids now late seen s)
unfolding update_tx update_current
update_tx-Receipted t prepared uuids now late seen s kept = after_replay-Receipted t seen s _ kept (
    after_replay-Receipted t s s _ (λ r e. e)
      (guarded_by-Receipted t _ (first (is_material t.owner_id t.material_id) s.materials)
        (λ current. update_from-Receipted t prepared uuids now late s current _)))

delete_tx-Receipted :
    (t : Target) (now : ℕ) (late : List MaterialReceipt) (seen s : Store)
    → Keeps t seen s
    → Receipted t (delete_tx t now late seen s)
unfolding delete_tx
delete_tx-Receipted t now late seen s kept = after_replay-Receipted t seen s _ kept (
    after_replay-Receipted t s s _ (λ r e. e)
      (guarded_by-Receipted t _ (first (is_material t.owner_id t.material_id) s.materials)
        (λ current.
          change_current-Receipted t (delete_row now) current.current_revision_id late s)))

-- After a race too, the tables answer the request with what the caller gets.
pub write_with_receipt-Answers :
    (t : Target) (late : List MaterialReceipt) (s : Store) (e : Ending) (m : Mutation)
    (after : Store)
    → Receipted t e
    → write_with_receipt t.owner_id t.idempotency_key t.fingerprint late s e ≡ (wrote m, after)
    → Answers t m after
unfolding write_with_receipt
write_with_receipt-Answers t late s (commit m' after') m after h e =
    let same_mutation : m' ≡ m = cc in
    let same_store : after' ≡ after = cc in
    subst (λ x. Answers t m x) same_store (subst (λ x. Answers t x after') same_mutation h)
write_with_receipt-Answers t late s (refuse r) m after h e = ground arith
write_with_receipt-Answers t late s race m after h e =
    subst (λ x. Answers t m x) (ap (λ x. x.1) e)
      (go (find_receipt t.owner_id t.idempotency_key t.fingerprint (late ++ s.receipts))
        (ap (λ x. x.0) e))
  where
    go : (r : Replay) → replay_response r ≡ wrote m → r ≡ replayed m
    go fresh q = absurd (ground arith)
    go (replayed m') q = ground arith
    go mismatch q = absurd (ground arith)
write_with_receipt-Answers t late s crash m after h e = ground arith

answered_first :
    (t : Target) (late : List MaterialReceipt) (seen s : Store) (otherwise : Ending) (m : Mutation)
    → Answers t m seen
    → write_with_receipt t.owner_id t.idempotency_key t.fingerprint late s
        (with_replays t seen s otherwise)
      ≡ (wrote m, s)
unfolding write_with_receipt
answered_first t late seen s otherwise m e = rw e refl

-- An update that succeeded, even by reading another transaction's receipt after a race, is repeated
-- without effect: whenever the same request comes again, with whatever material content and at
-- whatever time, it gets the same answer and changes no table, as long as receipts are kept.
pub update_material-repeats :
    (t : Target) (prepared : PreparedMaterial) (uuids : FreshIds) (now : ℕ)
    (late : List MaterialReceipt) (seen s : Store) (m : Mutation) (after : Store)
    → Keeps t seen s
    → update_material t prepared uuids now late seen s ≡ (wrote m, after)
    → (prepared' : PreparedMaterial) (uuids' : FreshIds) (now' : ℕ) (late' : List MaterialReceipt)
      (seen' s' : Store)
    → Keeps t after seen'
    → update_material t prepared' uuids' now' late' seen' s' ≡ (wrote m, s')
unfolding update_material update_tx
update_material-repeats t prepared uuids now late seen s m after kept e prepared' uuids' now' late'
      seen' s' kept' =
    answered_first t late' seen' s' _ m (
      find_receipt-kept t after seen' kept' (
        write_with_receipt-Answers t late s _ m after
          (update_tx-Receipted t prepared uuids now late seen s kept) e))

-- The same of a deletion: it deletes once, and answers each repetition as it did at first.
pub delete_material-repeats :
    (t : Target) (now : ℕ) (late : List MaterialReceipt) (seen s : Store) (m : Mutation)
    (after : Store)
    → Keeps t seen s
    → delete_material t now late seen s ≡ (wrote m, after)
    → (now' : ℕ) (late' : List MaterialReceipt) (seen' s' : Store) → Keeps t after seen'
    → delete_material t now' late' seen' s' ≡ (wrote m, s')
unfolding delete_material delete_tx
delete_material-repeats t now late seen s m after kept e now' late' seen' s' kept' =
    answered_first t late' seen' s' _ m (
      find_receipt-kept t after seen' kept' (
        write_with_receipt-Answers t late s _ m after (delete_tx-Receipted t now late seen s kept)
          e))
