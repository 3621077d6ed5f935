-- ===== src/Indexing/Execution/Consents.antt =====
-- The fences of `withFencedWork` on the tables of the other modules.
use devfootnote_project.Base.{
  List, Option-cases, arith, false, inl, inr, is_some, none, some, true, ℕ, ◌&&◌, ◌<◌, ◌==◌, ◌↔◌,
  ◌≡◌, ◌≤◌, ◌⊎◌,
}
use devfootnote_project.Base.Table.{first}
use devfootnote_project.Indexing.Execution.{Database, Environment, fences}
use devfootnote_project.Indexing.Policy.{fence_failure}
use devfootnote_project.Indexing.Policy.Fences.{fenced, holds-some, unconsented}
use devfootnote_project.Indexing.Schema.{Work}
use devfootnote_project.Materials.Current.{CurrentIntent, lock_current_intent}
use devfootnote_project.Usage.Consents.{ApprovedPolicy, consent, grant, ok, revoke}
use devfootnote_project.Usage.Consents.Epochs.{
  grant-Raises, grant-granted, revoke-Raises, revoke-not_granted,
}
use devfootnote_project.Usage.Reservations.{find_reservation, lock_consent, lock_reservation}
use devfootnote_project.Usage.Schema.{Consent, Reservation, is_reserved}

-- What a work needs in order to go on, in the rows of the tables: the consent of the owner to the
-- configuration in force, granted, not revoked, and still of the epoch of the work; a material that
-- is current; and a reservation for the configuration and the epoch that is open and has not expired.
pub record MayGoOn (env : Environment) (configuration : ℕ) (snapshot w : Work) (db : Database)
    : Type 0 where
  pub configured : configuration ≡ w.config_fingerprint
  pub consent_row : Consent
  pub consented :
      first (λ (c : Consent). c.owner_id == snapshot.owner_id) db.ledger.consents ≡ some consent_row
  pub granted : is_some consent_row.granted_at ≡ true
  pub not_revoked : is_some consent_row.revoked_at ≡ false
  pub epoch : consent_row.epoch ≡ w.consent_epoch
  pub policy : consent_row.config_fingerprint ≡ some w.config_fingerprint
  pub current : CurrentIntent
  pub is_current : lock_current_intent snapshot.owner_id snapshot.intent_id db.store ≡ some current
  pub reservation : ℕ
  pub reserved_by : snapshot.reservation_id ≡ some reservation
  pub reservation_row : Reservation
  pub reserved_row : find_reservation snapshot.owner_id reservation db.ledger ≡ some reservation_row
  pub reserved_for : reservation_row.config_fingerprint ≡ w.config_fingerprint
  pub reserved_epoch : reservation_row.consent_epoch ≡ w.consent_epoch
  pub is_open_row : is_reserved reservation_row.state ≡ true
  pub in_time : env.reservation_at < reservation_row.expires_at

module _ (env : Environment) (configuration : ℕ) (snapshot w : Work) (db : Database) where
  passes-MayGoOn :
      fences env configuration snapshot w db ≡ none → MayGoOn env configuration snapshot w db
  unfolding fence_failure lock_consent lock_reservation
  passes-MayGoOn e =
      elim (Option-cases
        (first (λ (c : Consent). c.owner_id == snapshot.owner_id) db.ledger.consents)) [
          | inl no_consent ↦ absurd (ground arith)
          | inr (c, consented) ↦
              elim (Option-cases
                (lock_current_intent snapshot.owner_id snapshot.intent_id db.store)) [
                  | inl no_intent ↦ absurd (ground arith)
                  | inr (current, is_current) ↦ elim (Option-cases snapshot.reservation_id) [
                    | inl no_reservation ↦ absurd (ground arith)
                    | inr (r, reserved_by) ↦
                        elim (Option-cases (find_reservation snapshot.owner_id r db.ledger)) [
                          | inl no_row ↦ absurd (ground arith)
                          | inr (x, found) ↦ record {
                            configured = ground arith;
                            consent_row = c;
                            consented = consented;
                            granted = ground arith;
                            not_revoked = ground arith;
                            epoch = ground arith;
                            policy =
                                holds-some c.config_fingerprint w.config_fingerprint (ground arith);
                            current = current;
                            is_current = is_current;
                            reservation = r;
                            reserved_by = reserved_by;
                            reservation_row = x;
                            reserved_row = found;
                            reserved_for = ground arith;
                            reserved_epoch = ground arith;
                            is_open_row = ground arith;
                            in_time = ground arith;
                          }
                        ]
                  ]
                ]
        ]

  MayGoOn-passes :
      MayGoOn env configuration snapshot w db → fences env configuration snapshot w db ≡ none
  unfolding fence_failure lock_consent lock_reservation
  MayGoOn-passes may = ground (
    arith, may.configured, may.consented, may.granted, may.not_revoked, may.epoch, may.policy,
    may.is_current, may.reserved_by, may.reserved_row, may.reserved_for, may.reserved_epoch,
    may.is_open_row, may.in_time,
  )

  -- The fences of `withFencedWork` pass exactly when the work may go on, by the rows of the tables;
  -- where one of these rows is missing, they do not pass.
  pub fences-MayGoOn :
      (fences env configuration snapshot w db ≡ none) ↔ MayGoOn env configuration snapshot w db
  fences-MayGoOn = (passes-MayGoOn, MayGoOn-passes)

  -- What the worker locks is what the API reads, unless the row is missing.
  lock_consent-consent :
      (owner : ℕ)
      → (lock_consent owner db.ledger ≡ none)
        ⊎ (lock_consent owner db.ledger ≡ some (consent owner db.ledger.consents))
  unfolding lock_consent consent
  lock_consent-consent owner =
      elim (Option-cases (first (λ (c : Consent). c.owner_id == owner) db.ledger.consents)) [
        | inl no_row ↦ inl (ground arith)
        | inr (c, found) ↦ inr (ground arith)
      ]

  fences-stale :
      (rows : List Consent)
      → db.ledger.consents ≡ rows
      → ((consent snapshot.owner_id rows).granted
          && ((consent snapshot.owner_id rows).epoch == w.consent_epoch))
        ≡ false
      → is_some (fences env configuration snapshot w db) ≡ true
  fences-stale rows same_rows stale = elim (lock_consent-consent snapshot.owner_id) [
    | inl no_row ↦ rw no_row (unconsented configuration w _ _)
    | inr seen ↦
        rw seen (rw same_rows (fenced configuration w (consent snapshot.owner_id rows) _ _ stale))
  ]

-- On tables whose consents are those that a revocation of the API left, no work of the owner passes
-- the fences of `withFencedWork`, whatever the configuration, the material and the reservation.
pub revoke-fences :
    (owner expected now : ℕ) (rows : List Consent) (epoch : ℕ) (after : List Consent)
    → revoke owner expected now rows ≡ ok (epoch, after)
    → (env : Environment) (configuration : ℕ) (snapshot w : Work) (db : Database)
    → db.ledger.consents ≡ after
    → snapshot.owner_id ≡ owner
    → is_some (fences env configuration snapshot w db) ≡ true
revoke-fences owner expected now rows epoch after e env configuration snapshot w db same_rows
      same_owner =
    fences-stale env configuration snapshot w db after same_rows (
      rw same_owner (
        ground
          (arith, revoke-not_granted owner expected now rows {epoch = epoch} {after = after} e)))

-- Nor does a work of an epoch up to the one that was revoked, once the owner has granted anew.
pub regrant-fences :
    (owner expected now : ℕ) (rows : List Consent) (epoch : ℕ) (after : List Consent)
    → revoke owner expected now rows ≡ ok (epoch, after)
    → (expected' now' : ℕ) (policy : ApprovedPolicy) (epoch' : ℕ) (after' : List Consent)
    → grant owner expected' policy now' after ≡ ok (epoch', after')
    → (env : Environment) (configuration : ℕ) (snapshot w : Work) (db : Database)
    → db.ledger.consents ≡ after'
    → snapshot.owner_id ≡ owner
    → w.consent_epoch ≤ expected
    → is_some (fences env configuration snapshot w db) ≡ true
regrant-fences owner expected now rows epoch after e expected' now' policy epoch' after' e' env
      configuration snapshot w db same_rows same_owner old =
    fences-stale env configuration snapshot w db after' same_rows (
      rw same_owner (
        ground (
          arith,
          revoke-Raises owner expected now rows,
          grant-Raises owner expected' now' policy after,
          revoke-not_granted owner expected now rows {epoch = epoch} {after = after} e,
          grant-granted owner expected' now' policy after {epoch = epoch'} {after = after'} e',
        )))
