-- ===== src/Usage/Consents.antt =====
-- The consent to send data to the AI provider: apps/api/src/modules/usage-retention/usage.service.ts
-- and usage.repository.ts. A consent carries an epoch, which every change raises. The consent to
-- answers (answer-usage.service.ts, answer-usage.repository.ts) follows the same steps on a table
-- of its own.
pub mod Epochs
use devfootnote_project.Base.{
  Bool, List, Option, false, holds, if◌then◌else◌, is_some, none, not, some, ℕ, ◌&&◌, ◌+◌, ◌==◌,
  ◌∷◌,
}
use devfootnote_project.Base.Table.{first, update}
use devfootnote_project.Usage.Reservations.{EmbeddingConsent}
use devfootnote_project.Usage.Schema.{Consent}

pub data UsageError : Type 0 where
  not_configured consent_conflict budget_exhausted policy_conflict unavailable : UsageError

-- A result, or the error that a service throws; the transaction then rolls back.
pub data Result {ℓ} (A : Type ℓ) : Type ℓ where
  ok : A → Result A
  err : UsageError → Result A

-- The row that `insert … values ({ ownerId })` makes of the columns' defaults.
abbrev pub new_consent : ℕ → Consent
new_consent owner = record {
  owner_id = owner;
  epoch = 0;
  config_fingerprint = none;
  policy_version = none;
  granted_at = none;
  revoked_at = none;
}

abbrev pub owned_by : ℕ → Consent → Bool
owned_by owner c = c.owner_id == owner

-- `lockConsent` of the repository: the row, made first where there is none.
unfoldable pub lock_row : ℕ → List Consent → Consent × List Consent
lock_row owner rows = elim (first (owned_by owner) rows) [
  | none ↦ (new_consent owner, new_consent owner ∷ rows)
  | some c ↦ (c, rows)
]

abbrev pub is_granted : Consent → Bool
is_granted c = is_some c.granted_at && not (is_some c.revoked_at)

-- `consent` of the service, and `lockConsent` without its row.
abbrev pub view : Consent → EmbeddingConsent
view c = record {
  epoch = c.epoch;
  config_fingerprint = c.config_fingerprint;
  granted = is_granted c;
}

-- What a missing row stands for.
unfoldable pub consent : ℕ → List Consent → EmbeddingConsent
consent owner rows = elim (first (owned_by owner) rows) [
  | none ↦ record { epoch = 0; config_fingerprint = none; granted = false }
  | some c ↦ view c
]

-- The approved policy, as far as a consent records it.
pub record ApprovedPolicy : Type 0 where
  pub fingerprint : ℕ
  pub policy_version : ℕ

abbrev pub grant_row : ℕ → ApprovedPolicy → ℕ → Consent → Consent
grant_row epoch policy now c = record c {
  epoch = epoch;
  config_fingerprint = some policy.fingerprint;
  policy_version = some policy.policy_version;
  granted_at = some now;
  revoked_at = none;
}

abbrev pub revoke_row : ℕ → ℕ → Consent → Consent
revoke_row epoch now c = record c { epoch = epoch; revoked_at = some now }

-- `grant`: the epoch in force afterwards.
unfoldable pub grant : ℕ → ℕ → ApprovedPolicy → ℕ → List Consent → Result (ℕ × List Consent)
grant owner expected policy now rows =
    let (c, locked) = lock_row owner rows in
    if not (c.epoch == expected)
    then err consent_conflict
    else if is_granted c && holds c.config_fingerprint policy.fingerprint
    then ok (c.epoch, locked)
    else ok (c.epoch + 1, update (owned_by owner) (grant_row (c.epoch + 1) policy now) locked)

-- `revoke`: likewise. The reservations stay, since a call may already have cost something.
unfoldable pub revoke : ℕ → ℕ → ℕ → List Consent → Result (ℕ × List Consent)
revoke owner expected now rows =
    let (c, locked) = lock_row owner rows in
    if not (c.epoch == expected)
    then err consent_conflict
    else if not (is_granted c)
    then ok (c.epoch, locked)
    else ok (c.epoch + 1, update (owned_by owner) (revoke_row (c.epoch + 1) now) locked)

-- `grant` of the consent to answers, which first compares the policy that the user saw.
unfoldable pub grant_answers :
    Option ApprovedPolicy → ℕ → ℕ → ℕ → ℕ → List Consent → Result (ℕ × List Consent)
grant_answers configuration owner expected fingerprint now rows = elim configuration [
  | none ↦ err policy_conflict
  | some policy ↦
      if not (policy.fingerprint == fingerprint)
      then err policy_conflict
      else grant owner expected policy now rows
]
