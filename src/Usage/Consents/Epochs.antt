-- ===== src/Usage/Consents/Epochs.antt =====
-- The epochs of a consent.
use devfootnote_project.Base.{
  List, [], arith, false, refl, some, sym, true, ℕ, ◌+◌, ◌∙◌, ◌∷◌, ◌≡◌, ◌≢◌, ◌⊎◌,
}
use devfootnote_project.Base.Table.{first, update}
use devfootnote_project.Usage.Consents.{
  ApprovedPolicy, Result, consent, consent_conflict, err, grant, grant_row, lock_row, ok, owned_by,
  revoke, revoke_row, view,
}
use devfootnote_project.Usage.Schema.{Consent}

lock_row-first :
    (owner : ℕ) (rows : List Consent)
    → first (owned_by owner) (lock_row owner rows).1 ≡ some (lock_row owner rows).0
unfolding lock_row
lock_row-first owner rows = ground arith

lock_row-consent :
    (owner : ℕ) (rows : List Consent) → consent owner rows ≡ view (lock_row owner rows).0
unfolding consent lock_row
lock_row-consent owner rows = ground arith

first-update_row :
    (owner : ℕ) (f : Consent → Consent) (rows : List Consent) {c : Consent}
    → ((x : Consent) → (f x).owner_id ≡ x.owner_id)
    → first (owned_by owner) rows ≡ some c
    → first (owned_by owner) (update (owned_by owner) f rows) ≡ some (f c)
first-update_row owner f [] same_owner h = cc
first-update_row owner f (x ∷ rows) {c} same_owner h =
    ground (arith, same_owner x, first-update_row owner f rows {c = c} same_owner)

consent-of_first :
    (owner : ℕ) (rows : List Consent) {c : Consent}
    → first (owned_by owner) rows ≡ some c
    → consent owner rows ≡ view c
unfolding consent
consent-of_first owner rows {c} h = ground arith

-- The consent that the lock and then an update of the row leave.
consent-locked :
    (owner : ℕ) (rows : List Consent) → consent owner (lock_row owner rows).1 ≡ consent owner rows
consent-locked owner rows =
    consent-of_first owner (lock_row owner rows).1 (lock_row-first owner rows)
    ∙ sym (lock_row-consent owner rows)

consent-updated :
    (owner : ℕ) (f : Consent → Consent) (rows : List Consent)
    → ((x : Consent) → (f x).owner_id ≡ x.owner_id)
    → consent owner (update (owned_by owner) f (lock_row owner rows).1)
      ≡ view (f (lock_row owner rows).0)
consent-updated owner f rows same_owner =
    consent-of_first owner (update (owned_by owner) f (lock_row owner rows).1)
      (first-update_row owner f (lock_row owner rows).1 same_owner (lock_row-first owner rows))

-- What a change of the consent leaves: either nothing changed, or the epoch is the next one.
abbrev pub Raises : ℕ → ℕ → List Consent → Result (ℕ × List Consent) → Type 0
Raises owner expected rows (ok (epoch, after)) =
    ((consent owner rows).epoch ≡ expected)
    × ((consent owner after).epoch ≡ epoch)
    × (((epoch ≡ expected) × (consent owner after ≡ consent owner rows)) ⊎ (epoch ≡ expected + 1))
Raises owner expected rows (err e) =
    (e ≡ consent_conflict) × ((consent owner rows).epoch ≢ expected)

-- A grant fails exactly on a stale epoch. One that succeeds returns the epoch in force afterwards:
-- the expected one, and then the consent is as it was, or the next one.
pub grant-Raises :
    (owner expected now : ℕ) (policy : ApprovedPolicy) (rows : List Consent)
    → Raises owner expected rows (grant owner expected policy now rows)
unfolding grant
grant-Raises owner expected now policy rows = ground (
  arith,
  lock_row-consent owner rows,
  consent-locked owner rows,
  consent-updated owner (grant_row ((lock_row owner rows).0.epoch + 1) policy now) rows (λ x. refl),
)

-- The same of a revocation.
pub revoke-Raises :
    (owner expected now : ℕ) (rows : List Consent)
    → Raises owner expected rows (revoke owner expected now rows)
unfolding revoke
revoke-Raises owner expected now rows = ground (
  arith,
  lock_row-consent owner rows,
  consent-locked owner rows,
  consent-updated owner (revoke_row ((lock_row owner rows).0.epoch + 1) now) rows (λ x. refl),
)

-- After a grant the consent is granted for the policy.
pub grant-granted :
    (owner expected now : ℕ) (policy : ApprovedPolicy) (rows : List Consent) {epoch : ℕ}
    {after : List Consent}
    → grant owner expected policy now rows ≡ ok (epoch, after)
    → consent owner after
      ≡ record { epoch = epoch; config_fingerprint = some policy.fingerprint; granted = true }
unfolding grant
grant-granted owner expected now policy rows h = ground (
  arith,
  lock_row-consent owner rows,
  consent-locked owner rows,
  consent-updated owner (grant_row ((lock_row owner rows).0.epoch + 1) policy now) rows (λ x. refl),
)

-- After a revocation the consent is not granted.
pub revoke-not_granted :
    (owner expected now : ℕ) (rows : List Consent) {epoch : ℕ} {after : List Consent}
    → revoke owner expected now rows ≡ ok (epoch, after)
    → (consent owner after).granted ≡ false
unfolding revoke
revoke-not_granted owner expected now rows h = ground (
  arith,
  lock_row-consent owner rows,
  consent-locked owner rows,
  consent-updated owner (revoke_row ((lock_row owner rows).0.epoch + 1) now) rows (λ x. refl),
)
