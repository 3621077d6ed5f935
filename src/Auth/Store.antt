-- ===== src/Auth/Store.antt =====
-- packages/db/src/schema/auth.ts, and the statements on its tables:
-- apps/api/src/modules/auth/repositories/auth.repository.ts. A digest is a number. A statement that
-- reads `now()` takes its reading; `none` is an exception, upon which the transaction rolls back.
-- The texts of the errors that `persist` makes of those are not modelled.
use mathlib.Core.Option
use devfootnote_project.Base.{
  Bool, List, Option, [], any, false, if◌then◌else◌, leb, length, ltb, map, none, not, some, take,
  true, ℕ, ◌&&◌, ◌==◌, ◌||◌, ◌∷◌,
}
use devfootnote_project.Base.Table.{delete, first, order_by, select, update}

pub record Account : Type 0 where
  pub id : ℕ
  pub issuer : ℕ
  pub subject : List ℕ

pub record RefreshToken : Type 0 where
  pub owner_id : ℕ
  pub token_hash : ℕ
  pub created_at : ℕ
  pub expires_at : ℕ

pub record OauthState : Type 0 where
  pub state_hash : ℕ
  pub binding_hash : ℕ
  pub expires_at : ℕ
  pub return_to : List ℕ

pub record AuthTables : Type 0 where
  pub accounts : List Account
  pub refresh_tokens : List RefreshToken
  pub oauth_states : List OauthState

abbrev pub cleanup_batch_size : ℕ
cleanup_batch_size = 100

abbrev sooner_state : OauthState → OauthState → Bool
sooner_state a b = leb a.expires_at b.expires_at

abbrev pub is_state : ℕ → OauthState → Bool
is_state hash s = s.state_hash == hash

-- The digests of the states that have expired and that no other transaction holds, at most 100.
unfoldable pub expired_states : (OauthState → Bool) → ℕ → List OauthState → List ℕ
expired_states held now rows =
    map (λ s. s.state_hash)
      (take cleanup_batch_size
        (order_by sooner_state (select (λ s. ltb s.expires_at now && not (held s)) rows)))

-- `saveOAuthState`: the cleanup, then the insert.
unfoldable pub save_oauth_state :
    (OauthState → Bool) → ℕ → OauthState → List OauthState → Option (List OauthState)
save_oauth_state held now new rows =
    let expired = expired_states held now rows in
    let left = delete (λ s. any (λ hash. hash == s.state_hash) expired) rows in
    if any (is_state new.state_hash) left then none else some (new ∷ left)

abbrev pub consumable : ℕ → ℕ → ℕ → OauthState → Bool
consumable state_hash binding_hash now s =
    is_state state_hash s && (s.binding_hash == binding_hash) && ltb now s.expires_at

-- `consumeOAuthState`: the page to return to, if a state was there, and the rows without it.
unfoldable pub consume_oauth_state : ℕ → ℕ → ℕ → List OauthState → Option (List ℕ) × List OauthState
consume_oauth_state state_hash binding_hash now rows = (
  Option.map (λ (s : OauthState). s.return_to)
      (first (consumable state_hash binding_hash now) rows),
  delete (consumable state_hash binding_hash now) rows,
)

abbrev same_subject : List ℕ → List ℕ → Bool
same_subject [] [] = true
same_subject (c ∷ cs) (d ∷ ds) = (c == d) && same_subject cs ds
same_subject _ _ = false

abbrev pub is_account : ℕ → List ℕ → Account → Bool
is_account issuer subject a = (a.issuer == issuer) && same_subject a.subject subject

abbrev account_conflicts : Account → Account → Bool
account_conflicts new old = (old.id == new.id) || is_account new.issuer new.subject old

-- `findOrCreateAccount`; `none` is the error `denied`.
unfoldable pub find_or_create_account : ℕ → List ℕ → ℕ → List Account → Option (ℕ × List Account)
find_or_create_account issuer subject uuid rows =
    let new : Account = record { id = uuid; issuer = issuer; subject = subject } in
    let inserted = if any (account_conflicts new) rows then rows else new ∷ rows in
    Option.map (λ (a : Account). (a.id, inserted)) (first (is_account issuer subject) inserted)

abbrev sooner_token : RefreshToken → RefreshToken → Bool
sooner_token a b = leb a.expires_at b.expires_at

abbrev pub is_owned : ℕ → RefreshToken → Bool
is_owned owner t = t.owner_id == owner

unfoldable pub expired_owners : (RefreshToken → Bool) → ℕ → List RefreshToken → List ℕ
expired_owners held now rows =
    map (λ t. t.owner_id)
      (take cleanup_batch_size
        (order_by sooner_token (select (λ t. ltb t.expires_at now && not (held t)) rows)))

-- `replaceRefresh`: the cleanup, then `insert … on conflict (owner_id) do update`.
unfoldable pub replace_refresh :
    (RefreshToken → Bool) → ℕ → RefreshToken → List RefreshToken → List RefreshToken
replace_refresh held now new rows =
    let expired = expired_owners held now rows in
    let left = delete (λ t. any (λ owner. owner == t.owner_id) expired) rows in
    if any (is_owned new.owner_id) left
    then update (is_owned new.owner_id) (λ t. new) left
    else new ∷ left

abbrev pub rotatable : ℕ → ℕ → ℕ → ℕ → RefreshToken → Bool
rotatable owner current expires_at now t =
    is_owned owner t
    && (t.token_hash == current)
    && (t.expires_at == expires_at)
    && ltb now t.expires_at

-- `rotateRefresh`: whether exactly one row was changed, and the rows.
unfoldable pub rotate_refresh : ℕ → ℕ → ℕ → ℕ → ℕ → List RefreshToken → Bool × List RefreshToken
rotate_refresh owner current next_hash expires_at now rows = (
  length (select (rotatable owner current expires_at now) rows) == 1,
  update (rotatable owner current expires_at now) (λ t. record t { token_hash = next_hash }) rows,
)

-- `revokeRefresh`
unfoldable pub revoke_refresh : ℕ → List RefreshToken → List RefreshToken
revoke_refresh owner rows = delete (is_owned owner) rows
