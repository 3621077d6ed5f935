-- ===== src/Auth/Endings.antt =====
-- When a refresh token stops to work: after it has been used, and after a logout.
use devfootnote_project.Auth.Service.{
  Crypto, SessionTokens, TokenClaims, issue, logout, refresh_session, signed_out, verify_refresh,
}
use devfootnote_project.Auth.Sessions.{
  ReachWithout, RowChange, Step-RowChange, at_once, revoked, rotated, signed_in, stays, then_other,
}
use devfootnote_project.Auth.Store.{
  AuthTables, RefreshToken, expired_owners, is_owned, replace_refresh, revoke_refresh, rotatable,
  rotate_refresh,
}
use devfootnote_project.Base.{
  Bool, Bool-cases, List, Option, [], any, arith, false, holds, inl, inr, length, none, refl, some,
  subst, sym, true, ℕ, ◌*◌, ◌==◌, ◌∷◌, ◌≡◌, ◌≢◌, ◌≤◌,
}
use devfootnote_project.Base.Table.{delete, select, update}

-- The account has no session.
abbrev pub SignedOut : ℕ → List RefreshToken → Type 0
SignedOut owner rows = any (is_owned owner) rows ≡ false

any-update_owner :
    (owner : ℕ) (p : RefreshToken → Bool) (f : RefreshToken → RefreshToken)
    (rows : List RefreshToken)
    → ((t : RefreshToken) → is_owned owner t ≡ false → is_owned owner (f t) ≡ false)
    → SignedOut owner rows
    → SignedOut owner (update p f rows)
any-update_owner owner p f [] apart out = refl
any-update_owner owner p f (t ∷ rows) apart out =
    ground (arith, apart t, any-update_owner owner p f rows apart)

any-delete_owner :
    (owner : ℕ) (p : RefreshToken → Bool) (rows : List RefreshToken)
    → SignedOut owner rows
    → SignedOut owner (delete p rows)
any-delete_owner owner p [] out = refl
any-delete_owner owner p (t ∷ rows) out = ground (arith, any-delete_owner owner p rows)

any-delete_own :
    (owner : ℕ) (rows : List RefreshToken) → SignedOut owner (delete (is_owned owner) rows)
any-delete_own owner [] = refl
any-delete_own owner (t ∷ rows) = ground (arith, any-delete_own owner rows)

replace_refresh-SignedOut :
    (owner : ℕ) (held : RefreshToken → Bool) (now : ℕ) (new : RefreshToken)
    (rows : List RefreshToken)
    → is_owned owner new ≡ false
    → SignedOut owner rows
    → SignedOut owner (replace_refresh held now new rows)
unfolding replace_refresh
replace_refresh-SignedOut owner held now new rows other_owner out =
    let expired = λ (t : RefreshToken). any (λ o. o == t.owner_id) (expired_owners held now rows) in
    let left = delete expired rows in
    let out_left = any-delete_owner owner expired rows out in
    elim (Bool-cases (any (is_owned new.owner_id) left)) [
      | inl there ↦ rw there (
          any-update_owner owner (is_owned new.owner_id) (λ t. new) left (λ t h. other_owner)
            out_left)
      | inr absent ↦ rw absent (rw other_owner out_left)
    ]

RowChange-SignedOut :
    (crypto : Crypto) (owner : ℕ) {rows after : List RefreshToken} {who : Option ℕ}
    → RowChange crypto rows who after
    → holds who owner ≡ false
    → SignedOut owner rows
    → SignedOut owner after
unfolding rotate_refresh revoke_refresh
RowChange-SignedOut crypto owner stays other_owner out = out
RowChange-SignedOut crypto owner {rows} (signed_in o supply later) other_owner out =
    replace_refresh-SignedOut owner supply.held supply.now _ rows other_owner out
RowChange-SignedOut crypto owner {rows} (rotated o current next_hash expires_at now) other_owner
      out =
    any-update_owner owner (rotatable o current expires_at now)
      (λ t. record t { token_hash = next_hash }) rows (λ t h. h) out
RowChange-SignedOut crypto owner {rows} (revoked o) other_owner out =
    any-delete_owner owner (is_owned o) rows out

ReachWithout-SignedOut :
    (crypto : Crypto) (owner : ℕ) {db after : AuthTables}
    → ReachWithout crypto owner db after
    → SignedOut owner db.refresh_tokens
    → SignedOut owner after.refresh_tokens
ReachWithout-SignedOut crypto owner at_once out = out
ReachWithout-SignedOut crypto owner (then_other path step other_owner) out =
    RowChange-SignedOut crypto owner (Step-RowChange crypto step) other_owner
      (ReachWithout-SignedOut crypto owner path out)

select-none :
    (owner : ℕ) (p : RefreshToken → Bool) (rows : List RefreshToken)
    → ((t : RefreshToken) → p t ≡ true → is_owned owner t ≡ true)
    → SignedOut owner rows
    → select p rows ≡ []
select-none owner p [] owns out = refl
select-none owner p (t ∷ rows) owns out = ground (arith, owns t, select-none owner p rows owns)

logout-SignedOut :
    (crypto : Crypto) (c : ℕ) (cs : List ℕ) (now : ℕ) (db : AuthTables) (claims : TokenClaims)
    → verify_refresh crypto now (c ∷ cs) ≡ some claims
    → SignedOut claims.sub (logout crypto (some (c ∷ cs)) now db).refresh_tokens
unfolding logout revoke_refresh
logout-SignedOut crypto c cs now db claims e =
    subst (λ o. SignedOut claims.sub (signed_out o db).refresh_tokens) (sym e)
      (any-delete_own claims.sub db.refresh_tokens)

-- After a logout with a token that verifies, no refresh for its account succeeds, with whatever
-- token, until the account signs in again: not after any sequence of other accounts' logins and of
-- refreshes, logouts and sign-ins begun or consumed.
pub logout-ends :
    (crypto : Crypto) (c : ℕ) (cs : List ℕ) (out_at : ℕ) (db : AuthTables) {after : AuthTables}
    (claims later_claims : TokenClaims) (token : List ℕ) (now_ms jti_access jti_refresh now : ℕ)
    → verify_refresh crypto out_at (c ∷ cs) ≡ some claims
    → ReachWithout crypto claims.sub (logout crypto (some (c ∷ cs)) out_at db) after
    → later_claims.sub ≡ claims.sub
    → (refresh_session crypto token later_claims now_ms jti_access jti_refresh now after).0 ≡ none
unfolding refresh_session rotate_refresh
logout-ends crypto c cs out_at db {after} claims later_claims token now_ms jti_access jti_refresh
      now e path same_owner =
    let out =
      ReachWithout-SignedOut crypto claims.sub path
        (logout-SignedOut crypto c cs out_at db claims e) in
    let nothing =
      select-none claims.sub
        (rotatable later_claims.sub (crypto.hash token) (later_claims.exp * 1000) now)
        after.refresh_tokens (λ t h. ground arith) out in
    rw nothing refl

==-false : (a b : ℕ) → a ≢ b → (a == b) ≡ false
==-false a b differs = ground arith

select-rotated :
    (owner current next_hash expires_at now later : ℕ) (rows : List RefreshToken)
    → now ≤ later
    → next_hash ≢ current
    → select (rotatable owner current expires_at later) (
        update
          (rotatable owner current expires_at now)
          (λ t. record t { token_hash = next_hash })
          rows)
      ≡ []
select-rotated owner current next_hash expires_at now later [] after_it differs = refl
select-rotated owner current next_hash expires_at now later (t ∷ rows) after_it differs = ground (
  arith,
  ==-false next_hash current differs,
  select-rotated owner current next_hash expires_at now later rows after_it differs,
)

-- Of two refreshes with the same token one at most succeeds: once a refresh has been made, a later one
-- with the same token and the same claims is denied, if the digest of the token that the first one
-- was given is another.
pub refresh_session-one_winner :
    (crypto : Crypto) (token : List ℕ) (claims : TokenClaims)
    (now_ms later_ms jti_access jti_refresh jti_access' jti_refresh' now later : ℕ)
    (db : AuthTables) {tokens : SessionTokens}
    → now ≤ later
    → (refresh_session crypto token claims now_ms jti_access jti_refresh now db).0 ≡ some tokens
    → crypto.hash tokens.refresh ≢ crypto.hash token
    → (refresh_session crypto token claims later_ms jti_access' jti_refresh' later
        (refresh_session crypto token claims now_ms jti_access jti_refresh now db).1).0
      ≡ none
unfolding refresh_session rotate_refresh
refresh_session-one_winner crypto token claims now_ms later_ms jti_access jti_refresh jti_access'
      jti_refresh' now later db {tokens} after_it e differs =
    let given = issue crypto claims.sub (some claims.exp) now_ms jti_access jti_refresh in
    let p = rotatable claims.sub (crypto.hash token) (claims.exp * 1000) now in
    let same_tokens : given ≡ tokens =
      elim (Bool-cases (length (select p db.refresh_tokens) == 1)) [
        | inl one_rotated ↦ ground arith
        | inr none_rotated ↦ absurd (ground arith)
      ] in
    let nothing =
      select-rotated claims.sub (crypto.hash token) (crypto.hash given.refresh) (claims.exp * 1000)
        now later db.refresh_tokens after_it
        (subst (λ (x : SessionTokens). crypto.hash x.refresh ≢ crypto.hash token) (sym same_tokens)
          differs) in
    rw nothing refl
