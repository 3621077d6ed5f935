-- ===== src/Auth/Sessions.antt =====
-- The sessions over time: every transaction of the service on the tables is one step.
use devfootnote_project.Auth.Service.{
  Crypto, LoginSupply, SessionTokens, TokenClaims, begin_login, complete_login, consume_login,
  google, issue, logout, new_session, new_state, refresh_session, signed_out, verify_refresh,
}
use devfootnote_project.Auth.Store.{
  Account, AuthTables, OauthState, RefreshToken, find_or_create_account, replace_refresh,
  revoke_refresh, rotate_refresh, save_oauth_state,
}
use devfootnote_project.Base.{
  Bool, List, Option, [], arith, bind-some, false, holds, none, some, subst, sym, ℕ, ◌∷◌, ◌≡◌, ◌≤◌,
}

-- A step, and the account that it signs in, if it does. The clock of a login does not go back
-- between the issue of the tokens and the row.
pub data Step (crypto : Crypto) (db : AuthTables) : Option ℕ → AuthTables → Type 0 where
  begins :
      (return_to state binding : List ℕ) (held : OauthState → Bool) (now_ms now : ℕ)
      (after : AuthTables)
      → begin_login crypto return_to state binding held now_ms now db ≡ some after
      → Step crypto db none after
  consumes :
      (state binding : List ℕ) (now : ℕ)
      → Step crypto db none (consume_login crypto state binding now db).1
  signs_in :
      (owner : ℕ) (accounts : List Account) (subject : List ℕ) (supply : LoginSupply)
      (tokens : SessionTokens) (after : AuthTables)
      → supply.issued_ms ≤ supply.created_ms
      → find_or_create_account google subject supply.uuid db.accounts ≡ some (owner, accounts)
      → complete_login crypto subject supply db ≡ some (tokens, after)
      → Step crypto db (some owner) after
  refreshes :
      (token : List ℕ) (claims : TokenClaims) (now_ms jti_access jti_refresh now : ℕ)
      → Step crypto db none
          (refresh_session crypto token claims now_ms jti_access jti_refresh now db).1
  signs_out : (token : Option (List ℕ)) (now : ℕ) → Step crypto db none (logout crypto token now db)

pub data Reach (crypto : Crypto) (db : AuthTables) : AuthTables → Type 0 where
  at_first : Reach crypto db db
  then_step :
      {u v : AuthTables} {who : Option ℕ}
      → Reach crypto db u
      → Step crypto u who v
      → Reach crypto db v

-- The steps of a path that does not sign an account in.
pub data ReachWithout (crypto : Crypto) (owner : ℕ) (db : AuthTables) : AuthTables → Type 0 where
  at_once : ReachWithout crypto owner db db
  then_other :
      {u v : AuthTables} {who : Option ℕ}
      → ReachWithout crypto owner db u
      → Step crypto u who v
      → holds who owner ≡ false
      → ReachWithout crypto owner db v

-- What a step does to the rows of the sessions.
pub data RowChange (crypto : Crypto) (rows : List RefreshToken)
    : Option ℕ → List RefreshToken → Type 0 where
  stays : RowChange crypto rows none rows
  signed_in :
      (owner : ℕ) (supply : LoginSupply)
      → supply.issued_ms ≤ supply.created_ms
      → RowChange crypto rows (some owner) (
          replace_refresh supply.held supply.now
            (new_session crypto owner supply
              (issue crypto owner none supply.issued_ms supply.jti_access supply.jti_refresh))
            rows)
  rotated :
      (owner current next_hash expires_at now : ℕ)
      → RowChange crypto rows none (rotate_refresh owner current next_hash expires_at now rows).1
  revoked : (owner : ℕ) → RowChange crypto rows none (revoke_refresh owner rows)

complete_login-rows :
    (crypto : Crypto) (subject : List ℕ) (supply : LoginSupply) (db : AuthTables) {owner : ℕ}
    {accounts : List Account} {tokens : SessionTokens} {after : AuthTables}
    → find_or_create_account google subject supply.uuid db.accounts ≡ some (owner, accounts)
    → complete_login crypto subject supply db ≡ some (tokens, after)
    → after.refresh_tokens
      ≡ replace_refresh supply.held supply.now
          (new_session crypto owner supply
            (issue crypto owner none supply.issued_ms supply.jti_access supply.jti_refresh))
          db.refresh_tokens
unfolding complete_login
complete_login-rows crypto [] supply db e h = cc
complete_login-rows crypto (c ∷ cs) supply db e h = ground arith

begin_login-rows :
    (crypto : Crypto) (return_to state binding : List ℕ) (held : OauthState → Bool) (now_ms now : ℕ)
    (db : AuthTables) {after : AuthTables}
    → begin_login crypto return_to state binding held now_ms now db ≡ some after
    → after.refresh_tokens ≡ db.refresh_tokens
unfolding begin_login
begin_login-rows crypto return_to state binding held now_ms now db {after} e =
    let (rows, _, e_after) =
      bind-some
        (save_oauth_state held now (new_state crypto return_to state binding now_ms)
          db.oauth_states)
        _ e in
    ground arith

consume_login-rows :
    (crypto : Crypto) (state binding : List ℕ) (now : ℕ) (db : AuthTables)
    → (consume_login crypto state binding now db).1.refresh_tokens ≡ db.refresh_tokens
unfolding consume_login
consume_login-rows crypto state binding now db = ground arith

logout-rows :
    (crypto : Crypto) (token : Option (List ℕ)) (now : ℕ) (db : AuthTables)
    → RowChange crypto db.refresh_tokens none (logout crypto token now db).refresh_tokens
unfolding logout
logout-rows crypto none now db = stays
logout-rows crypto (some []) now db = stays
logout-rows crypto (some (c ∷ cs)) now db = go (verify_refresh crypto now (c ∷ cs))
  where
    go :
        (o : Option TokenClaims)
        → RowChange crypto db.refresh_tokens none (signed_out o db).refresh_tokens
    go none = stays
    go (some claims) = revoked claims.sub

pub Step-RowChange :
    (crypto : Crypto) {db after : AuthTables} {who : Option ℕ}
    → Step crypto db who after
    → RowChange crypto db.refresh_tokens who after.refresh_tokens
unfolding refresh_session
Step-RowChange crypto {db} (begins return_to state binding held now_ms now after e) =
    subst (RowChange crypto db.refresh_tokens none)
      (sym (begin_login-rows crypto return_to state binding held now_ms now db e)) stays
Step-RowChange crypto {db} (consumes state binding now) =
    subst (RowChange crypto db.refresh_tokens none)
      (sym (consume_login-rows crypto state binding now db)) stays
Step-RowChange crypto {db} (signs_in owner accounts subject supply tokens after later e h) =
    subst (RowChange crypto db.refresh_tokens (some owner))
      (sym (complete_login-rows crypto subject supply db e h)) (signed_in owner supply later)
Step-RowChange crypto {db} (refreshes token claims now_ms jti_access jti_refresh now) =
    rotated claims.sub _ _ _ now
Step-RowChange crypto {db} (signs_out token now) = logout-rows crypto token now db
