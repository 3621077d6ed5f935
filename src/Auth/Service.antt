-- ===== src/Auth/Service.antt =====
-- apps/api/src/modules/auth/services/auth.service.ts and token.service.ts: the sessions. The library
-- that signs and verifies tokens, SHA-256, random texts and the clock are parameters.
use devfootnote_project.Auth.Store.{
  AuthTables, OauthState, RefreshToken, consume_oauth_state, find_or_create_account,
  replace_refresh, revoke_refresh, rotate_refresh, save_oauth_state,
}
use devfootnote_project.Base.{
  Bool, List, Option, [], coalesce, every, if◌then◌else◌, leb, length, none, some, ℕ, ◌&&◌, ◌*◌,
  ◌+◌, ◌/◌, ◌==◌, ◌>>=◌, ◌||◌, ◌∷◌,
}

pub data TokenUse : Type 0 where
  access_use refresh_use : TokenUse

-- `TokenClaims`, as far as the code reads them.
pub record TokenClaims : Type 0 where
  pub sub : ℕ
  pub exp : ℕ
  pub token_use : TokenUse

pub record SessionTokens : Type 0 where
  pub access : List ℕ
  pub refresh : List ℕ
  pub access_expires_at : ℕ
  pub refresh_expires_at : ℕ

-- What `sign` is given besides the options.
pub record SignInput : Type 0 where
  pub sub : ℕ
  pub iat : ℕ
  pub exp : ℕ
  pub jti : ℕ
  pub token_use : TokenUse

-- The libraries: the digest of a text; the signing of claims with the key of their use; and the
-- verification with the key of the refresh tokens, which fails on a bad signature, a wrong issuer or
-- audience, or an expired token, and returns the payload if it has the shape of `TokenClaims`.
pub record Crypto : Type 0 where
  pub hash : List ℕ → ℕ
  pub sign : SignInput → List ℕ
  pub verify : ℕ → List ℕ → Option TokenClaims

abbrev pub access_ttl_seconds : ℕ
access_ttl_seconds = 900

abbrev pub refresh_ttl_seconds : ℕ
refresh_ttl_seconds = 604800

abbrev pub state_ttl_ms : ℕ
state_ttl_ms = 300000

-- `issue` at a time in milliseconds, with two random identifiers.
unfoldable pub issue : Crypto → ℕ → Option ℕ → ℕ → ℕ → ℕ → SessionTokens
issue crypto owner inherited now_ms jti_access jti_refresh =
    let now = now_ms / 1000 in
    let access_exp = now + access_ttl_seconds in
    let refresh_exp = coalesce inherited (now + refresh_ttl_seconds) in
    record {
      access = crypto.sign (record {
        sub = owner;
        iat = now;
        exp = access_exp;
        jti = jti_access;
        token_use = access_use;
      });
      refresh = crypto.sign (record {
        sub = owner;
        iat = now;
        exp = refresh_exp;
        jti = jti_refresh;
        token_use = refresh_use;
      });
      access_expires_at = access_exp;
      refresh_expires_at = refresh_exp;
    }

abbrev pub new_state : Crypto → List ℕ → List ℕ → List ℕ → ℕ → OauthState
new_state crypto return_to state binding now_ms = record {
  state_hash = crypto.hash state;
  binding_hash = crypto.hash binding;
  expires_at = now_ms + state_ttl_ms;
  return_to = return_to;
}

-- `beginLogin` with two random texts; `now_ms` is the service's clock, `now` the database's.
unfoldable pub begin_login :
    Crypto → List ℕ → List ℕ → List ℕ → (OauthState → Bool) → ℕ → ℕ → AuthTables → Option AuthTables
begin_login crypto return_to state binding held now_ms now db = do
  rows ← save_oauth_state held now (new_state crypto return_to state binding now_ms) db.oauth_states
  some (record db { oauth_states = rows })

-- `[\w-]`
abbrev pub in_word : ℕ → Bool
in_word c =
    (leb b'a' c && leb c b'z')
    || (leb b'A' c && leb c b'Z')
    || (leb b'0' c && leb c b'9')
    || (c == b'_')
    || (c == b'-')

-- `/^[\w-]{43}$/`
abbrev pub is_random_text : List ℕ → Bool
is_random_text text = (length text == 43) && every in_word text

-- `consumeOAuthState`; an answer of `none` is the error `denied`. The statement commits in any case.
unfoldable pub consume_login :
    Crypto → List ℕ → List ℕ → ℕ → AuthTables → Option (List ℕ) × AuthTables
consume_login crypto state binding now db =
    let (found, rows) =
      consume_oauth_state (crypto.hash state) (crypto.hash binding) now db.oauth_states in
    if is_random_text state && is_random_text binding
    then (found, record db { oauth_states = rows })
    else (none, db)

-- What a login draws: a new account's identifier and the identifiers of two tokens; and its clocks,
-- of the tokens, of the row's creation and of the database.
pub record LoginSupply : Type 0 where
  pub uuid : ℕ
  pub jti_access : ℕ
  pub jti_refresh : ℕ
  pub issued_ms : ℕ
  pub created_ms : ℕ
  pub now : ℕ
  pub held : RefreshToken → Bool

-- The issuer `https://accounts.google.com`.
abbrev pub google : ℕ
google = 1

abbrev pub new_session : Crypto → ℕ → LoginSupply → SessionTokens → RefreshToken
new_session crypto owner supply tokens = record {
  owner_id = owner;
  token_hash = crypto.hash tokens.refresh;
  created_at = supply.created_ms;
  expires_at = tokens.refresh_expires_at * 1000;
}

-- `completeLogin`; `none` is the error `denied`.
unfoldable pub complete_login :
    Crypto → List ℕ → LoginSupply → AuthTables → Option (SessionTokens × AuthTables)
complete_login crypto [] supply db = none
complete_login crypto (c ∷ cs) supply db =
    elim (find_or_create_account google (c ∷ cs) supply.uuid db.accounts) [
      | none ↦ none
      | some (owner, accounts) ↦
          let tokens =
            issue crypto owner none supply.issued_ms supply.jti_access supply.jti_refresh in
          some (
            tokens,
            record db {
              accounts = accounts;
              refresh_tokens =
                  replace_refresh supply.held supply.now (new_session crypto owner supply tokens)
                    db.refresh_tokens;
            },
          )
    ]

-- `refresh` of a token whose claims have been verified; `none` is the error `denied`, after which
-- the statement stays committed.
unfoldable pub refresh_session :
    Crypto → List ℕ → TokenClaims → ℕ → ℕ → ℕ → ℕ → AuthTables → Option SessionTokens × AuthTables
refresh_session crypto token claims now_ms jti_access jti_refresh now db =
    let tokens = issue crypto claims.sub (some claims.exp) now_ms jti_access jti_refresh in
    let (rotated, rows) =
      rotate_refresh claims.sub (crypto.hash token) (crypto.hash tokens.refresh) (claims.exp * 1000)
        now db.refresh_tokens in
    (if rotated then some tokens else none, record db { refresh_tokens = rows })

-- `verifyRefresh`, with `validateTokenClaims`; `none` is the error `denied`.
unfoldable pub verify_refresh : Crypto → ℕ → List ℕ → Option TokenClaims
verify_refresh crypto now token = elim (crypto.verify now token) [
  | none ↦ none
  | some claims ↦ elim claims.token_use [ refresh_use ↦ some claims | access_use ↦ none ]
]

abbrev pub signed_out : Option TokenClaims → AuthTables → AuthTables
signed_out none db = db
signed_out (some claims) db = record db {
  refresh_tokens = revoke_refresh claims.sub db.refresh_tokens;
}

-- `logout`
unfoldable pub logout : Crypto → Option (List ℕ) → ℕ → AuthTables → AuthTables
logout crypto none now db = db
logout crypto (some []) now db = db
logout crypto (some (c ∷ cs)) now db = signed_out (verify_refresh crypto now (c ∷ cs)) db
