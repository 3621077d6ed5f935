-- ===== src/Auth/Limits.antt =====
-- No session outlives seven days from its login, however often it is refreshed.
use devfootnote_project.Auth.Service.{
  Crypto, LoginSupply, SessionTokens, TokenClaims, issue, new_session, refresh_session,
}
use devfootnote_project.Auth.Sessions.{
  Reach, RowChange, Step-RowChange, at_first, revoked, rotated, signed_in, stays, then_step,
}
use devfootnote_project.Auth.Store.{
  AuthTables, RefreshToken, expired_owners, is_owned, replace_refresh, revoke_refresh, rotatable,
  rotate_refresh,
}
use devfootnote_project.Base.{
  Bool, Bool-cases, List, Option, [], any, arith, inl, inr, length, none, refl, some, true, ℕ, ◌*◌,
  ◌+◌, ◌<◌, ◌==◌, ◌∷◌, ◌≡◌, ◌≤◌,
}
use devfootnote_project.Base.Table.{
  All, All-delete, All-first, All-update, delete, first, first-holds, select,
}

-- Seven days, in milliseconds.
abbrev pub session_ms : ℕ
session_ms = 604800000

abbrev pub IsLimited : RefreshToken → Type 0
IsLimited t = t.expires_at ≤ t.created_at + session_ms

new_session-IsLimited :
    (crypto : Crypto) (owner : ℕ) (supply : LoginSupply)
    → supply.issued_ms ≤ supply.created_ms
    → IsLimited (
        new_session crypto owner supply
          (issue crypto owner none supply.issued_ms supply.jti_access supply.jti_refresh))
unfolding issue
new_session-IsLimited crypto owner supply later = omega (arith, later)

replace_refresh-All :
    (P : RefreshToken → Type 0) (held : RefreshToken → Bool) (now : ℕ) (new : RefreshToken)
    (rows : List RefreshToken)
    → P new
    → All P rows
    → All P (replace_refresh held now new rows)
unfolding replace_refresh
replace_refresh-All P held now new rows fits all =
    let left =
      delete (λ t. any (λ owner. owner == t.owner_id) (expired_owners held now rows)) rows in
    let all_left : All P left = All-delete P _ rows all in
    elim (Bool-cases (any (is_owned new.owner_id) left)) [
      | inl there ↦
          rw there (All-update (is_owned new.owner_id) (λ t. new) P left (λ x p h. fits) all_left)
      | inr absent ↦ rw absent (fits, all_left)
    ]

RowChange-IsLimited :
    (crypto : Crypto) {rows after : List RefreshToken} {who : Option ℕ}
    → RowChange crypto rows who after
    → All IsLimited rows
    → All IsLimited after
unfolding rotate_refresh revoke_refresh
RowChange-IsLimited crypto stays all = all
RowChange-IsLimited crypto {rows} (signed_in owner supply later) all =
    replace_refresh-All IsLimited supply.held supply.now _ rows
      (new_session-IsLimited crypto owner supply later) all
RowChange-IsLimited crypto {rows} (rotated owner current next_hash expires_at now) all =
    All-update (rotatable owner current expires_at now) (λ t. record t { token_hash = next_hash })
      IsLimited rows (λ x p h. h) all
RowChange-IsLimited crypto {rows} (revoked owner) all =
    All-delete IsLimited (is_owned owner) rows all

pub Reach-IsLimited :
    (crypto : Crypto) {db after : AuthTables}
    → Reach crypto db after
    → All IsLimited db.refresh_tokens
    → All IsLimited after.refresh_tokens
Reach-IsLimited crypto at_first all = all
Reach-IsLimited crypto (then_step path step) all =
    RowChange-IsLimited crypto (Step-RowChange crypto step) (Reach-IsLimited crypto path all)

-- What a refresh that succeeds has found.
pub record HasRefreshed (crypto : Crypto) (token : List ℕ) (claims : TokenClaims) (now : ℕ)
    (tokens : SessionTokens) (db : AuthTables) : Type 0 where
  pub session : RefreshToken
  pub found :
      first (rotatable claims.sub (crypto.hash token) (claims.exp * 1000) now) db.refresh_tokens
      ≡ some session
  pub inherited : tokens.refresh_expires_at ≡ claims.exp
  pub in_time : now < tokens.refresh_expires_at * 1000
  pub limited : tokens.refresh_expires_at * 1000 ≤ session.created_at + session_ms

select-first :
    (p : RefreshToken → Bool) (rows : List RefreshToken)
    → (length (select p rows) == 1) ≡ true
    → (t : RefreshToken) × (first p rows ≡ some t)
select-first p [] e = absurd (ground arith)
select-first p (t ∷ rows) e = elim (Bool-cases (p t)) [
  | inl yes_t ↦ (t, rw yes_t refl)
  | inr no_t ↦ let (found, e_found) = select-first p rows (ground arith) in (found, rw no_t e_found)
]

-- From empty tables of sessions or any in which no session outlives seven days, after any sequence
-- of logins, refreshes, logouts and consumed or begun sign-ins: a refresh that succeeds was asked
-- with the token of the current row of its account, keeps the expiry of that token, and so gives a
-- token that expires at most seven days after the login that made the row, and not in the past.
pub refresh_session-HasRefreshed :
    (crypto : Crypto) {db after : AuthTables} (token : List ℕ) (claims : TokenClaims)
    (now_ms jti_access jti_refresh now : ℕ) {tokens : SessionTokens}
    → All IsLimited db.refresh_tokens
    → Reach crypto db after
    → (refresh_session crypto token claims now_ms jti_access jti_refresh now after).0 ≡ some tokens
    → HasRefreshed crypto token claims now tokens after
unfolding refresh_session rotate_refresh issue
refresh_session-HasRefreshed crypto {db} {after} token claims now_ms jti_access jti_refresh now
      {tokens} all path e =
    let p = rotatable claims.sub (crypto.hash token) (claims.exp * 1000) now in
    elim (Bool-cases (length (select p after.refresh_tokens) == 1)) [
      | inr none_rotated ↦ absurd (ground arith)
      | inl one_rotated ↦
          let (session, found) = select-first p after.refresh_tokens one_rotated in
          let passes : p session ≡ true = first-holds p after.refresh_tokens found in
          let limited =
            All-first IsLimited p after.refresh_tokens (Reach-IsLimited crypto path all) found in
          let same_exp : tokens.refresh_expires_at ≡ claims.exp = ground arith in
          record {
            session = session;
            found = found;
            inherited = same_exp;
            in_time = ground arith;
            limited = ground arith;
          }
    ]
