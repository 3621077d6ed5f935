-- ===== src/Auth/Tests.antt =====
-- A session of account 9, signed in at time 0.
use devfootnote_project.Auth.Endings.{logout-ends, refresh_session-one_winner}
use devfootnote_project.Auth.Limits.{HasRefreshed, refresh_session-HasRefreshed}
use devfootnote_project.Auth.ReturnTo.{Url, login_return_to, search_page}
use devfootnote_project.Auth.ReturnTo.Local.{IsPage, begins_here, login_return_to-IsPage}
use devfootnote_project.Auth.Service.{
  Crypto, SessionTokens, TokenClaims, consume_login, issue, logout, refresh_session, refresh_use,
  verify_refresh,
}
use devfootnote_project.Auth.Sessions.{at_first, at_once}
use devfootnote_project.Auth.States.{consume_login-once}
use devfootnote_project.Auth.Store.{AuthTables, RefreshToken, consume_oauth_state, rotate_refresh}
use devfootnote_project.Base.{
  List, Option, [], arith, length, none, refl, some, true, ℕ, ◌++◌, ◌∷◌, ◌≡◌, ◌≢◌,
}

-- A token names its account and its expiry; its digest is its length.
abbrev libraries : Crypto
libraries = record {
  hash = λ text. length text;
  sign = λ input. input.sub ∷ input.exp ∷ [];
  verify = λ now token. some (record { sub = 9; exp = 604800; token_use = refresh_use });
}

abbrev session : RefreshToken
session = record { owner_id = 9; token_hash = 3; created_at = 0; expires_at = 604800000 }

abbrev sessions : AuthTables
sessions = record { accounts = []; refresh_tokens = session ∷ []; oauth_states = [] }

abbrev session_claims : TokenClaims
session_claims = record { sub = 9; exp = 604800; token_use = refresh_use }

abbrev renewed : SessionTokens
renewed = record {
  access = 9 ∷ 1800 ∷ [];
  refresh = 9 ∷ 604800 ∷ [];
  access_expires_at = 1800;
  refresh_expires_at = 604800;
}

abbrev old_token : List ℕ
old_token = 1 ∷ 2 ∷ 3 ∷ []

renewing :
    (refresh_session libraries old_token session_claims 900000 1 2 900000 sessions).0 ≡ some renewed
unfolding refresh_session rotate_refresh issue
renewing = refl

refresh_session-HasRefreshed_example :
    HasRefreshed libraries old_token session_claims 900000 renewed sessions
refresh_session-HasRefreshed_example =
    refresh_session-HasRefreshed libraries old_token session_claims 900000 1 2 900000
      (omega arith, tt) at_first renewing

renewed_digest : libraries.hash renewed.refresh ≢ libraries.hash old_token
renewed_digest e = omega arith

refresh_session-one_winner_example :
    (refresh_session libraries old_token session_claims 900001 3 4 900001
      (refresh_session libraries old_token session_claims 900000 1 2 900000 sessions).1).0
    ≡ none
refresh_session-one_winner_example =
    refresh_session-one_winner libraries old_token session_claims 900000 900001 1 2 3 4 900000
      900001 sessions (omega arith) renewing renewed_digest

verified : verify_refresh libraries 5 old_token ≡ some session_claims
unfolding verify_refresh
verified = refl

logout-ends_example :
    (refresh_session libraries old_token session_claims 900000 1 2 900000
      (logout libraries (some old_token) 5 sessions)).0
    ≡ none
logout-ends_example =
    logout-ends libraries 1 (2 ∷ 3 ∷ []) 5 sessions session_claims session_claims old_token 900000 1
      2 900000 verified at_once refl

abbrev random_text : List ℕ
random_text =
    97 ∷ 97 ∷ 97 ∷ 97 ∷ 97 ∷ 97 ∷ 97 ∷ 97 ∷ 97 ∷ 97 ∷ 97 ∷ 97 ∷ 97 ∷ 97 ∷ 97 ∷ 97 ∷ 97 ∷ 97 ∷ 97
    ∷ 97 ∷ 97 ∷ 97 ∷ 97 ∷ 97 ∷ 97 ∷ 97 ∷ 97 ∷ 97 ∷ 97 ∷ 97 ∷ 97 ∷ 97 ∷ 97 ∷ 97 ∷ 97 ∷ 97 ∷ 97 ∷ 97
    ∷ 97 ∷ 97 ∷ 97 ∷ 97 ∷ 97 ∷ []

abbrev signing_in : AuthTables
signing_in = record sessions {
  oauth_states =
      record { state_hash = 43; binding_hash = 43; expires_at = 300000; return_to = 47 ∷ [] } ∷ [];
}

consuming : (consume_login libraries random_text random_text 1000 signing_in).0 ≡ some (47 ∷ [])
unfolding consume_login consume_oauth_state
consuming = refl

consume_login-once_example :
    (consume_login libraries random_text random_text 1001
      (consume_login libraries random_text random_text 1000 signing_in).1).0
    ≡ none
consume_login-once_example =
    consume_login-once libraries random_text random_text random_text 1000 1001 signing_in (refl, tt)
      consuming

-- A parser that knows one page.
abbrev parse_search : List ℕ → Option Url
parse_search input =
    some
      (record { same_origin = true; pathname = search_page; search = []; hash = []; params = [] })

login_return_to-IsPage_example :
    (begins_here (login_return_to parse_search (some search_page)) ≡ true)
    × ((path : List ℕ) × (rest : List ℕ) × IsPage path
        × (login_return_to parse_search (some search_page) ≡ path ++ rest))
login_return_to-IsPage_example = login_return_to-IsPage parse_search (some search_page)
