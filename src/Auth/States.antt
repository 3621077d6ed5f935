-- ===== src/Auth/States.antt =====
-- A sign-in that was begun is completed at most once.
use devfootnote_project.Auth.Service.{Crypto, consume_login}
use devfootnote_project.Auth.Store.{
  AuthTables, OauthState, consumable, consume_oauth_state, is_state,
}
use devfootnote_project.Base.{
  Bool, Bool-cases, List, Option-cases, [], any, arith, false, inl, inr, none, refl, same, some,
  subst, true, ℕ, ◌==◌, ◌∷◌, ◌≡◌,
}
use devfootnote_project.Base.Keys.{Keyed}
use devfootnote_project.Base.Table.{delete, first}

abbrev pub hashes : OauthState → ℕ
hashes s = s.state_hash

none-left :
    (state_hash binding now : ℕ) (p : OauthState → Bool) (rows : List OauthState)
    → any (is_state state_hash) rows ≡ false
    → first (consumable state_hash binding now) (delete p rows) ≡ none
none-left state_hash binding now p [] free = refl
none-left state_hash binding now p (s ∷ rows) free =
    ground (arith, none-left state_hash binding now p rows)

any-found :
    (state_hash binding now : ℕ) (rows : List OauthState) {s : OauthState}
    → first (consumable state_hash binding now) rows ≡ some s
    → any (is_state state_hash) rows ≡ true
any-found state_hash binding now [] e = cc
any-found state_hash binding now (s ∷ rows) {s = found} e =
    ground (arith, any-found state_hash binding now rows {s = found})

any-same_hash :
    (h : ℕ) (x : OauthState) (rows : List OauthState)
    → x.state_hash ≡ h
    → any (λ y. hashes y == hashes x) rows ≡ false
    → any (is_state h) rows ≡ false
any-same_hash h x rows e free = subst (λ k. any (is_state k) rows ≡ false) e free

consumed-gone :
    (state_hash binding other now later : ℕ) (rows : List OauthState) {s : OauthState}
    → Keyed hashes rows
    → first (consumable state_hash binding now) rows ≡ some s
    → first (consumable state_hash other later) (delete (consumable state_hash binding now) rows)
      ≡ none
consumed-gone state_hash binding other now later [] keyed e = refl
consumed-gone state_hash binding other now later (x ∷ rows) {s} (apart, keyed) e =
    elim (Bool-cases (consumable state_hash binding now x)) [
      | inl taken ↦
          let same : x.state_hash ≡ state_hash = ground arith in
          rw taken (
            none-left state_hash other later (consumable state_hash binding now) rows
              (any-same_hash state_hash x rows same apart))
      | inr kept ↦
          let e_rest : first (consumable state_hash binding now) rows ≡ some s = ground arith in
          let rest = consumed-gone state_hash binding other now later rows {s = s} keyed e_rest in
          let there = any-found state_hash binding now rows e_rest in
          elim (Bool-cases (is_state state_hash x)) [
            | inl same ↦
                absurd
                  (let free = any-same_hash state_hash x rows (ground arith) apart in ground arith)
            | inr differs ↦ rw kept (rw differs rest)
          ]
    ]

-- Once a sign-in has been consumed, to consume its state again is denied, with whatever binding and
-- however soon. (No two rows have the same state.)
pub consume_login-once :
    (crypto : Crypto) (state binding other : List ℕ) (now later : ℕ) (db : AuthTables)
    {return_to : List ℕ}
    → Keyed hashes db.oauth_states
    → (consume_login crypto state binding now db).0 ≡ some return_to
    → (consume_login crypto state other later (consume_login crypto state binding now db).1).0
      ≡ none
unfolding consume_login consume_oauth_state
consume_login-once crypto state binding other now later db {return_to} keyed e =
    elim (Option-cases
      (first (consumable (crypto.hash state) (crypto.hash binding) now) db.oauth_states)) [
        | inl missing ↦ absurd (ground arith)
        | inr (s, found) ↦
            let gone =
              consumed-gone (crypto.hash state) (crypto.hash binding) (crypto.hash other) now later
                db.oauth_states keyed found in
            ground arith
      ]
