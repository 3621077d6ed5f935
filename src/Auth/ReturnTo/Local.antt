-- ===== src/Auth/ReturnTo/Local.antt =====
-- A sign-in returns to a page of this site.
use devfootnote_project.Auth.ReturnTo.{
  Url, is_allowed, is_document, is_refused, library, login_return_to, same_text, search_page,
}
use devfootnote_project.Base.{
  Bool, Bool-cases, List, Option, [], arith, false, if◌then◌else◌, inl, inr, none, not, refl, some,
  subst, true, ℕ, ◌&&◌, ◌++◌, ◌==◌, ◌∷◌, ◌≡◌,
}

-- The pages that a sign-in may return to.
pub data IsPage : List ℕ → Type 0 where
  the_library : IsPage library
  the_search : IsPage search_page
  a_document : {path : List ℕ} → is_document path ≡ true → IsPage path

-- A path of this site: one slash, and no second slash or backslash that would name another host.
abbrev pub begins_here : List ℕ → Bool
begins_here (c ∷ d ∷ cs) = (c == b'/') && not (d == b'/') && not (d == 92)
begins_here _ = false

same_text-eq : (a b : List ℕ) → same_text a b ≡ true → a ≡ b
same_text-eq [] [] e = refl
same_text-eq [] (d ∷ ds) e = cc
same_text-eq (c ∷ cs) [] e = cc
same_text-eq (c ∷ cs) (d ∷ ds) e = ground (arith, same_text-eq cs ds)

is_document-begins_here : (path : List ℕ) → is_document path ≡ true → begins_here path ≡ true
unfolding is_document
is_document-begins_here [] e = cc
is_document-begins_here (c ∷ []) e = ground arith
is_document-begins_here (c ∷ d ∷ cs) e = ground arith

allowed-IsPage : (url : Url) → is_allowed url ≡ true → IsPage url.pathname
unfolding is_allowed
allowed-IsPage url e = elim (Bool-cases (is_document url.pathname)) [
  | inl document ↦ a_document document
  | inr page ↦ elim (Bool-cases (same_text library url.pathname)) [
    | inl yes_library ↦ subst IsPage (same_text-eq library url.pathname yes_library) the_library
    | inr no_library ↦
        let yes_search : same_text search_page url.pathname ≡ true = ground arith in
        subst IsPage (same_text-eq search_page url.pathname yes_search) the_search
  ]
]

IsPage-begins_here : {path : List ℕ} → IsPage path → begins_here path ≡ true
IsPage-begins_here the_library = refl
IsPage-begins_here the_search = refl
IsPage-begins_here {path} (a_document e) = is_document-begins_here path e

append-begins_here :
    (path rest : List ℕ) → begins_here path ≡ true → begins_here (path ++ rest) ≡ true
append-begins_here [] rest e = cc
append-begins_here (c ∷ []) rest e = cc
append-begins_here (c ∷ d ∷ cs) rest e = e

-- Whatever a client asks for and however it is parsed, the page to return to after a sign-in is the
-- library, the search or a document, with something behind it: a path that begins with one slash,
-- followed by neither a slash nor a backslash, so that it stays on this site.
pub login_return_to-IsPage :
    (parse : List ℕ → Option Url) (input : Option (List ℕ))
    → (begins_here (login_return_to parse input) ≡ true)
      × ((path : List ℕ) × (rest : List ℕ) × IsPage path
          × (login_return_to parse input ≡ path ++ rest))
unfolding login_return_to
login_return_to-IsPage parse none = (refl, (library, [], the_library, refl))
login_return_to-IsPage parse (some input) = go (is_refused input) (parse input)
  where
    Here : List ℕ → Type 0
    Here result =
        (begins_here result ≡ true)
        × ((path : List ℕ) × (rest : List ℕ) × IsPage path × (result ≡ path ++ rest))

    at_library : Here library
    at_library = (refl, (library, [], the_library, refl))

    at_url :
        (url : Url) (allowed : Bool)
        → is_allowed url ≡ allowed
        → Here (if allowed then url.pathname ++ (url.search ++ url.hash) else library)
    at_url url false e = at_library
    at_url url true e =
        let page = allowed-IsPage url e in
        (
          append-begins_here url.pathname (url.search ++ url.hash) (IsPage-begins_here page),
          (url.pathname, url.search ++ url.hash, page, refl),
        )

    go :
        (refused : Bool) (o : Option Url)
        → Here (
            if refused then library else elim o [
              | none ↦ library
              | some url ↦
                  if is_allowed url then url.pathname ++ (url.search ++ url.hash) else library
            ])
    go true o = at_library
    go false none = at_library
    go false (some url) = at_url url (is_allowed url) refl
