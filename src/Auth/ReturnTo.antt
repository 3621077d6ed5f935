-- ===== src/Auth/ReturnTo.antt =====
-- `loginReturnTo` of apps/api/src/modules/auth/auth-return-to.ts: the page to return to after a
-- sign-in. A text is its list of code units. The class `URL` is a parameter.
pub mod Local
use mathlib.Core.Option
use devfootnote_project.Base.{
  Bool, List, Option, [], any, every, false, if◌then◌else◌, leb, length, ltb, none, not, some, suc,
  true, zero, ℕ, ◌&&◌, ◌++◌, ◌+◌, ◌==◌, ◌||◌, ◌∷◌,
}
use devfootnote_project.Base.Table.{first, select}
use devfootnote_project.Usage.Reservations.{decimal, is_digit}

-- What the code reads of `new URL(input, 'https://return.invalid')`; `same_origin` says that the
-- origin is that of the base, and `params` lists the keys and values of the query.
pub record Url : Type 0 where
  pub same_origin : Bool
  pub pathname : List ℕ
  pub search : List ℕ
  pub hash : List ℕ
  pub params : List (List ℕ × List ℕ)

abbrev pub library : List ℕ
library = b'/' ∷ b'l' ∷ b'i' ∷ b'b' ∷ b'r' ∷ b'a' ∷ b'r' ∷ b'y' ∷ []

abbrev pub search_page : List ℕ
search_page = b'/' ∷ b's' ∷ b'e' ∷ b'a' ∷ b'r' ∷ b'c' ∷ b'h' ∷ []

abbrev pub documents : List ℕ
documents = b'/' ∷ b'd' ∷ b'o' ∷ b'c' ∷ b'u' ∷ b'm' ∷ b'e' ∷ b'n' ∷ b't' ∷ b's' ∷ b'/' ∷ []

abbrev pub same_text : List ℕ → List ℕ → Bool
same_text [] [] = true
same_text (c ∷ cs) (d ∷ ds) = (c == d) && same_text cs ds
same_text _ _ = false

-- `texts.includes(text)`
abbrev pub includes : List (List ℕ) → List ℕ → Bool
includes texts text = any (same_text text) texts

-- `[0-9a-f]` under the flag `i`.
abbrev pub is_hex : ℕ → Bool
is_hex c = (leb b'0' c && leb c b'9') || (leb b'a' c && leb c b'f') || (leb b'A' c && leb c b'F')

-- The text is so many hexadecimal digits in the groups of a UUID, with dashes between them, and no
-- more: `left` digits of the first group are to come.
pub is_groups : ℕ → List ℕ → List ℕ → Bool
is_groups zero [] [] = true
is_groups zero (next_group ∷ groups) (c ∷ cs) = (c == b'-') && is_groups next_group groups cs
is_groups (suc left) groups (c ∷ cs) = is_hex c && is_groups left groups cs
is_groups _ _ _ = false

unfoldable pub is_uuid : List ℕ → Bool
unfolding is_groups
is_uuid text = is_groups 8 (4 ∷ 4 ∷ 4 ∷ 12 ∷ []) text

abbrev lower : ℕ → ℕ
lower c = if leb b'A' c && leb c b'Z' then c + 32 else c

-- Equal under the flag `i`, for a letter of a pattern that is small or no letter.
abbrev pub same_letter : ℕ → ℕ → Bool
same_letter p c = p == lower c

-- The rest of a text that begins with another.
abbrev pub after_prefix : List ℕ → List ℕ → Option (List ℕ)
after_prefix [] text = some text
after_prefix (p ∷ ps) (c ∷ cs) = if same_letter p c then after_prefix ps cs else none
after_prefix (p ∷ ps) [] = none

-- `new RegExp('^/documents/uuid$', 'i').test(path)`
unfoldable pub is_document : List ℕ → Bool
is_document path = elim (after_prefix documents path) [ none ↦ false | some rest ↦ is_uuid rest ]

-- `typeof input !== 'string'` and the tests of the characters.
abbrev pub is_refused : List ℕ → Bool
is_refused (c ∷ d ∷ cs) =
    not (c == b'/') || (d == b'/') || any (λ u. (u == 92) || leb u 32) (c ∷ d ∷ cs)
is_refused (c ∷ []) = not (c == b'/')
is_refused [] = true

abbrev pub count_key : List ℕ → List (List ℕ × List ℕ) → ℕ
count_key key params = length (select (λ (p : List ℕ × List ℕ). same_text p.0 key) params)

-- The loop over the keys: each is allowed, and comes once.
abbrev pub keys_allowed : List (List ℕ) → List (List ℕ × List ℕ) → Bool
keys_allowed allowed params =
    every (λ (p : List ℕ × List ℕ). includes allowed p.0 && (count_key p.0 params == 1)) params

-- `url.searchParams.get(key)`
abbrev pub get : List ℕ → List (List ℕ × List ℕ) → Option (List ℕ)
get key params =
    Option.map (λ (p : List ℕ × List ℕ). p.1)
      (first (λ (p : List ℕ × List ℕ). same_text p.0 key) params)

abbrev pub passes : (List ℕ → Bool) → Option (List ℕ) → Bool
passes test none = true
passes test (some text) = test text

abbrev key_page : List ℕ
key_page = b'p' ∷ b'a' ∷ b'g' ∷ b'e' ∷ []

abbrev key_mode : List ℕ
key_mode = b'm' ∷ b'o' ∷ b'd' ∷ b'e' ∷ []

abbrev key_query : List ℕ
key_query = b'q' ∷ []

abbrev key_revision : List ℕ
key_revision = b'r' ∷ b'e' ∷ b'v' ∷ b'i' ∷ b's' ∷ b'i' ∷ b'o' ∷ b'n' ∷ []

abbrev modes : List (List ℕ)
modes =
    (b'k' ∷ b'e' ∷ b'y' ∷ b'w' ∷ b'o' ∷ b'r' ∷ b'd' ∷ [])
    ∷ (b'v' ∷ b'e' ∷ b'c' ∷ b't' ∷ b'o' ∷ b'r' ∷ [])
    ∷ (b'h' ∷ b'y' ∷ b'b' ∷ b'r' ∷ b'i' ∷ b'd' ∷ [])
    ∷ []

-- `/^\d+$/u` and from 1 to 100000.
abbrev pub is_page : List ℕ → Bool
is_page text =
    ltb 0 (length text) && every is_digit text && leb 1 (decimal text) && leb (decimal text) 100000

abbrev pub is_query : List ℕ → Bool
is_query text = leb (length text) 200 && not (any (λ c. ltb c 32) text)

abbrev main_content : List ℕ
main_content =
    b'#' ∷ b'm' ∷ b'a' ∷ b'i' ∷ b'n' ∷ b'-' ∷ b'c' ∷ b'o' ∷ b'n' ∷ b't' ∷ b'e' ∷ b'n' ∷ b't' ∷ []

abbrev note_title : List ℕ
note_title = b'#' ∷ b'n' ∷ b'o' ∷ b't' ∷ b'e' ∷ b'-' ∷ b't' ∷ b'i' ∷ b't' ∷ b'l' ∷ b'e' ∷ []

abbrev source_title : List ℕ
source_title =
    b'#' ∷ b's' ∷ b'o' ∷ b'u' ∷ b'r' ∷ b'c' ∷ b'e' ∷ b'-' ∷ b't' ∷ b'i' ∷ b't' ∷ b'l' ∷ b'e' ∷ []

abbrev pub allowed_keys : Bool → List ℕ → List (List ℕ)
allowed_keys document path =
    if document
    then key_revision ∷ []
    else if same_text path search_page
    then key_query ∷ key_page ∷ key_mode ∷ []
    else key_page ∷ []

abbrev pub allowed_hash : Bool → List ℕ → Bool
allowed_hash document [] = true
allowed_hash document (c ∷ cs) =
    includes (if document then main_content ∷ note_title ∷ source_title ∷ [] else main_content ∷ [])
      (c ∷ cs)

-- The page and its parameters may be restored.
unfoldable pub is_allowed : Url → Bool
is_allowed url =
    let document = is_document url.pathname in
    url.same_origin
    && (document || includes (library ∷ search_page ∷ []) url.pathname)
    && keys_allowed (allowed_keys document url.pathname) url.params
    && passes (includes modes) (get key_mode url.params)
    && passes is_page (get key_page url.params)
    && passes is_uuid (get key_revision url.params)
    && passes is_query (get key_query url.params)
    && allowed_hash document url.hash

-- `loginReturnTo` of an input that may be no text, with the parser of URLs, which may throw.
unfoldable pub login_return_to : (List ℕ → Option Url) → Option (List ℕ) → List ℕ
login_return_to parse none = library
login_return_to parse (some input) = if is_refused input then library else elim (parse input) [
  | none ↦ library
  | some url ↦ if is_allowed url then url.pathname ++ (url.search ++ url.hash) else library
]
