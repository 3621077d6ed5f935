-- ===== src/Search/Snippet.antt =====
-- apps/api/src/modules/search/search-snippet.ts: the preview of a match. A text is its list of UTF-16
-- code units. The normalization of texts and the division into graphemes are parameters.
pub mod Offsets
pub mod Excerpts
use mathlib.Core.Option
use devfootnote_project.Base.{
  Bool, List, Option, [], coalesce, false, get_elem?, if◌then◌else◌, leb, length, ltb, min, none,
  some, suc, take, true, zero, ℕ, ◌&&◌, ◌+◌, ◌-◌, ◌/◌, ◌==◌, ◌∷◌,
}
use devfootnote_project.Materials.Content.{slice}
use devfootnote_project.Materials.Schema.{Content}

-- `text.normalize('NFKC').toLowerCase()`, and `segments.containing(i).index` of a text's graphemes.
pub record Unicode : Type 0 where
  pub fold : List ℕ → List ℕ
  pub boundary : List ℕ → ℕ → ℕ

pub data MatchedField : Type 0 where
  body_field note_field context_field title_field source_url_field : MatchedField

-- 0xdc00 to 0xdfff
abbrev pub is_low : ℕ → Bool
is_low u = leb 56320 u && leb u 57343

-- `charCodeAt(i)` is such a unit; it is NaN out of range.
abbrev pub low_unit_at : ℕ → List ℕ → Bool
low_unit_at i text = elim (get_elem? text i) [ none ↦ false | some u ↦ is_low u ]

-- An offset that may have become -1.
pub data Offset : Type 0 where
  place : ℕ → Offset
  minus_one : Offset

abbrev pub one_before : ℕ → Offset
one_before zero = minus_one
one_before (suc i) = place i

unfoldable pub code_point_boundary : List ℕ → ℕ → Offset
code_point_boundary text offset =
    if low_unit_at offset text then one_before offset else place offset

-- Where `slice` takes a boundary to be: -1 counts from the end.
abbrev pub index_in : List ℕ → Offset → ℕ
index_in text (place i) = i
index_in text minus_one = length text - 1

-- `start + 240`
abbrev pub past : Offset → ℕ
past (place i) = i + 240
past minus_one = 239

unfoldable pub excerpt : List ℕ → ℕ → List ℕ
excerpt text offset =
    let start = code_point_boundary text offset in
    let stop = code_point_boundary text (min (length text) (past start)) in
    slice (index_in text start) (index_in text stop) text

-- The length of what a prefix of the text is folded to.
abbrev pub folded_length : Unicode → List ℕ → ℕ → ℕ
folded_length lib text b = length (lib.fold (take b text))

-- The loop of `originalOffset`, for at most `fuel` rounds; `none` when these are not enough.
unfoldable pub search_offset : Unicode → List ℕ → ℕ → ℕ → ℕ → ℕ → ℕ → Option ℕ
search_offset lib text target zero low high offset = if ltb low high then none else some offset
search_offset lib text target (suc fuel) low high offset =
    let middle = (low + high) / 2 in
    let b = lib.boundary text middle in
    let upper = search_offset lib text target fuel (middle + 1) high b in
    let lower = search_offset lib text target fuel low middle offset in
    if ltb low high
    then if leb (folded_length lib text b) target then upper else lower
    else some offset

-- `originalOffset`: a round makes the interval shorter, so that the length is enough fuel.
unfoldable pub original_offset : Unicode → List ℕ → ℕ → Option ℕ
original_offset lib text target =
    if target == 0 then some 0 else search_offset lib text target (length text) 0 (length text) 0

abbrev pub begins_with : List ℕ → List ℕ → Bool
begins_with [] text = true
begins_with (t ∷ ts) [] = false
begins_with (t ∷ ts) (c ∷ cs) = (t == c) && begins_with ts cs

-- `text.indexOf(token)`; `none` is -1.
abbrev pub index_of : List ℕ → List ℕ → Option ℕ
index_of token [] = if begins_with token [] then some 0 else none
index_of token (c ∷ cs) =
    if begins_with token (c ∷ cs) then some 0 else Option.map suc (index_of token cs)

abbrev least : Option ℕ → Option ℕ → Option ℕ
least none b = b
least (some a) none = some a
least (some a) (some b) = some (min a b)

-- `Math.min(...matches)`, if there is a match.
abbrev pub first_match : List ℕ → List (List ℕ) → Option ℕ
first_match text [] = none
first_match text (token ∷ tokens) = least (index_of token text) (first_match text tokens)

-- The loop over the fields.
unfoldable pub snippet_in :
    Unicode → List (List ℕ) → List (MatchedField × List ℕ) → List ℕ → Option (List ℕ × MatchedField)
snippet_in lib tokens [] body = some (excerpt body 0, body_field)
snippet_in lib tokens ((field, text) ∷ fields) body =
    let rest = snippet_in lib tokens fields body in
    elim (first_match (lib.fold text) tokens) [
      | none ↦ rest
      | some m ↦
          Option.map (λ index. (excerpt text (index - 60), field)) (original_offset lib text m)
    ]

abbrev pub fields_of : Content → List (MatchedField × List ℕ)
fields_of c =
    (body_field, c.body)
    ∷ (note_field, coalesce c.note [])
    ∷ (context_field, coalesce c.context [])
    ∷ (title_field, coalesce c.title [])
    ∷ (source_url_field, coalesce c.source_url [])
    ∷ []

-- `createSearchSnippet`
unfoldable pub create_search_snippet :
    Unicode → Content → List (List ℕ) → Option (List ℕ × MatchedField)
create_search_snippet lib c tokens = snippet_in lib tokens (fields_of c) c.body
