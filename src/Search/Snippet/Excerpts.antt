-- ===== src/Search/Snippet/Excerpts.antt =====
-- A preview is a short part of one field, and cuts no character in two.
use devfootnote_project.Base.{
  Bool-cases, List, [], arith, coalesce, false, inl, inr, leb, length, ltb, ltb→lt, none, refl,
  some, suc, true, zero, ℕ, ◌+◌, ◌-◌, ◌/◌, ◌<◌, ◌==◌, ◌≡◌, ◌≤◌,
}
use devfootnote_project.Materials.Content.{high_at, slice}
use devfootnote_project.Materials.Schema.{Content}
use devfootnote_project.Search.Snippet.{
  MatchedField, Unicode, body_field, context_field, first_match, folded_length, low_unit_at,
  note_field, original_offset, search_offset, source_url_field, title_field,
}

search_offset-total :
    (lib : Unicode) (text : List ℕ) (target fuel low high offset : ℕ)
    → high ≤ fuel + low
    → (o : ℕ) × (search_offset lib text target fuel low high offset ≡ some o)
unfolding search_offset
search_offset-total lib text target zero low high offset enough = (offset, ground arith)
search_offset-total lib text target (suc fuel) low high offset enough =
    elim (Bool-cases (ltb low high)) [
      | inr over ↦ (offset, rw over refl)
      | inl before ↦
          let middle = (low + high) / 2 in
          let b = lib.boundary text middle in
          let lt : low < high = ltb→lt low high before in
          elim (Bool-cases (leb (folded_length lib text b) target)) [
            | inl fits ↦
                let (o, e) =
                  search_offset-total lib text target fuel (middle + 1) high b
                    (omega (arith, enough, lt)) in
                (o, rw before (rw fits e))
            | inr exceeds_it ↦
                let (o, e) =
                  search_offset-total lib text target fuel low middle offset
                    (omega (arith, enough, lt)) in
                (o, rw before (rw exceeds_it e))
          ]
    ]

pub original_offset-total :
    (lib : Unicode) (text : List ℕ) (target : ℕ)
    → (o : ℕ) × (original_offset lib text target ≡ some o)
unfolding original_offset
original_offset-total lib text target = elim (Bool-cases (target == 0)) [
  | inl at_start ↦ (0, rw at_start refl)
  | inr later ↦
      let (o, e) =
        search_offset-total lib text target (length text) 0 (length text) 0 (omega arith) in
      (o, rw later e)
]

-- Every second half of a surrogate pair stands behind a first half.
abbrev pub IsWellFormed : List ℕ → Type 0
IsWellFormed text = (i : ℕ) → low_unit_at i text ≡ true → (1 ≤ i) × (high_at (i - 1) text ≡ true)

-- A part of a text of at most 240 units, from an offset or the unit before it, that begins and ends
-- between characters.
pub record IsExcerpt (text : List ℕ) (offset : ℕ) (part : List ℕ) : Type 0 where
  pub start : ℕ
  pub stop : ℕ
  pub is_slice : part ≡ slice start stop text
  pub short : stop ≤ start + 240
  pub inside : stop ≤ length text
  pub from_offset : (start ≤ offset) × (offset ≤ start + 1)
  pub whole_start : low_unit_at start text ≡ false
  pub whole_stop : low_unit_at stop text ≡ false

abbrev pub field_text : Content → MatchedField → List ℕ
field_text c body_field = c.body
field_text c note_field = coalesce c.note []
field_text c context_field = coalesce c.context []
field_text c title_field = coalesce c.title []
field_text c source_url_field = coalesce c.source_url []

-- What a preview shows, and of which field: a part around the first match of a field, or the
-- beginning of the body where no field has a match.
pub data IsPreview (lib : Unicode) (tokens : List (List ℕ)) (c : Content)
    : List ℕ → MatchedField → Type 0 where
  matched :
      (field : MatchedField) (m index : ℕ) (part : List ℕ)
      → first_match (lib.fold (field_text c field)) tokens ≡ some m
      → original_offset lib (field_text c field) m ≡ some index
      → IsExcerpt (field_text c field) (index - 60) part
      → IsPreview lib tokens c part field
  unmatched :
      (part : List ℕ)
      → ((field : MatchedField) → first_match (lib.fold (field_text c field)) tokens ≡ none)
      → IsExcerpt c.body 0 part
      → IsPreview lib tokens c part body_field

module _ (lib : Unicode) (tokens : List (List ℕ)) (c : Content) where
  HasNone : MatchedField → Type 0
  HasNone field = first_match (lib.fold (field_text c field)) tokens ≡ none
