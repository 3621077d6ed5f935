-- ===== src/Materials/Content.antt =====
-- apps/api/src/modules/materials/domain/material-content.ts: `chunkBody`. A text is the list of its
-- UTF-16 code units, as in JavaScript.
pub mod Chunks
use mathlib.Core.Option
use devfootnote_project.Base.{
  Bool, List, Option, [], drop, false, get_elem?, if◌then◌else◌, leb, length, ltb, min, none, some,
  suc, take, zero, ℕ, ◌&&◌, ◌+◌, ◌-◌, ◌∷◌,
}

-- `MaterialChunk` of material.types.ts
pub record MaterialChunk : Type 0 where
  pub ordinal : ℕ
  pub text : List ℕ
  pub start_offset : ℕ
  pub end_offset : ℕ

abbrev pub chunk_length : ℕ
chunk_length = 1200

-- 0xd800 to 0xdbff, the first half of a surrogate pair.
abbrev pub is_high_surrogate : ℕ → Bool
is_high_surrogate u = leb 55296 u && leb u 56319

-- `text.slice(start, end)` for start ≤ end
abbrev pub slice : ℕ → ℕ → List ℕ → List ℕ
slice start stop text = take (stop - start) (drop start text)

-- `is_high_surrogate(body.charCodeAt(i))`; `charCodeAt` is NaN out of range.
abbrev pub high_at : ℕ → List ℕ → Bool
high_at i body = elim (get_elem? body i) [ none ↦ false | some u ↦ is_high_surrogate u ]

-- Where the chunk that starts at `start` ends.
abbrev pub chunk_end : List ℕ → ℕ → ℕ
chunk_end body start =
    let stop = min (start + chunk_length) (length body) in
    if ltb stop (length body) && high_at (stop - 1) body then stop - 1 else stop

abbrev pub chunk_at : List ℕ → ℕ → ℕ → MaterialChunk
chunk_at body start ordinal = record {
  ordinal = ordinal;
  text = slice start (chunk_end body start) body;
  start_offset = start;
  end_offset = chunk_end body start;
}

-- The loop, for at most `fuel` chunks; `none` when these are not enough.
unfoldable pub chunks_from : ℕ → List ℕ → ℕ → ℕ → Option (List MaterialChunk)
chunks_from zero body start ordinal = if ltb start (length body) then none else some []
chunks_from (suc fuel) body start ordinal =
    let rest = chunks_from fuel body (chunk_end body start) (ordinal + 1) in
    if ltb start (length body)
    then Option.map (λ chunks. chunk_at body start ordinal ∷ chunks) rest
    else some []

-- `chunkBody`: a chunk has at least one code unit, so that the length is enough fuel.
unfoldable pub chunk_body : List ℕ → Option (List MaterialChunk)
chunk_body body = chunks_from (length body) body 0 0
