-- ===== src/Materials/Content/Chunks.antt =====
-- The division of a text into chunks: it ends, and its chunks make up the text.
use devfootnote_project.Base.{
  Bool, Bool-cases, List, Option-cases, [], ap, arith, drop, false, get_elem?, if◌then◌else◌, inl,
  inr, leb, length, ltb, min, none, refl, some, subst, suc, sym, take-append-drop, true, zero, ℕ,
  ◌&&◌, ◌++◌, ◌+◌, ◌-◌, ◌<◌, ◌∙◌, ◌∷◌, ◌≡◌, ◌≤◌,
}
use devfootnote_project.Materials.Content.{
  MaterialChunk, chunk_at, chunk_body, chunk_end, chunk_length, chunks_from, high_at, slice,
}

-- 0xdc00 to 0xdfff, the second half of a surrogate pair.
abbrev is_low_surrogate : ℕ → Bool
is_low_surrogate u = leb 56320 u && leb u 57343

abbrev low_at : ℕ → List ℕ → Bool
low_at i body = elim (get_elem? body i) [ none ↦ false | some u ↦ is_low_surrogate u ]

-- A boundary between the two halves of a surrogate pair.
abbrev pub splits_pair : ℕ → List ℕ → Bool
splits_pair i body = high_at (i - 1) body && low_at i body

get_elem?-length : (body : List ℕ) → get_elem? body (length body) ≡ none
get_elem?-length [] = refl
get_elem?-length (u ∷ body) = get_elem?-length body

high_or_low : (i : ℕ) (body : List ℕ) → high_at i body ≡ true → low_at i body ≡ false
high_or_low i body h = elim (Option-cases (get_elem? body i)) [
  | inl nothing ↦ ground arith
  | inr (u, unit_at) ↦ ground (arith, unit_at)
]

pub chunk_end-bounds :
    (body : List ℕ) (start : ℕ)
    → start < length body
    → (start < chunk_end body start)
      × (chunk_end body start ≤ length body)
      × (chunk_end body start ≤ start + chunk_length)
chunk_end-bounds body start before = ground arith

-- Wherever the stop before the adjustment.
cut-pair :
    (stop : ℕ) (body : List ℕ)
    → stop ≤ length body
    → splits_pair
        (if ltb stop (length body) && high_at (stop - 1) body then stop - 1 else stop)
        body
      ≡ false
cut-pair stop body inside = elim (Bool-cases (ltb stop (length body))) [
  | inl before ↦ elim (Bool-cases (high_at (stop - 1) body)) [
    | inl high ↦ ground (arith, before, high, high_or_low (stop - 1) body high)
    | inr low ↦ ground (arith, before, low)
  ]
  | inr at_end ↦
      let eq : stop ≡ length body = ground arith in
      rw at_end (ground (arith, eq, get_elem?-length body))
]

chunk_end-pair :
    (body : List ℕ) (start : ℕ)
    → start < length body
    → splits_pair (chunk_end body start) body ≡ false
chunk_end-pair body start before =
    cut-pair (min (start + chunk_length) (length body)) body (omega arith)

-- What the chunk that starts at `start` is.
pub record IsChunk (body : List ℕ) (start ordinal : ℕ) (c : MaterialChunk) : Type 0 where
  pub numbered : c.ordinal ≡ ordinal
  pub starts : c.start_offset ≡ start
  pub advances : start < c.end_offset
  pub in_body : c.end_offset ≤ length body
  pub short : c.end_offset ≤ start + chunk_length
  pub pair : splits_pair c.end_offset body ≡ false
  pub sliced : c.text ≡ slice start c.end_offset body

-- From `start` on, each chunk begins where the one before it ends, up to the end of the text.
abbrev pub IsChunking : List ℕ → ℕ → ℕ → List MaterialChunk → Type 0
IsChunking body start ordinal [] = start ≡ length body
IsChunking body start ordinal (c ∷ cs) =
    IsChunk body start ordinal c × IsChunking body c.end_offset (ordinal + 1) cs

chunk_at-IsChunk :
    (body : List ℕ) (start ordinal : ℕ)
    → start < length body
    → IsChunk body start ordinal (chunk_at body start ordinal)
chunk_at-IsChunk body start ordinal before =
    let (advances, in_body, short) = chunk_end-bounds body start before in
    record {
      numbered = refl;
      starts = refl;
      advances = advances;
      in_body = in_body;
      short = short;
      pair = chunk_end-pair body start before;
      sliced = refl;
    }

-- Fuel for the units that remain gives all the chunks.
chunks_from-total :
    (fuel : ℕ) (body : List ℕ) (start ordinal : ℕ)
    → start ≤ length body
    → length body ≤ start + fuel
    → (chunks : List MaterialChunk) × (chunks_from fuel body start ordinal ≡ some chunks)
      × IsChunking body start ordinal chunks
unfolding chunks_from
chunks_from-total zero body start ordinal inside enough = ([], ground arith, omega arith)
chunks_from-total (suc fuel) body start ordinal inside enough =
    elim (Bool-cases (ltb start (length body))) [
      | inl before ↦
          let (advances, in_body, short) = chunk_end-bounds body start (ground arith) in
          let (chunks, e, chunking) =
            chunks_from-total fuel body (chunk_end body start) (ordinal + 1) in_body
              (omega (arith, advances, enough)) in
          (
            chunk_at body start ordinal ∷ chunks,
            ground (arith, e),
            (chunk_at-IsChunk body start ordinal (ground arith), chunking),
          )
      | inr at_end ↦ ([], ground arith, ground arith)
    ]

-- `chunkBody` ends on every text, whatever its units, and what it returns divides the text: the
-- chunks are numbered from 0, each begins where the one before it ends, has from 1 to 1200 units,
-- holds the units between its offsets, and does not end between the halves of a surrogate pair.
pub chunk_body-IsChunking :
    (body : List ℕ)
    → (chunks : List MaterialChunk) × (chunk_body body ≡ some chunks) × IsChunking body 0 0 chunks
unfolding chunk_body
chunk_body-IsChunking body = chunks_from-total (length body) body 0 0 (omega arith) (omega arith)

drop-drop : (a n m : ℕ) (text : List ℕ) → a + n ≡ m → drop n (drop a text) ≡ drop m text
drop-drop zero n m text e = let same : n ≡ m = omega (arith, e) in ap (λ k. drop k text) same
drop-drop (suc a) n zero text e = absurd (omega (arith, e))
drop-drop (suc a) zero (suc m) [] e = refl
drop-drop (suc a) (suc n) (suc m) [] e = refl
drop-drop (suc a) n (suc m) (u ∷ text) e = drop-drop a n m text (omega (arith, e))

drop-length : (text : List ℕ) → drop (length text) text ≡ []
drop-length [] = refl
drop-length (u ∷ text) = drop-length text

slice-append-drop :
    (start stop : ℕ) (text : List ℕ)
    → start ≤ stop
    → slice start stop text ++ drop stop text ≡ drop start text
slice-append-drop start stop text before =
    ap (λ rest. slice start stop text ++ rest)
      (sym (drop-drop start (stop - start) stop text (omega arith)))
    ∙ take-append-drop (stop - start) (drop start text)

-- The texts of the chunks, one after the other.
abbrev pub texts : List MaterialChunk → List ℕ
texts [] = []
texts (c ∷ cs) = c.text ++ texts cs

texts-drop :
    (body : List ℕ) (start ordinal : ℕ) (chunks : List MaterialChunk)
    → IsChunking body start ordinal chunks
    → texts chunks ≡ drop start body
texts-drop body start ordinal [] h = sym (drop-length body) ∙ sym (ap (λ n. drop n body) h)
texts-drop body start ordinal (c ∷ cs) (is_chunk, chunking) = rw is_chunk.sliced (
    rw (texts-drop body c.end_offset (ordinal + 1) cs chunking)
      (slice-append-drop start c.end_offset body (omega (arith, is_chunk.advances))))

-- The chunks that `chunkBody` returns, put together again, are the text.
pub texts-chunk_body :
    (body : List ℕ) (chunks : List MaterialChunk)
    → chunk_body body ≡ some chunks
    → texts chunks ≡ body
texts-chunk_body body chunks e =
    let (all, e', chunking) = chunk_body-IsChunking body in
    let same_chunks : all ≡ chunks = ground arith in
    subst (λ cs. texts cs ≡ body) same_chunks (texts-drop body 0 0 all chunking)
