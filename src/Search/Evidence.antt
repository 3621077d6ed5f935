-- ===== src/Search/Evidence.antt =====
-- `snapshotAnswerEvidence` of apps/api/src/modules/search/search.service.ts: the choice of the chunks
-- that a question is answered from; and `published` of
-- apps/api/src/modules/indexing/embedding-query.repository.ts, which it asks for the index.
use mathlib.Core.Option
use devfootnote_project.Answers.Safety.{is_space}
use devfootnote_project.Base.{
  Bool, List, Option, [], any, every, false, holds, if◌then◌else◌, is_some, leb, length, ltb, map,
  none, not, some, take, true, ℕ, ◌&&◌, ◌++◌, ◌==◌, ◌||◌, ◌∷◌,
}
use devfootnote_project.Base.Table.{order_by, select}
use devfootnote_project.Indexing.Schema.{Index, Vector, Work, WorkState}
use devfootnote_project.Materials.Current.{EvidenceTarget}
use devfootnote_project.Materials.Evidence.{is_among, lock_evidence}
use devfootnote_project.Materials.Schema.{ChunkRow, Store}
use devfootnote_project.Search.Snippet.{index_of}
use devfootnote_project.Usage.Consents.{consent}
use devfootnote_project.Usage.Schema.{Consent}

-- The vectors' revisions whose work is published for a policy and an epoch of the consent.
abbrev pub is_indexed : ℕ → ℕ → ℕ → List Work → Vector → Bool
is_indexed owner policy epoch works v =
    (v.owner_id == owner)
    && any
        (λ (w : Work).
          (w.id == v.work_id)
          && (w.owner_id == v.owner_id)
          && (w.config_fingerprint == policy)
          && (w.consent_epoch == epoch)
          && elim w.state [ WorkState.published ↦ true | _ ↦ false ])
        works

abbrev vector_target : Vector → EvidenceTarget
vector_target v = record { material_id = v.material_id; revision_id = v.revision_id }

-- `published`; a revision with several vectors comes several times here, which no test tells.
unfoldable pub published_targets : ℕ → ℕ → ℕ → Index → List EvidenceTarget
published_targets owner policy epoch index =
    map vector_target (select (is_indexed owner policy epoch index.works) index.vectors)

unfoldable pub reverse_onto : List ℕ → List ℕ → List ℕ
reverse_onto [] done_part = done_part
reverse_onto (c ∷ cs) done_part = reverse_onto cs (c ∷ done_part)

unfoldable pub add_word : List ℕ → List (List ℕ) → List (List ℕ)
add_word [] words = words
add_word (c ∷ cs) words = reverse_onto (c ∷ cs) [] ∷ words

-- `text.split(/\s+/u).filter(Boolean)`: the words of a text, `word` the one begun, in reverse.
unfoldable pub words_from : List ℕ → List ℕ → List (List ℕ)
words_from word [] = add_word word []
words_from word (c ∷ cs) =
    let rest = words_from (if is_space c then [] else c ∷ word) cs in
    if is_space c then add_word word rest else rest

unfoldable pub words_of : List ℕ → List (List ℕ)
unfolding words_from
words_of text = words_from [] text

-- `text.includes(token)`, counted over the tokens.
abbrev pub score_of : (List ℕ → List ℕ) → List (List ℕ) → ChunkRow → ℕ
score_of fold tokens c =
    length (select (λ token. is_some (index_of token (fold c.chunk.text))) tokens)

abbrev ranks_before : (List ℕ → List ℕ) → List (List ℕ) → ChunkRow → ChunkRow → Bool
ranks_before fold tokens a b =
    ltb (score_of fold tokens b) (score_of fold tokens a)
    || ((score_of fold tokens a == score_of fold tokens b)
        && leb a.chunk.start_offset b.chunk.start_offset)

-- At most two chunks of a target, the best ones first.
unfoldable pub best_of :
    (List ℕ → List ℕ) → List (List ℕ) → List ChunkRow → EvidenceTarget → List ChunkRow
best_of fold tokens chunks t = take 2 (
    order_by (ranks_before fold tokens)
      (select (λ (c : ChunkRow). c.material_id == t.material_id) chunks))

unfoldable pub best_of_all :
    (List ℕ → List ℕ) → List (List ℕ) → List ChunkRow → List EvidenceTarget → List ChunkRow
best_of_all fold tokens chunks [] = []
best_of_all fold tokens chunks (t ∷ ts) =
    best_of fold tokens chunks t ++ best_of_all fold tokens chunks ts

-- The index is ready for every target. `policy` is the server's policy of embeddings.
abbrev pub is_ready : Option ℕ → ℕ → List EvidenceTarget → List Consent → Index → Bool
is_ready none owner targets consents index = false
is_ready (some policy) owner targets consents index =
    let c = consent owner consents in
    c.granted
    && holds c.config_fingerprint policy
    && every (is_among (published_targets owner policy c.epoch index)) targets

-- `snapshotAnswerEvidence`; `none` is the error `revision_conflict`.
unfoldable pub snapshot_answer_evidence :
    (List ℕ → List ℕ)
    → Option ℕ
    → Bool
    → ℕ
    → List ℕ
    → List EvidenceTarget
    → List Consent
    → Index
    → Store
    → Option (List ChunkRow)
snapshot_answer_evidence fold policy require_index owner question targets consents index s =
    if require_index && not (is_ready policy owner targets consents index)
    then some []
    else Option.map (λ chunks. best_of_all fold (words_of (fold question)) chunks targets)
        (lock_evidence owner targets s)
