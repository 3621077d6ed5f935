-- ===== src/Answers/Safety.antt =====
-- `isSafeAnswerClaim` of packages/ai/src/gemini-answer.ts: the tests of a claim's text, which is its
-- list of UTF-16 code units. No test tells the halves of a surrogate pair from other letters.
use devfootnote_project.Base.{
  Bool, List, [], any, false, if◌then◌else◌, leb, ltb, not, ℕ, ◌&&◌, ◌==◌, ◌||◌, ◌∷◌,
}

-- `character.charCodeAt(0) < 32 && !['\n', '\r', '\t'].includes(character)`
abbrev pub is_control : ℕ → Bool
is_control c = ltb c 32 && not ((c == 10) || (c == 13) || (c == 9))

-- `\s`, which is also what `trim` removes.
abbrev pub is_space : ℕ → Bool
is_space c =
    (leb 9 c && leb c 13)
    || (c == 32)
    || (c == 160)
    || (c == 5760)
    || (leb 8192 c && leb c 8202)
    || (c == 8232)
    || (c == 8233)
    || (c == 8239)
    || (c == 8287)
    || (c == 12288)
    || (c == 65279)

-- `[a-z]` under the flags `i` and `u`, by which the long s and the Kelvin sign are letters too.
abbrev pub is_letter : ℕ → Bool
is_letter c = (leb b'a' c && leb c b'z') || (leb b'A' c && leb c b'Z') || (c == 383) || (c == 8490)

-- `[a-z0-9+.-]`
abbrev pub in_scheme : ℕ → Bool
in_scheme c = is_letter c || (leb b'0' c && leb c b'9') || (c == 43) || (c == 46) || (c == 45)

-- `\S` next.
abbrev pub word_next : List ℕ → Bool
word_next [] = false
word_next (c ∷ cs) = not (is_space c)

-- `[a-z0-9+.-]*:\S`
pub scheme_rest : List ℕ → Bool
scheme_rest [] = false
scheme_rest (c ∷ cs) = if in_scheme c then scheme_rest cs else (c == 58) && word_next cs

abbrev pub opens_target : List ℕ → Bool
opens_target [] = false
opens_target (c ∷ cs) = c == 40

abbrev pub slash_word : List ℕ → Bool
slash_word [] = false
slash_word (c ∷ cs) = (c == 47) && word_next cs

-- Whether the pattern matches at the first unit: a tag's bracket, a link's middle, an address.
unfoldable pub starts_markup : List ℕ → Bool
unfolding scheme_rest
starts_markup [] = false
starts_markup (c ∷ cs) =
    (c == 60)
    || (c == 62)
    || ((c == 93) && opens_target cs)
    || (is_letter c && scheme_rest cs)
    || ((c == 47) && slash_word cs)

unfoldable pub has_markup : List ℕ → Bool
has_markup [] = false
has_markup (c ∷ cs) = starts_markup (c ∷ cs) || has_markup cs

-- `isSafeAnswerClaim`
unfoldable pub is_safe_answer_claim : List ℕ → Bool
is_safe_answer_claim text = not (any is_control text) && not (has_markup text)
