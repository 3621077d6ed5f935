-- ===== src/Answers/View/Shown.antt =====
-- What has been checked when the claims of an answer are shown.
use devfootnote_project.Answers.Completion.Published.{every-All}
use devfootnote_project.Answers.Fences.{Tables, is_source, targets_of}
use devfootnote_project.Answers.Schema.{AnswerRequest, Evidence, names_request, published}
use devfootnote_project.Answers.View.{
  AnswerView, FoundRequest, Verdict, find_request, found_view, has_source, is_cited, is_published,
  judge, read_answer, same_consent, show_answer, shown_citations, shown_claims,
}
use devfootnote_project.Base.{
  Bool, Bool-cases, List, Option, Option-cases, [], any, ap, arith, coalesce, exceeds, false, inl,
  inr, none, refl, some, subst, sym, true, ℕ, ◌∙◌, ◌≡◌, ◌⊎◌,
}
use devfootnote_project.Base.Rows.{All-select}
use devfootnote_project.Base.Table.{All, first}
use devfootnote_project.Materials.Evidence.{lock_evidence}
use devfootnote_project.Materials.Schema.{ChunkRow}
use devfootnote_project.Usage.Consents.{lock_row, view}
use devfootnote_project.Usage.Reservations.{EmbeddingConsent}
use devfootnote_project.Usage.Schema.{Consent}

-- Why claims are shown, and which.
pub record Shows (digest : List ℕ → ℕ) (policy : Option ℕ) (owner id found_at later_at : ℕ)
    (db : Tables) (later : List AnswerRequest) (v : AnswerView) : Type 0 where
  pub row : AnswerRequest
  pub later_row : AnswerRequest
  pub chunks : List ChunkRow
  pub was_found : first (names_request owner id) db.answers.requests ≡ some row
  pub was_published : row.state ≡ published
  pub consented : same_consent policy (view (lock_row owner db.consents).0) row ≡ true
  pub in_time : exceeds row.answer_expires_at found_at ≡ true
  pub locked : lock_evidence owner (targets_of row.evidence) db.store ≡ some chunks
  pub unchanged : All (λ e. any (is_source digest e) chunks ≡ true) row.evidence
  pub was_found_later : first (names_request owner id) later ≡ some later_row
  pub still_in_time : exceeds later_row.answer_expires_at later_at ≡ true
  pub claims : v.claims ≡ coalesce row.claims []
  pub cited : All (λ (e : Evidence). is_cited v.claims e.evidence_id ≡ true) v.citations

judge-published :
    (digest : List ℕ → ℕ) (policy : Option ℕ) (c : EmbeddingConsent) (f : FoundRequest)
    (chunks : Option (List ChunkRow)) (later : Option FoundRequest)
    → is_published (judge digest policy c f chunks later).state ≡ true
    → (f.request.state ≡ published)
      × (same_consent policy c f.request ≡ true)
      × (f.answer_live ≡ true)
      × (has_source digest f.request.evidence chunks ≡ true)
      × ((l : FoundRequest) × (later ≡ some l) × (l.answer_live ≡ true))
unfolding judge
judge-published digest policy c f chunks none e = absurd (ground arith)
judge-published digest policy c f chunks (some l) e =
    (ground arith, ground arith, ground arith, ground arith, (l, refl, ground arith))

has_source-All :
    (digest : List ℕ → ℕ) (evidence : List Evidence) (o : Option (List ChunkRow))
    → has_source digest evidence o ≡ true
    → (chunks : List ChunkRow) × (o ≡ some chunks)
      × All (λ e. any (is_source digest e) chunks ≡ true) evidence
has_source-All digest evidence none e = cc
has_source-All digest evidence (some chunks) e = (chunks, refl, every-All _ evidence e)

find_request-first :
    (owner id now : ℕ) (rows : List AnswerRequest) {f : FoundRequest}
    → find_request owner id now rows ≡ some f
    → (first (names_request owner id) rows ≡ some f.request) × (f ≡ found_view now f.request)
unfolding find_request
find_request-first owner id now rows {f} e =
    elim (Option-cases (first (names_request owner id) rows)) [
      | inl missing ↦ absurd (ground arith)
      | inr (r, found) ↦
          let eq : found_view now r ≡ f = ground arith in
          subst
            (λ (x : FoundRequest).
              (first (names_request owner id) rows ≡ some x.request)
              × (x ≡ found_view now x.request))
            eq (found, refl)
    ]

shown_citations-All :
    (b : Bool) (r : AnswerRequest)
    → All (λ (e : Evidence). is_cited (shown_claims b r) e.evidence_id ≡ true) (shown_citations b r)
shown_citations-All true r =
    All-select (λ (e : Evidence). is_cited (shown_claims true r) e.evidence_id) r.evidence
shown_citations-All false r = tt

-- A user is shown no claims and no citations, or else these of a published answer: whose consent is
-- in force at the epoch and for the policy of the request and of the server; whose materials are all
-- still at the revisions that were cited, with every chunk unchanged; which is in time before and
-- after the locks; and of the evidence only what the claims cite.
pub read_answer-Shows :
    (digest : List ℕ → ℕ) (policy : Option ℕ) (owner id found_at later_at : ℕ) (db : Tables)
    (later : List AnswerRequest) {v : AnswerView} {consents : List Consent}
    → read_answer digest policy owner id found_at later_at db later ≡ some (v, consents)
    → ((v.claims ≡ []) × (v.citations ≡ []))
      ⊎ Shows digest policy owner id found_at later_at db later v
unfolding read_answer show_answer
read_answer-Shows digest policy owner id found_at later_at db later {v} {consents} e =
    elim (Option-cases (find_request owner id found_at db.answers.requests)) [
      | inl missing ↦ absurd (ground arith)
      | inr (f, e_f) ↦
          let shown =
            judge digest policy (view (lock_row owner db.consents).0) f
              (lock_evidence owner (targets_of f.request.evidence) db.store)
              (find_request owner id later_at later) in
          let eq : show_answer f.request shown ≡ v = ground arith in
          subst
            (λ (x : AnswerView).
              ((x.claims ≡ []) × (x.citations ≡ []))
              ⊎ Shows digest policy owner id found_at later_at db later x)
            eq (split f e_f shown refl)
    ]
  where
    split :
        (f : FoundRequest)
        → find_request owner id found_at db.answers.requests ≡ some f
        → (shown : Verdict)
        → judge digest policy
            (view (lock_row owner db.consents).0)
            f
            (lock_evidence owner (targets_of f.request.evidence) db.store)
            (find_request owner id later_at later)
          ≡ shown
        → (((show_answer f.request shown).claims ≡ [])
            × ((show_answer f.request shown).citations ≡ []))
          ⊎ Shows digest policy owner id found_at later_at db later (show_answer f.request shown)
    split f e_f shown e_shown = elim (Bool-cases (is_published shown.state)) [
      | inr hidden ↦
          inl (
            ap (λ b. shown_claims b f.request) hidden,
            ap (λ b. shown_citations b f.request) hidden,
          )
      | inl visible ↦
          let passed = subst (λ (x : Verdict). is_published x.state ≡ true) (sym e_shown) visible in
          let (was, consented, live, sources, (l, e_l, l_live)) =
            judge-published digest policy _ f _ _ passed in
          let (chunks, e_chunks, all) = has_source-All digest f.request.evidence _ sources in
          let (e_row, e_view) = find_request-first owner id found_at db.answers.requests e_f in
          let (e_later, e_later_view) = find_request-first owner id later_at later e_l in
          inr (record {
            row = f.request;
            later_row = l.request;
            chunks = chunks;
            was_found = e_row;
            was_published = was;
            consented = consented;
            in_time = sym (ap (λ (x : FoundRequest). x.answer_live) e_view) ∙ live;
            locked = e_chunks;
            unchanged = all;
            was_found_later = e_later;
            still_in_time = sym (ap (λ (x : FoundRequest). x.answer_live) e_later_view) ∙ l_live;
            claims = ap (λ b. shown_claims b f.request) visible;
            cited = shown_citations-All (is_published shown.state) f.request;
          })
    ]
