-- ===== src/Answers/Completion/Published.antt =====
-- What has been checked when an answer is published.
use devfootnote_project.Answers.Completion.{
  Candidate, Generated, broke, candidate, complete_answer, complete_locked, failure_now, final,
  is_active_view, is_offered, is_open_attempt, usage_of, valid_claim,
}
use devfootnote_project.Answers.Completion.Endings.{ending_now}
use devfootnote_project.Answers.Execution.{finish_and_settle}
use devfootnote_project.Answers.Execution.Traces.{finish_and_settle-some}
use devfootnote_project.Answers.Fences.{Clock, Setup, Tables, fences, reservation_of}
use devfootnote_project.Answers.Requests.{
  Ending, LockedRequest, find_attempt, lock, locked_view, read,
}
use devfootnote_project.Answers.Requests.Changes.{state_of}
use devfootnote_project.Answers.Requests.Endings.{finish-tables, tables_finished}
use devfootnote_project.Answers.Requests.Finishing.{tables_finished-state}
use devfootnote_project.Answers.Safety.{is_safe_answer_claim, is_space}
use devfootnote_project.Answers.Schema.{
  AnswerClaim, AnswerFailure, AnswerRequest, Answers, Evidence, is_running, published, running,
}
use devfootnote_project.Base.{
  Bool, Bool-cases, List, Option, Option-cases, [], ap, arith, every, false, inl, inr, length,
  ltb→lt, none, refl, same, some, subst, true, ℕ, ◌&&◌, ◌<◌, ◌∙◌, ◌∷◌, ◌≡◌, ◌≤◌, ◌⊎◌,
}
use devfootnote_project.Base.Table.{All, All-map}

-- A claim that may be shown: it says something, it is not too long, it is plain text, and it cites
-- evidence that was offered, and only such.
pub record IsGrounded (evidence : List Evidence) (claim : AnswerClaim) : Type 0 where
  pub speaks : every is_space claim.text ≡ false
  pub short : length claim.text ≤ 2000
  pub cites : 1 ≤ length claim.evidence_ids
  pub offered : All (λ id. is_offered evidence id ≡ true) claim.evidence_ids
  pub safe : is_safe_answer_claim claim.text ≡ true

pub every-All :
    {A : Type 0} (p : A → Bool) (xs : List A) → every p xs ≡ true → All (λ x. p x ≡ true) xs
every-All p [] e = tt
every-All p (x ∷ xs) e = (ground arith, every-All p xs (ground arith))

valid_claim-IsGrounded :
    (evidence : List Evidence) (c : AnswerClaim)
    → valid_claim evidence c ≡ true
    → IsGrounded evidence c
valid_claim-IsGrounded evidence c e = record {
  speaks = ground arith;
  short = ground arith;
  cites = ground arith;
  offered = every-All (is_offered evidence) c.evidence_ids (ground arith);
  safe = ground arith;
}

-- What publication says of the checks.
final_state-published :
    (l : LockedRequest) (failure : Option AnswerFailure) (g : Generated)
    → (final l failure g).state ≡ published
    → (l.live ≡ true)
      × (failure ≡ none)
      × ((c : Candidate) × (g ≡ candidate c)
          × (length c.claims ≤ 12)
          × (1 ≤ length c.claims)
          × (every (valid_claim l.request.evidence) c.claims ≡ true)
          × ((final l failure g).claims ≡ some c.claims))
final_state-published l failure (broke why usage) e = absurd (ground arith)
final_state-published l failure (candidate c) e =
    (ground arith, ground arith, (c, refl, ground arith, ground arith, ground arith, rw e refl))

-- Why an answer may be published, and what is stored then.
pub record MayPublish (setup : Setup) (owner id : ℕ) (g : Generated) (seen : List AnswerRequest)
    (clock : Clock) (db after : Tables) : Type 0 where
  pub reference : AnswerRequest
  pub row : AnswerRequest
  pub chosen : Candidate
  pub was_seen : read owner id seen ≡ some reference
  pub was_locked : read owner id db.answers.requests ≡ some row
  pub in_time : clock.locked_at < row.expires_at
  pub fenced : (fences setup reference clock.fenced_at db).failure ≡ none
  pub still_reserved :
      is_active_view (reservation_of owner row.reservation_id clock.relocked_at db.ledger) ≡ true
  pub generated : g ≡ candidate chosen
  pub few : length chosen.claims ≤ 12
  pub some_claim : 1 ≤ length chosen.claims
  pub grounded : All (IsGrounded row.evidence) chosen.claims
  pub stored :
      after.answers
      ≡ tables_finished owner id
          (ending_now owner (locked_view clock.locked_at row) none g clock db)
          clock.finished_at
          clock.ended_at
          db.answers
  pub kept_claims :
      (ending_now owner (locked_view clock.locked_at row) none g clock db).claims
      ≡ some chosen.claims

complete_locked-finish :
    (owner id attempt : ℕ) (g : Generated) (l : LockedRequest) (failure : Option AnswerFailure)
    (clock : Clock) (db : Tables) {after : Tables}
    → complete_locked owner id attempt g l failure clock db ≡ some after
    → (after ≡ db)
      ⊎ (after.answers
          ≡ tables_finished owner id
              (ending_now owner l failure g clock db)
              clock.finished_at
              clock.ended_at
              db.answers)
unfolding complete_locked
complete_locked-finish owner id attempt g l failure clock db {after} e =
    elim (Bool-cases
      (is_running l.request.state && is_open_attempt (find_attempt owner id attempt db.answers))) [
        | inr closed ↦ inl (ground arith)
        | inl running_now ↦
            let ending = ending_now owner l failure g clock db in
            let h : finish_and_settle owner id ending (usage_of g) l.request clock db ≡ some after =
              ground arith in
            inr (
              finish-tables owner id ending clock.finished_at clock.ended_at db.answers
                (finish_and_settle-some owner id ending (usage_of g) l.request clock db h).0)
      ]

finished-state :
    (owner id : ℕ) (e : Ending) (now ended_at : ℕ) (t : Answers)
    → state_of owner id t ≡ some running
    → state_of owner id (tables_finished owner id e now ended_at t) ≡ some e.state
finished-state owner id e now ended_at t was_running =
    rw (tables_finished-state owner id e now ended_at t) (rw was_running refl)

-- A running request becomes published only if the provider returned a candidate of one to twelve
-- claims, each plain text that cites evidence of the request and nothing else; if the request was in
-- time and its consent, materials and reservation all passed on rows locked in the same transaction,
-- the reservation once more after all other locks. What is stored are then the candidate's claims.
pub complete_answer-MayPublish :
    (setup : Setup) (owner id attempt : ℕ) (g : Generated) (seen : List AnswerRequest)
    (clock : Clock) (db : Tables) {after : Tables}
    → complete_answer setup owner id attempt g seen clock db ≡ some after
    → state_of owner id db.answers ≡ some running
    → state_of owner id after.answers ≡ some published
    → MayPublish setup owner id g seen clock db after
unfolding complete_answer lock
complete_answer-MayPublish setup owner id attempt g seen clock db {after} e was now_is =
    elim (Option-cases (read owner id seen)) [
      | inl unseen ↦ absurd (same_tables (ground arith))
      | inr (reference, e_seen) ↦ elim (Option-cases (read owner id db.answers.requests)) [
        | inl missing ↦ absurd (same_tables (ground arith))
        | inr (r, e_r) ↦
            let l = locked_view clock.locked_at r in
            let failure = (fences setup reference clock.fenced_at db).failure in
            let e_locked : complete_locked owner id attempt g l failure clock db ≡ some after =
              ground arith in
            elim (complete_locked-finish owner id attempt g l failure clock db e_locked) [
              | inl same ↦ absurd (same_tables same)
              | inr stored ↦ published_row reference r e_seen e_r stored
            ]
      ]
    ]
  where
    same_tables : after ≡ db → ⊥
    same_tables eq =
        let s : state_of owner id after.answers ≡ state_of owner id db.answers =
          ap (λ (u : Tables). state_of owner id u.answers) eq in
        cc

    published_row :
        (reference r : AnswerRequest)
        → read owner id seen ≡ some reference
        → read owner id db.answers.requests ≡ some r
        → after.answers
          ≡ tables_finished owner id
              (ending_now owner
                (locked_view clock.locked_at r)
                (fences setup reference clock.fenced_at db).failure
                g
                clock
                db)
              clock.finished_at
              clock.ended_at
              db.answers
        → MayPublish setup owner id g seen clock db after
    published_row reference r e_seen e_r stored =
        let failure = (fences setup reference clock.fenced_at db).failure in
        let l = locked_view clock.locked_at r in
        let ending = ending_now owner l failure g clock db in
        let s_finished =
          finished-state owner id ending clock.finished_at clock.ended_at db.answers was in
        let s_after : state_of owner id after.answers ≡ some ending.state =
          ap (state_of owner id) stored ∙ s_finished in
        let e_state : ending.state ≡ published = ground arith in
        let (live, no_failure, (c, e_g, few, some_claim, valid, e_claims)) =
          final_state-published l
            (failure_now failure
              (reservation_of owner r.reservation_id clock.relocked_at db.ledger))
            g e_state in
        let no_fence : failure ≡ none = ground arith in
        record {
          reference = reference;
          row = r;
          chosen = c;
          was_seen = e_seen;
          was_locked = e_r;
          in_time = ltb→lt _ _ live;
          fenced = no_fence;
          still_reserved = ground arith;
          generated = e_g;
          few = few;
          some_claim = some_claim;
          grounded = All-map c.claims (valid_claim-IsGrounded r.evidence) (every-All _ _ valid);
          stored =
              subst
                (λ f.
                  after.answers
                  ≡ tables_finished owner id (ending_now owner l f g clock db) clock.finished_at
                      clock.ended_at db.answers)
                no_fence stored;
          kept_claims =
              subst (λ f. (ending_now owner l f g clock db).claims ≡ some c.claims) no_fence
                e_claims;
        }
