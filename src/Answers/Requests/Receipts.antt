-- ===== src/Answers/Requests/Receipts.antt =====
-- `deleteReceipt` and the API's `reserve` keep the states and the attempts of the requests in
-- agreement, and so does every change.
use mathlib.Core.Option
use devfootnote_project.Answers.Keys.{Distinct-delete, first-delete_own, same_request}
use devfootnote_project.Answers.Requests.{deletable, delete_receipt}
use devfootnote_project.Answers.Requests.Attempts.{
  Agrees, IsConsistent, clear_content-IsConsistent, reserve_batch-IsConsistent,
}
use devfootnote_project.Answers.Requests.Changes.{
  Change, Changes, IsNew, attempts_of, clears, deletes, finishes, reserves, scans, starts, state_of,
  then_one, unchanged,
}
use devfootnote_project.Answers.Requests.Finishing.{finish-IsConsistent}
use devfootnote_project.Answers.Requests.Starting.{start-IsConsistent}
use devfootnote_project.Answers.Requests.Starts.{is_of_request-apart, names_request-apart}
use devfootnote_project.Answers.Schema.{
  AnswerRequest, Answers, insert_request, is_of_request, names_request,
}
use devfootnote_project.Base.{
  Bool-cases, List, Option-cases, [], any, arith, false, inl, inr, none, some, subst, sym, true, ℕ,
  ◌&&◌, ◌==◌, ◌∷◌, ◌≡◌,
}
use devfootnote_project.Base.Rows.{
  any-first-none, delete-none, first-delete_other, select-delete, select-delete_other,
}
use devfootnote_project.Base.Table.{first}
use devfootnote_project.Usage.Cleanup.{batch}

pub delete_receipt-IsConsistent :
    (owner id now : ℕ) (t : Answers) → IsConsistent t → IsConsistent (delete_receipt owner id now t)
unfolding delete_receipt
delete_receipt-IsConsistent owner id now t c =
    elim (Option-cases (first (deletable owner id now) t.requests)) [
      | inl free ↦
          let same_rows = delete-none (deletable owner id now) t.requests free in
          let eq : t ≡ delete_receipt owner id now t = simp (same_rows, free) in
          subst IsConsistent eq c
      | inr (r, e_r) ↦ record {
        distinct = Distinct-delete (deletable owner id now) t.requests c.distinct;
        agrees = agrees_without r e_r;
      }
    ]
  where
    named : (y : AnswerRequest) → deletable owner id now y ≡ true → names_request owner id y ≡ true
    named y h = ground arith

    agrees_without :
        (r : AnswerRequest)
        → first (deletable owner id now) t.requests ≡ some r
        → (o i : ℕ)
        → Agrees
            (state_of o i (delete_receipt owner id now t))
            (attempts_of o i (delete_receipt owner id now t))
    agrees_without r e_r o i = elim (Bool-cases ((owner == o) && (id == i))) [
      | inl own ↦
          let eq_o : owner ≡ o = ground arith in
          let eq_i : id ≡ i = ground arith in
          let gone =
            first-delete_own owner id (deletable owner id now) t.requests named c.distinct e_r in
          rw (sym eq_o)
            (rw (sym eq_i) (rw e_r (rw gone (select-delete (is_of_request owner id) t.attempts))))
      | inr apart ↦
          let same_row =
            first-delete_other (names_request o i) (deletable owner id now) t.requests
              (λ y n. let no_y = names_request-apart owner id o i y apart n in ground arith) in
          let same_attempts =
            select-delete_other (is_of_request o i) (is_of_request owner id) t.attempts
              (λ y n. is_of_request-apart owner id o i y apart n) in
          rw e_r (rw same_row (rw same_attempts (c.agrees o i)))
    ]

pub insert_request-cons :
    (new : AnswerRequest) (rows : List AnswerRequest) {after : List AnswerRequest}
    → insert_request new rows ≡ some after
    → (after ≡ new ∷ rows) × (any (same_request new) rows ≡ false)
unfolding insert_request
insert_request-cons new rows e = ground arith

reserve-IsConsistent :
    (new : AnswerRequest) (rows : List AnswerRequest) (t : Answers)
    → IsNew new
    → insert_request new t.requests ≡ some rows
    → IsConsistent t
    → IsConsistent (record t { requests = rows })
reserve-IsConsistent new rows t (waiting, _, _) e c =
    let (eq, apart) = insert_request-cons new t.requests e in
    rw eq (record {
      distinct = (apart, c.distinct);
      agrees = λ o i. elim (Bool-cases (names_request o i new)) [
        | inl own ↦
            let eq_o : new.owner_id ≡ o = ground arith in
            let eq_i : new.request_id ≡ i = ground arith in
            let free : first (names_request o i) t.requests ≡ none =
              subst (λ o. first (names_request o i) t.requests ≡ none) eq_o
                (subst (λ i. first (names_request new.owner_id i) t.requests ≡ none) eq_i
                  (any-first-none (same_request new) t.requests apart)) in
            let no_attempts : attempts_of o i t ≡ [] =
              subst
                (λ r. Agrees (Option.map (λ (r : AnswerRequest). r.state) r) (attempts_of o i t))
                free (c.agrees o i) in
            rw own (rw waiting no_attempts)
        | inr other_row ↦ rw other_row (c.agrees o i)
      ];
    })

-- A call is recorded as started exactly while its request is running: when no request has a second
-- row, a request that waits or is not there has no attempt, one that runs has one, which is started,
-- and one that has ended has at most one, which is not. Every change of the worker and of the API
-- keeps this.
pub Changes-IsConsistent : {t u : Answers} → Changes t u → IsConsistent t → IsConsistent u
Changes-IsConsistent unchanged c = c
Changes-IsConsistent (then_one path change) c = go change (Changes-IsConsistent path c)
  where
    go : {v w : Answers} → Change v w → IsConsistent v → IsConsistent w
    go {v} (reserves new rows fresh_row e) c = reserve-IsConsistent new rows v fresh_row e c
    go {v} (starts owner id attempt now found after e) c =
        start-IsConsistent owner id attempt now v e c
    go {v} (finishes owner id e now ended_at after final_state over h) c =
        finish-IsConsistent owner id e now ended_at v final_state over h c
    go {v} (clears owner id why after e) c = clear_content-IsConsistent owner id why v e c
    go {v} (deletes owner id now) c = delete_receipt-IsConsistent owner id now v c
    go {v} (scans held_elsewhere chosen_at now batch after e) c =
        reserve_batch-IsConsistent held_elsewhere chosen_at now v e c
