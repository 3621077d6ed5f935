-- ===== src/Answers/Requests/History.antt =====
-- The history of one request: how its state may change while its receipt is kept.
use devfootnote_project.Answers.Keys.{first-delete_own, same_request}
use devfootnote_project.Answers.Requests.{deletable, delete_receipt}
use devfootnote_project.Answers.Requests.Attempts.{IsConsistent}
use devfootnote_project.Answers.Requests.Changes.{
  Change, clears, deletes, finishes, reserves, scans, starts, state_of, then_one, unchanged,
}
use devfootnote_project.Answers.Requests.Order.{
  Follows, Moves, Moves-refl, clear_content-state_of, ends, finish-Moves, Moves-Follows,
  reserve_batch-state_of, runs, start-Moves, stays,
}
use devfootnote_project.Answers.Requests.Receipts.{Changes-IsConsistent, insert_request-cons}
use devfootnote_project.Answers.Requests.Starts.{names_request-apart}
use devfootnote_project.Answers.Schema.{
  AnswerRequest, AnswerState, Answers, insert_request, names_request,
}
use devfootnote_project.Base.{
  Bool-cases, List, Option, Option-cases, arith, inl, inr, is_some, none, refl, some, subst, sym,
  true, ℕ, ◌&&◌, ◌==◌, ◌≡◌,
}
use devfootnote_project.Base.Rows.{any-first-none, delete-none, first-delete_other}
use devfootnote_project.Base.Table.{first}
use devfootnote_project.Usage.Cleanup.{batch}

delete_receipt-Moves :
    (owner id now o i : ℕ) (t : Answers)
    → IsConsistent t
    → Moves (state_of o i t) (state_of o i (delete_receipt owner id now t))
unfolding Moves delete_receipt
delete_receipt-Moves owner id now o i t c =
    elim (Option-cases (first (deletable owner id now) t.requests)) [
      | inl free ↦
          rw (delete-none (deletable owner id now) t.requests free) (Moves-refl (state_of o i t))
      | inr (r, e_r) ↦ elim (Bool-cases ((owner == o) && (id == i))) [
        | inl own ↦
            let eq_o : owner ≡ o = ground arith in
            let eq_i : id ≡ i = ground arith in
            let gone =
              first-delete_own owner id (deletable owner id now) t.requests (λ y h. ground arith)
                c.distinct e_r in
            rw (sym eq_o) (rw (sym eq_i) (rw gone (to_none (state_of owner id t))))
        | inr apart ↦
            rw
              (first-delete_other (names_request o i) (deletable owner id now) t.requests
                (λ y n. let no_y = names_request-apart owner id o i y apart n in ground arith))
              (Moves-refl (state_of o i t))
      ]
    ]
  where
    to_none : (s : Option AnswerState) → Moves s none
    to_none none = tt
    to_none (some s) = tt

reserve-Moves :
    (new : AnswerRequest) (rows : List AnswerRequest) (o i : ℕ) (t : Answers)
    → insert_request new t.requests ≡ some rows
    → Moves (state_of o i t) (state_of o i (record t { requests = rows }))
unfolding Moves
reserve-Moves new rows o i t e =
    let (eq, apart) = insert_request-cons new t.requests e in
    rw eq (elim (Bool-cases (names_request o i new)) [
      | inl own ↦
          let eq_o : new.owner_id ≡ o = ground arith in
          let eq_i : new.request_id ≡ i = ground arith in
          let free = any-first-none (same_request new) t.requests apart in
          rw (sym eq_o) (rw (sym eq_i) (rw free tt))
      | inr other_row ↦ rw other_row (Moves-refl (state_of o i t))
    ])

-- One change moves every request on, or leaves it, or deletes it.
pub Change-Moves :
    (o i : ℕ) {t u : Answers}
    → Change t u
    → IsConsistent t
    → Moves (state_of o i t) (state_of o i u)
Change-Moves o i {t} (reserves new rows fresh_row e) c = reserve-Moves new rows o i t e
Change-Moves o i {t} (starts owner id attempt now found after e) c =
    start-Moves owner id attempt now o i t c e
Change-Moves o i {t} (finishes owner id e now ended_at after final_state over h) c =
    finish-Moves owner id e now ended_at o i t final_state h
Change-Moves o i {t} (clears owner id why after e) c =
    subst (Moves (state_of o i t)) (sym (clear_content-state_of owner id why o i t e))
      (Moves-refl (state_of o i t))
Change-Moves o i {t} (deletes owner id now) c = delete_receipt-Moves owner id now o i t c
Change-Moves o i {t} (scans held_elsewhere chosen_at now batch after e) c =
    subst (Moves (state_of o i t))
      (sym (reserve_batch-state_of held_elsewhere chosen_at now o i t e))
      (Moves-refl (state_of o i t))

-- A path of changes along which the receipt of a request is kept.
pub data Keeps (o i : ℕ) (t : Answers) : Answers → Type 0 where
  from_start : Keeps o i t t
  and_then :
      {u v : Answers} → Keeps o i t u → Change u v → is_some (state_of o i v) ≡ true → Keeps o i t v

pub Keeps-IsConsistent : {o i : ℕ} {t u : Answers} → Keeps o i t u → IsConsistent t → IsConsistent u
Keeps-IsConsistent from_start c = c
Keeps-IsConsistent (and_then path change kept) c =
    Changes-IsConsistent (then_one unchanged change) (Keeps-IsConsistent path c)

Follows-trans : {a b c : AnswerState} → Follows a b → Follows b c → Follows a c
Follows-trans (stays _) g = g
Follows-trans runs (stays _) = runs
Follows-trans runs (ends p f) = ends refl f
Follows-trans (ends p f) (stays _) = ends p f
Follows-trans (ends p f) runs = cc
Follows-trans (ends {s' = s'} p f) (ends q g) = ends p g

-- While the receipt of a request is kept, its state goes from waiting to running to one ending, and
-- never back. (The tables are consistent at first.)
pub Keeps-Follows :
    (o i : ℕ) {t u : Answers} (s s' : AnswerState)
    → Keeps o i t u
    → IsConsistent t
    → state_of o i t ≡ some s
    → state_of o i u ≡ some s'
    → Follows s s'
Keeps-Follows o i s s' from_start c e e' =
    let eq : s ≡ s' = ground arith in subst (Follows s) eq (stays s)
Keeps-Follows o i {t} s s' (and_then {u} {v} path change kept) c e e' =
    go (state_of o i u) refl (before u path) (λ m e_m. Keeps-Follows o i s m path c e e_m)
  where
    before : (u : Answers) → Keeps o i t u → is_some (state_of o i u) ≡ true
    before u from_start = rw e refl
    before u (and_then path change kept) = kept

    go :
        (m : Option AnswerState)
        → state_of o i u ≡ m
        → is_some (state_of o i u) ≡ true
        → ((m : AnswerState) → state_of o i u ≡ some m → Follows s m)
        → Follows s s'
    go none e_m some_m so_far = absurd (ground arith)
    go (some m) e_m some_m so_far =
        let moved = Change-Moves o i change (Keeps-IsConsistent path c) in
        Follows-trans (so_far m e_m)
          (Moves-Follows m s' (state_of o i u) (state_of o i v) e_m e' moved)
