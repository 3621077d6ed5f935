-- ===== src/Answers/Requests/Endings.antt =====
-- What ends and what is removed: `finish` and `deleteReceipt` keep the states and the attempts of
-- the requests in agreement.
use devfootnote_project.Answers.Requests.{
  Ending, end_attempt, finish, finish_request, finishable, open_attempt,
}
use devfootnote_project.Answers.Requests.Attempts.{Agrees}
use devfootnote_project.Answers.Requests.Changes.{is_final, update_requests-update}
use devfootnote_project.Answers.Schema.{
  AnswerAttempt, AnswerState, Answers, AttemptState, expired, failed, held, invalidated,
  is_of_request, is_pending, is_started, no_answer, published, requested, running, update_requests,
}
use devfootnote_project.Base.{
  Bool, List, [], arith, bind-some, every, false, length, not, refl, some, true, ℕ, ◌∷◌, ◌≡◌, ◌≤◌,
}
use devfootnote_project.Base.Table.{All, update}

-- The tables after `finish`.
abbrev pub tables_finished : ℕ → ℕ → Ending → ℕ → ℕ → Answers → Answers
tables_finished owner id e now ended_at t = record {
  requests = update (finishable owner id) (finish_request e now) t.requests;
  attempts = update (open_attempt owner id) (end_attempt e.outcome ended_at) t.attempts;
}

pub finish-tables :
    (owner id : ℕ) (e : Ending) (now ended_at : ℕ) (t : Answers) {after : Answers}
    → finish owner id e now ended_at t ≡ some after
    → after ≡ tables_finished owner id e now ended_at t
unfolding finish
finish-tables owner id e now ended_at t {after} h =
    let (rows, e_rows, e_after) =
      bind-some (update_requests (finishable owner id) (finish_request e now) t.requests) _ h in
    let eq_rows : rows ≡ update (finishable owner id) (finish_request e now) t.requests =
      update_requests-update _ _ _ e_rows in
    ground arith

abbrev Unstarted : List AnswerAttempt → Type 0
Unstarted attempts = every (λ (a : AnswerAttempt). not (is_started a.state)) attempts ≡ true

-- No attempt of the request stays started.
pub ended-Unstarted :
    (owner id : ℕ) (outcome : AttemptState) (now : ℕ) (xs : List AnswerAttempt)
    → is_started outcome ≡ false
    → All (λ a. is_of_request owner id a ≡ true) xs
    → Unstarted (update (open_attempt owner id) (end_attempt outcome now) xs)
ended-Unstarted owner id outcome now [] over all = refl
ended-Unstarted owner id outcome now (x ∷ xs) over (a, all) =
    ground (arith, ended-Unstarted owner id outcome now xs over all)

pub length-update :
    (p : AnswerAttempt → Bool) (f : AnswerAttempt → AnswerAttempt) (xs : List AnswerAttempt)
    → length (update p f xs) ≡ length xs
length-update p f [] = refl
length-update p f (x ∷ xs) = ground (arith, length-update p f xs)

pub Agrees-length : (s : AnswerState) (xs : List AnswerAttempt) → Agrees (some s) xs → length xs ≤ 1
Agrees-length requested xs a = rw a (omega arith)
Agrees-length held xs a = rw a (omega arith)
Agrees-length running xs (x, eq, _) = rw eq (omega arith)
Agrees-length published xs a = a.1
Agrees-length no_answer xs a = a.1
Agrees-length failed xs a = a.1
Agrees-length expired xs a = a.1
Agrees-length invalidated xs a = a.1

pub final-Agrees :
    (s : AnswerState) (xs : List AnswerAttempt)
    → is_final s ≡ true
    → Unstarted xs
    → length xs ≤ 1
    → Agrees (some s) xs
final-Agrees requested xs f u le = cc
final-Agrees held xs f u le = cc
final-Agrees running xs f u le = cc
final-Agrees published xs f u le = (u, le)
final-Agrees no_answer xs f u le = (u, le)
final-Agrees failed xs f u le = (u, le)
final-Agrees expired xs f u le = (u, le)
final-Agrees invalidated xs f u le = (u, le)

Unstarted-update :
    (owner id : ℕ) (f : AnswerAttempt → AnswerAttempt) (xs : List AnswerAttempt)
    → Unstarted xs
    → update (open_attempt owner id) f xs ≡ xs
Unstarted-update owner id f [] u = refl
Unstarted-update owner id f (y ∷ ys) u = ground (arith, Unstarted-update owner id f ys)

-- The attempts of a request that is not pending stay as they are, up to the started ones, of which
-- there are none.
pub kept-Agrees :
    (owner id : ℕ) (f : AnswerAttempt → AnswerAttempt) (s : AnswerState) (xs : List AnswerAttempt)
    → is_pending s ≡ false
    → Agrees (some s) xs
    → update (open_attempt owner id) f xs ≡ xs
kept-Agrees owner id f requested xs over a = rw a refl
kept-Agrees owner id f held xs over a = cc
kept-Agrees owner id f running xs over a = cc
kept-Agrees owner id f published xs over a = Unstarted-update owner id f xs a.0
kept-Agrees owner id f no_answer xs over a = Unstarted-update owner id f xs a.0
kept-Agrees owner id f failed xs over a = Unstarted-update owner id f xs a.0
kept-Agrees owner id f expired xs over a = Unstarted-update owner id f xs a.0
kept-Agrees owner id f invalidated xs over a = Unstarted-update owner id f xs a.0
