-- ===== src/Indexing/Works/Tracking.antt =====
-- How the attempts of a work go with its state: a work in the state `CALLING` has one started
-- attempt, under the token of its lease, and any other work has none.
use devfootnote_project.Base.{
  Bool, List, Option, [], arith, false, holds, length, none, refl, true, ℕ, ◌&&◌, ◌+◌, ◌==◌, ◌∙◌,
  ◌∷◌, ◌≡◌, ◌≤◌,
}
use devfootnote_project.Base.Keys.{Keyed}
use devfootnote_project.Base.Table.{All, All-map, All-update, select, sum_of, sum_of_mono, update}
use devfootnote_project.Indexing.Schema.{
  Attempt, Failure, Index, Outcome, Work, calling, in_state, is_started, work_check,
}
use devfootnote_project.Indexing.Works.{finish_attempt}

-- An unfinished attempt of the work `k`.
abbrev pub started_for : ℕ → Attempt → Bool
started_for k a = (a.work_id == k) && is_started a.outcome

abbrev pub one_if : Bool → ℕ
one_if true = 1
one_if false = 0

unfoldable pub started_in : ℕ → List Attempt → ℕ
started_in k = sum_of (λ a. one_if (started_for k a))

-- Those under a token.
unfoldable pub held_in : Option ℕ → ℕ → List Attempt → ℕ
held_in token k = sum_of (λ a. one_if (started_for k a && holds token a.lease_token))

pub held-le-started :
    (token : Option ℕ) (k : ℕ) (attempts : List Attempt)
    → held_in token k attempts ≤ started_in k attempts
unfolding held_in started_in
held-le-started token k attempts = sum_of_mono _ _ attempts (λ a. ground arith)

-- Of the work `k`, which holds a token, is or is not calling, and has made `n` attempts.
pub record TracksAt (k : ℕ) (token : Option ℕ) (in_call : Bool) (n : ℕ) (attempts : List Attempt)
    : Type 0 where
  pub count : started_in k attempts ≡ one_if in_call
  pub held : held_in token k attempts ≡ one_if in_call
  pub numbers : All (λ (a : Attempt). (a.work_id == k) ≡ true → a.number ≤ n) attempts

abbrev pub Tracks : List Attempt → Work → Type 0
Tracks attempts w = TracksAt w.id w.lease_token (in_state w.state calling) w.attempt_count attempts

-- What holds of the works and attempts between transactions.
pub record Consistent (works : List Work) (attempts : List Attempt) : Type 0 where
  pub keyed : Keyed (λ (w : Work). w.id) works
  pub checked : All (λ w. work_check w ≡ true) works
  pub tracked : All (Tracks attempts) works

abbrev pub IsConsistent : Index → Type 0
IsConsistent index = Consistent index.works index.attempts

module _ (k : ℕ) where
  -- Outside a call the token does not matter.
  pub TracksAt-retoken :
      (token token' : Option ℕ) (n : ℕ) (attempts : List Attempt)
      → TracksAt k token false n attempts
      → TracksAt k token' false n attempts
  TracksAt-retoken token token' n attempts h = record {
    count = h.count;
    held = omega (arith, h.count, held-le-started token' k attempts);
    numbers = h.numbers;
  }

  pub TracksAt-cons_other :
      (token : Option ℕ) (in_call : Bool) (n : ℕ) (a : Attempt) (attempts : List Attempt)
      → (a.work_id == k) ≡ false
      → TracksAt k token in_call n attempts
      → TracksAt k token in_call n (a ∷ attempts)
  unfolding started_in held_in
  TracksAt-cons_other token in_call n a attempts other_work h = record {
    count = ground (arith, h.count);
    held = ground (arith, h.held);
    numbers = (λ e. absurd (ground arith), h.numbers);
  }

  -- The start of a call.
  pub TracksAt-cons_started :
      (token : Option ℕ) (n : ℕ) (a : Attempt) (attempts : List Attempt)
      → started_for k a ≡ true
      → holds token a.lease_token ≡ true
      → a.number ≤ n + 1
      → TracksAt k token false n attempts
      → TracksAt k token true (n + 1) (a ∷ attempts)
  unfolding started_in held_in
  TracksAt-cons_started token n a attempts for_k same_token small h = record {
    count = ground (arith, h.count);
    held = ground (arith, h.held);
    numbers = (λ e. small, All-map attempts (λ x le e. omega (arith, le e)) h.numbers);
  }

  module _ (p : Attempt → Bool) (o : Outcome) (f : Option Failure) (now : ℕ) where
    numbers-update :
        (n : ℕ) (attempts : List Attempt)
        → All (λ (a : Attempt). (a.work_id == k) ≡ true → a.number ≤ n) attempts
        → All
            (λ (a : Attempt). (a.work_id == k) ≡ true → a.number ≤ n)
            (update p (finish_attempt o f now) attempts)
    numbers-update n attempts h =
        All-update p (finish_attempt o f now) (λ a. (a.work_id == k) ≡ true → a.number ≤ n) attempts
          (λ a e le. le) h

    started_in-update_other :
        (attempts : List Attempt)
        → ((a : Attempt) → p a ≡ true → (a.work_id == k) ≡ false)
        → started_in k (update p (finish_attempt o f now) attempts) ≡ started_in k attempts
    unfolding started_in
    started_in-update_other [] others = refl
    started_in-update_other (a ∷ attempts) others =
        ground (arith, others a, started_in-update_other attempts others)

    held_in-update_other :
        (token : Option ℕ) (attempts : List Attempt)
        → ((a : Attempt) → p a ≡ true → (a.work_id == k) ≡ false)
        → held_in token k (update p (finish_attempt o f now) attempts) ≡ held_in token k attempts
    unfolding held_in
    held_in-update_other token [] others = refl
    held_in-update_other token (a ∷ attempts) others =
        ground (arith, others a, held_in-update_other token attempts others)

    -- The end of attempts of other works.
    pub TracksAt-update_other :
        (token : Option ℕ) (in_call : Bool) (n : ℕ) (attempts : List Attempt)
        → ((a : Attempt) → p a ≡ true → (a.work_id == k) ≡ false)
        → TracksAt k token in_call n attempts
        → TracksAt k token in_call n (update p (finish_attempt o f now) attempts)
    TracksAt-update_other token in_call n attempts others h = record {
      count = started_in-update_other attempts others ∙ h.count;
      held = held_in-update_other token attempts others ∙ h.held;
      numbers = numbers-update n attempts h.numbers;
    }

    started_in-finish :
        (attempts : List Attempt)
        → is_started o ≡ false
        → ((a : Attempt) → p a ≡ true → started_for k a ≡ true)
        → started_in k (update p (finish_attempt o f now) attempts) + length (select p attempts)
          ≡ started_in k attempts
    unfolding started_in
    started_in-finish [] ends of_k = refl
    started_in-finish (a ∷ attempts) ends of_k =
        ground (arith, of_k a, started_in-finish attempts ends of_k)

    -- The end of the one started attempt.
    pub TracksAt-finish :
        (token : Option ℕ) (in_call : Bool) (n : ℕ) (attempts : List Attempt)
        → is_started o ≡ false
        → ((a : Attempt) → p a ≡ true → started_for k a ≡ true)
        → length (select p attempts) ≡ one_if in_call
        → TracksAt k token in_call n attempts
        → TracksAt k none false n (update p (finish_attempt o f now) attempts)
    TracksAt-finish token in_call n attempts ends of_k all_of_them h =
        let none_left = started_in-finish attempts ends of_k in
        record {
          count = omega (arith, none_left, h.count, all_of_them);
          held = omega (
            arith,
            none_left,
            h.count,
            all_of_them,
            held-le-started none k (update p (finish_attempt o f now) attempts),
          );
          numbers = numbers-update n attempts h.numbers;
        }

pub length-select :
    (token : Option ℕ) (k : ℕ) (attempts : List Attempt)
    → length (select (λ a. started_for k a && holds token a.lease_token) attempts)
      ≡ held_in token k attempts
unfolding held_in
length-select token k [] = refl
length-select token k (a ∷ attempts) = ground (arith, length-select token k attempts)
