-- ===== src/Answers/Keys.antt =====
-- The primary key of the requests: no two rows have the same owner and the same request.
use devfootnote_project.Answers.Schema.{AnswerRequest, names_request}
use devfootnote_project.Base.{
  Bool, Bool-cases, List, [], any, arith, false, inl, inr, none, refl, some, true, ℕ, ◌∙◌, ◌∷◌, ◌≡◌,
}
use devfootnote_project.Base.Table.{delete, first, update}

abbrev pub same_request : AnswerRequest → AnswerRequest → Bool
same_request x = names_request x.owner_id x.request_id

abbrev pub Distinct : List AnswerRequest → Type 0
Distinct [] = Unit
Distinct (x ∷ xs) = (any (same_request x) xs ≡ false) × Distinct xs

any-first :
    (owner id : ℕ) (xs : List AnswerRequest) (x : AnswerRequest)
    → names_request owner id x ≡ true
    → any (same_request x) xs ≡ false
    → first (names_request owner id) xs ≡ none
any-first owner id [] x named e = refl
any-first owner id (y ∷ ys) x named e = ground (arith, any-first owner id ys x)

-- A row of a request, by whatever test it was found, is the one that its key finds.
pub first-key :
    (owner id : ℕ) (q : AnswerRequest → Bool) (xs : List AnswerRequest) {r : AnswerRequest}
    → ((y : AnswerRequest) → q y ≡ true → names_request owner id y ≡ true)
    → Distinct xs
    → first q xs ≡ some r
    → first (names_request owner id) xs ≡ some r
first-key owner id q [] named d e = cc
first-key owner id q (x ∷ xs) {r} named (apart, d) e = elim (Bool-cases (q x)) [
  | inl yes_x ↦ let n = named x yes_x in ground (arith, n)
  | inr no_x ↦
      let found = first-key owner id q xs {r = r} named d (ground arith) in
      elim (Bool-cases (names_request owner id x)) [
        | inl n ↦ absurd (let gone = any-first owner id xs x n apart in cc)
        | inr n ↦ rw n found
      ]
]

any-update_same :
    (x : AnswerRequest) (p : AnswerRequest → Bool) (f : AnswerRequest → AnswerRequest)
    (xs : List AnswerRequest)
    → ((y : AnswerRequest) → same_request x (f y) ≡ same_request x y)
    → any (same_request x) (update p f xs) ≡ any (same_request x) xs
any-update_same x p f [] same_key = refl
any-update_same x p f (y ∷ ys) same_key =
    ground (arith, same_key y, any-update_same x p f ys same_key)

-- An update that keeps the keys.
abbrev pub KeepsKey : (AnswerRequest → AnswerRequest) → Type 0
KeepsKey f = (y : AnswerRequest) → ((f y).owner_id ≡ y.owner_id) × ((f y).request_id ≡ y.request_id)

pub Distinct-update :
    (p : AnswerRequest → Bool) (f : AnswerRequest → AnswerRequest) (xs : List AnswerRequest)
    → KeepsKey f
    → Distinct xs
    → Distinct (update p f xs)
Distinct-update p f [] keeps d = tt
Distinct-update p f (x ∷ xs) keeps (apart, d) = (
  elim (Bool-cases (p x)) [
    | inl yes_x ↦ rw yes_x (
        rw (keeps x).0 (
          rw (keeps x).1
            (any-update_same x p f xs (λ y. rw (keeps y).0 (rw (keeps y).1 refl)) ∙ apart)))
    | inr no_x ↦
        rw no_x (any-update_same x p f xs (λ y. rw (keeps y).0 (rw (keeps y).1 refl)) ∙ apart)
  ],
  Distinct-update p f xs keeps d,
)

any-delete_same :
    (p q : AnswerRequest → Bool) (xs : List AnswerRequest)
    → any p xs ≡ false
    → any p (delete q xs) ≡ false
any-delete_same p q [] e = refl
any-delete_same p q (x ∷ xs) e = ground (arith, any-delete_same p q xs)

pub Distinct-delete :
    (q : AnswerRequest → Bool) (xs : List AnswerRequest) → Distinct xs → Distinct (delete q xs)
Distinct-delete q [] d = tt
Distinct-delete q (x ∷ xs) (apart, d) = elim (Bool-cases (q x)) [
  | inl gone ↦ rw gone (Distinct-delete q xs d)
  | inr kept ↦ rw kept (any-delete_same (same_request x) q xs apart, Distinct-delete q xs d)
]

-- The only row of a request, deleted.
pub first-delete_own :
    (owner id : ℕ) (q : AnswerRequest → Bool) (xs : List AnswerRequest) {r : AnswerRequest}
    → ((y : AnswerRequest) → q y ≡ true → names_request owner id y ≡ true)
    → Distinct xs
    → first q xs ≡ some r
    → first (names_request owner id) (delete q xs) ≡ none
first-delete_own owner id q [] named d e = refl
first-delete_own owner id q (x ∷ xs) {r} named (apart, d) e = elim (Bool-cases (q x)) [
  | inl gone ↦
      let free = any-first owner id xs x (named x gone) apart in
      let left = none_left xs free in rw gone left
  | inr kept ↦
      let later : first q xs ≡ some r = ground arith in
      let found = first-key owner id q xs {r = r} named d later in
      let rest = first-delete_own owner id q xs {r = r} named d later in
      elim (Bool-cases (names_request owner id x)) [
        | inl n ↦ absurd (let none_there = any-first owner id xs x n apart in cc)
        | inr n ↦ rw kept (rw n rest)
      ]
]
  where
    none_left :
        (ys : List AnswerRequest)
        → first (names_request owner id) ys ≡ none
        → first (names_request owner id) (delete q ys) ≡ none
    none_left [] e = refl
    none_left (y ∷ ys) e = ground (arith, none_left ys)
