-- ===== src/Base/Rows.antt =====
-- What the statements leave of the rows that a test finds.
use mathlib.Core.Option
use devfootnote_project.Base.{
  Bool, Bool-cases, List, [], any, arith, false, if◌then◌else◌, inl, inr, none, refl, true, ◌∷◌,
  ◌≡◌,
}
use devfootnote_project.Base.Table.{All, delete, first, select, update}

module _ {ℓ} {A : Type ℓ} where
  -- The row found by a test that an update leaves as it is.
  pub first-update-map :
      (p q : A → Bool) (f : A → A) (xs : List A)
      → ((y : A) → p (f y) ≡ p y)
      → first p (update q f xs) ≡ Option.map (λ x. if q x then f x else x) (first p xs)
  first-update-map p q f [] same_test = refl
  first-update-map p q f (y ∷ ys) same_test =
      ground (arith, same_test y, first-update-map p q f ys same_test)

  pub update-none :
      (q : A → Bool) (f : A → A) (xs : List A) → first q xs ≡ none → update q f xs ≡ xs
  update-none q f [] e = refl
  update-none q f (x ∷ xs) e = ground (arith, update-none q f xs)

  pub delete-none : (q : A → Bool) (xs : List A) → first q xs ≡ none → delete q xs ≡ xs
  delete-none q [] e = refl
  delete-none q (x ∷ xs) e = ground (arith, delete-none q xs)

  pub any-first-none : (p : A → Bool) (xs : List A) → any p xs ≡ false → first p xs ≡ none
  any-first-none p [] e = refl
  any-first-none p (x ∷ xs) e = ground (arith, any-first-none p xs)

  pub any-select_nil : (p : A → Bool) (xs : List A) → any p xs ≡ false → select p xs ≡ []
  any-select_nil p [] e = refl
  any-select_nil p (x ∷ xs) e = ground (arith, any-select_nil p xs)

  pub All-select : (p : A → Bool) (xs : List A) → All (λ x. p x ≡ true) (select p xs)
  All-select p [] = tt
  All-select p (x ∷ xs) = elim (Bool-cases (p x)) [
    | inl yes_x ↦ rw yes_x (yes_x, All-select p xs)
    | inr no_x ↦ rw no_x (All-select p xs)
  ]

  pub select-update :
      (p q : A → Bool) (f : A → A) (xs : List A)
      → ((y : A) → p (f y) ≡ p y)
      → select p (update q f xs) ≡ update q f (select p xs)
  select-update p q f [] same_test = refl
  select-update p q f (y ∷ ys) same_test =
      ground (arith, same_test y, select-update p q f ys same_test)

  -- An update or a delete of other rows.
  pub update-other :
      (p q : A → Bool) (f : A → A) (xs : List A)
      → ((y : A) → p y ≡ true → q y ≡ false)
      → All (λ x. p x ≡ true) xs
      → update q f xs ≡ xs
  update-other p q f [] apart all = refl
  update-other p q f (x ∷ xs) apart (a, all) =
      ground (arith, apart x a, update-other p q f xs apart all)

  pub first-update_other :
      (p q : A → Bool) (f : A → A) (xs : List A)
      → ((y : A) → p (f y) ≡ p y)
      → ((y : A) → p y ≡ true → q y ≡ false)
      → first p (update q f xs) ≡ first p xs
  first-update_other p q f [] same_test apart = refl
  first-update_other p q f (x ∷ xs) same_test apart =
      ground (arith, same_test x, apart x, first-update_other p q f xs same_test apart)

  pub select-delete_other :
      (p q : A → Bool) (xs : List A)
      → ((y : A) → p y ≡ true → q y ≡ false)
      → select p (delete q xs) ≡ select p xs
  select-delete_other p q [] apart = refl
  select-delete_other p q (x ∷ xs) apart = ground (arith, apart x, select-delete_other p q xs apart)

  pub first-delete_other :
      (p q : A → Bool) (xs : List A)
      → ((y : A) → p y ≡ true → q y ≡ false)
      → first p (delete q xs) ≡ first p xs
  first-delete_other p q [] apart = refl
  first-delete_other p q (x ∷ xs) apart = ground (arith, apart x, first-delete_other p q xs apart)

  pub select-delete : (p : A → Bool) (xs : List A) → select p (delete p xs) ≡ []
  select-delete p [] = refl
  select-delete p (x ∷ xs) = ground (arith, select-delete p xs)
