-- ===== src/Base/Table.antt =====
-- SQL statements on a table, which is the list of its rows.
use Prim.Native.Nat.{ℕ, ◌+◌, ◌≤◌}
use mathlib.Core.Path.{◌≡◌, refl, subst}
use mathlib.Core.Bool.{Bool, true, false}
use mathlib.Core.Option.{Option, none, some}
use mathlib.Core.List.{List, [], ◌∷◌}
use native.Mathlib.Omega.{arith}
use mathlib.Core.Logic.{inl, inr}
use devfootnote_project.Base.{Bool-cases, any, if◌then◌else◌}

module _ {ℓ} {A : Type ℓ} where
  -- `select … where p`
  abbrev pub select : (A → Bool) → List A → List A
  select p [] = []
  select p (x ∷ xs) = if p x then x ∷ select p xs else select p xs

  -- `const [row] = await tx.select() … where p`
  abbrev pub first : (A → Bool) → List A → Option A
  first p [] = none
  first p (x ∷ xs) = if p x then some x else first p xs

  -- `update … set f where p`
  abbrev pub update : (A → Bool) → (A → A) → List A → List A
  update p f [] = []
  update p f (x ∷ xs) = (if p x then f x else x) ∷ update p f xs

  -- `delete … where p`
  abbrev pub delete : (A → Bool) → List A → List A
  delete p [] = []
  delete p (x ∷ xs) = if p x then delete p xs else x ∷ delete p xs

  -- `select sum(amount)`
  abbrev pub sum_of : (A → ℕ) → List A → ℕ
  sum_of g [] = 0
  sum_of g (x ∷ xs) = g x + sum_of g xs

  -- What holds of every row.
  abbrev pub All {κ} : (A → Type κ) → List A → Type κ
  All P [] = Unit
  All P (x ∷ xs) = P x × All P xs

module _ {ℓ} {A : Type ℓ} (p : A → Bool) (f : A → A) where
  pub sum_of-update-le :
      (g : A → ℕ) (xs : List A)
      → ((x : A) → p x ≡ true → g (f x) ≤ g x)
      → sum_of g (update p f xs) ≤ sum_of g xs
  sum_of-update-le g [] h = omega arith
  sum_of-update-le g (x ∷ xs) h = ground (arith, h x, sum_of-update-le g xs h)

  pub All-update {κ} :
      (P : A → Type κ) (xs : List A)
      → ((x : A) → p x ≡ true → P x → P (f x))
      → All P xs
      → All P (update p f xs)
  All-update P [] h a = tt
  All-update P (x ∷ xs) h (a, rest) = (go (p x) refl, All-update P xs h rest)
    where
      go : (b : Bool) → p x ≡ b → P (if b then f x else x)
      go true e = h x e a
      go false e = a

module _ {ℓ} {A : Type ℓ} where
  pub sum_of-delete-le :
      (p : A → Bool) (g : A → ℕ) (xs : List A) → sum_of g (delete p xs) ≤ sum_of g xs
  sum_of-delete-le p g [] = omega arith
  sum_of-delete-le p g (x ∷ xs) = ground (arith, sum_of-delete-le p g xs)

  pub sum_of_mono : (g h : A → ℕ) (xs : List A) → ((x : A) → g x ≤ h x) → sum_of g xs ≤ sum_of h xs
  sum_of_mono g h [] le = omega arith
  sum_of_mono g h (x ∷ xs) le = omega (arith, le x, sum_of_mono g h xs le)

  pub first-holds : (p : A → Bool) (xs : List A) {x : A} → first p xs ≡ some x → p x ≡ true
  first-holds p [] e = cc
  first-holds p (y ∷ ys) {x} e = ground (arith, first-holds p ys {x = x})

  pub All-first {κ} :
      (P : A → Type κ) (p : A → Bool) (xs : List A) {x : A} → All P xs → first p xs ≡ some x → P x
  All-first P p [] a e = cc
  All-first P p (y ∷ ys) {x} (a, rest) e = elim (Bool-cases (p y)) [
    | inl yes_y ↦ let eq : y ≡ x = ground arith in subst P eq a
    | inr no_y ↦ All-first P p ys {x = x} rest (ground arith)
  ]

module _ {ℓ} {A : Type ℓ} where
  insert_ordered : (A → A → Bool) → A → List A → List A
  insert_ordered before x [] = x ∷ []
  insert_ordered before x (y ∷ ys) =
      if before x y then x ∷ y ∷ ys else y ∷ insert_ordered before x ys

  -- `order by`
  unfoldable pub order_by : (A → A → Bool) → List A → List A
  unfolding insert_ordered
  order_by before [] = []
  order_by before (x ∷ xs) = insert_ordered before x (order_by before xs)

-- A primary key: no two rows have the same key.
module _ {ℓ} {A : Type ℓ} (p : A → Bool) (f : A → A) where
  -- The same with a hypothesis on the rows of the table alone.
  pub sum_of-update-le_on :
      (g : A → ℕ) (xs : List A)
      → All (λ x. p x ≡ true → g (f x) ≤ g x) xs
      → sum_of g (update p f xs) ≤ sum_of g xs
  sum_of-update-le_on g [] h = omega arith
  sum_of-update-le_on g (x ∷ xs) (h, hs) = ground (arith, sum_of-update-le_on g xs hs)

module _ {ℓ κ μ} {A : Type ℓ} {P : A → Type κ} {Q : A → Type μ} where
  pub All-map : (xs : List A) → ((x : A) → P x → Q x) → All P xs → All Q xs
  All-map [] h a = tt
  All-map (x ∷ xs) h (a, rest) = (h x a, All-map xs h rest)

module _ {ℓ κ} {A : Type ℓ} (P : A → Type κ) where
  pub All-update_on :
      (p : A → Bool) (f : A → A) (xs : List A)
      → All (λ x. p x ≡ true → P x → P (f x)) xs
      → All P xs
      → All P (update p f xs)
  All-update_on p f [] h a = tt
  All-update_on p f (x ∷ xs) (h, hs) (a, rest) = (go (p x) refl, All-update_on p f xs hs rest)
    where
      go : (b : Bool) → p x ≡ b → P (if b then f x else x)
      go true e = h e a
      go false e = a

  pub All-delete : (p : A → Bool) (xs : List A) → All P xs → All P (delete p xs)
  All-delete p [] a = tt
  All-delete p (x ∷ xs) (a, rest) = elim (Bool-cases (p x)) [
    | inl gone ↦ rw gone (All-delete p xs rest)
    | inr kept ↦ rw kept (a, All-delete p xs rest)
  ]

module _ {ℓ} {A : Type ℓ} where
  -- An update that leaves a test as it is changes the row found by it, or another.
  pub first-update :
      (p q : A → Bool) (f : A → A) (xs : List A) {x : A}
      → ((y : A) → p (f y) ≡ p y)
      → first p xs ≡ some x
      → first p (update q f xs) ≡ some (if q x then f x else x)
  first-update p q f [] same_test e = cc
  first-update p q f (y ∷ ys) {x} same_test e = elim (Bool-cases (p y)) [
    | inl yes_y ↦
        let eq : y ≡ x = ground arith in
        subst (λ z. first p (update q f (y ∷ ys)) ≡ some (if q z then f z else z)) eq
          (ground (arith, same_test y))
    | inr no_y ↦ ground (arith, same_test y, first-update p q f ys {x = x} same_test)
  ]

module _ {ℓ κ} {A : Type ℓ} {P : Type κ} where
  -- A row that passes a test, when every such row gives the conclusion.
  pub any-All : (p : A → Bool) (xs : List A) → any p xs ≡ true → All (λ x. p x ≡ true → P) xs → P
  any-All p [] e h = absurd (ground arith)
  any-All p (x ∷ xs) e (h, hs) = elim (Bool-cases (p x)) [
    | inl yes_x ↦ h yes_x
    | inr no_x ↦ any-All p xs (ground (arith, no_x)) hs
  ]
