-- ===== src/Base/Keys.antt =====
-- Tables with a primary key.
use devfootnote_project.Base.{
  Bool, Bool-cases, List, [], any, ap, arith, false, inl, inr, refl, some, subst, true, ℕ, ◌==◌,
  ◌∷◌, ◌≡◌,
}
use devfootnote_project.Base.Table.{All, delete, first, update}

module _ {ℓ} {A : Type ℓ} (key : A → ℕ) where
  abbrev pub Keyed : List A → Type 0
  Keyed [] = Unit
  Keyed (x ∷ xs) = (any (λ y. key y == key x) xs ≡ false) × Keyed xs

  pub any-update-key :
      (p : A → Bool) (f : A → A) (k : ℕ) (xs : List A)
      → ((x : A) → key (f x) ≡ key x)
      → any (λ y. key y == k) (update p f xs) ≡ any (λ y. key y == k) xs
  any-update-key p f k [] same_key = refl
  any-update-key p f k (x ∷ xs) same_key =
      ground (arith, same_key x, any-update-key p f k xs same_key)

  -- An update that keeps the keys keeps them distinct.
  pub Keyed-update :
      (p : A → Bool) (f : A → A) (xs : List A)
      → ((x : A) → key (f x) ≡ key x)
      → Keyed xs
      → Keyed (update p f xs)
  Keyed-update p f [] same_key h = tt
  Keyed-update p f (x ∷ xs) same_key (h, hs) = (
    ground (
      arith,
      same_key x,
      any-update-key p f (key x) xs same_key,
      any-update-key p f (key (f x)) xs same_key,
    ),
    Keyed-update p f xs same_key hs,
  )

  any-delete-key :
      (p : A → Bool) (k : ℕ) (xs : List A)
      → any (λ y. key y == k) xs ≡ false
      → any (λ y. key y == k) (delete p xs) ≡ false
  any-delete-key p k [] h = refl
  any-delete-key p k (x ∷ xs) h = ground (arith, any-delete-key p k xs)

  pub Keyed-delete : (p : A → Bool) (xs : List A) → Keyed xs → Keyed (delete p xs)
  Keyed-delete p [] h = tt
  Keyed-delete p (x ∷ xs) (h, hs) = elim (Bool-cases (p x)) [
    | inl gone ↦ rw gone (Keyed-delete p xs hs)
    | inr kept ↦ rw kept ((any-delete-key p (key x) xs h, Keyed-delete p xs hs))
  ]

module _ {ℓ} {A : Type ℓ} (key : A → ℕ) where
  any-first_key :
      (p : A → Bool) (xs : List A) {r : A}
      → first p xs ≡ some r
      → any (λ y. key y == key r) xs ≡ true
  any-first_key p [] e = cc
  any-first_key p (x ∷ xs) {r} e = elim (Bool-cases (p x)) [
    | inl t ↦
        let eq : x ≡ r = ground arith in let same_key : key x ≡ key r = ap key eq in ground arith
    | inr f ↦ let rest = any-first_key p xs {r = r} (ground arith) in ground arith
  ]

  -- Whatever the test by which a row was found, the rows that carry its key are that row.
  pub All-key :
      (p q : A → Bool) (xs : List A) {r : A}
      → ((x : A) → q x ≡ true → key x ≡ key r)
      → Keyed key xs
      → first p xs ≡ some r
      → All (λ x. q x ≡ true → x ≡ r) xs
  All-key p q [] same_key h e = tt
  All-key p q (x ∷ xs) {r} same_key (h, hs) e = elim (Bool-cases (p x)) [
    | inl t ↦
        let eq : x ≡ r = ground arith in
        (λ _. eq, none_below xs (subst (λ y. any (λ z. key z == key y) xs ≡ false) eq h))
    | inr f ↦
        let e' : first p xs ≡ some r = ground arith in
        (
          λ t. absurd (ground (arith, same_key x t, any-first_key p xs {r = r} e')),
          All-key p q xs same_key hs e',
        )
  ]
    where
      none_below :
          (ys : List A) → any (λ z. key z == key r) ys ≡ false → All (λ y. q y ≡ true → y ≡ r) ys
      none_below [] free = tt
      none_below (y ∷ ys) free =
          (λ t. absurd (ground (arith, same_key y t)), none_below ys (ground arith))
