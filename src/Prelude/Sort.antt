-- ===== src/Prelude/Sort.antt =====
-- Python's `sorted` and SQL's ORDER BY over a Boolean order, and what a sorted list is.
use mathlib.Core.Path.{◌≡◌, refl}
use mathlib.Core.Bool.{Bool, true, false}
use mathlib.Core.Logic.{inl, inr}
use mathlib.Core.List.{List, [], ◌∷◌, Permᴰ}
use mathlib.Core.List.Permᴰ
use why_combinator.Prelude.Tests.{if◌then◌else◌, Bool-cases}
use why_combinator.Prelude.Lists.{All}

module _ {A : Type 0} (le : A → A → Bool) where
  -- Before the first element that is not less, so equal elements keep their order.
  unfoldable pub insert : A → List A → List A
  insert x [] = x ∷ []
  insert x (y ∷ ys) = if le x y then x ∷ y ∷ ys else y ∷ insert x ys

  unfoldable pub sort : List A → List A
  unfolding insert
  sort [] = []
  sort (x ∷ xs) = insert x (sort xs)

  insert-perm : (x : A) (ys : List A) → Permᴰ (insert x ys) (x ∷ ys)
  unfolding insert
  insert-perm x [] = Permᴰ.refl (x ∷ [])
  insert-perm x (y ∷ ys) = elim (Bool-cases (le x y)) [
    | inl t ↦ rw t (Permᴰ.refl (x ∷ y ∷ ys))
    | inr f ↦ rw f (Permᴰ.trans (Permᴰ.cons refl (insert-perm x ys)) (Permᴰ.swap refl refl))
  ]

  pub sort-perm : (xs : List A) → Permᴰ (sort xs) xs
  unfolding sort
  sort-perm [] = Permᴰ.nil
  sort-perm (x ∷ xs) = Permᴰ.trans (insert-perm x (sort xs)) (Permᴰ.cons refl (sort-perm xs))

  -- Every element is at most every later one.
  abbrev pub IsSorted : List A → Type 0
  IsSorted [] = Unit
  IsSorted (x ∷ xs) = All (λ y. le x y ≡ true) xs × IsSorted xs

-- What a Boolean test needs to be an order to sort by.
pub record IsOrder {A : Type 0} (le : A → A → Bool) : Type 0 where
  pub total : (x y : A) → le x y ≡ false → le y x ≡ true
  pub trans : (x y z : A) → le x y ≡ true → le y z ≡ true → le x z ≡ true

module _ {A : Type 0} {le : A → A → Bool} (o : IsOrder le) where
  All-below :
      (x y : A) (ys : List A)
      → le x y ≡ true
      → All (λ z. le y z ≡ true) ys
      → All (λ z. le x z ≡ true) ys
  All-below x y [] h all = tt
  All-below x y (z ∷ zs) h all = (o.trans x y z h all.0, All-below x y zs h all.1)

  All-insert :
      (w x : A) (ys : List A)
      → le w x ≡ true
      → All (λ z. le w z ≡ true) ys
      → All (λ z. le w z ≡ true) (insert le x ys)
  unfolding insert
  All-insert w x [] h all = (h, tt)
  All-insert w x (y ∷ ys) h all = elim (Bool-cases (le x y)) [
    | inl t ↦ rw t (h, all)
    | inr f ↦ rw f (all.0, All-insert w x ys h all.1)
  ]

  insert-IsSorted : (x : A) (ys : List A) → IsSorted le ys → IsSorted le (insert le x ys)
  unfolding insert
  insert-IsSorted x [] s = (tt, tt)
  insert-IsSorted x (y ∷ ys) s = elim (Bool-cases (le x y)) [
    | inl t ↦ rw t ((t, All-below x y ys t s.0), s)
    | inr f ↦ rw f (All-insert y x ys (o.total x y f) s.0, insert-IsSorted x ys s.1)
  ]

  pub sort-IsSorted : (xs : List A) → IsSorted le (sort le xs)
  unfolding sort
  sort-IsSorted [] = tt
  sort-IsSorted (x ∷ xs) = insert-IsSorted x (sort le xs) (sort-IsSorted xs)

module _ {A : Type 0} (P : A → Type 0) where
  insert-All : (le : A → A → Bool) (x : A) (ys : List A) → P x → All P ys → All P (insert le x ys)
  unfolding insert
  insert-All le x [] p all = (p, tt)
  insert-All le x (y ∷ ys) p all = elim (Bool-cases (le x y)) [
    | inl t ↦ rw t (p, all)
    | inr f ↦ rw f (all.0, insert-All le x ys p all.1)
  ]

  pub sort-All : (le : A → A → Bool) (xs : List A) → All P xs → All P (sort le xs)
  unfolding sort
  sort-All le [] all = tt
  sort-All le (x ∷ xs) all = insert-All le x (sort le xs) all.0 (sort-All le xs all.1)

  module _ (le le' : A → A → Bool) (same : (x y : A) → P x → P y → le x y ≡ le' x y) where
    insert-cong : (x : A) (ys : List A) → P x → All P ys → insert le x ys ≡ insert le' x ys
    unfolding insert
    insert-cong x [] p all = refl
    insert-cong x (y ∷ ys) p all = rw (same x y p all.0, insert-cong x ys p all.1) refl

    -- Two tests that agree on the elements of a list sort it alike.
    pub sort-cong : (xs : List A) → All P xs → sort le xs ≡ sort le' xs
    unfolding sort
    sort-cong [] all = refl
    sort-cong (x ∷ xs) all =
        rw (sort-cong xs all.1) (insert-cong x (sort le' xs) all.0 (sort-All le' xs all.1))
