-- ===== src/Prelude/Unique.antt =====
-- Sorting forgets the order in which the elements came, where the order to sort by tells them apart.
use mathlib.Core.Path.{◌≡◌, refl, ◌∙◌, sym, ap}
use mathlib.Core.Bool.{Bool, true, false}
use mathlib.Core.Logic.{inl, inr}
use mathlib.Core.List.{List, [], ◌∷◌, Permᴰ, Memᴰ}
use mathlib.Core.List.Permᴰ
use why_combinator.Prelude.Tests.{Bool-cases}
use why_combinator.Prelude.Sort.{insert, sort, IsOrder}
use why_combinator.Prelude.Members.{Memᴰ-perm}

module _ {A : Type 0} {le : A → A → Bool} (o : IsOrder le) where
  -- Of two elements that are not equal in the order, the smaller one ends up first.
  insert_below :
      (x y : A) (zs : List A)
      → le x y ≡ true
      → le y x ≡ false
      → insert le x (insert le y zs) ≡ insert le y (insert le x zs)
  unfolding insert
  insert_below x y [] h n = rw (h, n) refl
  insert_below x y (z ∷ zs) h n = elim (Bool-cases (le y z)) [
    | inl t ↦
        let below : le x z ≡ true = o.trans x y z h t in rw t (rw (h, below) (rw n (rw t refl)))
    | inr f ↦ elim (Bool-cases (le x z)) [
      | inl t ↦ rw f (rw t (rw n (rw f refl)))
      | inr f' ↦ rw f (rw f' (rw f (ap (◌∷◌ z) (insert_below x y zs h n))))
    ]
  ]

  insert_comm :
      (x y : A) (zs : List A)
      → (le x y ≡ true → le y x ≡ true → x ≡ y)
      → insert le x (insert le y zs) ≡ insert le y (insert le x zs)
  insert_comm x y zs anti = elim (Bool-cases (le x y)) [
    | inl t ↦ elim (Bool-cases (le y x)) [
      | inl t' ↦ rw (anti t t') refl
      | inr f ↦ insert_below x y zs t f
    ]
    | inr f ↦ sym (insert_below y x zs (o.total x y f) f)
  ]

  -- The order tells the elements of a list apart.
  abbrev pub Separates : List A → Type 0
  Separates xs = (x y : A) → Memᴰ x xs → Memᴰ y xs → le x y ≡ true → le y x ≡ true → x ≡ y

  pub sort_unique : {xs ys : List A} → Permᴰ xs ys → Separates xs → sort le xs ≡ sort le ys
  unfolding sort
  sort_unique Permᴰ.nil h = refl
  sort_unique (Permᴰ.cons {a} {b} e d) h =
      let rest = sort_unique d (λ x y m n. h x y (Memᴰ.tail m) (Memᴰ.tail n)) in rw (e, rest) refl
  sort_unique (Permᴰ.swap {a} {b} {l = zs} e f) h =
      rw (sym e, sym f)
        (insert_comm a b (sort le zs) (h a b (Memᴰ.head refl) (Memᴰ.tail (Memᴰ.head refl))))
  sort_unique (Permᴰ.trans d d') h =
      sort_unique d h
      ∙ sort_unique d' (λ x y m n. h x y (Memᴰ-perm (Permᴰ.symm d) m) (Memᴰ-perm (Permᴰ.symm d) n))
