-- ===== src/Prelude/Members.antt =====
-- The elements of a list.
use Prim.Native.Nat.{ℕ, zero, suc, ◌≤◌}
use mathlib.Core.Path.{◌≡◌, refl, ◌∙◌, sym, ap, subst}
use mathlib.Core.Logic.{inl, inr}
use mathlib.Core.Bool.{Bool, true, false}
use mathlib.Core.List.{List, [], ◌∷◌, ◌++◌, map, Memᴰ, Permᴰ}
use mathlib.Core.Option.{none-ne-some, some-injective, some}
use mathlib.Core.List.Memᴰ
use native.Mathlib.Omega.{arith}
use why_combinator.Prelude.Tests.{Bool-cases}
use why_combinator.Prelude.Lists.{All, any, filter, head?, take, count}

module _ {A : Type 0} where
  pub Memᴰ-perm : {a : A} {xs ys : List A} → Permᴰ xs ys → Memᴰ a xs → Memᴰ a ys
  Memᴰ-perm {a = a} Permᴰ.nil m = elim m [ ]
  Memᴰ-perm (Permᴰ.cons e d) (Memᴰ.head p) = Memᴰ.head (p ∙ e)
  Memᴰ-perm (Permᴰ.cons e d) (Memᴰ.tail m) = Memᴰ.tail (Memᴰ-perm d m)
  Memᴰ-perm (Permᴰ.swap e f) (Memᴰ.head p) = Memᴰ.tail (Memᴰ.head (p ∙ e))
  Memᴰ-perm (Permᴰ.swap e f) (Memᴰ.tail (Memᴰ.head p)) = Memᴰ.head (p ∙ f)
  Memᴰ-perm (Permᴰ.swap e f) (Memᴰ.tail (Memᴰ.tail m)) = Memᴰ.tail (Memᴰ.tail m)
  Memᴰ-perm (Permᴰ.trans d d') m = Memᴰ-perm d' (Memᴰ-perm d m)

  pub Memᴰ-filter :
      {a : A} (p : A → Bool) (xs : List A) → Memᴰ a (filter p xs) → Memᴰ a xs × (p a ≡ true)
  Memᴰ-filter p [] m = absurd (Memᴰ.not-nil m)
  Memᴰ-filter {a} p (x ∷ xs) m = elim (Bool-cases (p x)) [
    | inl t ↦
        let kept : filter p (x ∷ xs) ≡ x ∷ filter p xs = rw t refl in
        elim (Memᴰ.cases_cons (subst (λ l. Memᴰ a l) kept m)) [
          | inl e ↦ (Memᴰ.head e, subst (λ y. p y ≡ true) (sym e) t)
          | inr k ↦ let (i, h) = Memᴰ-filter p xs k in (Memᴰ.tail i, h)
        ]
    | inr n ↦
        let left : filter p (x ∷ xs) ≡ filter p xs = rw n refl in
        let (i, h) = Memᴰ-filter p xs (subst (λ l. Memᴰ a l) left m) in (Memᴰ.tail i, h)
  ]

  pub Memᴰ-filter_in :
      {a : A} (p : A → Bool) (xs : List A) → Memᴰ a xs → p a ≡ true → Memᴰ a (filter p xs)
  Memᴰ-filter_in {a = a} p [] m h = elim m [ ]
  Memᴰ-filter_in {a = a} p (x ∷ xs) (Memᴰ.head e) h =
      let kept : filter p (x ∷ xs) ≡ x ∷ filter p xs = rw (subst (λ y. p y ≡ true) e h) refl in
      rw kept (Memᴰ.head e)
  Memᴰ-filter_in {a = a} p (x ∷ xs) (Memᴰ.tail m) h = elim (Bool-cases (p x)) [
    | inl t ↦ rw t (Memᴰ.tail (Memᴰ-filter_in p xs m h))
    | inr n ↦ rw n (Memᴰ-filter_in p xs m h)
  ]

  pub any-Memᴰ : {a : A} (p : A → Bool) (xs : List A) → Memᴰ a xs → p a ≡ true → any p xs ≡ true
  any-Memᴰ {a = a} p [] m h = elim m [ ]
  any-Memᴰ p (x ∷ xs) (Memᴰ.head e) h = ground arith
  any-Memᴰ p (x ∷ xs) (Memᴰ.tail m) h = ground (arith, any-Memᴰ p xs m h)

  pub any-none :
      (p : A → Bool) (xs : List A) → ((a : A) → Memᴰ a xs → p a ≡ false) → any p xs ≡ false
  any-none p [] h = refl
  any-none p (x ∷ xs) h =
      let first = h x (Memᴰ.head refl) in ground (arith, any-none p xs (λ a m. h a (Memᴰ.tail m)))

  pub map-cong :
      {B : Type 0} (f g : A → B) (xs : List A)
      → ((a : A) → Memᴰ a xs → f a ≡ g a)
      → map f xs ≡ map g xs
  map-cong f g [] h = refl
  map-cong f g (x ∷ xs) h = cc (h x (Memᴰ.head refl), map-cong f g xs (λ a m. h a (Memᴰ.tail m)))

pub All-of : {A : Type 0} (P : A → Type 0) (xs : List A) → ((a : A) → Memᴰ a xs → P a) → All P xs
All-of P [] h = tt
All-of P (x ∷ xs) h = (h x (Memᴰ.head refl), All-of P xs (λ a m. h a (Memᴰ.tail m)))

pub All-at : {A : Type 0} (P : A → Type 0) (a : A) (xs : List A) → All P xs → Memᴰ a xs → P a
All-at P a [] h m = absurd (Memᴰ.not-nil m)
All-at P a (x ∷ xs) h m = elim (Memᴰ.cases_cons m) [
  | inl here ↦ subst P (sym here) h.0
  | inr there ↦ All-at P a xs h.1 there
]

pub Memᴰ-head? : {A : Type 0} {a : A} (xs : List A) → head? xs ≡ some a → Memᴰ a xs
Memᴰ-head? {a = a} [] e = absurd (none-ne-some a e)
Memᴰ-head? {a = a} (x ∷ xs) e = Memᴰ.head (sym (some-injective x a e))

pub Memᴰ-take : {A : Type 0} {a : A} (n : ℕ) (xs : List A) → Memᴰ a (take n xs) → Memᴰ a xs
Memᴰ-take {a = a} zero xs m = elim m [ ]
Memᴰ-take {a = a} (suc n) [] m = elim m [ ]
Memᴰ-take (suc n) (x ∷ xs) (Memᴰ.head e) = Memᴰ.head e
Memᴰ-take (suc n) (x ∷ xs) (Memᴰ.tail m) = Memᴰ.tail (Memᴰ-take n xs m)

pub Memᴰ-last : {A : Type 0} (a : A) (xs : List A) → Memᴰ a (xs ++ a ∷ [])
Memᴰ-last a [] = Memᴰ.head refl
Memᴰ-last a (x ∷ xs) = Memᴰ.tail (Memᴰ-last a xs)

Memᴰ-count :
    {A : Type 0} {a : A} (p : A → Bool) (xs : List A) → Memᴰ a xs → p a ≡ true → 1 ≤ count p xs
Memᴰ-count {a = a} p [] m h = elim m [ ]
Memᴰ-count p (x ∷ xs) (Memᴰ.head e) h =
    let t : p x ≡ true = subst (λ y. p y ≡ true) e h in ground (arith, t)
Memᴰ-count p (x ∷ xs) (Memᴰ.tail m) h = ground (arith, Memᴰ-count p xs m h)

-- Where at most one element passes a test, any two that pass are the same.
pub only_one :
    {A : Type 0} {a b : A} (p : A → Bool) (xs : List A)
    → count p xs ≤ 1
    → Memᴰ a xs
    → Memᴰ b xs
    → p a ≡ true
    → p b ≡ true
    → a ≡ b
only_one {a = a} p [] u m n h k = elim m [ ]
only_one p (x ∷ xs) u (Memᴰ.head e) (Memᴰ.head e') h k = e ∙ sym e'
only_one p (x ∷ xs) u (Memᴰ.head e) (Memᴰ.tail n) h k =
    let t : p x ≡ true = subst (λ y. p y ≡ true) e h in
    absurd (ground (arith, t, Memᴰ-count p xs n k))
only_one p (x ∷ xs) u (Memᴰ.tail m) (Memᴰ.head e) h k =
    let t : p x ≡ true = subst (λ y. p y ≡ true) e k in
    absurd (ground (arith, t, Memᴰ-count p xs m h))
only_one p (x ∷ xs) u (Memᴰ.tail m) (Memᴰ.tail n) h k = only_one p xs (ground arith) m n h k

pub only :
    {A : Type 0} {a : A} (xs : List A)
    → Memᴰ a xs
    → ((x : A) → Memᴰ x xs → x ≡ a)
    → head? xs ≡ some a
only [] m h = absurd (Memᴰ.not-nil m)
only (x ∷ xs) m h = ap some (h x (Memᴰ.head refl))

pub Memᴰ-append_left : {A : Type 0} {a : A} (xs ys : List A) → Memᴰ a xs → Memᴰ a (xs ++ ys)
Memᴰ-append_left {a = a} [] ys m = elim m [ ]
Memᴰ-append_left (x ∷ xs) ys (Memᴰ.head e) = Memᴰ.head e
Memᴰ-append_left (x ∷ xs) ys (Memᴰ.tail m) = Memᴰ.tail (Memᴰ-append_left xs ys m)
