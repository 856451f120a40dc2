-- ===== src/Prelude/Selection.antt =====
-- What a loop that skips some elements collects.
use mathlib.Core.Path.{◌≡◌, refl, ◌∙◌, sym, ap}
use mathlib.Core.Bool.{Bool, false}
use mathlib.Core.Logic.{inl, inr}
use mathlib.Core.Option.{Option, none, some}
use mathlib.Core.List.{List, [], ◌∷◌, Permᴰ, Memᴰ}
use mathlib.Core.List.Permᴰ
use mathlib.Core.List.Memᴰ
use native.Mathlib.Omega.{arith}
use why_combinator.Prelude.Tests.{Option-cases}
use why_combinator.Prelude.Lists.{count}

module _ {B : Type 0} where
  -- `x` contributes `f x`, or is passed over.
  abbrev pub put_some : Option B → List B → List B
  put_some none bs = bs
  put_some (some b) bs = b ∷ bs

  put_some-perm :
      (o : Option B) {bs cs : List B} → Permᴰ bs cs → Permᴰ (put_some o bs) (put_some o cs)
  put_some-perm none d = d
  put_some-perm (some b) d = Permᴰ.cons refl d

  put_some-swap :
      (o o' : Option B) (bs : List B)
      → Permᴰ (put_some o (put_some o' bs)) (put_some o' (put_some o bs))
  put_some-swap none o' bs = Permᴰ.refl (put_some o' bs)
  put_some-swap (some b) none bs = Permᴰ.refl (b ∷ bs)
  put_some-swap (some b) (some b') bs = Permᴰ.swap refl refl

  abbrev pub passes : (B → Bool) → Option B → Bool
  passes p none = false
  passes p (some b) = p b

module _ {A B : Type 0} where
  unfoldable pub collect_some : (A → Option B) → List A → List B
  collect_some f [] = []
  collect_some f (x ∷ xs) = put_some (f x) (collect_some f xs)

  pub collect_some-perm :
      (f : A → Option B) {xs ys : List A}
      → Permᴰ xs ys
      → Permᴰ (collect_some f xs) (collect_some f ys)
  unfolding collect_some
  collect_some-perm f Permᴰ.nil = Permᴰ.nil
  collect_some-perm f (Permᴰ.cons {b} e d) = rw e (put_some-perm (f b) (collect_some-perm f d))
  collect_some-perm f (Permᴰ.swap {a' = a} {b' = b} {l} e e') =
      rw (e, e') (put_some-swap (f b) (f a) (collect_some f l))
  collect_some-perm f (Permᴰ.trans d d') =
      Permᴰ.trans (collect_some-perm f d) (collect_some-perm f d')

  pub collect_some-cong :
      (f g : A → Option B) (xs : List A)
      → ((x : A) → f x ≡ g x)
      → collect_some f xs ≡ collect_some g xs
  unfolding collect_some
  collect_some-cong f g [] h = refl
  collect_some-cong f g (x ∷ xs) h = rw (h x, collect_some-cong f g xs h) refl

  pub Memᴰ-collect_some :
      (f : A → Option B) {b : B} (xs : List A)
      → Memᴰ b (collect_some f xs)
      → (x : A) × Memᴰ x xs × (f x ≡ some b)
  unfolding collect_some
  Memᴰ-collect_some f [] m = absurd (Memᴰ.not-nil m)
  Memᴰ-collect_some f {b} (x ∷ xs) m = elim (Option-cases (f x)) [
    | inl e ↦ let (y, i, h) = Memᴰ-collect_some f xs (rw e at m) in (y, Memᴰ.tail i, h)
    | inr (c, e) ↦ elim (Memᴰ.cases_cons (rw e at m)) [
      | inl here ↦ (x, Memᴰ.head refl, e ∙ ap some (sym here))
      | inr k ↦ let (y, i, h) = Memᴰ-collect_some f xs k in (y, Memᴰ.tail i, h)
    ]
  ]

  pub count-collect_some :
      (p : B → Bool) (f : A → Option B) (xs : List A)
      → count p (collect_some f xs) ≡ count (λ x. passes p (f x)) xs
  unfolding collect_some
  count-collect_some p f [] = refl
  count-collect_some p f (x ∷ xs) = ground (arith, count-collect_some p f xs)
