-- ===== src/Prelude/Orders.antt =====
-- Python's comparison of tuples: by the first component that differs.
use mathlib.Core.Path.{◌≡◌}
use mathlib.Core.Bool.{Bool, true, false}
use Prim.Native.Nat.{ℕ}
use native.Mathlib.Omega.{arith}
use why_combinator.Prelude.Tests.{if◌then◌else◌, leb, ltb}
use why_combinator.Prelude.Sort.{IsOrder}

-- What Python's `<` is on numbers: of two values at most one is less, and a third value lies above the
-- lower or below the upper one.
pub record IsLess {A : Type 0} (less : A → A → Bool) : Type 0 where
  pub asym : (x y : A) → less x y ≡ true → less y x ≡ false
  pub between : (x y z : A) → less x z ≡ true → less x y ≡ false → less y z ≡ true

module _ {A : Type 0} where
  -- `(x, …) <= (y, …)`, where `less` compares the first components and `rest` the others.
  abbrev pub lexicographic : (A → A → Bool) → (A → A → Bool) → A → A → Bool
  lexicographic less rest x y = if less x y then true else if less y x then false else rest x y

  pub lexicographic-IsOrder :
      (less rest : A → A → Bool) → IsLess less → IsOrder rest → IsOrder (lexicographic less rest)
  lexicographic-IsOrder less rest l o = record {
    total = λ x y h. ground (arith, l.asym x y, o.total x y);
    trans = λ x y z h k. ground (
      arith,
      o.trans x y z,
      l.asym x y,
      l.asym y z,
      l.asym x z,
      l.asym y x,
      l.asym z y,
      l.asym z x,
      l.between x y z,
      l.between x z y,
      l.between y x z,
      l.between y z x,
      l.between z x y,
      l.between z y x,
    );
  }

  pub IsLess-on :
      {B : Type 0} (less : B → B → Bool) (f : A → B)
      → IsLess less
      → IsLess (λ x y. less (f x) (f y))
  IsLess-on less f l = record {
    asym = λ x y. l.asym (f x) (f y);
    between = λ x y z. l.between (f x) (f y) (f z);
  }

  pub IsLess-flip : (less : A → A → Bool) → IsLess less → IsLess (λ x y. less y x)
  IsLess-flip less l = record {
    asym = λ x y. l.asym y x;
    between = λ x y z h n. ground (arith, l.between z y x);
  }

pub ltb-IsLess : IsLess ltb
ltb-IsLess = record { asym = λ x y h. ground arith; between = λ x y z h n. ground arith }

pub leb-on : {A : Type 0} (f : A → ℕ) → IsOrder (λ (x y : A). leb (f x) (f y))
leb-on f = record { total = λ x y h. ground arith; trans = λ x y z h k. ground arith }
