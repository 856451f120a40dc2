-- ===== src/Prelude/Results.antt =====
-- A Python call that returns or raises, with the exception as a value.
use mathlib.Core.Path.{◌≡◌, refl}
use mathlib.Core.Logic.{◌⊎◌, inl, inr}

pub data Outcome (E A : Type 0) : Type 0 where
  raise : E → Outcome E A
  ok : A → Outcome E A

-- What follows a call runs unless the call raises.
infixl 5 ◌>>=◌
abbrev pub ◌>>=◌ : {E A B : Type 0} → Outcome E A → (A → Outcome E B) → Outcome E B
call >>= next = elim call [ raise e ↦ raise e | ok a ↦ next a ]

pub Outcome-cases :
    {E A : Type 0} (o : Outcome E A) → ((e : E) × (o ≡ raise e)) ⊎ ((a : A) × (o ≡ ok a))
Outcome-cases (raise e) = inl (e, refl)
Outcome-cases (ok a) = inr (a, refl)

pub ok-injective : {E A : Type 0} (a b : A) → ◌≡◌ {A = Outcome E A} (ok a) (ok b) → a ≡ b
ok-injective a b h = cc

pub raise-ne-ok : {E A : Type 0} (e : E) (a : A) → ¬ ◌≡◌ {A = Outcome E A} (raise e) (ok a)
raise-ne-ok e a h = cc
