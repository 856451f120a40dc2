-- ===== src/Platform/Floats.antt =====
-- Python's floats: a type with its operations. What a theorem needs of them it names.
use why_combinator.Prelude.{ℕ, ◌+◌, ◌*◌, ◌/◌, ◌-◌, ◌^◌, Bool, true, ltb, if◌then◌else◌}

pub record Floats : Type 1 where
  pub Float : Type 0
  pub of_int : ℕ → Float
  -- the literal of a decimal fraction, `decimal 8 1` for 0.8
  pub decimal : ℕ → ℕ → Float
  pub less : Float → Float → Bool
  -- `math.isfinite`
  pub is_finite : Float → Bool
  pub add : Float → Float → Float
  pub sub : Float → Float → Float
  pub mul : Float → Float → Float
  pub div : Float → Float → Float
  -- `int(round(x))` and `int(x)` of a value that is not negative
  pub round_int : Float → ℕ
  pub trunc_int : Float → ℕ
  -- `round(x, n)`
  pub round_to : Float → ℕ → Float

module _ (floats : Floats) where
  open floats use {Float, less}

  -- `max(x, y)` and `min(x, y)`
  abbrev pub fmax : Float → Float → Float
  fmax x y = if less x y then y else x

  abbrev pub fmin : Float → Float → Float
  fmin x y = if less y x then y else x

-- Fixed-point numbers with three decimals, none of them negative, so that `sub` stops at 0.
abbrev pub thousandths : Floats
thousandths = record {
  Float = ℕ;
  of_int = λ n. n * 1000;
  decimal = λ m k. m * 10 ^ (3 - k);
  less = ltb;
  is_finite = λ x. true;
  add = λ x y. x + y;
  sub = λ x y. x - y;
  mul = λ x y. x * y / 1000;
  div = λ x y. x * 1000 / y;
  round_int = λ x. (x + 500) / 1000;
  trunc_int = λ x. x / 1000;
  round_to = λ x n. x;
}
