-- ===== src/Platform/Json.antt =====
-- JSON values as Python holds them: what `json.loads` returns, and what a JSON column of the database
-- holds. Numbers that are not integers are of the type of the interface Floats.
use why_combinator.Prelude.{
  Option, none, some, Bool, String, if◌then◌else◌, ◌==◌, text_has_eq, List, [], ◌∷◌,
}
use why_combinator.Prelude.Integers.{ℤ, pos, negsuc}
use why_combinator.Prelude.{suc}
use why_combinator.Platform.Floats.{Floats}

mutual
  pub data Json (Float : Type 0) : Type 0 where
    null : Json Float
    boolean : Bool → Json Float
    integer : ℤ → Json Float
    real : Float → Json Float
    text : String → Json Float
    array : Items Float → Json Float
    object : Fields Float → Json Float

  pub data Items (Float : Type 0) : Type 0 where
    nil : Items Float
    cons : Json Float → Items Float → Items Float

  -- A dictionary, in the order of its keys.
  pub data Fields (Float : Type 0) : Type 0 where
    end : Fields Float
    field : String → Json Float → Fields Float → Fields Float

module _ {Float : Type 0} where
  -- `fields.get(key)`, with `none` where the key is missing
  unfoldable pub get : String → Fields Float → Option (Json Float)
  get key end = none
  get key (field k v rest) = if k == key then some v else get key rest

  -- `value if isinstance(value, dict) else {}`, and the same of a key that may be missing
  unfoldable pub fields_of : Option (Json Float) → Option (Fields Float)
  fields_of none = none
  fields_of (some (object fields)) = some fields
  fields_of (some _) = none

  unfoldable pub text_of : Option (Json Float) → Option String
  text_of (some (text t)) = some t
  text_of _ = none

  unfoldable pub items_of : Items Float → List (Json Float)
  items_of nil = []
  items_of (cons v rest) = v ∷ items_of rest

module _ (floats : Floats) where
  open floats use {Float, of_int, sub}

  unfoldable pub of_integer : ℤ → Float
  of_integer (pos n) = of_int n
  of_integer (negsuc n) = sub (of_int 0) (of_int (suc n))

  -- `float(value)` if `isinstance(value, (int, float))`; a bool is an int
  unfoldable pub numeric : Option (Json Float) → Option Float
  unfolding of_integer
  numeric (some (boolean b)) = some (if b then of_int 1 else of_int 0)
  numeric (some (integer i)) = some (of_integer i)
  numeric (some (real x)) = some x
  numeric _ = none
