-- ===== src/Scoring/FinalScore/Within.antt =====
-- The bounds that app/scoring/final_score.py puts on the components of a score
use why_combinator.Prelude.{
  ◌≡◌, refl, ◌⊎◌, inl, inr, Bool, true, false, not, ◌&&◌, ◌||◌, Option, arith, Outcome, ok, raise,
  ◌>>=◌, String,
}
use why_combinator.Platform.Floats.{Floats}
use why_combinator.Scoring.FinalScore.{
  BoundsError, raise_if, ComponentName, PerComponent, component, FloorCap, ScoreComponentBounds,
  FinalScoreBreakdown, validate_floor_cap_pair, validate_score_component_bounds, apply_bounds,
  active_bounds, bounded, bounded_components, breakdown, apply_score_component_bounds,
  compose_final_score, floor_not_finite, cap_not_finite, floor_outside_unit, cap_outside_unit,
  floor_above_cap, quality_name, novelty_name, feasibility_name, criteria_name,
  similarity_penalty_name, too_safe_penalty_name, non_production_penalty_name,
}

-- The call returns exactly if the test holds, and raises otherwise.
abbrev pub IsCheck : Bool → Outcome BoundsError (Unit {0}) → Type 0
IsCheck test call =
    ((test ≡ true) × (call ≡ ok tt)) ⊎ ((test ≡ false) × ((e : BoundsError) × (call ≡ raise e)))

IsCheck-then :
    {c d : Bool} {o p : Outcome BoundsError (Unit {0})}
    → IsCheck c o
    → IsCheck d p
    → IsCheck (c && d) (o >>= λ _. p)
IsCheck-then (inl (t, r)) h = rw (t, r) h
IsCheck-then (inr (f, (e, r))) h = rw (f, r) (inr (refl, (e, refl)))

IsCheck-raise_if : (c : Bool) (e : BoundsError) → IsCheck (not c) (raise_if c e)
unfolding raise_if
IsCheck-raise_if true e = inr (refl, (e, refl))
IsCheck-raise_if false e = inl (refl, refl)

module _ (floats : Floats) (getenv : String → Option String)
    (parse : String → Option floats.Float) where
  open floats use {Float, of_int, less, is_finite, sub, round_to}

  abbrev pub outside_unit : Float → Bool
  outside_unit x = less x (of_int 0) || less (of_int 1) x

  -- Both numbers are finite and between 0 and 1, and the floor is not above the cap.
  abbrev pub is_valid_pair : FloorCap Float → Bool
  is_valid_pair pair =
      not (not (is_finite pair.floor))
      && (not (not (is_finite pair.cap))
          && (not (outside_unit pair.floor)
              && (not (outside_unit pair.cap) && not (less pair.cap pair.floor))))

  abbrev pub is_valid : ScoreComponentBounds Float → Bool
  is_valid b =
      is_valid_pair b.quality
      && (is_valid_pair b.novelty
          && (is_valid_pair b.feasibility
              && (is_valid_pair b.criteria
                  && (is_valid_pair b.similarity_penalty
                      && (is_valid_pair b.too_safe_penalty
                          && (is_valid_pair b.non_production_penalty))))))

  IsCheck-pair :
      (name : ComponentName) (pair : FloorCap Float)
      → IsCheck (is_valid_pair pair) (validate_floor_cap_pair floats getenv parse name pair)
  unfolding validate_floor_cap_pair
  IsCheck-pair name pair =
      IsCheck-then (IsCheck-raise_if (not (is_finite pair.floor)) (floor_not_finite name)) (
        IsCheck-then (IsCheck-raise_if (not (is_finite pair.cap)) (cap_not_finite name)) (
          IsCheck-then (IsCheck-raise_if (outside_unit pair.floor) (floor_outside_unit name)) (
            IsCheck-then (IsCheck-raise_if (outside_unit pair.cap) (cap_outside_unit name))
              (IsCheck-raise_if (less pair.cap pair.floor) (floor_above_cap name)))))

  pub IsCheck-bounds :
      (bounds : ScoreComponentBounds Float)
      → IsCheck (is_valid bounds) (validate_score_component_bounds floats getenv parse bounds)
  unfolding validate_score_component_bounds
  IsCheck-bounds bounds = IsCheck-then (IsCheck-pair quality_name bounds.quality) (
      IsCheck-then (IsCheck-pair novelty_name bounds.novelty) (
        IsCheck-then (IsCheck-pair feasibility_name bounds.feasibility) (
          IsCheck-then (IsCheck-pair criteria_name bounds.criteria) (
            IsCheck-then (IsCheck-pair similarity_penalty_name bounds.similarity_penalty) (
              IsCheck-then (IsCheck-pair too_safe_penalty_name bounds.too_safe_penalty)
                (IsCheck-pair non_production_penalty_name bounds.non_production_penalty))))))

  -- The bounded value x that is rounded: it lies within the bounds, and is the value itself where that does.
  abbrev pub IsWithin : FloorCap Float → (value result : Float) → Type 0
  IsWithin pair value result =
      (x : Float) × (result ≡ round_to x 6)
      × (less x pair.floor ≡ false)
      × (less pair.cap x ≡ false)
      × (less pair.floor value ≡ true → less value pair.cap ≡ true → x ≡ value)

  pub is_valid-component :
      (bounds : ScoreComponentBounds Float) (name : ComponentName)
      → is_valid bounds ≡ true
      → less (component bounds name).cap (component bounds name).floor ≡ false
  is_valid-component bounds quality_name h = ground (arith, h)
  is_valid-component bounds novelty_name h = ground (arith, h)
  is_valid-component bounds feasibility_name h = ground (arith, h)
  is_valid-component bounds criteria_name h = ground (arith, h)
  is_valid-component bounds similarity_penalty_name h = ground (arith, h)
  is_valid-component bounds too_safe_penalty_name h = ground (arith, h)
  is_valid-component bounds non_production_penalty_name h = ground (arith, h)

  pub bounded-IsWithin :
      (components : PerComponent Float) (bounds : ScoreComponentBounds Float) (name : ComponentName)
      → ((x y : Float) → less x y ≡ true → less y x ≡ false)
      → less (component bounds name).cap (component bounds name).floor ≡ false
      → IsWithin
          (component bounds name)
          (component components name)
          (bounded floats getenv parse components bounds name)
  unfolding bounded apply_bounds
  bounded-IsWithin components bounds name asym h =
      let floor = (component bounds name).floor in
      let cap = (component bounds name).cap in
      let value = component components name in
      let same : (x : Float) → less x x ≡ false = λ x. ground (arith, asym x x) in
      (
        apply_bounds floats getenv parse value floor cap,
        refl,
        ground (arith, same floor, asym floor value, asym floor cap),
        ground (arith, same cap, asym value cap, h),
        λ a b. ground (arith, asym value cap, asym floor value, a, b),
      )

  -- A score of components that lie within their bounds.
  abbrev pub IsBounded : ScoreComponentBounds Float → (given result : PerComponent Float) → Type 0
  IsBounded bounds given result =
      (name : ComponentName)
      → IsWithin (component bounds name) (component given name) (component result name)

  bounded_components-IsBounded :
      (components : PerComponent Float) (bounds : ScoreComponentBounds Float)
      → ((x y : Float) → less x y ≡ true → less y x ≡ false)
      → is_valid bounds ≡ true
      → IsBounded bounds components (bounded_components floats getenv parse components bounds)
  unfolding bounded_components
  bounded_components-IsBounded components bounds asym v quality_name =
      bounded-IsWithin components bounds quality_name asym
        (is_valid-component bounds quality_name v)
  bounded_components-IsBounded components bounds asym v novelty_name =
      bounded-IsWithin components bounds novelty_name asym
        (is_valid-component bounds novelty_name v)
  bounded_components-IsBounded components bounds asym v feasibility_name =
      bounded-IsWithin components bounds feasibility_name asym
        (is_valid-component bounds feasibility_name v)
  bounded_components-IsBounded components bounds asym v criteria_name =
      bounded-IsWithin components bounds criteria_name asym
        (is_valid-component bounds criteria_name v)
  bounded_components-IsBounded components bounds asym v similarity_penalty_name =
      bounded-IsWithin components bounds similarity_penalty_name asym
        (is_valid-component bounds similarity_penalty_name v)
  bounded_components-IsBounded components bounds asym v too_safe_penalty_name =
      bounded-IsWithin components bounds too_safe_penalty_name asym
        (is_valid-component bounds too_safe_penalty_name v)
  bounded_components-IsBounded components bounds asym v non_production_penalty_name =
      bounded-IsWithin components bounds non_production_penalty_name asym
        (is_valid-component bounds non_production_penalty_name v)

  pub compose-valid :
      (components weights : PerComponent Float) (given : Option (ScoreComponentBounds Float))
      (bounds : ScoreComponentBounds Float)
      → active_bounds floats getenv parse given ≡ ok bounds
      → validate_score_component_bounds floats getenv parse bounds ≡ ok tt
      → compose_final_score floats getenv parse components weights given
        ≡ ok (
            breakdown floats getenv parse
              (bounded_components floats getenv parse components bounds)
              weights)
  unfolding breakdown compose_final_score bounded_components apply_score_component_bounds bounded
  compose-valid components weights given bounds active r =
      rw (compose_final_score, apply_score_component_bounds, active, r) refl

  pub compose-invalid :
      (components weights : PerComponent Float) (given : Option (ScoreComponentBounds Float))
      (bounds : ScoreComponentBounds Float) (e : BoundsError)
      → active_bounds floats getenv parse given ≡ ok bounds
      → validate_score_component_bounds floats getenv parse bounds ≡ raise e
      → compose_final_score floats getenv parse components weights given ≡ raise e
  unfolding compose_final_score apply_score_component_bounds
  compose-invalid components weights given bounds e active r =
      rw (compose_final_score, apply_score_component_bounds, active, r) refl

  -- Where `<` on floats is asymmetric, and `bounds or load_score_component_bounds()` returns bounds: if for
  -- every component floor and cap are finite, between 0 and 1, and the floor is not above the cap, then
  -- compose_final_score returns a breakdown, each of whose components is the rounding to 6 places of a
  -- number between the floor and the cap, which is the given number if this lies strictly between them;
  -- the final score is the rounding of the weighted positive less the weighted penalties. Otherwise it
  -- raises.
  pub compose_final_score_lem :
      (components weights : PerComponent Float) (given : Option (ScoreComponentBounds Float))
      (bounds : ScoreComponentBounds Float)
      → ((x y : Float) → less x y ≡ true → less y x ≡ false)
      → active_bounds floats getenv parse given ≡ ok bounds
      → ((is_valid bounds ≡ true)
          × ((b : FinalScoreBreakdown Float) × (compose_final_score floats getenv parse components
                  weights given
                ≡ ok b)
              × IsBounded bounds components b.components
              × (b.final_score ≡ round_to (sub b.weighted_positive b.weighted_penalties) 6)))
        ⊎ ((is_valid bounds ≡ false)
            × ((e : BoundsError) × (compose_final_score floats getenv parse components weights given
                  ≡ raise e)))
  unfolding breakdown
  compose_final_score_lem components weights given bounds asym active =
      let result = bounded_components floats getenv parse components bounds in
      elim (IsCheck-bounds bounds) [
        | inl (v, r) ↦ inl (
          v,
          (
            breakdown floats getenv parse result weights,
            compose-valid components weights given bounds active r,
            bounded_components-IsBounded components bounds asym v,
            refl,
          ),
        )
        | inr (f, (e, r)) ↦ inr (f, (e, compose-invalid components weights given bounds e active r))
      ]
