-- ===== src/Scoring/Replay/Faithful.antt =====
-- Replaying a checkpoint of app/scoring/replay.py reproduces its scores.
use why_combinator.Prelude.{
  ◌≡◌, refl, sym, ◌∙◌, ap, subst, inl, inr, String, true, false, Option, some, List, [], ◌∷◌, map,
  arith, nat_has_eq, All, ok, ok-injective, raise-ne-ok,
}
use why_combinator.Platform.Floats.{Floats, fmax, fmin}
use why_combinator.Platform.Json.{Fields, get, object, numeric}
use why_combinator.Db.Models.{Uuid, ScoreEvent}
use why_combinator.Scoring.FinalScore.{
  ComponentName, quality_name, novelty_name, feasibility_name, criteria_name,
  similarity_penalty_name, too_safe_penalty_name, non_production_penalty_name, PerComponent,
  component, ScoreComponentBounds, asdict, asdict_bounds, apply_bounds, active_bounds, bounded,
  bounded_components, breakdown, FinalScoreBreakdown, compose_final_score,
}
use why_combinator.Scoring.FinalScore.Within.{
  is_valid, compose-valid, compose-invalid, IsCheck-bounds, is_valid-component, bounded-IsWithin,
}
use why_combinator.Scoring.Replay.{ReplaySubmissionResult, replay_event, replay_events}
use why_combinator.Scoring.FrozenScores.{
  coerce_component, score_components_from_payload, active_weights_snapshot, active_weight, to_float,
  bound, floor_cap, score_component_bounds_from_policies,
}

-- What Python's floats do where none of them is NaN and the two zeros are one: of two different numbers
-- one is less; rounding to 6 places keeps the order and is done once; and x - x is zero.
pub record IsRounding (floats : Floats) : Type 0 where
  pub asym : (x y : floats.Float) → floats.less x y ≡ true → floats.less y x ≡ false
  pub exact : (x y : floats.Float) → floats.less x y ≡ false → floats.less y x ≡ false → x ≡ y
  pub round_mono :
      (x y : floats.Float)
      → floats.less x y ≡ false
      → floats.less (floats.round_to x 6) (floats.round_to y 6) ≡ false
  pub round_twice :
      (x : floats.Float) → floats.round_to (floats.round_to x 6) 6 ≡ floats.round_to x 6
  pub zero : (x : floats.Float) → floats.round_to (floats.sub x x) 6 ≡ floats.of_int 0

module _ (floats : Floats) (getenv : String → Option String) (parse : String → Option floats.Float)
    (rounding : IsRounding floats) where
  open floats use {Float, of_int, less, round_to}
  open rounding use {asym, exact, round_mono, round_twice, zero}

  -- The rounding of a number between floor and cap, bounded again.
  again :
      (floor top x : Float)
      → less top floor ≡ false
      → less x floor ≡ false
      → less top x ≡ false
      → round_to (fmax floats floor (fmin floats top (round_to x 6))) 6 ≡ round_to x 6
  again floor top x v a b =
      let y = round_to x 6 in
      let twice = round_twice x in
      let at_floor : less floor y ≡ false → round_to floor 6 ≡ y = λ h.
        exact (round_to floor 6) y
          (subst (λ z. less (round_to floor 6) z ≡ false) twice (round_mono floor y h))
          (round_mono x floor a) in
      let at_cap : less y top ≡ false → round_to top 6 ≡ y = λ h.
        exact (round_to top 6) y (round_mono top x b)
          (subst (λ z. less z (round_to top 6) ≡ false) twice (round_mono y top h)) in
      let one : less floor top ≡ false → round_to floor 6 ≡ round_to top 6 =
        λ h. ap (λ z. round_to z 6) (exact floor top h v) in
      ground (arith, twice, at_floor, at_cap, one)

  bounded_twice :
      (components : PerComponent Float) (bounds : ScoreComponentBounds Float) (name : ComponentName)
      → is_valid floats getenv parse bounds ≡ true
      → round_to
          (apply_bounds floats getenv parse
            (bounded floats getenv parse components bounds name)
            (component bounds name).floor
            (component bounds name).cap)
          6
        ≡ bounded floats getenv parse components bounds name
  unfolding apply_bounds
  bounded_twice components bounds name v =
      let valid = is_valid-component floats getenv parse bounds name v in
      let (x, e, a, b, _) =
        bounded-IsWithin floats getenv parse components bounds name asym valid in
      rw e (again (component bounds name).floor (component bounds name).cap x valid a b)

  bounded_components_twice :
      (components : PerComponent Float) (bounds : ScoreComponentBounds Float)
      → is_valid floats getenv parse bounds ≡ true
      → bounded_components floats getenv parse
          (bounded_components floats getenv parse components bounds)
          bounds
        ≡ bounded_components floats getenv parse components bounds
  unfolding bounded_components bounded
  bounded_components_twice components bounds v = cc (
    bounded_twice components bounds quality_name v,
    bounded_twice components bounds novelty_name v,
    bounded_twice components bounds feasibility_name v,
    bounded_twice components bounds criteria_name v,
    bounded_twice components bounds similarity_penalty_name v,
    bounded_twice components bounds too_safe_penalty_name v,
    bounded_twice components bounds non_production_penalty_name v,
  )

  -- Composing the components of a breakdown again gives the breakdown.
  compose_twice :
      (components weights : PerComponent Float) (bounds : ScoreComponentBounds Float)
      (b : FinalScoreBreakdown Float)
      → compose_final_score floats getenv parse components weights (some bounds) ≡ ok b
      → compose_final_score floats getenv parse b.components weights (some bounds) ≡ ok b
  unfolding active_bounds breakdown
  compose_twice components weights bounds b h = elim (IsCheck-bounds floats getenv parse bounds) [
    | inl (v, r) ↦
        let made = λ (c : PerComponent Float).
          compose-valid floats getenv parse c weights (some bounds) bounds refl r in
        let result =
          breakdown floats getenv parse (bounded_components floats getenv parse components bounds)
            weights in
        let same : b ≡ result = ok-injective b result (sym h ∙ made components) in
        rw same (
          made (bounded_components floats getenv parse components bounds)
          ∙ ap (λ c. ok (breakdown floats getenv parse c weights))
              (bounded_components_twice components bounds v))
    | inr (_, (e, r)) ↦ absurd (
        raise-ne-ok e b (
          sym (compose-invalid floats getenv parse components weights (some bounds) bounds e refl r)
          ∙ h))
  ]

  payload_components :
      (payload : Fields Float) (i : Uuid) (c : PerComponent Float)
      → get "components" payload ≡ some (object (asdict c))
      → score_components_from_payload floats getenv parse payload i ≡ ok c
  unfolding score_components_from_payload asdict coerce_component numeric
  payload_components payload i c h = rw (h, score_components_from_payload) refl

  pub weights_roundtrip :
      (weights : PerComponent Float)
      → active_weights_snapshot floats getenv parse (asdict weights) ≡ ok weights
  unfolding active_weights_snapshot asdict active_weight to_float numeric
  weights_roundtrip weights = refl

  pub bounds_roundtrip :
      (policies : Fields Float) (bounds : ScoreComponentBounds Float)
      → get "score_component_bounds" policies ≡ some (object (asdict_bounds bounds))
      → score_component_bounds_from_policies floats getenv parse policies ≡ ok (some bounds)
  unfolding score_component_bounds_from_policies asdict_bounds bound floor_cap to_float numeric
  bounds_roundtrip policies bounds h = rw (h, score_component_bounds_from_policies) refl

  -- The event holds the composition of some components under the weights and the bounds.
  abbrev pub IsScored : PerComponent Float → ScoreComponentBounds Float → ScoreEvent Float → Type 0
  IsScored weights bounds event =
      (components : PerComponent Float) × (b : FinalScoreBreakdown Float) × (compose_final_score
          floats getenv parse components weights (some bounds)
        ≡ ok b)
      × (get "components" event.payload ≡ some (object (asdict b.components)))
      × (event.final_score ≡ b.final_score)

  abbrev pub IsReproduced : ReplaySubmissionResult Float → Type 0
  IsReproduced row = row.replay_final_score ≡ row.original_final_score

  replay_event_reproduces :
      (weights : PerComponent Float) (bounds : ScoreComponentBounds Float)
      (event : ScoreEvent Float)
      → IsScored weights bounds event
      → (row : ReplaySubmissionResult Float) × (replay_event floats getenv parse weights
            (some bounds)
            event
          ≡ ok row)
        × (row.submission_id ≡ event.submission_id)
        × IsReproduced row
  unfolding replay_event
  replay_event_reproduces weights bounds event (components, b, made, stored, score) = (
    record {
      submission_id = event.submission_id;
      original_final_score = event.final_score;
      replay_final_score = b.final_score;
      components = b.components;
    },
    rw
        (
          replay_event,
          payload_components event.payload event.submission_id b.components stored,
          compose_twice components weights bounds b made,
        )
        refl,
    refl,
    sym score,
  )

  abbrev pub row_submission : ReplaySubmissionResult Float → Uuid
  row_submission r = r.submission_id

  pub replay_events_reproduce :
      (weights : PerComponent Float) (bounds : ScoreComponentBounds Float)
      (events : List (ScoreEvent Float))
      → All (IsScored weights bounds) events
      → (rows : List (ReplaySubmissionResult Float)) × (replay_events floats getenv parse weights
            (some bounds)
            events
          ≡ ok rows)
        × (map row_submission rows ≡ map (λ (e : ScoreEvent Float). e.submission_id) events)
        × All IsReproduced rows
  unfolding replay_events
  replay_events_reproduce weights bounds [] all = ([], refl, refl, tt)
  replay_events_reproduce weights bounds (event ∷ events) all =
      let (row, made, same, kept) = replay_event_reproduces weights bounds event all.0 in
      let (rows, made', same', kept') = replay_events_reproduce weights bounds events all.1 in
      (row ∷ rows, rw (replay_events, made, made') refl, cc (same, same'), (kept, kept'))
