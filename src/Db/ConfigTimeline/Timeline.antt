-- ===== src/Db/ConfigTimeline/Timeline.antt =====
-- What the timeline of app/db/config_timeline.py consists of, and its order.
use mathlib.Core.List.{Permᴰ}
use mathlib.Core.Option.{some-injective, none-ne-some}
use why_combinator.Prelude.Members.{All-of, All-at}
use why_combinator.Prelude.Sort.{IsSorted, IsOrder}
use why_combinator.Prelude.Orders.{IsLess-on, ltb-IsLess, leb-on, lexicographic-IsOrder}
use why_combinator.Prelude.{
  ◌≡◌, refl, subst, ◌⊎◌, inl, inr, String, Bool, true, false, Option, none, some, List, [], ◌∷◌,
  ◌++◌, map, filter, arith, leb, ltb, ◌<◌, ◌≤◌, ◌==◌, nat_has_eq, All, Bool-cases, Option-cases,
}
use why_combinator.Platform.Sql.{Engine}
use why_combinator.Platform.Json.{Json, Fields, end, field, real}
use why_combinator.Db.Models.{Uuid, Instant, FrozenSnapshot}
use why_combinator.Db.ConfigTimeline.{
  ScoringWeightConfig, ConfigTimelineEntry, ConfigSource, checkpoint_snapshot, weight_config,
  source_order, float_values, weight_entry, weight_entries, not_after,
}

-- The earlier time first, and of one time a snapshot before a configuration.
abbrev pub Precedes :
    {Float : Type 0} → ConfigTimelineEntry Float → ConfigTimelineEntry Float → Type 0
Precedes a b =
    (a.timestamp < b.timestamp)
    ⊎ ((a.timestamp ≡ b.timestamp)
        × ((a.source ≡ b.source) ⊎ ((a.source ≡ checkpoint_snapshot) × (b.source ≡ weight_config))))

-- Every entry precedes all later ones.
abbrev pub IsTimeline : {Float : Type 0} → List (ConfigTimelineEntry Float) → Type 0
IsTimeline [] = Unit
IsTimeline (e ∷ es) = All (Precedes e) es × IsTimeline es

abbrev pub snapshots_of :
    {Float : Type 0} → Uuid → List (FrozenSnapshot Float) → List (FrozenSnapshot Float)
snapshots_of run_id = filter (λ r. r.snapshot.run_id == run_id)

abbrev pub configs_of :
    {Float : Type 0} → Uuid → List (ScoringWeightConfig Float) → List (ScoringWeightConfig Float)
configs_of run_id = filter (λ r. r.run_id == run_id)

module _ {Float : Type 0} (to_float : Json Float → Option Float) where
  -- What a frozen snapshot says.
  abbrev pub frozen_entry : FrozenSnapshot Float → ConfigTimelineEntry Float
  frozen_entry r = record {
    timestamp = r.snapshot.captured_at;
    source = checkpoint_snapshot;
    weights = r.active_weights;
    policies = r.active_policies;
  }

  -- The same keys, each with the number that its value stands for.
  pub data AreNumbers : Fields Float → Fields Float → Type 0 where
    no_weights : AreNumbers end end
    one_weight :
        {key : String} {value : Json Float} {x : Float} {rest rest' : Fields Float}
        → to_float value ≡ some x
        → AreNumbers rest rest'
        → AreNumbers (field key value rest) (field key (real x) rest')

  -- Each row with its entry.
  pub data AreEntries
      : List (ScoringWeightConfig Float) → List (ConfigTimelineEntry Float) → Type 0 where
    no_rows : AreEntries [] []
    one_row :
        {r : ScoringWeightConfig Float} {e : ConfigTimelineEntry Float}
        {rs : List (ScoringWeightConfig Float)} {es : List (ConfigTimelineEntry Float)}
        → e.timestamp ≡ r.effective_from
        → e.source ≡ weight_config
        → AreNumbers r.weights e.weights
        → e.policies ≡ end
        → AreEntries rs es
        → AreEntries (r ∷ rs) (e ∷ es)

  -- The timeline has the entries of the run's configurations and snapshots, each once and no others.
  abbrev pub IsOf :
      List (ScoringWeightConfig Float)
      → List (FrozenSnapshot Float)
      → Uuid
      → List (ConfigTimelineEntry Float)
      → Type 0
  IsOf configs snapshots run_id timeline =
      (rows : List (ScoringWeightConfig Float)) × (frozen : List (FrozenSnapshot Float))
      × (es : List (ConfigTimelineEntry Float)) × Permᴰ rows (configs_of run_id configs)
      × Permᴰ frozen (snapshots_of run_id snapshots)
      × AreEntries rows es
      × Permᴰ timeline (es ++ map frozen_entry frozen)

  -- What is in effect: the last entry that is no later than the time, or nothing.
  abbrev pub IsInEffect :
      List (ConfigTimelineEntry Float)
      → Instant
      → Option (Option (ConfigTimelineEntry Float))
      → Type 0
  IsInEffect timeline at_time answer =
      ((answer ≡ some none) × All (λ x. at_time < x.timestamp) timeline)
      ⊎ ((e : ConfigTimelineEntry Float) × (front : List (ConfigTimelineEntry Float)) × (rest : List
            (ConfigTimelineEntry Float))
          × (answer ≡ some (some e))
          × (timeline ≡ front ++ e ∷ rest)
          × (e.timestamp ≤ at_time)
          × All (λ x. at_time < x.timestamp) rest)

module _ {Float : Type 0} (db : Engine) (to_float : Json Float → Option Float) where
  abbrev pub before : ConfigTimelineEntry Float → ConfigTimelineEntry Float → Bool
  before = not_after db to_float

  pub before-IsOrder : IsOrder before
  before-IsOrder =
      lexicographic-IsOrder (λ (a b : ConfigTimelineEntry Float). ltb a.timestamp b.timestamp)
        (λ a b. leb (source_order a.source) (source_order b.source))
        (IsLess-on ltb (λ (e : ConfigTimelineEntry Float). e.timestamp) ltb-IsLess)
        (leb-on (λ (e : ConfigTimelineEntry Float). source_order e.source))

  source_cases :
      (s t : ConfigSource)
      → leb (source_order s) (source_order t) ≡ true
      → (s ≡ t) ⊎ ((s ≡ checkpoint_snapshot) × (t ≡ weight_config))
  source_cases checkpoint_snapshot checkpoint_snapshot h = inl refl
  source_cases checkpoint_snapshot weight_config h = inr (refl, refl)
  source_cases weight_config checkpoint_snapshot h = absurd (ground arith)
  source_cases weight_config weight_config h = inl refl

  before-Precedes : (a b : ConfigTimelineEntry Float) → before a b ≡ true → Precedes a b
  before-Precedes a b h = elim (Bool-cases (ltb a.timestamp b.timestamp)) [
    | inl t ↦ inl (ground (arith, t))
    | inr f ↦ elim (Bool-cases (ltb b.timestamp a.timestamp)) [
      | inl t ↦ absurd (let clash : false ≡ true = rw (f, t) at h in cc)
      | inr f' ↦ inr (ground (arith, f, f'), source_cases a.source b.source (rw (f, f') at h))
    ]
  ]

  pub sorted-IsTimeline :
      (es : List (ConfigTimelineEntry Float)) → IsSorted before es → IsTimeline es
  sorted-IsTimeline [] h = tt
  sorted-IsTimeline (e ∷ es) h = (
    All-of (Precedes e) es
        (λ x m. before-Precedes e x (All-at (λ y. before e y ≡ true) x es h.0 m)),
    sorted-IsTimeline es h.1,
  )

  values-AreNumbers :
      (w w' : Fields Float) → float_values db to_float w ≡ some w' → AreNumbers to_float w w'
  unfolding float_values
  values-AreNumbers end w' e = subst (AreNumbers to_float end) (some-injective _ _ e) no_weights
  values-AreNumbers (field key value rest) w' e = elim (Option-cases (to_float value)) [
    | inl n ↦ absurd (none-ne-some w' (rw (n, float_values) at e))
    | inr (x, h) ↦ elim (Option-cases (float_values db to_float rest)) [
      | inl n ↦ absurd (none-ne-some w' (rw (h, n, float_values) at e))
      | inr (fields, k) ↦
          subst (AreNumbers to_float (field key value rest))
            (some-injective _ _ (rw (h, k, float_values) at e))
            (one_weight h (values-AreNumbers rest fields k))
    ]
  ]

  row-AreEntries :
      (row : ScoringWeightConfig Float) (x : ConfigTimelineEntry Float)
      (rows : List (ScoringWeightConfig Float)) (es : List (ConfigTimelineEntry Float))
      → weight_entry db to_float row ≡ some x
      → AreEntries to_float rows es
      → AreEntries to_float (row ∷ rows) (x ∷ es)
  unfolding weight_entry
  row-AreEntries row x rows es e rest = elim (Option-cases (float_values db to_float row.weights)) [
    | inl n ↦ absurd (none-ne-some x (rw (n, weight_entry) at e))
    | inr (w, h) ↦
        subst (λ y. AreEntries to_float (row ∷ rows) (y ∷ es))
          (some-injective _ _ (rw (h, weight_entry) at e))
          (one_row refl refl (values-AreNumbers row.weights w h) refl rest)
  ]

  pub entries-AreEntries :
      (rows : List (ScoringWeightConfig Float)) (es : List (ConfigTimelineEntry Float))
      → weight_entries db to_float rows ≡ some es
      → AreEntries to_float rows es
  unfolding weight_entries
  entries-AreEntries [] es e = subst (AreEntries to_float []) (some-injective _ _ e) no_rows
  entries-AreEntries (row ∷ rows) es e = elim (Option-cases (weight_entry db to_float row)) [
    | inl n ↦ absurd (none-ne-some es (rw (n, weight_entries) at e))
    | inr (x, h) ↦ elim (Option-cases (weight_entries db to_float rows)) [
      | inl n ↦ absurd (none-ne-some es (rw (h, n, weight_entries) at e))
      | inr (ys, k) ↦
          subst (AreEntries to_float (row ∷ rows))
            (some-injective _ _ (rw (h, k, weight_entries) at e))
            (row-AreEntries row x rows ys h (entries-AreEntries rows ys k))
    ]
  ]
