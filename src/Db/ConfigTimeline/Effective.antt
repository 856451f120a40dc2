-- ===== src/Db/ConfigTimeline/Effective.antt =====
-- The configuration in effect at a time, of app/db/config_timeline.py
use mathlib.Core.List.{Permᴰ}
use mathlib.Core.Option.{some-injective, none-ne-some}
use why_combinator.Prelude.Sort.{sort, sort-perm, sort-IsSorted}
use why_combinator.Prelude.{
  ◌≡◌, refl, ap, subst, ◌⊎◌, inl, inr, Bool, true, false, Option, none, some, List, [], ◌∷◌, ◌++◌,
  map, filter, arith, leb, ◌<◌, ◌==◌, nat_has_eq, All, Bool-cases, Option-cases,
}
use why_combinator.Platform.Sql.{Engine}
use why_combinator.Platform.Json.{Json}
use why_combinator.Db.Models.{Uuid, Instant, FrozenSnapshot}
use why_combinator.Db.ConfigTimeline.{
  ScoringWeightConfig, ConfigTimelineEntry, snapshot_entry, weight_entries,
  reconstruct_effective_config_timeline, last?, effective_entry, resolve_effective_config_at,
}
use why_combinator.Db.ConfigTimeline.Timeline.{
  IsTimeline, IsOf, IsInEffect, before, before-IsOrder, sorted-IsTimeline, entries-AreEntries,
}

module _ {Float : Type 0} (db : Engine) (to_float : Json Float → Option Float) where
  last_lem :
      (now : ConfigTimelineEntry Float → Bool) (es : List (ConfigTimelineEntry Float))
      → ((last? db to_float (filter now es) ≡ none) × All (λ x. now x ≡ false) es)
        ⊎ ((e : ConfigTimelineEntry Float) × (front : List (ConfigTimelineEntry Float))
            × (rest : List (ConfigTimelineEntry Float)) × (last? db to_float (filter now es)
                ≡ some e)
            × (es ≡ front ++ e ∷ rest)
            × (now e ≡ true)
            × All (λ x. now x ≡ false) rest)
  last_lem now [] = inl (refl, tt)
  last_lem now (x ∷ es) = elim (last_lem now es) [
    | inl (n, late) ↦ elim (Bool-cases (now x)) [
      | inl t ↦ inr (x, [], es, rw (t, n) refl, refl, t, late)
      | inr f ↦ inl (rw f n, (f, late))
    ]
    | inr (e, front, rest, l, split, due, late) ↦
        inr (e, x ∷ front, rest, found e l, ap (◌∷◌ x) split, due, late)
  ]
    where
      found :
          (e : ConfigTimelineEntry Float)
          → last? db to_float (filter now es) ≡ some e
          → last? db to_float (filter now (x ∷ es)) ≡ some e
      found e l = elim (Bool-cases (now x)) [ inl t ↦ rw (t, l) refl | inr f ↦ rw f l ]

  All-later :
      (at_time : Instant) (es : List (ConfigTimelineEntry Float))
      → All (λ x. leb x.timestamp at_time ≡ false) es
      → All (λ x. at_time < x.timestamp) es
  All-later at_time [] h = tt
  All-later at_time (x ∷ es) h = (ground (arith, h.0), All-later at_time es h.1)

  in_effect :
      (configs : List (ScoringWeightConfig Float)) (snapshots : List (FrozenSnapshot Float))
      (run_id : Uuid) (at_time : Instant) (timeline : List (ConfigTimelineEntry Float))
      → reconstruct_effective_config_timeline db to_float configs snapshots run_id ≡ some timeline
      → IsInEffect to_float timeline at_time
          (resolve_effective_config_at db to_float configs snapshots run_id at_time)
  unfolding resolve_effective_config_at effective_entry
  in_effect configs snapshots run_id at_time timeline h =
      elim (last_lem (λ x. leb x.timestamp at_time) timeline) [
        | inl (n, late) ↦
            inl (rw (h, resolve_effective_config_at) (ap some n), All-later at_time timeline late)
        | inr (e, front, rest, l, split, due, late) ↦ inr (
          e,
          front,
          rest,
          rw (h, resolve_effective_config_at) (ap some l),
          split,
          ground (arith, due),
          All-later at_time rest late,
        )
      ]

  -- Where the timeline of a run can be made, so its weights are numbers: it consists of an entry for each
  -- weight configuration of the run, with its time, the numbers of its weights and no policies, and an entry
  -- for each snapshot of the run, with its time, weights and policies, and of no others. It is in the order
  -- of time, a snapshot before a configuration of the same time. The configuration in effect at a time is the
  -- last entry that is no later, all entries behind it being later; and there is none if all are later.
  pub effective_is_last :
      (configs : List (ScoringWeightConfig Float)) (snapshots : List (FrozenSnapshot Float))
      (run_id : Uuid) (at_time : Instant) (timeline : List (ConfigTimelineEntry Float))
      → reconstruct_effective_config_timeline db to_float configs snapshots run_id ≡ some timeline
      → IsOf to_float configs snapshots run_id timeline
        × IsTimeline timeline
        × IsInEffect to_float timeline at_time
            (resolve_effective_config_at db to_float configs snapshots run_id at_time)
  unfolding reconstruct_effective_config_timeline
  effective_is_last configs snapshots run_id at_time timeline h =
      let p = λ (r : ScoringWeightConfig Float). r.run_id == run_id in
      let q = λ (r : FrozenSnapshot Float). r.snapshot.run_id == run_id in
      let by_time = λ (a b : ScoringWeightConfig Float). leb a.effective_from b.effective_from in
      let by_capture =
        λ (a b : FrozenSnapshot Float). leb a.snapshot.captured_at b.snapshot.captured_at in
      let rows = sort by_time (db.select (ScoringWeightConfig Float) p configs) in
      let frozen = sort by_capture (db.select (FrozenSnapshot Float) q snapshots) in
      elim (Option-cases (weight_entries db to_float rows)) [
        | inl n ↦
            absurd (none-ne-some timeline (rw (n, reconstruct_effective_config_timeline) at h))
        | inr (es, k) ↦
            let all = es ++ map (snapshot_entry db to_float) frozen in
            let made : sort (before db to_float) all ≡ timeline =
              some-injective _ _ (rw (k, reconstruct_effective_config_timeline) at h) in
            (
              (
                rows,
                frozen,
                es,
                Permᴰ.trans (sort-perm by_time (db.select (ScoringWeightConfig Float) p configs))
                    (db.select-perm (ScoringWeightConfig Float) p configs),
                Permᴰ.trans (sort-perm by_capture (db.select (FrozenSnapshot Float) q snapshots))
                    (db.select-perm (FrozenSnapshot Float) q snapshots),
                entries-AreEntries db to_float rows es k,
                subst (λ l. Permᴰ l all) made (sort-perm (before db to_float) all),
              ),
              subst IsTimeline made (
                  sorted-IsTimeline db to_float (sort (before db to_float) all)
                    (sort-IsSorted (before-IsOrder db to_float) all)),
              in_effect configs snapshots run_id at_time timeline h,
            )
      ]
