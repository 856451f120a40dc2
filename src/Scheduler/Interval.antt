-- ===== src/Scheduler/Interval.antt =====
-- The checkpoint interval and its jitter, of app/scheduler/checkpoints.py.
use why_combinator.Prelude.{
  ℕ, suc, ◌+◌, ◌-◌, ◌*◌, ◌%◌, ◌≤◌, ◌<◌, ◌≡◌, String, Bool, true, Option, none, some, List, [], ◌∷◌,
  ◌++◌, map, arith, length, if◌then◌else◌, contains, text_has_eq, max_of, min_of, nat_beq,
}
use why_combinator.Platform.Floats.{Floats, fmax, fmin}
use why_combinator.Db.Models.{Uuid, Instant, seconds}

-- The values of the CHECKPOINT_* variables. A negative number acts as 0 does: each is used under
-- `max(1, …)` or `max(0, …)`.
pub record CheckpointConfig : Type 0 where
  pub interval_seconds : ℕ
  pub max_enqueues_per_tick : ℕ
  pub jitter_seconds : ℕ
  pub adaptive_interval_enabled : Bool
  pub adaptive_min_interval_seconds : ℕ
  pub adaptive_max_interval_seconds : ℕ
  pub adaptive_target_tasks_per_worker : ℕ

pub record AdaptiveCheckpointInterval : Type 0 where
  pub interval_seconds : ℕ
  pub queue_depth : ℕ
  pub throughput_capacity : ℕ

-- What Celery's inspection answers: for each worker its tasks.
abbrev pub Payload : Type 0
Payload = List (String × List String)

pub data Inspection : Type 0 where
  -- `inspector.active()` or `inspector.reserved()` raises
  unavailable : Inspection
  -- either may be `None`
  replies : Option Payload → Option Payload → Inspection

-- `payload or {}`
abbrev pub or_empty : Option Payload → Payload
or_empty none = []
or_empty (some payload) = payload

-- `sum(len(tasks) for tasks in payload.values())`
unfoldable pub count_tasks : Payload → ℕ
count_tasks [] = 0
count_tasks ((worker, tasks) ∷ rest) = length tasks + count_tasks rest

-- `len(set(workers))`
unfoldable pub count_distinct : List String → ℕ
count_distinct [] = 0
count_distinct (w ∷ ws) = let rest = count_distinct ws in if contains ws w then rest else suc rest

abbrev pub worker_names : Payload → List String
worker_names payload = map (λ (p : String × List String). p.0) payload

module _ (floats : Floats) where
  open floats use {Float, of_int, decimal, mul, div, round_int}

  -- The factor for a positive queue depth and for none.
  unfoldable pub scaling_factor : ℕ → ℕ → Float
  scaling_factor queue_depth throughput_capacity =
      if nat_beq queue_depth 0
      then decimal 5 1
      else fmax floats (decimal 5 1)
          (fmin floats (decimal 40 1) (div (of_int queue_depth) (of_int throughput_capacity)))

  unfoldable pub resolve_adaptive_checkpoint_interval_seconds :
      CheckpointConfig → ℕ → Inspection → AdaptiveCheckpointInterval
  unfolding scaling_factor count_tasks count_distinct
  resolve_adaptive_checkpoint_interval_seconds config base_interval_seconds inspection =
      let normalized_base = max_of 1 base_interval_seconds in
      let min_interval = max_of 1 config.adaptive_min_interval_seconds in
      let max_interval = max_of min_interval config.adaptive_max_interval_seconds in
      let target_per_worker = max_of 1 config.adaptive_target_tasks_per_worker in
      if config.adaptive_interval_enabled
      then elim inspection [
        | unavailable ↦ record {
          interval_seconds = min_of (max_of normalized_base min_interval) max_interval;
          queue_depth = 0;
          throughput_capacity = 0;
        }
        | replies active reserved ↦
            let active_payload = or_empty active in
            let reserved_payload = or_empty reserved in
            let depth = count_tasks active_payload + count_tasks reserved_payload in
            let worker_count =
              max_of 1
                (count_distinct (worker_names active_payload ++ worker_names reserved_payload)) in
            let capacity = max_of 1 (worker_count * target_per_worker) in
            let scaled_interval =
              round_int (mul (of_int normalized_base) (scaling_factor depth capacity)) in
            record {
              interval_seconds = min_of max_interval (max_of min_interval scaled_interval);
              queue_depth = depth;
              throughput_capacity = capacity;
            }
      ]
      else record { interval_seconds = normalized_base; queue_depth = 0; throughput_capacity = 0 }

  abbrev pub resolved : CheckpointConfig → ℕ → Inspection → ℕ
  resolved config base inspection =
      (resolve_adaptive_checkpoint_interval_seconds config base inspection).interval_seconds

  -- Adapted or not, and whatever the workers report, the interval is at least a second. With adapting
  -- enabled it also lies between the configured bounds, the upper one giving way to the lower.
  pub interval_bounds :
      (config : CheckpointConfig) (base : ℕ) (inspection : Inspection)
      → let interval = resolved config base inspection in
        let lower = max_of 1 config.adaptive_min_interval_seconds in
        (1 ≤ interval)
        × (config.adaptive_interval_enabled ≡ true
            → (lower ≤ interval) × (interval ≤ max_of lower config.adaptive_max_interval_seconds))
  unfolding resolve_adaptive_checkpoint_interval_seconds
  interval_bounds config base unavailable = ground arith
  interval_bounds config base (replies active reserved) = ground arith

-- `digest` is the number in the first four bytes of sha256(str(run_id)).
module _ (digest : Uuid → ℕ) where
  unfoldable pub run_checkpoint_jitter_seconds : Uuid → ℕ → ℕ → ℕ
  run_checkpoint_jitter_seconds run_id interval_seconds jitter_window_seconds =
      let capped_window = min_of jitter_window_seconds (interval_seconds - 1) in
      if nat_beq capped_window 0 then 0 else digest run_id % (capped_window + 1)

  unfoldable pub apply_checkpoint_jitter : CheckpointConfig → Instant → Uuid → ℕ → Instant
  unfolding run_checkpoint_jitter_seconds
  apply_checkpoint_jitter config base_checkpoint_at run_id interval_seconds =
      base_checkpoint_at
      + seconds (run_checkpoint_jitter_seconds run_id interval_seconds config.jitter_seconds)

  -- For an interval of at least a second, jitter makes a checkpoint no earlier, delays it by no more
  -- than the configured window, and by less than the interval.
  pub jitter_bounds :
      (config : CheckpointConfig) (base : Instant) (run_id : Uuid) (interval : ℕ)
      → 1 ≤ interval
      → (base ≤ apply_checkpoint_jitter config base run_id interval)
        × (apply_checkpoint_jitter config base run_id interval
            ≤ base + seconds config.jitter_seconds)
        × (apply_checkpoint_jitter config base run_id interval < base + seconds interval)
  unfolding apply_checkpoint_jitter
  jitter_bounds config base run_id interval pos = ground arith
