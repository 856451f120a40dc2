-- ===== src/Orchestrator/Admission.antt =====
-- app/orchestrator/admission.py
use why_combinator.Prelude.{
  ℕ, ◌+◌, ◌≤◌, ◌<◌, ◌≡◌, ◌↔◌, Bool, true, false, arith, leb, if◌then◌else◌, max_of,
}
use why_combinator.Platform.Floats.{Floats, fmax, fmin}
use why_combinator.Scheduler.Interval.{Inspection, unavailable, replies, or_empty, count_tasks}

pub data AdmissionReason : Type 0 where
  admission_ok inspection_unavailable worker_capacity_watermark_exceeded : AdmissionReason

pub record RunAdmissionDecision : Type 0 where
  pub allowed : Bool
  pub reason : AdmissionReason
  pub active_tasks : ℕ
  pub threshold : ℕ

-- The tasks that the workers report.
abbrev pub observed : Inspection → ℕ
observed unavailable = 0
observed (replies active reserved) = count_tasks (or_empty active) + count_tasks (or_empty reserved)

module _ (floats : Floats) (configured : ℕ) (ratio : floats.Float) where
  open floats use {Float, of_int, decimal, mul, trunc_int}

  -- `configured` and `ratio` are RUN_ADMISSION_MAX_ACTIVE_TASKS and RUN_ADMISSION_WATERMARK_RATIO.
  abbrev pub threshold_of : ℕ
  threshold_of =
      let watermark_ratio = fmax floats (decimal 0 1) (fmin floats (decimal 10 1) ratio) in
      max_of 1 (trunc_int (mul (of_int (max_of 1 configured)) watermark_ratio))

  unfoldable pub evaluate_run_admission_capacity : Inspection → RunAdmissionDecision
  evaluate_run_admission_capacity unavailable = record {
    allowed = true;
    reason = inspection_unavailable;
    active_tasks = 0;
    threshold = threshold_of;
  }
  evaluate_run_admission_capacity (replies active reserved) =
      let observed_tasks = count_tasks (or_empty active) + count_tasks (or_empty reserved) in
      if leb threshold_of observed_tasks
      then record {
        allowed = false;
        reason = worker_capacity_watermark_exceeded;
        active_tasks = observed_tasks;
        threshold = threshold_of;
      }
      else record {
        allowed = true;
        reason = admission_ok;
        active_tasks = observed_tasks;
        threshold = threshold_of;
      }

  -- A run is admitted exactly if fewer tasks are observed than the threshold that is reported, which is
  -- at least 1; so with workers that cannot be inspected, or are idle, it is always admitted. The number
  -- of tasks reported is the number observed.
  pub admitted_iff :
      (inspection : Inspection)
      → let decision = evaluate_run_admission_capacity inspection in
        ((decision.allowed ≡ true) ↔ (observed inspection < decision.threshold))
        × (1 ≤ decision.threshold)
        × (decision.active_tasks ≡ observed inspection)
  unfolding evaluate_run_admission_capacity
  admitted_iff unavailable = ground arith
  admitted_iff (replies active reserved) = ground arith
