-- ===== src/Queue/Backfill.antt =====
-- app/queue/checkpoint_backfill.py, and `backfill_failed_checkpoints` of app/queue/jobs.py
pub mod Progress
use why_combinator.Prelude.{
  ℕ, ◌-◌, String, Bool, true, false, Option, none, some, List, [], ◌∷◌, ◌++◌, if◌then◌else◌, take,
  length, max_of,
}
use why_combinator.Prelude.Integers.{ℤ, clamp}
use why_combinator.Prelude.Texts.{strip, is_empty}
use why_combinator.Platform.Hashes.{Hash}
use why_combinator.Db.Models.{Instant}

pub record BackfillPayload : Type 0 where
  pub run_id : String
  pub trace_id : String
  pub reason : String
  pub failed_at : Instant

-- A stored text, as JSON.
pub data BackfillText : Type 0 where
  failed : BackfillPayload → BackfillText
  not_an_object : String → BackfillText

unfoldable pub payloads_of : List (String × BackfillText) → List BackfillPayload
payloads_of [] = []
payloads_of ((_, failed p) ∷ rest) = p ∷ payloads_of rest
payloads_of ((_, not_an_object _) ∷ rest) = payloads_of rest

-- Whether the task found its dependencies healthy; if not it has scheduled itself again.
pub data BackfillResult : Type 0 where
  completed : (enqueued remaining : ℕ) → BackfillResult
  dependencies_unhealthy : (remaining : ℕ) → BackfillResult

-- The state is the hash "queue:checkpoint_backfill".
module _ (hash : Hash BackfillText) where
  unfoldable pub record_failed_checkpoint_backfill :
      hash.State → (run_id trace_id reason : String) → (now : Instant) → hash.State
  record_failed_checkpoint_backfill s run_id trace_id reason now =
      hash.hset s run_id
        (failed (record { run_id = run_id; trace_id = trace_id; reason = reason; failed_at = now }))

  unfoldable pub list_failed_checkpoint_backfills : hash.State → List BackfillPayload
  unfolding payloads_of
  list_failed_checkpoint_backfills s = payloads_of (hash.hgetall s)

  unfoldable pub clear_failed_checkpoint_backfill : hash.State → String → hash.State
  clear_failed_checkpoint_backfill s run_id = hash.hdel s run_id

  -- `for payload in pending_backfills[:max_enqueues]`: the hash, and the runs that are enqueued; the loop ends
  -- with an exception, here `false`, at the first run for which the broker does not accept `checkpoint_score`.
  unfoldable pub enqueue_all :
      (accepts : String → Bool)
      → List BackfillPayload
      → hash.State
      → (enqueued : List String) → Bool × hash.State × List String
  unfolding clear_failed_checkpoint_backfill
  enqueue_all accepts [] s enqueued = (true, s, enqueued)
  enqueue_all accepts (p ∷ ps) s enqueued =
      let run_id = strip p.run_id in
      let passed = enqueue_all accepts ps s enqueued in
      let sent =
        enqueue_all accepts ps (clear_failed_checkpoint_backfill s run_id)
          (enqueued ++ run_id ∷ []) in
      if is_empty run_id then passed else (if accepts run_id then sent else (false, s, enqueued))

  -- What follows the listing; `none` where the task raises. `healthy` is what
  -- `_dependencies_recovered_for_checkpoint_backfill` returns, `postponed` is whether the broker accepts the
  -- task that is scheduled if not, and `max_enqueues` is CHECKPOINT_BACKFILL_MAX_ENQUEUES.
  unfoldable pub resume_backfills :
      (accepts : String → Bool) (postponed healthy : Bool)
      → (max_enqueues : ℤ) → List BackfillPayload
      → hash.State
      → Option BackfillResult × hash.State × List String
  resume_backfills accepts postponed healthy max_enqueues [] s = (some (completed 0 0), s, [])
  resume_backfills accepts postponed healthy max_enqueues (p ∷ ps) s =
      let (returned, s', enqueued) =
        enqueue_all accepts (take (max_of 1 (clamp max_enqueues)) (p ∷ ps)) s [] in
      let result = completed (length enqueued) (length (p ∷ ps) - length enqueued) in
      if healthy
      then (if returned then some result else none, s', enqueued)
      else (if postponed then some (dependencies_unhealthy (length (p ∷ ps))) else none, s, [])

  unfoldable pub backfill_failed_checkpoints :
      (accepts : String → Bool) (postponed healthy : Bool)
      → (max_enqueues : ℤ) → hash.State
      → Option BackfillResult × hash.State × List String
  backfill_failed_checkpoints accepts postponed healthy max_enqueues s =
      resume_backfills accepts postponed healthy max_enqueues (list_failed_checkpoint_backfills s) s
