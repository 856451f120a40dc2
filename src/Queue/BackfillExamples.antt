-- ===== src/Queue/BackfillExamples.antt =====
-- Two failed checkpoints and a limit of one, and the theorem at this input.
use why_combinator.Prelude.{
  ◌≡◌, refl, String, Bool, true, none, some, [], ◌∷◌, ◌==◌, text_has_eq, Bool-cases, inl, inr,
  subst,
}
use mathlib.Core.Option.{some-injective}
use why_combinator.Prelude.Integers.{pos}
use why_combinator.Prelude.Texts.{strip}
use why_combinator.Platform.Hashes.{Hash, hash_in_memory}
use why_combinator.Queue.Backfill.{
  BackfillPayload, BackfillText, failed, completed, payloads_of, list_failed_checkpoint_backfills,
  clear_failed_checkpoint_backfill, enqueue_all, resume_backfills, backfill_failed_checkpoints,
}
use why_combinator.Queue.Backfill.Progress.{IsRun, IsProgress, backfill-IsProgress}

abbrev hash : Hash BackfillText
hash = hash_in_memory BackfillText

abbrev payload : String → BackfillPayload
payload run_id = record { run_id = run_id; trace_id = "t"; reason = "timeout"; failed_at = 5 }

abbrev stored : hash.State
stored = ("r1", failed (payload "r1")) ∷ ("r2", failed (payload "r2")) ∷ []

one_enqueued :
    backfill_failed_checkpoints hash (λ r. true) true true (pos 1) stored
    ≡ (some (completed 1 1), ("r2", failed (payload "r2")) ∷ [], "r1" ∷ [])
unfolding backfill_failed_checkpoints resume_backfills enqueue_all clear_failed_checkpoint_backfill
    list_failed_checkpoint_backfills payloads_of strip
one_enqueued = refl

failed-injective : (p q : BackfillPayload) → failed p ≡ failed q → p ≡ q
failed-injective p q e = cc

stored-IsRun : (f : String) (p : BackfillPayload) → hash.hget stored f ≡ some (failed p) → IsRun p
unfolding strip
stored-IsRun f p e =
    let runs : (i : String)
        → IsRun (payload i)
        → some (failed (payload i)) ≡ some (failed p)
        → IsRun p =
      λ i r s. subst IsRun (failed-injective (payload i) p (some-injective _ _ s)) r in
    elim (Bool-cases ("r1" == f)) [
      | inl t ↦ runs "r1" (refl, refl) (rw t at e)
      | inr n ↦ elim (Bool-cases ("r2" == f)) [
        | inl t ↦ runs "r2" (refl, refl) (rw (n, t) at e)
        | inr n' ↦ absurd (let clash : none ≡ some (failed p) = rw (n, n') at e in cc)
      ]
    ]

-- The broker accepts the first run and refuses the second: the task raises, and the second run stays.
abbrev first_only : String → Bool
first_only r = r == "r1"

one_refused :
    backfill_failed_checkpoints hash first_only true true (pos 5) stored
    ≡ (none, ("r2", failed (payload "r2")) ∷ [], "r1" ∷ [])
unfolding backfill_failed_checkpoints resume_backfills enqueue_all clear_failed_checkpoint_backfill
    list_failed_checkpoint_backfills payloads_of strip
one_refused = refl

backfill-IsProgress_example :
    IsProgress hash first_only true true
      (pos 5)
      (list_failed_checkpoint_backfills hash stored)
      stored
      (backfill_failed_checkpoints hash first_only true true (pos 5) stored)
backfill-IsProgress_example =
    backfill-IsProgress hash first_only true true (pos 5) stored stored-IsRun
