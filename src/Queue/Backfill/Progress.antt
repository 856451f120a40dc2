-- ===== src/Queue/Backfill/Progress.antt =====
-- What a backfill of app/queue/jobs.py enqueues, and what it leaves
use mathlib.Core.List.{Memᴰ, append_assoc}
use mathlib.Core.List.Memᴰ
use why_combinator.Prelude.{
  ℕ, zero, suc, ◌-◌, ◌≡◌, refl, sym, ◌∙◌, inl, inr, String, Bool, true, false, not, ◌||◌, Option,
  none, some, any, Bool-cases, List, [], ◌∷◌, ◌++◌, map, arith, if◌then◌else◌, take, length, leb,
  max_of, text_has_eq, contains, append-nil,
}
use why_combinator.Prelude.Members.{Memᴰ-take}
use why_combinator.Prelude.Integers.{ℤ, clamp}
use why_combinator.Prelude.Texts.{strip, is_empty}
use why_combinator.Platform.Hashes.{Hash}
use why_combinator.Queue.Backfill.{
  BackfillPayload, BackfillText, failed, not_an_object, payloads_of, BackfillResult, completed,
  dependencies_unhealthy, list_failed_checkpoint_backfills, clear_failed_checkpoint_backfill,
  enqueue_all, resume_backfills, backfill_failed_checkpoints,
}

take-nil : (n : ℕ) → take {A = BackfillPayload} n [] ≡ []
take-nil zero = refl
take-nil (suc n) = refl

-- A run is named by a text without space around it.
abbrev pub IsRun : BackfillPayload → Type 0
IsRun p = (strip p.run_id ≡ p.run_id) × (is_empty p.run_id ≡ false)

Memᴰ-payloads_of :
    {p : BackfillPayload} (entries : List (String × BackfillText))
    → Memᴰ p (payloads_of entries)
    → (f : String) × Memᴰ (f, failed p) entries
unfolding payloads_of
Memᴰ-payloads_of [] m = absurd (Memᴰ.not-nil m)
Memᴰ-payloads_of ((f, failed q) ∷ rest) m = elim (Memᴰ.cases_cons m) [
  | inl here ↦ (f, Memᴰ.head (rw here refl))
  | inr there ↦ let (g, n) = Memᴰ-payloads_of rest there in (g, Memᴰ.tail n)
]
Memᴰ-payloads_of ((f, not_an_object t) ∷ rest) m =
    let (g, n) = Memᴰ-payloads_of rest m in (g, Memᴰ.tail n)

if_not : {A : Type 0} (a b : A) (c : Bool) → (if not c then a else b) ≡ (if c then b else a)
if_not a b true = refl
if_not a b false = refl

-- The texts up to the first that fails the test.
abbrev pub take_while : (String → Bool) → List String → List String
take_while p [] = []
take_while p (x ∷ xs) = if p x then x ∷ take_while p xs else []

abbrev pub runs_of : List BackfillPayload → List String
runs_of ps = map (λ (p : BackfillPayload). p.run_id) ps

module _ (hash : Hash BackfillText) (accepts : String → Bool) where
  enqueue-runs :
      (ps : List BackfillPayload) (s : hash.State) (sent : List String)
      → ((p : BackfillPayload) → Memᴰ p ps → IsRun p)
      → ((enqueue_all hash accepts ps s sent).2 ≡ sent ++ take_while accepts (runs_of ps))
        × ((enqueue_all hash accepts ps s sent).0 ≡ not (any (λ r. not (accepts r)) (runs_of ps)))
  unfolding enqueue_all
  enqueue-runs [] s sent h = (sym (append-nil sent), refl)
  enqueue-runs (p ∷ ps) s sent h =
      let (own, named) = h p (Memᴰ.head refl) in
      elim (Bool-cases (accepts p.run_id)) [
        | inl t ↦
            let (runs, returned) =
              enqueue-runs ps (clear_failed_checkpoint_backfill hash s p.run_id)
                (sent ++ p.run_id ∷ []) (λ q m. h q (Memᴰ.tail m)) in
            (
              rw (own, named, t)
                  (runs ∙ append_assoc sent (p.run_id ∷ []) (take_while accepts (runs_of ps))),
              rw (own, named, t) returned,
            )
        | inr f ↦ (rw (own, named, f) (sym (append-nil sent)), rw (own, named, f) refl)
      ]

  enqueue-hget :
      (ps : List BackfillPayload) (s : hash.State) (sent : List String) (f : String)
      → ((p : BackfillPayload) → Memᴰ p ps → IsRun p)
      → hash.hget (enqueue_all hash accepts ps s sent).1 f
        ≡ (if contains (take_while accepts (runs_of ps)) f then none else hash.hget s f)
  unfolding enqueue_all clear_failed_checkpoint_backfill
  enqueue-hget [] s sent f h = refl
  enqueue-hget (p ∷ ps) s sent f h =
      let (own, named) = h p (Memᴰ.head refl) in
      elim (Bool-cases (accepts p.run_id)) [
        | inl t ↦
            rw (own, named, t)
              (enqueue-hget ps (hash.hdel s p.run_id) (sent ++ p.run_id ∷ []) f
                  (λ q m. h q (Memᴰ.tail m))
                ∙ ground (
                  arith,
                  hash.get-del s p.run_id f,
                  text_has_eq.same_iff p.run_id f,
                  text_has_eq.same_iff f p.run_id,
                ))
        | inr n ↦ rw (own, named, n) refl
      ]

  -- The runs that a backfill is to enqueue.
  abbrev pub due : (healthy : Bool) → (max_enqueues : ℤ) → List BackfillPayload → List String
  due healthy max_enqueues pending =
      if healthy then runs_of (take (max_of 1 (clamp max_enqueues)) pending) else []

  -- What a backfill does with the payloads that are listed.
  abbrev pub IsProgress :
      (postponed healthy : Bool)
      → (max_enqueues : ℤ) → List BackfillPayload
      → hash.State
      → Option BackfillResult × hash.State × List String
      → Type 0
  IsProgress postponed healthy max_enqueues pending s (result, s', enqueued) =
      (enqueued ≡ take_while accepts (due healthy max_enqueues pending))
      × ((f : String) → hash.hget s' f ≡ (if contains enqueued f then none else hash.hget s f))
      × (result ≡ (
          if healthy || leb (length pending) 0
          then (if any (λ r. not (accepts r)) (due healthy max_enqueues pending)
              then none
              else some (completed (length enqueued) (length pending - length enqueued)))
          else (if postponed then some (dependencies_unhealthy (length pending)) else none)))

  resume-IsProgress :
      (postponed healthy : Bool) (max_enqueues : ℤ) (pending : List BackfillPayload)
      (s : hash.State)
      → ((p : BackfillPayload) → Memᴰ p pending → IsRun p)
      → IsProgress postponed healthy max_enqueues pending s
          (resume_backfills hash accepts postponed healthy max_enqueues pending s)
  unfolding resume_backfills
  resume-IsProgress postponed true max_enqueues [] s h =
      rw (take-nil (max_of 1 (clamp max_enqueues))) (refl, λ f. refl, refl)
  resume-IsProgress postponed false max_enqueues [] s h = (refl, λ f. refl, refl)
  resume-IsProgress postponed false max_enqueues (p ∷ ps) s h =
      let some_left : leb (suc (length ps)) 0 ≡ false = ground arith in
      (refl, λ f. refl, rw some_left refl)
  resume-IsProgress postponed true max_enqueues (p ∷ ps) s h =
      let first = take (max_of 1 (clamp max_enqueues)) (p ∷ ps) in
      let runs = λ (q : BackfillPayload) (m : Memᴰ q first).
        h q (Memᴰ-take (max_of 1 (clamp max_enqueues)) (p ∷ ps) m) in
      let (sent, returned) = enqueue-runs first s [] runs in
      (
        sent,
        λ f. enqueue-hget first s [] f runs ∙ rw sent refl,
        rw returned (if_not _ _ (any (λ r. not (accepts r)) (runs_of first))),
      )

  -- Where the run id of every stored payload is not empty and has no space around it, and the broker may
  -- accept the checkpoint of some runs and refuse that of others: where the dependencies are healthy, a
  -- backfill goes through the first runs of the listing, as many as its limit allows and at least one if
  -- there is one, and enqueues those before the first that the broker refuses. The fields of exactly these
  -- runs are cleared, also where the task then raises, and all others stay. It raises if a run is refused;
  -- if none is, the result counts the runs that are enqueued and those that are left. Where the
  -- dependencies are not healthy nothing changes; the result then says that all runs are left, except that
  -- it is completed if there are none, and that the task raises if there are some and it cannot be
  -- scheduled again.
  pub backfill-IsProgress :
      (postponed healthy : Bool) (max_enqueues : ℤ) (s : hash.State)
      → ((f : String) (p : BackfillPayload) → hash.hget s f ≡ some (failed p) → IsRun p)
      → IsProgress postponed healthy max_enqueues
          (list_failed_checkpoint_backfills hash s)
          s
          (backfill_failed_checkpoints hash accepts postponed healthy max_enqueues s)
  unfolding backfill_failed_checkpoints list_failed_checkpoint_backfills
  backfill-IsProgress postponed healthy max_enqueues s h =
      resume-IsProgress postponed healthy max_enqueues (payloads_of (hash.hgetall s)) s (λ p m.
        let (f, n) = Memᴰ-payloads_of (hash.hgetall s) m in h f p (hash.all_get s f (failed p) n))
