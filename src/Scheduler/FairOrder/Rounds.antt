-- ===== src/Scheduler/FairOrder/Rounds.antt =====
-- The rounds end, and lose and repeat no run.
use mathlib.Core.List.{Permᴰ, append-nil, append_assoc}
use why_combinator.Prelude.{
  ℕ, zero, suc, ◌+◌, ◌≤◌, ◌≡◌, refl, ◌∙◌, ap, sym, Bool, Option, none, some, List, [], ◌∷◌, ◌++◌,
  arith, if◌then◌else◌, nat_has_eq, count, count-append,
}
use why_combinator.Prelude.Sort.{sort, sort-perm}
use why_combinator.Db.Models.{Run}
use why_combinator.Scheduler.FairOrder.{
  Queue, add_run, per_challenge, key_le, take_heads, next_queues, rounds, weight,
  weighted_fair_due_order,
}

-- How many of the queued runs pass a test.
unfoldable pub total : (Run → Bool) → List Queue → ℕ
total p [] = 0
total p ((k, queue) ∷ rest) = count p queue + total p rest

total-add_run :
    (p : Run → Bool) (queues : List Queue) (run : Run)
    → total p (add_run queues run) ≡ total p queues + (if p run then 1 else 0)
unfolding total add_run
total-add_run p [] run = omega arith
total-add_run p ((k, queue) ∷ rest) run =
    ground (arith, total-add_run p rest run, count-append p queue (run ∷ []))

total-per_challenge :
    (p : Run → Bool) (queues : List Queue) (runs : List Run)
    → total p (per_challenge queues runs) ≡ total p queues + count p runs
unfolding per_challenge
total-per_challenge p queues [] = omega arith
total-per_challenge p queues (run ∷ runs) =
    omega (arith, total-per_challenge p (add_run queues run) runs, total-add_run p queues run)

total-perm : (p : Run → Bool) {xs ys : List Queue} → Permᴰ xs ys → total p xs ≡ total p ys
unfolding total
total-perm p Permᴰ.nil = refl
total-perm p (Permᴰ.cons {a} {b} e d) = rw e (omega (arith, total-perm p d))
total-perm p (Permᴰ.swap e d) = rw (e, d) (omega arith)
total-perm p (Permᴰ.trans d e) = total-perm p d ∙ total-perm p e

-- A round only moves runs from the queues to the order.
pub round_total :
    (p : Run → Bool) (queues : List Queue)
    → count p (take_heads queues) + total p (next_queues queues) ≡ total p queues
unfolding total take_heads next_queues
round_total p [] = refl
round_total p ((k, []) ∷ rest) = omega (arith, round_total p rest)
round_total p ((k, run ∷ []) ∷ rest) = omega (arith, round_total p rest)
round_total p ((k, run ∷ run' ∷ queue) ∷ rest) = omega (arith, round_total p rest)

weight-next_le : (queues : List Queue) → weight (next_queues queues) ≤ weight queues
unfolding weight next_queues
weight-next_le [] = omega arith
weight-next_le ((k, []) ∷ rest) = omega (arith, weight-next_le rest)
weight-next_le ((k, run ∷ []) ∷ rest) = omega (arith, weight-next_le rest)
weight-next_le ((k, run ∷ run' ∷ queue) ∷ rest) = omega (arith, weight-next_le rest)

weight-next :
    (q : Queue) (queues : List Queue)
    → suc (weight (next_queues (q ∷ queues))) ≤ weight (q ∷ queues)
unfolding weight next_queues
weight-next (k, []) rest = omega (arith, weight-next_le rest)
weight-next (k, run ∷ []) rest = omega (arith, weight-next_le rest)
weight-next (k, run ∷ run' ∷ queue) rest = omega (arith, weight-next_le rest)

pub rounds_end :
    (fuel : ℕ) (ordered : List Run) (queues : List Queue)
    → weight queues ≤ fuel
    → (result : List Run) × (rounds fuel ordered queues ≡ some result)
unfolding rounds
rounds_end fuel ordered [] h = (ordered, refl)
rounds_end zero ordered (q ∷ queues) h = absurd (omega (arith, weight-next q queues))
rounds_end (suc fuel) ordered (q ∷ queues) h =
    rounds_end fuel (ordered ++ take_heads (q ∷ queues)) (next_queues (q ∷ queues))
      (omega (arith, weight-next q queues))

pub count-rounds :
    (p : Run → Bool) (fuel : ℕ) (ordered : List Run) (queues : List Queue) (result : List Run)
    → rounds fuel ordered queues ≡ some result
    → count p result ≡ count p ordered + total p queues
unfolding rounds total
count-rounds p fuel ordered [] result h = ground arith
count-rounds p zero ordered (q ∷ queues) result h = cc
count-rounds p (suc fuel) ordered (q ∷ queues) result h = omega (
  arith,
  count-rounds p fuel (ordered ++ take_heads (q ∷ queues)) (next_queues (q ∷ queues)) result h,
  count-append p ordered (take_heads (q ∷ queues)),
  round_total p (q ∷ queues),
)

-- What the rounds append does not depend on what is there already.
abbrev pub prefixed : List Run → Option (List Run) → Option (List Run)
prefixed ordered none = none
prefixed ordered (some rest) = some (ordered ++ rest)

prefixed_twice :
    (xs ys : List Run) (o : Option (List Run)) → prefixed (xs ++ ys) o ≡ prefixed xs (prefixed ys o)
prefixed_twice xs ys none = refl
prefixed_twice xs ys (some rest) = ap some (append_assoc xs ys rest)

pub rounds_append :
    (fuel : ℕ) (ordered : List Run) (queues : List Queue)
    → rounds fuel ordered queues ≡ prefixed ordered (rounds fuel [] queues)
unfolding rounds
rounds_append fuel ordered [] = ap some (sym (append-nil ordered))
rounds_append zero ordered (q ∷ queues) = refl
rounds_append (suc fuel) ordered (q ∷ queues) =
    let heads = take_heads (q ∷ queues) in
    let next = next_queues (q ∷ queues) in
    rounds_append fuel (ordered ++ heads) next
    ∙ prefixed_twice ordered heads (rounds fuel [] next)
    ∙ ap (prefixed ordered) (sym (rounds_append fuel heads next))

-- The queues that the loop starts from.
abbrev pub start_queues : List Run → List Queue
start_queues runs = sort key_le (per_challenge [] runs)

pub total-start_queues :
    (p : Run → Bool) (runs : List Run) → total p (start_queues runs) ≡ count p runs
unfolding total
total-start_queues p runs =
    omega (
      arith,
      total-perm p (sort-perm key_le (per_challenge [] runs)),
      total-per_challenge p [] runs,
    )

pub fair_order_eq :
    (runs result : List Run)
    → rounds (weight (start_queues runs)) [] (start_queues runs) ≡ some result
    → weighted_fair_due_order runs ≡ result
unfolding weighted_fair_due_order
fair_order_eq runs result e = rw (e, weighted_fair_due_order)

-- The loop ends within its fuel, and its result holds the due runs, each as often as it was given:
-- every test that a run can pass is passed equally often by both lists.
pub fair_order_complete :
    (runs : List Run) (p : Run → Bool)
    → (rounds (weight (start_queues runs)) [] (start_queues runs)
        ≡ some (weighted_fair_due_order runs))
      × (count p (weighted_fair_due_order runs) ≡ count p runs)
fair_order_complete runs p =
    let queues = start_queues runs in
    let (result, e) = rounds_end (weight queues) [] queues (omega arith) in
    rw (fair_order_eq runs result e) (
      e,
      omega (arith, count-rounds p (weight queues) [] queues result e, total-start_queues p runs),
    )
