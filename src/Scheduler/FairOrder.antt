-- ===== src/Scheduler/FairOrder.antt =====
-- `_weighted_fair_due_order` of app/scheduler/checkpoints.py: the due runs, taken from the
-- challenges in turn.
pub mod Rounds
pub mod Fairness
use why_combinator.Prelude.{
  ℕ, zero, suc, ◌+◌, ◌≡◌, Bool, true, false, Option, none, some, List, [], ◌∷◌, ◌++◌, leb, length,
  if◌then◌else◌, ◌==◌, nat_has_eq,
}
use why_combinator.Prelude.Sort.{sort}
use why_combinator.Db.Models.{Uuid, Run}

-- `per_challenge`, a `defaultdict(deque)` in the order of first use.
abbrev pub Queue : Type 0
Queue = Uuid × List Run

-- `per_challenge[run.challenge_id].append(run)`
pub add_run : List Queue → Run → List Queue
add_run [] run = (run.challenge_id, run ∷ []) ∷ []
add_run ((k, queue) ∷ rest) run =
    if k == run.challenge_id then (k, queue ++ run ∷ []) ∷ rest else (k, queue) ∷ add_run rest run

pub per_challenge : List Queue → List Run → List Queue
unfolding add_run
per_challenge queues [] = queues
per_challenge queues (run ∷ runs) = per_challenge (add_run queues run) runs

abbrev pub key_le : Queue → Queue → Bool
key_le (k, _) (j, _) = leb k j

-- One pass of `for challenge_id in challenge_ids`: what it appends to `ordered`, and the queues of
-- `next_ids`.
pub take_heads : List Queue → List Run
take_heads [] = []
take_heads ((k, []) ∷ rest) = take_heads rest
take_heads ((k, run ∷ queue) ∷ rest) = run ∷ take_heads rest

pub next_queues : List Queue → List Queue
next_queues [] = []
next_queues ((k, []) ∷ rest) = next_queues rest
next_queues ((k, run ∷ []) ∷ rest) = next_queues rest
next_queues ((k, run ∷ run' ∷ queue) ∷ rest) = (k, run' ∷ queue) ∷ next_queues rest

-- The `while challenge_ids` loop, with fuel; `none` means that it ran out.
pub rounds : ℕ → List Run → List Queue → Option (List Run)
rounds fuel ordered [] = some ordered
rounds zero ordered (q ∷ queues) = none
rounds (suc fuel) ordered (q ∷ queues) =
    rounds fuel (ordered ++ take_heads (q ∷ queues)) (next_queues (q ∷ queues))

-- One round for every run and one for every queue are enough.
pub weight : List Queue → ℕ
weight [] = 0
weight ((k, queue) ∷ rest) = suc (length queue) + weight rest

unfoldable pub weighted_fair_due_order : List Run → List Run
unfolding per_challenge take_heads next_queues rounds weight
weighted_fair_due_order runs =
    let queues = sort key_le (per_challenge [] runs) in
    elim (rounds (weight queues) [] queues) [ some ordered ↦ ordered | none ↦ [] ]
