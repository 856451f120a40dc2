-- ===== src/Sandbox/Examples.antt =====
-- Containers that start and end, and the bound at these steps.
use why_combinator.Prelude.{ℕ, ◌+◌, ◌≤◌, ◌≡◌, refl, none, [], ◌∷◌, arith, nat_has_eq, max_of}
use why_combinator.Platform.Redis.{in_memory}
use why_combinator.Db.Models.{Uuid}
use why_combinator.Sandbox.Concurrency.{
  SlotRedis, current, Workers, start_container, acquire_run_hacker_container_slot,
  release_run_hacker_container_slot, Reach, here, next, start, finish, killed,
}
use why_combinator.Sandbox.Concurrency.Slots.{running, lost, slots_bound}

abbrev slots : SlotRedis
slots = in_memory Uuid ℕ nat_has_eq

abbrev idle : Workers slots
idle = record { server = λ k. none; containers = [] }

-- Two tasks of run 5 and one of run 6, with one slot for each run.
abbrev started : Workers slots
started = start_container slots 1 (start_container slots 1 (start_container slots 1 idle 5) 5) 6

second_refused : started.containers ≡ 6 ∷ 5 ∷ []
unfolding start_container acquire_run_hacker_container_slot
second_refused = refl

-- The container of run 5 ends, and the worker of run 6 is killed.
abbrev ended : Workers slots
ended = record {
  server = release_run_hacker_container_slot slots started.server 5;
  containers = 6 ∷ [];
}

abbrev lost_worker : Workers slots
lost_worker = record { server = ended.server; containers = [] }

history : Reach slots 1 idle lost_worker
history =
    next
      (next (next (next (next here (start 5 refl)) (start 5 refl)) (start 6 refl))
        (finish 5 (6 ∷ []) [] second_refused refl))
      (killed 6 [] [] refl refl)

-- The slot of the killed worker is not given back.
slots_bound_example :
    (current slots lost_worker.server 6
      ≡ running slots 6 lost_worker + lost slots 1 idle lost_worker 6 history)
    × (current slots lost_worker.server 6 ≤ max_of 1 1)
slots_bound_example = slots_bound slots 1 idle lost_worker 6 refl (omega arith) history

slot_leaks : lost slots 1 idle lost_worker 6 history ≡ 1
unfolding history
slot_leaks = refl
