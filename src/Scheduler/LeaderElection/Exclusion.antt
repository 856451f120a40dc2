-- ===== src/Scheduler/LeaderElection/Exclusion.antt =====
-- At most one process leads at a time.
use why_combinator.Prelude.{
  ℕ, ◌≡◌, ◌≢◌, inl, inr, refl, sym, ap, ◌∙◌, ==-refl, ==→eq, String, Bool, true, false, none, some,
  List, [], ◌∷◌, map, arith, ◌==◌, text_has_eq, max_of, Option-cases, Bool-cases,
}
use mathlib.Core.Option.{some-injective}
use why_combinator.Platform.Redis.{set_nx_ex}
use why_combinator.Scheduler.Keys.{Key, leader_lock, key_same, Stored, leader, SchedulerRedis}
use why_combinator.Scheduler.LeaderElection.{
  SchedulerLeaderElectionResult, is_held_by, try_acquire_or_renew_scheduler_leader,
}

held_by : (id : String) (v : Stored) → is_held_by id (some v) ≡ true → v ≡ leader id
held_by id (leader h) e = ap leader (==→eq h id e)
held_by id _ e = cc

module _ (redis : SchedulerRedis) (ttl : ℕ) where
  abbrev attempt : redis.State → String → SchedulerLeaderElectionResult × redis.State
  attempt = try_acquire_or_renew_scheduler_leader redis ttl

  attempt_free :
      (s : redis.State) (id : String)
      → redis.get s leader_lock ≡ none
      → attempt s id ≡ (
        record {
          is_leader = true;
          leader_id = id;
          lock_holder = some (leader id);
          acquired_now = true;
        },
        redis.set_ex s leader_lock (leader id) (max_of 1 ttl),
      )
  unfolding try_acquire_or_renew_scheduler_leader
  attempt_free s id h = rw (h, set_nx_ex)

  attempt_own :
      (s : redis.State) (id : String)
      → redis.get s leader_lock ≡ some (leader id)
      → attempt s id ≡ (
        record {
          is_leader = true;
          leader_id = id;
          lock_holder = some (leader id);
          acquired_now = false;
        },
        redis.expire s leader_lock (max_of 1 ttl),
      )
  unfolding try_acquire_or_renew_scheduler_leader
  attempt_own s id h = rw (h, set_nx_ex) (rw h (rw (==-refl id)))

  attempt_held :
      (s : redis.State) (id : String) (v : Stored)
      → redis.get s leader_lock ≡ some v
      → is_held_by id (some v) ≡ false
      → attempt s id ≡ (
        record { is_leader = false; leader_id = id; lock_holder = some v; acquired_now = false },
        s,
      )
  unfolding try_acquire_or_renew_scheduler_leader
  attempt_held s id v h other = rw (h, set_nx_ex) (rw h (rw other))

  -- Processes that try one after another, while the lock does not expire.
  unfoldable pub winners : redis.State → List String → List Bool
  winners s [] = []
  winners s (id ∷ ids) = ((attempt s id).0).is_leader ∷ winners (attempt s id).1 ids

  winners_held :
      (s : redis.State) (holder : String) (ids : List String)
      → redis.get s leader_lock ≡ some (leader holder)
      → winners s ids ≡ map (λ id. holder == id) ids
  unfolding winners
  winners_held s holder [] h = refl
  winners_held s holder (id ∷ ids) h = elim (Bool-cases (holder == id)) [
    | inl own ↦
        let own' : redis.get s leader_lock ≡ some (leader id) =
          h ∙ ap (λ x. some (leader x)) (==→eq holder id own) in
        let kept = redis.get-expire s leader_lock (max_of 1 ttl) leader_lock (ground arith) in
        rw (attempt_own s id own', own)
          (ap (◌∷◌ true)
            (winners_held (redis.expire s leader_lock (max_of 1 ttl)) holder ids (kept ∙ h)))
    | inr other ↦
        rw (attempt_held s id (leader holder) h other, other)
          (ap (◌∷◌ false) (winners_held s holder ids h))
  ]

  -- Whoever finds the lock free becomes leader, and of all processes that try afterwards, in whatever
  -- order and however often, exactly that one is leader again each time it tries: no two processes
  -- lead within the life of one lock.
  pub one_winner :
      (s : redis.State) (first : String) (ids : List String)
      → redis.get s leader_lock ≡ none
      → winners s (first ∷ ids) ≡ true ∷ map (λ id. first == id) ids
  unfolding winners
  one_winner s first ids free =
      let s' = redis.set_ex s leader_lock (leader first) (max_of 1 ttl) in
      let written : redis.get s' leader_lock ≡ some (leader first) =
        redis.get-set_ex s leader_lock (leader first) (max_of 1 ttl) leader_lock (ground arith) in
      rw (attempt_free s first free) (ap (◌∷◌ true) (winners_held s' first ids written))

  -- A process that is not made leader is told who is, and has changed nothing.
  pub loser_changes_nothing :
      (s : redis.State) (id : String)
      → ((attempt s id).0).is_leader ≡ false
      → ((attempt s id).1 ≡ s)
        × (((attempt s id).0).lock_holder ≡ redis.get s leader_lock)
        × (redis.get s leader_lock ≢ none)
        × (redis.get s leader_lock ≢ some (leader id))
  loser_changes_nothing s id h = elim (Option-cases (redis.get s leader_lock)) [
    | inl free ↦ let won : true ≡ false = rw (attempt_free s id free) at h in cc
    | inr (v, e) ↦ elim (Bool-cases (is_held_by id (some v))) [
      | inl own ↦
          let won : true ≡ false = rw (attempt_own s id (e ∙ ap some (held_by id v own))) at h in cc
      | inr other ↦ rw (attempt_held s id v e other) (
        refl,
        sym e,
        λ free. cc (sym e ∙ free),
        λ own.
            let mine : v ≡ leader id = some-injective v (leader id) (sym e ∙ own) in
            let t : true ≡ false = sym (rw mine (==-refl id)) ∙ other in cc,
      )
    ]
  ]

  -- Trying touches no key but the lock.
  pub attempt_other :
      (s : redis.State) (id : String) (j : Key)
      → key_same leader_lock j ≡ false
      → redis.get (attempt s id).1 j ≡ redis.get s j
  attempt_other s id j h = elim (Option-cases (redis.get s leader_lock)) [
    | inl free ↦
        rw (attempt_free s id free)
          (redis.get-set_ex s leader_lock (leader id) (max_of 1 ttl) j (ground arith) ∙ rw h refl)
    | inr (v, e) ↦ elim (Bool-cases (is_held_by id (some v))) [
      | inl own ↦
          rw (attempt_own s id (e ∙ ap some (held_by id v own)))
            (redis.get-expire s leader_lock (max_of 1 ttl) j (ground arith))
      | inr other ↦ rw (attempt_held s id v e other) refl
    ]
  ]
