-- ===== src/Scheduler/FairOrder/Fairness.antt =====
-- No challenge gets far ahead of another one.
use mathlib.Core.List.{Permᴰ}
use mathlib.Core.Option.{some-injective}
use why_combinator.Prelude.{
  ℕ, zero, suc, ◌+◌, ◌-◌, ◌≤◌, ◌≡◌, ◌⊎◌, inl, inr, refl, ◌∙◌, sym, ap, subst, Option-cases, Bool,
  false, not, ◌&&◌, some, List, [], ◌∷◌, ◌++◌, arith, length, if◌then◌else◌, ◌==◌, nat_has_eq,
  count, take, count-take_left, count-take_right, count-take_le, leb, Bool-cases, any, any-append,
}
use why_combinator.Prelude.Sort.{sort-perm}
use why_combinator.Prelude.Perms.{count-perm, any-perm}
use why_combinator.Db.Models.{Uuid, Run}
use why_combinator.Scheduler.FairOrder.{
  Queue, add_run, per_challenge, key_le, take_heads, next_queues, rounds, weight,
  weighted_fair_due_order,
}
use why_combinator.Scheduler.FairOrder.Rounds.{
  total, round_total, prefixed, rounds_append, count-rounds, start_queues, total-start_queues,
  fair_order_eq, rounds_end,
}

abbrev pub of_challenge : Uuid → Run → Bool
of_challenge c run = run.challenge_id == c

abbrev has_key : Uuid → Queue → Bool
has_key c (k, _) = k == c

-- The queue holds a run of another challenge.
abbrev is_mixed : Queue → Bool
is_mixed (k, queue) = any (λ run. not (of_challenge k run)) queue

-- One queue for a challenge, with only its runs.
record IsKeyed (queues : List Queue) : Type 0 where
  distinct : (c : Uuid) → count (has_key c) queues ≤ 1
  pure : any is_mixed queues ≡ false

count-add_run :
    (c : Uuid) (queues : List Queue) (run : Run)
    → count (has_key c) (add_run queues run)
      ≡ (if (run.challenge_id == c) && not (any (has_key c) queues) then 1 else 0)
        + count (has_key c) queues
unfolding add_run
count-add_run c [] run = ground arith
count-add_run c ((k, queue) ∷ rest) run = ground (arith, count-add_run c rest run)

any-count :
    (c : Uuid) (queues : List Queue) → any (has_key c) queues ≡ false → count (has_key c) queues ≡ 0
any-count c [] h = refl
any-count c ((k, queue) ∷ rest) h = ground (arith, any-count c rest)

mixed_add_run :
    (queues : List Queue) (run : Run)
    → any is_mixed queues ≡ false
    → any is_mixed (add_run queues run) ≡ false
unfolding add_run
mixed_add_run [] run h = ground arith
mixed_add_run ((k, queue) ∷ rest) run h =
    ground
      (arith, mixed_add_run rest run, any-append (λ r. not (of_challenge k r)) queue (run ∷ []))

IsKeyed-add_run : (queues : List Queue) (run : Run) → IsKeyed queues → IsKeyed (add_run queues run)
IsKeyed-add_run queues run h = record {
  distinct = λ c. ground (arith, h.distinct c, count-add_run c queues run, any-count c queues);
  pure = mixed_add_run queues run h.pure;
}

IsKeyed-per_challenge :
    (queues : List Queue) (runs : List Run) → IsKeyed queues → IsKeyed (per_challenge queues runs)
unfolding per_challenge
IsKeyed-per_challenge queues [] h = h
IsKeyed-per_challenge queues (run ∷ runs) h =
    IsKeyed-per_challenge (add_run queues run) runs (IsKeyed-add_run queues run h)

IsKeyed-perm : {xs ys : List Queue} → Permᴰ xs ys → IsKeyed ys → IsKeyed xs
IsKeyed-perm d h = record {
  distinct = λ c. rw (count-perm (has_key c) d) (h.distinct c);
  pure = any-perm is_mixed d ∙ h.pure;
}

IsKeyed-start : (runs : List Run) → IsKeyed (start_queues runs)
IsKeyed-start runs =
    IsKeyed-perm (sort-perm key_le (per_challenge [] runs))
      (IsKeyed-per_challenge [] runs (record { distinct = λ c. omega arith; pure = refl }))

count_next :
    (c : Uuid) (queues : List Queue)
    → count (has_key c) (next_queues queues) ≤ count (has_key c) queues
unfolding next_queues
count_next c [] = omega arith
count_next c ((k, []) ∷ rest) = omega (arith, count_next c rest)
count_next c ((k, run ∷ []) ∷ rest) = omega (arith, count_next c rest)
count_next c ((k, run ∷ run' ∷ queue) ∷ rest) = omega (arith, count_next c rest)

mixed_next :
    (queues : List Queue) → any is_mixed queues ≡ false → any is_mixed (next_queues queues) ≡ false
unfolding next_queues
mixed_next [] h = refl
mixed_next ((k, []) ∷ rest) h = mixed_next rest h
mixed_next ((k, run ∷ []) ∷ rest) h = ground (arith, mixed_next rest)
mixed_next ((k, run ∷ run' ∷ queue) ∷ rest) h = ground (arith, mixed_next rest)

IsKeyed-next : (queues : List Queue) → IsKeyed queues → IsKeyed (next_queues queues)
IsKeyed-next queues h = record {
  distinct = λ c. omega (arith, count_next c queues, h.distinct c);
  pure = mixed_next queues h.pure;
}

-- A round takes at most one run of a challenge, ...
heads_le :
    (c : Uuid) (queues : List Queue)
    → any is_mixed queues ≡ false
    → count (of_challenge c) (take_heads queues) ≤ count (has_key c) queues
unfolding take_heads
heads_le c [] h = omega arith
heads_le c ((k, []) ∷ rest) h = omega (arith, heads_le c rest h)
heads_le c ((k, run ∷ queue) ∷ rest) h = ground (arith, heads_le c rest)

none_of_other :
    (c k : Uuid) (queue : List Run)
    → any (λ run. not (of_challenge k run)) queue ≡ false
    → (k == c) ≡ false
    → count (of_challenge c) queue ≡ 0
none_of_other c k [] h e = refl
none_of_other c k (run ∷ queue) h e = ground (arith, none_of_other c k queue)

-- ... and one if any is waiting.
heads_zero :
    (c : Uuid) (queues : List Queue)
    → any is_mixed queues ≡ false
    → count (of_challenge c) (take_heads queues) ≡ 0
    → total (of_challenge c) queues ≡ 0
unfolding take_heads total
heads_zero c [] h z = refl
heads_zero c ((k, []) ∷ rest) h z = omega (arith, heads_zero c rest h z)
heads_zero c ((k, run ∷ queue) ∷ rest) h z =
    ground (arith, heads_zero c rest, none_of_other c k queue)

-- What a fair order of the queued runs is: at every point, a challenge is at most one run ahead of
-- any other challenge that still has runs to come.
abbrev IsFair : List Queue → List Run → Type 0
IsFair queues result =
    (n : ℕ) (c d : Uuid)
    → (count (of_challenge c) (take n result) ≤ count (of_challenge d) (take n result) + 1)
      ⊎ (count (of_challenge d) (take n result) ≡ total (of_challenge d) queues)

-- The step in numbers: what the heads (`h`) and the later rounds (`k`) hold of two challenges, and
-- what the queues hold of the second before (`t`) and after (`n`) the round.
ahead :
    (hc kc hd kd n t : ℕ)
    → hc ≤ 1
    → (hd ≡ 0 → t ≡ 0)
    → hd + n ≡ t
    → kd ≤ n
    → (kc ≤ kd + 1) ⊎ (kd ≡ n)
    → (hc + kc ≤ hd + kd + 1) ⊎ (hd + kd ≡ t)
ahead hc kc zero kd n t one z e le (inl close) = let t0 = z refl in inr (omega arith)
ahead hc kc (suc hd) kd n t one z e le (inl close) = inl (omega arith)
ahead hc kc hd kd n t one z e le (inr all) = inr (omega arith)

module _ (queues : List Queue) (h : IsKeyed queues) (rest : List Run) where
  abbrev heads : List Run
  heads = take_heads queues

  IsFair-heads :
      (n : ℕ) (c d : Uuid)
      → n ≤ length heads
      → count (of_challenge c) (take n (heads ++ rest))
        ≤ count (of_challenge d) (take n (heads ++ rest)) + 1
  IsFair-heads n c d le = omega (
    arith,
    count-take_left (of_challenge c) n heads rest le,
    count-take_le (of_challenge c) n heads,
    heads_le c queues h.pure,
    h.distinct c,
  )

  IsFair-later :
      (total_later : (p : Run → Bool) → count p rest ≡ total p (next_queues queues))
      → IsFair (next_queues queues) rest
      → IsFair queues (heads ++ rest)
  IsFair-later total_later fair n c d = elim (Bool-cases (leb n (length heads))) [
    | inl le ↦ inl (IsFair-heads n c d (ground arith))
    | inr gt ↦
        let m = n - length heads in
        let past : length heads ≤ n = ground arith in
        rw
          (
            count-take_right (of_challenge c) n heads rest past,
            count-take_right (of_challenge d) n heads rest past,
          )
          (ahead (count (of_challenge c) heads) (count (of_challenge c) (take m rest))
            (count (of_challenge d) heads) (count (of_challenge d) (take m rest))
            (total (of_challenge d) (next_queues queues)) (total (of_challenge d) queues)
            (omega (arith, heads_le c queues h.pure, h.distinct c)) (heads_zero d queues h.pure)
            (round_total (of_challenge d) queues)
            (omega (arith, count-take_le (of_challenge d) m rest, total_later (of_challenge d)))
            (fair_next m))
  ]
    where
      fair_next :
          (m : ℕ)
          → (count (of_challenge c) (take m rest) ≤ count (of_challenge d) (take m rest) + 1)
            ⊎ (count (of_challenge d) (take m rest) ≡ total (of_challenge d) (next_queues queues))
      fair_next m = fair m c d

nothing_taken :
    (c d : Uuid) (n : ℕ)
    → count (of_challenge c) (take n []) ≤ count (of_challenge d) (take n []) + 1
nothing_taken c d zero = omega arith
nothing_taken c d (suc n) = omega arith

rounds-IsFair :
    (fuel : ℕ) (queues : List Queue) (result : List Run)
    → IsKeyed queues
    → rounds fuel [] queues ≡ some result
    → IsFair queues result
unfolding rounds
rounds-IsFair fuel [] result h e =
    let nothing : [] ≡ result = some-injective [] result e in
    subst (IsFair []) nothing (λ n c d. inl (nothing_taken c d n))
rounds-IsFair zero (q ∷ queues) result h e = cc
rounds-IsFair (suc fuel) (q ∷ queues) result h e =
    let heads = take_heads (q ∷ queues) in
    let next = next_queues (q ∷ queues) in
    let split = rounds_append fuel heads next in
    elim (Option-cases (rounds fuel [] next)) [
      | inl stuck ↦ cc (split, ap (prefixed heads) stuck)
      | inr (rest, later) ↦
          let whole : heads ++ rest ≡ result =
            some-injective _ _ (sym (split ∙ ap (prefixed heads) later) ∙ e) in
          subst (IsFair (q ∷ queues)) whole (
            IsFair-later (q ∷ queues) h rest
              (λ p. omega (arith, count-rounds p fuel [] next rest later))
              (rounds-IsFair fuel next rest (IsKeyed-next (q ∷ queues) h) later))
    ]

-- In the order of the due runs the challenges take turns: in every prefix (so in particular in the
-- part that the limit of enqueues for a tick lets through) a challenge has at most one run more than
-- any other challenge of which not all due runs are in the prefix.
pub fair_order-IsFair :
    (runs : List Run) (n : ℕ) (c d : Uuid)
    → (count (of_challenge c) (take n (weighted_fair_due_order runs))
        ≤ count (of_challenge d) (take n (weighted_fair_due_order runs)) + 1)
      ⊎ (count (of_challenge d) (take n (weighted_fair_due_order runs))
          ≡ count (of_challenge d) runs)
fair_order-IsFair runs n c d =
    let queues = start_queues runs in
    let (result, e) = rounds_end (weight queues) [] queues (omega arith) in
    let fair = rounds-IsFair (weight queues) queues result (IsKeyed-start runs) e n c d in
    rw (fair_order_eq runs result e, ← total-start_queues (of_challenge d) runs) fair
