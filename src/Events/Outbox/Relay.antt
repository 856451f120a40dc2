-- ===== src/Events/Outbox/Relay.antt =====
-- Once published, an event is not published again, and what a relay does to the table.
use mathlib.Core.List.{Memᴰ}
use why_combinator.Prelude.{
  ℕ, ◌+◌, ◌*◌, ◌≡◌, refl, subst, ◌∙◌, ap, inl, inr, String, Bool, true, false, ◌&&◌, ◌||◌, Option,
  none, some, List, [], ◌∷◌, ◌++◌, map, arith, length, if◌then◌else◌, ◌==◌, nat_has_eq, text_has_eq,
  max_of, count, count-append, any, Option-cases, ==→eq, ==-refl,
}
use why_combinator.Prelude.Sort.{sort, sort-perm}
use why_combinator.Prelude.Members.{Memᴰ-perm, Memᴰ-take, any-Memᴰ}
use why_combinator.Platform.Sql.{Engine}
use why_combinator.Platform.Redis.{set_nx}
use why_combinator.Db.Models.{Uuid, Instant}
use why_combinator.Db.Tables.{replace, change_all, change_all_among, IsKeyed, Memᴰ-select}
use why_combinator.Events.Outbox.{
  OutboxEvent, outbox_key, published, DedupRedis, is_pending, older, pending_events, Bus, Call,
  answers, raises, publish_outbox_once, mark, Counters, tally, bus_after, relay_all,
  relay_outbox_events,
}

abbrev pub is_event : Uuid → OutboxEvent → Bool
is_event i e = e.id == i

-- The key under which the server remembers the event.
abbrev pub is_known : (redis : DedupRedis) → redis.State → Uuid → Bool
is_known redis s i = elim (redis.get s (published i)) [ none ↦ false | some _ ↦ true ]

module _ (redis : DedupRedis) where
  -- Each event has been published once if the server remembers it, and never if it does not: so it is
  -- as long as no key of a published event has expired.
  abbrev pub IsOnce : Bus redis → Type 0
  IsOnce bus =
      (i : Uuid) → count (is_event i) bus.log ≡ (if is_known redis bus.state i then 1 else 0)

  abbrev publish : ℕ → Bus redis → OutboxEvent → Bool × Bus redis
  publish = publish_outbox_once redis

  publish_new :
      (ttl : ℕ) (bus : Bus redis) (e : OutboxEvent)
      → redis.get bus.state (published e.id) ≡ none
      → publish ttl bus e ≡ (
        true,
        record {
          state =
              redis.pexpire
                (redis.set bus.state (published e.id) "1")
                (published e.id)
                (max_of 1 (ttl * 1000));
          log = bus.log ++ e ∷ [];
        },
      )
  unfolding publish_outbox_once set_nx
  publish_new ttl bus e h = rw (h, set_nx) refl

  publish_known :
      (ttl : ℕ) (bus : Bus redis) (e : OutboxEvent) (v : String)
      → redis.get bus.state (published e.id) ≡ some v
      → publish ttl bus e ≡ (false, bus)
  unfolding publish_outbox_once set_nx
  publish_known ttl bus e v h = rw (h, set_nx) refl

  known_after :
      (ttl : ℕ) (bus : Bus redis) (e : OutboxEvent) (i : Uuid)
      → redis.get
          (redis.pexpire
            (redis.set bus.state (published e.id) "1")
            (published e.id)
            (max_of 1 (ttl * 1000)))
          (published i)
        ≡ (if e.id == i then some "1" else redis.get bus.state (published i))
  known_after ttl bus e i =
      redis.get-pexpire (redis.set bus.state (published e.id) "1") (published e.id)
        (max_of 1 (ttl * 1000)) (published i) (ground arith)
      ∙ redis.get-set bus.state (published e.id) "1" (published i)

  publish-IsOnce :
      (ttl : ℕ) (bus : Bus redis) (e : OutboxEvent) → IsOnce bus → IsOnce (publish ttl bus e).1
  publish-IsOnce ttl bus e once i = elim (Option-cases (redis.get bus.state (published e.id))) [
    | inl new ↦
        let same : (e.id == i) ≡ true → redis.get bus.state (published i) ≡ none =
          λ t. subst (λ x. redis.get bus.state (published x) ≡ none) (==→eq e.id i t) new in
        rw (publish_new ttl bus e new) (
          count-append (is_event i) bus.log (e ∷ [])
          ∙ ground (arith, once i, known_after ttl bus e i, same))
    | inr (v, known) ↦ rw (publish_known ttl bus e v known) (once i)
  ]

  -- Publishing makes the server remember the event, and forget none.
  publish-is_known :
      (ttl : ℕ) (bus : Bus redis) (e : OutboxEvent) (i : Uuid)
      → is_known redis (publish ttl bus e).1.state i ≡ ((e.id == i) || is_known redis bus.state i)
  publish-is_known ttl bus e i = elim (Option-cases (redis.get bus.state (published e.id))) [
    | inl new ↦ rw (publish_new ttl bus e new) (ground (arith, known_after ttl bus e i))
    | inr (v, known) ↦
        let same : (e.id == i) ≡ true → redis.get bus.state (published i) ≡ some v =
          λ t. subst (λ x. redis.get bus.state (published x) ≡ some v) (==→eq e.id i t) known in
        rw (publish_known ttl bus e v known) (ground (arith, same))
  ]

  bus_after-IsOnce :
      (call : Call) (bus bus' : Bus redis)
      → IsOnce bus
      → IsOnce bus'
      → IsOnce (bus_after redis call bus bus')
  bus_after-IsOnce answers bus bus' h h' = h'
  bus_after-IsOnce (raises true error) bus bus' h h' = h'
  bus_after-IsOnce (raises false error) bus bus' h h' = h

  relay_all-IsOnce :
      (ttl : ℕ) (call : OutboxEvent → Call) (now : Instant) (es : List OutboxEvent)
      (c : Counters redis) (bus : Bus redis) (table : List OutboxEvent)
      → IsOnce bus
      → IsOnce (relay_all redis ttl call now es c bus table).1
  unfolding relay_all
  relay_all-IsOnce ttl call now [] c bus table once = once
  relay_all-IsOnce ttl call now (e ∷ es) c bus table once =
      let (emitted, bus') = publish ttl bus e in
      relay_all-IsOnce ttl call now es (tally redis (call e) emitted c)
        (bus_after redis (call e) bus bus') (replace outbox_key (mark redis (call e) now e) table)
        (bus_after-IsOnce (call e) bus bus' once (publish-IsOnce ttl bus e once))

  -- The call for the event reached the server.
  abbrev pub reached : Call → Bool
  reached answers = true
  reached (raises executed error) = executed

  bus_after-is_known :
      (ttl : ℕ) (call : Call) (bus : Bus redis) (e : OutboxEvent) (i : Uuid)
      → is_known redis (bus_after redis call bus (publish ttl bus e).1).state i
        ≡ ((reached call && (e.id == i)) || is_known redis bus.state i)
  bus_after-is_known ttl answers bus e i = publish-is_known ttl bus e i
  bus_after-is_known ttl (raises true error) bus e i = publish-is_known ttl bus e i
  bus_after-is_known ttl (raises false error) bus e i = refl

  relay_all-is_known :
      (ttl : ℕ) (call : OutboxEvent → Call) (now : Instant) (es : List OutboxEvent)
      (c : Counters redis) (bus : Bus redis) (table : List OutboxEvent) (i : Uuid)
      → is_known redis (relay_all redis ttl call now es c bus table).1.state i
        ≡ (any (λ e. reached (call e) && is_event i e) es || is_known redis bus.state i)
  unfolding relay_all
  relay_all-is_known ttl call now [] c bus table i = refl
  relay_all-is_known ttl call now (e ∷ es) c bus table i =
      let (emitted, bus') = publish ttl bus e in
      relay_all-is_known ttl call now es (tally redis (call e) emitted c)
        (bus_after redis (call e) bus bus') (replace outbox_key (mark redis (call e) now e) table) i
      ∙ ground (arith, bus_after-is_known ttl (call e) bus e i)

  mark-id : (call : Call) (now : Instant) (e : OutboxEvent) → (mark redis call now e).id ≡ e.id
  mark-id answers now e = refl
  mark-id (raises executed error) now e = refl

  relay_all_table :
      (ttl : ℕ) (call : OutboxEvent → Call) (now : Instant) (es : List OutboxEvent)
      (c : Counters redis) (bus : Bus redis) (table : List OutboxEvent)
      → (relay_all redis ttl call now es c bus table).2
        ≡ change_all outbox_key (λ e. mark redis (call e) now e) es table
  unfolding relay_all change_all
  relay_all_table ttl call now [] c bus table = refl
  relay_all_table ttl call now (e ∷ es) c bus table =
      let (emitted, bus') = publish ttl bus e in
      relay_all_table ttl call now es (tally redis (call e) emitted c)
        (bus_after redis (call e) bus bus') (replace outbox_key (mark redis (call e) now e) table)

  -- If every event has been published exactly once where the server remembers it, and never where it does
  -- not, then the same is true after a relay, whatever it is given and however its calls go. The hypothesis
  -- excludes an event that has been published and whose key has expired since.
  pub relay-IsOnce :
      (db : Engine) (ttl : ℕ) (call : OutboxEvent → Call) (batch : ℕ) (now : Instant)
      (bus : Bus redis) (table : List OutboxEvent)
      → IsOnce bus
      → IsOnce (relay_outbox_events redis db ttl call batch now bus table).1
  unfolding relay_outbox_events
  relay-IsOnce db ttl call batch now bus table once =
      relay_all-IsOnce ttl call now (pending_events db batch table) _ bus table once

  -- If every event has been published exactly once where the server remembers it, and never where it does
  -- not (so no key of a published event has expired), then an event of the batch whose call reaches the
  -- server, be it that its answer is lost, has been published exactly once afterwards.
  pub relay_delivers :
      (db : Engine) (ttl : ℕ) (call : OutboxEvent → Call) (batch : ℕ) (now : Instant)
      (bus : Bus redis) (table : List OutboxEvent) (e : OutboxEvent)
      → IsOnce bus
      → Memᴰ e (pending_events db batch table)
      → reached (call e) ≡ true
      → count (is_event e.id) (relay_outbox_events redis db ttl call batch now bus table).1.log ≡ 1
  unfolding relay_outbox_events
  relay_delivers db ttl call batch now bus table e once m arrives =
      let events = pending_events db batch table in
      let found : any (λ x. reached (call x) && is_event e.id x) events ≡ true =
        any-Memᴰ (λ x. reached (call x) && is_event e.id x) events m
          (rw (arrives, ==-refl e.id) refl) in
      relay_all-IsOnce ttl call now events _ bus table once e.id
      ∙ ap (λ b. if b then 1 else 0)
          (relay_all-is_known ttl call now events _ bus table e.id
            ∙ ap (λ b. b || is_known redis bus.state e.id) found)

  abbrev total : Counters redis → ℕ
  total c = c.published + c.deduplicated + c.failed

  abbrev pub is_failure : Call → Bool
  is_failure answers = false
  is_failure (raises executed error) = true

  tally_total :
      (call : Call) (b : Bool) (c : Counters redis) → total (tally redis call b c) ≡ total c + 1
  tally_total answers true c = omega arith
  tally_total answers false c = omega arith
  tally_total (raises executed error) b c = omega arith

  tally_failed :
      (call : Call) (b : Bool) (c : Counters redis)
      → (tally redis call b c).failed ≡ c.failed + (if is_failure call then 1 else 0)
  tally_failed answers true c = omega arith
  tally_failed answers false c = omega arith
  tally_failed (raises executed error) b c = omega arith

  relay_all_counts :
      (ttl : ℕ) (call : OutboxEvent → Call) (now : Instant) (es : List OutboxEvent)
      (c : Counters redis) (bus : Bus redis) (table : List OutboxEvent)
      → let c' = (relay_all redis ttl call now es c bus table).0 in
        (total c' ≡ total c + length es)
        × (c'.failed ≡ c.failed + count (λ e. is_failure (call e)) es)
  unfolding relay_all
  relay_all_counts ttl call now [] c bus table = (omega arith, omega arith)
  relay_all_counts ttl call now (e ∷ es) c bus table =
      let (emitted, bus') = publish ttl bus e in
      let c' = tally redis (call e) emitted c in
      let (all, bad) =
        relay_all_counts ttl call now es c' (bus_after redis (call e) bus bus')
          (replace outbox_key (mark redis (call e) now e) table) in
      (
        omega (arith, all, tally_total (call e) emitted c),
        omega (arith, bad, tally_failed (call e) emitted c),
      )

  -- The error that a call leaves, if any.
  abbrev pub error_of : Call → Option String
  error_of answers = none
  error_of (raises executed error) = some error

  -- The row of an event after its call, written out.
  abbrev pub relayed_row : Call → Instant → OutboxEvent → OutboxEvent
  relayed_row call now e = record {
    id = e.id;
    stream_name = e.stream_name;
    event_type = e.event_type;
    event_key = e.event_key;
    payload = e.payload;
    created_at = e.created_at;
    published_at = if is_failure call then e.published_at else some now;
    publish_attempts = e.publish_attempts + 1;
    last_error = error_of call;
  }

  mark_lem :
      (call : Call) (now : Instant) (e : OutboxEvent)
      → mark redis call now e ≡ relayed_row call now e
  mark_lem answers now e = refl
  mark_lem (raises executed error) now e = refl

  change_row :
      (call : OutboxEvent → Call) (now : Instant) (b : OutboxEvent → Bool)
      (table : List OutboxEvent)
      → map (λ e. if b e then mark redis (call e) now e else e) table
        ≡ map (λ e. if b e then relayed_row (call e) now e else e) table
  change_row call now b [] = refl
  change_row call now b (e ∷ es) = rw (mark_lem (call e) now e, change_row call now b es) refl

  pending-Memᴰ :
      (db : Engine) (batch : ℕ) (table : List OutboxEvent) (e : OutboxEvent)
      → Memᴰ e (pending_events db batch table)
      → Memᴰ e table
  unfolding pending_events
  pending-Memᴰ db batch table e m =
      let rows = db.select OutboxEvent is_pending table in
      let inside =
        Memᴰ-perm (sort-perm older rows) (Memᴰ-take (max_of 1 batch) (sort older rows) m) in
      (Memᴰ-select db is_pending table inside).0

  -- Where the id is the key of the table, a relay changes exactly the events of its batch: one whose call
  -- is answered is published now and has no error, one whose call raises keeps its publication time and has
  -- the error, each has one attempt more, and the other columns stay. The counts that it returns add up to the size of the
  -- batch, and those that failed are the ones whose call raises.
  pub relay_marks :
      (db : Engine) (ttl : ℕ) (call : OutboxEvent → Call) (batch : ℕ) (now : Instant)
      (bus : Bus redis) (table : List OutboxEvent)
      → IsKeyed outbox_key table
      → let events = pending_events db batch table in
        let (result, _, table') = relay_outbox_events redis db ttl call batch now bus table in
        (table'
          ≡ map
              (λ e. if any (λ x. x.id == e.id) events then relayed_row (call e) now e else e)
              table)
        × (result.processed ≡ length events)
        × (result.published + result.deduplicated + result.failed ≡ result.processed)
        × (result.failed ≡ count (λ e. is_failure (call e)) events)
  unfolding relay_outbox_events
  relay_marks db ttl call batch now bus table keyed =
      let events = pending_events db batch table in
      let (all, bad) =
        relay_all_counts ttl call now events
          (record { published = 0; deduplicated = 0; failed = 0 }) bus table in
      (
        relay_all_table ttl call now events _ bus table
            ∙ change_all_among outbox_key (λ e. mark redis (call e) now e)
                (λ e. mark-id (call e) now e) events table keyed
                (λ e m. pending-Memᴰ db batch table e m)
            ∙ change_row call now (λ e. any (λ x. x.id == e.id) events) table,
        refl,
        omega (arith, all),
        omega (arith, bad),
      )
