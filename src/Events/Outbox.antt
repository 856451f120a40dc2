-- ===== src/Events/Outbox.antt =====
-- app/events/outbox.py
pub mod Relay
pub mod Enqueue
use why_combinator.Prelude.{
  ℕ, suc, ◌+◌, ◌*◌, ◌≡◌, ◌↔◌, refl, String, Bool, true, false, ◌&&◌, Option, none, some, List, [],
  ◌∷◌, ◌++◌, map, arith, leb, ltb, length, take, head?, if◌then◌else◌, HasEq, ◌==◌, nat_has_eq,
  text_has_eq, max_of,
}
use why_combinator.Prelude.Sort.{sort}
use why_combinator.Prelude.Orders.{lexicographic}
use why_combinator.Platform.Sql.{Engine}
use why_combinator.Platform.Redis.{Redis, set_nx}
use why_combinator.Db.Models.{Uuid, Instant}
use why_combinator.Db.Tables.{replace}

-- `payload` is the text of the JSON that is published.
pub record OutboxEvent : Type 0 where
  pub id : Uuid
  pub stream_name : String
  pub event_type : String
  pub event_key : String
  pub payload : String
  pub created_at : Instant
  pub published_at : Option Instant
  pub publish_attempts : ℕ
  pub last_error : Option String

abbrev pub outbox_key : OutboxEvent → Uuid
outbox_key e = e.id

-- What enqueueing is given; `id` and `created_at` are the defaults of the row.
pub record NewEvent : Type 0 where
  pub id : Uuid
  pub created_at : Instant
  pub stream_name : String
  pub event_type : String
  pub event_key : String
  pub payload : String

pub fresh_event : NewEvent → OutboxEvent
fresh_event n = record {
  id = n.id;
  stream_name = n.stream_name;
  event_type = n.event_type;
  event_key = n.event_key;
  payload = n.payload;
  created_at = n.created_at;
  published_at = none;
  publish_attempts = 0;
  last_error = none;
}

-- The event that is returned, and the table.
pub enqueue_outbox_event : Engine → NewEvent → List OutboxEvent → OutboxEvent × List OutboxEvent
enqueue_outbox_event db n table =
    elim (head? (db.select OutboxEvent (λ e. e.event_key == n.event_key) table)) [
      | some existing ↦ (existing, table)
      | none ↦ let event = fresh_event n in (event, table ++ event ∷ [])
    ]

-- f"eventbus:published:{event_id}"
pub data DedupKey : Type 0 where
  published : Uuid → DedupKey

abbrev pub dedup_key_same : DedupKey → DedupKey → Bool
dedup_key_same (published a) (published b) = a == b

pub dedup_key_same_iff : (a b : DedupKey) → (dedup_key_same a b ≡ true) ↔ (a ≡ b)
dedup_key_same_iff (published a) (published b) = ground arith

abbrev pub dedup_key_has_eq : HasEq DedupKey
dedup_key_has_eq = record { same = dedup_key_same; same_iff = dedup_key_same_iff }

abbrev pub DedupRedis : Type 1
DedupRedis = Redis DedupKey String dedup_key_has_eq

-- The event has not been published.
abbrev pub is_pending : OutboxEvent → Bool
is_pending e = elim e.published_at [ none ↦ true | some _ ↦ false ]

abbrev pub older : OutboxEvent → OutboxEvent → Bool
older = lexicographic (λ a b. ltb a.created_at b.created_at) (λ a b. leb a.id b.id)

-- The events of a batch.
unfoldable pub pending_events : Engine → ℕ → List OutboxEvent → List OutboxEvent
pending_events db batch table =
    take (max_of 1 batch) (sort older (db.select OutboxEvent is_pending table))

pub record OutboxRelayResult : Type 0 where
  pub processed : ℕ
  pub published : ℕ
  pub deduplicated : ℕ
  pub failed : ℕ

-- The server, and the events whose stream and payload have been published on it so far.
pub record Bus (redis : DedupRedis) : Type 0 where
  pub state : redis.State
  pub log : List OutboxEvent

-- How the call that runs the script goes for an event: its answer arrives, or it raises, with the
-- script executed by the server or not.
pub data Call : Type 0 where
  answers : Call
  raises : (executed : Bool) (error : String) → Call

module _ (redis : DedupRedis) where
  -- The script, which the server runs as one command; whether the message was published. That a key
  -- expires, after the time that PEXPIRE sets, is no step of the script: it is a change from outside.
  unfoldable pub publish_outbox_once :
      (ttl_seconds : ℕ) → Bus redis → OutboxEvent → Bool × Bus redis
  publish_outbox_once ttl_seconds bus e =
      let (inserted, s) = set_nx redis bus.state (published e.id) "1" in
      if inserted
      then (
        true,
        record {
          state = redis.pexpire s (published e.id) (max_of 1 (ttl_seconds * 1000));
          log = bus.log ++ e ∷ [];
        },
      )
      else (false, record { state = s; log = bus.log })

  -- What the loop does to the row of an event.
  abbrev pub mark : Call → Instant → OutboxEvent → OutboxEvent
  mark answers now e = record e {
    publish_attempts = e.publish_attempts + 1;
    published_at = some now;
    last_error = none;
  }
  mark (raises executed error) now e = record e {
    publish_attempts = e.publish_attempts + 1;
    last_error = some error;
  }

  -- The counters that the loop keeps: published, deduplicated, failed.
  pub record Counters : Type 0 where
    pub published : ℕ
    pub deduplicated : ℕ
    pub failed : ℕ

  abbrev pub tally : Call → Bool → Counters → Counters
  tally answers true c = record c { published = c.published + 1 }
  tally answers false c = record c { deduplicated = c.deduplicated + 1 }
  tally (raises executed error) emitted c = record c { failed = c.failed + 1 }

  -- The bus behind the call.
  abbrev pub bus_after : Call → Bus redis → Bus redis → Bus redis
  bus_after answers before after = after
  bus_after (raises true error) before after = after
  bus_after (raises false error) before after = before

  -- `for event in pending_events`, with one time for all of its `datetime.now(UTC)`
  unfoldable pub relay_all :
      (ttl_seconds : ℕ) (call : OutboxEvent → Call) (now : Instant)
      → List OutboxEvent
      → Counters
      → Bus redis
      → List OutboxEvent
      → Counters × Bus redis × List OutboxEvent
  relay_all ttl_seconds call now [] c bus table = (c, bus, table)
  relay_all ttl_seconds call now (e ∷ es) c bus table =
      let (emitted, bus') = publish_outbox_once ttl_seconds bus e in
      relay_all ttl_seconds call now es (tally (call e) emitted c) (bus_after (call e) bus bus')
        (replace outbox_key (mark (call e) now e) table)

  -- `batch` is `batch_size`, or OUTBOX_RELAY_BATCH_SIZE where that is missing or 0.
  unfoldable pub relay_outbox_events :
      Engine
      → (ttl_seconds : ℕ) (call : OutboxEvent → Call) (batch : ℕ) → Instant
      → Bus redis
      → List OutboxEvent
      → OutboxRelayResult × Bus redis × List OutboxEvent
  relay_outbox_events db ttl_seconds call batch now bus table =
      let events = pending_events db batch table in
      let (c, bus', table') =
        relay_all ttl_seconds call now events
          (record { published = 0; deduplicated = 0; failed = 0 }) bus table in
      (
        record {
          processed = length events;
          published = c.published;
          deduplicated = c.deduplicated;
          failed = c.failed;
        },
        bus',
        table',
      )
