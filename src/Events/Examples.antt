-- ===== src/Events/Examples.antt =====
-- The outbox at work, and the theorems at concrete inputs.
use mathlib.Core.List.{Memᴰ}
use why_combinator.Prelude.{
  ◌+◌, ◌≤◌, ◌≡◌, refl, String, true, none, List, [], ◌∷◌, map, arith, length, if◌then◌else◌, ◌==◌,
  nat_has_eq, text_has_eq, count, any,
}
use why_combinator.Prelude.Sort.{sort}
use why_combinator.Platform.Sql.{in_order}
use why_combinator.Platform.Redis.{in_memory, set_nx}
use why_combinator.Db.Models.{Uuid}
use why_combinator.Db.Tables.{replace, IsKeyed, IsKeyed-nil, IsKeyed-cons}
use why_combinator.Events.Outbox.{
  OutboxEvent, outbox_key, NewEvent, enqueue_outbox_event, DedupKey, dedup_key_has_eq, DedupRedis,
  Bus, Call, answers, raises, OutboxRelayResult, publish_outbox_once, pending_events, relay_all,
  relay_outbox_events,
}
use why_combinator.Events.Outbox.Relay.{
  is_event, IsOnce, is_failure, relayed_row, relay-IsOnce, relay_delivers, relay_marks,
}
use why_combinator.Events.Outbox.Enqueue.{has_key, enqueue_once}

abbrev redis : DedupRedis
redis = in_memory DedupKey String dedup_key_has_eq

abbrev idle : Bus redis
idle = record { state = λ k. none; log = [] }

idle-IsOnce : IsOnce redis idle
idle-IsOnce i = refl

abbrev new : Uuid → String → NewEvent
new i k = record {
  id = i;
  created_at = i;
  stream_name = "run_events";
  event_type = "run_started";
  event_key = k;
  payload = "{}";
}

abbrev event : Uuid → String → OutboxEvent
event i k = record {
  id = i;
  stream_name = "run_events";
  event_type = "run_started";
  event_key = k;
  payload = "{}";
  created_at = i;
  published_at = none;
  publish_attempts = 0;
  last_error = none;
}

abbrev table : List OutboxEvent
table = event 2 "b" ∷ event 1 "a" ∷ []

-- The answer for event 1 is lost.
abbrev shaky : OutboxEvent → Call
shaky e = if e.id == 1 then raises true "timeout" else answers

abbrev relayed : OutboxRelayResult × Bus redis × List OutboxEvent
relayed = relay_outbox_events redis in_order 60 shaky 10 99 idle table

-- The next relay takes event 1 up again, and does not publish it twice.
abbrev relayed_again : OutboxRelayResult × Bus redis × List OutboxEvent
relayed_again = relay_outbox_events redis in_order 60 (λ e. answers) 10 100 relayed.1 relayed.2

deduplicated :
    (map outbox_key relayed_again.1.log ≡ 1 ∷ 2 ∷ [])
    × (relayed_again.0 ≡ record { processed = 1; published = 0; deduplicated = 1; failed = 0 })
unfolding relay_outbox_events relay_all publish_outbox_once pending_events set_nx sort replace
deduplicated = (refl, refl)

table-IsKeyed : IsKeyed outbox_key table
table-IsKeyed =
    let k = IsKeyed-nil outbox_key in
    let k = IsKeyed-cons outbox_key (event 1 "a") [] refl k in
    IsKeyed-cons outbox_key (event 2 "b") _ refl k

-- The second relay starts where both events have been published.
relay-IsOnce_example : IsOnce redis relayed_again.1
relay-IsOnce_example =
    relay-IsOnce redis in_order 60 (λ e. answers) 10 100 relayed.1 relayed.2
      (relay-IsOnce redis in_order 60 shaky 10 99 idle table idle-IsOnce)

in_batch : Memᴰ (event 1 "a") (pending_events in_order 10 table)
unfolding pending_events sort
in_batch = Memᴰ.head refl

relay_delivers_example : count (is_event 1) relayed.1.log ≡ 1
relay_delivers_example =
    relay_delivers redis in_order 60 shaky 10 99 idle table (event 1 "a") idle-IsOnce in_batch refl

relay_marks_example :
    let events = pending_events in_order 10 table in
    (relayed.2
      ≡ map
          (λ e. if any (λ x. x.id == e.id) events then relayed_row redis (shaky e) 99 e else e)
          table)
    × ((relayed.0).processed ≡ length events)
    × ((relayed.0).published + (relayed.0).deduplicated + (relayed.0).failed
        ≡ (relayed.0).processed)
    × ((relayed.0).failed ≡ count (λ e. is_failure redis (shaky e)) events)
relay_marks_example = relay_marks redis in_order 60 shaky 10 99 idle table table-IsKeyed

one_each : (k : String) → count (has_key k) (event 1 "a" ∷ []) ≤ 1
one_each k = ground arith

enqueue_once_example :
    let (e, t) = enqueue_outbox_event in_order (new 7 "b") (event 1 "a" ∷ []) in
    Memᴰ e t
    × (e.event_key ≡ "b")
    × ((k : String) → count (has_key k) t ≤ 1)
    × (enqueue_outbox_event in_order (new 8 "b") t ≡ (e, t))
enqueue_once_example =
    enqueue_once in_order (new 7 "b") (new 8 "b") (event 1 "a" ∷ []) one_each refl
