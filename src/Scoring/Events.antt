-- ===== src/Scoring/Events.antt =====
-- app/scoring/events.py
pub mod Once
pub mod Keys
use why_combinator.Prelude.{
  ℕ, ◌≡◌, String, Bool, true, false, Option, none, some, List, [], ◌∷◌, ◌++◌, if◌then◌else◌, ◌==◌,
  nat_has_eq, filter, head?, Outcome, ok, raise,
}
use why_combinator.Platform.Sql.{Engine}
use why_combinator.Platform.Redis.{Redis}
use why_combinator.Platform.Uuids.{Uuids}
use why_combinator.Platform.Json.{Json, Fields, field, end, text, real, object, get, text_of}
use why_combinator.Db.Models.{Uuid, Instant, Submission, ScoreEvent}
use why_combinator.Db.Idempotency.{
  IdempotencyScope, score_event_write, IdempotencyKey, get_idempotent_response,
  store_idempotent_response,
}
use why_combinator.Leaderboard.Cache.{
  CacheKey, CacheText, cache_key_has_eq, invalidate_leaderboard_scoreboard_cache,
}

-- The arguments that describe the event.
pub record ScoreEventRequest (Float : Type 0) : Type 0 where
  pub submission_id : Uuid
  pub checkpoint_id : String
  pub quality_score : Float
  pub novelty_score : Float
  pub feasibility_score : Float
  pub criteria_score : Float
  pub final_score : Float
  pub payload : Fields Float

-- What a stored response without the id of an event raises, the ValueError for an event that is gone, and
-- the IntegrityErrors of an unknown submission, which the first flush raises, and of a key that is in use.
pub data ScoreEventError : Type 0 where
  malformed_response missing_row unknown_submission : ScoreEventError
  key_in_use : (idempotency_key : String) → ScoreEventError

-- The session, with what it has added, and the cache.
pub record Session {Float : Type 0} (redis : Redis CacheKey (CacheText Float) cache_key_has_eq)
    : Type 0 where
  pub score_events : List (ScoreEvent Float)
  pub idempotency_keys : List (IdempotencyKey Float)
  pub submissions : List Submission
  pub cache : redis.State

abbrev pub find_submission : List Submission → Uuid → Option Submission
find_submission submissions id = head? (filter (λ (x : Submission). x.id == id) submissions)

-- `sha256` is the digest of a dictionary as JSON with sorted keys; `reachable` is that of the cache.
module _ {Float : Type 0} (uuids : Uuids) (sha256 : Fields Float → String) where
  abbrev pub request_payload : ScoreEventRequest Float → Fields Float
  request_payload r = field "submission_id" (text (uuids.str r.submission_id)) (
      field "checkpoint_id" (text r.checkpoint_id) (
        field "quality_score" (real r.quality_score) (
          field "novelty_score" (real r.novelty_score) (
            field "feasibility_score" (real r.feasibility_score) (
              field "criteria_score" (real r.criteria_score) (
                field "final_score" (real r.final_score)
                  (field "payload" (object r.payload) end)))))))

  abbrev pub request_hash : ScoreEventRequest Float → String
  request_hash r = sha256 (request_payload r)

  abbrev pub scope_of : ScoreEventRequest Float → IdempotencyScope
  scope_of r = score_event_write r.submission_id r.checkpoint_id

  -- `id` and `created_at` are the defaults of the columns.
  abbrev pub score_event :
      (id : Uuid) → (now : Instant) → ScoreEventRequest Float → ScoreEvent Float
  score_event id now r = record {
    id = id;
    submission_id = r.submission_id;
    checkpoint_id = r.checkpoint_id;
    quality_score = r.quality_score;
    novelty_score = r.novelty_score;
    feasibility_score = r.feasibility_score;
    criteria_score = r.criteria_score;
    final_score = r.final_score;
    payload = r.payload;
    payload_checksum = sha256 r.payload;
    created_at = now;
  }

  -- The event that a stored response names.
  unfoldable pub existing_event :
      List (ScoreEvent Float) → Fields Float → Outcome ScoreEventError (ScoreEvent Float)
  unfolding get text_of
  existing_event events response = elim (text_of (get "score_event_id" response)) [
    | none ↦ raise malformed_response
    | some t ↦ elim (uuids.parse t) [
      | none ↦ raise malformed_response
      | some id ↦ elim (head? (filter (λ (e : ScoreEvent Float). e.id == id) events)) [
        | none ↦ raise missing_row
        | some row ↦ ok row
      ]
    ]
  ]

  abbrev pub response_of : Uuid → Fields Float
  response_of id = field "score_event_id" (text (uuids.str id)) end

  module _ (db : Engine) (redis : Redis CacheKey (CacheText Float) cache_key_has_eq)
      (reachable : Bool) where
    -- What follows if no response is stored. The foreign key of the event has the first flush raise for a
    -- submission that does not exist, so that `session.get` behind it finds the submission.
    unfoldable pub create_score_event :
        (id : Uuid)
        → Instant
        → (idempotency_key : String) → ScoreEventRequest Float
        → Session redis
        → Outcome ScoreEventError (ScoreEvent Float) × Session redis
    create_score_event id now idempotency_key r s =
        let event = score_event id now r in
        let added : Session redis = record s { score_events = s.score_events ++ event ∷ [] } in
        elim (find_submission s.submissions r.submission_id) [
          | none ↦ (raise unknown_submission, s)
          | some submission ↦
              let invalidated : Session redis = record added {
                cache =
                    invalidate_leaderboard_scoreboard_cache redis reachable s.cache
                      submission.run_id;
              } in
              elim (store_idempotent_response s.idempotency_keys (scope_of r) idempotency_key
                (request_hash r) (response_of id)) [
                  | raise _ ↦ (raise (key_in_use idempotency_key), invalidated)
                  | ok keys ↦ (ok event, record invalidated { idempotency_keys = keys })
                ]
        ]

    unfoldable pub create_score_event_idempotent :
        (id : Uuid)
        → Instant
        → (idempotency_key : String) → ScoreEventRequest Float
        → Session redis
        → Outcome ScoreEventError (ScoreEvent Float) × Session redis
    create_score_event_idempotent id now idempotency_key r s =
        elim (get_idempotent_response db s.idempotency_keys (scope_of r) idempotency_key
          (request_hash r)) [
            | some existing ↦ (existing_event s.score_events existing, s)
            | none ↦ create_score_event id now idempotency_key r s
          ]
