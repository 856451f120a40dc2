-- ===== src/Scoring/EventsExamples.antt =====
-- Score events that are created again, and the theorems at these inputs.
use mathlib.Core.List.{Memᴰ}
use why_combinator.Prelude.{
  ℕ, ◌≡◌, refl, ◌⊎◌, String, true, false, none, some, [], ◌∷◌, ◌++◌, arith, ok, raise,
}
use why_combinator.Platform.Sql.{in_order}
use why_combinator.Platform.Redis.{Redis, in_memory}
use why_combinator.Platform.Uuids.{tallies}
use why_combinator.Platform.Json.{Fields, end}
use why_combinator.Db.Enums.{pending}
use why_combinator.Db.Models.{Uuid, Submission}
use why_combinator.Db.Idempotency.{
  IdempotencyKey, get_idempotent_response, store_idempotent_response,
}
use why_combinator.Leaderboard.Cache.{
  CacheKey, CacheText, cache_key_has_eq, read_leaderboard_scoreboard_cache, scoreboard, array,
}
use why_combinator.Scoring.Events.{
  ScoreEventRequest, Session, score_event, scope_of, key_in_use, find_submission, response_of,
  create_score_event, create_score_event_idempotent,
}
use why_combinator.Scoring.Events.Once.{create, behind, create_once}
use why_combinator.Scoring.Events.Keys.{key_serves_one}

abbrev cache : Redis CacheKey (CacheText ℕ) cache_key_has_eq
cache = in_memory CacheKey (CacheText ℕ) cache_key_has_eq

abbrev sha256 : Fields ℕ → String
sha256 payload = "digest"

abbrev submission : Uuid → Submission
submission i = record {
  id = i;
  run_id = 5;
  agent_id = 3;
  state = pending;
  value_hypothesis = "";
  summary = "";
  accepted_at = none;
  human_testing_required = false;
}

abbrev request : Uuid → ScoreEventRequest ℕ
request i = record {
  submission_id = i;
  checkpoint_id = "c1";
  quality_score = 500;
  novelty_score = 400;
  feasibility_score = 300;
  criteria_score = 200;
  final_score = 450;
  payload = end;
}

-- A scoreboard is cached.
abbrev before : Session cache
before = record {
  score_events = [];
  idempotency_keys = [];
  submissions = submission 1 ∷ submission 2 ∷ [];
  cache = cache.set (λ k. none) (scoreboard 5) (array []);
}

abbrev first_key : IdempotencyKey ℕ
first_key = record {
  scope = scope_of tallies sha256 (request 1);
  key = "k";
  request_hash = "digest";
  response_payload = response_of tallies sha256 20;
}

abbrev after : Session cache
after = behind tallies sha256 in_order cache 20 7 (request 1) before (first_key ∷ []) (submission 1)

created_once :
    create tallies sha256 in_order cache 20 7 "k" (request 1) before
    ≡ (ok (score_event tallies sha256 20 7 (request 1)), after)
unfolding create_score_event_idempotent create_score_event get_idempotent_response
    store_idempotent_response
created_once = refl

create_once_example :
    (create tallies sha256 in_order cache 21 8 "k" (request 1) after
      ≡ (ok (score_event tallies sha256 20 7 (request 1)), after))
    × (((after ≡ before) × Memᴰ (score_event tallies sha256 20 7 (request 1)) before.score_events)
        ⊎ ((score_event tallies sha256 20 7 (request 1)
              ≡ score_event tallies sha256 20 7 (request 1))
            × (after.score_events
                ≡ before.score_events ++ score_event tallies sha256 20 7 (request 1) ∷ [])
            × (x : Submission) × (find_submission before.submissions 1 ≡ some x)
            × (read_leaderboard_scoreboard_cache cache true after.cache x.run_id ≡ none)))
create_once_example =
    create_once tallies sha256 in_order cache 20 21 7 8 "k" (request 1) before after
      (score_event tallies sha256 20 7 (request 1)) (λ k. omega arith) refl created_once

-- The key of one submission, given with the request for another.
key_serves_one_example :
    let (answer, s'') = create tallies sha256 in_order cache 21 8 "k" (request 2) after in
    (answer ≡ raise (key_in_use "k")) × (s''.idempotency_keys ≡ after.idempotency_keys)
key_serves_one_example =
    key_serves_one tallies sha256 in_order cache 20 21 7 8 "k" (request 1) (request 2) before after
      (score_event tallies sha256 20 7 (request 1)) (submission 2) (λ k. omega arith) created_once
      (λ same. absurd (ground (arith, same))) refl
