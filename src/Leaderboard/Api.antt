-- ===== src/Leaderboard/Api.antt =====
-- app/api/leaderboard.py: the leaderboard of a run, whole and by pages
pub mod Cursor
pub mod Pages
use why_combinator.Prelude.{
  ℕ, ◌+◌, ◌≡◌, String, Bool, true, false, not, ◌&&◌, ◌||◌, Option, none, some, List, [], ◌∷◌, map,
  leb, ltb, if◌then◌else◌, ◌==◌, nat_has_eq, text_has_eq, head?, take, drop, length, filter,
  Outcome, ok, raise, ◌>>=◌,
}
use why_combinator.Prelude.Integers.{ℤ, pos, negsuc}
use why_combinator.Prelude.Sort.{sort}
use why_combinator.Prelude.Texts.{strip, prefix, is_empty}
use why_combinator.Platform.Sql.{Engine}
use why_combinator.Platform.Redis.{Redis}
use why_combinator.Platform.Json.{Json, Fields, get, fields_of, text, end}
use why_combinator.Db.Models.{
  Uuid, Instant, ScoreEvent, PenaltyEvent, JudgeScore, LeaderboardEntry, TieBreakMetadata,
  ConfiguredRun,
}
use why_combinator.Leaderboard.Segments.{
  Filters, GroupBy, SegmentLabels, extract_segmentation_labels, fits, group_key_of, label_of,
  matches, normalize_segment_filter, run_matches_segmentation_filter, segment_label, team, track,
}
use why_combinator.Leaderboard.Cache.{
  CacheKey, CacheText, CacheRow, CacheObject, entry, other_object, cache_key_has_eq,
  read_leaderboard_scoreboard_cache, read_leaderboard_cursor_snapshot,
  write_leaderboard_cursor_snapshot,
}

-- The statuses 404, 422 and 410.
pub data ApiError : Type 0 where
  run_not_found invalid_cursor cursor_expired : ApiError

pub record PenaltySnippet (Float : Type 0) : Type 0 where
  pub penalty_type : String
  pub value : Float
  pub explanation : String

-- A LeaderboardRow is the tuple of the fields of a cached row.
pub record LeaderboardItemResponse (Float : Type 0) : Type 0 where
  pub row : CacheRow Float
  pub score_breakdown : Fields Float
  pub active_penalties : List (PenaltySnippet Float)
  pub judge_rationale_snippets : List String
  pub segment_labels : SegmentLabels

-- What base64 and JSON make of a cursor: an object, by what its fields say, or anything else. `run_id` is
-- the id whose text the stripped field is; `offset` is there if it is an integer.
pub record CursorPayload : Type 0 where
  pub run_id : Option Uuid
  pub snapshot_id : String
  pub offset : Option ℤ

pub data CursorText : Type 0 where
  payload : CursorPayload → CursorText
  undecodable : String → CursorText

pub record LeaderboardResponse (Float : Type 0) : Type 0 where
  pub run_id : Uuid
  pub generated_at : Instant
  pub items : List (LeaderboardItemResponse Float)
  pub grouped_by : Option GroupBy
  pub group_key : Option String

pub record PaginatedLeaderboardResponse (Float : Type 0) : Type 0 where
  pub page : LeaderboardResponse Float
  pub next_cursor : Option CursorText
  pub has_more : Bool

-- The tables that the handlers read.
pub record Tables (Float : Type 0) : Type 0 where
  pub entries : List (LeaderboardEntry Float)
  pub scores : List (ScoreEvent Float)
  pub penalties : List (PenaltyEvent Float)
  pub judge_scores : List (JudgeScore Float)

unfoldable pub all_entries :
    {Float : Type 0} → List (CacheObject Float) → Option (List (CacheRow Float))
all_entries [] = some []
all_entries (other_object _ ∷ objects) = none
all_entries (entry row ∷ objects) = elim (all_entries objects) [
  | none ↦ none
  | some rows ↦ some (row ∷ rows)
]

-- One object without the fields of an entry makes the result empty.
unfoldable pub parse_entry_rows :
    {Float : Type 0} → List (CacheObject Float) → List (CacheRow Float)
parse_entry_rows objects = elim (all_entries objects) [ none ↦ [] | some rows ↦ rows ]

unfoldable pub encode_leaderboard_cursor : Uuid → (snapshot_id : String) → (offset : ℕ) → CursorText
encode_leaderboard_cursor run_id snapshot_id offset =
    payload (record { run_id = some run_id; snapshot_id = snapshot_id; offset = some (pos offset) })

unfoldable pub decode_leaderboard_cursor : CursorText → Outcome ApiError CursorPayload
decode_leaderboard_cursor (payload p) = ok p
decode_leaderboard_cursor (undecodable _) = raise invalid_cursor

-- The offset of a payload that passes the test of the handler.
unfoldable pub valid_offset : Uuid → CursorPayload → Option ℕ
valid_offset run_id p = elim p.run_id [
  | none ↦ none
  | some i ↦ if not (i == run_id) || is_empty (strip p.snapshot_id) then none else elim p.offset [
    | none ↦ none
    | some n ↦ elim n [ negsuc _ ↦ none | pos offset ↦ some offset ]
  ]
]

-- `penalty_created_at` is the time stamp of a penalty, which its rows leave out here; `ttl` and `reachable` are
-- those of the cache.
module _ {Float : Type 0} (db : Engine) (redis : Redis CacheKey (CacheText Float) cache_key_has_eq)
    (penalty_created_at : PenaltyEvent Float → Instant) (ttl : ℕ) (reachable : Bool) where
  abbrev pub entry_row : LeaderboardEntry Float → CacheRow Float
  entry_row e = record {
    rank = e.rank;
    submission_id = e.submission_id;
    final_score = e.final_score;
    tie_break_metadata = e.tie_break_metadata;
  }

  unfoldable pub rows_from_entries : List (LeaderboardEntry Float) → Uuid → List (CacheRow Float)
  rows_from_entries entries run_id = map entry_row (
      sort (λ a b. leb a.rank b.rank)
        (db.select (LeaderboardEntry Float) (λ e. e.run_id == run_id) entries))

  unfoldable pub load_entry_rows :
      redis.State → List (LeaderboardEntry Float) → Uuid → List (CacheRow Float)
  load_entry_rows cache entries run_id =
      elim (read_leaderboard_scoreboard_cache redis reachable cache run_id) [
        | none ↦ rows_from_entries entries run_id
        | some cached ↦ elim (parse_entry_rows cached) [
          | [] ↦ rows_from_entries entries run_id
          | row ∷ rows ↦ row ∷ rows
        ]
      ]

  unfoldable pub build_item :
      Tables Float → SegmentLabels → CacheRow Float → LeaderboardItemResponse Float
  build_item tables labels row =
      let latest = head? (
        sort (λ (a b : ScoreEvent Float). leb b.created_at a.created_at)
          (db.select (ScoreEvent Float) (λ e. e.submission_id == row.submission_id)
            tables.scores)) in
      let penalties =
        sort (λ a b. leb (penalty_created_at b) (penalty_created_at a))
          (db.select (PenaltyEvent Float) (λ e. e.submission_id == row.submission_id)
            tables.penalties) in
      let judged =
        sort (λ (a b : JudgeScore Float). leb b.created_at a.created_at)
          (db.select (JudgeScore Float) (λ e. e.submission_id == row.submission_id)
            tables.judge_scores) in
      record {
        row = row;
        score_breakdown = elim latest [ none ↦ end | some e ↦ e.payload ];
        active_penalties =
            map
              (λ (e : PenaltyEvent Float). record {
                penalty_type = e.penalty_type;
                value = e.value;
                explanation = e.explanation;
              })
              penalties;
        judge_rationale_snippets =
            map (λ (e : JudgeScore Float). prefix 300 e.rationale) (take 3 judged);
        segment_labels = labels;
      }

  unfoldable pub build_leaderboard_items :
      Tables Float → SegmentLabels → List (CacheRow Float) → List (LeaderboardItemResponse Float)
  build_leaderboard_items tables labels rows = map (build_item tables labels) rows

  abbrev pub response :
      Uuid
      → Instant
      → SegmentLabels
      → Filters
      → List (LeaderboardItemResponse Float)
      → LeaderboardResponse Float
  response run_id now labels filters items = record {
    run_id = run_id;
    generated_at = now;
    items = items;
    grouped_by = filters.group_by;
    group_key = group_key_of labels filters.group_by;
  }

  -- `session.get(Run, run_id)`
  abbrev pub find_run : List (ConfiguredRun Float) → Uuid → Option (ConfiguredRun Float)
  find_run runs run_id = head? (filter (λ r. r.id == run_id) runs)

  unfoldable pub get_leaderboard :
      List (ConfiguredRun Float)
      → redis.State
      → Tables Float
      → Instant
      → Uuid
      → Filters
      → Outcome ApiError (LeaderboardResponse Float)
  get_leaderboard runs cache tables now run_id filters = elim (find_run runs run_id) [
    | none ↦ raise run_not_found
    | some run ↦
        let labels = extract_segmentation_labels run in
        ok (
          response run_id now labels filters (
            if matches labels filters
            then build_leaderboard_items tables labels (load_entry_rows cache tables.entries run_id)
            else []))
  ]

  -- The page of the rows from an offset on.
  unfoldable pub page_of :
      Tables Float
      → Instant
      → Uuid
      → Filters
      → SegmentLabels
      → (snapshot_id : String) → (offset limit : ℕ) → List (CacheRow Float)
      → PaginatedLeaderboardResponse Float
  page_of tables now run_id filters labels snapshot_id offset limit rows =
      let page_rows = take limit (drop offset rows) in
      let next_offset = offset + length page_rows in
      let has_more = ltb next_offset (length rows) in
      record {
        page = response run_id now labels filters (build_leaderboard_items tables labels page_rows);
        next_cursor =
            if has_more
            then some (encode_leaderboard_cursor run_id snapshot_id next_offset)
            else none;
        has_more = has_more;
      }

  -- The rows behind a cursor.
  unfoldable pub snapshot_rows_of :
      redis.State → Uuid → String → Outcome ApiError (List (CacheRow Float))
  snapshot_rows_of cache run_id snapshot_id =
      elim (read_leaderboard_cursor_snapshot redis reachable cache run_id snapshot_id) [
        | none ↦ raise cursor_expired
        | some objects ↦ elim (parse_entry_rows objects) [
          | row ∷ rows ↦ ok (row ∷ rows)
          | [] ↦ elim objects [ [] ↦ ok [] | _ ∷ _ ↦ raise cursor_expired ]
        ]
      ]

  -- What follows the decoding of a cursor.
  unfoldable pub resume :
      redis.State
      → Tables Float
      → Instant
      → Uuid
      → Filters
      → SegmentLabels
      → (limit : ℕ) → CursorPayload
      → Outcome ApiError (PaginatedLeaderboardResponse Float)
  resume cache tables now run_id filters labels limit p = elim (valid_offset run_id p) [
    | none ↦ raise invalid_cursor
    | some offset ↦ snapshot_rows_of cache run_id (strip p.snapshot_id) >>= λ rows.
        ok (page_of tables now run_id filters labels (strip p.snapshot_id) offset limit rows)
  ]

  -- The branch with a cursor, of a run whose labels match.
  unfoldable pub next_page :
      redis.State
      → Tables Float
      → Instant
      → Uuid
      → Filters
      → SegmentLabels
      → (limit : ℕ) → CursorText
      → Outcome ApiError (PaginatedLeaderboardResponse Float)
  next_page cache tables now run_id filters labels limit cursor =
      decode_leaderboard_cursor cursor >>= λ p.
      resume cache tables now run_id filters labels limit p

  -- `new_snapshot_id` is `uuid.uuid4().hex`; the answer, and the cache behind the request.
  unfoldable pub get_leaderboard_paginated :
      List (ConfiguredRun Float)
      → redis.State
      → Tables Float
      → Instant
      → (new_snapshot_id : String) → Uuid
      → Filters
      → (limit : ℕ) → Option CursorText
      → Outcome ApiError (PaginatedLeaderboardResponse Float) × redis.State
  get_leaderboard_paginated runs cache tables now new_snapshot_id run_id filters limit cursor =
      elim (find_run runs run_id) [
        | none ↦ (raise run_not_found, cache)
        | some run ↦
            let labels = extract_segmentation_labels run in
            let answer : Outcome ApiError (PaginatedLeaderboardResponse Float) × redis.State =
              elim cursor [
                | none ↦
                    let rows = load_entry_rows cache tables.entries run_id in
                    (
                      ok (page_of tables now run_id filters labels new_snapshot_id 0 limit rows),
                      write_leaderboard_cursor_snapshot redis ttl reachable cache run_id
                          new_snapshot_id rows,
                    )
                | some c ↦ (next_page cache tables now run_id filters labels limit c, cache)
              ] in
            if matches labels filters then answer else (
              ok (record {
                page = response run_id now labels filters [];
                next_cursor = none;
                has_more = false;
              }),
              cache,
            )
      ]
