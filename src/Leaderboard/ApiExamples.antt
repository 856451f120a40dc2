-- ===== src/Leaderboard/ApiExamples.antt =====
-- A leaderboard read in pages, and the theorem at this input.
use why_combinator.Prelude.{
  ℕ, ◌+◌, ◌-◌, ◌≡◌, refl, true, none, some, List, [], ◌∷◌, ◌++◌, map, arith, length, ok,
}
use why_combinator.Prelude.Sort.{sort}
use why_combinator.Prelude.Texts.{strip, lstrip, rstrip}
use why_combinator.Platform.Sql.{in_order}
use why_combinator.Platform.Redis.{Redis, in_memory}
use why_combinator.Platform.Json.{end, field, object, text, get, fields_of}
use why_combinator.Db.Models.{Instant, PenaltyEvent, LeaderboardEntry, ConfiguredRun}
use why_combinator.Leaderboard.Cache.{
  CacheKey, CacheText, CacheRow, cache_key_has_eq, read_leaderboard_scoreboard_cache, read_cached,
}
use why_combinator.Leaderboard.Api.{
  LeaderboardResponse, PaginatedLeaderboardResponse, get_leaderboard, load_entry_rows,
  rows_from_entries, get_leaderboard_paginated,
}
use why_combinator.Leaderboard.Segments.{
  Filters, extract_segmentation_labels, segment_label, normalize_segment_filter,
  run_matches_segmentation_filter, matches,
}
use why_combinator.Leaderboard.Api.Cursor.{Moment, item_row}
use why_combinator.Leaderboard.Api.Pages.{follow, pages_show_leaderboard}

abbrev cache : Redis CacheKey (CacheText ℕ) cache_key_has_eq
cache = in_memory CacheKey (CacheText ℕ) cache_key_has_eq

abbrev run : ConfiguredRun ℕ
run = record {
  id = 5;
  config_snapshot = field "segmentation" (object (field "team" (text " red ") end)) end;
}

abbrev filters : Filters
filters = record { team_filter = some "red"; track_filter = none; group_by = none }

abbrev leaderboard_entry : ℕ → LeaderboardEntry ℕ
leaderboard_entry i = record {
  run_id = 5;
  submission_id = i;
  rank = i;
  final_score = 1000 - i;
  tie_break_metadata = record { accepted_at = none; total_penalty = 0; submission_id = i };
}

abbrev first : Moment cache.State ℕ
first = record {
  cache = λ k. none;
  tables = record {
    entries = leaderboard_entry 2 ∷ leaderboard_entry 1 ∷ leaderboard_entry 3 ∷ [];
    scores = [];
    penalties = [];
    judge_scores = [];
  };
  now = 10;
}

abbrev created_at : PenaltyEvent ℕ → Instant
created_at e = 0

abbrev answered : (limit : ℕ) → cache.State
answered limit =
    (get_leaderboard_paginated in_order cache created_at 300 true (run ∷ []) first.cache
      first.tables first.now "ab" 5 filters limit none).1

-- The table of entries has been emptied in between.
abbrev later : (limit : ℕ) → ℕ → Moment cache.State ℕ
later limit k = record {
  cache = answered limit;
  tables = record { entries = []; scores = []; penalties = []; judge_scores = [] };
  now = 20 + k;
}

fits_filters : matches (extract_segmentation_labels run) filters ≡ true
unfolding extract_segmentation_labels segment_label get fields_of normalize_segment_filter
    run_matches_segmentation_filter strip lstrip rstrip
fits_filters = refl

hex_stripped : strip "ab" ≡ "ab"
unfolding strip lstrip rstrip
hex_stripped = refl

ranked :
    map
      (λ (r : CacheRow ℕ). r.submission_id)
      (load_entry_rows in_order cache created_at 300 true first.cache first.tables.entries 5)
    ≡ 1 ∷ 2 ∷ 3 ∷ []
unfolding load_entry_rows rows_from_entries sort read_leaderboard_scoreboard_cache read_cached
ranked = refl

pages_show_leaderboard_example :
    (p : PaginatedLeaderboardResponse ℕ) × (rest : List (CacheRow ℕ)) × (whole : LeaderboardResponse
      ℕ)
    × ((get_leaderboard_paginated in_order cache created_at 300 true
          (run ∷ [])
          first.cache
          first.tables
          first.now
          "ab"
          5
          filters
          2
          none).0
        ≡ ok p)
    × (follow in_order cache created_at 300
          (run ∷ [])
          5
          filters
          2
          (length whole.items)
          (later 2)
          0
          p.next_cursor
        ≡ some rest)
    × (get_leaderboard in_order cache created_at 300 true
          (run ∷ [])
          first.cache
          first.tables
          first.now
          5
          filters
        ≡ ok whole)
    × (map (item_row in_order cache created_at 300) p.page.items ++ rest
        ≡ map (item_row in_order cache created_at 300) whole.items)
pages_show_leaderboard_example =
    pages_show_leaderboard in_order cache created_at 300 (run ∷ []) 5 filters 2 run refl
      fits_filters "ab" hex_stripped refl (omega arith) first (later 2) (λ k. refl)
