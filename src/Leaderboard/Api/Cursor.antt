-- ===== src/Leaderboard/Api/Cursor.antt =====
-- What a cursor of app/api/leaderboard.py brings back
use why_combinator.Prelude.{
  ℕ, ◌≡◌, refl, ap, String, true, false, some, List, [], ◌∷◌, map, nat_has_eq, ==-refl, ok,
}
use why_combinator.Prelude.Integers.{pos}
use why_combinator.Prelude.Texts.{strip, is_empty}
use why_combinator.Platform.Sql.{Engine}
use why_combinator.Platform.Redis.{Redis}
use why_combinator.Db.Models.{Uuid, Instant, PenaltyEvent}
use why_combinator.Leaderboard.Cache.{
  CacheKey, CacheText, CacheRow, entry, cache_key_has_eq, read_leaderboard_cursor_snapshot,
}
use why_combinator.Leaderboard.Api.{
  all_entries, parse_entry_rows, valid_offset, Tables, LeaderboardItemResponse, build_item,
  build_leaderboard_items, page_of, snapshot_rows_of, resume,
}
use why_combinator.Leaderboard.Segments.{Filters, SegmentLabels}

-- What a client sees of the world with one request: the cache, the tables and the clock.
pub record Moment (State Float : Type 0) : Type 0 where
  pub cache : State
  pub tables : Tables Float
  pub now : Instant

all_entries-entry :
    {Float : Type 0} (rows : List (CacheRow Float)) → all_entries (map entry rows) ≡ some rows
unfolding all_entries
all_entries-entry [] = refl
all_entries-entry (row ∷ rows) = rw (all_entries-entry rows) refl

parse_entry_rows-entry :
    {Float : Type 0} (rows : List (CacheRow Float)) → parse_entry_rows (map entry rows) ≡ rows
unfolding parse_entry_rows
parse_entry_rows-entry rows = rw (all_entries-entry rows, parse_entry_rows) refl

module _ {Float : Type 0} (db : Engine) (redis : Redis CacheKey (CacheText Float) cache_key_has_eq)
    (penalty_created_at : PenaltyEvent Float → Instant) (ttl : ℕ) where
  abbrev pub item_row : LeaderboardItemResponse Float → CacheRow Float
  item_row item = item.row

  pub rows-build :
      (tables : Tables Float) (labels : SegmentLabels) (rows : List (CacheRow Float))
      → map item_row
          (build_leaderboard_items db redis penalty_created_at ttl true tables labels rows)
        ≡ rows
  unfolding build_leaderboard_items build_item
  rows-build tables labels [] = refl
  rows-build tables labels (row ∷ rows) = ap (◌∷◌ row) (rows-build tables labels rows)

  snapshot_rows_back :
      (cache : redis.State) (run_id : Uuid) (snapshot_id : String) (rows : List (CacheRow Float))
      → read_leaderboard_cursor_snapshot redis true cache run_id snapshot_id ≡ some (map entry rows)
      → snapshot_rows_of db redis penalty_created_at ttl true cache run_id snapshot_id ≡ ok rows
  unfolding snapshot_rows_of
  snapshot_rows_back cache run_id snapshot_id [] h =
      rw (h, snapshot_rows_of, parse_entry_rows-entry []) refl
  snapshot_rows_back cache run_id snapshot_id (row ∷ rows) h =
      rw (h, snapshot_rows_of, parse_entry_rows-entry (row ∷ rows)) refl

  module _ (run_id : Uuid) (filters : Filters) (limit : ℕ) (labels : SegmentLabels)
      (snapshot_id : String) (stripped : strip snapshot_id ≡ snapshot_id)
      (named : is_empty snapshot_id ≡ false) where
    valid_offset-encode :
        (offset : ℕ)
        → valid_offset run_id
            (record { run_id = some run_id; snapshot_id = snapshot_id; offset = some (pos offset) })
          ≡ some offset
    unfolding valid_offset
    valid_offset-encode offset = rw (==-refl run_id, stripped, named) refl

    pub resume-encode :
        (m : Moment redis.State Float) (offset : ℕ) (rows : List (CacheRow Float))
        → read_leaderboard_cursor_snapshot redis true m.cache run_id snapshot_id
          ≡ some (map entry rows)
        → resume db redis penalty_created_at ttl true m.cache m.tables m.now run_id filters labels
            limit
            (record { run_id = some run_id; snapshot_id = snapshot_id; offset = some (pos offset) })
          ≡ ok (
              page_of db redis penalty_created_at ttl true m.tables m.now run_id filters labels
                snapshot_id offset limit rows)
    unfolding resume
    resume-encode m offset rows h =
        rw
          (
            resume,
            valid_offset-encode offset,
            stripped,
            snapshot_rows_back m.cache run_id snapshot_id rows h,
          )
          refl
