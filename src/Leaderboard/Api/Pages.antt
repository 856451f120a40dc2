-- ===== src/Leaderboard/Api/Pages.antt =====
-- Following the cursors of app/api/leaderboard.py shows the leaderboard of one moment
use why_combinator.Prelude.{
  ℕ, zero, suc, ◌+◌, ◌≤◌, ◌<◌, ◌≡◌, refl, sym, ◌∙◌, ap, subst, inl, inr, String, true, false,
  Option, none, some, List, [], ◌++◌, map, arith, ltb, take, drop, length, length-take, length-drop,
  slice_rest, take_rest, length-map, drop_all, ltb→lt, Bool-cases, Outcome, ok, raise,
}
use why_combinator.Prelude.Texts.{strip, is_empty}
use why_combinator.Platform.Sql.{Engine}
use why_combinator.Platform.Redis.{Redis}
use why_combinator.Db.Models.{Uuid, Instant, PenaltyEvent, ConfiguredRun}
use why_combinator.Leaderboard.Cache.{
  CacheKey, CacheText, CacheRow, entry, cache_key_has_eq, read_leaderboard_cursor_snapshot,
  snapshot_read_back, write_leaderboard_cursor_snapshot,
}
use why_combinator.Leaderboard.Api.{
  ApiError, CursorText, encode_leaderboard_cursor, decode_leaderboard_cursor, LeaderboardResponse,
  PaginatedLeaderboardResponse, find_run, load_entry_rows, build_leaderboard_items, page_of,
  next_page, get_leaderboard, response, get_leaderboard_paginated,
}
use why_combinator.Leaderboard.Segments.{Filters, extract_segmentation_labels, matches}
use why_combinator.Leaderboard.Api.Cursor.{Moment, item_row, rows-build, resume-encode}

module _ {Float : Type 0} (db : Engine) (redis : Redis CacheKey (CacheText Float) cache_key_has_eq)
    (penalty_created_at : PenaltyEvent Float → Instant) (ttl : ℕ)
    (runs : List (ConfiguredRun Float)) (run_id : Uuid) (filters : Filters) (limit : ℕ) where
  abbrev page_rows : PaginatedLeaderboardResponse Float → List (CacheRow Float)
  page_rows p = map (item_row db redis penalty_created_at ttl) p.page.items

  -- One request with a cursor.
  abbrev pub request :
      Moment redis.State Float
      → CursorText
      → Outcome ApiError (PaginatedLeaderboardResponse Float) × redis.State
  request m cursor =
      get_leaderboard_paginated db redis penalty_created_at ttl true runs m.cache m.tables m.now ""
        run_id filters limit (some cursor)

  abbrev pub first_request :
      Moment redis.State Float
      → (new_snapshot_id : String)
      → Outcome ApiError (PaginatedLeaderboardResponse Float) × redis.State
  first_request m new_snapshot_id =
      get_leaderboard_paginated db redis penalty_created_at ttl true runs m.cache m.tables m.now
        new_snapshot_id run_id filters limit none

  -- The rows that a client sees who follows the cursors with at most `fuel` requests, the next of them at
  -- the moment `moments n`; `none` if a request fails or the requests do not suffice.
  pub follow :
      (fuel : ℕ)
      → (moments : ℕ → Moment redis.State Float) → ℕ
      → Option CursorText
      → Option (List (CacheRow Float))
  follow zero moments n none = some []
  follow zero moments n (some cursor) = none
  follow (suc fuel) moments n none = some []
  follow (suc fuel) moments n (some cursor) = elim (request (moments n) cursor).0 [
    | raise _ ↦ none
    | ok p ↦ elim (follow fuel moments (suc n) p.next_cursor) [
      | none ↦ none
      | some rest ↦ some (page_rows p ++ rest)
    ]
  ]

  module _ (run : ConfiguredRun Float)
      (exists : find_run db redis penalty_created_at ttl true runs run_id ≡ some run)
      (fit : matches (extract_segmentation_labels run) filters ≡ true) (snapshot_id : String)
      (stripped : strip snapshot_id ≡ snapshot_id) (named : is_empty snapshot_id ≡ false)
      (positive : 1 ≤ limit) where
    request-encode :
        (m : Moment redis.State Float) (offset : ℕ) (rows : List (CacheRow Float))
        → read_leaderboard_cursor_snapshot redis true m.cache run_id snapshot_id
          ≡ some (map entry rows)
        → (request m (encode_leaderboard_cursor run_id snapshot_id offset)).0
          ≡ ok (
              page_of db redis penalty_created_at ttl true m.tables m.now run_id filters
                (extract_segmentation_labels run)
                snapshot_id
                offset
                limit
                rows)
    unfolding get_leaderboard_paginated next_page encode_leaderboard_cursor
        decode_leaderboard_cursor
    request-encode m offset rows h =
        rw (exists, fit, get_leaderboard_paginated)
          (resume-encode db redis penalty_created_at ttl run_id filters limit
            (extract_segmentation_labels run) snapshot_id stripped named m offset rows h)

    page_of-rows :
        (m : Moment redis.State Float) (offset : ℕ) (rows : List (CacheRow Float))
        → page_rows (
            page_of db redis penalty_created_at ttl true m.tables m.now run_id filters
              (extract_segmentation_labels run)
              snapshot_id
              offset
              limit
              rows)
          ≡ take limit (drop offset rows)
    unfolding page_of
    page_of-rows m offset rows =
        rows-build db redis penalty_created_at ttl m.tables (extract_segmentation_labels run)
          (take limit (drop offset rows))

    -- The rows that the pages after an offset have not shown.
    follow-page :
        (fuel : ℕ) (moments : ℕ → Moment redis.State Float) (m : Moment redis.State Float)
        (n offset : ℕ) (rows : List (CacheRow Float))
        → ((k : ℕ)
            → read_leaderboard_cursor_snapshot redis true (moments k).cache run_id snapshot_id
              ≡ some (map entry rows))
        → length rows ≤ offset + length (take limit (drop offset rows)) + fuel
        → follow fuel moments n
            (page_of db redis penalty_created_at ttl true m.tables m.now run_id filters
              (extract_segmentation_labels run)
              snapshot_id
              offset
              limit
              rows).next_cursor
          ≡ some (drop (offset + length (take limit (drop offset rows))) rows)
    unfolding page_of follow
    follow-page zero moments m n offset rows h enough =
        let o = offset + length (take limit (drop offset rows)) in
        let done : ltb o (length rows) ≡ false = ground arith in
        rw (done, drop_all o rows (omega arith)) refl
    follow-page (suc fuel) moments m n offset rows h enough =
        let o = offset + length (take limit (drop offset rows)) in
        elim (Bool-cases (ltb o (length rows))) [
          | inl more ↦
              let some_left : o < length rows = ltb→lt o (length rows) more in
              let shown = length-take limit (drop o rows) in
              let left = length-drop o rows in
              let later =
                follow-page fuel moments (moments n) (suc n) o rows h
                  (omega (arith, shown, left)) in
              rw (more, follow)
                (rw
                  (request-encode (moments n) o rows (h n), later, page_of-rows (moments n) o rows)
                  (ap some (slice_rest limit o rows)))
          | inr done ↦ rw (done, drop_all o rows (ground (arith, done))) refl
        ]

    -- For a run that exists and passes the filters, a positive limit and a cache that can be reached: the
    -- first page succeeds; and whoever then follows the cursors, with as many requests as there are rows, at
    -- moments at which the snapshot has not expired, sees on the pages together exactly the rows that the
    -- whole leaderboard showed at the first moment, in their order, each once, whatever has become of the
    -- leaderboard, its cache and the other tables in between.
    pub pages_show_leaderboard :
        (first : Moment redis.State Float) (moments : ℕ → Moment redis.State Float)
        → ((k : ℕ)
            → read_leaderboard_cursor_snapshot redis true (moments k).cache run_id snapshot_id
              ≡ read_leaderboard_cursor_snapshot redis true
                  (first_request first snapshot_id).1
                  run_id
                  snapshot_id)
        → (p : PaginatedLeaderboardResponse Float) × (rest : List (CacheRow Float))
          × (whole : LeaderboardResponse Float) × ((first_request first snapshot_id).0 ≡ ok p)
          × (follow (length whole.items) moments 0 p.next_cursor ≡ some rest)
          × (get_leaderboard db redis penalty_created_at ttl true runs first.cache first.tables
                first.now run_id filters
              ≡ ok whole)
          × (page_rows p ++ rest ≡ map (item_row db redis penalty_created_at ttl) whole.items)
    unfolding get_leaderboard_paginated get_leaderboard
    pages_show_leaderboard first moments kept =
        let labels = extract_segmentation_labels run in
        let rows =
          load_entry_rows db redis penalty_created_at ttl true first.cache first.tables.entries
            run_id in
        let items =
          build_leaderboard_items db redis penalty_created_at ttl true first.tables labels rows in
        let whole : LeaderboardResponse Float =
          response db redis penalty_created_at ttl true run_id first.now labels filters items in
        let p =
          page_of db redis penalty_created_at ttl true first.tables first.now run_id filters labels
            snapshot_id 0 limit rows in
        let shown = rows-build db redis penalty_created_at ttl first.tables labels rows in
        let size : length items ≡ length rows =
          sym (length-map (item_row db redis penalty_created_at ttl) items) ∙ ap length shown in
        let written : (first_request first snapshot_id).1
            ≡ write_leaderboard_cursor_snapshot redis ttl true first.cache run_id snapshot_id rows =
          rw (exists, fit, get_leaderboard_paginated) refl in
        let back = λ (k : ℕ).
          kept k
          ∙ ap (λ s. read_leaderboard_cursor_snapshot redis true s run_id snapshot_id) written
          ∙ snapshot_read_back redis ttl first.cache run_id snapshot_id rows in
        (
          p,
          drop (length (take limit rows)) rows,
          whole,
          rw (exists, fit, get_leaderboard_paginated) refl,
          subst (λ n. follow (length items) moments 0 p.next_cursor ≡ some (drop n rows))
              (omega arith)
              (follow-page (length items) moments first 0 0 rows back (omega (arith, size))),
          rw (exists, fit, get_leaderboard) refl,
          ap (λ l. l ++ drop (length (take limit rows)) rows) (page_of-rows first 0 rows)
              ∙ take_rest limit rows
              ∙ sym shown,
        )
