-- ===== src/Leaderboard/Cache.antt =====
-- app/leaderboard/cache.py
use why_combinator.Prelude.{
  ℕ, ◌≡◌, ◌↔◌, ◌∙◌, refl, String, Bool, true, false, ◌&&◌, Option, none, some, List, [], ◌∷◌, map,
  arith, if◌then◌else◌, HasEq, ◌==◌, nat_has_eq, text_has_eq, max_of,
}
use why_combinator.Platform.Redis.{Redis}
use why_combinator.Db.Models.{Uuid, TieBreakMetadata}

-- f"leaderboard:run:{run_id}:scoreboard" and f"leaderboard:run:{run_id}:snapshot:{snapshot_id}"
pub data CacheKey : Type 0 where
  scoreboard : Uuid → CacheKey
  cursor_snapshot : Uuid → String → CacheKey

abbrev pub cache_key_same : CacheKey → CacheKey → Bool
cache_key_same (scoreboard a) (scoreboard b) = a == b
cache_key_same (cursor_snapshot a i) (cursor_snapshot b j) = (a == b) && (i == j)
cache_key_same _ _ = false

text_same_iff : (i j : String) → ((i == j) ≡ true) ↔ (i ≡ j)
text_same_iff i j = text_has_eq.same_iff i j

pub cache_key_same_iff : (a b : CacheKey) → (cache_key_same a b ≡ true) ↔ (a ≡ b)
cache_key_same_iff (scoreboard a) (scoreboard b) = ground arith
cache_key_same_iff (cursor_snapshot a i) (cursor_snapshot b j) = ground (arith, text_same_iff i j)
cache_key_same_iff (scoreboard a) (cursor_snapshot b j) = ground arith
cache_key_same_iff (cursor_snapshot a i) (scoreboard b) = ground arith

abbrev pub cache_key_has_eq : HasEq CacheKey
cache_key_has_eq = record { same = cache_key_same; same_iff = cache_key_same_iff }

-- The object that is cached for an entry. All objects that the program caches have the metadata as an
-- object with these three fields; others, which the source reads as an empty dictionary, are left out.
pub record CacheRow (Float : Type 0) : Type 0 where
  pub rank : ℕ
  pub submission_id : Uuid
  pub final_score : Float
  pub tie_break_metadata : TieBreakMetadata Float

-- An object of a cached array: one with the fields of an entry, or any other, by its text.
pub data CacheObject (Float : Type 0) : Type 0 where
  entry : CacheRow Float → CacheObject Float
  other_object : String → CacheObject Float

-- What a cached text is as JSON: an array of objects and other values, another value, or no JSON.
pub data CacheItem (Float : Type 0) : Type 0 where
  object : CacheObject Float → CacheItem Float
  other_item : String → CacheItem Float

pub data CacheText (Float : Type 0) : Type 0 where
  array : List (CacheItem Float) → CacheText Float
  other_json : String → CacheText Float
  no_json : String → CacheText Float

module _ {Float : Type 0} where
  pub objects : List (CacheItem Float) → List (CacheObject Float)
  objects [] = []
  objects (object row ∷ items) = row ∷ objects items
  objects (other_item text ∷ items) = objects items

  -- `none` also for the exception of `json.loads`, which every caller turns into `None`.
  pub parse_cached_row_list : CacheText Float → Option (List (CacheObject Float))
  unfolding objects
  parse_cached_row_list (array items) = some (objects items)
  parse_cached_row_list (other_json text) = none
  parse_cached_row_list (no_json text) = none

  pub dumps : List (CacheRow Float) → CacheText Float
  dumps rows = array (map (λ row. object (entry row)) rows)

  objects-object :
      (rows : List (CacheRow Float))
      → objects (map (λ row. object (entry row)) rows) ≡ map entry rows
  unfolding objects
  objects-object [] = refl
  objects-object (row ∷ rows) = rw (objects-object rows) refl

  pub parse-dumps :
      (rows : List (CacheRow Float)) → parse_cached_row_list (dumps rows) ≡ some (map entry rows)
  unfolding parse_cached_row_list dumps
  parse-dumps rows = rw (objects-object rows) refl

-- `reachable` says whether the client's commands reach the server; otherwise they raise.
module _ {Float : Type 0} (redis : Redis CacheKey (CacheText Float) cache_key_has_eq) where
  unfoldable pub read_cached : Bool → redis.State → CacheKey → Option (List (CacheObject Float))
  read_cached reachable s key =
      if reachable
      then elim (redis.get s key) [ none ↦ none | some raw ↦ parse_cached_row_list raw ]
      else none

  pub write_cached : (ttl : ℕ) → Bool → redis.State → CacheKey → List (CacheRow Float) → redis.State
  write_cached ttl reachable s key rows =
      if reachable then redis.set_ex s key (dumps rows) (max_of 1 ttl) else s

  -- `ttl` is LEADERBOARD_CACHE_TTL_SECONDS or LEADERBOARD_CURSOR_SNAPSHOT_TTL_SECONDS.
  unfoldable pub read_leaderboard_scoreboard_cache :
      Bool → redis.State → Uuid → Option (List (CacheObject Float))
  read_leaderboard_scoreboard_cache reachable s run_id = read_cached reachable s (scoreboard run_id)

  pub write_leaderboard_scoreboard_cache :
      (ttl : ℕ) → Bool → redis.State → Uuid → List (CacheRow Float) → redis.State
  write_leaderboard_scoreboard_cache ttl reachable s run_id rows =
      write_cached ttl reachable s (scoreboard run_id) rows

  pub invalidate_leaderboard_scoreboard_cache : Bool → redis.State → Uuid → redis.State
  invalidate_leaderboard_scoreboard_cache reachable s run_id =
      if reachable then redis.delete s (scoreboard run_id) else s

  pub read_leaderboard_cursor_snapshot :
      Bool → redis.State → Uuid → String → Option (List (CacheObject Float))
  read_leaderboard_cursor_snapshot reachable s run_id snapshot_id =
      read_cached reachable s (cursor_snapshot run_id snapshot_id)

  pub write_leaderboard_cursor_snapshot :
      (ttl : ℕ) → Bool → redis.State → Uuid → String → List (CacheRow Float) → redis.State
  write_leaderboard_cursor_snapshot ttl reachable s run_id snapshot_id rows =
      write_cached ttl reachable s (cursor_snapshot run_id snapshot_id) rows

  read-write :
      (ttl : ℕ) (s : redis.State) (k j : CacheKey) (rows : List (CacheRow Float))
      → read_cached true (write_cached ttl true s k rows) j
        ≡ (if cache_key_same k j then some (map entry rows) else read_cached true s j)
  unfolding read_cached write_cached
  read-write ttl s k j rows =
      ground (arith, redis.get-set_ex s k (dumps rows) (max_of 1 ttl) j, parse-dumps rows)

  pub read-invalidate :
      (s : redis.State) (run_id : Uuid)
      → read_leaderboard_scoreboard_cache true
          (invalidate_leaderboard_scoreboard_cache true s run_id)
          run_id
        ≡ none
  unfolding read_leaderboard_scoreboard_cache invalidate_leaderboard_scoreboard_cache read_cached
  read-invalidate s run_id =
      ground (arith, redis.get-delete s (scoreboard run_id) (scoreboard run_id))

  pub snapshot_read_back :
      (ttl : ℕ) (s : redis.State) (run_id : Uuid) (snapshot_id : String)
      (rows : List (CacheRow Float))
      → read_leaderboard_cursor_snapshot true
          (write_leaderboard_cursor_snapshot ttl true s run_id snapshot_id rows)
          run_id
          snapshot_id
        ≡ some (map entry rows)
  unfolding read_leaderboard_cursor_snapshot write_leaderboard_cursor_snapshot
  snapshot_read_back ttl s run_id snapshot_id rows =
      let key = cursor_snapshot run_id snapshot_id in
      read-write ttl s key key rows ∙ rw ((cache_key_same_iff key key).1 refl) refl

  read-delete :
      (s : redis.State) (run_id run_id' : Uuid)
      → read_cached true (redis.delete s (scoreboard run_id)) (scoreboard run_id')
        ≡ (if run_id == run_id' then none else read_cached true s (scoreboard run_id'))
  unfolding read_cached
  read-delete s run_id run_id' =
      ground (arith, redis.get-delete s (scoreboard run_id) (scoreboard run_id'))

  -- With a server that can be reached, a scoreboard that was written is read back as it was written,
  -- and one that was invalidated is gone, while the scoreboards of other runs and the snapshots behind
  -- cursors are read as before the write.
  pub scoreboard_roundtrip :
      (ttl : ℕ) (s : redis.State) (run_id run_id' : Uuid) (snapshot_id : String)
      (rows : List (CacheRow Float))
      → let written = write_leaderboard_scoreboard_cache ttl true s run_id rows in
        (read_leaderboard_scoreboard_cache true written run_id' ≡ (
          if run_id == run_id'
          then some (map entry rows)
          else read_leaderboard_scoreboard_cache true s run_id'))
        × (read_leaderboard_cursor_snapshot true written run_id' snapshot_id
            ≡ read_leaderboard_cursor_snapshot true s run_id' snapshot_id)
        × (read_leaderboard_scoreboard_cache true
              (invalidate_leaderboard_scoreboard_cache true s run_id)
              run_id'
            ≡ (if run_id == run_id'
                then none
                else read_leaderboard_scoreboard_cache true s run_id'))
  unfolding write_leaderboard_scoreboard_cache read_leaderboard_scoreboard_cache
      read_leaderboard_cursor_snapshot invalidate_leaderboard_scoreboard_cache
  scoreboard_roundtrip ttl s run_id run_id' snapshot_id rows = (
    read-write ttl s (scoreboard run_id) (scoreboard run_id') rows,
    read-write ttl s (scoreboard run_id) (cursor_snapshot run_id' snapshot_id) rows,
    read-delete s run_id run_id',
  )
