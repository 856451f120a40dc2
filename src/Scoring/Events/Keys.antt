-- ===== src/Scoring/Events/Keys.antt =====
-- A key of app/scoring/events.py that one request has been served with serves no other.
use mathlib.Core.List.{Memᴰ}
use why_combinator.Prelude.{
  ◌≡◌, ◌≢◌, refl, sym, subst, ◌∙◌, ap, inl, inr, String, some, List, ==-refl, text_has_eq, raise,
  ok, Option-cases,
}
use why_combinator.Prelude.Members.{Memᴰ-last, only_one}
use why_combinator.Platform.Sql.{Engine}
use why_combinator.Platform.Redis.{Redis}
use why_combinator.Platform.Uuids.{Uuids}
use why_combinator.Platform.Json.{Fields}
use why_combinator.Db.Models.{Uuid, Instant, Submission, ScoreEvent}
use why_combinator.Db.Idempotency.{
  IdempotencyKey, HasOneRow, has_key, get_idempotent_response, found-answer, store_lem, store-used,
  duplicate_key, store_idempotent_response,
}
use why_combinator.Leaderboard.Cache.{CacheKey, CacheText, cache_key_has_eq}
use why_combinator.Scoring.Events.{
  ScoreEventRequest, key_in_use, Session, request_hash, scope_of, find_submission, response_of,
  create_score_event_idempotent,
}
use why_combinator.Scoring.Events.Once.{create, created, create-raise, first, second}

module _ {Float : Type 0} (uuids : Uuids) (sha256 : Fields Float → String) (db : Engine)
    (redis : Redis CacheKey (CacheText Float) cache_key_has_eq) where
  -- The row of a request.
  abbrev pub IsServed :
      (key : String) → ScoreEventRequest Float → List (IdempotencyKey Float) → Type 0
  IsServed key r rows =
      HasOneRow rows
      × (row : IdempotencyKey Float) × Memᴰ row rows
      × (row.scope ≡ scope_of uuids sha256 r)
      × (row.key ≡ key)
      × (row.request_hash ≡ request_hash uuids sha256 r)

  served :
      (id : Uuid) (now : Instant) (key : String) (r : ScoreEventRequest Float)
      (s s' : Session redis) (event : ScoreEvent Float)
      → HasOneRow s.idempotency_keys
      → create uuids sha256 db redis id now key r s ≡ (ok event, s')
      → IsServed key r s'.idempotency_keys
  unfolding create_score_event_idempotent
  served id now key r s s' event one e =
      let scope = scope_of uuids sha256 r in
      let hash = request_hash uuids sha256 r in
      elim (Option-cases (get_idempotent_response db s.idempotency_keys scope key hash)) [
        | inr (response, h) ↦
            let same : s ≡ s' = second (rw (h, create_score_event_idempotent) at e) in
            subst (λ x. IsServed key r x.idempotency_keys) same
              (let (row, m, to_scope, to_key, to_hash) =
                  found-answer db s.idempotency_keys scope key hash response h in
                (one, row, m, to_scope, to_key, to_hash))
        | inl n ↦
            let (submission, keys, h, h', made, done) =
              created uuids sha256 db redis id now key r s s' event
                (rw (n, create_score_event_idempotent) at e) in
            let (one', shape) =
              store_lem s.idempotency_keys keys scope key hash (response_of uuids sha256 id) one
                h' in
            let row : IdempotencyKey Float = record {
              scope = scope;
              key = key;
              request_hash = hash;
              response_payload = response_of uuids sha256 id;
            } in
            let m : Memᴰ row keys =
              subst (λ l. Memᴰ row l) (sym shape) (Memᴰ-last row s.idempotency_keys) in
            subst (λ x. IsServed key r x.idempotency_keys) done (one', row, m, refl, refl, refl)
      ]

  -- Where every key has at most one row and the cache can be reached: a key with which an event has been
  -- created is refused, with the key in use, to every request whose submission exists and that is for
  -- another submission or checkpoint, or has another digest; the stored keys stay as they are.
  pub key_serves_one :
      (id id' : Uuid) (now now' : Instant) (key : String) (r q : ScoreEventRequest Float)
      (s s' : Session redis) (event : ScoreEvent Float) (submission : Submission)
      → HasOneRow s.idempotency_keys
      → create uuids sha256 db redis id now key r s ≡ (ok event, s')
      → (scope_of uuids sha256 q ≡ scope_of uuids sha256 r
          → request_hash uuids sha256 q ≢ request_hash uuids sha256 r)
      → find_submission s'.submissions q.submission_id ≡ some submission
      → let (answer, s'') = create uuids sha256 db redis id' now' key q s' in
        (answer ≡ raise (key_in_use key)) × (s''.idempotency_keys ≡ s'.idempotency_keys)
  unfolding create_score_event_idempotent
  key_serves_one id id' now now' key r q s s' event submission one e other h =
      let (one', row, m, scope, own, hash) = served id now key r s s' event one e in
      let scope' = scope_of uuids sha256 q in
      let hash' = request_hash uuids sha256 q in
      elim (Option-cases (get_idempotent_response db s'.idempotency_keys scope' key hash')) [
        | inr (response, f) ↦
            let (row', m', to_scope, to_key, to_hash) =
              found-answer db s'.idempotency_keys scope' key hash' response f in
            let same : row' ≡ row =
              only_one (has_key key) s'.idempotency_keys (one' key) m' m (rw to_key (==-refl key))
                (rw own (==-refl key)) in
            absurd (
              other (sym to_scope ∙ ap (λ (x : IdempotencyKey Float). x.scope) same ∙ scope)
                (sym to_hash ∙ ap (λ (x : IdempotencyKey Float). x.request_hash) same ∙ hash))
        | inl n ↦
            let used =
              subst
                (λ k.
                  store_idempotent_response s'.idempotency_keys scope' k hash'
                    (response_of uuids sha256 id')
                  ≡ raise (duplicate_key k))
                own
                (store-used s'.idempotency_keys row scope' hash' (response_of uuids sha256 id')
                  m) in
            let answer =
              create-raise uuids sha256 db redis id' now' key q s' submission (duplicate_key key) h
                used in
            rw (n, create_score_event_idempotent)
              (first answer, ap (λ (x : Session redis). x.idempotency_keys) (second answer))
      ]
