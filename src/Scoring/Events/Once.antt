-- ===== src/Scoring/Events/Once.antt =====
-- Creating a score event of app/scoring/events.py is done once for a key.
use mathlib.Core.List.{Memᴰ}
use why_combinator.Prelude.{
  ◌≡◌, refl, sym, subst, ◌∙◌, ap, ◌⊎◌, inl, inr, String, Bool, true, false, none, some, List, [],
  ◌∷◌, ◌++◌, arith, ◌==◌, nat_has_eq, ==-refl, any, filter, head?, Outcome, ok, raise, Option-cases,
  Outcome-cases, raise-ne-ok, ok-injective,
}
use why_combinator.Prelude.Members.{Memᴰ-filter, Memᴰ-head?, Memᴰ-last}
use why_combinator.Platform.Sql.{Engine}
use why_combinator.Platform.Redis.{Redis}
use why_combinator.Platform.Uuids.{Uuids}
use why_combinator.Platform.Json.{Fields, get, text_of}
use why_combinator.Db.Models.{Uuid, Instant, Submission, ScoreEvent}
use why_combinator.Db.Idempotency.{
  IdempotencyKey, HasOneRow, get_idempotent_response, store_idempotent_response, find-answer,
  store_lem, IdempotencyError,
}
use why_combinator.Leaderboard.Cache.{
  CacheKey, CacheText, cache_key_has_eq, read-invalidate, read_leaderboard_scoreboard_cache,
  invalidate_leaderboard_scoreboard_cache,
}
use why_combinator.Scoring.Events.{
  ScoreEventRequest, ScoreEventError, key_in_use, unknown_submission, Session, request_hash,
  scope_of, score_event, existing_event, find_submission, response_of, create_score_event,
  create_score_event_idempotent,
}

pub first : {A B : Type 0} {p q : A × B} → p ≡ q → p.0 ≡ q.0
first e = ap (λ r. r.0) e

pub second : {A B : Type 0} {p q : A × B} → p ≡ q → p.1 ≡ q.1
second e = ap (λ r. r.1) e

module _ {Float : Type 0} (uuids : Uuids) (sha256 : Fields Float → String) (db : Engine)
    (redis : Redis CacheKey (CacheText Float) cache_key_has_eq) where
  abbrev pub create :
      (id : Uuid)
      → Instant
      → (key : String) → ScoreEventRequest Float
      → Session redis
      → Outcome ScoreEventError (ScoreEvent Float) × Session redis
  create id now key r s = create_score_event_idempotent uuids sha256 db redis true id now key r s

  -- The session behind a creation.
  abbrev pub behind :
      (id : Uuid)
      → Instant
      → ScoreEventRequest Float
      → Session redis
      → List (IdempotencyKey Float)
      → Submission
      → Session redis
  behind id now r s keys submission = record {
    score_events = s.score_events ++ score_event uuids sha256 id now r ∷ [];
    idempotency_keys = keys;
    submissions = s.submissions;
    cache = invalidate_leaderboard_scoreboard_cache redis true s.cache submission.run_id;
  }

  module _ (id : Uuid) (now : Instant) (key : String) (r : ScoreEventRequest Float)
      (s : Session redis) where
    abbrev pub stored : Outcome IdempotencyError (List (IdempotencyKey Float))
    stored =
        store_idempotent_response s.idempotency_keys (scope_of uuids sha256 r) key
          (request_hash uuids sha256 r) (response_of uuids sha256 id)

    create-ok :
        (submission : Submission) (keys : List (IdempotencyKey Float))
        → find_submission s.submissions r.submission_id ≡ some submission
        → stored ≡ ok keys
        → create_score_event uuids sha256 db redis true id now key r s
          ≡ (ok (score_event uuids sha256 id now r), behind id now r s keys submission)
    unfolding create_score_event
    create-ok submission keys h h' = rw (h, h', create_score_event) refl

    pub create-raise :
        (submission : Submission) (x : IdempotencyError)
        → find_submission s.submissions r.submission_id ≡ some submission
        → stored ≡ raise x
        → create_score_event uuids sha256 db redis true id now key r s
          ≡ (raise (key_in_use key), behind id now r s s.idempotency_keys submission)
    unfolding create_score_event
    create-raise submission x h h' = rw (h, h', create_score_event) refl

    create-nobody :
        find_submission s.submissions r.submission_id ≡ none
        → (create_score_event uuids sha256 db redis true id now key r s).0
          ≡ raise unknown_submission
    unfolding create_score_event
    create-nobody h = rw (h, create_score_event) refl

    pub created :
        (s' : Session redis) (event : ScoreEvent Float)
        → create_score_event uuids sha256 db redis true id now key r s ≡ (ok event, s')
        → (submission : Submission) × (keys : List (IdempotencyKey Float)) × (find_submission
              s.submissions r.submission_id
            ≡ some submission)
          × (stored ≡ ok keys)
          × (score_event uuids sha256 id now r ≡ event)
          × (behind id now r s keys submission ≡ s')
    created s' event e = elim (Option-cases (find_submission s.submissions r.submission_id)) [
      | inl n ↦ absurd (raise-ne-ok _ event (sym (create-nobody n) ∙ first e))
      | inr (submission, h) ↦ elim (Outcome-cases stored) [
        | inl (x, h') ↦
            absurd (raise-ne-ok _ event (first (sym (create-raise submission x h h') ∙ e)))
        | inr (keys, h') ↦
            let made = sym (create-ok submission keys h h') ∙ e in
            (submission, keys, h, h', ok-injective _ _ (first made), second made)
      ]
    ]

  last_found :
      {A : Type 0} (p : A → Bool) (xs : List A) (x : A)
      → any p xs ≡ false
      → p x ≡ true
      → head? (filter p (xs ++ x ∷ [])) ≡ some x
  last_found p [] x h t = ground (arith, t)
  last_found p (y ∷ xs) x h t = ground (arith, last_found p xs x, h, t)

  existing-last :
      (events : List (ScoreEvent Float)) (event : ScoreEvent Float)
      → any (λ (e : ScoreEvent Float). e.id == event.id) events ≡ false
      → existing_event uuids sha256 (events ++ event ∷ []) (response_of uuids sha256 event.id)
        ≡ ok event
  unfolding existing_event get text_of
  existing-last events event h =
      rw
        (
          uuids.parse-str event.id,
          last_found (λ (e : ScoreEvent Float). e.id == event.id) events event h (==-refl event.id),
        )
        refl

  Memᴰ-existing :
      (events : List (ScoreEvent Float)) (event : ScoreEvent Float) (response : Fields Float)
      → existing_event uuids sha256 events response ≡ ok event
      → Memᴰ event events
  unfolding existing_event
  Memᴰ-existing events event response e =
      elim (Option-cases (text_of (get "score_event_id" response))) [
        | inl n ↦ absurd (raise-ne-ok _ event (rw (n, existing_event) at e))
        | inr (t, h) ↦ elim (Option-cases (uuids.parse t)) [
          | inl n ↦ absurd (raise-ne-ok _ event (rw (h, n, existing_event) at e))
          | inr (id, h') ↦
              elim (Option-cases (head? (filter (λ (x : ScoreEvent Float). x.id == id) events))) [
                | inl n ↦ absurd (raise-ne-ok _ event (rw (h, h', n, existing_event) at e))
                | inr (row, h'') ↦
                    let same : row ≡ event =
                      ok-injective _ _ (rw (h, h', h'', existing_event) at e) in
                    subst (λ x. Memᴰ x events) same
                      (Memᴰ-filter (λ (x : ScoreEvent Float). x.id == id) events
                        (Memᴰ-head? (filter (λ (x : ScoreEvent Float). x.id == id) events) h'')).0
              ]
        ]
      ]

  abbrev pub IsNew :
      Uuid
      → Instant
      → ScoreEventRequest Float
      → Session redis
      → ScoreEvent Float
      → Session redis
      → Type 0
  IsNew id now r s event s' =
      (event ≡ score_event uuids sha256 id now r)
      × (s'.score_events ≡ s.score_events ++ event ∷ [])
      × (submission : Submission) × (find_submission s.submissions r.submission_id
          ≡ some submission)
      × (read_leaderboard_scoreboard_cache redis true s'.cache submission.run_id ≡ none)

  IsNew-once :
      (id id' : Uuid) (now now' : Instant) (key : String) (r : ScoreEventRequest Float)
      (s s' : Session redis) (event : ScoreEvent Float)
      → HasOneRow s.idempotency_keys
      → any (λ (e : ScoreEvent Float). e.id == id) s.score_events ≡ false
      → create_score_event uuids sha256 db redis true id now key r s ≡ (ok event, s')
      → (create id' now' key r s' ≡ (ok event, s')) × IsNew id now r s event s'
  unfolding create_score_event_idempotent
  IsNew-once id id' now now' key r s s' event one fresh e =
      let (submission, keys, h, h', made, done) = created id now key r s s' event e in
      let e0 = score_event uuids sha256 id now r in
      let b = behind id now r s keys submission in
      let (one', shape) =
        store_lem s.idempotency_keys keys (scope_of uuids sha256 r) key
          (request_hash uuids sha256 r) (response_of uuids sha256 id) one h' in
      let row : IdempotencyKey Float = record {
        scope = scope_of uuids sha256 r;
        key = key;
        request_hash = request_hash uuids sha256 r;
        response_payload = response_of uuids sha256 id;
      } in
      let m : Memᴰ row keys =
        subst (λ l. Memᴰ row l) (sym shape) (Memᴰ-last row s.idempotency_keys) in
      let again : create id' now' key r b ≡ (ok e0, b) =
        rw (find-answer db keys row one' m, create_score_event_idempotent)
          (ap (λ a. (a, b)) (existing-last s.score_events e0 fresh)) in
      let new : IsNew id now r s e0 b =
        (refl, refl, submission, h, read-invalidate redis s.cache submission.run_id) in
      subst (λ x. (create id' now' key r s' ≡ (ok x, s')) × IsNew id now r s x s') made
        (subst (λ x. (create id' now' key r x ≡ (ok e0, x)) × IsNew id now r s e0 x) done
          (again, new))

  -- Where every key has at most one row, the new id is no event's, and the cache can be reached: if a
  -- creation returns an event, then it is either one of the table, and nothing has changed; or the new one,
  -- with the scores of the request, which has been added, and the cached leaderboard of its submission's
  -- run is gone. Creating it once more with the same key returns the same event and changes nothing.
  pub create_once :
      (id id' : Uuid) (now now' : Instant) (key : String) (r : ScoreEventRequest Float)
      (s s' : Session redis) (event : ScoreEvent Float)
      → HasOneRow s.idempotency_keys
      → any (λ (e : ScoreEvent Float). e.id == id) s.score_events ≡ false
      → create id now key r s ≡ (ok event, s')
      → (create id' now' key r s' ≡ (ok event, s'))
        × (((s' ≡ s) × Memᴰ event s.score_events)
            ⊎ ((event ≡ score_event uuids sha256 id now r)
                × (s'.score_events ≡ s.score_events ++ event ∷ [])
                × (submission : Submission) × (find_submission s.submissions r.submission_id
                    ≡ some submission)
                × (read_leaderboard_scoreboard_cache redis true s'.cache submission.run_id ≡ none)))
  unfolding create_score_event_idempotent
  create_once id id' now now' key r s s' event one fresh e =
      elim (Option-cases (
        get_idempotent_response db s.idempotency_keys (scope_of uuids sha256 r) key
          (request_hash uuids sha256 r))) [
            | inr (response, h) ↦
                let e' = rw (h, create_score_event_idempotent) at e in
                let same : s ≡ s' = second e' in
                (
                  subst (λ x. create id' now' key r x ≡ (ok event, x)) same
                      (rw (h, create_score_event_idempotent) (ap (λ a. (a, s)) (first e'))),
                  inl (sym same, Memᴰ-existing s.score_events event response (first e')),
                )
            | inl n ↦
                let (again, new) =
                  IsNew-once id id' now now' key r s s' event one fresh
                    (rw (n, create_score_event_idempotent) at e) in
                (again, inr new)
          ]
