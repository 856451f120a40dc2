-- ===== src/Db/Idempotency.antt =====
-- app/db/idempotency.py
use mathlib.Core.List.{Memᴰ}
use mathlib.Core.Option.{none-ne-some}
use why_combinator.Prelude.{
  ◌≡◌, ◌↔◌, refl, sym, subst, inl, inr, String, Bool, true, false, ◌&&◌, Option, none, some, List,
  [], ◌∷◌, ◌++◌, arith, if◌then◌else◌, HasEq, ◌==◌, nat_has_eq, text_has_eq, ==→eq, ==-refl, any,
  head?, Outcome, ok, raise, Bool-cases, Option-cases, any-count, count-append, raise-ne-ok,
  ok-injective, ◌≤◌, count,
}
use why_combinator.Prelude.Members.{Memᴰ-head?, any-Memᴰ, only, only_one}
use why_combinator.Platform.Sql.{Engine}
use why_combinator.Platform.Json.{Fields}
use why_combinator.Db.Models.{Uuid}
use why_combinator.Db.Tables.{Memᴰ-select, Memᴰ-loaded}

-- f"score_event_write:{submission_id}:{checkpoint_id}" and f"submission_create:{run_id}"
pub data IdempotencyScope : Type 0 where
  score_event_write : (submission_id : Uuid) (checkpoint_id : String) → IdempotencyScope
  submission_create : (run_id : Uuid) → IdempotencyScope

abbrev pub scope_same : IdempotencyScope → IdempotencyScope → Bool
scope_same (score_event_write s c) (score_event_write s' c') = (s == s') && (c == c')
scope_same (submission_create r) (submission_create r') = r == r'
scope_same _ _ = false

pub scope_same_iff : (a b : IdempotencyScope) → (scope_same a b ≡ true) ↔ (a ≡ b)
scope_same_iff (score_event_write s c) (score_event_write s' c') =
    ground (arith, text_has_eq.same_iff c c')
scope_same_iff (submission_create r) (submission_create r') = ground arith
scope_same_iff (score_event_write s c) (submission_create r) = ground arith
scope_same_iff (submission_create r) (score_event_write s c) = ground arith

instance abbrev pub scope_has_eq : HasEq IdempotencyScope
scope_has_eq = record { same = scope_same; same_iff = scope_same_iff }

pub record IdempotencyKey (Float : Type 0) : Type 0 where
  pub scope : IdempotencyScope
  pub key : String
  pub request_hash : String
  pub response_payload : Fields Float

-- What the unique index on the key raises.
pub data IdempotencyError : Type 0 where
  duplicate_key : (key : String) → IdempotencyError

module _ {Float : Type 0} where
  abbrev pub answers : IdempotencyScope → (key request_hash : String) → IdempotencyKey Float → Bool
  answers scope key request_hash r =
      (r.scope == scope) && ((r.key == key) && (r.request_hash == request_hash))

  abbrev pub has_key : String → IdempotencyKey Float → Bool
  has_key key r = r.key == key

  -- `scalar_one_or_none`: two rows never have one key.
  unfoldable pub get_idempotent_response :
      Engine
      → List (IdempotencyKey Float)
      → IdempotencyScope
      → (key request_hash : String) → Option (Fields Float)
  get_idempotent_response db rows scope key request_hash =
      elim (head? (db.select (IdempotencyKey Float) (answers scope key request_hash) rows)) [
        | none ↦ none
        | some row ↦ some row.response_payload
      ]

  unfoldable pub store_idempotent_response :
      List (IdempotencyKey Float)
      → IdempotencyScope
      → (key request_hash : String) → Fields Float
      → Outcome IdempotencyError (List (IdempotencyKey Float))
  store_idempotent_response rows scope key request_hash response_payload =
      if any (has_key key) rows
      then raise (duplicate_key key)
      else ok (
          rows
          ++ record {
            scope = scope;
            key = key;
            request_hash = request_hash;
            response_payload = response_payload;
          }
            ∷ [])

  -- The unique index on the key.
  abbrev pub HasOneRow : List (IdempotencyKey Float) → Type 0
  HasOneRow rows = (key : String) → count (has_key key) rows ≤ 1

  has_key-of :
      (scope : IdempotencyScope) (key hash : String) (r : IdempotencyKey Float)
      → answers scope key hash r ≡ true
      → has_key key r ≡ true
  has_key-of scope key hash r h = ground (arith, h)

  pub find-answer :
      (db : Engine) (rows : List (IdempotencyKey Float)) (row : IdempotencyKey Float)
      → HasOneRow rows
      → Memᴰ row rows
      → get_idempotent_response db rows row.scope row.key row.request_hash
        ≡ some row.response_payload
  unfolding get_idempotent_response
  find-answer db rows row one m =
      let p = answers row.scope row.key row.request_hash in
      let same : (row.scope == row.scope) ≡ true = (scope_same_iff row.scope row.scope).1 refl in
      let passes : p row ≡ true = rw (same, ==-refl row.key, ==-refl row.request_hash) refl in
      let found : head? (db.select (IdempotencyKey Float) p rows) ≡ some row =
        only (db.select (IdempotencyKey Float) p rows) (Memᴰ-loaded db p rows m passes) (λ x i.
          let (k, e) = Memᴰ-select db p rows i in
          only_one (has_key row.key) rows (one row.key) k m
            (has_key-of row.scope row.key row.request_hash x e) (==-refl row.key)) in
      rw (found, get_idempotent_response) refl

  -- A response that is found stands in a row of the request.
  pub found-answer :
      (db : Engine) (rows : List (IdempotencyKey Float)) (scope : IdempotencyScope)
      (key hash : String) (response : Fields Float)
      → get_idempotent_response db rows scope key hash ≡ some response
      → (row : IdempotencyKey Float) × Memᴰ row rows
        × (row.scope ≡ scope)
        × (row.key ≡ key)
        × (row.request_hash ≡ hash)
  unfolding get_idempotent_response
  found-answer db rows scope key hash response e =
      let p = answers scope key hash in
      elim (Option-cases (head? (db.select (IdempotencyKey Float) p rows))) [
        | inl gone ↦ absurd (none-ne-some response (rw (gone, get_idempotent_response) at e))
        | inr (row, here) ↦
            let (m, t) =
              Memᴰ-select db p rows (Memᴰ-head? (db.select (IdempotencyKey Float) p rows) here) in
            (
              row,
              m,
              ground (arith, t, scope_same_iff row.scope scope),
              ground (arith, t, ==→eq row.key key),
              ground (arith, t, ==→eq row.request_hash hash),
            )
      ]

  -- What is stored: one more row, and still one row for each key.
  pub store_lem :
      (rows rows' : List (IdempotencyKey Float)) (scope : IdempotencyScope) (key hash : String)
      (response : Fields Float)
      → HasOneRow rows
      → store_idempotent_response rows scope key hash response ≡ ok rows'
      → HasOneRow rows'
        × (rows'
            ≡ rows
              ++ record {
                scope = scope;
                key = key;
                request_hash = hash;
                response_payload = response;
              }
                ∷ [])
  unfolding store_idempotent_response
  store_lem rows rows' scope key hash response one e = elim (Bool-cases (any (has_key key) rows)) [
    | inl t ↦ absurd (raise-ne-ok (duplicate_key key) rows' (rw t at e))
    | inr f ↦
        let row : IdempotencyKey Float = record {
          scope = scope;
          key = key;
          request_hash = hash;
          response_payload = response;
        } in
        let stored : rows ++ row ∷ [] ≡ rows' = ok-injective _ _ (rw f at e) in
        let still : HasOneRow (rows ++ row ∷ []) = λ k.
          let none_yet : (key == k) ≡ true → any (has_key k) rows ≡ false =
            λ t. subst (λ x. any (has_key x) rows ≡ false) (==→eq key k t) f in
          ground (
            arith,
            one k,
            count-append (has_key k) rows (row ∷ []),
            any-count (has_key k) rows,
            none_yet,
          ) in
        (subst HasOneRow stored still, sym stored)
  ]

  -- A key that is in use is refused.
  pub store-used :
      (rows : List (IdempotencyKey Float)) (row : IdempotencyKey Float) (scope : IdempotencyScope)
      (hash : String) (response : Fields Float)
      → Memᴰ row rows
      → store_idempotent_response rows scope row.key hash response ≡ raise (duplicate_key row.key)
  unfolding store_idempotent_response
  store-used rows row scope hash response m =
      rw (any-Memᴰ (has_key row.key) rows m (==-refl row.key)) refl
