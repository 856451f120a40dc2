-- ===== src/Events/Outbox/Enqueue.antt =====
-- One event for one key.
use mathlib.Core.List.{Memᴰ}
use why_combinator.Prelude.{
  ◌≤◌, ◌≡◌, refl, sym, subst, ◌∙◌, inl, inr, String, Bool, true, none, some, List, [], ◌∷◌, ◌++◌,
  arith, length, head?, ◌==◌, text_has_eq, count, count-append, Option-cases, ==→eq, ==-refl,
}
use why_combinator.Prelude.Members.{Memᴰ-head?, Memᴰ-last, only_one, only}
use why_combinator.Platform.Sql.{Engine, length-select}
use why_combinator.Db.Tables.{Memᴰ-select, Memᴰ-loaded}
use why_combinator.Events.Outbox.{OutboxEvent, NewEvent, fresh_event, enqueue_outbox_event}

abbrev pub has_key : String → OutboxEvent → Bool
has_key k e = e.event_key == k

enqueue_existing :
    (db : Engine) (n : NewEvent) (table : List OutboxEvent) (old : OutboxEvent)
    → head? (db.select OutboxEvent (has_key n.event_key) table) ≡ some old
    → enqueue_outbox_event db n table ≡ (old, table)
unfolding enqueue_outbox_event
enqueue_existing db n table old e = rw (e, enqueue_outbox_event) refl

enqueue_new :
    (db : Engine) (n : NewEvent) (table : List OutboxEvent)
    → head? (db.select OutboxEvent (has_key n.event_key) table) ≡ none
    → enqueue_outbox_event db n table ≡ (fresh_event n, table ++ fresh_event n ∷ [])
unfolding enqueue_outbox_event
enqueue_new db n table e = rw (e, enqueue_outbox_event) refl

enqueue_found :
    (db : Engine) (n : NewEvent) (table : List OutboxEvent) (event : OutboxEvent)
    → Memᴰ event table
    → event.event_key ≡ n.event_key
    → count (has_key n.event_key) table ≤ 1
    → enqueue_outbox_event db n table ≡ (event, table)
enqueue_found db n table event m key unique =
    let p = has_key n.event_key in
    let t : p event ≡ true = rw key (==-refl n.event_key) in
    let found : head? (db.select OutboxEvent p table) ≡ some event =
      only (db.select OutboxEvent p table) (Memᴰ-loaded db p table m t)
        (λ x i. let (k, u) = Memᴰ-select db p table i in only_one p table unique k m u t) in
    enqueue_existing db n table event found

head?-length : {A : Type 0} (xs : List A) → head? xs ≡ none → length xs ≡ 0
head?-length [] e = refl
head?-length (x ∷ xs) e = cc

still_unique :
    (db : Engine) (n : NewEvent) (table : List OutboxEvent)
    → ((k : String) → count (has_key k) table ≤ 1)
    → head? (db.select OutboxEvent (has_key n.event_key) table) ≡ none
    → (k : String) → count (has_key k) (table ++ fresh_event n ∷ []) ≤ 1
unfolding fresh_event
still_unique db n table unique e k =
    let p = has_key n.event_key in
    let gone : count p table ≡ 0 =
      sym (length-select db p table) ∙ head?-length (db.select OutboxEvent p table) e in
    let same : (n.event_key == k) ≡ true → count (has_key k) table ≡ 0 =
      λ t. subst (λ x. count (has_key x) table ≡ 0) (==→eq n.event_key k t) gone in
    ground (arith, count-append (has_key k) table (fresh_event n ∷ []), unique k, same)

-- Enqueueing returns the stored event with the given key, and no two events of the table come to share
-- a key that no two shared before; a second call with the same key, whatever else it is given, returns
-- the same event and changes nothing.
pub enqueue_once :
    (db : Engine) (n n' : NewEvent) (table : List OutboxEvent)
    → ((k : String) → count (λ e. e.event_key == k) table ≤ 1)
    → n'.event_key ≡ n.event_key
    → let (event, table') = enqueue_outbox_event db n table in
      Memᴰ event table'
      × (event.event_key ≡ n.event_key)
      × ((k : String) → count (λ e. e.event_key == k) table' ≤ 1)
      × (enqueue_outbox_event db n' table' ≡ (event, table'))
enqueue_once db n n' table unique same =
    elim (Option-cases (head? (db.select OutboxEvent (has_key n.event_key) table))) [
      | inr (old, e) ↦
          let (m, t) =
            Memᴰ-select db (has_key n.event_key) table
              (Memᴰ-head? (db.select OutboxEvent (has_key n.event_key) table) e) in
          let key : old.event_key ≡ n.event_key = ==→eq old.event_key n.event_key t in
          rw (enqueue_existing db n table old e)
            (m, key, unique, enqueue_found db n' table old m (key ∙ sym same) (unique n'.event_key))
      | inl e ↦
          let event = fresh_event n in
          let there : Memᴰ event (table ++ event ∷ []) = Memᴰ-last event table in
          let still : (k : String) → count (has_key k) (table ++ event ∷ []) ≤ 1 =
            λ k. still_unique db n table unique e k in
          let key : event.event_key ≡ n.event_key = unfold fresh_event in refl in
          rw (enqueue_new db n table e) (
            there,
            key,
            still,
            enqueue_found db n' (table ++ event ∷ []) event there (key ∙ sym same)
                (still n'.event_key),
          )
    ]
