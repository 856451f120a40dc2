-- ===== src/Auth/Quotas/History.antt =====
-- Sequences of increments, by any users.
use mathlib.Core.List.{Memᴰ}
use why_combinator.Prelude.{
  ℕ, ◌⊎◌, Bool-cases, ◌≡◌, refl, ◌∙◌, ap, inl, inr, String, Bool, true, false, not, Option, none,
  some, List, [], ◌∷◌, ◌++◌, arith, head?, ◌==◌, text_has_eq, ==-refl, ==→eq, any, any-append,
  filter, filter-append, append-nil, Option-cases, Outcome-cases, ok, raise,
}
use why_combinator.Prelude.Members.{any-Memᴰ, Memᴰ-head?}
use why_combinator.Platform.Sql.{Engine}
use why_combinator.Db.Tables.{Memᴰ-select}
use why_combinator.Auth.Quotas.{
  Amounts, QuotaUsageDelta, QuotaLimits, UserQuotaUsage, QuotaExceededError,
  assert_quota_delta_allowed, assert_limits, normalize_user_id, normalized_delta,
  get_or_create_quota_usage, add_usage, write_usage, increment_quota_usage,
}
use why_combinator.Auth.Quotas.Limits.{is_over, over_any, add-within, any-written}

any-false :
    {A : Type 0} {a : A} (p : A → Bool) (xs : List A) → any p xs ≡ false → Memᴰ a xs → p a ≡ false
any-false {a} p xs h m = elim (Bool-cases (p a)) [ inl t ↦ cc (h, any-Memᴰ p xs m t) | inr f ↦ f ]

zero_within : (limit : Option ℕ) → is_over limit 0 ≡ false
zero_within none = refl
zero_within (some l) = ground arith

abbrev zero_row : String → UserQuotaUsage
zero_row id = record { quota_user_id = id; used = record { challenges = 0; runs = 0; storage = 0 } }

abbrev of_user : String → UserQuotaUsage → Bool
of_user id r = r.quota_user_id == id

-- The row is a stored one, or a new one is added.
get_or_create_cases :
    (db : Engine) (user : String) (table : List UserQuotaUsage)
    → let (row, table') = get_or_create_quota_usage db user table in
      (Memᴰ row table × (row.quota_user_id ≡ normalize_user_id user) × (table' ≡ table))
      ⊎ ((row ≡ zero_row (normalize_user_id user))
          × (table' ≡ table ++ zero_row (normalize_user_id user) ∷ []))
unfolding get_or_create_quota_usage
get_or_create_cases db user table =
    let p = of_user (normalize_user_id user) in
    elim (Option-cases (head? (db.select UserQuotaUsage p table))) [
      | inl e ↦ inr (rw (e, get_or_create_quota_usage) (refl, refl))
      | inr (row, e) ↦
          let (m, t) = Memᴰ-select db p table (Memᴰ-head? (db.select UserQuotaUsage p table) e) in
          inl (
            rw (e, get_or_create_quota_usage)
              (m, ==→eq row.quota_user_id (normalize_user_id user) t, refl))
    ]

created-within :
    (db : Engine) (user : String) (limits : QuotaLimits) (table : List UserQuotaUsage)
    → any (over_any limits) table ≡ false
    → let (row, table') = get_or_create_quota_usage db user table in
      (over_any limits row ≡ false) × (any (over_any limits) table' ≡ false)
created-within db user limits table h = elim (get_or_create_cases db user table) [
  | inl (m, _, same) ↦ (any-false (over_any limits) table h m, rw same h)
  | inr (row, added) ↦
      let id = normalize_user_id user in
      let fresh : over_any limits (zero_row id) ≡ false = ground (
        arith,
        zero_within limits.challenges,
        zero_within limits.runs,
        zero_within limits.storage,
      ) in
      (
        rw row fresh,
        rw added (any-append (over_any limits) table (zero_row id ∷ []) ∙ ground (arith, h, fresh)),
      )
]

-- What an increment under limits leaves behind: the table with the row of the user, or with that row
-- written as well.
increment_cases :
    (db : Engine) (user : String) (delta : QuotaUsageDelta) (limits : QuotaLimits)
    (table : List UserQuotaUsage)
    → let id = normalize_user_id user in
      let (row, table') = get_or_create_quota_usage db id table in
      let (outcome, table'') = increment_quota_usage db user delta (some limits) table in
      ((e : QuotaExceededError) × (outcome ≡ raise e) × (table'' ≡ table'))
      ⊎ ((assert_quota_delta_allowed id row (normalized_delta delta) limits ≡ ok tt)
          × (outcome ≡ ok (add_usage row (normalized_delta delta)))
          × (table'' ≡ write_usage (add_usage row (normalized_delta delta)) table'))
unfolding increment_quota_usage assert_limits
increment_cases db user delta limits table =
    let id = normalize_user_id user in
    let (row, table') = get_or_create_quota_usage db id table in
    elim (Outcome-cases (assert_quota_delta_allowed id row (normalized_delta delta) limits)) [
      | inl (e, h) ↦ inl (e, rw (h, increment_quota_usage) refl, rw (h, increment_quota_usage) refl)
      | inr (u, h) ↦ inr (h, rw (h, increment_quota_usage) refl, rw (h, increment_quota_usage) refl)
    ]

increment-within :
    (db : Engine) (user : String) (delta : QuotaUsageDelta) (limits : QuotaLimits)
    (table : List UserQuotaUsage)
    → any (over_any limits) table ≡ false
    → any (over_any limits) (increment_quota_usage db user delta (some limits) table).1 ≡ false
increment-within db user delta limits table h =
    let id = normalize_user_id user in
    let (row_within, table_within) = created-within db id limits table h in
    let row = (get_or_create_quota_usage db id table).0 in
    elim (increment_cases db user delta limits table) [
      | inl (_, _, same) ↦ rw same table_within
      | inr (allowed, _, written) ↦ rw written (
          any-written (over_any limits) (add_usage row (normalized_delta delta))
            (get_or_create_quota_usage db id table).1 table_within
            (add-within id row (normalized_delta delta) limits row_within allowed))
    ]

-- Increments one after another.
pub increments :
    Engine
    → QuotaLimits
    → List (String × QuotaUsageDelta)
    → List UserQuotaUsage
    → List UserQuotaUsage
increments db limits [] table = table
increments db limits ((user, delta) ∷ requests) table =
    increments db limits requests (increment_quota_usage db user delta (some limits) table).1

-- However many increments are asked for, by whichever users and of whatever sizes: as long as all are
-- made under the same limits, no counter of any row gets over its limit if none was at the start.
pub increments_within :
    (db : Engine) (limits : QuotaLimits) (requests : List (String × QuotaUsageDelta))
    (table : List UserQuotaUsage)
    → any (over_any limits) table ≡ false
    → any (over_any limits) (increments db limits requests table) ≡ false
unfolding increments
increments_within db limits [] table h = h
increments_within db limits ((user, delta) ∷ requests) table h =
    increments_within db limits requests (increment_quota_usage db user delta (some limits) table).1
      (increment-within db user delta limits table h)

add_usage-id :
    (row : UserQuotaUsage) (delta : Amounts ℕ)
    → (add_usage row delta).quota_user_id ≡ row.quota_user_id
unfolding add_usage
add_usage-id row delta = refl

others_written :
    (id : String) (row : UserQuotaUsage) (table : List UserQuotaUsage)
    → row.quota_user_id ≡ id
    → filter (λ r. not (of_user id r)) (write_usage row table)
      ≡ filter (λ r. not (of_user id r)) table
unfolding write_usage
others_written id row [] e = refl
others_written id row (r ∷ rs) e =
    let own : (row.quota_user_id == id) ≡ true = rw e (==-refl id) in
    let same : (r.quota_user_id == row.quota_user_id) ≡ (r.quota_user_id == id) =
      ap (λ x. r.quota_user_id == x) e in
    ground (arith, others_written id row rs e, own, same)

created-others :
    (db : Engine) (user : String) (table : List UserQuotaUsage)
    → let id = normalize_user_id user in
      let (row, table') = get_or_create_quota_usage db user table in
      (row.quota_user_id ≡ id)
      × (filter (λ r. not (of_user id r)) table' ≡ filter (λ r. not (of_user id r)) table)
created-others db user table =
    let id = normalize_user_id user in
    let others = λ (r : UserQuotaUsage). not (of_user id r) in
    elim (get_or_create_cases db user table) [
      | inl (_, own, same) ↦ (own, rw same refl)
      | inr (row, added) ↦ (
        rw row refl,
        rw added (
            filter-append others table (zero_row id ∷ [])
            ∙ rw (==-refl id) (append-nil (filter others table))),
      )
    ]

-- An increment under limits, refused or not, leaves the rows of all other users as they were.
pub increment_others :
    (db : Engine) (user : String) (delta : QuotaUsageDelta) (limits : QuotaLimits)
    (table : List UserQuotaUsage)
    → let others = λ (r : UserQuotaUsage).
      not (r.quota_user_id == normalize_user_id (normalize_user_id user)) in
      filter others (increment_quota_usage db user delta (some limits) table).1
      ≡ filter others table
increment_others db user delta limits table =
    let id = normalize_user_id user in
    let (own, kept) = created-others db id table in
    let (row, table') = get_or_create_quota_usage db id table in
    elim (increment_cases db user delta limits table) [
      | inl (_, _, same) ↦ rw same kept
      | inr (_, _, written) ↦ rw written (
          others_written (normalize_user_id id) (add_usage row (normalized_delta delta)) table'
            (add_usage-id row (normalized_delta delta) ∙ own)
          ∙ kept)
    ]
