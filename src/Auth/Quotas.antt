-- ===== src/Auth/Quotas.antt =====
-- app/auth/quotas.py
pub mod Limits
pub mod History
use why_combinator.Prelude.{
  ℕ, ◌+◌, ◌-◌, ◌≡◌, String, Bool, true, false, ◌||◌, Option, none, some, List, [], ◌∷◌, ◌++◌, ltb,
  head?, if◌then◌else◌, ◌==◌, nat_beq, text_has_eq, map, Outcome, ok, raise, ◌>>=◌,
}
use why_combinator.Prelude.Texts.{strip, prefix, is_empty}
use why_combinator.Prelude.Integers.{ℤ, pos, negsuc, clamp}
use why_combinator.Platform.Sql.{Engine}

-- MAX_QUOTA_USER_ID_LENGTH
abbrev pub max_quota_user_id_length : ℕ
max_quota_user_id_length = 128

unfoldable pub normalize_user_id : String → String
unfolding strip prefix
normalize_user_id raw =
    let normalized = strip raw in
    if is_empty normalized then "anonymous" else prefix max_quota_user_id_length normalized

pub data QuotaName : Type 0 where
  challenges_created runs_started artifact_storage_bytes : QuotaName

-- One integer for each quota.
pub record Amounts (A : Type 0) : Type 0 where
  pub challenges : A
  pub runs : A
  pub storage : A

abbrev pub amount : {A : Type 0} → Amounts A → QuotaName → A
amount a challenges_created = a.challenges
amount a runs_started = a.runs
amount a artifact_storage_bytes = a.storage

abbrev pub QuotaUsageDelta : Type 0
QuotaUsageDelta = Amounts ℤ

-- The limits as they are configured, and normalized.
abbrev pub QuotaLimits : Type 0
QuotaLimits = Amounts (Option ℕ)

-- The counters start at 0 and are only added to.
pub record UserQuotaUsage : Type 0 where
  pub quota_user_id : String
  pub used : Amounts ℕ

pub record QuotaExceededError : Type 0 where
  pub quota_user_id : String
  pub quota_name : QuotaName
  pub limit : ℕ
  pub used : ℕ
  pub requested : ℕ
  pub remaining : ℕ

pub quota_exceeded : String → QuotaName → (limit used requested : ℕ) → QuotaExceededError
quota_exceeded user quota limit used requested = record {
  quota_user_id = normalize_user_id user;
  quota_name = quota;
  limit = limit;
  used = used;
  requested = requested;
  remaining = limit - used;
}

pub normalize_quota_limit : Option ℤ → Option ℕ
normalize_quota_limit none = none
normalize_quota_limit (some (negsuc n)) = none
normalize_quota_limit (some (pos n)) = if nat_beq n 0 then none else some n

pub quota_limits_from_settings : Option (Amounts ℤ) → QuotaLimits
unfolding normalize_quota_limit
quota_limits_from_settings none = record { challenges = none; runs = none; storage = none }
quota_limits_from_settings (some settings) = record {
  challenges = normalize_quota_limit (some settings.challenges);
  runs = normalize_quota_limit (some settings.runs);
  storage = normalize_quota_limit (some settings.storage);
}

unfoldable pub normalized_delta : QuotaUsageDelta → Amounts ℕ
normalized_delta delta = record {
  challenges = clamp delta.challenges;
  runs = clamp delta.runs;
  storage = clamp delta.storage;
}

-- The condition on which an entry of `checks` raises, with the limit.
abbrev pub exceeded : (used requested : ℕ) → Option ℕ → Option ℕ
exceeded used requested none = none
exceeded used requested (some limit) =
    if nat_beq requested 0 then none else if ltb limit (used + requested) then some limit else none

-- The loop over `checks`.
pub assert_each :
    String
    → Amounts ℕ
    → Amounts ℕ
    → QuotaLimits
    → List QuotaName
    → Outcome QuotaExceededError (Unit {0})
unfolding quota_exceeded
assert_each user used delta limits [] = ok tt
assert_each user used delta limits (q ∷ quotas) =
    elim (exceeded (amount used q) (amount delta q) (amount limits q)) [
      | some limit ↦ raise (quota_exceeded user q limit (amount used q) (amount delta q))
      | none ↦ assert_each user used delta limits quotas
    ]

abbrev pub all_quotas : List QuotaName
all_quotas = challenges_created ∷ runs_started ∷ artifact_storage_bytes ∷ []

unfoldable pub assert_quota_delta_allowed :
    String → UserQuotaUsage → Amounts ℕ → QuotaLimits → Outcome QuotaExceededError (Unit {0})
unfolding assert_each
assert_quota_delta_allowed user usage delta limits =
    assert_each user usage.used delta limits all_quotas

-- The row of the user, and the table with it.
unfoldable pub get_or_create_quota_usage :
    Engine → String → List UserQuotaUsage → UserQuotaUsage × List UserQuotaUsage
get_or_create_quota_usage db user table =
    let normalized_user_id = normalize_user_id user in
    elim (head? (db.select UserQuotaUsage (λ r. r.quota_user_id == normalized_user_id) table)) [
      | some row ↦ (row, table)
      | none ↦
          let row : UserQuotaUsage = record {
            quota_user_id = normalized_user_id;
            used = record { challenges = 0; runs = 0; storage = 0 };
          } in
          (row, table ++ row ∷ [])
    ]

pub enforce_quota_usage :
    Engine
    → String
    → QuotaUsageDelta
    → QuotaLimits
    → List UserQuotaUsage
    → Outcome QuotaExceededError UserQuotaUsage × List UserQuotaUsage
enforce_quota_usage db user delta limits table =
    let normalized_user_id = normalize_user_id user in
    let (row, table') = get_or_create_quota_usage db normalized_user_id table in
    (
      assert_quota_delta_allowed normalized_user_id row (normalized_delta delta) limits >>= λ _.
          ok row,
      table',
    )

-- `row.… = max(0, row.… + …)`
unfoldable pub add_usage : UserQuotaUsage → Amounts ℕ → UserQuotaUsage
add_usage row delta = record row {
  used = record {
    challenges = (row.used).challenges + delta.challenges;
    runs = (row.used).runs + delta.runs;
    storage = (row.used).storage + delta.storage;
  };
}

-- The changed object is written to the row of its user.
unfoldable pub write_usage : UserQuotaUsage → List UserQuotaUsage → List UserQuotaUsage
write_usage row table = map (λ r. if r.quota_user_id == row.quota_user_id then row else r) table

-- `if limits is not None`
unfoldable pub assert_limits :
    String → UserQuotaUsage → Amounts ℕ → Option QuotaLimits → Outcome QuotaExceededError (Unit {0})
assert_limits user row delta none = ok tt
assert_limits user row delta (some limits) = assert_quota_delta_allowed user row delta limits

unfoldable pub increment_quota_usage :
    Engine
    → String
    → QuotaUsageDelta
    → Option QuotaLimits
    → List UserQuotaUsage
    → Outcome QuotaExceededError UserQuotaUsage × List UserQuotaUsage
unfolding write_usage
increment_quota_usage db user delta limits table =
    let normalized_user_id = normalize_user_id user in
    let (row, table') = get_or_create_quota_usage db normalized_user_id table in
    let allowed = assert_limits normalized_user_id row (normalized_delta delta) limits in
    let row' = add_usage row (normalized_delta delta) in
    elim allowed [ raise e ↦ (raise e, table') | ok _ ↦ (ok row', write_usage row' table') ]
