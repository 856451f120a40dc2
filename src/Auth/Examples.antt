-- ===== src/Auth/Examples.antt =====
-- Quotas at work, and the theorems at concrete inputs.
use why_combinator.Prelude.{
  ℕ, ◌≡◌, refl, String, false, none, some, List, [], ◌∷◌, text_has_eq, any, ok,
}
use why_combinator.Prelude.Integers.{pos, negsuc}
use why_combinator.Platform.Sql.{in_order}
use why_combinator.Auth.Quotas.{
  QuotaUsageDelta, QuotaLimits, UserQuotaUsage, normalize_user_id, assert_quota_delta_allowed,
  get_or_create_quota_usage, increment_quota_usage, assert_limits, add_usage, write_usage,
  normalized_delta,
}
use why_combinator.Auth.Quotas.Limits.{over_any}
use why_combinator.Auth.Quotas.History.{increments, increments_within}

abbrev limits : QuotaLimits
limits = record { challenges = none; runs = some 2; storage = some 1000 }

abbrev start_run : QuotaUsageDelta
start_run = record { challenges = negsuc 4; runs = pos 1; storage = pos 0 }

abbrev usage : String → ℕ → UserQuotaUsage
usage id n = record { quota_user_id = id; used = record { challenges = 0; runs = n; storage = 7 } }

abbrev table : List UserQuotaUsage
table = usage "ada" 1 ∷ usage "bob" 2 ∷ []

trimmed : normalize_user_id " ada " ≡ "ada"
unfolding normalize_user_id
trimmed = refl

one_more :
    increment_quota_usage in_order " ada " start_run (some limits) table
    ≡ (ok (usage "ada" 2), usage "ada" 2 ∷ usage "bob" 2 ∷ [])
unfolding increment_quota_usage get_or_create_quota_usage assert_limits assert_quota_delta_allowed
    normalize_user_id add_usage write_usage normalized_delta
one_more = refl

increments_within_example :
    any (over_any limits) (
      increments in_order limits
        (("ada", start_run) ∷ ("ada", start_run) ∷ ("bob", start_run) ∷ [])
        table)
    ≡ false
increments_within_example =
    increments_within in_order limits
      (("ada", start_run) ∷ ("ada", start_run) ∷ ("bob", start_run) ∷ []) table refl
