-- ===== src/Auth/Quotas/Limits.antt =====
-- Which increments are allowed, and that nobody gets over a limit.
use mathlib.Core.Option.{some-injective}
use why_combinator.Prelude.{
  ℕ, ◌+◌, ◌≤◌, ◌<◌, ◌≡◌, ◌↔◌, refl, String, Bool, false, ◌||◌, Option, none, some, List, [], ◌∷◌,
  arith, ltb, text_has_eq, any, ok,
}
use why_combinator.Auth.Quotas.{
  QuotaName, challenges_created, runs_started, artifact_storage_bytes, Amounts, amount, QuotaLimits,
  UserQuotaUsage, exceeded, assert_each, assert_quota_delta_allowed, add_usage, write_usage,
}

room :
    (used requested limit : ℕ)
    → (0 < requested → used + requested ≤ limit)
    → exceeded used requested (some limit) ≡ none
room used requested limit h = ground (arith, h)

assert_quota :
    (user : String) (usage : UserQuotaUsage) (delta : Amounts ℕ) (limits : QuotaLimits)
    → assert_quota_delta_allowed user usage delta limits ≡ ok tt
    → (q : QuotaName) → exceeded (amount usage.used q) (amount delta q) (amount limits q) ≡ none
unfolding assert_quota_delta_allowed assert_each
assert_quota user usage delta limits e challenges_created = ground arith
assert_quota user usage delta limits e runs_started = ground arith
assert_quota user usage delta limits e artifact_storage_bytes = ground arith

asserted :
    (user : String) (usage : UserQuotaUsage) (delta : Amounts ℕ) (limits : QuotaLimits)
    → exceeded (usage.used).challenges delta.challenges limits.challenges ≡ none
    → exceeded (usage.used).runs delta.runs limits.runs ≡ none
    → exceeded (usage.used).storage delta.storage limits.storage ≡ none
    → assert_quota_delta_allowed user usage delta limits ≡ ok tt
unfolding assert_quota_delta_allowed assert_each
asserted user usage delta limits a b c = ground arith

room_iff :
    (used requested : ℕ) (limit : Option ℕ)
    → (exceeded used requested limit ≡ none)
      ↔ ((l : ℕ) → limit ≡ some l → 0 < requested → used + requested ≤ l)
room_iff used requested none = (λ e l h pos. cc, λ h. refl)
room_iff used requested (some limit) = (
  λ e l h pos. let same : limit ≡ l = some-injective limit l h in ground (arith, e, same, pos),
  λ h. room used requested limit (h limit refl),
)

assert_iff :
    (user : String) (usage : UserQuotaUsage) (delta : Amounts ℕ) (limits : QuotaLimits)
    → (assert_quota_delta_allowed user usage delta limits ≡ ok tt)
      ↔ ((q : QuotaName) → exceeded (amount usage.used q) (amount delta q) (amount limits q) ≡ none)
assert_iff user usage delta limits = (
  λ e q. assert_quota user usage delta limits e q,
  λ h.
      asserted user usage delta limits (h challenges_created) (h runs_started)
        (h artifact_storage_bytes),
)

-- An increment is allowed exactly if each quota that is limited and asked for has room for what is used
-- and what is requested together.
pub allowed_iff :
    (user : String) (usage : UserQuotaUsage) (delta : Amounts ℕ) (limits : QuotaLimits)
    → (assert_quota_delta_allowed user usage delta limits ≡ ok tt) ↔ (
        (q : QuotaName) (l : ℕ)
        → amount limits q ≡ some l
        → 0 < amount delta q
        → amount usage.used q + amount delta q ≤ l)
allowed_iff user usage delta limits =
    let (to, from) = assert_iff user usage delta limits in
    (
      λ e q l h pos.
          (room_iff (amount usage.used q) (amount delta q) (amount limits q)).0 (to e q) l h pos,
      λ h. from (λ q.
          (room_iff (amount usage.used q) (amount delta q) (amount limits q)).1
            (λ l e pos. h q l e pos)),
    )

-- A counter is over its limit.
abbrev pub is_over : Option ℕ → ℕ → Bool
is_over none used = false
is_over (some l) used = ltb l used

abbrev pub over_any : QuotaLimits → UserQuotaUsage → Bool
over_any limits r =
    is_over limits.challenges (r.used).challenges
    || is_over limits.runs (r.used).runs
    || is_over limits.storage (r.used).storage

allowed_over :
    (used requested : ℕ) (limit : Option ℕ)
    → exceeded used requested limit ≡ none
    → is_over limit used ≡ false
    → is_over limit (used + requested) ≡ false
allowed_over used requested none e h = refl
allowed_over used requested (some l) e h = ground arith

-- Adding what is allowed keeps a row within the limits.
pub add-within :
    (user : String) (row : UserQuotaUsage) (delta : Amounts ℕ) (limits : QuotaLimits)
    → over_any limits row ≡ false
    → assert_quota_delta_allowed user row delta limits ≡ ok tt
    → over_any limits (add_usage row delta) ≡ false
unfolding add_usage
add-within user row delta limits h e = ground (
  arith,
  allowed_over (row.used).challenges delta.challenges limits.challenges
      (assert_quota user row delta limits e challenges_created),
  allowed_over (row.used).runs delta.runs limits.runs
      (assert_quota user row delta limits e runs_started),
  allowed_over (row.used).storage delta.storage limits.storage
      (assert_quota user row delta limits e artifact_storage_bytes),
)

pub any-written :
    (p : UserQuotaUsage → Bool) (row : UserQuotaUsage) (table : List UserQuotaUsage)
    → any p table ≡ false
    → p row ≡ false
    → any p (write_usage row table) ≡ false
unfolding write_usage
any-written p row [] h k = refl
any-written p row (r ∷ rs) h k = ground (arith, any-written p row rs)
