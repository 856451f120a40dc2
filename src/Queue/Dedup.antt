-- ===== src/Queue/Dedup.antt =====
-- app/queue/dedup.py
use why_combinator.Prelude.{
  ℕ, ◌+◌, ◌<◌, sym, ◌⊎◌, ◌≡◌, ◌↔◌, refl, ◌∙◌, ap, String, Bool, true, false, ◌&&◌, none, some, List,
  [], ◌∷◌, arith, if◌then◌else◌, HasEq, ◌==◌, nat_has_eq, text_has_eq, ==→eq, any, Option-cases,
  Bool-cases, inl, inr,
}
use why_combinator.Platform.Redis.{Redis, set_nx_ex}
use why_combinator.Db.Models.{Uuid}

-- f"score-job:{submission_id}:{checkpoint_id}"
pub data ScoreJobKey : Type 0 where
  score_job : Uuid → String → ScoreJobKey

abbrev pub score_job_key_same : ScoreJobKey → ScoreJobKey → Bool
score_job_key_same (score_job a c) (score_job b d) = (a == b) && (c == d)

text_same_iff : (i j : String) → ((i == j) ≡ true) ↔ (i ≡ j)
text_same_iff i j = text_has_eq.same_iff i j

pub score_job_key_same_iff : (a b : ScoreJobKey) → (score_job_key_same a b ≡ true) ↔ (a ≡ b)
score_job_key_same_iff (score_job a c) (score_job b d) = ground (arith, text_same_iff c d)

instance abbrev pub score_job_key_has_eq : HasEq ScoreJobKey
score_job_key_has_eq = record { same = score_job_key_same; same_iff = score_job_key_same_iff }

abbrev pub ScoreJobRedis : Type 1
ScoreJobRedis = Redis ScoreJobKey String score_job_key_has_eq

module _ (redis : ScoreJobRedis) where
  unfoldable pub claim_score_job_dedup_key :
      redis.State → ScoreJobKey → (ttl_seconds : ℕ) → Bool × redis.State
  unfolding set_nx_ex
  claim_score_job_dedup_key s key ttl_seconds = set_nx_ex redis s key "1" ttl_seconds

  -- Claims one after another, and how many of them for a key succeed.
  pub claims_granted : ScoreJobKey → (ttl_seconds : ℕ) → redis.State → List ScoreJobKey → ℕ
  claims_granted k ttl_seconds s [] = 0
  claims_granted k ttl_seconds s (key ∷ keys) =
      let later =
        claims_granted k ttl_seconds (claim_score_job_dedup_key s key ttl_seconds).1 keys in
      if (claim_score_job_dedup_key s key ttl_seconds).0 && (key == k) then 1 + later else later

  claim_cases :
      (s : redis.State) (key : ScoreJobKey) (ttl : ℕ)
      → ((redis.get s key ≡ none)
          × (claim_score_job_dedup_key s key ttl ≡ (true, redis.set_ex s key "1" ttl)))
        ⊎ ((v : String) × (redis.get s key ≡ some v)
            × (claim_score_job_dedup_key s key ttl ≡ (false, s)))
  unfolding claim_score_job_dedup_key
  claim_cases s key ttl = elim (Option-cases (redis.get s key)) [
    | inl e ↦ inl (e, rw (e, set_nx_ex) refl)
    | inr (v, e) ↦ inr (v, e, rw (e, set_nx_ex) refl)
  ]

  claims_taken :
      (k : ScoreJobKey) (ttl : ℕ) (s : redis.State) (keys : List ScoreJobKey) (v : String)
      → 0 < ttl
      → redis.get s k ≡ some v
      → claims_granted k ttl s keys ≡ 0
  unfolding claims_granted
  claims_taken k ttl s [] v pos h = refl
  claims_taken k ttl s (key ∷ keys) v pos h = elim (claim_cases s key ttl) [
    | inl (free, made) ↦
        let after = redis.get-set_ex s key "1" ttl k pos in
        elim (Bool-cases (key == k)) [
          | inl own ↦
              let same : key ≡ k = ==→eq key k own in
              let clash : none ≡ some v = sym free ∙ ap (redis.get s) same ∙ h in cc
          | inr other ↦
              rw (made, other, claims_granted)
                (claims_taken k ttl (redis.set_ex s key "1" ttl) keys v pos (after ∙ rw other h))
        ]
    | inr (_, _, refused) ↦ rw (refused, claims_granted) (claims_taken k ttl s keys v pos h)
  ]

  -- However many workers claim the same score job while the key lives, and whatever other jobs are claimed
  -- in between: of a job that nobody has claimed yet exactly one claim is granted if there is any.
  pub claims_once :
      (k : ScoreJobKey) (ttl : ℕ) (s : redis.State) (keys : List ScoreJobKey)
      → 0 < ttl
      → redis.get s k ≡ none
      → claims_granted k ttl s keys ≡ (if any (λ key. key == k) keys then 1 else 0)
  unfolding claims_granted
  claims_once k ttl s [] pos h = refl
  claims_once k ttl s (key ∷ keys) pos h = elim (claim_cases s key ttl) [
    | inl (free, made) ↦
        let after = redis.get-set_ex s key "1" ttl k pos in
        elim (Bool-cases (key == k)) [
          | inl own ↦
              let none_left =
                claims_taken k ttl (redis.set_ex s key "1" ttl) keys "1" pos
                  (after ∙ rw own refl) in
              rw (made, own, claims_granted, none_left) refl
          | inr other ↦
              rw (made, other, claims_granted)
                (claims_once k ttl (redis.set_ex s key "1" ttl) keys pos (after ∙ rw other h))
        ]
    | inr (v, taken, refused) ↦ elim (Bool-cases (key == k)) [
      | inl own ↦
          let same : key ≡ k = ==→eq key k own in
          let clash : some v ≡ none = sym taken ∙ ap (redis.get s) same ∙ h in cc
      | inr other ↦ rw (refused, other, claims_granted) (claims_once k ttl s keys pos h)
    ]
  ]
