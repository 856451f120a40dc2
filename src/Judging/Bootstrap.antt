-- ===== src/Judging/Bootstrap.antt =====
-- app/orchestrator/judge_bootstrap.py
pub mod Complete
use Prim.Native.Char.{code}
use Prim.Native.String.{[], ◌∷◌}
use why_combinator.Prelude.{
  ℕ, suc, String, Bool, true, false, not, ◌&&◌, ◌||◌, List, [], ◌∷◌, ◌++◌, if◌then◌else◌, ◌==◌,
  nat_has_eq, text_has_eq, any, nat_beq,
}
use why_combinator.Platform.Sql.{Engine}
use why_combinator.Db.Models.{Uuid, Instant}
use why_combinator.Judging.Versioning.{
  JudgeProfile, JudgeProfileVersion, is_profile_of, create_judge_profile_version_snapshot,
}

abbrev pub default_judge_panel : List (String × String × String)
default_judge_panel =
    ("domain_expert", "strict", "Domain expert judge focused on core solution quality.")
    ∷ (
      "engineering", "balanced",
      "Engineering judge focused on feasibility and implementation quality.",
    )
    ∷ ("product", "balanced", "Product judge focused on user value and clarity.")
    ∷ []

abbrev pub regulated_keywords : List String
regulated_keywords =
    "hipaa" ∷ "healthcare" ∷ "medical" ∷ "gdpr" ∷ "pci" ∷ "sox" ∷ "banking" ∷ "finance" ∷ "fintech"
    ∷ "legal" ∷ "compliance" ∷ []

unfoldable pub starts_with : String → String → Bool
starts_with [] s = true
starts_with (c ∷ t) [] = false
starts_with (c ∷ t) (d ∷ s) = nat_beq (code c) (code d) && starts_with t s

-- `keyword in text`
unfoldable pub occurs_in : String → String → Bool
unfolding starts_with
occurs_in keyword [] = starts_with keyword []
occurs_in keyword (c ∷ s) = starts_with keyword (c ∷ s) || occurs_in keyword s

-- `lower` is `str.lower`.
unfoldable pub needs_compliance_judge : (lower : String → String) → String → Bool
unfolding occurs_in
needs_compliance_judge lower prompt =
    any (λ keyword. occurs_in keyword (lower prompt)) regulated_keywords

abbrev pub has_domain : String → JudgeProfile → Bool
has_domain domain p = p.domain == domain

-- `ids` gives the new row of a domain its id, and `now` is the time of the insertion.
module _ (lower : String → String) (db : Engine) (ids : String → Uuid) (now : Instant)
    (challenge_id : Uuid) where
  abbrev pub default_profile : String × String × String → JudgeProfile
  default_profile (domain, scoring_style, profile_prompt) = record {
    id = ids domain;
    challenge_id = challenge_id;
    domain = domain;
    scoring_style = scoring_style;
    profile_prompt = profile_prompt;
    head_judge = domain == "domain_expert";
    source_type = "bootstrap_default";
    created_at = now;
  }

  abbrev pub compliance_profile : JudgeProfile
  compliance_profile = record {
    id = ids "compliance";
    challenge_id = challenge_id;
    domain = "compliance";
    scoring_style = "strict";
    profile_prompt = "Compliance judge focused on regulatory and safety requirements.";
    head_judge = false;
    source_type = "auto_suggestion";
    created_at = now;
  }

  -- `for domain, scoring_style, profile_prompt in DEFAULT_JUDGE_PANEL`
  unfoldable pub seed_panel :
      (existing : List JudgeProfile) → List (String × String × String) → List JudgeProfile
  seed_panel existing [] = []
  seed_panel existing (entry ∷ entries) =
      let later = seed_panel existing entries in
      if any (has_domain entry.0) existing then later else default_profile entry ∷ later

  unfoldable pub seed_compliance :
      (existing : List JudgeProfile) → (prompt : String) → List JudgeProfile
  seed_compliance existing prompt =
      if not (any (has_domain "compliance") existing) && needs_compliance_judge lower prompt
      then compliance_profile ∷ []
      else []

  -- What is created, and both tables.
  unfoldable pub seed_default_judge_panel_if_incomplete :
      (challenge_prompt : String)
      → List JudgeProfile
      → List JudgeProfileVersion
      → List JudgeProfile × List JudgeProfile × List JudgeProfileVersion
  seed_default_judge_panel_if_incomplete challenge_prompt profiles versions =
      let existing = db.select JudgeProfile (is_profile_of challenge_id) profiles in
      let created =
        seed_panel existing default_judge_panel ++ seed_compliance existing challenge_prompt in
      let snapshot =
        create_judge_profile_version_snapshot db (profiles ++ created) versions challenge_id true in
      (created, profiles ++ created, elim created [ [] ↦ versions | _ ∷ _ ↦ snapshot.1 ])
