-- ===== src/Judging/RunStart.antt =====
-- app/orchestrator/run_validation.py, behind app/orchestrator/judge_bootstrap.py
pub mod Seeded
use why_combinator.Prelude.{
  ℕ, String, Bool, ◌&&◌, List, ◌==◌, nat_has_eq, text_has_eq, length, leb, if◌then◌else◌, Outcome,
  ok, raise,
}
use why_combinator.Platform.Sql.{Engine}
use why_combinator.Db.Models.{Uuid}
use why_combinator.Judging.Versioning.{JudgeProfile, is_profile_of}

pub data RunStartValidationError : Type 0 where
  no_domain_expert : RunStartValidationError

-- `lower` is the database's.
abbrev pub is_domain_expert : (lower : String → String) → Uuid → JudgeProfile → Bool
is_domain_expert lower challenge_id p =
    is_profile_of challenge_id p && (lower p.domain == "domain_expert")

unfoldable pub validate_domain_expert_judge_present :
    (lower : String → String)
    → Engine
    → List JudgeProfile
    → Uuid
    → Outcome RunStartValidationError (Unit {0})
validate_domain_expert_judge_present lower db profiles challenge_id =
    if leb 1 (length (db.select JudgeProfile (is_domain_expert lower challenge_id) profiles))
    then ok tt
    else raise no_domain_expert
