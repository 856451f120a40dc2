-- ===== src/Judging/Examples.antt =====
-- A challenge whose judges are seeded, and the theorems at these inputs.
use mathlib.Core.List.{Memᴰ}
use why_combinator.Prelude.{
  ok, raise, ◌≡◌, ◌↔◌, refl, String, true, false, not, ◌&&◌, List, [], ◌∷◌, ◌++◌, map, All, any,
  count, filter, leb, arith, if◌then◌else◌,
}
use why_combinator.Platform.Sql.{in_order}
use why_combinator.Db.Models.{Uuid}
use why_combinator.Judging.Versioning.{
  JudgeProfile, JudgeProfileVersion, is_version_of, create_judge_profile_version_snapshot,
  serialize_judge_profile,
}
use why_combinator.Judging.Versioning.Numbered.{IsVersioned, is_active_of, snapshot_lem}
use why_combinator.Judging.Bootstrap.{
  default_judge_panel, needs_compliance_judge, seed_panel, seed_compliance,
  seed_default_judge_panel_if_incomplete, occurs_in, starts_with,
}
use why_combinator.Judging.Bootstrap.Complete.{judges, IsInActive, seed_complete}
use why_combinator.Judging.RunStart.{no_domain_expert, validate_domain_expert_judge_present}
use why_combinator.Judging.RunStart.Seeded.{HasExpert, seeded_passes}

-- The challenge has a judge for engineering and a version.
abbrev engineer : JudgeProfile
engineer = record {
  id = 1;
  challenge_id = 7;
  domain = "engineering";
  scoring_style = "strict";
  profile_prompt = "";
  head_judge = true;
  source_type = "inline_json";
  created_at = 0;
}

abbrev first_version : JudgeProfileVersion
first_version = record {
  challenge_id = 7;
  version_number = 1;
  is_active = true;
  lock_version = 1;
  profiles_payload = serialize_judge_profile engineer ∷ [];
}

abbrev profiles : List JudgeProfile
profiles = engineer ∷ []

abbrev versions : List JudgeProfileVersion
versions = first_version ∷ []

versions-IsVersioned : IsVersioned versions
versions-IsVersioned = record { one_number = λ c n. ground arith; one_active = λ c. ground arith }

abbrev lower : String → String
lower s = s

abbrev ids : String → Uuid
ids domain = 20

abbrev seeded : List JudgeProfile × List JudgeProfile × List JudgeProfileVersion
seeded =
    seed_default_judge_panel_if_incomplete lower in_order ids 5 7 "a finance app" profiles versions

three_created :
    map (λ (p : JudgeProfile). p.domain) seeded.0 ≡ "domain_expert" ∷ "product" ∷ "compliance" ∷ []
unfolding seed_default_judge_panel_if_incomplete seed_panel seed_compliance needs_compliance_judge
    occurs_in starts_with
three_created = refl

snapshot_lem_example :
    let (row, versions') =
      create_judge_profile_version_snapshot in_order profiles versions 7 true in
    IsVersioned versions'
    × Memᴰ row versions'
    × (row.challenge_id ≡ 7)
    × (row.is_active ≡ true)
    × All (λ v. (is_version_of 7 v && leb row.version_number v.version_number) ≡ false) versions
    × (count (is_active_of 7) versions' ≡ (if true then 1 else count (is_active_of 7) versions))
    × (filter (λ v. not (is_version_of 7 v)) versions'
        ≡ filter (λ v. not (is_version_of 7 v)) versions)
snapshot_lem_example = snapshot_lem in_order profiles versions 7 true versions-IsVersioned

seed_complete_example :
    let (created, profiles', versions') = seeded in
    All
      (λ (entry : String × String × String). any (judges 7 entry.0) profiles' ≡ true)
      default_judge_panel
    × ((needs_compliance_judge lower "a finance app" && not (any (judges 7 "compliance") profiles'))
        ≡ false)
    × (profiles' ≡ profiles ++ created)
    × All (λ p. (p.challenge_id ≡ 7) × (any (judges 7 p.domain) profiles ≡ false)) created
    × IsVersioned versions'
    × All (IsInActive 7 versions') created
    × (seed_default_judge_panel_if_incomplete lower in_order ids 6 7 "a finance app" profiles'
          versions'
        ≡ ([], profiles', versions'))
seed_complete_example =
    seed_complete lower in_order ids ids 5 6 7 "a finance app" profiles versions
      versions-IsVersioned

seeded_passes_example :
    ((validate_domain_expert_judge_present lower in_order profiles 7 ≡ ok tt)
      ↔ HasExpert lower 7 profiles)
    × (validate_domain_expert_judge_present lower in_order seeded.1 7 ≡ ok tt)
seeded_passes_example =
    seeded_passes lower lower in_order ids 5 7 "a finance app" profiles versions refl

-- Before, the challenge had no domain expert.
not_yet : validate_domain_expert_judge_present lower in_order profiles 7 ≡ raise no_domain_expert
unfolding validate_domain_expert_judge_present
not_yet = refl
