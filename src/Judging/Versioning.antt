-- ===== src/Judging/Versioning.antt =====
-- app/judging/versioning.py
pub mod Numbered
use why_combinator.Prelude.{
  ℕ, suc, String, Bool, true, false, ◌&&◌, List, [], ◌∷◌, ◌++◌, map, leb, ltb, if◌then◌else◌, ◌==◌,
  nat_has_eq, max_of,
}
use why_combinator.Prelude.Sort.{sort}
use why_combinator.Prelude.Orders.{lexicographic}
use why_combinator.Platform.Sql.{Engine}
use why_combinator.Db.Models.{Uuid, Instant}

pub record JudgeProfile : Type 0 where
  pub id : Uuid
  pub challenge_id : Uuid
  pub domain : String
  pub scoring_style : String
  pub profile_prompt : String
  pub head_judge : Bool
  pub source_type : String
  pub created_at : Instant

-- The dictionary of a profile.
pub record SerializedProfile : Type 0 where
  pub domain : String
  pub scoring_style : String
  pub profile_prompt : String
  pub head_judge : Bool
  pub source_type : String

pub record JudgeProfileVersion : Type 0 where
  pub challenge_id : Uuid
  pub version_number : ℕ
  pub is_active : Bool
  pub lock_version : ℕ
  pub profiles_payload : List SerializedProfile

unfoldable pub serialize_judge_profile : JudgeProfile → SerializedProfile
serialize_judge_profile p = record {
  domain = p.domain;
  scoring_style = p.scoring_style;
  profile_prompt = p.profile_prompt;
  head_judge = p.head_judge;
  source_type = p.source_type;
}

abbrev pub is_profile_of : Uuid → JudgeProfile → Bool
is_profile_of challenge_id p = p.challenge_id == challenge_id

abbrev pub is_version_of : Uuid → JudgeProfileVersion → Bool
is_version_of challenge_id v = v.challenge_id == challenge_id

-- `order_by(created_at.asc(), id.asc())`
abbrev pub older : JudgeProfile → JudgeProfile → Bool
older = lexicographic (λ a b. ltb a.created_at b.created_at) (λ a b. leb a.id b.id)

-- `func.max` of the version numbers, or 0 where there are none
unfoldable pub max_version : List JudgeProfileVersion → ℕ
max_version [] = 0
max_version (v ∷ vs) = max_of v.version_number (max_version vs)

abbrev pub deactivate : Uuid → JudgeProfileVersion → JudgeProfileVersion
deactivate challenge_id v =
    if is_version_of challenge_id v then record v { is_active = false } else v

-- The new row, and the table.
unfoldable pub create_judge_profile_version_snapshot :
    Engine
    → List JudgeProfile
    → List JudgeProfileVersion
    → Uuid
    → (activate : Bool) → JudgeProfileVersion × List JudgeProfileVersion
unfolding max_version serialize_judge_profile
create_judge_profile_version_snapshot db profiles versions challenge_id activate =
    let payload =
      map serialize_judge_profile
        (sort older (db.select JudgeProfile (is_profile_of challenge_id) profiles)) in
    let latest =
      max_version (db.select JudgeProfileVersion (is_version_of challenge_id) versions) in
    let kept = if activate then map (deactivate challenge_id) versions else versions in
    let row : JudgeProfileVersion = record {
      challenge_id = challenge_id;
      version_number = suc latest;
      is_active = activate;
      lock_version = 1;
      profiles_payload = payload;
    } in
    (row, kept ++ row ∷ [])
