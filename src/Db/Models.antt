-- ===== src/Db/Models.antt =====
-- app/db/models.py: the rows that the modelled operations read or write.
use why_combinator.Prelude.{ℕ, ◌*◌, String, Bool, Option}
use why_combinator.Platform.Json.{Fields}
use why_combinator.Db.Enums.{RunState, SubmissionState, AgentRole}

-- A `uuid.UUID` is its 128-bit number; the canonical text of two of them is ordered as they are.
abbrev pub Uuid : Type 0
Uuid = ℕ

-- A `datetime` is an instant on one time line, in microseconds since the start of the year 1.
abbrev pub Instant : Type 0
Instant = ℕ

pub record Run : Type 0 where
  pub id : Uuid
  pub challenge_id : Uuid
  pub state : RunState
  pub started_at : Option Instant
  pub ended_at : Option Instant

pub record Submission : Type 0 where
  pub id : Uuid
  pub run_id : Uuid
  pub agent_id : Uuid
  pub state : SubmissionState
  pub value_hypothesis : String
  pub summary : String
  pub accepted_at : Option Instant
  pub human_testing_required : Bool

pub record Agent : Type 0 where
  pub id : Uuid
  pub run_id : Uuid
  pub role : AgentRole

pub record SubagentEdge : Type 0 where
  pub run_id : Uuid
  pub parent_agent_id : Uuid
  pub child_agent_id : Uuid
  pub depth : ℕ

-- The columns of type Float are left out here and below.
pub record Challenge : Type 0 where
  pub id : Uuid
  pub title : String
  pub prompt : String
  pub iteration_window_seconds : ℕ
  pub risk_appetite : String
  pub artifact_ttl_override_seconds : Option ℕ

pub record CheckpointSnapshot : Type 0 where
  pub id : Uuid
  pub run_id : Uuid
  pub checkpoint_id : String
  pub captured_at : Instant

-- A snapshot with its JSON columns.
pub record FrozenSnapshot (Float : Type 0) : Type 0 where
  pub snapshot : CheckpointSnapshot
  pub active_weights : Fields Float
  pub active_policies : Fields Float

-- `timedelta(seconds=n)`
abbrev pub seconds : ℕ → ℕ
seconds n = n * 1_000_000

-- The columns of type Float are of the type of the interface Floats.
pub record ScoreEvent (Float : Type 0) : Type 0 where
  pub id : Uuid
  pub submission_id : Uuid
  pub checkpoint_id : String
  pub quality_score : Float
  pub novelty_score : Float
  pub feasibility_score : Float
  pub criteria_score : Float
  pub final_score : Float
  pub payload : Fields Float
  pub payload_checksum : String
  pub created_at : Instant

pub record PenaltyEvent (Float : Type 0) : Type 0 where
  pub submission_id : Uuid
  pub checkpoint_id : String
  pub source : String
  pub penalty_type : String
  pub value : Float
  pub explanation : String

pub record TieBreakMetadata (Float : Type 0) : Type 0 where
  pub accepted_at : Option Instant
  pub total_penalty : Float
  pub submission_id : Uuid

pub record LeaderboardEntry (Float : Type 0) : Type 0 where
  pub run_id : Uuid
  pub submission_id : Uuid
  pub rank : ℕ
  pub final_score : Float
  pub tie_break_metadata : TieBreakMetadata Float

pub record JudgeScore (Float : Type 0) : Type 0 where
  pub id : Uuid
  pub submission_id : Uuid
  pub judge_profile_id : Uuid
  pub checkpoint_id : String
  pub score : Float
  pub rationale : String
  pub raw_response : Fields Float
  pub created_at : Instant

-- A run with what its configuration holds.
pub record ConfiguredRun (Float : Type 0) : Type 0 where
  pub id : Uuid
  pub config_snapshot : Fields Float
