-- ===== src/Db/Enums.antt =====
-- app/db/enums.py: the states and roles, with the equality that the program tests them by.
use why_combinator.Prelude.{ℕ, ◌≡◌, ◌↔◌, Bool, true, arith, HasEq, nat_beq}

pub data RunState : Type 0 where
  created running canceling completed canceled failed : RunState

pub data AgentRole : Type 0 where
  hacker subagent judge : AgentRole

pub data SubmissionState : Type 0 where
  pending scored accepted rejected : SubmissionState

abbrev run_state_code : RunState → ℕ
run_state_code created = 0
run_state_code running = 1
run_state_code canceling = 2
run_state_code completed = 3
run_state_code canceled = 4
run_state_code failed = 5

abbrev agent_role_code : AgentRole → ℕ
agent_role_code hacker = 0
agent_role_code subagent = 1
agent_role_code judge = 2

abbrev submission_state_code : SubmissionState → ℕ
submission_state_code pending = 0
submission_state_code scored = 1
submission_state_code accepted = 2
submission_state_code rejected = 3

abbrev pub run_state_beq : RunState → RunState → Bool
run_state_beq a b = nat_beq (run_state_code a) (run_state_code b)

abbrev pub agent_role_beq : AgentRole → AgentRole → Bool
agent_role_beq a b = nat_beq (agent_role_code a) (agent_role_code b)

abbrev pub submission_state_beq : SubmissionState → SubmissionState → Bool
submission_state_beq a b = nat_beq (submission_state_code a) (submission_state_code b)

pub run_state_beq_iff : (a b : RunState) → (run_state_beq a b ≡ true) ↔ (a ≡ b)
run_state_beq_iff a b = ground arith

pub agent_role_beq_iff : (a b : AgentRole) → (agent_role_beq a b ≡ true) ↔ (a ≡ b)
agent_role_beq_iff a b = ground arith

pub submission_state_beq_iff : (a b : SubmissionState) → (submission_state_beq a b ≡ true) ↔ (a ≡ b)
submission_state_beq_iff a b = ground arith

instance abbrev pub run_state_has_eq : HasEq RunState
run_state_has_eq = record { same = run_state_beq; same_iff = run_state_beq_iff }

instance abbrev pub agent_role_has_eq : HasEq AgentRole
agent_role_has_eq = record { same = agent_role_beq; same_iff = agent_role_beq_iff }

instance abbrev pub submission_state_has_eq : HasEq SubmissionState
submission_state_has_eq = record {
  same = submission_state_beq;
  same_iff = submission_state_beq_iff;
}
