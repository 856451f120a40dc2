-- ===== src/Scoring/Penalties.antt =====
-- `generate_non_production_penalties` of app/scoring/penalties.py
use why_combinator.Prelude.{
  ℕ, ◌+◌, ◌≡◌, ==-refl, ==→eq, Bool-cases, inl, inr, refl, sym, ◌∙◌, ap, String, Bool, true, false,
  not, ◌&&◌, List, [], ◌∷◌, ◌++◌, map, arith, ltb, max_of, if◌then◌else◌, ◌==◌, nat_has_eq,
  text_has_eq, length, count, any, any-count, any-map, count-append,
}
use why_combinator.Platform.Sql.{Engine, length-select, any-select}
use why_combinator.Platform.Floats.{Floats}
use why_combinator.Db.Enums.{accepted, submission_state_has_eq}
use why_combinator.Db.Models.{Uuid, Agent, Submission, PenaltyEvent}

abbrev pub of_agent : Uuid → Uuid → Submission → Bool
of_agent run_id agent_id s = (s.run_id == run_id) && (s.agent_id == agent_id)

abbrev pub accepted_of : Uuid → Uuid → Submission → Bool
accepted_of run_id agent_id s = of_agent run_id agent_id s && (s.state == accepted)

-- The `where` of the query for an event that the submission already has.
abbrev pub is_non_production : {Float : Type 0} → String → Uuid → PenaltyEvent Float → Bool
is_non_production checkpoint_id submission_id e =
    (e.submission_id == submission_id)
    && ((e.checkpoint_id == checkpoint_id) && (e.penalty_type == "non_production"))

-- `penalty_value` and `heavy_multiplier` are NON_PRODUCTION_PENALTY_VALUE and
-- NON_PRODUCTION_PENALTY_MULTIPLIER.
module _ (floats : Floats) (db : Engine) (penalty_value heavy_multiplier : floats.Float)
    (checkpoint_id : String) where
  open floats use {Float, mul}

  unfoldable pub non_production_event : Uuid → PenaltyEvent Float
  non_production_event submission_id = record {
    submission_id = submission_id;
    checkpoint_id = checkpoint_id;
    source = "run_completion_non_production";
    penalty_type = "non_production";
    value = mul penalty_value heavy_multiplier;
    explanation = "agent produced zero accepted submissions by run end";
  }

  abbrev pub Events : Type 0
  Events = List (PenaltyEvent Float)

  -- `for submission in submissions`: the events created so far, and the table of events, which every
  -- query sees with what the session has added to it.
  unfoldable pub penalize : List Submission → Events × Events → Events × Events
  penalize [] (created, events) = (created, events)
  penalize (s ∷ ss) (created, events) =
      let found = db.select (PenaltyEvent Float) (is_non_production checkpoint_id s.id) events in
      let event = non_production_event s.id in
      penalize ss (
        if ltb 0 (length found)
        then (created, events)
        else (created ++ event ∷ [], events ++ event ∷ []))

  -- `for agent_id in agent_ids`
  unfoldable pub penalize_agents :
      List Submission → Uuid → List Uuid → Events × Events → Events × Events
  penalize_agents submissions run_id [] state = state
  penalize_agents submissions run_id (agent_id ∷ agent_ids) state =
      let accepted_count =
        length (db.select Submission (accepted_of run_id agent_id) submissions) in
      penalize_agents submissions run_id agent_ids (
        if ltb 0 accepted_count
        then state
        else penalize (db.select Submission (of_agent run_id agent_id) submissions) state)

  -- The created events, and the table with them.
  unfoldable pub generate_non_production_penalties :
      List Agent → List Submission → Events → Uuid → Events × Events
  generate_non_production_penalties agents submissions events run_id =
      let agent_ids =
        map (λ (a : Agent). a.id) (db.select Agent (λ a. a.run_id == run_id) agents) in
      penalize_agents submissions run_id agent_ids ([], events)

  abbrev pub penalties_of : Uuid → Events → ℕ
  penalties_of i events = count (is_non_production checkpoint_id i) events

  count_event :
      (i : Uuid) (events : Events) (s : Uuid)
      → penalties_of i (events ++ non_production_event s ∷ [])
        ≡ (if s == i then penalties_of i events + 1 else penalties_of i events)
  unfolding non_production_event
  count_event i events s = ground (
    arith,
    count-append (is_non_production checkpoint_id i) events (non_production_event s ∷ []),
    ==-refl checkpoint_id,
  )

  penalize_count :
      (i : Uuid) (rows : List Submission) (created events : Events)
      → penalties_of i (penalize rows (created, events)).1 ≡ (
          if any (λ s. s.id == i) rows
          then max_of 1 (penalties_of i events)
          else penalties_of i events)
  unfolding penalize
  penalize_count i [] created events = refl
  penalize_count i (s ∷ ss) created events =
      let event = non_production_event s.id in
      let size = length-select db (is_non_production checkpoint_id s.id) events in
      let own : (s.id == i) ≡ true → penalties_of s.id events ≡ penalties_of i events =
        λ e. ap (λ x. penalties_of x events) (==→eq s.id i e) in
      elim (Bool-cases (ltb 0 (penalties_of s.id events))) [
        | inl t ↦
            let found : ltb 0 (
                  length
                    (db.select (PenaltyEvent Float) (is_non_production checkpoint_id s.id) events))
                ≡ true =
              rw size t in
            rw (found, penalize) (penalize_count i ss created events ∙ ground (arith, own, t))
        | inr f ↦
            let missing : ltb 0 (
                  length
                    (db.select (PenaltyEvent Float) (is_non_production checkpoint_id s.id) events))
                ≡ false =
              rw size f in
            rw (missing, penalize)
              (penalize_count i ss (created ++ event ∷ []) (events ++ event ∷ [])
                ∙ ground (arith, own, f, count_event i events s.id))
      ]

  -- The agent has no accepted submission in the run, and one with this id.
  abbrev pub is_unproductive : List Submission → Uuid → Uuid → Uuid → Bool
  is_unproductive submissions run_id i agent_id =
      not (any (accepted_of run_id agent_id) submissions)
      && any (λ s. of_agent run_id agent_id s && (s.id == i)) submissions

  penalize_agents_count :
      (i : Uuid) (submissions : List Submission) (run_id : Uuid) (agent_ids : List Uuid)
      (created events : Events)
      → penalties_of i (penalize_agents submissions run_id agent_ids (created, events)).1 ≡ (
          if any (is_unproductive submissions run_id i) agent_ids
          then max_of 1 (penalties_of i events)
          else penalties_of i events)
  unfolding penalize_agents
  penalize_agents_count i submissions run_id [] created events = refl
  penalize_agents_count i submissions run_id (a ∷ agent_ids) created events =
      let rows = db.select Submission (of_agent run_id a) submissions in
      let next = penalize rows (created, events) in
      let has = any (accepted_of run_id a) submissions in
      let size : ltb 0 (length (db.select Submission (accepted_of run_id a) submissions)) ≡ has =
        ap (ltb 0) (length-select db (accepted_of run_id a) submissions)
        ∙ sym (any-count (accepted_of run_id a) submissions) in
      let mine = any-select db (λ s. s.id == i) (of_agent run_id a) submissions in
      elim (Bool-cases has) [
        | inl t ↦
            rw (size ∙ t, penalize_agents)
              (penalize_agents_count i submissions run_id agent_ids created events
                ∙ ground (arith, t))
        | inr f ↦
            rw (size ∙ f, penalize_agents)
              (penalize_agents_count i submissions run_id agent_ids next.0 next.1
                ∙ ground (arith, f, penalize_count i rows created events, mine))
      ]

  -- After the penalties have been generated, a submission has one for the checkpoint if it had one or its
  -- agent belongs to the run and has no accepted submission in it; it then has as many as before, or
  -- exactly one if it had none. Every other submission has as many as before.
  pub penalties_lem :
      (agents : List Agent) (submissions : List Submission) (events : Events) (run_id i : Uuid)
      → penalties_of i (generate_non_production_penalties agents submissions events run_id).1 ≡ (
          if any (λ a. (a.run_id == run_id) && is_unproductive submissions run_id i a.id) agents
          then max_of 1 (penalties_of i events)
          else penalties_of i events)
  unfolding generate_non_production_penalties
  penalties_lem agents submissions events run_id i =
      let rows = db.select Agent (λ a. a.run_id == run_id) agents in
      let test = is_unproductive submissions run_id i in
      penalize_agents_count i submissions run_id (map (λ (a : Agent). a.id) rows) [] events
      ∙ ap (λ b. if b then max_of 1 (penalties_of i events) else penalties_of i events)
          (any-map test (λ (a : Agent). a.id) rows
            ∙ any-select db (λ a. test a.id) (λ a. a.run_id == run_id) agents)
