-- ===== src/Orchestrator/RunCompletion/Attempts.antt =====
-- What the two loops of the completion do to the submissions.
use mathlib.Core.List.{Memᴰ}
use why_combinator.Prelude.{
  ℕ, suc, ◌≡◌, refl, ◌∙◌, ap, inl, inr, String, Bool, true, false, none, List, [], ◌∷◌, ◌++◌, map,
  arith, head?, if◌then◌else◌, ◌==◌, nat_has_eq, ==→eq, ==-refl, Option-cases, &&-true, any,
  any-append, All, ok,
}
use why_combinator.Prelude.Members.{All-of, any-Memᴰ, Memᴰ-head?}
use why_combinator.Platform.Sql.{Engine}
use why_combinator.Db.Enums.{pending, rejected, submission_state_has_eq}
use why_combinator.Db.Models.{Uuid, Instant, Agent, Submission}
use why_combinator.Db.Tables.{replace, change_all, change_all_loaded, IsKeyed, Memᴰ-select}
use why_combinator.Validation.SubmissionState.{apply_submission_state_transition}
use why_combinator.Scoring.Penalties.{of_agent}
use why_combinator.Leaderboard.Materializer.Ranking.{submission_key}
use why_combinator.Orchestrator.RunCompletion.{
  is_pending_of, auto_attempt, record_attempts, reject_all,
}

abbrev pub reject : Submission → Submission
reject s = record s { state = rejected; accepted_at = none }

module _ (now : Instant) where
  reject-pending :
      (s : Submission)
      → (s.state == pending) ≡ true
      → apply_submission_state_transition s rejected now ≡ ok (reject s)
  unfolding apply_submission_state_transition
  reject-pending s h = let e : s.state ≡ pending = ==→eq s.state pending h in rw e refl

  reject_all_changes :
      (rows table : List Submission)
      → All (λ s. (s.state == pending) ≡ true) rows
      → reject_all now rows table ≡ ok (change_all submission_key reject rows table)
  unfolding reject_all change_all
  reject_all_changes [] table h = refl
  reject_all_changes (s ∷ ss) table h =
      rw (reject-pending s h.0, reject_all)
        (reject_all_changes ss (replace submission_key (reject s) table) h.1)

  -- The pending submissions of the run are rejected, and no others.
  pub reject_all_lem :
      (db : Engine) (run_id : Uuid) (table : List Submission)
      → IsKeyed submission_key table
      → reject_all now (db.select Submission (is_pending_of run_id) table) table
        ≡ ok (map (λ s. if is_pending_of run_id s then reject s else s) table)
  reject_all_lem db run_id table keyed =
      let rows = db.select Submission (is_pending_of run_id) table in
      let all_pending =
        All-of (λ s. (s.state == pending) ≡ true) rows
          (λ s m.
            (&&-true (s.run_id == run_id) (s.state == pending)
              (Memᴰ-select db (is_pending_of run_id) table m).1).1) in
      reject_all_changes rows table all_pending
      ∙ ap ok (
          change_all_loaded submission_key reject (λ s. refl) db (is_pending_of run_id) table keyed)

pub none_pending :
    (run_id : Uuid) (table : List Submission)
    → any (is_pending_of run_id) (map (λ s. if is_pending_of run_id s then reject s else s) table)
      ≡ false
none_pending run_id [] = refl
none_pending run_id (s ∷ ss) = ground (arith, none_pending run_id ss)

pub any-rejected :
    (p : Submission → Bool) (q : Submission → Bool) (table : List Submission)
    → ((s : Submission) → p (reject s) ≡ p s)
    → any p (map (λ s. if q s then reject s else s) table) ≡ any p table
any-rejected p q [] h = refl
any-rejected p q (s ∷ ss) h = ground (arith, h s, any-rejected p q ss h)

module _ (db : Engine) (summarize : String → String → String) (attempt_id : Uuid → Uuid) where
  -- A submission that was there still is.
  attempts_keep :
      (p : Submission → Bool) (prompt : String) (run_id : Uuid) (hackers : List Agent) (n : ℕ)
      (submissions : List Submission)
      → any p submissions ≡ true
      → any p (record_attempts db summarize attempt_id prompt run_id hackers (n, submissions)).1
        ≡ true
  unfolding record_attempts
  attempts_keep p prompt run_id [] n submissions h = h
  attempts_keep p prompt run_id (a ∷ hackers) n submissions h =
      let attempt = auto_attempt db summarize attempt_id prompt run_id a in
      elim (Option-cases (head? (db.select Submission (of_agent run_id a.id) submissions))) [
        | inl e ↦
            let still : any p (submissions ++ attempt ∷ []) ≡ true =
              any-append p submissions (attempt ∷ []) ∙ ground (arith, h) in
            rw (e, record_attempts)
              (attempts_keep p prompt run_id hackers (suc n) (submissions ++ attempt ∷ []) still)
        | inr (x, e) ↦
            rw (e, record_attempts) (attempts_keep p prompt run_id hackers n submissions h)
      ]

  auto_attempt-of_agent :
      (prompt : String) (run_id : Uuid) (a : Agent)
      → of_agent run_id a.id (auto_attempt db summarize attempt_id prompt run_id a) ≡ true
  unfolding auto_attempt
  auto_attempt-of_agent prompt run_id a = rw (==-refl run_id, ==-refl a.id) refl

  -- One step gives the hacker a submission.
  attempt_made :
      (prompt : String) (run_id : Uuid) (h : Agent) (hackers : List Agent) (n : ℕ)
      (submissions : List Submission)
      → any
          (of_agent run_id h.id)
          (record_attempts db summarize attempt_id prompt run_id (h ∷ hackers) (n, submissions)).1
        ≡ true
  unfolding record_attempts
  attempt_made prompt run_id h hackers n submissions =
      let p = of_agent run_id h.id in
      let attempt = auto_attempt db summarize attempt_id prompt run_id h in
      elim (Option-cases (head? (db.select Submission p submissions))) [
        | inl e ↦
            let made : any p (submissions ++ attempt ∷ []) ≡ true =
              any-append p submissions (attempt ∷ [])
              ∙ ground (arith, auto_attempt-of_agent prompt run_id h) in
            rw (e, record_attempts)
              (attempts_keep p prompt run_id hackers (suc n) (submissions ++ attempt ∷ []) made)
        | inr (x, e) ↦
            let (m, t) =
              Memᴰ-select db p submissions (Memᴰ-head? (db.select Submission p submissions) e) in
            rw (e, record_attempts)
              (attempts_keep p prompt run_id hackers n submissions (any-Memᴰ p submissions m t))
      ]

  -- Each of the hackers then has a submission.
  pub attempts_complete :
      (prompt : String) (run_id : Uuid) (hackers : List Agent) (n : ℕ)
      (submissions : List Submission) (a : Agent)
      → Memᴰ a hackers
      → any
          (of_agent run_id a.id)
          (record_attempts db summarize attempt_id prompt run_id hackers (n, submissions)).1
        ≡ true
  unfolding record_attempts
  attempts_complete prompt run_id [] n submissions a m = elim m [ ]
  attempts_complete prompt run_id (h ∷ hackers) n submissions a (Memᴰ.head e) =
      rw e (attempt_made prompt run_id h hackers n submissions)
  attempts_complete prompt run_id (h ∷ hackers) n submissions a (Memᴰ.tail m) =
      let attempt = auto_attempt db summarize attempt_id prompt run_id h in
      elim (Option-cases (head? (db.select Submission (of_agent run_id h.id) submissions))) [
        | inl e ↦
            rw (e, record_attempts)
              (attempts_complete prompt run_id hackers (suc n) (submissions ++ attempt ∷ []) a m)
        | inr (x, e) ↦
            rw (e, record_attempts) (attempts_complete prompt run_id hackers n submissions a m)
      ]
