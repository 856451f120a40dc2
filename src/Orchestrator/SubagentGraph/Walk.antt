-- ===== src/Orchestrator/SubagentGraph/Walk.antt =====
-- What a walk and a cycle are, over any test for edges, and what one more edge adds.
use why_combinator.Prelude.{◌≡◌, ◌⊎◌, inl, inr, Bool, true, ◌&&◌, ◌||◌, arith, ◌==◌, nat_has_eq}
use why_combinator.Db.Models.{Uuid}

abbrev pub Edges : Type 0
Edges = Uuid → Uuid → Bool

-- Walks of any length from `start`.
pub data Reach (edge : Edges) (start : Uuid) : Uuid → Type 0 where
  here : Reach edge start start
  step : {u v : Uuid} → Reach edge start u → edge u v ≡ true → Reach edge start v

-- No edge leads to a vertex from which a walk leads back.
abbrev pub IsAcyclic : Edges → Type 0
IsAcyclic edge = (u v : Uuid) → edge u v ≡ true → ¬ Reach edge v u

module _ {edge : Edges} where
  pub Reach-trans : {a b c : Uuid} → Reach edge a b → Reach edge b c → Reach edge a c
  Reach-trans r here = r
  Reach-trans r (step s e) = step (Reach-trans r s) e

  pub Reach-first : {a b c : Uuid} → edge a b ≡ true → Reach edge b c → Reach edge a c
  Reach-first e r = Reach-trans (step here e) r

module _ {edge wider : Edges} (sub : (u v : Uuid) → edge u v ≡ true → wider u v ≡ true) where
  pub Reach-mono : {a b : Uuid} → Reach edge a b → Reach wider a b
  Reach-mono here = here
  Reach-mono (step {u} {v} r e) = step (Reach-mono r) (sub u v e)

-- The edges with one more, from `p` to `c`.
abbrev pub plus : Edges → Uuid → Uuid → Edges
plus edge p c u v = edge u v || (p == u && c == v)

plus_cases :
    (edge : Edges) (p c u v : Uuid)
    → plus edge p c u v ≡ true
    → (edge u v ≡ true) ⊎ ((u ≡ p) × (v ≡ c))
plus_cases edge p c u v e = ground arith

module _ {edge : Edges} {p c : Uuid} where
  -- A walk with the new edge, cut at its first and behind its last use.
  Reach-plus :
      {a b : Uuid} → Reach (plus edge p c) a b → Reach edge a b ⊎ (Reach edge a p × Reach edge c b)
  Reach-plus here = inl here
  Reach-plus {a} (step {u} {v} r e) =
      let before = Reach-plus r in
      elim (plus_cases edge p c u v e) [
        | inl old ↦ elim before [
          | inl r' ↦ inl (step r' old)
          | inr (to_p, from_c) ↦ inr (to_p, step from_c old)
        ]
        | inr (at_p, at_c) ↦ elim before [
          | inl r' ↦ inr (rw at_p at r', rw at_c here)
          | inr (to_p, _) ↦ inr (to_p, rw at_c here)
        ]
      ]

  pub plus-IsAcyclic : IsAcyclic edge → ¬ Reach edge c p → IsAcyclic (plus edge p c)
  plus-IsAcyclic acyclic apart u v e back =
      let walk = Reach-plus back in
      elim (plus_cases edge p c u v e) [
        | inl old ↦ elim walk [
          | inl r ↦ acyclic u v old r
          | inr (to_p, from_c) ↦ apart (Reach-trans (step from_c old) to_p)
        ]
        | inr (at_p, at_c) ↦ elim walk [
          | inl r ↦ apart (rw (at_p, at_c) at r)
          | inr (to_p, _) ↦ apart (rw at_c at to_p)
        ]
      ]

  pub IsAcyclic-plus : IsAcyclic (plus edge p c) → ¬ Reach edge c p
  IsAcyclic-plus acyclic r = acyclic p c (ground arith) (Reach-mono (λ u v h. ground arith) r)
