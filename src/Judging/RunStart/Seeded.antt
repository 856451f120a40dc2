-- ===== src/Judging/RunStart/Seeded.antt =====
-- When the check of app/orchestrator/run_validation.py passes, and that it does behind a seeded panel.
use mathlib.Core.List.{Memᴰ}
use why_combinator.Prelude.{
  ◌≡◌, ◌↔◌, refl, sym, ◌∙◌, inl, inr, String, Bool, true, false, List, [], ◌∷◌, arith, nat_has_eq,
  text_has_eq, ==→eq, ==-refl, any, any-count, length, leb, if◌then◌else◌, ok, raise, raise-ne-ok,
  Bool-cases,
}
use why_combinator.Prelude.Members.{any-Memᴰ}
use why_combinator.Platform.Sql.{Engine, length-select}
use why_combinator.Db.Models.{Uuid, Instant}
use why_combinator.Judging.Versioning.{JudgeProfile, JudgeProfileVersion}
use why_combinator.Judging.Bootstrap.{seed_default_judge_panel_if_incomplete}
use why_combinator.Judging.Bootstrap.Complete.{judges, panel_complete}
use why_combinator.Judging.RunStart.{
  no_domain_expert, is_domain_expert, validate_domain_expert_judge_present,
}

found :
    {A : Type 0} (p : A → Bool) (xs : List A) → any p xs ≡ true → (a : A) × Memᴰ a xs × (p a ≡ true)
found p [] t = absurd (let clash : false ≡ true = t in cc)
found p (x ∷ xs) t = elim (Bool-cases (p x)) [
  | inl h ↦ (x, Memᴰ.head refl, h)
  | inr n ↦
      let rest : any p xs ≡ true = ground (arith, n, t) in
      let (a, m, h) = found p xs rest in (a, Memᴰ.tail m, h)
]

-- The challenge has a judge whose domain is "domain_expert" in the lower case of the database.
abbrev pub HasExpert : (lower : String → String) → Uuid → List JudgeProfile → Type 0
HasExpert lower c profiles =
    (p : JudgeProfile) × Memᴰ p profiles × (p.challenge_id ≡ c) × (lower p.domain ≡ "domain_expert")

module _ (lower : String → String) (db : Engine) (profiles : List JudgeProfile) (c : Uuid) where
  validate_lem :
      validate_domain_expert_judge_present lower db profiles c
      ≡ (if any (is_domain_expert lower c) profiles then ok tt else raise no_domain_expert)
  unfolding validate_domain_expert_judge_present
  validate_lem =
      let same : leb 1 (length (db.select JudgeProfile (is_domain_expert lower c) profiles))
          ≡ any (is_domain_expert lower c) profiles =
        ground (
          arith,
          any-count (is_domain_expert lower c) profiles,
          length-select db (is_domain_expert lower c) profiles,
        ) in
      rw same refl

  passes_iff :
      (validate_domain_expert_judge_present lower db profiles c ≡ ok tt)
      ↔ HasExpert lower c profiles
  passes_iff = (
    λ h. elim (Bool-cases (any (is_domain_expert lower c) profiles)) [
      | inl t ↦
          let (p, m, e) = found (is_domain_expert lower c) profiles t in
          (
            p,
            m,
            ==→eq p.challenge_id c (ground (arith, e)),
            ==→eq (lower p.domain) "domain_expert" (ground (arith, e)),
          )
      | inr f ↦ absurd (raise-ne-ok no_domain_expert tt (rw f at (sym validate_lem ∙ h)))
    ],
    λ (p, m, e, d).
        let expert : is_domain_expert lower c p ≡ true = rw (e, d) (ground (arith, ==-refl c)) in
        let there : any (is_domain_expert lower c) profiles ≡ true =
          any-Memᴰ (is_domain_expert lower c) profiles m expert in
        validate_lem ∙ rw there refl,
  )

-- The check before a run passes exactly if the challenge has a judge whose domain is "domain_expert" in the
-- lower case of the database. Once the panel of a challenge has been seeded, whatever judges and versions it
-- had before, it passes, if the database leaves the text "domain_expert" as it is in lower case.
pub seeded_passes :
    (lower lower_sql : String → String) (db : Engine) (ids : String → Uuid) (now : Instant)
    (c : Uuid) (prompt : String) (profiles : List JudgeProfile)
    (versions : List JudgeProfileVersion)
    → lower_sql "domain_expert" ≡ "domain_expert"
    → let (created, profiles', versions') =
        seed_default_judge_panel_if_incomplete lower db ids now c prompt profiles versions in
      ((validate_domain_expert_judge_present lower_sql db profiles c ≡ ok tt)
        ↔ HasExpert lower_sql c profiles)
      × (validate_domain_expert_judge_present lower_sql db profiles' c ≡ ok tt)
seeded_passes lower lower_sql db ids now c prompt profiles versions same =
    let (created, profiles', versions') =
      seed_default_judge_panel_if_incomplete lower db ids now c prompt profiles versions in
    let (p, m, t) =
      found (judges c "domain_expert") profiles'
        (panel_complete lower db ids now c prompt profiles versions _ (Memᴰ.head refl)) in
    let domain : p.domain ≡ "domain_expert" = ==→eq p.domain "domain_expert" (ground (arith, t)) in
    let own : p.challenge_id ≡ c = ==→eq p.challenge_id c (ground (arith, t)) in
    let lowered : lower_sql p.domain ≡ "domain_expert" = rw domain same in
    (
      passes_iff lower_sql db profiles c,
      (passes_iff lower_sql db profiles' c).1 (p, m, own, lowered),
    )
