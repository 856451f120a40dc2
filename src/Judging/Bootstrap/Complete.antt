-- ===== src/Judging/Bootstrap/Complete.antt =====
-- The panel that app/orchestrator/judge_bootstrap.py seeds is complete, and is seeded once.
use mathlib.Core.List.{Memᴰ}
use mathlib.Core.List.Memᴰ
use why_combinator.Prelude.Members.{Memᴰ-perm, All-of}
use why_combinator.Prelude.Sort.{sort-perm}
use mathlib.Core.List.Permᴰ
use why_combinator.Prelude.{
  ◌≡◌, refl, sym, ◌∙◌, ap, subst, inl, inr, String, Bool, true, false, not, ◌&&◌, ◌||◌, List, [],
  ◌∷◌, ◌++◌, arith, append-nil, nat_has_eq, text_has_eq, ==-refl, any, All, any-append, Bool-cases,
}
use why_combinator.Platform.Sql.{Engine, any-select}
use why_combinator.Db.Models.{Uuid, Instant}
use why_combinator.Db.Tables.{Memᴰ-loaded}
use why_combinator.Judging.Versioning.{
  JudgeProfile, JudgeProfileVersion, is_profile_of, older, serialize_judge_profile,
  create_judge_profile_version_snapshot,
}
use why_combinator.Judging.Versioning.Numbered.{IsVersioned, snapshot_lem}
use why_combinator.Judging.Bootstrap.{
  default_judge_panel, needs_compliance_judge, has_domain, seed_panel, seed_compliance,
  seed_default_judge_panel_if_incomplete,
}

-- A profile of the challenge for the domain.
abbrev pub judges : Uuid → String → JudgeProfile → Bool
judges c domain p = is_profile_of c p && has_domain domain p

module _ (lower : String → String) (db : Engine) (ids : String → Uuid) (now : Instant)
    (c : Uuid) where
  panel-has :
      (existing : List JudgeProfile) (entries : List (String × String × String))
      (entry : String × String × String)
      → Memᴰ entry entries
      → (any (has_domain entry.0) existing
          || any (judges c entry.0) (seed_panel lower db ids now c existing entries))
        ≡ true
  unfolding seed_panel
  panel-has existing [] entry m = absurd (Memᴰ.not-nil m)
  panel-has existing (e ∷ entries) entry m = elim (Memᴰ.cases_cons m) [
    | inl here ↦ rw here (ground (arith, ==-refl c, ==-refl e.0))
    | inr there ↦ ground (arith, panel-has existing entries entry there)
  ]

  panel-new :
      (existing : List JudgeProfile) (entries : List (String × String × String)) (p : JudgeProfile)
      → Memᴰ p (seed_panel lower db ids now c existing entries)
      → (p.challenge_id ≡ c) × (any (has_domain p.domain) existing ≡ false)
  unfolding seed_panel
  panel-new existing [] p m = absurd (Memᴰ.not-nil m)
  panel-new existing (e ∷ entries) p m = elim (Bool-cases (any (has_domain e.0) existing)) [
    | inl t ↦ panel-new existing entries p (rw t at m)
    | inr f ↦ elim (Memᴰ.cases_cons (rw f at m)) [
      | inl here ↦ rw here (refl, f)
      | inr there ↦ panel-new existing entries p there
    ]
  ]

  panel-nil :
      (existing : List JudgeProfile) (entries : List (String × String × String))
      → ((entry : String × String × String)
          → Memᴰ entry entries
          → any (has_domain entry.0) existing ≡ true)
      → seed_panel lower db ids now c existing entries ≡ []
  unfolding seed_panel
  panel-nil existing [] h = refl
  panel-nil existing (e ∷ entries) h =
      rw (h e (Memᴰ.head refl)) (panel-nil existing entries (λ x m. h x (Memᴰ.tail m)))

  abbrev pub made : (prompt : String) → (existing : List JudgeProfile) → List JudgeProfile
  made prompt existing =
      seed_panel lower db ids now c existing default_judge_panel
      ++ seed_compliance lower db ids now c existing prompt

  compliance-new :
      (existing : List JudgeProfile) (prompt : String) (p : JudgeProfile)
      → Memᴰ p (seed_compliance lower db ids now c existing prompt)
      → (p.challenge_id ≡ c) × (any (has_domain p.domain) existing ≡ false)
  unfolding seed_compliance
  compliance-new existing prompt p m =
      elim (Bool-cases
        (not (any (has_domain "compliance") existing) && needs_compliance_judge lower prompt)) [
          | inl t ↦ elim (Memᴰ.cases_cons (rw t at m)) [
            | inl here ↦ rw here (refl, ground (arith, t))
            | inr there ↦ absurd (Memᴰ.not-nil there)
          ]
          | inr f ↦ absurd (Memᴰ.not-nil (rw f at m))
        ]

  compliance-has :
      (existing : List JudgeProfile) (prompt : String)
      → needs_compliance_judge lower prompt ≡ true
      → (any (has_domain "compliance") existing
          || any (judges c "compliance") (seed_compliance lower db ids now c existing prompt))
        ≡ true
  unfolding seed_compliance
  compliance-has existing prompt h = ground (arith, h, ==-refl c)

  compliance-nil :
      (existing : List JudgeProfile) (prompt : String)
      → (needs_compliance_judge lower prompt ≡ true → any (has_domain "compliance") existing ≡ true)
      → seed_compliance lower db ids now c existing prompt ≡ []
  unfolding seed_compliance
  compliance-nil existing prompt h = elim (Bool-cases (needs_compliance_judge lower prompt)) [
    | inl t ↦ rw (t, h t) refl
    | inr f ↦ rw f (ground (arith, f))
  ]

  made-nil :
      (existing : List JudgeProfile) (prompt : String)
      → ((entry : String × String × String)
          → Memᴰ entry default_judge_panel
          → any (has_domain entry.0) existing ≡ true)
      → (needs_compliance_judge lower prompt ≡ true → any (has_domain "compliance") existing ≡ true)
      → made prompt existing ≡ []
  made-nil existing prompt h k =
      rw (panel-nil existing default_judge_panel h, compliance-nil existing prompt k) refl

-- What the flush of created profiles does to the versions.
abbrev pub versions_behind :
    Engine
    → Uuid
    → List JudgeProfile
    → List JudgeProfileVersion
    → List JudgeProfile
    → List JudgeProfileVersion
versions_behind db c profiles versions created =
    let snapshot = create_judge_profile_version_snapshot db (profiles ++ created) versions c true in
    elim created [ [] ↦ versions | _ ∷ _ ↦ snapshot.1 ]

abbrev pub IsInActive : Uuid → List JudgeProfileVersion → JudgeProfile → Type 0
IsInActive c versions p =
    (v : JudgeProfileVersion) × Memᴰ v versions
    × (v.challenge_id ≡ c)
    × (v.is_active ≡ true)
    × Memᴰ (serialize_judge_profile p) v.profiles_payload

in_payload :
    (db : Engine) (c : Uuid) (profiles : List JudgeProfile) (versions : List JudgeProfileVersion)
    (p : JudgeProfile)
    → Memᴰ p profiles
    → p.challenge_id ≡ c
    → Memᴰ
        (serialize_judge_profile p)
        (create_judge_profile_version_snapshot db profiles versions c true).0.profiles_payload
unfolding create_judge_profile_version_snapshot
in_payload db c profiles versions p m e =
    let loaded = Memᴰ-loaded db (is_profile_of c) profiles m (rw e (==-refl c)) in
    Memᴰ.map serialize_judge_profile (
      Memᴰ-perm (Permᴰ.symm (sort-perm older (db.select JudgeProfile (is_profile_of c) profiles)))
        loaded)

behind-IsVersioned :
    (db : Engine) (c : Uuid) (profiles : List JudgeProfile) (versions : List JudgeProfileVersion)
    (created : List JudgeProfile)
    → IsVersioned versions
    → ((p : JudgeProfile) → Memᴰ p created → p.challenge_id ≡ c)
    → IsVersioned (versions_behind db c profiles versions created)
      × ((p : JudgeProfile)
          → Memᴰ p created
          → IsInActive c (versions_behind db c profiles versions created) p)
behind-IsVersioned db c profiles versions [] h own = (h, λ p m. absurd (Memᴰ.not-nil m))
behind-IsVersioned db c profiles versions (x ∷ xs) h own =
    let (row, versions') =
      create_judge_profile_version_snapshot db (profiles ++ x ∷ xs) versions c true in
    let (versioned, there, of_c, active, _, _, _) =
      snapshot_lem db (profiles ++ x ∷ xs) versions c true h in
    (
      versioned,
      λ p m. (
        row,
        there,
        of_c,
        active,
        in_payload db c (profiles ++ x ∷ xs) versions p (Memᴰ.append_right profiles m) (own p m),
      ),
    )

settled :
    (lower : String → String) (db : Engine) (ids : String → Uuid) (now : Instant) (c : Uuid)
    (prompt : String) (profiles : List JudgeProfile) (versions : List JudgeProfileVersion)
    → ((entry : String × String × String)
        → Memᴰ entry default_judge_panel
        → any (judges c entry.0) profiles ≡ true)
    → (needs_compliance_judge lower prompt ≡ true → any (judges c "compliance") profiles ≡ true)
    → seed_default_judge_panel_if_incomplete lower db ids now c prompt profiles versions
      ≡ ([], profiles, versions)
unfolding seed_default_judge_panel_if_incomplete
settled lower db ids now c prompt profiles versions h k =
    let existing = db.select JudgeProfile (is_profile_of c) profiles in
    let nothing : made lower db ids now c prompt existing ≡ [] =
      made-nil lower db ids now c existing prompt
        (λ entry m. any-select db (has_domain entry.0) (is_profile_of c) profiles ∙ h entry m)
        (λ t. any-select db (has_domain "compliance") (is_profile_of c) profiles ∙ k t) in
    subst
      (λ l.
        ◌≡◌ {A = List JudgeProfile × List JudgeProfile × List JudgeProfileVersion}
          (l, profiles ++ l, versions_behind db c profiles versions l) ([], profiles, versions))
      (sym nothing) (ap (λ l. ([], l, versions)) (append-nil profiles))

-- After seeding, the challenge has a judge of every domain of the default panel, whatever its versions are.
pub panel_complete :
    (lower : String → String) (db : Engine) (ids : String → Uuid) (now : Instant) (c : Uuid)
    (prompt : String) (profiles : List JudgeProfile) (versions : List JudgeProfileVersion)
    (entry : String × String × String)
    → Memᴰ entry default_judge_panel
    → any
        (judges c entry.0)
        (seed_default_judge_panel_if_incomplete lower db ids now c prompt profiles versions).1
      ≡ true
unfolding seed_default_judge_panel_if_incomplete
panel_complete lower db ids now c prompt profiles versions entry m =
    let existing = db.select JudgeProfile (is_profile_of c) profiles in
    let panel = seed_panel lower db ids now c existing default_judge_panel in
    let compliance = seed_compliance lower db ids now c existing prompt in
    any-append (judges c entry.0) profiles (panel ++ compliance)
    ∙ rw (any-append (judges c entry.0) panel compliance) (
        ground (
          arith,
          any-select db (has_domain entry.0) (is_profile_of c) profiles,
          panel-has lower db ids now c existing default_judge_panel entry m,
        ))

-- Where no challenge has two active versions or two versions of one number: after seeding, the challenge
-- has a judge of every domain of the default panel, and one for compliance if its prompt asks for it.
-- Only judges of the challenge have been added, for domains in which it had none. If one has been added,
-- the challenge has one active version, which holds every added judge; and the versions still have one
-- number each and one active version for each challenge. Seeding once more adds nothing and changes nothing.
pub seed_complete :
    (lower : String → String) (db : Engine) (ids ids' : String → Uuid) (now now' : Instant)
    (c : Uuid) (prompt : String) (profiles : List JudgeProfile)
    (versions : List JudgeProfileVersion)
    → IsVersioned versions
    → let (created, profiles', versions') =
        seed_default_judge_panel_if_incomplete lower db ids now c prompt profiles versions in
      All
        (λ (entry : String × String × String). any (judges c entry.0) profiles' ≡ true)
        default_judge_panel
      × ((needs_compliance_judge lower prompt && not (any (judges c "compliance") profiles'))
          ≡ false)
      × (profiles' ≡ profiles ++ created)
      × All (λ p. (p.challenge_id ≡ c) × (any (judges c p.domain) profiles ≡ false)) created
      × IsVersioned versions'
      × All (IsInActive c versions') created
      × (seed_default_judge_panel_if_incomplete lower db ids' now' c prompt profiles' versions'
          ≡ ([], profiles', versions'))
unfolding seed_default_judge_panel_if_incomplete
seed_complete lower db ids ids' now now' c prompt profiles versions h =
    let (created, profiles', versions') =
      seed_default_judge_panel_if_incomplete lower db ids now c prompt profiles versions in
    let existing = db.select JudgeProfile (is_profile_of c) profiles in
    let panel = seed_panel lower db ids now c existing default_judge_panel in
    let compliance = seed_compliance lower db ids now c existing prompt in
    let has = λ (d : String).
      let e : any (judges c d) (profiles ++ (panel ++ compliance)) ≡ (
          any (has_domain d) existing || (any (judges c d) panel || any (judges c d) compliance)) =
        any-append (judges c d) profiles (panel ++ compliance)
        ∙ rw
            (
              any-append (judges c d) panel compliance,
              any-select db (has_domain d) (is_profile_of c) profiles,
            )
            refl in
      e in
    let all = λ (entry : String × String × String) (m : Memᴰ entry default_judge_panel).
      let e : any (judges c entry.0) (profiles ++ (panel ++ compliance)) ≡ true =
        has entry.0
        ∙ ground (arith, panel-has lower db ids now c existing default_judge_panel entry m) in
      e in
    let regulated = λ (t : needs_compliance_judge lower prompt ≡ true).
      let e : any (judges c "compliance") (profiles ++ (panel ++ compliance)) ≡ true =
        has "compliance" ∙ ground (arith, compliance-has lower db ids now c existing prompt t) in
      e in
    let new = λ (p : JudgeProfile) (m : Memᴰ p (panel ++ compliance)).
      let cases : (p.challenge_id ≡ c) × (any (has_domain p.domain) existing ≡ false) =
        elim (Memᴰ.append_cases panel m) [
          | inl l ↦ panel-new lower db ids now c existing default_judge_panel p l
          | inr r ↦ compliance-new lower db ids now c existing prompt p r
        ] in
      let e : (p.challenge_id ≡ c) × (any (judges c p.domain) profiles ≡ false) =
        (cases.0, sym (any-select db (has_domain p.domain) (is_profile_of c) profiles) ∙ cases.1) in
      e in
    let (versioned, active) =
      behind-IsVersioned db c profiles versions (panel ++ compliance) h (λ p m. (new p m).0) in
    let regulated_now : (needs_compliance_judge lower prompt
          && not (any (judges c "compliance") profiles'))
        ≡ false =
      ground (arith, regulated) in
    (
      All-of (λ (entry : String × String × String). any (judges c entry.0) profiles' ≡ true)
          default_judge_panel all,
      regulated_now,
      refl,
      All-of (λ p. (p.challenge_id ≡ c) × (any (judges c p.domain) profiles ≡ false)) created new,
      versioned,
      All-of (IsInActive c versions') created active,
      settled lower db ids' now' c prompt profiles' versions' all regulated,
    )
