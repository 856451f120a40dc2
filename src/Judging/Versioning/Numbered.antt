-- ===== src/Judging/Versioning/Numbered.antt =====
-- The numbers and the active version of app/judging/versioning.py
use mathlib.Core.List.{Memᴰ}
use mathlib.Core.List.Memᴰ
use why_combinator.Prelude.Members.{Memᴰ-last, any-none, All-of}
use why_combinator.Prelude.{
  ℕ, suc, ◌≤◌, ◌≡◌, refl, ◌∙◌, ap, subst, inl, inr, Bool, true, false, not, ◌&&◌, List, [], ◌∷◌,
  map, arith, filter, filter-append, append-nil, if◌then◌else◌, ◌==◌, nat_has_eq, ==→eq, ==-refl,
  count, count-append, any-count, any, All, leb, Bool-cases,
}
use why_combinator.Platform.Sql.{Engine}
use why_combinator.Db.Models.{Uuid}
use why_combinator.Db.Tables.{Memᴰ-loaded}
use why_combinator.Judging.Versioning.{
  JudgeProfile, JudgeProfileVersion, is_version_of, max_version, deactivate,
  create_judge_profile_version_snapshot,
}

abbrev pub has_number : Uuid → ℕ → JudgeProfileVersion → Bool
has_number c n v = is_version_of c v && (v.version_number == n)

abbrev pub is_active_of : Uuid → JudgeProfileVersion → Bool
is_active_of c v = is_version_of c v && v.is_active

-- No challenge has two versions with one number, which the database refuses, nor two active versions.
pub record IsVersioned (versions : List JudgeProfileVersion) : Type 0 where
  pub one_number : (c : Uuid) (n : ℕ) → count (has_number c n) versions ≤ 1
  pub one_active : (c : Uuid) → count (is_active_of c) versions ≤ 1

max_version-bound :
    (v : JudgeProfileVersion) (vs : List JudgeProfileVersion)
    → Memᴰ v vs
    → v.version_number ≤ max_version vs
unfolding max_version
max_version-bound v [] m = absurd (Memᴰ.not-nil m)
max_version-bound v (x ∷ vs) m = elim (Memᴰ.cases_cons m) [
  | inl here ↦ rw here (ground arith)
  | inr there ↦ ground (arith, max_version-bound v vs there)
]

number-deactivate :
    (c c' : Uuid) (n : ℕ) (vs : List JudgeProfileVersion)
    → count (has_number c' n) (map (deactivate c) vs) ≡ count (has_number c' n) vs
number-deactivate c c' n [] = refl
number-deactivate c c' n (v ∷ vs) = ground (arith, number-deactivate c c' n vs)

active-deactivate :
    (c c' : Uuid) (vs : List JudgeProfileVersion)
    → count (is_active_of c') (map (deactivate c) vs)
      ≡ (if c == c' then 0 else count (is_active_of c') vs)
active-deactivate c c' [] = ground arith
active-deactivate c c' (v ∷ vs) = ground (arith, active-deactivate c c' vs)

others-deactivate :
    (c : Uuid) (vs : List JudgeProfileVersion)
    → filter (λ v. not (is_version_of c v)) (map (deactivate c) vs)
      ≡ filter (λ v. not (is_version_of c v)) vs
others-deactivate c [] = refl
others-deactivate c (v ∷ vs) = elim (Bool-cases (is_version_of c v)) [
  | inl t ↦ rw t (rw t (others-deactivate c vs))
  | inr f ↦ rw f (rw f (ap (λ l. v ∷ l) (others-deactivate c vs)))
]

abbrev kept : Uuid → Bool → List JudgeProfileVersion → List JudgeProfileVersion
kept c activate vs = if activate then map (deactivate c) vs else vs

number-kept :
    (c c' : Uuid) (n : ℕ) (activate : Bool) (vs : List JudgeProfileVersion)
    → count (has_number c' n) (kept c activate vs) ≡ count (has_number c' n) vs
number-kept c c' n true vs = number-deactivate c c' n vs
number-kept c c' n false vs = refl

active-kept :
    (c c' : Uuid) (activate : Bool) (vs : List JudgeProfileVersion)
    → count (is_active_of c') (kept c activate vs)
      ≡ (if activate && (c == c') then 0 else count (is_active_of c') vs)
active-kept c c' true vs = active-deactivate c c' vs
active-kept c c' false vs = refl

others-kept :
    (c : Uuid) (activate : Bool) (vs : List JudgeProfileVersion)
    → filter (λ v. not (is_version_of c v)) (kept c activate vs)
      ≡ filter (λ v. not (is_version_of c v)) vs
others-kept c true vs = others-deactivate c vs
others-kept c false vs = refl

-- A snapshot keeps the table free of two versions of a challenge with one number and of two that are
-- active. Its version has a number above all of the challenge; where it is to be active it is the only
-- active one. The versions of other challenges stay.
pub snapshot_lem :
    (db : Engine) (profiles : List JudgeProfile) (versions : List JudgeProfileVersion) (c : Uuid)
    (activate : Bool)
    → IsVersioned versions
    → let (row, versions') =
        create_judge_profile_version_snapshot db profiles versions c activate in
      IsVersioned versions'
      × Memᴰ row versions'
      × (row.challenge_id ≡ c)
      × (row.is_active ≡ activate)
      × All (λ v. (is_version_of c v && leb row.version_number v.version_number) ≡ false) versions
      × (count (is_active_of c) versions'
          ≡ (if activate then 1 else count (is_active_of c) versions))
      × (filter (λ v. not (is_version_of c v)) versions'
          ≡ filter (λ v. not (is_version_of c v)) versions)
unfolding create_judge_profile_version_snapshot
snapshot_lem db profiles versions c activate h =
    let (row, versions') = create_judge_profile_version_snapshot db profiles versions c activate in
    let latest = max_version (db.select JudgeProfileVersion (is_version_of c) versions) in
    let below : (v : JudgeProfileVersion)
        → Memᴰ v versions
        → v.challenge_id ≡ c
        → v.version_number ≤ latest =
      λ v m e.
        max_version-bound v (db.select JudgeProfileVersion (is_version_of c) versions)
          (Memᴰ-loaded db (is_version_of c) versions m (rw e (==-refl c))) in
    let fresh : any (has_number c (suc latest)) versions ≡ false =
      any-none (has_number c (suc latest)) versions (λ v m.
        let b : (v.challenge_id == c) ≡ true → v.version_number ≤ latest =
          λ t. below v m (==→eq v.challenge_id c t) in
        ground (arith, b)) in
    (
      record {
        one_number = λ c' n.
            let gone : (c == c') ≡ true
                → (suc latest == n) ≡ true
                → any (has_number c' n) versions ≡ false =
              λ t u.
                subst (λ x. any (has_number x n) versions ≡ false) (==→eq c c' t)
                  (subst (λ x. any (has_number c x) versions ≡ false) (==→eq (suc latest) n u)
                    fresh) in
            ground (
              arith,
              count-append (has_number c' n) (kept c activate versions) (row ∷ []),
              number-kept c c' n activate versions,
              h.one_number c' n,
              any-count (has_number c' n) versions,
              gone,
            );
        one_active = λ c'. ground (
          arith,
          count-append (is_active_of c') (kept c activate versions) (row ∷ []),
          active-kept c c' activate versions,
          h.one_active c',
        );
      },
      Memᴰ-last row (kept c activate versions),
      refl,
      refl,
      All-of (λ v. (is_version_of c v && leb row.version_number v.version_number) ≡ false) versions
          (λ v m.
            let b : (v.challenge_id == c) ≡ true → v.version_number ≤ latest =
              λ t. below v m (==→eq v.challenge_id c t) in
            ground (arith, b)),
      ground (
        arith,
        count-append (is_active_of c) (kept c activate versions) (row ∷ []),
        active-kept c c activate versions,
        ==-refl c,
      ),
      filter-append (λ v. not (is_version_of c v)) (kept c activate versions) (row ∷ [])
          ∙ rw (others-kept c activate versions, ==-refl c)
              (append-nil (filter (λ v. not (is_version_of c v)) versions)),
    )
