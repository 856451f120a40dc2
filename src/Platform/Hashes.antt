-- ===== src/Platform/Hashes.antt =====
-- Redis hashes: commands on one hash are atomic, and HGETALL lists its fields, each once.
use mathlib.Core.List.{Memᴰ}
use mathlib.Core.List.Memᴰ
use mathlib.Core.Option.{some-injective}
use why_combinator.Prelude.Members.{Memᴰ-filter, Memᴰ-filter_in}
use why_combinator.Prelude.{
  ◌≡◌, refl, sym, ◌∙◌, ap, ◌⊎◌, inl, inr, String, Bool, true, false, not, Option, none, some, List,
  [], ◌∷◌, arith, if◌then◌else◌, ◌==◌, text_has_eq, ==-refl, ==→eq, filter, Bool-cases,
  Option-cases,
}

pub record Hash (Value : Type 0) : Type 1 where
  pub State : Type 0
  -- HGET, HSET, HDEL and HGETALL
  pub hget : State → String → Option Value
  pub hset : State → String → Value → State
  pub hdel : State → String → State
  pub hgetall : State → List (String × Value)
  pub get-set :
      (s : State) (f : String) (v : Value) (g : String)
      → hget (hset s f v) g ≡ (if f == g then some v else hget s g)
  pub get-del : (s : State) (f g : String) → hget (hdel s f) g ≡ (if f == g then none else hget s g)
  pub all_get : (s : State) (f : String) (v : Value) → Memᴰ (f, v) (hgetall s) → hget s f ≡ some v
  pub get_all : (s : State) (f : String) (v : Value) → hget s f ≡ some v → Memᴰ (f, v) (hgetall s)

module _ {Value : Type 0} (hash : Hash Value) where
  -- HSETNX: whether it wrote, and the hash behind it.
  unfoldable pub hsetnx : hash.State → String → Value → Bool × hash.State
  hsetnx s f v = elim (hash.hget s f) [ none ↦ (true, hash.hset s f v) | some _ ↦ (false, s) ]

module _ {Value : Type 0} (hash : Hash Value) (s : hash.State) (f : String) (w : Value) where
  pub hsetnx-own : hash.hget s f ≡ none → hash.hget (hsetnx hash s f w).1 f ≡ some w
  unfolding hsetnx
  hsetnx-own e = rw (e, hsetnx) (hash.get-set s f w f ∙ rw (==-refl f) refl)

  pub hsetnx-other :
      (g : String) → (f == g) ≡ false → hash.hget (hsetnx hash s f w).1 g ≡ hash.hget s g
  unfolding hsetnx
  hsetnx-other g apart = elim (Option-cases (hash.hget s f)) [
    | inl e ↦ rw (e, hsetnx) (hash.get-set s f w g ∙ rw apart refl)
    | inr (v, e) ↦ rw (e, hsetnx) refl
  ]

  -- What a field holds stays there.
  pub hsetnx-kept :
      (g : String) (v : Value) → hash.hget s g ≡ some v → hash.hget (hsetnx hash s f w).1 g ≡ some v
  unfolding hsetnx
  hsetnx-kept g v had = elim (Option-cases (hash.hget s f)) [
    | inl e ↦ elim (Bool-cases (f == g)) [
      | inl own ↦
          absurd (let clash : none ≡ some v = sym e ∙ ap (hash.hget s) (==→eq f g own) ∙ had in cc)
      | inr apart ↦ rw (e, hsetnx) (hash.get-set s f w g ∙ rw apart had)
    ]
    | inr (_, e) ↦ rw (e, hsetnx) had
  ]

  -- What a field holds was there, or has been written.
  pub hsetnx-some :
      (g : String) (v : Value)
      → hash.hget (hsetnx hash s f w).1 g ≡ some v
      → (hash.hget s g ≡ some v) ⊎ ((f ≡ g) × (w ≡ v))
  unfolding hsetnx
  hsetnx-some g v has = elim (Option-cases (hash.hget s f)) [
    | inl e ↦
        let got : hash.hget (hash.hset s f w) g ≡ some v = rw (e, hsetnx) at has in
        let set = sym (hash.get-set s f w g) ∙ got in
        elim (Bool-cases (f == g)) [
          | inl own ↦ inr (==→eq f g own, some-injective w v (rw own at set))
          | inr apart ↦ inl (rw apart at set)
        ]
    | inr (_, e) ↦ inl (rw (e, hsetnx) at has)
  ]

-- A hash as the list of what was written last to each field.
module _ {Value : Type 0} where
  abbrev pub entry_of : List (String × Value) → String → Option Value
  entry_of [] g = none
  entry_of ((f, v) ∷ rest) g = if f == g then some v else entry_of rest g

  abbrev pub without : String → List (String × Value) → List (String × Value)
  without f entries = filter (λ p. not (p.0 == f)) entries

  -- The first entry of each field.
  abbrev pub latest : List (String × Value) → List (String × Value)
  latest [] = []
  latest ((f, v) ∷ rest) = (f, v) ∷ without f (latest rest)

  pub entry_of-without :
      (entries : List (String × Value)) (f g : String)
      → entry_of (without f entries) g ≡ (if f == g then none else entry_of entries g)
  entry_of-without [] f g = ground arith
  entry_of-without ((h, v) ∷ rest) f g = ground (
    arith,
    entry_of-without rest f g,
    text_has_eq.same_iff f g,
    text_has_eq.same_iff h g,
    text_has_eq.same_iff h f,
  )

  pub latest_get :
      (entries : List (String × Value)) (f : String) (v : Value)
      → Memᴰ (f, v) (latest entries)
      → entry_of entries f ≡ some v
  latest_get [] f v m = absurd (Memᴰ.not-nil m)
  latest_get ((h, w) ∷ rest) f v m = elim (Memᴰ.cases_cons m) [
    | inl here ↦
        let key : f ≡ h = ap (λ (p : String × Value). p.0) here in
        let value : v ≡ w = ap (λ (p : String × Value). p.1) here in
        let same : (h == f) ≡ true = rw key (==-refl h) in rw (same, value) refl
    | inr there ↦
        let (later, apart) =
          Memᴰ-filter (λ (p : String × Value). not (p.0 == h)) (latest rest) there in
        ground (
          arith,
          latest_get rest f v later,
          apart,
          text_has_eq.same_iff h f,
          text_has_eq.same_iff f h,
        )
  ]

  pub get_latest :
      (entries : List (String × Value)) (f : String) (v : Value)
      → entry_of entries f ≡ some v
      → Memᴰ (f, v) (latest entries)
  get_latest [] f v e = absurd (let clash : none ≡ some v = e in cc)
  get_latest ((h, w) ∷ rest) f v e = elim (Bool-cases (h == f)) [
    | inl t ↦ Memᴰ.head (cc (==→eq h f t, some-injective w v (rw t at e)))
    | inr n ↦ Memᴰ.tail (
        Memᴰ-filter_in (λ (p : String × Value). not (p.0 == h)) (latest rest)
          (get_latest rest f v (rw n at e))
          (ground (arith, n, text_has_eq.same_iff h f, text_has_eq.same_iff f h)))
  ]

abbrev pub hash_in_memory : (Value : Type 0) → Hash Value
hash_in_memory Value = record {
  State = List (String × Value);
  hget = entry_of;
  hset = λ s f v. (f, v) ∷ s;
  hdel = λ s f. without f s;
  hgetall = latest;
  get-set = λ s f v g. refl;
  get-del = entry_of-without;
  all_get = latest_get;
  get_all = get_latest;
}
