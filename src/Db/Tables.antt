-- ===== src/Db/Tables.antt =====
-- How changed objects come back into a table: SQLAlchemy writes each to the row with its id.
use mathlib.Core.List.{Memᴰ}
use mathlib.Core.List.Memᴰ
use mathlib.Core.List.Permᴰ
use why_combinator.Prelude.Members.{Memᴰ-perm, Memᴰ-filter, any-Memᴰ, any-none, map-cong, only}
use why_combinator.Prelude.{
  ℕ, head?, some, ◌≢◌, ◌≡◌, inl, inr, refl, sym, ◌∙◌, ap, Bool, true, false, ◌&&◌, List, [], ◌∷◌,
  map, arith, if◌then◌else◌, filter, any, ◌==◌, nat_has_eq, Bool-cases, ==→eq, ==-refl, subst,
}
use why_combinator.Platform.Sql.{Engine, any-select, any-filter}
use why_combinator.Db.Models.{Uuid}

pub Memᴰ-select :
    (db : Engine) {A : Type 0} {a : A} (p : A → Bool) (rows : List A)
    → Memᴰ a (db.select A p rows)
    → Memᴰ a rows × (p a ≡ true)
Memᴰ-select db {A} p rows m = Memᴰ-filter p rows (Memᴰ-perm (db.select-perm A p rows) m)

&&-right : (b : Bool) → (b && true) ≡ b
&&-right true = refl
&&-right false = refl

==-flip : (a b : ℕ) → (a == b) ≡ false → (b == a) ≡ false
==-flip a b h = ground arith

module _ {Row : Type 0} (id : Row → Uuid) where
  -- The row with the id of a changed object is replaced by the object.
  unfoldable pub replace : Row → List Row → List Row
  replace row table = map (λ r. if id r == id row then row else r) table

  -- Objects that were loaded are changed, one after another.
  unfoldable pub change_all : (Row → Row) → List Row → List Row → List Row
  unfolding replace
  change_all f [] table = table
  change_all f (x ∷ xs) table = change_all f xs (replace (f x) table)

  -- The id is a primary key.
  abbrev pub IsKeyed : List Row → Type 0
  IsKeyed table = (r r' : Row) → Memᴰ r table → Memᴰ r' table → id r ≡ id r' → r ≡ r'

  pub IsKeyed-nil : IsKeyed []
  IsKeyed-nil r r' m m' e = absurd (Memᴰ.not-nil m)

  absent :
      (x r : Row) (xs : List Row) → any (λ r. id r == id x) xs ≡ false → Memᴰ r xs → id r ≢ id x
  absent x r xs h m e =
      let here : (id r == id x) ≡ true = subst (λ i. (id r == i) ≡ true) e (==-refl (id r)) in
      let found : any (λ r. id r == id x) xs ≡ true = any-Memᴰ (λ r. id r == id x) xs m here in cc

  -- Inserting a row with an id that no row has.
  pub IsKeyed-cons :
      (x : Row) (xs : List Row) → any (λ r. id r == id x) xs ≡ false → IsKeyed xs → IsKeyed (x ∷ xs)
  IsKeyed-cons x xs h keyed r r' m m' e = elim (Memᴰ.cases_cons m) [
    | inl here ↦ elim (Memᴰ.cases_cons m') [
      | inl here' ↦ here ∙ sym here'
      | inr there' ↦ absurd (absent x r' xs h there' (sym e ∙ ap id here))
    ]
    | inr there ↦ elim (Memᴰ.cases_cons m') [
      | inl here' ↦ absurd (absent x r xs h there (e ∙ ap id here'))
      | inr there' ↦ keyed r r' there there' e
    ]
  ]

  final : (Row → Row) → List Row → Row → Row
  final f [] r = r
  final f (x ∷ xs) r = final f xs (if id r == id (f x) then f x else r)

  map-map : (f g : Row → Row) (xs : List Row) → map f (map g xs) ≡ map (λ r. f (g r)) xs
  map-map f g [] = refl
  map-map f g (x ∷ xs) = ap (◌∷◌ (f (g x))) (map-map f g xs)

  map-id : (xs : List Row) → map (λ r. r) xs ≡ xs
  map-id [] = refl
  map-id (x ∷ xs) = ap (◌∷◌ x) (map-id xs)

  change_all-final :
      (f : Row → Row) (xs table : List Row) → change_all f xs table ≡ map (final f xs) table
  unfolding change_all final replace
  change_all-final f [] table = sym (map-id table)
  change_all-final f (x ∷ xs) table =
      change_all-final f xs (replace (f x) table)
      ∙ map-map (final f xs) (λ r. if id r == id (f x) then f x else r) table

module _ {Row : Type 0} (id : Row → Uuid) (f : Row → Row)
    (keeps : (r : Row) → id (f r) ≡ id r) where
  final_changed :
      (xs : List Row) (r : Row)
      → ((x : Row) → Memᴰ x xs → id x ≡ id r → x ≡ r)
      → final id f xs (f r) ≡ f r
  unfolding final
  final_changed [] r h = refl
  final_changed (x ∷ xs) r h = elim (Bool-cases (id (f r) == id (f x))) [
    | inl t ↦
        let same : x ≡ r = h x (Memᴰ.head refl) (ground (arith, keeps r, keeps x)) in
        rw t (rw same (final_changed xs r (λ y m. h y (Memᴰ.tail m))))
    | inr n ↦ rw n (final_changed xs r (λ y m. h y (Memᴰ.tail m)))
  ]

  final_lem :
      (xs : List Row) (r : Row)
      → ((x : Row) → Memᴰ x xs → id x ≡ id r → x ≡ r)
      → final id f xs r ≡ (if any (λ x. id x == id r) xs then f r else r)
  unfolding final
  final_lem [] r h = refl
  final_lem (x ∷ xs) r h = elim (Bool-cases (id r == id (f x))) [
    | inl t ↦
        let same : x ≡ r = h x (Memᴰ.head refl) (sym (==→eq (id r) (id (f x)) t ∙ keeps x)) in
        let here : (id x == id r) ≡ true =
          subst (λ i. (id i == id r) ≡ true) (sym same) (==-refl (id r)) in
        let there : final id f xs (f x) ≡ f r =
          subst (λ y. final id f xs (f y) ≡ f r) (sym same)
            (final_changed xs r (λ y m. h y (Memᴰ.tail m))) in
        rw (t, here) there
    | inr n ↦
        let other : (id x == id r) ≡ false =
          ==-flip (id r) (id x) (subst (λ i. (id r == i) ≡ false) (keeps x) n) in
        rw (n, other) (final_lem xs r (λ y m. h y (Memᴰ.tail m)))
  ]

  any_keyed :
      (p q : Row → Bool) (table : List Row)
      → IsKeyed id table
      → (r : Row) → Memᴰ r table
      → any (λ x. p x && (q x && id x == id r)) table ≡ (p r && q r)
  any_keyed p q table keyed r m = elim (Bool-cases (p r && q r)) [
    | inl t ↦
        any-Memᴰ (λ x. p x && (q x && id x == id r)) table m (ground (arith, t, ==-refl (id r)))
        ∙ sym t
    | inr n ↦
        any-none (λ x. p x && (q x && id x == id r)) table
          (λ x k. elim (Bool-cases (id x == id r)) [
            | inl e ↦
                let same : x ≡ r = keyed x r k m (==→eq (id x) (id r) e) in
                let no : (p x && q x) ≡ false = subst (λ y. (p y && q y) ≡ false) (sym same) n in
                ground (arith, no)
            | inr e ↦ ground (arith, e)
          ])
        ∙ sym n
  ]

  -- Loading the rows that pass one test and changing those that pass another changes exactly the rows
  -- of the table that pass both.
  pub change_all-select :
      (db : Engine) (p q : Row → Bool) (table : List Row)
      → IsKeyed id table
      → change_all id f (filter q (db.select Row p table)) table
        ≡ map (λ r. if p r && q r then f r else r) table
  change_all-select db p q table keyed =
      let xs = filter q (db.select Row p table) in
      change_all-final id f xs table
      ∙ map-cong (final id f xs) (λ r. if p r && q r then f r else r) table
          (λ r m.
            let loaded : (x : Row) → Memᴰ x xs → id x ≡ id r → x ≡ r = λ x i e.
              let (j, _) = Memᴰ-filter q (db.select Row p table) i in
              let (k, _) = Memᴰ-select db p table j in keyed x r k m e in
            let hit : any (λ x. id x == id r) xs ≡ (p r && q r) =
              any-filter (λ x. id x == id r) q (db.select Row p table)
              ∙ any-select db (λ x. q x && id x == id r) p table
              ∙ any_keyed p q table keyed r m in
            final_lem xs r loaded ∙ ap (λ b. if b then f r else r) hit)

module _ {Row : Type 0} (id : Row → Uuid) (f : Row → Row)
    (keeps : (r : Row) → id (f r) ≡ id r) where
  filter-all : (xs : List Row) → filter (λ _. true) xs ≡ xs
  filter-all [] = refl
  filter-all (x ∷ xs) = ap (◌∷◌ x) (filter-all xs)

  -- Loading the rows that pass a test and changing each.
  pub change_all_loaded :
      (db : Engine) (p : Row → Bool) (table : List Row)
      → IsKeyed id table
      → change_all id f (db.select Row p table) table ≡ map (λ r. if p r then f r else r) table
  change_all_loaded db p table keyed =
      ap (λ xs. change_all id f xs table) (sym (filter-all (db.select Row p table)))
      ∙ change_all-select id f keeps db p (λ _. true) table keyed
      ∙ map-cong (λ r. if p r && true then f r else r) (λ r. if p r then f r else r) table
          (λ r m. ap (λ b. if b then f r else r) (&&-right (p r)))

Memᴰ-kept :
    {A : Type 0} {a : A} (p : A → Bool) (xs : List A)
    → Memᴰ a xs
    → p a ≡ true
    → Memᴰ a (filter p xs)
Memᴰ-kept {a = a} p [] m h = elim m [ ]
Memᴰ-kept p (x ∷ xs) (Memᴰ.head e) h =
    let t : p x ≡ true = subst (λ y. p y ≡ true) e h in rw t (Memᴰ.head e)
Memᴰ-kept p (x ∷ xs) (Memᴰ.tail m) h = elim (Bool-cases (p x)) [
  | inl t ↦ rw t (Memᴰ.tail (Memᴰ-kept p xs m h))
  | inr f ↦ rw f (Memᴰ-kept p xs m h)
]

pub Memᴰ-loaded :
    (db : Engine) {A : Type 0} {a : A} (p : A → Bool) (rows : List A)
    → Memᴰ a rows
    → p a ≡ true
    → Memᴰ a (db.select A p rows)
Memᴰ-loaded db {A} p rows m h =
    Memᴰ-perm (Permᴰ.symm (db.select-perm A p rows)) (Memᴰ-kept p rows m h)

-- A row is found under its key.
pub find_keyed :
    {Row : Type 0} (id : Row → Uuid) (db : Engine) (table : List Row) (r : Row)
    → IsKeyed id table
    → Memᴰ r table
    → head? (db.select Row (λ x. id x == id r) table) ≡ some r
find_keyed {Row} id db table r keyed m =
    let found = Memᴰ-loaded db (λ x. id x == id r) table m (==-refl (id r)) in
    only (db.select Row (λ x. id x == id r) table) found (λ x i.
      let (k, e) = Memᴰ-select db (λ x. id x == id r) table i in
      keyed x r k m (==→eq (id x) (id r) e))

-- Changing some rows of a table, by any list of them.
pub change_all_among :
    {Row : Type 0} (id : Row → Uuid) (f : Row → Row)
    → ((r : Row) → id (f r) ≡ id r)
    → (xs table : List Row) → IsKeyed id table
    → ((x : Row) → Memᴰ x xs → Memᴰ x table)
    → change_all id f xs table ≡ map (λ r. if any (λ x. id x == id r) xs then f r else r) table
change_all_among id f keeps xs table keyed inside =
    change_all-final id f xs table
    ∙ map-cong (final id f xs) (λ r. if any (λ x. id x == id r) xs then f r else r) table
        (λ r m. final_lem id f keeps xs r (λ x i e. keyed x r (inside x i) m e))
