-- ===== src/Platform/Sql.antt =====
-- The database behind SQLAlchemy's session. A table is the list of its rows; which rows a query
-- returns is fixed by its `where` clause, and their order is the engine's choice.
use mathlib.Core.List.{Permᴰ}
use mathlib.Core.List.Permᴰ
use why_combinator.Prelude.Perms.{count-perm, any-perm}
use why_combinator.Prelude.{
  ◌≡◌, refl, sym, ◌∙◌, Bool, true, ◌&&◌, List, [], ◌∷◌, arith, length, filter, count, any,
}

pub record Engine : Type 1 where
  -- `select(Row).where(p)` over the rows of a table
  pub select : (Row : Type 0) → (Row → Bool) → List Row → List Row
  -- exactly the rows that pass the clause, each as often as it is stored, in some order
  pub select-perm :
      (Row : Type 0) (p : Row → Bool) (rows : List Row) → Permᴰ (select Row p rows) (filter p rows)

module _ {A : Type 0} (p : A → Bool) where
  count-filter : (q : A → Bool) (xs : List A) → count p (filter q xs) ≡ count (λ r. q r && p r) xs
  count-filter q [] = refl
  count-filter q (x ∷ xs) = ground (arith, count-filter q xs)

  pub any-filter : (q : A → Bool) (xs : List A) → any p (filter q xs) ≡ any (λ r. q r && p r) xs
  any-filter q [] = refl
  any-filter q (x ∷ xs) = ground (arith, any-filter q xs)

length-filter : {A : Type 0} (q : A → Bool) (xs : List A) → length (filter q xs) ≡ count q xs
length-filter q [] = refl
length-filter q (x ∷ xs) = ground (arith, length-filter q xs)

length-count : {A : Type 0} (xs : List A) → length xs ≡ count (λ _. true) xs
length-count [] = refl
length-count (x ∷ xs) = omega (arith, length-count xs)

module _ (db : Engine) {Row : Type 0} where
  -- A test counted over a query is the test and the clause counted over the table.
  pub count-select :
      (p q : Row → Bool) (rows : List Row)
      → count p (db.select Row q rows) ≡ count (λ r. q r && p r) rows
  count-select p q rows = count-perm p (db.select-perm Row q rows) ∙ count-filter p q rows

  pub any-select :
      (p q : Row → Bool) (rows : List Row)
      → any p (db.select Row q rows) ≡ any (λ r. q r && p r) rows
  any-select p q rows = any-perm p (db.select-perm Row q rows) ∙ any-filter p q rows

  pub length-select :
      (q : Row → Bool) (rows : List Row) → length (db.select Row q rows) ≡ count q rows
  length-select q rows =
      length-count (db.select Row q rows)
      ∙ count-perm (λ _. true) (db.select-perm Row q rows)
      ∙ sym (length-count (filter q rows))
      ∙ length-filter q rows

-- An engine that returns the rows as they are stored.
abbrev pub in_order : Engine
in_order = record {
  select = λ Row p rows. filter p rows;
  select-perm = λ Row p rows. Permᴰ.refl (filter p rows);
}
