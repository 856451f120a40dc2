-- ===== src/Platform/Uuids.antt =====
-- `str(uuid)` and `uuid.UUID(text)`: a uuid is read back from its text.
use Prim.Native.Char.{nul}
use Prim.Native.String.{[], ◌∷◌}
use why_combinator.Prelude.{ℕ, zero, suc, ◌≡◌, refl, ap, String, Option, some}
use why_combinator.Db.Models.{Uuid}

pub record Uuids : Type 0 where
  pub str : Uuid → String
  -- `none` where it raises
  pub parse : String → Option Uuid
  pub parse-str : (u : Uuid) → parse (str u) ≡ some u

-- As many characters as the number of the uuid says.
abbrev pub tally : ℕ → String
tally zero = []
tally (suc n) = nul ∷ tally n

abbrev pub count_tally : String → ℕ
count_tally [] = zero
count_tally (c ∷ s) = suc (count_tally s)

pub count_tally-tally : (n : ℕ) → count_tally (tally n) ≡ n
count_tally-tally zero = refl
count_tally-tally (suc n) = ap suc (count_tally-tally n)

abbrev pub tallies : Uuids
tallies = record {
  str = tally;
  parse = λ s. some (count_tally s);
  parse-str = λ u. ap some (count_tally-tally u);
}
