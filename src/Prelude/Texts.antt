-- ===== src/Prelude/Texts.antt =====
-- Python's `str.strip` and slices of a text.
use Prim.Native.Nat.{ℕ, zero, suc}
use Prim.Native.Char.{code}
use Prim.Native.String.{String, [], ◌∷◌}
use mathlib.Core.Path.{◌≡◌, refl, sym}
use mathlib.Core.Option.{Option, none, some, none-ne-some}
use mathlib.Core.Logic.{inl, inr}
use mathlib.Core.Bool.{Bool, true, false, ◌&&◌, ◌||◌}
use why_combinator.Prelude.Tests.{leb, nat_beq, Bool-cases, Option-cases, if◌then◌else◌}

-- `str.isspace` of one code point
abbrev pub is_space : ℕ → Bool
is_space c =
    (leb 9 c && leb c 13)
    || (leb 28 c && leb c 32)
    || nat_beq c 133
    || nat_beq c 160
    || nat_beq c 5760
    || (leb 8192 c && leb c 8202)
    || nat_beq c 8232
    || nat_beq c 8233
    || nat_beq c 8239
    || nat_beq c 8287
    || nat_beq c 12288

abbrev pub is_empty : String → Bool
is_empty [] = true
is_empty (c ∷ s) = false

unfoldable pub lstrip : String → String
lstrip [] = []
lstrip (c ∷ s) = let rest = lstrip s in if is_space (code c) then rest else c ∷ s

unfoldable pub rstrip : String → String
rstrip [] = []
rstrip (c ∷ s) = let rest = rstrip s in if is_empty rest && is_space (code c) then [] else c ∷ rest

unfoldable pub strip : String → String
unfolding lstrip rstrip
strip s = rstrip (lstrip s)

-- `s[:n]`
unfoldable pub prefix : ℕ → String → String
prefix zero s = []
prefix (suc n) [] = []
prefix (suc n) (c ∷ s) = c ∷ prefix n s

-- `s + t`
abbrev pub append : String → String → String
append [] t = t
append (c ∷ s) t = c ∷ append s t

-- The two parts of `t.split(".", 1)`, or `none` where `"." not in t`.
unfoldable pub split_at_dot : String → Option (String × String)
split_at_dot [] = none
split_at_dot (c ∷ s) =
    let rest = split_at_dot s in
    let longer : Option (String × String) = elim rest [
      | none ↦ none
      | some p ↦ some (c ∷ p.0, p.1)
    ] in
    if nat_beq (code c) 46 then some ([], s) else longer

pub split-append :
    (s t : String) → split_at_dot s ≡ none → split_at_dot (append s (append "." t)) ≡ some (s, t)
unfolding split_at_dot
split-append [] t h = refl
split-append (c ∷ s) t h = elim (Bool-cases (nat_beq (code c) 46)) [
  | inl y ↦ absurd (none-ne-some ([], s) (sym (rw y at h)))
  | inr n ↦ elim (Option-cases (split_at_dot s)) [
    | inl e ↦ rw n (rw (split-append s t e) refl)
    | inr (p, e) ↦ absurd (none-ne-some (c ∷ p.0, p.1) (sym (rw (n, e) at h)))
  ]
]
