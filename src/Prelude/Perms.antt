-- ===== src/Prelude/Perms.antt =====
-- What a permutation of a list leaves unchanged.
use mathlib.Core.Path.{◌≡◌, refl, ◌∙◌}
use mathlib.Core.Bool.{Bool}
use mathlib.Core.List.{List, Permᴰ}
use native.Mathlib.Omega.{arith}
use why_combinator.Prelude.Lists.{count, any}

module _ {A : Type 0} (p : A → Bool) where
  pub count-perm : {xs ys : List A} → Permᴰ xs ys → count p xs ≡ count p ys
  count-perm Permᴰ.nil = refl
  count-perm (Permᴰ.cons {a} {b} e d) = rw e (omega (arith, count-perm d))
  count-perm (Permᴰ.swap e d) = rw (e, d) (omega arith)
  count-perm (Permᴰ.trans d e) = count-perm d ∙ count-perm e

  pub any-perm : {xs ys : List A} → Permᴰ xs ys → any p xs ≡ any p ys
  any-perm Permᴰ.nil = refl
  any-perm (Permᴰ.cons {a} {b} e d) = rw (e, any-perm d)
  any-perm (Permᴰ.swap e d) = rw (e, d) (ground arith)
  any-perm (Permᴰ.trans d e) = any-perm d ∙ any-perm e
