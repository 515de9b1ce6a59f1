-- ===== src/Base/Counts.antt =====
-- How often a number stands in a list.
use Prim.Native.Nat.{ℕ, ◌+◌}
use mathlib.Core.Path.{◌≡◌}
use mathlib.Core.List.{List, [], ◌∷◌, ◌++◌}
use native.Mathlib.Omega.{arith}
use raid_super_blt.Base.Tests.{◌==◌, if◌then◌else◌}

module _ (a : ℕ) where
  abbrev pub count : List ℕ → ℕ
  count [] = 0
  count (x ∷ xs) = let rest = count xs in if a == x then 1 + rest else rest

  pub count-append : (xs ys : List ℕ) → count (xs ++ ys) ≡ count xs + count ys
  count-append [] ys = omega arith
  count-append (x ∷ xs) ys = ground (arith, count-append xs ys)
