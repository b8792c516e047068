-- ===== src/Base/Sums.antt =====
-- Sums of an amount over a list, and what one write changes.
use Prim.Native.Nat.{ℕ, zero, suc, ◌+◌}
use mathlib.Core.Path.{◌≡◌}
use mathlib.Core.List.{List, [], ◌∷◌}
use mathlib.Core.Option.{some}
use native.Mathlib.Omega.{arith}
use tpso_yanero_los_grosos.Base.Lists.{get_elem?, set}

module _ {ℓ} {A : Type ℓ} where
  abbrev pub sum_by : (A → ℕ) → List A → ℕ
  sum_by f [] = 0
  sum_by f (x ∷ xs) = f x + sum_by f xs

  -- A write exchanges one summand.
  pub sum_by-set :
      (f : A → ℕ) (xs : List A) (i : ℕ) (old new : A)
      → get_elem? xs i ≡ some old
      → sum_by f (set xs i new) + f old ≡ sum_by f xs + f new
  sum_by-set f [] i old new h = cc
  sum_by-set f (x ∷ xs) zero old new h = ground arith
  sum_by-set f (x ∷ xs) (suc i) old new h = omega (arith, sum_by-set f xs i old new h)
