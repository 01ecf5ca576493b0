-- ===== src/Base/Table.antt =====
-- Two functions compared at every number below a bound, by evaluation.
use Prim.Native.Nat.{ℕ, zero, suc, ◌<◌}
use mathlib.Core.Path.{◌≡◌}
use mathlib.Core.Bool.{Bool, true, ◌&&◌}
use native.Mathlib.Omega.{arith}
use xivix.Base.Tests.{◌==◌}

unfoldable pub holds_below : ℕ → (ℕ → ℕ) → (ℕ → ℕ) → Bool
holds_below zero f g = true
holds_below (suc n) f g = f n == g n && holds_below n f g

pub holds_below_lem : (n : ℕ) (f g : ℕ → ℕ) → holds_below n f g ≡ true → (x : ℕ) → x < n → f x ≡ g x
unfolding holds_below
holds_below_lem zero f g h x lt = absurd (omega arith)
holds_below_lem (suc n) f g h x lt = ground (arith, holds_below_lem n f g (ground arith) x)
