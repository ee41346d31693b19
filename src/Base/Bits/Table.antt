-- ===== src/Base/Bits/Table.antt =====
-- Over a small range, a statement is checked at every value by evaluation.
use Prim.Native.Nat.{ℕ, zero, suc, ◌<◌}
use mathlib.Core.Path.{◌≡◌}
use mathlib.Core.Bool.{Bool, true, false}
use native.Mathlib.Omega.{arith}
use infinity_station.Base.Tests.{if◌then◌else◌}

unfoldable pub every_below : ℕ → (ℕ → Bool) → Bool
every_below zero test = true
every_below (suc bound) test =
    let smaller = every_below bound test in if test bound then smaller else false

pub every_below_at :
    (value bound : ℕ) (test : ℕ → Bool)
    → every_below bound test ≡ true
    → value < bound
    → test value ≡ true
unfolding every_below
every_below_at value zero test checked inside = absurd (omega arith)
every_below_at value (suc bound) test checked inside =
    ground (arith, every_below_at value bound test)
