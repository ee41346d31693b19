-- ===== src/Base/Order.antt =====
-- Induction on the binary digits of a native number.
use Prim.Native.Nat.{ℕ, zero, suc, ◌/◌, ◌≤◌}
use native.Mathlib.Omega.{arith}

halving_below {ℓ} :
    (P : ℕ → Type ℓ) → P 0 → ((n : ℕ) → P (suc n / 2) → P (suc n)) → (bound n : ℕ) → n ≤ bound → P n
halving_below P base step bound zero h = base
halving_below P base step zero (suc n) h = absurd (omega arith)
halving_below P base step (suc bound) (suc n) h =
    step n (halving_below P base step bound (suc n / 2) (omega arith))

-- What holds of 0, and of a number if it holds of its half, holds of every number.
pub halving {ℓ} : (P : ℕ → Type ℓ) → P 0 → ((n : ℕ) → P (suc n / 2) → P (suc n)) → (n : ℕ) → P n
halving P base step n = halving_below P base step n n (omega arith)
