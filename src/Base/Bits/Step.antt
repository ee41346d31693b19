-- ===== src/Base/Bits/Step.antt =====
-- The native bit operations, by one equation for the lowest digit.
use Prim.Native.Nat.{ℕ, zero, suc, ◌+◌, ◌-◌, ◌*◌, ◌/◌, ◌%◌, ◌≤◌, ◌<◌, max, bit_or, bit_xor}
use Prim.Native.Nat.{digits, bitwise, differ, bit_or-bitwise, bit_xor-bitwise}
use mathlib.Core.Path.{◌≡◌, refl, ap, ◌∙◌}
use native.Mathlib.Omega.{arith}

module _ (alone : ℕ → ℕ) (mix : ℕ → ℕ → ℕ) where
  -- Fuel beyond the first operand is idle.
  one_more : (fuel a b : ℕ) → a ≤ fuel → digits alone mix (suc fuel) a b ≡ digits alone mix fuel a b
  one_more fuel zero b enough =
      elim fuel as (λ n. digits alone mix (suc n) 0 b ≡ digits alone mix n 0 b) [
        | zero ↦ refl
        | suc n ↦ refl
      ]
  one_more zero (suc a) b enough = absurd (omega arith)
  one_more (suc fuel) (suc a) b enough =
      ap (λ high. high * 2 + mix (suc a % 2) (b % 2))
        (one_more fuel (suc a / 2) (b / 2) (omega arith))

  spare : (k fuel a b : ℕ) → fuel ≡ k + a → digits alone mix fuel a b ≡ bitwise alone mix a b
  spare zero fuel a b e = ap (λ n. digits alone mix n a b) (omega (arith, e))
  spare (suc k) fuel a b e =
      let count : fuel ≡ suc (k + a) = omega (arith, e) in
      ap (λ n. digits alone mix n a b) count
      ∙ one_more (k + a) a b (omega arith)
      ∙ spare k (k + a) a b refl

  lowest :
      (a b : ℕ)
      → bitwise alone mix (suc a) b
        ≡ bitwise alone mix (suc a / 2) (b / 2) * 2 + mix (suc a % 2) (b % 2)
  lowest a b =
      ap (λ high. high * 2 + mix (suc a % 2) (b % 2))
        (spare (a - suc a / 2) a (suc a / 2) (b / 2) (omega arith))

pub bit_or_step : (x y : ℕ) → bit_or x y ≡ bit_or (x / 2) (y / 2) * 2 + max (x % 2) (y % 2)
bit_or_step x y = elim x as (λ n. bit_or n y ≡ bit_or (n / 2) (y / 2) * 2 + max (n % 2) (y % 2)) [
  | zero ↦ simp bit_or-bitwise (omega arith)
  | suc n ↦ simp bit_or-bitwise (lowest (λ d. d) max n y)
]

-- Two binary digits differ if their sum is odd.
differ_odd : (p q : ℕ) → differ (p % 2) (q % 2) ≡ (p % 2 + q % 2) % 2
differ_odd p q = go (p % 2) (q % 2) (omega arith) (omega arith)
  where
    go : (x y : ℕ) → x < 2 → y < 2 → differ x y ≡ (x + y) % 2
    go zero y lx ly = omega arith
    go (suc zero) zero lx ly = refl
    go (suc zero) (suc zero) lx ly = refl
    go (suc zero) (suc (suc y)) lx ly = absurd (omega arith)
    go (suc (suc x)) y lx ly = absurd (omega arith)

pub bit_xor_step : (x y : ℕ) → bit_xor x y ≡ bit_xor (x / 2) (y / 2) * 2 + (x % 2 + y % 2) % 2
bit_xor_step x y =
    elim x as (λ n. bit_xor n y ≡ bit_xor (n / 2) (y / 2) * 2 + (n % 2 + y % 2) % 2) [
      | zero ↦ simp bit_xor-bitwise (omega arith)
      | suc n ↦
          simp bit_xor-bitwise (omega (arith, lowest (λ d. d) differ n y, differ_odd (suc n) y))
    ]
