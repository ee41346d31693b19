-- ===== src/Base/Bits/Xor.antt =====
-- The group laws of `^`, and how it meets shifts.
use Prim.Native.Nat.{ℕ, zero, suc, ◌+◌, ◌*◌, ◌/◌, ◌%◌, ◌^◌, ◌<◌, bit_xor, bit_xor-bitwise}
use mathlib.Core.Path.{◌≡◌, refl, sym, ap, ◌∙◌}
use native.Mathlib.Omega.{arith}
use native.Mathlib.Nat.{pow-suc, mul_comm, div-div-eq-div-mul}
use infinity_station.Base.Order.{halving}
use infinity_station.Base.Bits.Step.{bit_xor_step}

pub zero-xor : (b : ℕ) → bit_xor 0 b ≡ b
zero-xor b = bit_xor-bitwise 0 b

pub xor-half : (a b : ℕ) → bit_xor a b / 2 ≡ bit_xor (a / 2) (b / 2)
xor-half a b = omega (arith, bit_xor_step a b)

pub xor_parity : (a b : ℕ) → bit_xor a b % 2 ≡ (a % 2 + b % 2) % 2
xor_parity a b = omega (arith, bit_xor_step a b)

pub xor-zero : (a : ℕ) → bit_xor a 0 ≡ a
xor-zero = halving _ refl λ n half. omega (arith, bit_xor_step (suc n) 0, half)

pub xor_self : (a : ℕ) → bit_xor a a ≡ 0
xor_self = halving _ refl λ n half. omega (arith, bit_xor_step (suc n) (suc n), half)

pub xor_comm : (a b : ℕ) → bit_xor a b ≡ bit_xor b a
xor_comm =
    halving (λ a. (b : ℕ) → bit_xor a b ≡ bit_xor b a) (λ b. zero-xor b ∙ sym (xor-zero b))
      λ n half b. omega (arith, bit_xor_step (suc n) b, bit_xor_step b (suc n), half (b / 2))

pub xor_assoc : (a b c : ℕ) → bit_xor (bit_xor a b) c ≡ bit_xor a (bit_xor b c)
xor_assoc =
    halving (λ a. (b c : ℕ) → bit_xor (bit_xor a b) c ≡ bit_xor a (bit_xor b c))
      (λ b c. rw (zero-xor b, zero-xor (bit_xor b c)))
      λ n half b c. ground (
        arith,
        bit_xor_step (bit_xor (suc n) b) c,
        bit_xor_step (suc n) (bit_xor b c),
        xor-half (suc n) b,
        xor_parity (suc n) b,
        xor-half b c,
        xor_parity b c,
        half (b / 2) (c / 2),
      )

-- The middle two of four.
pub xor_middle :
    (a b c d : ℕ) → bit_xor (bit_xor a b) (bit_xor c d) ≡ bit_xor (bit_xor a c) (bit_xor b d)
xor_middle a b c d = ground (
  arith,
  xor_assoc a b (bit_xor c d),
  xor_assoc b c d,
  xor_comm b c,
  xor_assoc c b d,
  xor_assoc a c (bit_xor b d),
)

pub xor_cancel : (a b : ℕ) → bit_xor a (bit_xor a b) ≡ b
xor_cancel a b = ground (arith, xor_assoc a a b, xor_self a, zero-xor b)

-- Numbers below `2 ^ k` stay below it.
pub xor-lt : (k a b : ℕ) → a < 2 ^ k → b < 2 ^ k → bit_xor a b < 2 ^ k
xor-lt zero a b p q = ground (arith, xor_self 0)
xor-lt (suc k) a b p q = omega (
  arith,
  pow-suc 2 k,
  bit_xor_step a b,
  xor-lt k (a / 2) (b / 2) (omega (arith, pow-suc 2 k)) (omega (arith, pow-suc 2 k)),
)

-- Two numbers with no digit in common: `^` is `+`.
pub xor_fields : (k q r : ℕ) → r < 2 ^ k → bit_xor (q * 2 ^ k) r ≡ q * 2 ^ k + r
xor_fields zero q r fits = ground (arith, xor-zero q)
xor_fields (suc k) q r fits = ground (
  arith,
  bit_xor_step (q * 2 ^ suc k) r,
  ap (λ (t : ℕ). q * t) (pow-suc 2 k),
  pow-suc 2 k,
  xor_fields k q (r / 2) (omega (arith, pow-suc 2 k)),
)

div-pow_suc : (k a : ℕ) → a / 2 ^ suc k ≡ a / 2 / 2 ^ k
div-pow_suc k a = rw (pow-suc 2 k, mul_comm (2 ^ k) 2) (sym (div-div-eq-div-mul a 2 (2 ^ k)))

pub xor-shift : (k a b : ℕ) → bit_xor a b / 2 ^ k ≡ bit_xor (a / 2 ^ k) (b / 2 ^ k)
xor-shift zero a b = ground arith
xor-shift (suc k) a b =
    rw (div-pow_suc k (bit_xor a b), div-pow_suc k a, div-pow_suc k b, xor-half a b)
      (xor-shift k (a / 2) (b / 2))
