-- ===== src/Base/Bits/Shift.antt =====
-- Shift registers with feedback: the digit shifted out selects a polynomial.
use Prim.Native.Nat.{ℕ, zero, suc, ◌+◌, ◌*◌, ◌/◌, ◌%◌, ◌<◌, bit_xor}
use mathlib.Core.Path.{◌≡◌, refl, sym, ap, ◌∙◌}
use native.Mathlib.Omega.{arith}
use infinity_station.Base.Tests.{◌==◌, if◌then◌else◌}
use infinity_station.Base.Bits.Xor.{
  xor-zero, zero-xor, xor_middle, xor-half, xor_parity, xor_fields, xor_self,
}

module _ (polynomial : ℕ) where
  -- What one digit shifted out contributes.
  unfoldable pub poly : ℕ → ℕ
  poly bit = if bit == 0 then 0 else polynomial

  -- The register after one digit, and after `k` digits.
  unfoldable pub shift_bit : ℕ → ℕ
  unfolding poly
  shift_bit s = bit_xor (s / 2) (poly (s % 2))

  unfoldable pub shift_bits : ℕ → ℕ → ℕ
  unfolding shift_bit
  shift_bits zero s = s
  shift_bits (suc k) s = shift_bits k (shift_bit s)

  poly-xor : (a b : ℕ) → poly ((a % 2 + b % 2) % 2) ≡ bit_xor (poly (a % 2)) (poly (b % 2))
  unfolding poly
  poly-xor a b = go (a % 2) (b % 2) (omega arith) (omega arith)
    where
      go : (x y : ℕ) → x < 2 → y < 2 → poly ((x + y) % 2) ≡ bit_xor (poly x) (poly y)
      go zero zero p q = refl
      go zero (suc zero) p q = sym (zero-xor polynomial)
      go zero (suc (suc y)) p q = absurd (omega arith)
      go (suc zero) zero p q = sym (xor-zero polynomial)
      go (suc zero) (suc zero) p q = sym (xor_self polynomial)
      go (suc zero) (suc (suc y)) p q = absurd (omega arith)
      go (suc (suc x)) y p q = absurd (omega arith)

  pub shift_bit-xor : (a b : ℕ) → shift_bit (bit_xor a b) ≡ bit_xor (shift_bit a) (shift_bit b)
  unfolding shift_bit
  shift_bit-xor a b = rw (xor-half a b, xor_parity a b, poly-xor a b) (xor_middle _ _ _ _)

  pub shift_bits-xor :
      (k a b : ℕ) → shift_bits k (bit_xor a b) ≡ bit_xor (shift_bits k a) (shift_bits k b)
  unfolding shift_bits
  shift_bits-xor zero a b = refl
  shift_bits-xor (suc k) a b =
      ap (shift_bits k) (shift_bit-xor a b) ∙ shift_bits-xor k (shift_bit a) (shift_bit b)

  shift_bit-double : (a : ℕ) → shift_bit (a * 2) ≡ a
  unfolding shift_bit poly
  shift_bit-double a =
      let even : a * 2 % 2 ≡ 0 = omega arith in
      let half : a * 2 / 2 ≡ a = omega arith in rw (even, half) (xor-zero a)

  shift_bits-double : (k a b : ℕ) → a ≡ b * 2 → shift_bits (suc k) a ≡ shift_bits k b
  unfolding shift_bits
  shift_bits-double k a b e = ap (shift_bits k) (ap shift_bit e ∙ shift_bit-double b)

  -- Eight zero digits at the low end shift out with no effect.
  pub shift_eight-mul : (a : ℕ) → shift_bits 8 (a * 256) ≡ a
  unfolding shift_bits
  shift_eight-mul a =
      shift_bits-double 7 (a * 256) (a * 128) (omega arith)
      ∙ shift_bits-double 6 (a * 128) (a * 64) (omega arith)
      ∙ shift_bits-double 5 (a * 64) (a * 32) (omega arith)
      ∙ shift_bits-double 4 (a * 32) (a * 16) (omega arith)
      ∙ shift_bits-double 3 (a * 16) (a * 8) (omega arith)
      ∙ shift_bits-double 2 (a * 8) (a * 4) (omega arith)
      ∙ shift_bits-double 1 (a * 4) (a * 2) (omega arith)
      ∙ shift_bits-double 0 (a * 2) a refl

  -- Eight digits at a time: the high bytes move down, the low byte goes through.
  pub shift_eight-split : (x : ℕ) → shift_bits 8 x ≡ bit_xor (x / 256) (shift_bits 8 (x % 256))
  shift_eight-split x =
      ap (shift_bits 8) (split ∙ sym (xor_fields 8 (x / 256) (x % 256) (omega arith)))
      ∙ shift_bits-xor 8 (x / 256 * 256) (x % 256)
      ∙ rw (shift_eight-mul (x / 256))
    where
      split : x ≡ x / 256 * 256 + x % 256
      split = omega arith
