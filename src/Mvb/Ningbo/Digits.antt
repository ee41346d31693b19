-- ===== src/Mvb/Ningbo/Digits.antt =====
-- One digit of the frame written, and the frame read digit by digit.
use infinity_station.Base.{ℕ, ◌<◌, ◌≡◌, ◌≢◌, ◌∙◌, Bool, ◌&&◌, arith}
use infinity_station.Base.{some, get_or, set, All-get_or, ◌==◌, if◌then◌else◌}
use infinity_station.Base.{get_or-set_self, get_or-set_ne, length-set, set-set, All-set}
use infinity_station.Mvb.Frame.{IsByte, bit_of, with_bit}
use infinity_station.Mvb.Frame.BitSet.{set_bit_set_value_inside, with_bit-same}
use infinity_station.Mvb.Frame.BitSet.{bit_of-with_bit_self, bit_of-with_bit_ne, with_bit-IsByte}
use infinity_station.Mvb.Ningbo.{NbGenerator, IsValid, write_bit}
use native.Mathlib.Decide.{ℕ_discrete}

-- The generator with one digit of one byte written.
unfoldable pub with_digit : ℕ → ℕ → Bool → NbGenerator → NbGenerator
with_digit offset digit v g = record g {
  bytes = set g.bytes offset (with_bit (get_or g.bytes offset 0) digit v);
}

pub write_bit-with_digit :
    (offset beginbit endbit digit : ℕ) (v : Bool) (g : NbGenerator)
    → IsValid g
    → offset < 72
    → digit < 8
    → write_bit offset beginbit endbit digit v g ≡ some (with_digit offset digit v g)
unfolding write_bit with_digit
write_bit-with_digit offset beginbit endbit digit v g valid lt low = rw (
    set_bit_set_value_inside offset beginbit endbit digit v g.bytes valid.small (rw valid.full lt)
      low)

-- Digit `j` of byte `p` of the frame.
abbrev pub digit_at : NbGenerator → ℕ → ℕ → ℕ
digit_at g p j = bit_of (get_or g.bytes p 0) j

module _ (offset digit : ℕ) (v : Bool) (g : NbGenerator) (valid : IsValid g) (lt : offset < 72)
    (low : digit < 8) where
  byte : IsByte (get_or g.bytes offset 0)
  byte = All-get_or IsByte g.bytes offset 0 valid.small (rw valid.full lt)

  pub with_digit-IsValid : IsValid (with_digit offset digit v g)
  unfolding with_digit
  with_digit-IsValid = record {
    full = length-set g.bytes offset _ ∙ valid.full;
    small = All-set IsByte g.bytes offset _ valid.small (with_bit-IsByte _ digit byte low v);
    comid_fits = valid.comid_fits;
    soft_version_fits = valid.soft_version_fits;
    msg_type_fits = valid.msg_type_fits;
    pms_version_fits = valid.pms_version_fits;
  }

  digit_at_self : digit_at (with_digit offset digit v g) offset digit ≡ (if v then 1 else 0)
  unfolding with_digit
  digit_at_self =
      rw
        (get_or-set_self g.bytes offset (with_bit (get_or g.bytes offset 0) digit v) 0
          (rw valid.full lt))
        (bit_of-with_bit_self _ digit byte low v)

  digit_at_ne :
      (j : ℕ)
      → j < 8
      → digit ≢ j
      → digit_at (with_digit offset digit v g) offset j ≡ digit_at g offset j
  unfolding with_digit
  digit_at_ne j lt_j ne =
      rw
        (get_or-set_self g.bytes offset (with_bit (get_or g.bytes offset 0) digit v) 0
          (rw valid.full lt))
        (bit_of-with_bit_ne _ digit byte low j v lt_j ne)

  digit_at_elsewhere :
      (p j : ℕ) → offset ≢ p → digit_at (with_digit offset digit v g) p j ≡ digit_at g p j
  unfolding with_digit
  digit_at_elsewhere p j ne =
      rw (get_or-set_ne g.bytes offset p (with_bit (get_or g.bytes offset 0) digit v) 0 ne)

  pub with_digit-same :
      (w : Bool)
      → with_digit offset digit v (with_digit offset digit w g) ≡ with_digit offset digit v g
  unfolding with_digit
  with_digit-same w =
      let old = get_or g.bytes offset 0 in
      rw (
        get_or-set_self g.bytes offset (with_bit old digit w) 0 (rw valid.full lt),
        with_bit-same old digit byte low v w,
        set-set g.bytes offset (with_bit old digit v) (with_bit old digit w),
      )

  -- Every digit of the frame after the write.
  pub digit_at-with_digit :
      (p j : ℕ)
      → j < 8
      → digit_at (with_digit offset digit v g) p j
        ≡ (if p == offset && j == digit then (if v then 1 else 0) else digit_at g p j)
  digit_at-with_digit p j lt_j = elim (ℕ_discrete offset p) [
    | yes here ↦ elim (ℕ_discrete digit j) [
      | yes same ↦ rw (← here, ← same) (ground (arith, digit_at_self))
      | no other ↦ rw (← here) (ground (arith, digit_at_ne j lt_j other))
    ]
    | no away ↦ ground (arith, digit_at_elsewhere p j away)
  ]
