-- ===== src/Mvb/Fcs/Bitwise.antt =====
-- The table-driven checksum is the bitwise one: the reflected CRC-32 of polynomial 0xEDB88320.
use infinity_station.Base.{ℕ, zero, suc, ◌+◌, ◌/◌, ◌%◌, ◌≤◌, ◌<◌, bit_xor, List, [], ◌∷◌}
use infinity_station.Base.{◌≡◌, refl, ◌∙◌, true, ◌==◌, ==_iff, ltb, if◌then◌else◌}
use infinity_station.Base.{some, arith, length, get_or, take, drop, All, All-get_or}
use infinity_station.Base.{get_elem?-eq-get_or, drop-cons, Bool-cases}
use native.Mathlib.Numerals.{add-one}
use infinity_station.Base.{inl, inr}
use infinity_station.Base.Bits.Xor.{xor-zero}
use infinity_station.Base.Bits.Xor.{xor-shift}
use infinity_station.Base.Bits.Shift.{shift_bits, shift_eight-split}
use infinity_station.Base.Bits.Table.{every_below, every_below_at}
use infinity_station.Mvb.Fcs.{fcstab, fcs_step, fcs_loop, calc_fcs32}

-- The polynomial, its lowest digit first.
abbrev pub crc32 : ℕ
crc32 = 0xedb8_8320

-- The reference: every byte is added to the low end of the register and shifted through.
unfoldable pub crc_bytes : ℕ → List ℕ → ℕ
crc_bytes s [] = s
crc_bytes s (b ∷ bs) = crc_bytes (shift_bits crc32 8 (bit_xor s b)) bs

fcstab_table : every_below 256 (λ x. get_or fcstab x 0 == shift_bits crc32 8 x) ≡ true
unfolding every_below fcstab shift_bits
fcstab_table = refl

table_entry : (x : ℕ) → x < 256 → get_or fcstab x 0 ≡ shift_bits crc32 8 x
table_entry x h = (==_iff _ _).0 (every_below_at x 256 _ fcstab_table h)

-- Eight digits at a time: the high bytes move down, the low byte goes through the table.
shift_eight_table : (x : ℕ) → shift_bits crc32 8 x ≡ bit_xor (x / 256) (get_or fcstab (x % 256) 0)
shift_eight_table x = shift_eight-split crc32 x ∙ rw (table_entry (x % 256) (omega arith))

pub fcs_step-eq-shift : (s b : ℕ) → b < 256 → fcs_step s b ≡ shift_bits crc32 8 (bit_xor s b)
unfolding fcs_step
fcs_step-eq-shift s b h =
    rw (shift_eight_table (bit_xor s b), xor-shift 8 s b, high) (rw (xor-zero (s / 256)))
  where
    high : b / 256 ≡ 0
    high = omega arith

-- The loop over a frame of bytes never throws inside the frame, and is the reference.
pub fcs_loop-crc_bytes :
    (left i s : ℕ) (frame : List ℕ)
    → All (λ b. b < 256) frame
    → i + left ≤ length frame
    → fcs_loop left i s frame ≡ some (crc_bytes s (take left (drop i frame)))
unfolding fcs_loop crc_bytes
fcs_loop-crc_bytes zero i s frame h fits = refl
fcs_loop-crc_bytes (suc left) i s frame h fits =
    rw (get_elem?-eq-get_or frame i 0 (omega arith), drop-cons frame i 0 (omega arith))
      (rw (fcs_step-eq-shift s (get_or frame i 0) (All-get_or _ frame i 0 h (omega arith)), add-one)
        (fcs_loop-crc_bytes left (suc i) _ frame h (omega arith)))

-- On a frame of bytes `calc_fcs32` always returns: for a length inside the frame the complement
-- of the bitwise reference, started from the given register; for a longer one 0xffffffff.
pub calc_fcs32-crc :
    (len fcs : ℕ) (frame : List ℕ)
    → All (λ b. b < 256) frame
    → calc_fcs32 len fcs frame
      ≡ some (
          if ltb (length frame) len
          then 0xffff_ffff
          else bit_xor (crc_bytes fcs (take len frame)) 0xffff_ffff)
unfolding calc_fcs32
calc_fcs32-crc len fcs frame h = elim (Bool-cases (ltb (length frame) len)) [
  | inl long ↦ rw long
  | inr inside ↦ rw inside (rw (fcs_loop-crc_bytes len 0 fcs frame h (ground arith)))
]
