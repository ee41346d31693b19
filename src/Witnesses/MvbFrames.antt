-- ===== src/Witnesses/MvbFrames.antt =====
-- Concrete frames for the theorems on checksums, digits and fields of Mvb/Fcs and Mvb/Frame.
use infinity_station.Base.{ℕ, ◌≡◌, refl, false, List, [], ◌∷◌, ◌++◌, some}
use infinity_station.Base.{arith, length, take, bit_xor, ltb, if◌then◌else◌, ◌%◌, ◌*◌, ◌^◌}
use infinity_station.Mvb.Fcs.{calc_fcs32, fcstab}
use infinity_station.Mvb.Fcs.Bitwise.{crc_bytes, calc_fcs32-crc}
use infinity_station.Mvb.Fcs.Residue.{low_bytes}
use infinity_station.Mvb.Fcs.Detection.{calc_fcs32_residue, calc_fcs32_burst}
use infinity_station.Mvb.Frame.{set_value}
use infinity_station.Mvb.Frame.Read.{read_value, read_value-set_value}

abbrev digits : List ℕ
digits = 0x31 ∷ 0x32 ∷ 0x33 ∷ 0x34 ∷ 0x35 ∷ []

calc_fcs32-crc_example :
    calc_fcs32 5 0xffff_ffff digits
    ≡ some (
        if ltb (length digits) 5
        then 0xffff_ffff
        else bit_xor (crc_bytes 0xffff_ffff (take 5 digits)) 0xffff_ffff)
calc_fcs32-crc_example = calc_fcs32-crc 5 0xffff_ffff digits (omega arith)

digits_sum : calc_fcs32 (length digits) 0xffff_ffff digits ≡ some 0xcbf5_3a1c
unfolding calc_fcs32 fcstab
digits_sum = refl

calc_fcs32_residue_example :
    calc_fcs32
      (length (digits ++ low_bytes 4 0xcbf5_3a1c))
      0xffff_ffff
      (digits ++ low_bytes 4 0xcbf5_3a1c)
    ≡ some 0x2144_df1c
calc_fcs32_residue_example = calc_fcs32_residue digits 0xcbf5_3a1c (omega arith) digits_sum

abbrev four : List ℕ
four = 1 ∷ 2 ∷ 3 ∷ 4 ∷ []

calc_fcs32_burst_example : four ≡ four
calc_fcs32_burst_example =
    calc_fcs32_burst digits four four digits (omega arith) (omega arith) (omega arith) (omega arith)
      refl refl refl

read_value-set_value_example :
    read_value 2 1 false (set_value 2 1 2 0x1_2345 false digits) ≡ 0x1_2345 % 2 ^ (2 * 8)
read_value-set_value_example =
    read_value-set_value 2 1 0x1_2345 digits (omega arith) false (omega arith)
