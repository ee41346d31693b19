-- ===== src/Mvb/Hangde/Sealed.antt =====
-- The check of the frames that the Hangde generator hands out.
use infinity_station.Base.{ℕ, ◌+◌, ◌≡◌, sym, ap, ◌∙◌, length, All, arith, some}
use infinity_station.Base.{slice_ext, inl}
use infinity_station.Mvb.Frame.{IsByte, set_value}
use infinity_station.Mvb.Frame.Bytes.{set_value_outside, length-set_value, set_value-IsByte}
use infinity_station.Mvb.Frame.Read.{read_value, read_value-set_value}
use infinity_station.Mvb.Modbus.{modbus_crc16}
use infinity_station.Mvb.Modbus.Bitwise.{modbus_crc16_lem, modbus_crc16-crc, crc16_bytes}
use infinity_station.Mvb.Hangde.{HdGenerator, write_value, seal, get_pms_data}

-- What the class keeps between calls.
pub record IsHdValid (g : HdGenerator) : Type 0 where
  pub full : length g.bytes ≡ 46
  pub small : All IsByte g.bytes

get_pms_data_lem :
    (g : HdGenerator) (sum : ℕ)
    → modbus_crc16 g.bytes 44 ≡ some sum
    → (get_pms_data g).0 ≡ set_value 2 44 2 sum g.is_big_endian g.bytes
unfolding get_pms_data seal write_value
get_pms_data_lem g sum is = ap (λ o. (seal o g).0) is

-- Every frame that a valid generator hands out ends, in the byte order of the host, in the
-- checksum of its own first 44 bytes.
pub get_pms_data-sealed :
    (g : HdGenerator)
    → IsHdValid g
    → modbus_crc16 (get_pms_data g).0 44 ≡ some (read_value 2 44 g.is_big_endian (get_pms_data g).0)
get_pms_data-sealed g v =
    let (sum, is, small, same) =
      modbus_crc16_lem g.bytes 44 v.small (omega (arith, v.full)) (omega arith) in
    let sent = set_value 2 44 2 sum g.is_big_endian g.bytes in
    let same_length = length-set_value 2 44 2 sum g.is_big_endian g.bytes in
    rw (get_pms_data_lem g sum is) (
      modbus_crc16-crc sent 44 (set_value-IsByte 2 44 2 sum g.is_big_endian g.bytes v.small)
        (omega (arith, same_length, v.full)) (omega arith)
      ∙ ap (λ bs. some (crc16_bytes 0xffff bs))
          (sym (
            slice_ext 0 0 44 g.bytes sent (omega (arith, v.full)) (sym same_length) (λ i lt. sym (
              set_value_outside 2 44 sum g.bytes (omega (arith, v.full)) g.is_big_endian (0 + i)
                (inl (omega arith))))))
      ∙ ap some (
          sym (
            read_value-set_value 2 44 sum g.bytes (omega (arith, v.full)) g.is_big_endian
              (omega arith)
            ∙ omega (arith, small)
            ∙ same)))
