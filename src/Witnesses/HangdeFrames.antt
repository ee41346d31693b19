-- ===== src/Witnesses/HangdeFrames.antt =====
-- Concrete frames and generators for the theorems of Mvb/Modbus, Mvb/Hangde, Mvb/Parse and
-- Mvb/ByteArray.
use infinity_station.Base.{ℕ, ◌≡◌, refl, false, some, none, List, replicate, arith, take}
use infinity_station.Mvb.Modbus.{modbus_crc16, modbus_loop}
use infinity_station.Mvb.Modbus.Bitwise.{crc16_bytes, modbus_crc16-crc, modbus_loop-endless}
use infinity_station.Mvb.Hangde.{HdGenerator, new_hd_generator}
use infinity_station.Mvb.Hangde.Sealed.{IsHdValid}

abbrev hd : HdGenerator
hd = new_hd_generator false

hd-IsHdValid : IsHdValid hd
unfolding new_hd_generator
hd-IsHdValid = record { full = refl; small = omega arith }

abbrev sevens : List ℕ
sevens = replicate 90 7

modbus_crc16-crc_example : modbus_crc16 sevens 44 ≡ some (crc16_bytes 0xffff (take 44 sevens))
modbus_crc16-crc_example = modbus_crc16-crc sevens 44 (omega arith) (omega arith) (omega arith)

abbrev long_buffer : List ℕ
long_buffer = replicate 300 7

modbus_loop-endless_example : modbus_loop 100000 256 0 (0xff, 0xff) long_buffer ≡ none
modbus_loop-endless_example =
    modbus_loop-endless 100000 256 0 (0xff, 0xff) long_buffer (omega arith) (omega arith)
      (omega arith)
