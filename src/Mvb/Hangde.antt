-- ===== src/Mvb/Hangde.antt =====
-- modules/mvb_service/mvbprocessmsg/hangde/MVBHDDataGenerator.{h,cpp}: the frame generator of the
-- Hangde line. `setBitSetValue` and `setValue` are those of Mvb/Frame, word for word.
pub mod Sealed
pub mod Alarms
use infinity_station.Base.{
  ℕ, ◌+◌, ◌%◌, ◌^◌, Bool, true, false, List, [], ◌∷◌, replicate, Option, none, some, ◌>>=◌,
}
use infinity_station.Base.Int.{ℤ}
use infinity_station.Mvb.Frame.{set_bit_set_value, set_value}
use infinity_station.Mvb.Modbus.{modbus_crc16}
use infinity_station.Mvb.Ningbo.{switch_level}
use infinity_station.Mvb.Ningbo.Alarms.{Alarm, temp_alarm, cat_off_alarm, cat_hei_alarm, arc_alarm}
use infinity_station.Mvb.Ningbo.Faults.{
  Fault, pms_geo_abr_mod_fault, pms_arc_mod_fault, pms_tmp_mod_fault,
}
use infinity_station.Mvb.Generator.{DataGenerator}

-- The fields of a class object, the integers as bit patterns.
pub record HdGenerator : Type 0 where
  pub bytes : List ℕ
  pub is_big_endian : Bool
  pub comid : ℕ
  pub unitnum : ℕ
  pub carnum : ℕ
  pub pms_version : ℕ

unfoldable pub new_hd_generator : Bool → HdGenerator
new_hd_generator host_is_big = record {
  bytes = replicate 46 0;
  is_big_endian = host_is_big;
  comid = 0;
  unitnum = 0;
  carnum = 0;
  pms_version = 0;
}

unfoldable pub write_bit : ℕ → ℕ → ℕ → ℕ → Bool → HdGenerator → Option HdGenerator
write_bit offset beginbit endbit modbit value g = do
  written ← set_bit_set_value offset beginbit endbit modbit value g.bytes
  some (record g { bytes = written })

unfoldable pub write_value : ℕ → ℕ → ℕ → ℕ → Bool → HdGenerator → HdGenerator
write_value size offset len value order g = record g {
  bytes = set_value size offset len value order g.bytes;
}

unfoldable pub set_temp_alarm : ℤ → HdGenerator → Option HdGenerator
unfolding write_bit switch_level
set_temp_alarm level g =
    switch_level level (write_bit 32 6 7 6 true g >>= write_bit 33 0 0 0 false)
      (write_bit 32 6 7 7 true g >>= write_bit 33 0 0 0 false)
      (write_bit 32 6 7 6 false g >>= write_bit 33 0 0 0 true)
      (write_bit 32 6 7 6 false g >>= write_bit 33 0 0 0 false)

unfoldable pub set_cat_off_alarm : ℤ → HdGenerator → Option HdGenerator
unfolding write_bit switch_level
set_cat_off_alarm level g =
    switch_level level (write_bit 32 0 2 0 true g) (write_bit 32 0 2 1 true g)
      (write_bit 32 0 2 2 true g) (write_bit 32 0 2 2 false g)

unfoldable pub set_cat_hei_alarm : ℤ → HdGenerator → Option HdGenerator
unfolding write_bit switch_level
set_cat_hei_alarm level g =
    switch_level level (write_bit 32 3 5 3 true g) (write_bit 32 3 5 4 true g)
      (write_bit 32 3 5 5 true g) (write_bit 32 3 5 5 false g)

unfoldable pub set_arc_alarm : ℤ → HdGenerator → Option HdGenerator
unfolding write_bit switch_level
set_arc_alarm level g =
    switch_level level (write_bit 33 1 3 1 true g) (write_bit 33 1 3 2 true g)
      (write_bit 33 1 3 3 true g) (write_bit 33 1 3 1 false g)

-- The setters that the header gives an empty body are the last clause.
unfoldable pub set_alarm : Alarm → ℤ → HdGenerator → Option HdGenerator
unfolding set_temp_alarm set_cat_off_alarm set_cat_hei_alarm set_arc_alarm
set_alarm temp_alarm level g = set_temp_alarm level g
set_alarm cat_off_alarm level g = set_cat_off_alarm level g
set_alarm cat_hei_alarm level g = set_cat_hei_alarm level g
set_alarm arc_alarm level g = set_arc_alarm level g
set_alarm a level g = some g

unfoldable pub set_fault : Fault → Bool → HdGenerator → Option HdGenerator
unfolding write_bit
set_fault pms_geo_abr_mod_fault value g = write_bit 33 4 4 4 value g
set_fault pms_arc_mod_fault value g = write_bit 33 6 6 6 value g
set_fault pms_tmp_mod_fault value g = write_bit 33 5 5 5 value g
set_fault f value g = some g

unfoldable pub set_sleep_cmd : Bool → HdGenerator → Option HdGenerator
unfolding write_bit
set_sleep_cmd value g = write_bit 34 0 0 0 value g

unfoldable pub set_pms_alive : ℕ → HdGenerator → HdGenerator
unfolding write_value
set_pms_alive alive g =
    let counted = write_value 4 4 4 alive g.is_big_endian g in
    write_value 2 24 2 alive counted.is_big_endian counted

unfoldable pub set_pms_com_id : ℕ → HdGenerator → HdGenerator
unfolding write_value
set_pms_com_id comid g = write_value 4 12 4 comid g.is_big_endian g

-- What std::localtime gives for the moment of the call: the fields of tm that are read.
pub record LocalTime : Type 0 where
  pub tm_year : ℕ
  pub tm_mon : ℕ
  pub tm_mday : ℕ
  pub tm_hour : ℕ
  pub tm_min : ℕ
  pub tm_sec : ℕ

unfoldable pub init_system_time : LocalTime → HdGenerator → HdGenerator
unfolding write_value
init_system_time now g =
    let order = g.is_big_endian in
    let year = write_value 1 26 1 ((now.tm_year + 1900) % 100 % 2 ^ 8) order g in
    let month = write_value 1 27 1 ((now.tm_mon + 1) % 2 ^ 8) order year in
    let day = write_value 1 28 1 (now.tm_mday % 2 ^ 8) order month in
    let hour = write_value 1 29 1 (now.tm_hour % 2 ^ 8) order day in
    let minute = write_value 1 30 1 (now.tm_min % 2 ^ 8) order hour in
    write_value 1 31 1 (now.tm_sec % 2 ^ 8) order minute

unfoldable pub init_common_info : LocalTime → HdGenerator → HdGenerator
unfolding write_value set_pms_com_id init_system_time
init_common_info now g =
    let order = g.is_big_endian in
    let head = write_value 2 0 2 0x6968 true g in
    let flow = write_value 1 2 1 0xeb true head in
    let system = write_value 1 3 1 0x04 true flow in
    let named = set_pms_com_id g.comid system in
    let unit = write_value 1 16 1 (g.unitnum % 2 ^ 8) order named in
    let car = write_value 1 17 1 (g.carnum % 2 ^ 8) order unit in
    let sized = write_value 2 22 2 20 order car in
    write_value 2 36 2 (g.pms_version % 2 ^ 16) order (init_system_time now sized)

-- The frame with its checksum; without one the loop of the checksum has not ended.
unfoldable pub seal : Option ℕ → HdGenerator → List ℕ × HdGenerator
unfolding write_value
seal none g = (g.bytes, g)
seal (some sum) g = let sealed = write_value 2 44 2 sum g.is_big_endian g in (sealed.bytes, sealed)

-- The checksum of 44 bytes always ends.
unfoldable pub get_pms_data : HdGenerator → List ℕ × HdGenerator
unfolding seal
get_pms_data g = seal (modbus_crc16 g.bytes 44) g

-- Loading and converting the file is YAML's: the argument `load`, with `none` for an exception.
unfoldable pub init_config_info : (List ℕ → Option ℕ) → List ℕ → HdGenerator → Option HdGenerator
init_config_info load [] g = some g
init_config_info load (c ∷ path) g = do
  comid ← load (c ∷ path)
  some (record g { comid = comid % 2 ^ 32 })

-- The generator of the Hangde line at a given time.
unfoldable pub hangde_generator : LocalTime → DataGenerator HdGenerator
hangde_generator now = record {
  set_alarm = set_alarm;
  set_fault = set_fault;
  get_pms_data = get_pms_data;
  set_pms_alive = set_pms_alive;
  init_common_info = λ g. some (init_common_info now g);
  set_sleep_cmd = set_sleep_cmd;
}
