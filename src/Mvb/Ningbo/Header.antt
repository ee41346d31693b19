-- ===== src/Mvb/Ningbo/Header.antt =====
-- The numbers of the frame: `setPMSAlive`, `setPMSComID`, `initCommonInfo`, `initConfigInfo` and
-- `getPmsData` of ningbo8/MVBNBDataGenerator.cpp.
pub mod Layout
pub mod Beat
pub mod Checksum
pub mod Fields
use infinity_station.Base.{ℕ, ◌%◌, ◌^◌, true, false, Bool, List, [], ◌∷◌, Option, none, some, ◌>>=◌}
use infinity_station.Mvb.Frame.{set_value}
use infinity_station.Mvb.Fcs.{calc_fcs32}
use infinity_station.Mvb.Ningbo.{NbGenerator}

-- A call of the member `setValue`.
unfoldable pub write_value : ℕ → ℕ → ℕ → ℕ → Bool → NbGenerator → NbGenerator
write_value size offset len value is_big_endian g = record g {
  bytes = set_value size offset len value is_big_endian g.bytes;
}

unfoldable pub set_pms_alive : ℕ → NbGenerator → NbGenerator
unfolding write_value
set_pms_alive alive g =
    let g' = write_value 4 0 4 alive g.is_big_endian g in
    write_value 2 40 2 alive g'.is_big_endian g'

unfoldable pub set_pms_com_id : ℕ → NbGenerator → NbGenerator
unfolding write_value
set_pms_com_id comid g = write_value 4 8 4 comid g.is_big_endian g

-- `initCommonInfo` up to the checksum, and after it.
unfoldable pub init_fields : NbGenerator → NbGenerator
unfolding write_value
init_fields g =
    let g' = write_value 2 4 2 g.soft_version g.is_big_endian g in
    let g'' = write_value 2 6 2 g'.msg_type g'.is_big_endian g' in
    write_value 4 20 4 32 g''.is_big_endian g''

unfoldable pub init_common_info : NbGenerator → Option NbGenerator
unfolding init_fields set_pms_com_id
init_common_info g = do
  let g' = init_fields g
  fcsresult ← calc_fcs32 36 0xffff_ffff g'.bytes
  let summed = write_value 4 36 4 fcsresult true g'
  let versioned = write_value 2 70 2 summed.pms_version summed.is_big_endian summed
  some (set_pms_com_id versioned.comid versioned)

unfoldable pub get_pms_data : NbGenerator → List ℕ × NbGenerator
get_pms_data g = (g.bytes, g)

-- What `initConfigInfo` reads of the configuration, as bit patterns.
pub record ConfigNode : Type 0 where
  pub comid : ℕ
  pub softversion : ℕ
  pub msgtype : ℕ
  pub pmsversion : ℕ

-- Loading and converting the file is YAML's: the argument `load`, with `none` for an exception.
unfoldable pub init_config_info :
    (List ℕ → Option ConfigNode) → List ℕ → NbGenerator → Option NbGenerator
init_config_info load [] g = some g
init_config_info load (c ∷ path) g = do
  node ← load (c ∷ path)
  some (record g {
    comid = node.comid % 2 ^ 32;
    soft_version = node.softversion % 2 ^ 16;
    msg_type = node.msgtype % 2 ^ 16;
    pms_version = node.pmsversion % 2 ^ 16;
  })
