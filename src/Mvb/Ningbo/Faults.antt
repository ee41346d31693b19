-- ===== src/Mvb/Ningbo/Faults.antt =====
-- The module status setters of ningbo8/MVBNBDataGenerator.cpp, one by one as the source writes them.
pub mod Effect
use infinity_station.Base.{ℕ, Bool, Option, some}
use infinity_station.Mvb.Ningbo.{NbGenerator, write_bit}

set_pms_camera_fault : Bool → NbGenerator → Option NbGenerator
unfolding write_bit
set_pms_camera_fault value g = write_bit 50 1 1 1 value g

set_pms_geo_abr_mod_fault : Bool → NbGenerator → Option NbGenerator
unfolding write_bit
set_pms_geo_abr_mod_fault value g = write_bit 50 5 5 5 value g

set_pms_arc_mod_fault : Bool → NbGenerator → Option NbGenerator
unfolding write_bit
set_pms_arc_mod_fault value g = write_bit 50 2 2 2 value g

set_pms_tmp_mod_fault : Bool → NbGenerator → Option NbGenerator
unfolding write_bit
set_pms_tmp_mod_fault value g = write_bit 50 0 0 0 value g

set_pms_ipan_mod_status : Bool → NbGenerator → Option NbGenerator
set_pms_ipan_mod_status value g = some g

set_pms_com_mod_fault : Bool → NbGenerator → Option NbGenerator
unfolding write_bit
set_pms_com_mod_fault value g = write_bit 50 6 6 6 value g

set_pms_commu_mod_fault : Bool → NbGenerator → Option NbGenerator
unfolding write_bit
set_pms_commu_mod_fault value g = write_bit 50 7 7 7 value g

set_pms_hard_pot_mod_fault : Bool → NbGenerator → Option NbGenerator
unfolding write_bit
set_pms_hard_pot_mod_fault value g = write_bit 50 3 3 3 value g

set_pms_pressure_mod_fault : Bool → NbGenerator → Option NbGenerator
unfolding write_bit
set_pms_pressure_mod_fault value g = write_bit 50 4 4 4 value g

set_pms_xunjian_mod_fault : Bool → NbGenerator → Option NbGenerator
unfolding write_bit
set_pms_xunjian_mod_fault value g = write_bit 50 1 1 1 value g

set_ret_rail_geo_mod_fault : Bool → NbGenerator → Option NbGenerator
unfolding write_bit
set_ret_rail_geo_mod_fault value g = write_bit 50 2 2 2 value g

set_ret_rail_camera_fault : Bool → NbGenerator → Option NbGenerator
unfolding write_bit
set_ret_rail_camera_fault value g = write_bit 51 3 3 3 value g

set_ret_rail_hard_pot_mod_fault : Bool → NbGenerator → Option NbGenerator
unfolding write_bit
set_ret_rail_hard_pot_mod_fault value g = write_bit 51 4 4 4 value g

set_nvr_dsk_fault : Bool → NbGenerator → Option NbGenerator
unfolding write_bit
set_nvr_dsk_fault value g = write_bit 51 0 0 0 value g

set_pms_checking : Bool → NbGenerator → Option NbGenerator
unfolding write_bit
set_pms_checking value g = write_bit 60 7 7 7 value g

set_pms_check_complete : Bool → NbGenerator → Option NbGenerator
unfolding write_bit
set_pms_check_complete value g = write_bit 60 5 5 5 value g

set_pms_check_res : Bool → NbGenerator → Option NbGenerator
unfolding write_bit
set_pms_check_res value g = write_bit 60 4 4 4 value g

unfoldable pub set_sleep_cmd : Bool → NbGenerator → Option NbGenerator
unfolding write_bit
set_sleep_cmd value g = write_bit 60 3 3 3 value g

-- The member functions that take a status.
pub data Fault : Type 0 where
  pms_camera_fault pms_geo_abr_mod_fault pms_arc_mod_fault pms_tmp_mod_fault pms_ipan_mod_status
        pms_com_mod_fault pms_commu_mod_fault pms_hard_pot_mod_fault pms_pressure_mod_fault
        pms_xunjian_mod_fault ret_rail_geo_mod_fault ret_rail_camera_fault
        ret_rail_hard_pot_mod_fault nvr_dsk_fault pms_checking pms_check_complete pms_check_res :
      Fault

-- A call through a pointer to one of them.
unfoldable pub set_fault : Fault → Bool → NbGenerator → Option NbGenerator
unfolding set_pms_camera_fault set_pms_geo_abr_mod_fault set_pms_arc_mod_fault set_pms_tmp_mod_fault
    set_pms_ipan_mod_status set_pms_com_mod_fault set_pms_commu_mod_fault set_pms_hard_pot_mod_fault
    set_pms_pressure_mod_fault set_pms_xunjian_mod_fault set_ret_rail_geo_mod_fault
    set_ret_rail_camera_fault set_ret_rail_hard_pot_mod_fault set_nvr_dsk_fault set_pms_checking
    set_pms_check_complete set_pms_check_res
set_fault pms_camera_fault = set_pms_camera_fault
set_fault pms_geo_abr_mod_fault = set_pms_geo_abr_mod_fault
set_fault pms_arc_mod_fault = set_pms_arc_mod_fault
set_fault pms_tmp_mod_fault = set_pms_tmp_mod_fault
set_fault pms_ipan_mod_status = set_pms_ipan_mod_status
set_fault pms_com_mod_fault = set_pms_com_mod_fault
set_fault pms_commu_mod_fault = set_pms_commu_mod_fault
set_fault pms_hard_pot_mod_fault = set_pms_hard_pot_mod_fault
set_fault pms_pressure_mod_fault = set_pms_pressure_mod_fault
set_fault pms_xunjian_mod_fault = set_pms_xunjian_mod_fault
set_fault ret_rail_geo_mod_fault = set_ret_rail_geo_mod_fault
set_fault ret_rail_camera_fault = set_ret_rail_camera_fault
set_fault ret_rail_hard_pot_mod_fault = set_ret_rail_hard_pot_mod_fault
set_fault nvr_dsk_fault = set_nvr_dsk_fault
set_fault pms_checking = set_pms_checking
set_fault pms_check_complete = set_pms_check_complete
set_fault pms_check_res = set_pms_check_res
