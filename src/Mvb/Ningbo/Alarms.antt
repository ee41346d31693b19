-- ===== src/Mvb/Ningbo/Alarms.antt =====
-- The alarm setters of ningbo8/MVBNBDataGenerator.cpp, one by one as the source writes them.
pub mod Effect
pub mod Levels
use infinity_station.Base.{ℕ, Bool, true, false, Option, some}
use infinity_station.Base.Int.{ℤ}
use infinity_station.Mvb.Ningbo.{NbGenerator, write_bit, switch_level}

set_temp_alarm : ℤ → NbGenerator → Option NbGenerator
unfolding write_bit switch_level
set_temp_alarm level g =
    switch_level level (write_bit 44 0 2 0 true g) (write_bit 44 0 2 1 true g)
      (write_bit 44 0 2 2 true g) (write_bit 44 0 2 0 false g)

set_cat_off_alarm : ℤ → NbGenerator → Option NbGenerator
unfolding write_bit switch_level
set_cat_off_alarm level g =
    switch_level level (write_bit 46 0 2 0 true g) (write_bit 46 0 2 1 true g)
      (write_bit 46 0 2 2 true g) (write_bit 46 0 2 0 false g)

set_cat_hei_alarm : ℤ → NbGenerator → Option NbGenerator
unfolding write_bit switch_level
set_cat_hei_alarm level g =
    switch_level level (write_bit 47 0 2 9 true g) (write_bit 47 0 2 1 true g)
      (write_bit 47 0 2 2 true g) (write_bit 47 0 2 0 false g)

set_arc_alarm : ℤ → NbGenerator → Option NbGenerator
unfolding write_bit switch_level
set_arc_alarm level g =
    switch_level level (write_bit 43 0 2 0 true g) (write_bit 43 0 2 1 true g)
      (write_bit 43 0 2 2 true g) (write_bit 43 0 2 0 false g)

set_str_alarm : ℤ → NbGenerator → Option NbGenerator
unfolding write_bit switch_level
set_str_alarm level g =
    switch_level level (write_bit 42 0 2 0 true g) (write_bit 42 0 2 1 true g)
      (write_bit 42 0 2 2 true g) (write_bit 42 0 2 0 false g)

set_acc_alarm : ℤ → NbGenerator → Option NbGenerator
unfolding write_bit switch_level
set_acc_alarm level g =
    switch_level level (write_bit 45 0 2 0 true g) (write_bit 45 0 2 1 true g)
      (write_bit 45 0 2 2 true g) (write_bit 45 0 2 0 false g)

set_yang_jiao_alarm : ℤ → NbGenerator → Option NbGenerator
unfolding write_bit switch_level
set_yang_jiao_alarm level g =
    switch_level level (write_bit 42 4 6 4 true g) (write_bit 42 4 6 5 true g)
      (write_bit 42 4 6 6 true g) (write_bit 42 4 6 4 false g)

set_tan_hua_ban_alarm : ℤ → NbGenerator → Option NbGenerator
unfolding write_bit switch_level
set_tan_hua_ban_alarm level g =
    switch_level level (write_bit 43 4 6 4 true g) (write_bit 43 4 6 5 true g)
      (write_bit 43 4 6 6 true g) (write_bit 43 4 6 4 false g)

set_gong_tou_alarm : ℤ → NbGenerator → Option NbGenerator
set_gong_tou_alarm level g = some g

set_contact_forc_alarm : ℤ → NbGenerator → Option NbGenerator
unfolding write_bit switch_level
set_contact_forc_alarm level g =
    switch_level level (write_bit 45 4 6 4 true g) (write_bit 45 4 6 5 true g)
      (write_bit 45 4 6 6 true g) (write_bit 45 4 6 4 false g)

set_ret_rail_hspace_alarm : ℤ → NbGenerator → Option NbGenerator
unfolding write_bit switch_level
set_ret_rail_hspace_alarm level g =
    switch_level level (write_bit 46 4 6 4 true g) (write_bit 46 4 6 5 true g)
      (write_bit 46 4 6 6 true g) (write_bit 46 4 6 4 false g)

set_ret_rail_vspace_alarm : ℤ → NbGenerator → Option NbGenerator
unfolding write_bit switch_level
set_ret_rail_vspace_alarm level g =
    switch_level level (write_bit 47 4 6 4 true g) (write_bit 47 4 6 5 true g)
      (write_bit 47 4 6 6 true g) (write_bit 47 4 6 4 false g)

set_ret_rail_hard_pot_alarm : ℤ → NbGenerator → Option NbGenerator
unfolding write_bit switch_level
set_ret_rail_hard_pot_alarm level g =
    switch_level level (write_bit 48 0 2 0 true g) (write_bit 48 0 2 1 true g)
      (write_bit 48 0 2 2 true g) (write_bit 48 0 2 0 false g)

set_diversion_wire_alarm : ℤ → NbGenerator → Option NbGenerator
set_diversion_wire_alarm level g = some g

-- The member functions that take an alarm level.
pub data Alarm : Type 0 where
  temp_alarm cat_off_alarm cat_hei_alarm arc_alarm str_alarm acc_alarm yang_jiao_alarm
        tan_hua_ban_alarm gong_tou_alarm contact_forc_alarm ret_rail_hspace_alarm
        ret_rail_vspace_alarm ret_rail_hard_pot_alarm diversion_wire_alarm :
      Alarm

-- A call through a pointer to one of them.
unfoldable pub set_alarm : Alarm → ℤ → NbGenerator → Option NbGenerator
unfolding set_temp_alarm set_cat_off_alarm set_cat_hei_alarm set_arc_alarm set_str_alarm
    set_acc_alarm set_yang_jiao_alarm set_tan_hua_ban_alarm set_gong_tou_alarm
    set_contact_forc_alarm set_ret_rail_hspace_alarm set_ret_rail_vspace_alarm
    set_ret_rail_hard_pot_alarm set_diversion_wire_alarm
set_alarm temp_alarm = set_temp_alarm
set_alarm cat_off_alarm = set_cat_off_alarm
set_alarm cat_hei_alarm = set_cat_hei_alarm
set_alarm arc_alarm = set_arc_alarm
set_alarm str_alarm = set_str_alarm
set_alarm acc_alarm = set_acc_alarm
set_alarm yang_jiao_alarm = set_yang_jiao_alarm
set_alarm tan_hua_ban_alarm = set_tan_hua_ban_alarm
set_alarm gong_tou_alarm = set_gong_tou_alarm
set_alarm contact_forc_alarm = set_contact_forc_alarm
set_alarm ret_rail_hspace_alarm = set_ret_rail_hspace_alarm
set_alarm ret_rail_vspace_alarm = set_ret_rail_vspace_alarm
set_alarm ret_rail_hard_pot_alarm = set_ret_rail_hard_pot_alarm
set_alarm diversion_wire_alarm = set_diversion_wire_alarm
