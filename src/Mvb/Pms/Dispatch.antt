-- ===== src/Mvb/Pms/Dispatch.antt =====
-- The table of alarm setters against the alarm numbers of mvbprocessmsg/MVBCommonData.h.
use infinity_station.Base.{ℕ, ◌≡◌, refl, some, ◌>>=◌}
use infinity_station.Base.Int.{ℤ}
use infinity_station.Mvb.Generator.{DataGenerator}
use infinity_station.Mvb.Ningbo.Alarms.{
  Alarm, temp_alarm, cat_off_alarm, cat_hei_alarm, arc_alarm, str_alarm, acc_alarm, yang_jiao_alarm,
  tan_hua_ban_alarm, gong_tou_alarm, contact_forc_alarm, ret_rail_hspace_alarm,
  ret_rail_vspace_alarm, ret_rail_hard_pot_alarm, diversion_wire_alarm,
}
use infinity_station.Mvb.Pms.{PmsGenerator, new_pms_generator, init_set_alarm_func, set_alarm_info}

-- ARMINFO_AlarmType
unfoldable pub alarm_number : Alarm → ℕ
alarm_number temp_alarm = 1
alarm_number cat_off_alarm = 2
alarm_number cat_hei_alarm = 3
alarm_number arc_alarm = 4
alarm_number str_alarm = 5
alarm_number acc_alarm = 6
alarm_number yang_jiao_alarm = 7
alarm_number tan_hua_ban_alarm = 8
alarm_number gong_tou_alarm = 9
alarm_number contact_forc_alarm = 10
alarm_number ret_rail_hspace_alarm = 11
alarm_number ret_rail_vspace_alarm = 12
alarm_number ret_rail_hard_pot_alarm = 13
alarm_number diversion_wire_alarm = 14

-- The setter that the number of an alarm reaches.
unfoldable pub reached : Alarm → Alarm
reached temp_alarm = cat_off_alarm
reached cat_off_alarm = cat_hei_alarm
reached cat_hei_alarm = arc_alarm
reached arc_alarm = cat_hei_alarm
reached a = a

module _ {G : Type 0} (d : DataGenerator G) (g : G) where
  abbrev ready : PmsGenerator G
  ready = init_set_alarm_func (new_pms_generator (some g))

  -- With the table filled by `init_set_alarm_func`, the numbers of the first four alarms reach
  -- the setter of another alarm, and those of the other ten their own.
  pub set_alarm_info_cases :
      (a : Alarm) (level : ℤ)
      → set_alarm_info d (alarm_number a) level ready
        ≡ (d.set_alarm (reached a) level g >>= λ g'. some (record ready { generator = some g' }))
  unfolding set_alarm_info alarm_number reached init_set_alarm_func new_pms_generator
  set_alarm_info_cases temp_alarm level = refl
  set_alarm_info_cases cat_off_alarm level = refl
  set_alarm_info_cases cat_hei_alarm level = refl
  set_alarm_info_cases arc_alarm level = refl
  set_alarm_info_cases str_alarm level = refl
  set_alarm_info_cases acc_alarm level = refl
  set_alarm_info_cases yang_jiao_alarm level = refl
  set_alarm_info_cases tan_hua_ban_alarm level = refl
  set_alarm_info_cases gong_tou_alarm level = refl
  set_alarm_info_cases contact_forc_alarm level = refl
  set_alarm_info_cases ret_rail_hspace_alarm level = refl
  set_alarm_info_cases ret_rail_vspace_alarm level = refl
  set_alarm_info_cases ret_rail_hard_pot_alarm level = refl
  set_alarm_info_cases diversion_wire_alarm level = refl
