-- ===== src/Witnesses/MvbCalls.antt =====
-- Concrete generators and calls for the theorems of Mvb/Ningbo and Mvb/Pms.
use infinity_station.Base.{ℕ, ◌≡◌, ◌≢◌, refl, ◌+◌, ◌%◌, ◌^◌, ◌<◌, true, false, List, [], ◌∷◌, some}
use infinity_station.Base.{arith, ◌⊎◌, ◌↔◌, length, get_or, ◌>>=◌}
use infinity_station.Base.Int.{ℤ, pos, negsuc}
use infinity_station.Mvb.Fcs.{calc_fcs32}
use infinity_station.Mvb.Frame.Read.{read_value}
use infinity_station.Mvb.Ningbo.{NbGenerator, IsValid, new_generator}
use infinity_station.Mvb.Ningbo.Alarms.{Alarm, set_alarm}
use infinity_station.Mvb.Ningbo.Alarms.Effect.{alarm_place, alarm_effect, set_alarm_cases}
use infinity_station.Mvb.Ningbo.Faults.{Fault}
use infinity_station.Mvb.Ningbo.Faults.Effect.{fault_place, readme_place, readme_place_cases}
use infinity_station.Mvb.Ningbo.Header.{init_fields, set_pms_alive}
use infinity_station.Mvb.Ningbo.Header.Layout.{field, seal}
use infinity_station.Mvb.Ningbo.Header.Fields.{heartbeat_fields}
use infinity_station.Mvb.Ningbo.Header.Beat.{
  heartbeat, heartbeat_lem, heartbeat-IsValid, HasComid, beat_fcs,
}
use infinity_station.Mvb.Ningbo.Header.Checksum.{heartbeat_checksum}
use infinity_station.Mvb.Ningbo.Session.{
  Call, run, run-IsValid, later_checksum, first_checksum_ne, new_generator-IsValid,
}
use infinity_station.Mvb.Generator.{ningbo_generator}
use infinity_station.Mvb.Pms.{PmsGenerator, set_modulstatus_info}
use infinity_station.Mvb.Pms.Heartbeats.{frames, frames_alive}
use infinity_station.Mvb.Pms.Watchdog.{ticks, ticks_fires}

abbrev blank : NbGenerator
blank = new_generator false

blank-IsValid : IsValid blank
blank-IsValid = new_generator-IsValid false

-- The generator after heartbeat `n` from `g`.
abbrev beaten : ℕ → NbGenerator → NbGenerator
beaten n g = seal (beat_fcs n g) (init_fields (set_pms_alive n g))

beat_blank : heartbeat 1 blank ≡ some (beaten 1 blank)
beat_blank = heartbeat_lem 1 blank blank-IsValid

abbrev calls : List Call
calls =
    Call.alarm Alarm.cat_hei_alarm (pos 1)
    ∷ Call.fault Fault.pms_arc_mod_fault true
    ∷ Call.beat 2
    ∷ []

later-IsValid : IsValid (run (beaten 1 blank) calls)
later-IsValid =
    run-IsValid (beaten 1 blank) calls (heartbeat-IsValid 1 blank _ blank-IsValid beat_blank)

later_checksum_example :
    calc_fcs32 36 0xffff_ffff (beaten 3 (run (beaten 1 blank) calls)).bytes
    ≡ some (field 4 36 true (beaten 3 (run (beaten 1 blank) calls)))
later_checksum_example =
    later_checksum 1 3 calls blank (beaten 1 blank) (beaten 3 (run (beaten 1 blank) calls))
      blank-IsValid beat_blank (heartbeat_lem 3 (run (beaten 1 blank) calls) later-IsValid)

heartbeat_checksum_example :
    (calc_fcs32 36 0xffff_ffff (beaten 1 blank).bytes ≡ some (field 4 36 true (beaten 1 blank)))
    ↔ HasComid blank
heartbeat_checksum_example = heartbeat_checksum 1 blank (beaten 1 blank) blank-IsValid beat_blank

first_checksum_ne_example :
    calc_fcs32 36 0xffff_ffff (beaten 1 blank).bytes ≢ some (field 4 36 true (beaten 1 blank))
first_checksum_ne_example = first_checksum_ne false 1 (beaten 1 blank) beat_blank

heartbeat_fields_example :
    (field 4 0 false (beaten 1 blank) ≡ 1)
    × (field 2 40 false (beaten 1 blank) ≡ 1)
    × (field 2 4 false (beaten 1 blank) ≡ 0x0100)
    × (field 2 6 false (beaten 1 blank) ≡ 0x5064)
    × (field 4 20 false (beaten 1 blank) ≡ 32)
    × (field 2 70 false (beaten 1 blank) ≡ 0x1234)
    × (field 4 8 false (beaten 1 blank) ≡ 42150)
unfolding new_generator
heartbeat_fields_example =
    heartbeat_fields 1 blank (beaten 1 blank) blank-IsValid (omega arith) beat_blank

abbrev arc : ℤ → NbGenerator → NbGenerator
arc level g = alarm_effect (some (43, 0)) level g

arc_place : alarm_place Alarm.arc_alarm ≡ some (43, 0)
unfolding alarm_place
arc_place = refl

arc_call :
    (n : ℕ) (g : NbGenerator)
    → IsValid g
    → set_alarm Alarm.arc_alarm (pos n) g ≡ some (arc (pos n) g)
unfolding alarm_place
arc_call n g v = set_alarm_cases Alarm.arc_alarm (pos n) g v

readme_place_cases_example :
    ((Fault.nvr_dsk_fault ≡ Fault.pms_xunjian_mod_fault)
      ⊎ (Fault.nvr_dsk_fault ≡ Fault.ret_rail_geo_mod_fault))
    ⊎ (fault_place Fault.nvr_dsk_fault ≡ readme_place Fault.nvr_dsk_fault)
readme_place_cases_example = readme_place_cases Fault.nvr_dsk_fault

abbrev station : PmsGenerator NbGenerator
station = record {
  alarm_setters = [];
  status_setters = (3, Fault.pms_tmp_mod_fault) ∷ [];
  generator = some blank;
  modul_status = (3, negsuc 0) ∷ (4, pos 5) ∷ [];
  alive_num = 65535;
}

frames_alive_example :
    (fs : List (List ℕ)) × (frames 2 station ≡ some fs)
    × (length fs ≡ 2)
    × ((i : ℕ) → i < 2 → read_value 2 40 false (get_or fs i []) ≡ (65535 + i) % 2 ^ 16)
unfolding new_generator
frames_alive_example = frames_alive 2 station blank blank-IsValid refl (omega arith)

abbrev watched : PmsGenerator NbGenerator
watched = record station { modul_status = (3, pos 20) ∷ [] }

ticks_fires_example : ticks ningbo_generator 22 watched ≡ (
    set_modulstatus_info ningbo_generator 3 1 station >>= λ p'.
    some (record p' { modul_status = (3, negsuc 1) ∷ [] }))
ticks_fires_example = ticks_fires ningbo_generator 3 20 station
