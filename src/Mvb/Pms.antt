-- ===== src/Mvb/Pms.antt =====
-- modules/mvb_service/mvbprocessmsg/MVBPmsDataGenerator.{h,cpp}: the generator behind its tables of
-- alarm and status setters, with the counters of the modules that report and of the heartbeats.
-- The two hash maps of setters are association lists. The map of module counters is the list of
-- its entries in the order of its iteration. Numbers of the type int that are keys are their bit
-- patterns. `none` is an exception, or a call through the null pointer.
pub mod Watchdog
pub mod Dispatch
pub mod Heartbeats
use infinity_station.Base.{ℕ, zero, suc, ◌+◌, ◌%◌, ◌^◌, Bool, true, false, not, List, [], ◌∷◌, ◌++◌}
use infinity_station.Base.{Option, none, some, ◌>>=◌, ◌==◌, if◌then◌else◌}
use infinity_station.Base.Int.{ℤ, pos, negsuc}
use infinity_station.Mvb.Ningbo.Alarms.{Alarm}
use infinity_station.Mvb.Ningbo.Faults.{Fault}
use infinity_station.Mvb.Generator.{DataGenerator}

pub record PmsGenerator (G : Type 0) : Type 0 where
  pub alarm_setters : List (ℕ × Alarm)
  pub status_setters : List (ℕ × Fault)
  pub generator : Option G
  pub modul_status : List (ℕ × ℤ)
  pub alive_num : ℕ

-- C_MODULE_ALIVE_TIME
abbrev pub module_alive_time : ℕ
module_alive_time = 20

-- `find` and `insert` of the maps: an entry that is there is kept.
unfoldable pub find {ℓ} : {A : Type ℓ} → ℕ → List (ℕ × A) → Option A
find k [] = none
find k ((j, a) ∷ xs) = let rest = find k xs in if k == j then some a else rest

unfoldable pub insert {ℓ} : {A : Type ℓ} → ℕ → A → List (ℕ × A) → List (ℕ × A)
unfolding find
insert k a xs = elim (find k xs) [ none ↦ xs ++ (k, a) ∷ [] | some old ↦ xs ]

-- `m[k] = a`
unfoldable pub assign {ℓ} : {A : Type ℓ} → ℕ → A → List (ℕ × A) → List (ℕ × A)
assign k a [] = (k, a) ∷ []
assign k a ((j, b) ∷ xs) = let rest = assign k a xs in if k == j then (j, a) ∷ xs else (j, b) ∷ rest

-- The post-decrement of an int, away from its least value.
unfoldable pub decrement : ℤ → ℤ
decrement (pos zero) = negsuc 0
decrement (pos (suc n)) = pos n
decrement (negsuc n) = negsuc (suc n)

unfoldable pub is_negative : ℤ → Bool
is_negative (pos n) = false
is_negative (negsuc n) = true

-- The calls of `initSetAlarmFunc` and of `initSetModulStatusFunc`, in order.
unfoldable pub alarm_registrations : List (ℕ × Alarm)
alarm_registrations =
    (0, Alarm.temp_alarm)
    ∷ (1, Alarm.cat_off_alarm)
    ∷ (2, Alarm.cat_hei_alarm)
    ∷ (3, Alarm.arc_alarm)
    ∷ (4, Alarm.cat_hei_alarm)
    ∷ (5, Alarm.str_alarm)
    ∷ (6, Alarm.acc_alarm)
    ∷ (7, Alarm.yang_jiao_alarm)
    ∷ (8, Alarm.tan_hua_ban_alarm)
    ∷ (9, Alarm.gong_tou_alarm)
    ∷ (10, Alarm.contact_forc_alarm)
    ∷ (11, Alarm.ret_rail_hspace_alarm)
    ∷ (12, Alarm.ret_rail_vspace_alarm)
    ∷ (13, Alarm.ret_rail_hard_pot_alarm)
    ∷ (14, Alarm.diversion_wire_alarm)
    ∷ []

unfoldable pub status_registrations : List (ℕ × Fault)
status_registrations =
    (0, Fault.pms_camera_fault)
    ∷ (1, Fault.pms_geo_abr_mod_fault)
    ∷ (2, Fault.pms_arc_mod_fault)
    ∷ (3, Fault.pms_tmp_mod_fault)
    ∷ (5, Fault.pms_com_mod_fault)
    ∷ (6, Fault.pms_commu_mod_fault)
    ∷ (10, Fault.ret_rail_hard_pot_mod_fault)
    ∷ (11, Fault.pms_pressure_mod_fault)
    ∷ (12, Fault.pms_geo_abr_mod_fault)
    ∷ (13, Fault.pms_xunjian_mod_fault)
    ∷ (14, Fault.ret_rail_geo_mod_fault)
    ∷ (15, Fault.ret_rail_camera_fault)
    ∷ (16, Fault.ret_rail_hard_pot_mod_fault)
    ∷ []

-- `registerAlarmFunc` and `registerModulStatusFunc` for each of them.
unfoldable pub register_all {ℓ} : {A : Type ℓ} → List (ℕ × A) → List (ℕ × A) → List (ℕ × A)
unfolding insert
register_all [] table = table
register_all ((k, a) ∷ calls) table = register_all calls (insert (k % 2 ^ 16) a table)

module _ {G : Type 0} where
  unfoldable pub new_pms_generator : Option G → PmsGenerator G
  new_pms_generator generator = record {
    alarm_setters = [];
    status_setters = [];
    generator = generator;
    modul_status = [];
    alive_num = 1;
  }

  unfoldable pub init_set_alarm_func : PmsGenerator G → PmsGenerator G
  unfolding register_all alarm_registrations
  init_set_alarm_func p = record p {
    alarm_setters = register_all alarm_registrations p.alarm_setters;
  }

  unfoldable pub init_set_modul_status_func : PmsGenerator G → PmsGenerator G
  unfolding register_all status_registrations
  init_set_modul_status_func p = record p {
    status_setters = register_all status_registrations p.status_setters;
  }

  unfoldable pub init_module_status : PmsGenerator G → PmsGenerator G
  unfolding insert
  init_module_status p = record p { modul_status = insert 0 (pos module_alive_time) p.modul_status }

  unfoldable pub update_modules_staus : ℕ → PmsGenerator G → PmsGenerator G
  unfolding assign
  update_modules_staus moduleno p = record p {
    modul_status = assign (moduleno % 2 ^ 16) (pos module_alive_time) p.modul_status;
  }

module _ {G : Type 0} (d : DataGenerator G) where
  unfoldable pub set_alarm_info : ℕ → ℤ → PmsGenerator G → Option (PmsGenerator G)
  unfolding find
  set_alarm_info armno level p = elim (find (armno % 2 ^ 16) p.alarm_setters) [
    | none ↦ some p
    | some a ↦ do
      g ← p.generator
      g' ← d.set_alarm a level g
      some (record p { generator = some g' })
  ]

  -- The int is converted to the bool of the setter.
  unfoldable pub set_modulstatus_info : ℕ → ℕ → PmsGenerator G → Option (PmsGenerator G)
  unfolding find
  set_modulstatus_info modulno value p = elim (find (modulno % 2 ^ 16) p.status_setters) [
    | none ↦ some p
    | some f ↦ do
      g ← p.generator
      g' ← d.set_fault f (not (value == 0)) g
      some (record p { generator = some g' })
  ]

  unfoldable pub get_pms_data : PmsGenerator G → Option (List ℕ × PmsGenerator G)
  get_pms_data p = elim p.generator [
    | none ↦ some ([], record p { alive_num = (p.alive_num + 1) % 2 ^ 16 })
    | some g ↦ do
      g' ← d.init_common_info (d.set_pms_alive p.alive_num g)
      let (frame, g'') = d.get_pms_data g'
      some (frame, record p { generator = some g''; alive_num = (p.alive_num + 1) % 2 ^ 16 })
  ]

  -- The loop over the entries, of which `seen` have been counted down.
  unfoldable pub decrease_loop :
      List (ℕ × ℤ) → List (ℕ × ℤ) → PmsGenerator G → Option (PmsGenerator G)
  unfolding set_modulstatus_info decrement is_negative
  decrease_loop seen [] p = some (record p { modul_status = seen })
  decrease_loop seen ((m, left) ∷ es) p = do
    p' ← if is_negative left then set_modulstatus_info m 1 p else some p
    decrease_loop (seen ++ (m, decrement left) ∷ []) es p'

  unfoldable pub decrease_modules_alive_time : PmsGenerator G → Option (PmsGenerator G)
  unfolding decrease_loop
  decrease_modules_alive_time p = decrease_loop [] p.modul_status p

  unfoldable pub set_sleep_cmd : Bool → PmsGenerator G → Option (PmsGenerator G)
  set_sleep_cmd value p = elim p.generator [
    | none ↦ some p
    | some g ↦ do g' ← d.set_sleep_cmd value g; some (record p { generator = some g' })
  ]
