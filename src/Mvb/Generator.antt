-- ===== src/Mvb/Generator.antt =====
-- modules/mvb_service/mvbprocessmsg/MVBDataGenerator.h: the abstract class that a line's frame
-- generator fills, and the numbers of MVBCommonData.h.
use infinity_station.Base.{ℕ, Bool, List, Option}
use infinity_station.Base.Int.{ℤ}
use infinity_station.Mvb.Ningbo.Alarms.{Alarm, set_alarm}
use infinity_station.Mvb.Ningbo.Faults.{Fault, set_fault, set_sleep_cmd}
use infinity_station.Mvb.Ningbo.Header.{set_pms_alive, init_common_info, get_pms_data}
use infinity_station.Mvb.Ningbo.{NbGenerator}

-- The virtual functions. The setters of alarms and of statuses are named by `Alarm` and `Fault`;
-- `none` is an exception that leaves the call.
pub record DataGenerator (G : Type 0) : Type 0 where
  pub set_alarm : Alarm → ℤ → G → Option G
  pub set_fault : Fault → Bool → G → Option G
  pub get_pms_data : G → List ℕ × G
  pub set_pms_alive : ℕ → G → G
  pub init_common_info : G → Option G
  pub set_sleep_cmd : Bool → G → Option G

-- The generator of the Ningbo 8 line.
unfoldable pub ningbo_generator : DataGenerator NbGenerator
ningbo_generator = record {
  set_alarm = set_alarm;
  set_fault = set_fault;
  get_pms_data = get_pms_data;
  set_pms_alive = set_pms_alive;
  init_common_info = init_common_info;
  set_sleep_cmd = set_sleep_cmd;
}
