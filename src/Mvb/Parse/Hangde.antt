-- ===== src/Mvb/Parse/Hangde.antt =====
-- hangde/MVBHDParseMsg.cpp. The 16-bit numbers are int16_t there; they are their bit patterns here.
use infinity_station.Base.{ℕ, Bool, List, Option, some, ◌>>=◌, get_elem?}
use infinity_station.Mvb.Parse.{MsgTime, number_at, flag, time_at}

pub record HdStations : Type 0 where
  pub start_station_id : ℕ
  pub next_station_id : ℕ
  pub end_station_id : ℕ
  pub next_station_dist : ℕ
  pub current_station_dist : ℕ
  pub day_run_distance : ℕ
  pub real_speed : ℕ

unfoldable pub parse_station_id : List ℕ → Option HdStations
unfolding number_at
parse_station_id bytes = do
  start ← number_at 2 318 bytes
  next ← number_at 2 320 bytes
  end ← number_at 2 322 bytes
  to_next ← number_at 4 332 bytes
  to_current ← number_at 4 336 bytes
  run ← number_at 4 340 bytes
  speed ← number_at 2 316 bytes
  some (record {
    start_station_id = start;
    next_station_id = next;
    end_station_id = end;
    next_station_dist = to_next;
    current_station_dist = to_current;
    day_run_distance = run;
    real_speed = speed;
  })

pub record HdPms : Type 0 where
  pub tcms_alive : ℕ
  pub trainset : ℕ

unfoldable pub parse_pms_data : List ℕ → Option HdPms
unfolding number_at
parse_pms_data bytes = do
  alive ← number_at 2 24 bytes
  trainset ← get_elem? bytes 32
  some (record { tcms_alive = alive; trainset = trainset })

pub record HdTrain : Type 0 where
  pub auto_sign : Bool
  pub panr_sign_2 : Bool
  pub panr_sign_3 : Bool
  pub atb_sign : Bool
  pub cab_act_1 : Bool
  pub cab_act_4 : Bool
  pub sleep_mode : Bool
  pub updown : Bool
  pub forward : Bool
  pub reverse : Bool
  pub hv_pres : Bool
  pub iv_pres : Bool
  pub cus_station_info : ℕ
  pub volt_value_2 : ℕ
  pub volt_value_3 : ℕ
  pub current_value_2 : ℕ
  pub current_value_3 : ℕ

unfoldable pub parse_tarin_info : List ℕ → Option HdTrain
unfolding number_at flag
parse_tarin_info bytes = do
  byte288 ← get_elem? bytes 312
  byte289 ← get_elem? bytes 313
  byte290 ← get_elem? bytes 314
  volt2 ← number_at 2 324 bytes
  volt3 ← number_at 2 326 bytes
  current2 ← number_at 2 328 bytes
  current3 ← number_at 2 330 bytes
  some (record {
    auto_sign = flag byte288 0;
    panr_sign_2 = flag byte288 1;
    panr_sign_3 = flag byte288 2;
    atb_sign = flag byte288 3;
    cab_act_1 = flag byte288 4;
    cab_act_4 = flag byte288 5;
    sleep_mode = flag byte288 6;
    updown = flag byte288 7;
    forward = flag byte289 0;
    reverse = flag byte289 1;
    hv_pres = flag byte289 2;
    iv_pres = flag byte289 3;
    cus_station_info = byte290;
    volt_value_2 = volt2;
    volt_value_3 = volt3;
    current_value_2 = current2;
    current_value_3 = current3;
  })

pub record HdMessage : Type 0 where
  pub train : HdTrain
  pub time : MsgTime
  pub stations : HdStations
  pub heartbeat : HdPms

unfoldable pub parse_msg : List ℕ → Option HdMessage
unfolding parse_tarin_info time_at parse_station_id parse_pms_data
parse_msg bytes = do
  train ← parse_tarin_info bytes
  time ← time_at 26 bytes
  stations ← parse_station_id bytes
  heartbeat ← parse_pms_data bytes
  some (record { train = train; time = time; stations = stations; heartbeat = heartbeat })
