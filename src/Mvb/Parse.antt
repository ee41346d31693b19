-- ===== src/Mvb/Parse.antt =====
-- The frames received from the vehicle: modules/mvb_service/mvbprocessmsg/ningbo8/MVBNBParseMsg.cpp
-- and hangde/MVBHDParseMsg.cpp. The map of named values is a record with its keys as fields, in the
-- groups of the functions that fill it. `none` is std::out_of_range from `at` or `substr`. The
-- bytes are chars of a platform where char is unsigned, as on the arm64 target.
pub mod Words
pub mod Hangde
pub mod Frames
use infinity_station.Base.{
  ℕ, zero, suc, ◌+◌, ◌-◌, ◌*◌, ◌%◌, ◌^◌, ◌<◌, bit_or, Bool, true, false, List, [], ◌∷◌,
}
use infinity_station.Base.{
  Option, none, some, ◌>>=◌, ltb, if◌then◌else◌, length, take, drop, get_elem?, ◌==◌,
}
use infinity_station.Mvb.Frame.{bit_of}

-- `value.substr(pos, len)`: throws if `pos` is past the end, and is short near it.
unfoldable pub substr : ℕ → ℕ → List ℕ → Option (List ℕ)
substr pos len bytes = if ltb (length bytes) pos then none else some (take len (drop pos bytes))

-- `left` rounds of the loop of `convertString` for a type of `size` bytes, from round `i` on.
unfoldable pub convert_loop : ℕ → ℕ → ℕ → ℕ → List ℕ → Option ℕ
convert_loop zero i size retvalue value = some retvalue
convert_loop (suc left) i size retvalue value = do
  byte ← get_elem? value i
  convert_loop left (i + 1) size
      (bit_or retvalue (byte * 2 ^ ((size - 1 - i) * 8)) % 2 ^ (size * 8)) value

unfoldable pub convert_string : ℕ → List ℕ → Option ℕ
unfolding convert_loop
convert_string size value = convert_loop size 0 size 0 value

-- A number of `size` bytes at `pos`: `convertString<T>(data.substr(pos, size))`.
unfoldable pub number_at : ℕ → ℕ → List ℕ → Option ℕ
unfolding substr convert_string
number_at size pos bytes = do value ← substr pos size bytes; convert_string size value

-- Digit `i` of a bitset of a byte.
unfoldable pub flag : ℕ → ℕ → Bool
unfolding bit_of
flag b i = bit_of b i == 1

-- The calendar fields. `curtime`, which `mktime` computes from them, is left out.
pub record MsgTime : Type 0 where
  pub year : ℕ
  pub month : ℕ
  pub day : ℕ
  pub hour : ℕ
  pub minute : ℕ
  pub second : ℕ

-- Six bytes from `pos` on.
unfoldable pub time_at : ℕ → List ℕ → Option MsgTime
time_at pos bytes = do
  year ← get_elem? bytes pos
  month ← get_elem? bytes (pos + 1)
  day ← get_elem? bytes (pos + 2)
  hour ← get_elem? bytes (pos + 3)
  minute ← get_elem? bytes (pos + 4)
  second ← get_elem? bytes (pos + 5)
  some (record {
    year = year + 2000;
    month = month;
    day = day;
    hour = hour;
    minute = minute;
    second = second;
  })

-- Ningbo 8.
pub record NbStations : Type 0 where
  pub start_station_id : ℕ
  pub cur_station_id : ℕ
  pub next_station_id : ℕ
  pub end_station_id : ℕ
  pub real_speed : ℕ
  pub travlled_distance : ℕ

unfoldable pub parse_station_id : List ℕ → Option NbStations
unfolding number_at
parse_station_id bytes = do
  start ← number_at 2 72 bytes
  cur ← number_at 2 74 bytes
  next ← number_at 2 74 bytes
  end ← number_at 2 78 bytes
  speed ← number_at 2 14 bytes
  travelled ← number_at 4 82 bytes
  some (record {
    start_station_id = start;
    cur_station_id = cur;
    next_station_id = next;
    end_station_id = end;
    real_speed = speed;
    travlled_distance = travelled;
  })

pub record NbPms : Type 0 where
  pub pms_alive : ℕ
  pub all_doors_closed_flag : Bool
  pub b1_pan_up_cmd : Bool
  pub b2_pan_up_cmd : Bool
  pub b2_pan_up : Bool
  pub b1_pan_up : Bool

unfoldable pub parse_pms_data : List ℕ → Option NbPms
unfolding number_at flag
parse_pms_data bytes = do
  alive ← number_at 2 0 bytes
  byte2 ← get_elem? bytes 42
  some (record {
    pms_alive = alive;
    all_doors_closed_flag = flag byte2 7;
    b1_pan_up_cmd = flag byte2 1;
    b2_pan_up_cmd = flag byte2 2;
    b2_pan_up = flag byte2 3;
    b1_pan_up = flag byte2 4;
  })

pub record NbCommon : Type 0 where
  pub time_valid_flag : Bool
  pub set_time_flag : Bool
  pub sleep_falg : Bool

unfoldable pub parse_base_common : List ℕ → Option NbCommon
unfolding flag
parse_base_common bytes = do
  byte7 ← get_elem? bytes 7
  some (record {
    time_valid_flag = flag byte7 0;
    set_time_flag = flag byte7 1;
    sleep_falg = flag byte7 4;
  })

pub record NbTrain : Type 0 where
  pub alive : ℕ
  pub line_num : ℕ
  pub backward_flag : Bool
  pub forward_flag : Bool
  pub a2_cab_actived_flag : Bool
  pub a1_cab_actived_flag : Bool
  pub voltage : ℕ
  pub net_stream : ℕ

unfoldable pub parse_tarin_info : List ℕ → Option NbTrain
unfolding number_at flag
parse_tarin_info bytes = do
  alive ← number_at 2 0 bytes
  line ← number_at 2 4 bytes
  byte6 ← get_elem? bytes 6
  voltage ← number_at 2 53 bytes
  stream ← number_at 2 55 bytes
  some (record {
    alive = alive;
    line_num = line;
    backward_flag = flag byte6 4;
    forward_flag = flag byte6 5;
    a2_cab_actived_flag = flag byte6 6;
    a1_cab_actived_flag = flag byte6 7;
    voltage = voltage;
    net_stream = stream;
  })

pub data NbMessage : Type 0 where
  vehicle : NbTrain → NbCommon → MsgTime → NbStations → NbMessage
  pms : NbPms → NbMessage

-- The second argument is the type of the message.
unfoldable pub parse_msg : List ℕ → ℕ → Option NbMessage
unfolding parse_tarin_info parse_base_common time_at parse_station_id parse_pms_data
parse_msg bytes msgtype =
    if msgtype == 1
    then (do
      train ← parse_tarin_info bytes
      common ← parse_base_common bytes
      time ← time_at 8 bytes
      stations ← parse_station_id bytes
      some (vehicle train common time stations))
    else (do heartbeat ← parse_pms_data bytes; some (pms heartbeat))
