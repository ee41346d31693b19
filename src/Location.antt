-- ===== src/Location.antt =====
-- modules/location_service: which pole stands for a position (locationlib/RoughPositionBase.cpp), when
-- a position is kept (locationlib/TriggerSaveDB.cpp), the rows that wait for the data base
-- (locationlib/PositionDataBase.cpp), and a round of `run` in LocationService.cpp. Lengths are natural
-- numbers of millimetres, from the start of the line on, in place of doubles. A query is the documented
-- meaning of its SQL text on the list of the rows of its table.
pub mod Poles
pub mod Spacing
pub mod Batches
use infinity_station.Base.{
  ℕ, ◌+◌, ◌-◌, ◌%◌, ◌^◌, Bool, true, false, not, ◌&&◌, ◌||◌, List, [], ◌∷◌, ◌++◌, Option, none,
  some, ◌==◌, ltb, leb, if◌then◌else◌, length,
}
use infinity_station.Base.Text.{same_text}

-- A row of `line_data`.
pub record Pole : Type 0 where
  pub line_id : ℕ
  pub station_name : List ℕ
  pub maoduan_name : List ℕ
  pub pole_name : List ℕ
  pub kilo_meter : ℕ
  pub span : ℕ
  pub line_dir : ℕ

pub data PositionType : Type 0 where
  pt_none : PositionType
  pt_line : PositionType
  pt_dist : PositionType
  pt_zig : PositionType
  pt_img : PositionType
  pt_hand : PositionType
  pt_rfid : PositionType
  pt_station : PositionType

pub record PositionData : Type 0 where
  pub line_id : ℕ
  pub station_name : List ℕ
  pub maoduan_name : List ℕ
  pub pole_name : List ℕ
  pub kilo_meter : ℕ
  pub span : ℕ
  pub position_type : PositionType

-- `ORDER BY kilo_meter DESC LIMIT 1`
unfoldable pub higher : Pole → Option Pole → Pole
higher r none = r
higher r (some b) = if ltb r.kilo_meter b.kilo_meter then b else r

unfoldable pub highest : List Pole → Option Pole
highest [] = none
highest (r ∷ rs) = some (higher r (highest rs))

unfoldable pub where_less : ℕ → ℕ → List Pole → List Pole
where_less dis dir [] = []
where_less dis dir (r ∷ rs) =
    let rest = where_less dis dir rs in
    if ltb r.kilo_meter dis && r.line_dir == dir then r ∷ rest else rest

unfoldable pub where_greater : ℕ → ℕ → List Pole → List Pole
where_greater dis dir [] = []
where_greater dis dir (r ∷ rs) =
    let rest = where_greater dis dir rs in
    if ltb dis r.kilo_meter && r.line_dir == dir then r ∷ rest else rest

unfoldable pub select_kilometer_less : ℕ → ℕ → List Pole → Option Pole
select_kilometer_less dis dir table = highest (where_less dis dir table)

unfoldable pub select_kilometer_great : ℕ → ℕ → List Pole → Option Pole
select_kilometer_great dis dir table = highest (where_greater dis dir table)

-- The fields that are taken from a row.
unfoldable pub position_at : ℕ → Pole → PositionData → PositionData
position_at dis r p = record p {
  line_id = r.line_id;
  station_name = r.station_name;
  maoduan_name = r.maoduan_name;
  pole_name = r.pole_name;
  kilo_meter = dis;
  span = r.span;
}

-- The choice between the poles before and behind.
unfoldable pub choose : ℕ → Option Pole → Option Pole → Option Pole
choose dis none none = none
choose dis (some l) none = none
choose dis none (some g) = some g
choose dis (some l) (some g) =
    if ltb (dis - l.kilo_meter) (g.kilo_meter - dis) then some l else some g

unfoldable pub position_of : ℕ → Option Pole → PositionData → Option PositionData
unfolding position_at
position_of dis none p = none
position_of dis (some r) p = some (position_at dis r p)

-- `selectLineData(double)`, which moves the position on by a metre and fills in the position `p`.
unfoldable pub select_line_data : ℕ → ℕ → List Pole → PositionData → Option PositionData
select_line_data dis dir table p =
    let dis' = dis + 1000 in
    position_of dis'
      (choose dis' (select_kilometer_less dis' dir table) (select_kilometer_great dis' dir table)) p

-- `TriggerSaveDB`, in the interval of 25 centimetres that the service gives.
pub record TriggerSaveDb : Type 0 where
  pub cur_dis : ℕ
  pub pre_dis : ℕ

abbrev pub interval_dis : ℕ
interval_dis = 250

unfoldable pub set_cur_dis : ℕ → TriggerSaveDb → TriggerSaveDb
set_cur_dis dis t = if ltb 0 dis then record t { cur_dis = dis } else t

-- The distance of two positions.
abbrev pub apart : ℕ → ℕ → ℕ
apart a b = if ltb a b then b - a else a - b

unfoldable pub is_trigger : TriggerSaveDb → TriggerSaveDb × Bool
is_trigger t =
    if ltb interval_dis (apart t.cur_dis t.pre_dis)
    then (record t { pre_dis = t.cur_dis }, true)
    else (t, false)

-- `PositionDataBase`: the rows that wait, and the batches that were given to the data base.
pub record PositionDataBase (A : Type 0) : Type 0 where
  pub insert_data : List A
  pub inserted : List (List A)

unfoldable pub data_base_insert : {A : Type 0} → A → PositionDataBase A → PositionDataBase A
data_base_insert row d =
    if ltb 50 (length d.insert_data)
    then record { insert_data = []; inserted = d.inserted ++ (d.insert_data ++ row ∷ []) ∷ [] }
    else record d { insert_data = d.insert_data ++ row ∷ [] }

-- `LocationService`, as far as `run` reads and writes it, with the positions sent.
pub record Service : Type 0 where
  pub trigger : TriggerSaveDb
  pub data_base : PositionDataBase PositionData
  pub send_num : ℕ  -- a uint16_t
  pub sent : List PositionData

unfoldable pub is_dist : PositionType → Bool
is_dist pt_dist = true
is_dist _ = false

-- The middle of a round: whether the position is kept.
unfoldable pub keep_position : PositionData → Bool → Service → Service
unfolding data_base_insert is_dist
keep_position p triggered s =
    if triggered || is_dist p.position_type
    then record s {
      send_num = (s.send_num + 1) % 2 ^ 16;
      data_base = data_base_insert p s.data_base;
    }
    else s

-- The end of a round: every ninth kept position is sent, and each change of pole.
unfoldable pub send_position : PositionData → Service → Service
unfolding is_dist
send_position p s =
    if ltb 8 s.send_num || is_dist p.position_type
    then record s { send_num = 0; sent = s.sent ++ p ∷ [] }
    else s

-- One round of `run` at a position; `none` is a round without a task.
unfoldable pub round : Option PositionData → Service → Service
round none s = s
round (some p) s =
    let (t, triggered) = is_trigger (set_cur_dis p.kilo_meter s.trigger) in
    send_position p (keep_position p triggered (record s { trigger = t }))

unfoldable pub rounds : List (Option PositionData) → Service → Service
unfolding round
rounds [] s = s
rounds (p ∷ ps) s = rounds ps (round p s)
