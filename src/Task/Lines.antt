-- ===== src/Task/Lines.antt =====
-- `convertLinedata` of modules/task_service/TaskService.cpp: the rows of the table of lines, grouped by
-- station and sent a station at a time. The map of stations is an association list; the type of the
-- kilometre, which is only passed on, is a parameter.
pub mod Walks
pub mod Groups
use infinity_station.Base.{
  ℕ, Bool, true, false, not, ◌&&◌, List, [], ◌∷◌, ◌++◌, Option, none, some, if◌then◌else◌,
}
use infinity_station.Base.Text.{find_key, put_key, is_empty}
use infinity_station.Task.{value_or}

pub record LineData (F : Type 0) : Type 0 where
  pub line_name : List ℕ
  pub station_name : List ℕ
  pub maoduan_name : List ℕ
  pub kilo_meter : F
  pub pole_name : List ℕ
  pub line_dir : ℕ

-- The object of a row, without its station.
pub record Item (F : Type 0) : Type 0 where
  pub line_name : List ℕ
  pub maoduan_name : List ℕ
  pub kilo_meter : F
  pub pole_name : List ℕ
  pub line_dir : ℕ

-- The object that is sent for a station.
pub record StationObj (F : Type 0) : Type 0 where
  pub station_name : List ℕ
  pub items : List (Item F)

-- The local variables of the loop, with what was sent.
pub record Walk (F : Type 0) : Type 0 where
  pub station_map : List (List ℕ × List (Item F))
  pub current_station : List ℕ
  pub sent : List (StationObj F)

module _ {F : Type 0} where
  unfoldable pub item_of : LineData F → Item F
  item_of d = record {
    line_name = d.line_name;
    maoduan_name = d.maoduan_name;
    kilo_meter = d.kilo_meter;
    pole_name = d.pole_name;
    line_dir = d.line_dir;
  }

  -- `stationMap[key]`
  unfoldable pub items_at : List ℕ → List (List ℕ × List (Item F)) → List (Item F)
  items_at key m = value_or (find_key key m) []

  unfoldable pub send_current : Walk F → List (StationObj F)
  unfolding items_at
  send_current s =
      s.sent
      ++ record {
        station_name = s.current_station;
        items = items_at s.current_station s.station_map;
      }
        ∷ []

  -- A key that is not in the map yet: the station before it is sent.
  unfoldable pub open_station : List ℕ → Walk F → Walk F
  unfolding send_current is_empty
  open_station key s = record {
    station_map = put_key key [] s.station_map;
    current_station = key;
    sent = if not (is_empty s.current_station) then send_current s else s.sent;
  }

  unfoldable pub append_item : List ℕ → Item F → Walk F → Walk F
  unfolding items_at
  append_item key item s = record s {
    station_map = put_key key (items_at key s.station_map ++ item ∷ []) s.station_map;
  }

  unfoldable pub visit : LineData F → Walk F → Walk F
  unfolding item_of
  visit d s = append_item d.station_name (item_of d) (elim (find_key d.station_name s.station_map) [
    | none ↦ open_station d.station_name s
    | some old ↦ s
  ])

  unfoldable pub walk : List (LineData F) → Walk F → Walk F
  unfolding visit
  walk [] s = s
  walk (d ∷ ds) s = walk ds (visit d s)

  abbrev pub no_walk : Walk F
  no_walk = record { station_map = []; current_station = []; sent = [] }

  -- The objects that are sent, in order.
  unfoldable pub convert_linedata : List (LineData F) → List (StationObj F)
  unfolding walk send_current is_empty items_at
  convert_linedata rows =
      let s = walk rows no_walk in
      if not (is_empty s.current_station)
        && not (is_empty (items_at s.current_station s.station_map))
      then send_current s
      else s.sent
