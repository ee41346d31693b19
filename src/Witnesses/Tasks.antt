-- ===== src/Witnesses/Tasks.antt =====
-- Requests, files and rows for the theorems of Task.
use infinity_station.Base.{ℕ, ◌≡◌, refl, true, false, List, [], ◌∷◌, none, some, arith}
use infinity_station.Base.Int.{pos}
use infinity_station.Base.Text.{same_text, is_empty}
use infinity_station.Task.{is_int, value_or, TaskData, Request, World, TaskCtrl, no_task, down_line}
use infinity_station.Task.Session.{
  session, after_session, IsConsistent, after_session-IsConsistent, Alternates, IsOnlineIfStart,
  starts_alternate, failed_start_blocks,
}
use infinity_station.Task.Config.{Conversions, Tables, init_config_info, split_lines}
use infinity_station.Task.Config.Loading.{init_config_info-stations, HasStations}
use infinity_station.Task.Lines.{LineData, convert_linedata}
use infinity_station.Task.Lines.Walks.{Group, object_of, rows_of_all}
use infinity_station.Task.Lines.Groups.{convert_linedata-groups}

abbrev world : World
world = record {
  stamp = 1 ∷ [];
  day = 2 ∷ [];
  created = 3 ∷ [];
  updated = 4 ∷ [];
  ended = 5 ∷ [];
  folder = λ path. true;
  search_id = λ name. pos 7;
}

abbrev full_disk : World
full_disk = record world { folder = λ path. false }

abbrev start_online : Request ℕ
start_online = record {
  task_type = some (pos 1);
  task_state = some (pos 0);
  line_direction = some down_line;
  line_name = some (9 ∷ []);
  start_station = some (8 ∷ []);
  start_pole = none;
  end_station = none;
  train_number = some (6 ∷ []);
  run_direction = none;
  kilometer = some 12;
}

abbrev stop_online : Request ℕ
stop_online = record start_online { task_type = none; task_state = some (pos 1) }

plain_stop : IsOnlineIfStart stop_online
unfolding is_int value_or
plain_stop s = cc

abbrev idle_row : TaskData
idle_row = record {
  task_name = [];
  line_name = [];
  direction = pos 0;
  start_station = [];
  start_pole = [];
  end_station = [];
  created_time = [];
  updated_time = [];
  line_dir = pos 0;
}

abbrev control : TaskCtrl ℕ
control = record {
  save_path = 100 ∷ [];
  current_task = no_task 0;
  start_task_flag = false;
  task_row = idle_row;
  statements = [];
}

abbrev day_of_work : List (World × Request ℕ)
day_of_work =
    (world, start_online)
    ∷ (world, start_online)
    ∷ (world, stop_online)
    ∷ (world, start_online)
    ∷ []

starts_alternate_example : Alternates false (session 0 day_of_work control)
starts_alternate_example =
    starts_alternate 0 day_of_work control
      ((λ s. refl), ((λ s. refl), (plain_stop, ((λ s. refl), tt))))

control-IsConsistent : IsConsistent 0 control
unfolding is_int
control-IsConsistent = refl

after_session-IsConsistent_example : IsConsistent 0 (after_session 0 day_of_work control)
after_session-IsConsistent_example =
    after_session-IsConsistent 0 day_of_work control control-IsConsistent

failed_start_blocks_example :
    session 0 ((full_disk, start_online) ∷ (world, start_online) ∷ []) control ≡ []
failed_start_blocks_example =
    failed_start_blocks 0 full_disk start_online ((world, start_online) ∷ []) control
      ((refl, refl), ((refl, refl), tt)) (λ path. refl)

abbrev conversions : Conversions ℕ
conversions = record {
  to_int = λ text. 5;
  to_float = λ text. 0;
  truncate = λ x. pos x;
  line_signs = [];
  line_types = [];
}

abbrev no_tables : Tables ℕ
no_tables = record { line_data_list = []; station_info_list = []; online_tasks = [] }

-- A line of ten fields, all empty but the first.
abbrev station_line : List ℕ
station_line = 53 ∷ 44 ∷ 44 ∷ 44 ∷ 44 ∷ 44 ∷ 44 ∷ 44 ∷ 44 ∷ 44 ∷ []

ten_fields : HasStations (some (station_line ∷ []))
unfolding split_lines
ten_fields = omega arith

init_config_info-stations_example :
    (t : Tables ℕ) × (init_config_info conversions (some (station_line ∷ [])) [] none [] no_tables
      ≡ some t)
    × (t.line_data_list ≡ [])
    × (t.online_tasks ≡ [])
init_config_info-stations_example =
    init_config_info-stations conversions (some (station_line ∷ [])) [] none [] no_tables ten_fields

abbrev row : List ℕ → ℕ → LineData ℕ
row name pole = record {
  line_name = 9 ∷ [];
  station_name = name;
  maoduan_name = [];
  kilo_meter = pole;
  pole_name = pole ∷ [];
  line_dir = 0;
}

abbrev east : Group ℕ
east = record { name = 69 ∷ []; first = row (69 ∷ []) 1; more = row (69 ∷ []) 2 ∷ [] }

abbrev west : Group ℕ
west = record { name = 87 ∷ []; first = row (87 ∷ []) 3; more = [] }

named_east : is_empty east.name ≡ false
unfolding is_empty
named_east = refl

named_west : is_empty west.name ≡ false
unfolding is_empty
named_west = refl

apart : same_text (69 ∷ []) (87 ∷ []) ≡ false
unfolding same_text
apart = refl

convert_linedata-groups_example :
    convert_linedata (rows_of_all (east ∷ west ∷ [])) ≡ object_of east ∷ object_of west ∷ []
convert_linedata-groups_example =
    convert_linedata-groups (east ∷ west ∷ [])
      ((named_east, (refl, (refl, tt))), ((named_west, (refl, tt)), tt)) ((apart, tt), (tt, tt))
