-- ===== src/Task/Config.antt =====
-- kits/common/read_csv/ReadCSVFile.cpp, and the readers of PreviousTaskCtrl.cpp: the tables of stations
-- and lines and the online tasks. A file is the list of its lines, `none` if it cannot be opened; the
-- conversions of texts to numbers, the YAML document of the online tasks and the name of a path's last
-- part are arguments. `none` as a result is the failed assertion of `at` outside a row.
pub mod Loading
use infinity_station.Base.{
  ℕ, ◌+◌, Bool, true, false, List, [], ◌∷◌, ◌++◌, Option, none, some, ◌==◌, if◌then◌else◌, ◌>>=◌,
  get_elem?, set,
}
use infinity_station.Base.Int.{ℤ, pos, negsuc}
use infinity_station.Base.Text.{same_text, find_key}
use infinity_station.Task.{is_int, value_or, up_line}

-- `QString::split(',')`
unfoldable pub split_from : List ℕ → List ℕ → List (List ℕ)
split_from field [] = field ∷ []
split_from field (c ∷ cs) =
    let more = split_from [] cs in
    let longer = split_from (field ++ c ∷ []) cs in if c == 44 then field ∷ more else longer

unfoldable pub split : List ℕ → List (List ℕ)
unfolding split_from
split line = split_from [] line

unfoldable pub split_lines : List (List ℕ) → List (List (List ℕ))
unfolding split
split_lines [] = []
split_lines (line ∷ lines) = split line ∷ split_lines lines

-- `readFile`: the rows and the result.
unfoldable pub read_file : Option (List (List ℕ)) → List (List (List ℕ)) × ℤ
unfolding split_lines
read_file none = ([], negsuc 0)
read_file (some lines) = (split_lines lines, pos 0)

pub record StationInfo : Type 0 where
  pub station_id : ℕ  -- the bit pattern of an int
  pub station_name : List ℕ
  pub end_station_name_up : List ℕ
  pub end_station_name_dn : List ℕ
  pub pole_up : List ℕ
  pub pole_dn : List ℕ
  pub next_station_name_up : List ℕ
  pub next_station_name_dn : List ℕ
  pub pre_station_name_up : List ℕ
  pub pre_station_name_dn : List ℕ

pub record LineDataBaseInfo (F : Type 0) : Type 0 where
  pub line_name : List ℕ
  pub station_name : List ℕ
  pub tunnel_name : List ℕ
  pub maoduan_name : List ℕ
  pub pole_name : List ℕ
  pub pole_distance : F
  pub structure : ℤ
  pub train_kilometer : F
  pub zig : ℤ
  pub hei : ℤ
  pub line_dir : ℤ
  pub line_type : ℤ
  pub gps_longitude : F
  pub gps_latitude : F

pub record OnlineTask : Type 0 where
  pub sub_way_num : List ℕ
  pub line_name : List ℕ
  pub direction : List ℕ
  pub start_station : List ℕ
  pub end_station : List ℕ
  pub start_pole : List ℕ
  pub online_task : Bool
  pub line_dir : ℤ

-- What the library's conversions give for a text.
pub record Conversions (F : Type 0) : Type 0 where
  pub to_int : List ℕ → ℕ
  pub to_float : List ℕ → F
  pub truncate : F → ℤ  -- a float kept in an int
  pub line_signs : List (List ℕ × ℤ)  -- lineSignList
  pub line_types : List (List ℕ × ℤ)  -- lineTypeList

pub record Tables (F : Type 0) : Type 0 where
  pub line_data_list : List (List ℕ × List (LineDataBaseInfo F))
  pub station_info_list : List (ℕ × StationInfo)
  pub online_tasks : List OnlineTask  -- an array of two

module _ {F : Type 0} (v : Conversions F) where
  -- `insert` of the map of stations: an entry that is there is kept.
  unfoldable pub insert_station : StationInfo → List (ℕ × StationInfo) → List (ℕ × StationInfo)
  insert_station s [] = (s.station_id, s) ∷ []
  insert_station s ((k, old) ∷ rest) =
      let further = insert_station s rest in
      if k == s.station_id then (k, old) ∷ rest else (k, old) ∷ further

  unfoldable pub station_of : List (List ℕ) → Option StationInfo
  station_of row = do
    id ← get_elem? row 0
    name ← get_elem? row 1
    end_up ← get_elem? row 2
    end_dn ← get_elem? row 3
    pole_up ← get_elem? row 4
    pole_dn ← get_elem? row 5
    next_up ← get_elem? row 6
    next_dn ← get_elem? row 7
    pre_up ← get_elem? row 8
    pre_dn ← get_elem? row 9
    some (record {
      station_id = v.to_int id;
      station_name = name;
      end_station_name_up = end_up;
      end_station_name_dn = end_dn;
      pole_up = pole_up;
      pole_dn = pole_dn;
      next_station_name_up = next_up;
      next_station_name_dn = next_dn;
      pre_station_name_up = pre_up;
      pre_station_name_dn = pre_dn;
    })

  unfoldable pub add_stations :
      List (List (List ℕ)) → List (ℕ × StationInfo) → Option (List (ℕ × StationInfo))
  unfolding station_of insert_station
  add_stations [] m = some m
  add_stations (row ∷ rows) m = station_of row >>= λ s. add_stations rows (insert_station s m)

  unfoldable pub read_station_info : Option (List (List ℕ)) → Tables F → Option (Tables F × ℤ)
  unfolding read_file add_stations
  read_station_info file t =
      let (rows, code) = read_file file in
      if is_int code 0
      then (do
        stations ← add_stations rows t.station_info_list
        some (record t { station_info_list = stations }, pos 1))
      else some (t, negsuc 0)

  unfoldable pub line_of : List (List ℕ) → Option (LineDataBaseInfo F)
  unfolding find_key same_text value_or
  line_of row = do
    line ← get_elem? row 0
    station ← get_elem? row 1
    tunnel ← get_elem? row 2
    maoduan ← get_elem? row 3
    pole ← get_elem? row 4
    distance ← get_elem? row 5
    sign ← get_elem? row 6
    kilometer ← get_elem? row 7
    zig ← get_elem? row 8
    hei ← get_elem? row 9
    dir ← get_elem? row 10
    type ← get_elem? row 11
    longitude ← get_elem? row 12
    latitude ← get_elem? row 13
    some (record {
      line_name = line;
      station_name = station;
      tunnel_name = tunnel;
      maoduan_name = maoduan;
      pole_name = pole;
      pole_distance = v.to_float distance;
      structure = value_or (find_key sign v.line_signs) (pos 10);
      train_kilometer = v.to_float kilometer;
      zig = v.truncate (v.to_float zig);
      hei = v.truncate (v.to_float hei);
      line_dir = if same_text up_line dir then pos 0 else pos 1;
      line_type = value_or (find_key type v.line_types) (negsuc 0);
      gps_longitude = v.to_float longitude;
      gps_latitude = v.to_float latitude;
    })

  unfoldable pub lines_of : List (List (List ℕ)) → Option (List (LineDataBaseInfo F))
  unfolding line_of
  lines_of [] = some []
  lines_of (row ∷ rows) = line_of row >>= λ l. lines_of rows >>= λ ls. some (l ∷ ls)

  unfoldable pub insert_lines :
      List ℕ
      → List (LineDataBaseInfo F)
      → List (List ℕ × List (LineDataBaseInfo F))
      → List (List ℕ × List (LineDataBaseInfo F))
  unfolding find_key
  insert_lines name lines m = elim (find_key name m) [
    | none ↦ m ++ (name, lines) ∷ []
    | some old ↦ m
  ]

  unfoldable pub read_line_data_info :
      List ℕ → Option (List (List ℕ)) → Tables F → Option (Tables F × ℤ)
  unfolding read_file lines_of insert_lines
  read_line_data_info name file t =
      let (rows, code) = read_file file in
      if is_int code 0
      then (do
        lines ← lines_of rows
        some (record t { line_data_list = insert_lines name lines t.line_data_list }, pos 1))
      else some (t, negsuc 0)

  -- `m_arrOnlineTask[i] = …` for each entry of the document. Past the array of two, the write is
  -- undefined; here it is `none`.
  unfoldable pub store_online : ℕ → List OnlineTask → List OnlineTask → Option (List OnlineTask)
  store_online i [] tasks = some tasks
  store_online i (task ∷ more) tasks =
      get_elem? tasks i >>= λ _. store_online (i + 1) more (set tasks i task)

  unfoldable pub read_online_task : List OnlineTask → Tables F → Option (Tables F × ℤ)
  unfolding store_online
  read_online_task entries t = do
    tasks ← store_online 0 entries t.online_tasks
    some (record t { online_tasks = tasks }, pos 0)

  -- `initConfigInfo`, behind the reading of its own configuration.
  unfoldable pub init_config_info :
      Option (List (List ℕ))
      → List ℕ
      → Option (List (List ℕ))
      → List OnlineTask
      → Tables F
      → Option (Tables F)
  unfolding is_int
  init_config_info stations name lines online t = read_station_info stations t >>= λ (t1, code1).
      if is_int code1 0
      then (read_line_data_info name lines t1 >>= λ (t2, code2).
          if is_int code2 0
          then (read_online_task online t2 >>= λ (t3, code3). some t3)
          else some t2)
      else some t1
