-- ===== src/Task/Config/Loading.antt =====
-- What the configuration of the task service loads, and the fields of a line.
use infinity_station.Base.{
  ℕ, ◌≤◌, ◌<◌, ◌≡◌, refl, ap, sym, ◌∙◌, false, List, [], ◌∷◌, ◌++◌, Option, none, some, arith, All,
  length, get_elem?, get_elem?-eq-get_or, get_or, ◌==◌, Option-cases, inl, inr,
}
use mathlib.Core.List.{append-nil, append_assoc}
use infinity_station.Base.Int.{ℤ, pos, negsuc}
use infinity_station.Task.{is_int}
use infinity_station.Task.Config.{
  split, split_from, split_lines, read_file, StationInfo, OnlineTask, Conversions, Tables,
  station_of, insert_station, add_stations, read_station_info, init_config_info,
}

-- The fields with a comma between two.
abbrev pub join : List (List ℕ) → List ℕ
join [] = []
join (f ∷ []) = f
join (f ∷ g ∷ fs) = f ++ 44 ∷ join (g ∷ fs)

abbrev pub NoComma : List ℕ → Type 0
NoComma f = All (λ c. (c == 44) ≡ false) f

split_from-field :
    (acc f rest : List ℕ) → NoComma f → split_from acc (f ++ rest) ≡ split_from (acc ++ f) rest
unfolding split_from
split_from-field acc [] rest h = rw (append-nil acc) refl
split_from-field acc (c ∷ f) rest h =
    rw (h.0) (split_from-field (acc ++ c ∷ []) f rest h.1 ∙ rw (append_assoc acc (c ∷ []) f) refl)

split_from-join :
    (f : List ℕ) (fs : List (List ℕ))
    → All NoComma (f ∷ fs)
    → split_from [] (join (f ∷ fs)) ≡ f ∷ fs
unfolding split_from
split_from-join f [] h = ap (split_from []) (sym (append-nil f)) ∙ split_from-field [] f [] h.0
split_from-join f (g ∷ fs) h =
    split_from-field [] f (44 ∷ join (g ∷ fs)) h.0 ∙ ap (◌∷◌ f) (split_from-join g fs h.1)

-- The fields of a line, none of which holds a comma, are read back from the line.
pub split-join :
    (f : List ℕ) (fs : List (List ℕ)) → All NoComma (f ∷ fs) → split (join (f ∷ fs)) ≡ f ∷ fs
unfolding split
split-join f fs h = split_from-join f fs h

-- A file of stations that can be read: it is missing, or every line has ten fields.
abbrev pub HasStations : Option (List (List ℕ)) → Type 0
HasStations none = Unit
HasStations (some lines) = All (λ row. 10 ≤ length row) (split_lines lines)

module _ {F : Type 0} (v : Conversions F) where
  field :
      (row : List (List ℕ))
      → 10 ≤ length row
      → (i : ℕ) → i < 10
      → get_elem? row i ≡ some (get_or row i [])
  field row h i lt = get_elem?-eq-get_or row i [] (omega arith)

  station_of-total :
      (row : List (List ℕ)) → 10 ≤ length row → (s : StationInfo) × (station_of v row ≡ some s)
  unfolding station_of
  station_of-total row h = elim (Option-cases (station_of v row)) [
    | inl e ↦ ground (
      arith,
      field row h 0 (omega arith),
      field row h 1 (omega arith),
      field row h 2 (omega arith),
      field row h 3 (omega arith),
      field row h 4 (omega arith),
      field row h 5 (omega arith),
      field row h 6 (omega arith),
      field row h 7 (omega arith),
      field row h 8 (omega arith),
      field row h 9 (omega arith),
    )
    | inr found ↦ found
  ]

  add_stations-total :
      (rows : List (List (List ℕ))) (m : List (ℕ × StationInfo))
      → All (λ row. 10 ≤ length row) rows
      → (m' : List (ℕ × StationInfo)) × (add_stations v rows m ≡ some m')
  unfolding add_stations
  add_stations-total [] m h = (m, refl)
  add_stations-total (row ∷ rows) m h =
      let (s, found) = station_of-total row h.0 in
      let (m', rest) = add_stations-total rows (insert_station v s m) h.1 in (m', rw found rest)

  -- The reader of stations, whose result is never 0.
  read_station_info-total :
      (file : Option (List (List ℕ))) (t : Tables F)
      → HasStations file
      → (t' : Tables F) × (code : ℤ) × (read_station_info v file t ≡ some (t', code))
        × (is_int code 0 ≡ false)
        × (t'.line_data_list ≡ t.line_data_list)
        × (t'.online_tasks ≡ t.online_tasks)
  unfolding read_station_info read_file is_int
  read_station_info-total none t h = (t, negsuc 0, refl, refl, refl, refl)
  read_station_info-total (some lines) t h =
      let (m', found) = add_stations-total (split_lines lines) t.station_info_list h in
      (record t { station_info_list = m' }, pos 1, rw found refl, refl, refl, refl)

  -- Whatever the files hold, `initConfigInfo` neither loads a line nor an online task: it ends after
  -- the stations, whether their file could be opened or not, if each line of it has ten fields.
  pub init_config_info-stations :
      (stations : Option (List (List ℕ))) (name : List ℕ) (lines : Option (List (List ℕ)))
      (online : List OnlineTask) (t : Tables F)
      → HasStations stations
      → (t' : Tables F) × (init_config_info v stations name lines online t ≡ some t')
        × (t'.line_data_list ≡ t.line_data_list)
        × (t'.online_tasks ≡ t.online_tasks)
  unfolding init_config_info
  init_config_info-stations stations name lines online t h =
      let (t', code, read, stop, same_lines, same_tasks) = read_station_info-total stations t h in
      (t', rw (read, stop) refl, same_lines, same_tasks)
