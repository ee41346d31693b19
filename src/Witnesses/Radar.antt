-- ===== src/Witnesses/Radar.antt =====
-- Maps, frames and objects for the theorems of Radar.
use infinity_station.Base.{
  ℕ, zero, suc, ◌+◌, ◌-◌, ◌≤◌, ◌<◌, ◌≡◌, ◌≢◌, refl, sym, subst, Bool, true, false, List, [], ◌∷◌,
  ◌++◌, none, some, arith, length, leb, ltb, ◌==◌, ◌↔◌,
}
use infinity_station.Radar.Overrun.Table.{IndexTable, lookup, Distinct, get_hash_index, IsMap}
use infinity_station.Radar.Overrun.Claims.{get_hash_index-unused, get_hash_index-again}
use infinity_station.Radar.Overrun.Scan.{
  DeviceSurfaceData, Geometry, scan_frame, is_empty, end_scan, scan_points, scan_point,
  close_region,
}
use infinity_station.Radar.Overrun.Regions.{
  IsOnly, points_over, scan_frame-object, scan_frame-one_point,
}
use infinity_station.Radar.Overrun.Frame.{
  RadarOverrun, Angles, Call, Clock, IsSort, find_row, push_row, erase_row, is_overrun,
}
use infinity_station.Radar.Overrun.Single.{ended-released, continued-index}

-- A map that puts a new entry first.
abbrev place_first : ℕ → IndexTable → IndexTable
place_first i t = (i, false) ∷ t

place_first-IsMap : IsMap place_first
unfolding lookup Distinct
place_first-IsMap = record {
  has = λ i t absent. ground arith;
  keeps = λ i j t absent apart. ground (arith, apart);
  distinct = λ i t absent d. (absent, d);
}

-- A map that puts a new entry last.
abbrev place_last : ℕ → IndexTable → IndexTable
place_last i t = t ++ (i, false) ∷ []

place_last_has :
    (i : ℕ) (t : IndexTable) → lookup i t ≡ none → lookup i (place_last i t) ≡ some false
unfolding lookup
place_last_has i [] h = ground arith
place_last_has i ((k, u) ∷ t) h = ground (arith, h, place_last_has i t)

place_last_keeps :
    (i j : ℕ) (t : IndexTable) → lookup i t ≡ none → j ≢ i → lookup j (place_last i t) ≡ lookup j t
unfolding lookup
place_last_keeps i j [] h apart = ground (arith, apart)
place_last_keeps i j ((k, u) ∷ t) h apart = ground (arith, h, apart, place_last_keeps i j t)

tail_absent :
    (i k : ℕ) (u : Bool) (t : IndexTable) → lookup i ((k, u) ∷ t) ≡ none → lookup i t ≡ none
unfolding lookup
tail_absent i k u t h = ground (arith, h)

head_other : (i k : ℕ) (u : Bool) (t : IndexTable) → lookup i ((k, u) ∷ t) ≡ none → k ≢ i
unfolding lookup
head_other i k u t h e = ground (arith, h, e)

place_last_distinct :
    (i : ℕ) (t : IndexTable) → lookup i t ≡ none → Distinct t → Distinct (place_last i t)
unfolding Distinct
place_last_distinct i [] h d = (unfold lookup in refl, tt)
place_last_distinct i ((k, u) ∷ t) h d =
    let there = tail_absent i k u t h in
    (
      subst (λ x. x ≡ none) (sym (place_last_keeps i k t there (head_other i k u t h))) d.0,
      place_last_distinct i t there d.1,
    )

place_last-IsMap : IsMap place_last
place_last-IsMap = record {
  has = place_last_has;
  keeps = place_last_keeps;
  distinct = place_last_distinct;
}

-- Indices that are all in use.
abbrev in_use : ℕ → ℕ → IndexTable
in_use start zero = []
in_use start (suc n) = (start, true) ∷ in_use (suc start) n

in_use-full : (start n j : ℕ) → lookup j (in_use start n) ≢ some false
unfolding lookup
in_use-full start zero j h = cc
in_use-full start (suc n) j h = ground (arith, in_use-full (suc start) n j, h)

in_use-inside : (start n j : ℕ) → start ≤ j → j < start + n → lookup j (in_use start n) ≡ some true
unfolding lookup
in_use-inside start zero j low high = absurd (omega (arith, low, high))
in_use-inside start (suc n) j low high = ground (arith, low, high, in_use-inside (suc start) n j)

in_use-above : (start n j : ℕ) → j < start → lookup j (in_use start n) ≡ none
unfolding lookup
in_use-above start zero j h = refl
in_use-above start (suc n) j h = ground (arith, h, in_use-above (suc start) n j)

in_use-Distinct : (start n : ℕ) → Distinct (in_use start n)
unfolding Distinct
in_use-Distinct start zero = tt
in_use-Distinct start (suc n) =
    (in_use-above (suc start) n start (omega arith), in_use-Distinct (suc start) n)

in_use-one : (j : ℕ) (u : Bool) → lookup j (in_use 0 1) ≡ some u → j < 1
unfolding lookup
in_use-one j u h = ground (arith, h)

get_hash_index-unused_example :
    (i : ℕ) × (t' : IndexTable) × (get_hash_index place_first (in_use 0 1) ≡ some (i, t'))
    × (lookup i (in_use 0 1) ≢ some true)
    × (lookup i t' ≡ some true)
    × ((j : ℕ) → lookup j (in_use 0 1) ≡ some true → lookup j t' ≡ some true)
    × Distinct t'
get_hash_index-unused_example =
    get_hash_index-unused place_first place_first-IsMap (in_use 0 1) (in_use-Distinct 0 1)
      in_use-one

get_hash_index-again_example :
    (i : ℕ) × (t' : IndexTable) × (get_hash_index place_last (in_use 0 11) ≡ some (i, t'))
    × (lookup i (in_use 0 11) ≡ some true)
    × ((n : ℕ) → n < 10 → 1 + n ≢ i → lookup (1 + n) t' ≡ some false)
get_hash_index-again_example =
    get_hash_index-again place_last place_last-IsMap (in_use 0 11) (in_use-Distinct 0 11)
      (in_use-full 0 11)
      (λ n small. in_use-inside 0 11 (1 + n) (omega arith) (omega (arith, small)))

-- Points on a line, of which those from 100 are inside.
abbrev line : Geometry ℕ ℕ
line = record {
  is_origin = λ p. p == 0;
  is_point_in_polygon = λ p. leb 100 p;
  offset_angle = λ p. p;
}

abbrev degrees : Angles ℕ ℕ
degrees = record {
  ring_difference = λ a b. (a - b) + (b - a);
  is_less = ltb;
  widest = 360;
  is_acceptable = λ d. leb d 10;
}

abbrev still : Clock ℕ
still = record { created_at = λ i. i; updated_at = λ i. i; location_at = λ i. i }

-- An object with the points of an earlier use.
abbrev used_object : DeviceSurfaceData ℕ ℕ ℕ
used_object = record {
  data_surface = 1 ∷ 2 ∷ 3 ∷ 4 ∷ 5 ∷ 6 ∷ [];
  index = 0;
  angle_start = 4;
  create_time = 0;
  update_time = 0;
  is_match = false;
  location_id = 0;
  z_size = 6;
}

abbrev unsorted : (ℕ → DeviceSurfaceData ℕ ℕ ℕ) → List ℕ → List ℕ
unsorted store xs = xs

unsorted-IsSort : IsSort unsorted
unsorted-IsSort store xs = (λ Good. (λ h. h, λ h. h), refl)

scan_frame-object_example :
    IsOnly 7 (scan_frame line 7 (150 ∷ 1 ∷ 160 ∷ []) used_object).overrun_list_now
    × ((scan_frame line 7 (150 ∷ 1 ∷ 160 ∷ []) used_object).obj.data_surface
        ≡ used_object.data_surface ++ points_over line (150 ∷ 1 ∷ 160 ∷ []))
    × ((scan_frame line 7 (150 ∷ 1 ∷ 160 ∷ []) used_object).obj.z_size
        ≡ 6 + length (points_over line (150 ∷ 1 ∷ 160 ∷ [])))
scan_frame-object_example = scan_frame-object line 7 (150 ∷ 1 ∷ 160 ∷ []) used_object

scan_frame-one_point_example :
    is_empty (scan_frame line 7 (1 ∷ 150 ∷ 1 ∷ []) used_object).overrun_list_now
    ≡ is_empty (points_over line (1 ∷ 150 ∷ 1 ∷ []))
scan_frame-one_point_example =
    scan_frame-one_point line 7 (1 ∷ 150 ∷ 1 ∷ []) used_object (omega arith)

abbrev call : ℕ → List ℕ → Call ℕ ℕ ℕ
call address frame = record { corners = 4; frame = frame; address = address; obj = used_object }

-- Two regions, and then none.
abbrev two_regions : Call ℕ ℕ ℕ
two_regions = call 1 (150 ∷ 1 ∷ 1 ∷ 1 ∷ 1 ∷ 1 ∷ 150 ∷ [])

abbrev start : RadarOverrun ℕ ℕ ℕ
start = record {
  store = λ n. used_object;
  overrun_list_before = [];
  overrun_hash = [];
  overrun_hash_index = (0, true) ∷ (1, false) ∷ (2, false) ∷ (3, false) ∷ [];
}

abbrev next_call : Call ℕ ℕ ℕ
next_call = call 2 (1 ∷ [])

-- One region in the last frame, the object at 3.
abbrev one_region : RadarOverrun ℕ ℕ ℕ
one_region = record start { overrun_list_before = 3 ∷ []; overrun_hash = (0, 3 ∷ []) ∷ [] }

empty_frame : (scan_frame line 1 (1 ∷ []) used_object).overrun_list_now ≡ []
unfolding scan_frame end_scan scan_points scan_point close_region
empty_frame = refl

one_in_list : (scan_frame line 1 (100 ∷ []) used_object).overrun_list_now ≡ 1 ∷ []
unfolding scan_frame end_scan scan_points scan_point
one_in_list = refl

old_angle : (scan_frame line 1 (100 ∷ []) used_object).obj.angle_start ≡ 4
unfolding scan_frame end_scan scan_points scan_point
old_angle = refl

has_row : find_row 0 one_region.overrun_hash ≡ some (3 ∷ [])
unfolding find_row
has_row = refl

start_used : lookup 0 start.overrun_hash_index ≡ some true
unfolding lookup
start_used = refl

ended-released_example :
    (r' : RadarOverrun ℕ ℕ ℕ) × (is_overrun line degrees still
        (λ k. k)
        place_first
        unsorted
        4
        (1 ∷ [])
        1
        used_object
        one_region
      ≡ some (r', (3 ∷ []) ∷ []))
    × (r'.overrun_list_before ≡ [])
    × (r'.overrun_hash ≡ erase_row 0 one_region.overrun_hash)
    × ((lookup 0 r'.overrun_hash_index ≡ some false) ↔ (◌≡◌ {A = ℕ} 0 0))
    × ((j : ℕ) → j ≢ 0 → lookup j r'.overrun_hash_index ≡ lookup j start.overrun_hash_index)
ended-released_example =
    ended-released line degrees still (λ k. k) place_first unsorted unsorted-IsSort
      (call 1 (1 ∷ [])) one_region 3 (3 ∷ []) (omega arith) empty_frame refl (λ e. omega (arith, e))
      has_row start_used

near_angle :
    ltb
      ((scan_frame line 1 (100 ∷ []) used_object).obj.angle_start
        - 4
        + (4 - (scan_frame line 1 (100 ∷ []) used_object).obj.angle_start))
      360
    ≡ true
near_angle = ground (arith, old_angle)

close_angle :
    leb
      ((scan_frame line 1 (100 ∷ []) used_object).obj.angle_start
        - 4
        + (4 - (scan_frame line 1 (100 ∷ []) used_object).obj.angle_start))
      10
    ≡ true
close_angle = ground (arith, old_angle)

continued-index_example :
    (r' : RadarOverrun ℕ ℕ ℕ) × (is_overrun line degrees still
        (λ k. k)
        place_first
        unsorted
        4
        (100 ∷ [])
        1
        used_object
        one_region
      ≡ some (r', []))
    × (r'.overrun_list_before ≡ 1 ∷ [])
    × ((r'.store 1).index ≡ 0)
    × ((r'.store 1).create_time ≡ 0)
    × (r'.overrun_hash ≡ push_row 0 1 one_region.overrun_hash)
    × (r'.overrun_hash_index ≡ start.overrun_hash_index)
continued-index_example =
    continued-index line degrees still (λ k. k) place_first unsorted unsorted-IsSort
      (call 1 (100 ∷ [])) one_region 3 (omega arith) one_in_list refl (λ e. omega (arith, e))
      near_angle close_angle
