-- ===== src/Radar/Overrun/Scan.antt =====
-- The first phase of isOverrun of RadarOverrun.cpp: the points of a frame inside the polygon are put
-- into an object of the pool, and the object into the list of the regions that are over the limit. The
-- geometry in floating point, `isPointInPolygon` and `calculateOffsetAngle`, is a parameter. `getObject`
-- gives no null pointer, so the object is got once; it is a number, its address.
use infinity_station.Base.{
  ℕ, ◌+◌, ◌-◌, ◌/◌, Bool, true, false, ◌&&◌, List, [], ◌∷◌, ◌++◌, none, some, length, get_elem?,
  ltb, leb, not, if◌then◌else◌,
}

-- What isOverrun reads or writes of a DeviceSurfaceData.
pub record DeviceSurfaceData (P A S : Type 0) : Type 0 where
  pub data_surface : List P
  pub index : ℕ
  pub angle_start : A
  pub create_time : S
  pub update_time : S
  pub is_match : Bool
  pub location_id : S
  pub z_size : ℕ

pub record Geometry (P A : Type 0) : Type 0 where
  pub is_origin : P → Bool  -- both coordinates are 0
  pub is_point_in_polygon : P → Bool  -- of the polygon of the call
  pub offset_angle : P → A

pub record Scan (P A S : Type 0) : Type 0 where
  pub obj : DeviceSurfaceData P A S
  pub in_polygon : Bool
  pub condition : ℕ  -- iCondition
  pub overrun_list_now : List ℕ

abbrev pub is_empty {ℓ} : {A : Type ℓ} → List A → Bool
is_empty [] = true
is_empty (p ∷ ps) = false

abbrev pub begin_scan : {P A S : Type 0} → DeviceSurfaceData P A S → Scan P A S
begin_scan o = record { obj = o; in_polygon = false; condition = 0; overrun_list_now = [] }

module _ {P A S : Type 0} (g : Geometry P A) (address : ℕ) where
  -- The angle of the middle point. An access out of bounds does not happen, by the guard on the size.
  unfoldable pub set_angle : DeviceSurfaceData P A S → DeviceSurfaceData P A S
  set_angle o = elim (get_elem? o.data_surface (length o.data_surface / 2 - 1)) [
    | none ↦ o
    | some p ↦ record o { angle_start = g.offset_angle p }
  ]

  unfoldable pub close_region : Scan P A S → Scan P A S
  close_region s =
      let large = ltb 5 (length s.obj.data_surface) in
      if leb 5 (s.condition + 1)
      then record s {
        obj = if s.in_polygon && large then set_angle s.obj else s.obj;
        in_polygon = false;
        condition = 0;
        overrun_list_now =
            if s.in_polygon && large
            then s.overrun_list_now ++ address ∷ []
            else s.overrun_list_now;
      }
      else record s { condition = s.condition + 1 }

  unfoldable pub scan_point : P → Scan P A S → Scan P A S
  scan_point p s =
      if g.is_origin p
      then s
      else if g.is_point_in_polygon p
      then record s {
        obj = record s.obj {
          data_surface = s.obj.data_surface ++ p ∷ [];
          z_size = s.obj.z_size + 1;
        };
        in_polygon = true;
        condition = 0;
      }
      else close_region s

  unfoldable pub scan_points : List P → Scan P A S → Scan P A S
  scan_points [] s = s
  scan_points (p ∷ ps) s = scan_points ps (scan_point p s)

  -- A region at the end of the frame.
  unfoldable pub end_scan : Scan P A S → Scan P A S
  end_scan s =
      if s.in_polygon && not (is_empty s.obj.data_surface)
      then record s { overrun_list_now = s.overrun_list_now ++ address ∷ [] }
      else s

  unfoldable pub scan_frame : List P → DeviceSurfaceData P A S → Scan P A S
  scan_frame frame o = end_scan (scan_points frame (begin_scan o))
