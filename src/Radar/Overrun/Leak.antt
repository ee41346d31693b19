-- ===== src/Radar/Overrun/Leak.antt =====
-- Where RadarOverrun.cpp loses an index.
use infinity_station.Base.{ℕ, ◌≡◌, List, Option, none, some}
use infinity_station.Radar.Overrun.Table.{IndexTable}
use infinity_station.Radar.Overrun.Scan.{DeviceSurfaceData, Geometry}
use infinity_station.Radar.Overrun.Adding.{Adding}
use infinity_station.Radar.Overrun.Frame.{RadarOverrun, Angles, Call, Clock, IsSort, IsFit}

module _ {P A S D : Type 0} (g : Geometry P A) (angles : Angles A D) (clock : Clock S)
    (erased_key : ℕ → ℕ) (intact : (k : ℕ) → erased_key k ≡ k) (place : ℕ → IndexTable → IndexTable)
    (sort : (ℕ → DeviceSurfaceData P A S) → List ℕ → List ℕ) (sorts : IsSort sort) where
  -- What `IsFit` asks after a call.
  abbrev NextFit : List (Call P A S) → Option (RadarOverrun P A S × List (List ℕ)) → Type 0
  NextFit cs after = elim after [
    | none ↦ Unit
    | some (r', to_sql) ↦ IsFit g angles clock erased_key place sort cs r'
  ]
