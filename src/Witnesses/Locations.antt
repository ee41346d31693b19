-- ===== src/Witnesses/Locations.antt =====
-- Poles and positions for the theorems of Location.
use infinity_station.Base.{ℕ, ◌+◌, ◌≡◌, ◌≢◌, refl, List, [], ◌∷◌, ◌++◌, Option, some, none, All}
use infinity_station.Location.{
  Pole, PositionData, pt_none, pt_line, pt_dist, higher, highest, where_less, where_greater,
  select_kilometer_less, is_dist, rounds,
}
use infinity_station.Location.Batches.{rows_of}
use infinity_station.Location.Spacing.{start_service, kept, every_ninth, InSpan, rounds-kept}

abbrev pole_at : ℕ → Pole
pole_at km = record {
  line_id = km;
  station_name = 1 ∷ [];
  maoduan_name = 2 ∷ [];
  pole_name = km ∷ [];
  kilo_meter = km;
  span = 50000;
  line_dir = 1;
}

-- Four poles, of which the third is the next one ahead of 91 metres.
abbrev poles : List Pole
poles = pole_at 0 ∷ pole_at 50000 ∷ pole_at 100000 ∷ pole_at 150000 ∷ []

abbrev new_position : PositionData
new_position = record {
  line_id = 0;
  station_name = [];
  maoduan_name = [];
  pole_name = [];
  kilo_meter = 0;
  span = 0;
  position_type = pt_none;
}

ahead_of : where_greater (90000 + 1000) 1 poles ≢ []
unfolding where_greater
ahead_of e = cc

behind_it : select_kilometer_less (90000 + 1000) 1 poles ≡ some (pole_at 50000)
unfolding select_kilometer_less where_less highest higher
behind_it = refl

far_ahead : where_greater (90000 + 1000) 1 poles ≡ (pole_at 100000 ∷ []) ++ pole_at 150000 ∷ []
unfolding where_greater
far_ahead = refl

abbrev three_rows : List ℕ
three_rows = 3 ∷ 4 ∷ 5 ∷ []

-- The positions of three rounds: a round without detection, and two positions 30 centimetres apart.
abbrev three_rounds : List (Option PositionData)
three_rounds =
    some (record new_position { kilo_meter = 300; position_type = pt_line })
    ∷ none
    ∷ some (record new_position { kilo_meter = 600; position_type = pt_line })
    ∷ []

three_rounds-InSpan : All InSpan three_rounds
unfolding is_dist
three_rounds-InSpan = (refl, (tt, (refl, tt)))

-- The first position that is found is at a new pole.
abbrev first_round : List (Option PositionData)
first_round = some (record new_position { kilo_meter = 100; position_type = pt_dist }) ∷ []

rounds-kept_example :
    let s = rounds first_round start_service in
    (rows_of (rounds three_rounds s).data_base
      ≡ rows_of s.data_base ++ kept s.trigger.pre_dis three_rounds)
    × ((rounds three_rounds s).sent
        ≡ s.sent ++ every_ninth s.send_num (kept s.trigger.pre_dis three_rounds))
rounds-kept_example = rounds-kept first_round three_rounds three_rounds-InSpan
