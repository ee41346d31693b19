-- ===== src/Witnesses/Counters.antt =====
-- Replies of the relay board for the theorems of Kits/Counters.
use infinity_station.Base.{◌<◌, ◌≡◌, refl, [], ◌∷◌, ◌++◌, List, ℕ, none, length, ◌↔◌}
use infinity_station.Kits.Counters.{parse_dynamic_counter_response, calc_speed_data}
use infinity_station.Kits.Counters.Replies.{
  words_bytes, without_zeros, parse_reply, calc_speed_data-past_end,
}

abbrev header : List ℕ
header = 0 ∷ 3 ∷ 0 ∷ 0 ∷ 0 ∷ 19 ∷ 1 ∷ 3 ∷ 16 ∷ []

parse_reply_example :
    parse_dynamic_counter_response (header ++ words_bytes (7 ∷ 0 ∷ 70000 ∷ 0 ∷ [])) 4
    ≡ without_zeros (7 ∷ 0 ∷ 70000 ∷ 0 ∷ [])
parse_reply_example = parse_reply header 7 0 70000 0 refl

abbrev reply : List ℕ
reply = header ++ words_bytes (7 ∷ 0 ∷ 70000 ∷ 0 ∷ [])

-- No reply, and then one.
calc_speed_data-past_end_example :
    ((calc_speed_data reply (calc_speed_data [] record { now_pulse = []; last_pulse = [] }).0).1
      ≡ none)
    ↔ (length (parse_dynamic_counter_response [] 4)
        < length (parse_dynamic_counter_response reply 4))
calc_speed_data-past_end_example =
    calc_speed_data-past_end [] reply record { now_pulse = []; last_pulse = [] }
