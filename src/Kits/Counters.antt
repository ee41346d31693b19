-- ===== src/Kits/Counters.antt =====
-- src/kits/thrid_devices/connectivity_kits/7404net: the counters of a relay board, read from its reply
-- and added up. A reply is a list of bytes; a reply that did not come is the empty list.
pub mod Replies
use infinity_station.Base.{
  ℕ, zero, suc, ◌+◌, ◌-◌, ◌*◌, ◌/◌, ◌%◌, ◌^◌, Bool, true, false, List, [], ◌∷◌, Option, none, some,
  ltb, ◌==◌, length, get_or, if◌then◌else◌,
}

-- The word of four bytes, high byte first. With at most four channels no access is out of bounds.
unfoldable pub counter_at : List ℕ → ℕ → ℕ
counter_at response start =
    get_or response start 0 * 2 ^ 24
    + get_or response (start + 1) 0 * 2 ^ 16
    + get_or response (start + 2) 0 * 2 ^ 8
    + get_or response (start + 3) 0

-- The channels from `channel`, of which `left` are left to parse.
unfoldable pub parse_channels : List ℕ → ℕ → ℕ → ℕ → List ℕ
parse_channels response channel_count zero channel = []
parse_channels response channel_count (suc left) channel =
    let counter = counter_at response (9 + channel * channel_count) in
    let rest = parse_channels response channel_count left (channel + 1) in
    if counter == 0 then rest else counter ∷ rest

unfoldable pub parse_dynamic_counter_response : List ℕ → ℕ → List ℕ
parse_dynamic_counter_response response channel_count =
    if ltb (length response) 25 then [] else parse_channels response channel_count channel_count 0

-- The members mvec_nowpulse and mvec_lastpulse.
pub record Pulses : Type 0 where
  pub now_pulse : List ℕ
  pub last_pulse : List ℕ

-- The sum of the differences, as unsigned words; `none` is a read past the end of `last`.
unfoldable pub sum_pulses : List ℕ → List ℕ → Option ℕ
sum_pulses [] last = some 0
sum_pulses (n ∷ now) [] = none
sum_pulses (n ∷ now) (l ∷ last) = elim (sum_pulses now last) [
  | none ↦ none
  | some sum ↦ some ((n + 2 ^ 32 - l) % 2 ^ 32 + sum)
]

-- `calcSpeedData` with the reply to its request, to the number of pulses, outside the simulation.
unfoldable pub calc_speed_data : List ℕ → Pulses → Pulses × Option ℕ
calc_speed_data reply p =
    let p' = record p {
      last_pulse = p.now_pulse;
      now_pulse = parse_dynamic_counter_response reply 4;
    } in
    let count = length p'.now_pulse in
    if count == 0 then (p', some 0) else (
      p',
      elim (sum_pulses p'.now_pulse p'.last_pulse) [ none ↦ none | some sum ↦ some (sum / count) ],
    )
