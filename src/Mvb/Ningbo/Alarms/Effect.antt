-- ===== src/Mvb/Ningbo/Alarms/Effect.antt =====
-- What the alarm setters do to the frame, against the places that README_ningbo8protocl.md gives.
use infinity_station.Base.{ℕ, ◌+◌, ◌≤◌, ◌<◌, ◌≡◌, refl, true, false, arith}
use infinity_station.Base.{Option, none, some}
use infinity_station.Base.{Bool, ◌==◌, if◌then◌else◌}
use infinity_station.Base.Int.{ℤ, pos, negsuc}
use infinity_station.Mvb.Frame.BitSet.{set_bit_set_value_cases}
use infinity_station.Mvb.Ningbo.{NbGenerator, IsValid, write_bit, switch_level}
use infinity_station.Mvb.Ningbo.Digits.{with_digit, write_bit-with_digit}
use infinity_station.Mvb.Ningbo.Alarms.{
  Alarm, set_alarm, temp_alarm, cat_off_alarm, cat_hei_alarm, arc_alarm, str_alarm, acc_alarm,
  yang_jiao_alarm, tan_hua_ban_alarm, gong_tou_alarm, contact_forc_alarm, ret_rail_hspace_alarm,
  ret_rail_vspace_alarm, ret_rail_hard_pot_alarm, diversion_wire_alarm,
}

-- The byte of an alarm and the digit of its first level; `none` for an alarm with no place.
unfoldable pub alarm_place : Alarm → Option (ℕ × ℕ)
alarm_place temp_alarm = some (44, 0)
alarm_place cat_off_alarm = some (46, 0)
alarm_place cat_hei_alarm = some (47, 0)
alarm_place arc_alarm = some (43, 0)
alarm_place str_alarm = some (42, 0)
alarm_place acc_alarm = some (45, 0)
alarm_place yang_jiao_alarm = some (42, 4)
alarm_place tan_hua_ban_alarm = some (43, 4)
alarm_place gong_tou_alarm = none
alarm_place contact_forc_alarm = some (45, 4)
alarm_place ret_rail_hspace_alarm = some (46, 4)
alarm_place ret_rail_vspace_alarm = some (47, 4)
alarm_place ret_rail_hard_pot_alarm = some (48, 0)
alarm_place diversion_wire_alarm = none

-- The digit that a level writes, and the value; a level outside 1 to 3 clears the first digit.
unfoldable pub level_digit : ℤ → ℕ × Bool
unfolding switch_level
level_digit level = switch_level level (0, true) (1, true) (2, true) (0, false)

switch_write_lem :
    (offset beginbit endbit base : ℕ) (level : ℤ) (g : NbGenerator)
    → IsValid g
    → offset < 72
    → base + 2 < 8
    → switch_level level
        (write_bit offset beginbit endbit base true g)
        (write_bit offset beginbit endbit (base + 1) true g)
        (write_bit offset beginbit endbit (base + 2) true g)
        (write_bit offset beginbit endbit base false g)
      ≡ some (with_digit offset (base + (level_digit level).0) (level_digit level).1 g)
unfolding level_digit
switch_write_lem offset b e base (pos n) g v lt low = ground (
  arith,
  write_bit-with_digit offset b e base true g v lt (omega arith),
  write_bit-with_digit offset b e (base + 1) true g v lt (omega arith),
  write_bit-with_digit offset b e (base + 2) true g v lt low,
  write_bit-with_digit offset b e base false g v lt (omega arith),
)
switch_write_lem offset b e base (negsuc n) g v lt low =
    ground (arith, write_bit-with_digit offset b e base false g v lt (omega arith))

-- The one call that throws: position 9 of a bitset of 8 digits.
abbrev pub throws : Alarm → ℤ → Bool
throws cat_hei_alarm (pos n) = n == 1
throws a level = false

-- What a call amounts to where it returns.
abbrev pub alarm_effect : Option (ℕ × ℕ) → ℤ → NbGenerator → NbGenerator
alarm_effect none level g = g
alarm_effect (some (offset, base)) level g =
    with_digit offset (base + (level_digit level).0) (level_digit level).1 g

cat_hei_throws : (g : NbGenerator) → IsValid g → write_bit 47 0 2 9 true g ≡ none
unfolding write_bit
cat_hei_throws g v = ground (arith, set_bit_set_value_cases 47 0 2 9 true g.bytes v.small)

set_cat_hei_alarm_cases :
    (level : ℤ) (g : NbGenerator)
    → IsValid g
    → set_alarm cat_hei_alarm level g
      ≡ (if throws cat_hei_alarm level then none else some (alarm_effect (some (47, 0)) level g))
unfolding set_alarm level_digit
set_cat_hei_alarm_cases (pos n) g v = ground (
  arith,
  cat_hei_throws g v,
  write_bit-with_digit 47 0 2 1 true g v (omega arith) (omega arith),
  write_bit-with_digit 47 0 2 2 true g v (omega arith) (omega arith),
  write_bit-with_digit 47 0 2 0 false g v (omega arith) (omega arith),
)
set_cat_hei_alarm_cases (negsuc n) g v =
    ground (arith, write_bit-with_digit 47 0 2 0 false g v (omega arith) (omega arith))

-- On a valid generator, level 1 of `cat_hei_alarm` is the one call that throws. Every other call
-- writes the one digit of its level, or nothing for the two alarms without a place.
pub set_alarm_cases :
    (a : Alarm) (level : ℤ) (g : NbGenerator)
    → IsValid g
    → set_alarm a level g
      ≡ (if throws a level then none else some (alarm_effect (alarm_place a) level g))
unfolding set_alarm alarm_place
set_alarm_cases temp_alarm level g v =
    switch_write_lem 44 0 2 0 level g v (omega arith) (omega arith)
set_alarm_cases cat_off_alarm level g v =
    switch_write_lem 46 0 2 0 level g v (omega arith) (omega arith)
set_alarm_cases cat_hei_alarm level g v = set_cat_hei_alarm_cases level g v
set_alarm_cases arc_alarm level g v =
    switch_write_lem 43 0 2 0 level g v (omega arith) (omega arith)
set_alarm_cases str_alarm level g v =
    switch_write_lem 42 0 2 0 level g v (omega arith) (omega arith)
set_alarm_cases acc_alarm level g v =
    switch_write_lem 45 0 2 0 level g v (omega arith) (omega arith)
set_alarm_cases yang_jiao_alarm level g v =
    switch_write_lem 42 4 6 4 level g v (omega arith) (omega arith)
set_alarm_cases tan_hua_ban_alarm level g v =
    switch_write_lem 43 4 6 4 level g v (omega arith) (omega arith)
set_alarm_cases gong_tou_alarm level g v = refl
set_alarm_cases contact_forc_alarm level g v =
    switch_write_lem 45 4 6 4 level g v (omega arith) (omega arith)
set_alarm_cases ret_rail_hspace_alarm level g v =
    switch_write_lem 46 4 6 4 level g v (omega arith) (omega arith)
set_alarm_cases ret_rail_vspace_alarm level g v =
    switch_write_lem 47 4 6 4 level g v (omega arith) (omega arith)
set_alarm_cases ret_rail_hard_pot_alarm level g v =
    switch_write_lem 48 0 2 0 level g v (omega arith) (omega arith)
set_alarm_cases diversion_wire_alarm level g v = refl

pub alarm_place_fits :
    (a : Alarm) (offset base : ℕ)
    → alarm_place a ≡ some (offset, base)
    → (offset < 72) × (base + 2 < 8)
unfolding alarm_place
alarm_place_fits temp_alarm offset base e = ground arith
alarm_place_fits a offset base e = ground arith

pub level_digit_low : (level : ℤ) → (level_digit level).0 ≤ 2
unfolding level_digit
level_digit_low (pos n) = ground arith
level_digit_low (negsuc n) = omega arith

-- A call that returns has the effect.
pub set_alarm_returns :
    (a : Alarm) (level : ℤ) (g g' : NbGenerator)
    → IsValid g
    → set_alarm a level g ≡ some g'
    → g' ≡ alarm_effect (alarm_place a) level g
set_alarm_returns a level g g' v e = ground (arith, set_alarm_cases a level g v)
