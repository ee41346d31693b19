-- ===== src/Mvb/Ningbo/Alarms/Levels.antt =====
-- The alarm levels in the frame.
use infinity_station.Base.{true, false}
use infinity_station.Base.{ℕ, ◌+◌, ◌-◌, ◌<◌, ◌≡◌, ◌&&◌, arith, some}
use infinity_station.Base.{◌==◌, if◌then◌else◌, ◌⊎◌, inl, inr, Option-cases}
use infinity_station.Base.Int.{ℤ, pos, negsuc}
use infinity_station.Mvb.Ningbo.{NbGenerator, IsValid, switch_level}
use infinity_station.Mvb.Ningbo.Digits.{with_digit-IsValid, digit_at, digit_at-with_digit}
use infinity_station.Mvb.Ningbo.Alarms.{Alarm, set_alarm}
use infinity_station.Mvb.Ningbo.Alarms.Effect.{alarm_place, alarm_place_fits, alarm_effect}
use infinity_station.Mvb.Ningbo.Alarms.Effect.{level_digit, level_digit_low, set_alarm_returns}

alarm_effect-IsValid :
    (a : Alarm) (level : ℤ) (g : NbGenerator)
    → IsValid g
    → IsValid (alarm_effect (alarm_place a) level g)
alarm_effect-IsValid a level g v = elim (Option-cases (alarm_place a)) [
  | inl e ↦ rw e v
  | inr ((offset, base), e) ↦ rw e (
      with_digit-IsValid offset _ _ g v (alarm_place_fits a offset base e).0
        (omega (arith, alarm_place_fits a offset base e, level_digit_low level)))
]

pub set_alarm-IsValid :
    (a : Alarm) (level : ℤ) (g g' : NbGenerator)
    → IsValid g
    → set_alarm a level g ≡ some g'
    → IsValid g'
set_alarm-IsValid a level g g' v e =
    rw (set_alarm_returns a level g g' v e) (alarm_effect-IsValid a level g v)

-- After a call on a valid generator that returns, for an alarm with a place, the digit of the
-- level has its value and every other digit of the frame is what it was.
pub digit_at-set_alarm :
    (a : Alarm) (level : ℤ) (g g' : NbGenerator) (offset base p j : ℕ)
    → IsValid g
    → alarm_place a ≡ some (offset, base)
    → set_alarm a level g ≡ some g'
    → j < 8
    → digit_at g' p j ≡ (
        if p == offset && j == base + (level_digit level).0
        then (if (level_digit level).1 then 1 else 0)
        else digit_at g p j)
digit_at-set_alarm a level g g' offset base p j v place call lt =
    rw (set_alarm_returns a level g g' v call, place)
      (digit_at-with_digit offset (base + (level_digit level).0) (level_digit level).1 g v
        (alarm_place_fits a offset base place).0
        (omega (arith, alarm_place_fits a offset base place, level_digit_low level)) p j lt)

-- The digits that a later call of the same alarm can clear.
clears_first : (level : ℤ) → (level_digit level).1 ≡ false → (level_digit level).0 ≡ 0
unfolding level_digit switch_level
clears_first (pos n) e = ground arith
clears_first (negsuc n) e = ground arith

raises : (n : ℕ) → (n ≡ 2) ⊎ (n ≡ 3) → level_digit (pos n) ≡ (n - 1, true)
unfolding level_digit switch_level
raises n h = ground arith

-- An alarm with a place that a valid generator raises at level 2 or 3 stays in the frame after a
-- next call of the same alarm that returns, whatever its level.
pub set_alarm_sticks :
    (a : Alarm) (n offset base : ℕ) (next : ℤ) (g g' g'' : NbGenerator)
    → IsValid g
    → alarm_place a ≡ some (offset, base)
    → (n ≡ 2) ⊎ (n ≡ 3)
    → set_alarm a (pos n) g ≡ some g'
    → set_alarm a next g' ≡ some g''
    → digit_at g'' offset (base + (n - 1)) ≡ 1
set_alarm_sticks a n offset base next g g' g'' v place two_or_three raised called = ground (
  arith,
  digit_at-set_alarm a next g' g'' offset base offset (base + (n - 1))
      (set_alarm-IsValid a (pos n) g g' v raised) place called
      (omega (arith, alarm_place_fits a offset base place)),
  digit_at-set_alarm a (pos n) g g' offset base offset (base + (n - 1)) v place raised
      (omega (arith, alarm_place_fits a offset base place)),
  clears_first next,
  raises n two_or_three,
)
