-- ===== src/Mvb/Hangde/Alarms.antt =====
-- What the setters of the Hangde line do to the frame.
use infinity_station.Base.{
  ℕ, ◌<◌, ◌≡◌, refl, ◌∙◌, Bool, true, false, List, [], ◌∷◌, some, ◌>>=◌, arith, ◌==◌, if◌then◌else◌,
}
use infinity_station.Base.{get_or, set, length-set, All-set, All-get_or}
use infinity_station.Base.Int.{ℤ, pos, negsuc}
use infinity_station.Mvb.Frame.{IsByte, with_bit}
use infinity_station.Mvb.Frame.BitSet.{set_bit_set_value_inside, with_bit-IsByte}
use infinity_station.Mvb.Ningbo.{switch_level}
use infinity_station.Mvb.Ningbo.Alarms.{Alarm, temp_alarm, cat_off_alarm, cat_hei_alarm, arc_alarm}
use infinity_station.Mvb.Hangde.{HdGenerator, write_bit, set_alarm}
use infinity_station.Mvb.Hangde.Sealed.{IsHdValid}

-- A digit to be written: its byte, its place and its value.
abbrev pub Digit : Type 0
Digit = ℕ × ℕ × Bool

unfoldable pub put : Digit → HdGenerator → HdGenerator
put (offset, digit, v) g = record g {
  bytes = set g.bytes offset (with_bit (get_or g.bytes offset 0) digit v);
}

unfoldable pub put_all : List Digit → HdGenerator → HdGenerator
unfolding put
put_all [] g = g
put_all (d ∷ ds) g = put_all ds (put d g)

-- The digits that a level of an alarm writes.
unfoldable pub alarm_digits : Alarm → ℤ → List Digit
unfolding switch_level
alarm_digits temp_alarm level =
    switch_level level ((32, 6, true) ∷ (33, 0, false) ∷ []) ((32, 7, true) ∷ (33, 0, false) ∷ [])
      ((32, 6, false) ∷ (33, 0, true) ∷ []) ((32, 6, false) ∷ (33, 0, false) ∷ [])
alarm_digits cat_off_alarm level =
    switch_level level ((32, 0, true) ∷ []) ((32, 1, true) ∷ []) ((32, 2, true) ∷ [])
      ((32, 2, false) ∷ [])
alarm_digits cat_hei_alarm level =
    switch_level level ((32, 3, true) ∷ []) ((32, 4, true) ∷ []) ((32, 5, true) ∷ [])
      ((32, 5, false) ∷ [])
alarm_digits arc_alarm level =
    switch_level level ((33, 1, true) ∷ []) ((33, 2, true) ∷ []) ((33, 3, true) ∷ [])
      ((33, 1, false) ∷ [])
alarm_digits a level = []

module _ (offset digit : ℕ) (v : Bool) (g : HdGenerator) (valid : IsHdValid g) (lt : offset < 46)
    (low : digit < 8) where
  write_bit-put : (b e : ℕ) → write_bit offset b e digit v g ≡ some (put (offset, digit, v) g)
  unfolding write_bit put
  write_bit-put b e = rw (
      set_bit_set_value_inside offset b e digit v g.bytes valid.small (omega (arith, valid.full))
        low)

  put-IsHdValid : IsHdValid (put (offset, digit, v) g)
  unfolding put
  put-IsHdValid = record {
    full = length-set g.bytes offset _ ∙ valid.full;
    small = All-set IsByte g.bytes offset _ valid.small (
        with_bit-IsByte (get_or g.bytes offset 0) digit
          (All-get_or IsByte g.bytes offset 0 valid.small (omega (arith, valid.full))) low v);
  }

-- Two writes in a row.
write_two :
    (b e digit b' e' digit' : ℕ) (v v' : Bool) (g : HdGenerator)
    → IsHdValid g
    → digit < 8
    → digit' < 8
    → (write_bit 32 b e digit v g >>= write_bit 33 b' e' digit' v')
      ≡ some (put (33, digit', v') (put (32, digit, v) g))
write_two b e digit b' e' digit' v v' g valid low low' =
    rw (write_bit-put 32 digit v g valid (omega arith) low b e) (
      write_bit-put 33 digit' v' (put (32, digit, v) g)
        (put-IsHdValid 32 digit v g valid (omega arith) low) (omega arith) low' b' e')

-- A function over the four cases of a level.
switch_level-map {ℓ κ} :
    {A : Type ℓ} {B : Type κ} (f : A → B) (level : ℤ) (one two three other : A)
    → switch_level level (f one) (f two) (f three) (f other)
      ≡ f (switch_level level one two three other)
unfolding switch_level
switch_level-map f (negsuc n) one two three other = refl
switch_level-map f (pos n) one two three other = tests (n == 1) (n == 2) (n == 3)
  where
    tests :
        (p q r : Bool)
        → (if p then f one else (if q then f two else (if r then f three else f other)))
          ≡ f (if p then one else (if q then two else (if r then three else other)))
    tests true q r = refl
    tests false true r = refl
    tests false false true = refl
    tests false false false = refl

-- On a valid generator every alarm setter returns, whatever the level, and writes the digits that
-- the table gives for the level, in order.
pub set_alarm-digits :
    (a : Alarm) (level : ℤ) (g : HdGenerator)
    → IsHdValid g
    → set_alarm a level g ≡ some (put_all (alarm_digits a level) g)
unfolding set_alarm alarm_digits put_all
set_alarm-digits temp_alarm level g v =
    rw
      (
        write_two 6 7 6 0 0 0 true false g v (omega arith) (omega arith),
        write_two 6 7 7 0 0 0 true false g v (omega arith) (omega arith),
        write_two 6 7 6 0 0 0 false true g v (omega arith) (omega arith),
        write_two 6 7 6 0 0 0 false false g v (omega arith) (omega arith),
      )
      (switch_level-map (λ ds. some (put_all ds g)) level _ _ _ _)
set_alarm-digits cat_off_alarm level g v =
    rw
      (
        write_bit-put 32 0 true g v (omega arith) (omega arith) 0 2,
        write_bit-put 32 1 true g v (omega arith) (omega arith) 0 2,
        write_bit-put 32 2 true g v (omega arith) (omega arith) 0 2,
        write_bit-put 32 2 false g v (omega arith) (omega arith) 0 2,
      )
      (switch_level-map (λ ds. some (put_all ds g)) level _ _ _ _)
set_alarm-digits cat_hei_alarm level g v =
    rw
      (
        write_bit-put 32 3 true g v (omega arith) (omega arith) 3 5,
        write_bit-put 32 4 true g v (omega arith) (omega arith) 3 5,
        write_bit-put 32 5 true g v (omega arith) (omega arith) 3 5,
        write_bit-put 32 5 false g v (omega arith) (omega arith) 3 5,
      )
      (switch_level-map (λ ds. some (put_all ds g)) level _ _ _ _)
set_alarm-digits arc_alarm level g v =
    rw
      (
        write_bit-put 33 1 true g v (omega arith) (omega arith) 1 3,
        write_bit-put 33 2 true g v (omega arith) (omega arith) 1 3,
        write_bit-put 33 3 true g v (omega arith) (omega arith) 1 3,
        write_bit-put 33 1 false g v (omega arith) (omega arith) 1 3,
      )
      (switch_level-map (λ ds. some (put_all ds g)) level _ _ _ _)
set_alarm-digits a level g v = refl
