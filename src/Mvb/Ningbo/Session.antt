-- ===== src/Mvb/Ningbo/Session.antt =====
-- The calls that a generator of ningbo8/MVBNBDataGenerator.cpp serves, in any order.
use infinity_station.Base.{ℕ, ◌+◌, ◌≤◌, ◌≡◌, refl, ◌∙◌, Bool, true, false, List, [], ◌∷◌}
use infinity_station.Base.{Option, none, some, arith, Option-cases, inl, inr}
use infinity_station.Base.{get_or-set_ne, subst, ◌≢◌}
use infinity_station.Base.Int.{ℤ}
use infinity_station.Mvb.Frame.Bytes.{place}
use infinity_station.Mvb.Fcs.{calc_fcs32}
use infinity_station.Mvb.Ningbo.{NbGenerator, IsValid, new_generator}
use infinity_station.Mvb.Ningbo.Digits.{with_digit, with_digit-IsValid}
use infinity_station.Mvb.Ningbo.Alarms.{Alarm, set_alarm}
use infinity_station.Mvb.Ningbo.Alarms.Effect.{alarm_place, alarm_effect, set_alarm_returns}
use infinity_station.Mvb.Ningbo.Alarms.Levels.{set_alarm-IsValid}
use infinity_station.Mvb.Ningbo.Faults.{Fault, set_fault, set_sleep_cmd}
use infinity_station.Mvb.Ningbo.Faults.Effect.{fault_place, fault_effect, set_fault_cases}
use infinity_station.Mvb.Ningbo.Faults.Effect.{set_fault-IsValid, set_sleep_cmd_lem}
use infinity_station.Mvb.Ningbo.Header.Layout.{field}
use infinity_station.Mvb.Ningbo.Header.Beat.{heartbeat, heartbeat-IsValid, HasComid}
use infinity_station.Mvb.Ningbo.Header.Checksum.{heartbeat_checksum, heartbeat-HasComid}

pub data Call : Type 0 where
  alarm : Alarm → ℤ → Call
  fault : Fault → Bool → Call
  sleep : Bool → Call
  beat : ℕ → Call

unfoldable pub perform : Call → NbGenerator → Option NbGenerator
unfolding set_alarm set_fault set_sleep_cmd heartbeat
perform (alarm a level) g = set_alarm a level g
perform (fault f value) g = set_fault f value g
perform (sleep value) g = set_sleep_cmd value g
perform (beat alive) g = heartbeat alive g

-- A call that throws has written nothing.
abbrev pub keep : NbGenerator → Option NbGenerator → NbGenerator
keep g none = g
keep g (some g') = g'

unfoldable pub run : NbGenerator → List Call → NbGenerator
unfolding perform
run g [] = g
run g (c ∷ cs) = run (keep g (perform c g)) cs

pub new_generator-IsValid : (big : Bool) → IsValid (new_generator big)
unfolding new_generator
new_generator-IsValid big = record {
  full = refl;
  small = omega arith;
  comid_fits = omega arith;
  soft_version_fits = omega arith;
  msg_type_fits = omega arith;
  pms_version_fits = omega arith;
}

perform-IsValid : (c : Call) (g g' : NbGenerator) → IsValid g → perform c g ≡ some g' → IsValid g'
unfolding perform
perform-IsValid (alarm a level) g g' v e = set_alarm-IsValid a level g g' v e
perform-IsValid (fault f value) g g' v e = set_fault-IsValid f value g g' v e
perform-IsValid (sleep value) g g' v e =
    let same : with_digit 60 3 value g ≡ g' = cc (set_sleep_cmd_lem value g v) in
    subst IsValid same (with_digit-IsValid 60 3 value g v (omega arith) (omega arith))
perform-IsValid (beat alive) g g' v e = heartbeat-IsValid alive g g' v e

-- What each call that returns keeps, a sequence of calls keeps, those that throw included.
pub run_keeps {ℓ} :
    (P : NbGenerator → Type ℓ)
    → ((c : Call) (g g' : NbGenerator) → P g → perform c g ≡ some g' → P g')
    → (g : NbGenerator) (cs : List Call) → P g
    → P (run g cs)
unfolding run
run_keeps P step g [] p = p
run_keeps P step g (c ∷ cs) p = run_keeps P step (keep g (perform c g)) cs (kept (perform c g) refl)
  where
    kept : (r : Option NbGenerator) → perform c g ≡ r → P (keep g r)
    kept none e = p
    kept (some g') e = step c g g' p e

-- Every sequence of calls, those that throw included, keeps a valid generator valid: 72 bytes,
-- each below 256, and the configured numbers within their widths.
pub run-IsValid : (g : NbGenerator) (cs : List Call) → IsValid g → IsValid (run g cs)
run-IsValid g cs v = run_keeps IsValid perform-IsValid g cs v

-- Only bytes behind the header are written digit by digit.
with_digit-HasComid :
    (offset digit : ℕ) (value : Bool) (g : NbGenerator)
    → 12 ≤ offset
    → HasComid g
    → HasComid (with_digit offset digit value g)
unfolding with_digit
with_digit-HasComid offset digit value g le has i lt =
    get_or-set_ne g.bytes offset (8 + place g.is_big_endian 4 i) _ 0 apart ∙ has i lt
  where
    apart : offset ≢ 8 + place g.is_big_endian 4 i
    apart = ground arith

alarm_place_high : (a : Alarm) (o b : ℕ) → alarm_place a ≡ some (o, b) → 12 ≤ o
unfolding alarm_place
alarm_place_high Alarm.temp_alarm o b e = ground arith
alarm_place_high a o b e = ground arith

fault_place_high : (f : Fault) (o b : ℕ) → fault_place f ≡ some (o, b) → 12 ≤ o
unfolding fault_place
fault_place_high Fault.pms_camera_fault o b e = ground arith
fault_place_high f o b e = ground arith

alarm_effect-HasComid :
    (a : Alarm) (level : ℤ) (g : NbGenerator)
    → HasComid g
    → HasComid (alarm_effect (alarm_place a) level g)
alarm_effect-HasComid a level g has = elim (Option-cases (alarm_place a)) [
  | inl e ↦ rw e has
  | inr ((o, b), e) ↦ rw e (with_digit-HasComid o _ _ g (alarm_place_high a o b e) has)
]

fault_effect-HasComid :
    (f : Fault) (value : Bool) (g : NbGenerator)
    → HasComid g
    → HasComid (fault_effect (fault_place f) value g)
fault_effect-HasComid f value g has = elim (Option-cases (fault_place f)) [
  | inl e ↦ rw e has
  | inr ((o, b), e) ↦ rw e (with_digit-HasComid o b value g (fault_place_high f o b e) has)
]

-- No call takes the id out of the frame.
perform-HasComid :
    (c : Call) (g g' : NbGenerator) → IsValid g → HasComid g → perform c g ≡ some g' → HasComid g'
unfolding perform
perform-HasComid (alarm a level) g g' v has e =
    rw (set_alarm_returns a level g g' v e) (alarm_effect-HasComid a level g has)
perform-HasComid (fault f value) g g' v has e =
    let same : fault_effect (fault_place f) value g ≡ g' = cc (set_fault_cases f value g v) in
    subst HasComid same (fault_effect-HasComid f value g has)
perform-HasComid (sleep value) g g' v has e =
    let same : with_digit 60 3 value g ≡ g' = cc (set_sleep_cmd_lem value g v) in
    subst HasComid same (with_digit-HasComid 60 3 value g (omega arith) has)
perform-HasComid (beat alive) g g' v has e = heartbeat-HasComid alive g g' v e

run-HasComid : (g : NbGenerator) (cs : List Call) → IsValid g → HasComid g → HasComid (run g cs)
run-HasComid g cs v has =
    (run_keeps (λ h. IsValid h × HasComid h)
      (λ c g g' p e. (perform-IsValid c g g' p.0 e, perform-HasComid c g g' p.0 p.1 e)) g cs
      (v, has)).1

-- From a valid generator, every heartbeat that returns, but the first, carries a checksum that
-- fits its header, whatever calls of alarms, statuses, sleep and heartbeats came in between.
pub later_checksum :
    (first alive : ℕ) (cs : List Call) (g g' g'' : NbGenerator)
    → IsValid g
    → heartbeat first g ≡ some g'
    → heartbeat alive (run g' cs) ≡ some g''
    → calc_fcs32 36 0xffff_ffff g''.bytes ≡ some (field 4 36 true g'')
later_checksum first alive cs g g' g'' v e e' =
    let v' = heartbeat-IsValid first g g' v e in
    (heartbeat_checksum alive (run g' cs) g'' (run-IsValid g' cs v') e').1
      (run-HasComid g' cs v' (heartbeat-HasComid first g g' v e))

-- The first heartbeat of a new generator, on a host of either byte order, carries a checksum that
-- does not fit its header.
pub first_checksum_ne :
    (big : Bool) (alive : ℕ) (g' : NbGenerator)
    → heartbeat alive (new_generator big) ≡ some g'
    → calc_fcs32 36 0xffff_ffff g'.bytes ≢ some (field 4 36 true g')
unfolding new_generator
first_checksum_ne big alive g' e fits =
    blank big
      ((heartbeat_checksum alive (new_generator big) g' (new_generator-IsValid big) e).0 fits)
  where
    blank : (big : Bool) → ¬ HasComid (new_generator big)
    blank true has = absurd (omega (arith, has 0 (omega arith)))
    blank false has = absurd (omega (arith, has 0 (omega arith)))
