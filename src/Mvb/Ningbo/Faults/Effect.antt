-- ===== src/Mvb/Ningbo/Faults/Effect.antt =====
-- What the status setters do to the frame, against the places that README_ningbo8protocl.md gives.
use infinity_station.Base.{ℕ, ◌<◌, ◌≡◌, refl, Bool, arith, Option, none, some, ◌⊎◌, inl, inr}
use infinity_station.Base.{◌>>=◌, sym, Option-cases}
use infinity_station.Mvb.Ningbo.{NbGenerator, IsValid}
use infinity_station.Mvb.Ningbo.Digits.{with_digit, write_bit-with_digit, with_digit-IsValid}
use infinity_station.Mvb.Ningbo.Digits.{with_digit-same}
use infinity_station.Mvb.Ningbo.Faults.{Fault, set_fault, set_sleep_cmd}
use infinity_station.Mvb.Ningbo.Faults.{
  pms_camera_fault, pms_geo_abr_mod_fault, pms_arc_mod_fault, pms_tmp_mod_fault,
  pms_ipan_mod_status, pms_com_mod_fault, pms_commu_mod_fault, pms_hard_pot_mod_fault,
  pms_pressure_mod_fault, pms_xunjian_mod_fault, ret_rail_geo_mod_fault, ret_rail_camera_fault,
  ret_rail_hard_pot_mod_fault, nvr_dsk_fault, pms_checking, pms_check_complete, pms_check_res,
}

-- The digit that the code writes; `none` for a setter with an empty body.
unfoldable pub fault_place : Fault → Option (ℕ × ℕ)
fault_place pms_camera_fault = some (50, 1)
fault_place pms_geo_abr_mod_fault = some (50, 5)
fault_place pms_arc_mod_fault = some (50, 2)
fault_place pms_tmp_mod_fault = some (50, 0)
fault_place pms_ipan_mod_status = none
fault_place pms_com_mod_fault = some (50, 6)
fault_place pms_commu_mod_fault = some (50, 7)
fault_place pms_hard_pot_mod_fault = some (50, 3)
fault_place pms_pressure_mod_fault = some (50, 4)
fault_place pms_xunjian_mod_fault = some (50, 1)
fault_place ret_rail_geo_mod_fault = some (50, 2)
fault_place ret_rail_camera_fault = some (51, 3)
fault_place ret_rail_hard_pot_mod_fault = some (51, 4)
fault_place nvr_dsk_fault = some (51, 0)
fault_place pms_checking = some (60, 7)
fault_place pms_check_complete = some (60, 5)
fault_place pms_check_res = some (60, 4)

-- The digit that the protocol gives, 40 bytes of header before it.
unfoldable pub readme_place : Fault → Option (ℕ × ℕ)
readme_place pms_camera_fault = some (50, 1)
readme_place pms_geo_abr_mod_fault = some (50, 5)
readme_place pms_arc_mod_fault = some (50, 2)
readme_place pms_tmp_mod_fault = some (50, 0)
readme_place pms_ipan_mod_status = none
readme_place pms_com_mod_fault = some (50, 6)
readme_place pms_commu_mod_fault = some (50, 7)
readme_place pms_hard_pot_mod_fault = some (50, 3)
readme_place pms_pressure_mod_fault = some (50, 4)
readme_place pms_xunjian_mod_fault = some (51, 1)
readme_place ret_rail_geo_mod_fault = some (51, 2)
readme_place ret_rail_camera_fault = some (51, 3)
readme_place ret_rail_hard_pot_mod_fault = some (51, 4)
readme_place nvr_dsk_fault = some (51, 0)
readme_place pms_checking = some (60, 7)
readme_place pms_check_complete = some (60, 5)
readme_place pms_check_res = some (60, 4)

abbrev pub fault_effect : Option (ℕ × ℕ) → Bool → NbGenerator → NbGenerator
fault_effect none value g = g
fault_effect (some (offset, digit)) value g = with_digit offset digit value g

-- On a valid generator every status setter returns, and writes the one digit of its place, or
-- nothing if it has none.
pub set_fault_cases :
    (f : Fault) (value : Bool) (g : NbGenerator)
    → IsValid g
    → set_fault f value g ≡ some (fault_effect (fault_place f) value g)
unfolding set_fault fault_place
set_fault_cases pms_camera_fault value g v =
    write_bit-with_digit 50 1 1 1 value g v (omega arith) (omega arith)
set_fault_cases pms_geo_abr_mod_fault value g v =
    write_bit-with_digit 50 5 5 5 value g v (omega arith) (omega arith)
set_fault_cases pms_arc_mod_fault value g v =
    write_bit-with_digit 50 2 2 2 value g v (omega arith) (omega arith)
set_fault_cases pms_tmp_mod_fault value g v =
    write_bit-with_digit 50 0 0 0 value g v (omega arith) (omega arith)
set_fault_cases pms_ipan_mod_status value g v = refl
set_fault_cases pms_com_mod_fault value g v =
    write_bit-with_digit 50 6 6 6 value g v (omega arith) (omega arith)
set_fault_cases pms_commu_mod_fault value g v =
    write_bit-with_digit 50 7 7 7 value g v (omega arith) (omega arith)
set_fault_cases pms_hard_pot_mod_fault value g v =
    write_bit-with_digit 50 3 3 3 value g v (omega arith) (omega arith)
set_fault_cases pms_pressure_mod_fault value g v =
    write_bit-with_digit 50 4 4 4 value g v (omega arith) (omega arith)
set_fault_cases pms_xunjian_mod_fault value g v =
    write_bit-with_digit 50 1 1 1 value g v (omega arith) (omega arith)
set_fault_cases ret_rail_geo_mod_fault value g v =
    write_bit-with_digit 50 2 2 2 value g v (omega arith) (omega arith)
set_fault_cases ret_rail_camera_fault value g v =
    write_bit-with_digit 51 3 3 3 value g v (omega arith) (omega arith)
set_fault_cases ret_rail_hard_pot_mod_fault value g v =
    write_bit-with_digit 51 4 4 4 value g v (omega arith) (omega arith)
set_fault_cases nvr_dsk_fault value g v =
    write_bit-with_digit 51 0 0 0 value g v (omega arith) (omega arith)
set_fault_cases pms_checking value g v =
    write_bit-with_digit 60 7 7 7 value g v (omega arith) (omega arith)
set_fault_cases pms_check_complete value g v =
    write_bit-with_digit 60 5 5 5 value g v (omega arith) (omega arith)
set_fault_cases pms_check_res value g v =
    write_bit-with_digit 60 4 4 4 value g v (omega arith) (omega arith)

fault_place_fits :
    (f : Fault) (offset digit : ℕ)
    → fault_place f ≡ some (offset, digit)
    → (offset < 72) × (digit < 8)
unfolding fault_place
fault_place_fits pms_camera_fault offset digit e = ground arith
fault_place_fits f offset digit e = ground arith

fault_effect-IsValid :
    (f : Fault) (value : Bool) (g : NbGenerator)
    → IsValid g
    → IsValid (fault_effect (fault_place f) value g)
fault_effect-IsValid f value g v = elim (Option-cases (fault_place f)) [
  | inl e ↦ rw e v
  | inr ((offset, digit), e) ↦
      let (lt, low) = fault_place_fits f offset digit e in
      rw e (with_digit-IsValid offset digit value g v lt low)
]

pub set_fault-IsValid :
    (f : Fault) (value : Bool) (g g' : NbGenerator)
    → IsValid g
    → set_fault f value g ≡ some g'
    → IsValid g'
set_fault-IsValid f value g g' v e = rw (same) (fault_effect-IsValid f value g v)
  where
    same : g' ≡ fault_effect (fault_place f) value g
    same = ground (arith, set_fault_cases f value g v)

pub set_sleep_cmd_lem :
    (value : Bool) (g : NbGenerator)
    → IsValid g
    → set_sleep_cmd value g ≡ some (with_digit 60 3 value g)
unfolding set_sleep_cmd
set_sleep_cmd_lem value g v = write_bit-with_digit 60 3 3 3 value g v (omega arith) (omega arith)

-- The code follows the protocol except for the two modules whose digits it puts one byte early.
pub readme_place_cases :
    (f : Fault)
    → ((f ≡ pms_xunjian_mod_fault) ⊎ (f ≡ ret_rail_geo_mod_fault))
      ⊎ (fault_place f ≡ readme_place f)
unfolding fault_place readme_place
readme_place_cases pms_xunjian_mod_fault = inl (inl refl)
readme_place_cases ret_rail_geo_mod_fault = inl (inr refl)
readme_place_cases f = inr refl

-- What a misplaced module's digit belongs to by the protocol.
abbrev pub owner : Fault → Option Fault
owner pms_xunjian_mod_fault = some pms_camera_fault
owner ret_rail_geo_mod_fault = some pms_arc_mod_fault
owner f = none

masks :
    (f m : Fault) (offset digit : ℕ) (value reported : Bool) (g : NbGenerator)
    → IsValid g
    → fault_place f ≡ some (offset, digit)
    → fault_place m ≡ some (offset, digit)
    → (set_fault m reported g >>= set_fault f value) ≡ set_fault f value g
masks f m offset digit value reported g v e e' =
    let (lt, low) = fault_place_fits f offset digit e in
    rw (set_fault_cases m reported g v, set_fault_cases f value g v, e', e)
      (rw
        (set_fault_cases f value (with_digit offset digit reported g)
          (with_digit-IsValid offset digit reported g v lt low))
        (rw e (rw (with_digit-same offset digit value g v lt low reported))))

-- On a valid generator, the status of a module with a misplaced digit goes over that of the
-- module that owns the digit: after both calls the frame is as if the owner had never reported.
pub misplaced_fault :
    (f m : Fault) (value reported : Bool) (g : NbGenerator)
    → IsValid g
    → owner f ≡ some m
    → (set_fault m reported g >>= set_fault f value) ≡ set_fault f value g
unfolding fault_place
misplaced_fault pms_xunjian_mod_fault m value reported g v e =
    let camera : fault_place pms_camera_fault ≡ fault_place m = cc in
    masks pms_xunjian_mod_fault m 50 1 value reported g v refl (sym camera)
misplaced_fault ret_rail_geo_mod_fault m value reported g v e =
    let arc : fault_place pms_arc_mod_fault ≡ fault_place m = cc in
    masks ret_rail_geo_mod_fault m 50 2 value reported g v refl (sym arc)
misplaced_fault f m value reported g v e = absurd (ground arith)
