-- ===== src/Mvb/Ningbo/Header/Beat.antt =====
-- One heartbeat of the Ningbo 8 generator: the counters, the fields, the checksum and the id.
use infinity_station.Base.{ℕ, ◌+◌, ◌<◌, ◌≡◌}
use infinity_station.Base.{Option, some, get_or}
use infinity_station.Mvb.Frame.Bytes.{byte_of, place}
use infinity_station.Mvb.Ningbo.{NbGenerator, IsValid}
use infinity_station.Mvb.Ningbo.Header.{set_pms_alive, init_fields}
use infinity_station.Mvb.Ningbo.Header.{init_common_info}
use infinity_station.Mvb.Ningbo.Header.Layout.{set_pms_alive-IsValid}
use infinity_station.Mvb.Ningbo.Header.Layout.{init_fields-IsValid, header_fcs, seal, seal-IsValid}
use infinity_station.Mvb.Ningbo.Header.Layout.{init_common_info_lem}

-- One heartbeat of `MVBPmsDataGenerator::getPmsData` on the generator.
unfoldable pub heartbeat : ℕ → NbGenerator → Option NbGenerator
heartbeat alive g = init_common_info (set_pms_alive alive g)

abbrev pub beat_fcs : ℕ → NbGenerator → ℕ
beat_fcs alive g = header_fcs (set_pms_alive alive g)

pub heartbeat_lem :
    (alive : ℕ) (g : NbGenerator)
    → IsValid g
    → heartbeat alive g ≡ some (seal (beat_fcs alive g) (init_fields (set_pms_alive alive g)))
unfolding heartbeat
heartbeat_lem alive g v =
    init_common_info_lem (set_pms_alive alive g) (set_pms_alive-IsValid alive g v)

pub heartbeat-IsValid :
    (alive : ℕ) (g g' : NbGenerator) → IsValid g → heartbeat alive g ≡ some g' → IsValid g'
heartbeat-IsValid alive g g' v e =
    let same : g' ≡ seal (beat_fcs alive g) (init_fields (set_pms_alive alive g)) =
      cc (heartbeat_lem alive g v) in
    rw same (seal-IsValid _ _ (init_fields-IsValid _ (set_pms_alive-IsValid alive g v)))

-- The communication id stands in the frame already.
abbrev pub HasComid : NbGenerator → Type 0
HasComid g = (i : ℕ) → i < 4 → get_or g.bytes (8 + place g.is_big_endian 4 i) 0 ≡ byte_of g.comid i
