-- ===== src/Mvb/Pms/Heartbeats.antt =====
-- The heartbeats that `getPmsData` of MVBPmsDataGenerator.cpp sends through the Ningbo 8 generator.
use infinity_station.Base.{ℕ, zero, suc, ◌+◌, ◌%◌, ◌^◌, ◌<◌, ◌≡◌, refl, ap, ◌∙◌, List, [], ◌∷◌}
use infinity_station.Base.{Option, some, ◌>>=◌, arith, length, get_or}
use infinity_station.Mvb.Frame.Read.{read_value}
use infinity_station.Mvb.Ningbo.{NbGenerator, IsValid}
use infinity_station.Mvb.Ningbo.Header
use infinity_station.Mvb.Ningbo.Header.{set_pms_alive, init_fields, set_pms_com_id, write_value}
use infinity_station.Mvb.Ningbo.Header.Layout.{seal}
use infinity_station.Mvb.Ningbo.Header.Beat.{heartbeat, heartbeat-IsValid, heartbeat_lem}
use infinity_station.Mvb.Ningbo.Header.Fields.{heartbeat_fields}
use infinity_station.Mvb.Generator.{ningbo_generator}
use infinity_station.Mvb.Pms.{PmsGenerator, get_pms_data}

heartbeat_returns :
    (alive : ℕ) (g : NbGenerator)
    → IsValid g
    → (g' : NbGenerator) × (heartbeat alive g ≡ some g')
      × IsValid g'
      × (g'.is_big_endian ≡ g.is_big_endian)
unfolding seal set_pms_alive init_fields set_pms_com_id write_value
heartbeat_returns alive g v =
    let sends = heartbeat_lem alive g v in (_, sends, heartbeat-IsValid alive g _ v sends, refl)

get_pms_data_lem :
    (p : PmsGenerator NbGenerator) (g g' : NbGenerator)
    → p.generator ≡ some g
    → heartbeat p.alive_num g ≡ some g'
    → get_pms_data ningbo_generator p
      ≡ some (g'.bytes, record p { generator = some g'; alive_num = (p.alive_num + 1) % 2 ^ 16 })
unfolding get_pms_data ningbo_generator heartbeat Header.get_pms_data
get_pms_data_lem p g g' e sends = rw e (rw sends)

-- The frames of `k` heartbeats in a row.
unfoldable pub frames : ℕ → PmsGenerator NbGenerator → Option (List (List ℕ))
unfolding get_pms_data
frames zero p = some []
frames (suc k) p = do
  (frame, p') ← get_pms_data ningbo_generator p
  rest ← frames k p'
  some (frame ∷ rest)

-- With a valid Ningbo 8 generator and a counter below 2 ^ 16, `k` heartbeats in a row return `k`
-- frames, and frame `i` carries the counter plus `i`, modulo 2 ^ 16.
pub frames_alive :
    (k : ℕ) (p : PmsGenerator NbGenerator) (g : NbGenerator)
    → IsValid g
    → p.generator ≡ some g
    → p.alive_num < 2 ^ 16
    → (fs : List (List ℕ)) × (frames k p ≡ some fs)
      × (length fs ≡ k)
      × ((i : ℕ)
          → i < k
          → read_value 2 40 g.is_big_endian (get_or fs i []) ≡ (p.alive_num + i) % 2 ^ 16)
unfolding frames
frames_alive zero p g v e lt = ([], refl, refl, λ i lt. absurd (omega arith))
frames_alive (suc k) p g v e lt =
    let (g', sends, v', same) = heartbeat_returns p.alive_num g v in
    let p' = record p { generator = some g'; alive_num = (p.alive_num + 1) % 2 ^ 16 } in
    let (fs, runs, count, alive) = frames_alive k p' g' v' refl (omega arith) in
    (
      g'.bytes ∷ fs,
      rw (get_pms_data_lem p g g' e sends) (rw runs),
      ap suc count,
      λ i.
          elim i
            as (λ i.
              i < suc k
              → read_value 2 40 g.is_big_endian (get_or (g'.bytes ∷ fs) i [])
                ≡ (p.alive_num + i) % 2 ^ 16) [
                  | zero ↦ λ below. (heartbeat_fields p.alive_num g g' v lt sends).1 ∙ omega arith
                  | suc j ↦ λ below. rw⁻¹ same (alive j (omega arith) ∙ omega arith)
                ],
    )
