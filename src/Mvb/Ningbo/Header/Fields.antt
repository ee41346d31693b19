-- ===== src/Mvb/Ningbo/Header/Fields.antt =====
-- The numbers that a heartbeat carries.
use infinity_station.Base.{ℕ, ◌^◌, ◌<◌, ◌≡◌, ◌∙◌, List, [], drop}
use infinity_station.Base.{some, arith}
use infinity_station.Base.{take}
use infinity_station.Mvb.Ningbo.{NbGenerator, IsValid}
use infinity_station.Mvb.Ningbo.Header.Layout.{field, field-write_all}
use infinity_station.Mvb.Ningbo.Header.Layout.{heartbeat-write_all, Write, write, writes, write_all}
use infinity_station.Mvb.Ningbo.Header.Beat.{heartbeat, heartbeat_lem, beat_fcs}

-- For a counter below 2 ^ 16, the heartbeat that a valid generator returns carries, all in one
-- frame: the counter in both its fields, the software version, the message type, the length 32,
-- the PMS version and the communication id.
pub heartbeat_fields :
    (alive : ℕ) (g g' : NbGenerator)
    → IsValid g
    → alive < 2 ^ 16
    → heartbeat alive g ≡ some g'
    → (field 4 0 g.is_big_endian g' ≡ alive)
      × (field 2 40 g.is_big_endian g' ≡ alive)
      × (field 2 4 g.is_big_endian g' ≡ g.soft_version)
      × (field 2 6 g.is_big_endian g' ≡ g.msg_type)
      × (field 4 20 g.is_big_endian g' ≡ 32)
      × (field 2 70 g.is_big_endian g' ≡ g.pms_version)
      × (field 4 8 g.is_big_endian g' ≡ g.comid)
heartbeat_fields alive g g' v fits e = rw same (
  field-write_all [] (write alive g 4 0 alive) (drop 1 all) g v (omega arith) (omega arith)
        (omega arith)
      ∙ omega arith,
  field-write_all (take 1 all) (write alive g 2 40 alive) (drop 2 all) g v (omega arith)
        (omega arith) (omega arith)
      ∙ omega arith,
  field-write_all (take 2 all) (write alive g 2 4 g.soft_version) (drop 3 all) g v (omega arith)
        (omega arith) (omega arith)
      ∙ omega arith,
  field-write_all (take 3 all) (write alive g 2 6 g.msg_type) (drop 4 all) g v (omega arith)
        (omega arith) (omega arith)
      ∙ omega arith,
  field-write_all (take 4 all) (write alive g 4 20 32) (drop 5 all) g v (omega arith) (omega arith)
      (omega arith),
  field-write_all (take 6 all) (write alive g 2 70 g.pms_version) (drop 7 all) g v (omega arith)
        (omega arith) (omega arith)
      ∙ omega arith,
  field-write_all (take 7 all) (write alive g 4 8 g.comid) [] g v (omega arith) (omega arith)
        (omega arith)
      ∙ omega arith,
)
  where
    all : List Write
    all = writes alive g (beat_fcs alive g)

    same : g' ≡ write_all all g
    same = cc (heartbeat_lem alive g v, heartbeat-write_all alive g (beat_fcs alive g))
