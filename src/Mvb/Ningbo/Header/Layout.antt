-- ===== src/Mvb/Ningbo/Header/Layout.antt =====
-- Where the numbers of the frame end up.
use infinity_station.Base.{
  ℕ, ◌+◌, ◌*◌, ◌%◌, ◌^◌, ◌≤◌, ◌≡◌, refl, ◌∙◌, Bool, true, List, [], ◌∷◌, ◌++◌, take,
}
use infinity_station.Base.{some, arith, ◌⊎◌, length, All, get_or, bit_xor}
use infinity_station.Base.{le→ltb}
use infinity_station.Mvb.Frame.Bytes.{length-set_value, set_value-IsByte, set_value_outside}
use infinity_station.Mvb.Frame.Read.{read_value, read_value-set_value, read_value-set_value_ne}
use infinity_station.Mvb.Fcs.Bitwise.{crc_bytes, calc_fcs32-crc}
use infinity_station.Mvb.Ningbo.{NbGenerator, IsValid}
use infinity_station.Mvb.Ningbo.Header.{write_value, set_pms_alive, set_pms_com_id, init_fields}
use infinity_station.Mvb.Ningbo.Header.{init_common_info}

pub write_value-IsValid :
    (size offset len value : ℕ) (big : Bool) (g : NbGenerator)
    → IsValid g
    → IsValid (write_value size offset len value big g)
unfolding write_value
write_value-IsValid size offset len value big g v = record {
  full = length-set_value size offset len value big g.bytes ∙ v.full;
  small = set_value-IsByte size offset len value big g.bytes v.small;
  comid_fits = v.comid_fits;
  soft_version_fits = v.soft_version_fits;
  msg_type_fits = v.msg_type_fits;
  pms_version_fits = v.pms_version_fits;
}

pub set_pms_alive-IsValid :
    (alive : ℕ) (g : NbGenerator) → IsValid g → IsValid (set_pms_alive alive g)
unfolding set_pms_alive
set_pms_alive-IsValid alive g v =
    write_value-IsValid 2 40 2 alive _ _ (write_value-IsValid 4 0 4 alive g.is_big_endian g v)

pub init_fields-IsValid : (g : NbGenerator) → IsValid g → IsValid (init_fields g)
unfolding init_fields
init_fields-IsValid g v =
    write_value-IsValid 4 20 4 32 _ _ (
      write_value-IsValid 2 6 2 _ _ _
        (write_value-IsValid 2 4 2 g.soft_version g.is_big_endian g v))

-- The checksum of the header before the communication id is written.
abbrev pub header_fcs : NbGenerator → ℕ
header_fcs g = bit_xor (crc_bytes 0xffff_ffff (take 36 (init_fields g).bytes)) 0xffff_ffff

-- The writes behind the checksum.
unfoldable pub seal : ℕ → NbGenerator → NbGenerator
unfolding set_pms_com_id write_value
seal fcs g =
    let summed = write_value 4 36 4 fcs true g in
    let versioned = write_value 2 70 2 summed.pms_version summed.is_big_endian summed in
    set_pms_com_id versioned.comid versioned

pub seal-IsValid : (fcs : ℕ) (g : NbGenerator) → IsValid g → IsValid (seal fcs g)
unfolding seal
seal-IsValid fcs g v =
    write_value-IsValid 4 8 4 _ _ _
      (write_value-IsValid 2 70 2 _ _ _ (write_value-IsValid 4 36 4 fcs true g v))

-- The checksum is computed without an exception.
pub init_common_info_lem :
    (g : NbGenerator) → IsValid g → init_common_info g ≡ some (seal (header_fcs g) (init_fields g))
unfolding init_common_info seal
init_common_info_lem g v =
    let v' = init_fields-IsValid g v in
    rw (
      calc_fcs32-crc 36 0xffff_ffff (init_fields g).bytes v'.small,
      le→ltb (length (init_fields g).bytes) 36 (omega (arith, v'.full)),
    )

-- A field of the generator's frame.
abbrev pub field : ℕ → ℕ → Bool → NbGenerator → ℕ
field size offset order g = read_value size offset order g.bytes

module _ (size offset value : ℕ) (big : Bool) (g : NbGenerator) (v : IsValid g)
    (fits : offset + size ≤ 72) where
  pub field-write_value :
      size ≤ 4
      → field size offset big (write_value size offset size value big g) ≡ value % 2 ^ (size * 8)
  unfolding write_value
  field-write_value le = read_value-set_value size offset value g.bytes (rw v.full fits) big le

  pub field-write_value_ne :
      (n other : ℕ) (order : Bool)
      → (other + n ≤ offset) ⊎ (offset + size ≤ other)
      → field n other order (write_value size offset size value big g) ≡ field n other order g
  unfolding write_value
  field-write_value_ne n other order apart =
      read_value-set_value_ne size offset value g.bytes (rw v.full fits) big order n other apart

-- A run of writes, each with the length of its type.
pub record Write : Type 0 where
  pub size : ℕ
  pub offset : ℕ
  pub value : ℕ
  pub big : Bool

unfoldable pub write_all : List Write → NbGenerator → NbGenerator
unfolding write_value
write_all [] g = g
write_all (w ∷ ws) g = write_all ws (write_value w.size w.offset w.size w.value w.big g)

-- The writes keep away from the `n` bytes at `other`, and inside the frame.
abbrev pub Apart : ℕ → ℕ → List Write → Type 0
Apart n other =
    All (λ w. (w.offset + w.size ≤ 72) × ((other + n ≤ w.offset) ⊎ (w.offset + w.size ≤ other)))

pub field-write_all_ne :
    (n other : ℕ) (order : Bool) (ws : List Write) (g : NbGenerator)
    → IsValid g
    → Apart n other ws
    → field n other order (write_all ws g) ≡ field n other order g
unfolding write_all
field-write_all_ne n other order [] g v apart = refl
field-write_all_ne n other order (w ∷ ws) g v apart =
    field-write_all_ne n other order ws _ (write_value-IsValid _ _ _ _ _ g v) apart.1
    ∙ field-write_value_ne w.size w.offset w.value w.big g v apart.0.0 n other order apart.0.1

-- The last write of a field decides.
pub field-write_all :
    (before : List Write) (w : Write) (behind : List Write) (g : NbGenerator)
    → IsValid g
    → w.size ≤ 4
    → w.offset + w.size ≤ 72
    → Apart w.size w.offset behind
    → field w.size w.offset w.big (write_all (before ++ (w ∷ behind)) g)
      ≡ w.value % 2 ^ (w.size * 8)
unfolding write_all
field-write_all [] w behind g v le fits apart =
    field-write_all_ne w.size w.offset w.big behind _ (write_value-IsValid _ _ _ _ _ g v) apart
    ∙ field-write_value w.size w.offset w.value w.big g v fits le
field-write_all (x ∷ before) w behind g v le fits apart =
    field-write_all before w behind _ (write_value-IsValid _ _ _ _ _ g v) le fits apart

-- A byte that the writes keep away from.
pub byte-write_all :
    (p : ℕ) (ws : List Write) (g : NbGenerator)
    → IsValid g
    → Apart 1 p ws
    → get_or (write_all ws g).bytes p 0 ≡ get_or g.bytes p 0
unfolding write_all
byte-write_all p [] g v apart = refl
byte-write_all p (w ∷ ws) g v apart =
    byte-write_all p ws _ (write_value-IsValid _ _ _ _ _ g v) apart.1
    ∙ set_value_outside w.size w.offset w.value g.bytes (rw v.full apart.0.0) w.big p
        (omega (arith, apart.0.1))

pub write_all-IsValid : (ws : List Write) (g : NbGenerator) → IsValid g → IsValid (write_all ws g)
unfolding write_all
write_all-IsValid [] g v = v
write_all-IsValid (w ∷ ws) g v = write_all-IsValid ws _ (write_value-IsValid _ _ _ _ _ g v)

module _ (alive : ℕ) (g : NbGenerator) where
  abbrev pub write : ℕ → ℕ → ℕ → Write
  write size offset value = record {
    size = size;
    offset = offset;
    value = value;
    big = g.is_big_endian;
  }

  -- The writes in order: the counters, the versions, the length, the checksum, the version of the
  -- status part and the communication id.
  abbrev pub writes : ℕ → List Write
  writes fcs =
      write 4 0 alive
      ∷ write 2 40 alive
      ∷ write 2 4 g.soft_version
      ∷ write 2 6 g.msg_type
      ∷ write 4 20 32
      ∷ record { size = 4; offset = 36; value = fcs; big = true }
      ∷ write 2 70 g.pms_version
      ∷ write 4 8 g.comid
      ∷ []

  -- One heartbeat writes eight fields.
  pub heartbeat-write_all :
      (fcs : ℕ) → seal fcs (init_fields (set_pms_alive alive g)) ≡ write_all (writes fcs) g
  unfolding seal init_fields set_pms_alive write_all
  heartbeat-write_all fcs = refl

  -- Those before the checksum.
  pub early-write_all :
      (fcs : ℕ) → init_fields (set_pms_alive alive g) ≡ write_all (take 5 (writes fcs)) g
  unfolding init_fields set_pms_alive write_all
  early-write_all fcs = refl
