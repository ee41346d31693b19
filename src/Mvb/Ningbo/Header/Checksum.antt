-- ===== src/Mvb/Ningbo/Header/Checksum.antt =====
-- The frame check sequence of a heartbeat, which is computed before the communication id is written.
use infinity_station.Base.{
  ℕ, ◌+◌, ◌%◌, ◌^◌, ◌≤◌, ◌<◌, ◌≡◌, sym, ap, ap₂, subst, ◌∙◌, true, List, drop,
}
use infinity_station.Base.{◌++◌, some, arith, inl, inr, ◌⊎◌, ◌↔◌, length, get_or, bit_xor, All}
use infinity_station.Base.{le→ltb, take, slice, slice_ext, length-slice, get_or-slice}
use infinity_station.Base.{take-add, drop-drop, All-take, All-drop}
use infinity_station.Base.Bits.Xor.{xor_cancel, xor_comm, xor-lt}
use native.Mathlib.Nat.{mod-eq_of_lt}
use infinity_station.Mvb.Frame.{IsByte}
use infinity_station.Mvb.Frame.Bytes.{byte_of, place, set_value_inside}
use infinity_station.Mvb.Fcs.{calc_fcs32}
use infinity_station.Mvb.Fcs.Bitwise.{crc_bytes, calc_fcs32-crc}
use infinity_station.Mvb.Fcs.Residue.{crc_bytes-append, crc_bytes-lt, crc_burst}
use infinity_station.Mvb.Ningbo.{NbGenerator, IsValid}
use infinity_station.Mvb.Ningbo.Header.Beat.{heartbeat, beat_fcs, heartbeat_lem, HasComid}
use infinity_station.Mvb.Ningbo.Header.Layout.{field, field-write_all}
use infinity_station.Mvb.Ningbo.Header.Layout.{heartbeat-write_all, Write, writes, write_all}
use infinity_station.Mvb.Ningbo.Header.Layout.{byte-write_all, write_all-IsValid, early-write_all}

module _ (alive : ℕ) (g : NbGenerator) (v : IsValid g) where
  abbrev all : List Write
  all = writes alive g (beat_fcs alive g)

  -- The frame when the checksum is taken, and the frame that is sent.
  abbrev summed : NbGenerator
  summed = write_all (take 5 all) g

  abbrev sent : NbGenerator
  sent = write_all all g

  sent_lem : heartbeat alive g ≡ some sent
  sent_lem = cc (heartbeat_lem alive g v, heartbeat-write_all alive g (beat_fcs alive g))

  summed-IsValid : IsValid summed
  summed-IsValid = write_all-IsValid (take 5 all) g v

  sent-IsValid : IsValid sent
  sent-IsValid = write_all-IsValid all g v

  place-lt : (i : ℕ) → i < 4 → place g.is_big_endian 4 i < 4
  place-lt i lt = ground arith

  place-place : (i : ℕ) → i < 4 → place g.is_big_endian 4 (place g.is_big_endian 4 i) ≡ i
  place-place i lt = ground arith

  summed_id : (i : ℕ) → i < 4 → get_or summed.bytes (8 + i) 0 ≡ get_or g.bytes (8 + i) 0
  summed_id i lt = byte-write_all (8 + i) (take 5 all) g v (omega arith)

  sent_id :
      (i : ℕ) → i < 4 → get_or sent.bytes (8 + place g.is_big_endian 4 i) 0 ≡ byte_of g.comid i
  unfolding write_all
  sent_id i lt =
      let before = write_all-IsValid (take 7 all) g v in
      set_value_inside 4 8 g.comid (write_all (take 7 all) g).bytes (omega (arith, before.full))
        g.is_big_endian i lt

  sent_rest :
      (p : ℕ) → (p < 8) ⊎ ((12 ≤ p) × (p < 36)) → get_or sent.bytes p 0 ≡ get_or summed.bytes p 0
  unfolding write_all
  sent_rest p h = byte-write_all p (drop 5 all) summed summed-IsValid (omega arith)

  -- The 36 bytes of the header, split around the communication id.
  header_split :
      (frame : List ℕ) → take 36 frame ≡ slice 0 8 frame ++ (slice 8 4 frame ++ slice 12 24 frame)
  header_split frame =
      take-add 8 28 frame
      ∙ ap (◌++◌ (take 8 frame)) (
          take-add 4 24 (drop 8 frame)
          ∙ ap (λ xs. slice 8 4 frame ++ take 24 xs) (drop-drop 8 4 frame))

  front : slice 0 8 sent.bytes ≡ slice 0 8 summed.bytes
  front =
      slice_ext 0 0 8 sent.bytes summed.bytes (omega (arith, sent-IsValid.full))
        (sent-IsValid.full ∙ sym summed-IsValid.full)
        (λ i lt. sent_rest (0 + i) (inl (omega arith)))

  back : slice 12 24 sent.bytes ≡ slice 12 24 summed.bytes
  back =
      slice_ext 0 12 24 sent.bytes summed.bytes (omega (arith, sent-IsValid.full))
        (sent-IsValid.full ∙ sym summed-IsValid.full)
        (λ i lt. sent_rest (12 + i) (inr (omega arith, omega arith)))

  -- The id was there before, exactly if both headers have the same four bytes.
  same_id : HasComid g → slice 8 4 sent.bytes ≡ slice 8 4 summed.bytes
  same_id has =
      slice_ext 0 8 4 sent.bytes summed.bytes (omega (arith, sent-IsValid.full))
        (sent-IsValid.full ∙ sym summed-IsValid.full)
        λ i lt.
          let j = place g.is_big_endian 4 i in
          let below = place-lt i lt in
          subst (λ k. get_or sent.bytes (8 + k) 0 ≡ get_or summed.bytes (8 + k) 0)
            (place-place i lt)
            (sent_id j below ∙ sym (has j below) ∙ sym (summed_id _ (place-lt j below)))

  id_same : slice 8 4 sent.bytes ≡ slice 8 4 summed.bytes → HasComid g
  id_same e i lt =
      let j = place g.is_big_endian 4 i in
      let below = place-lt i lt in
      sym (summed_id j below)
      ∙ sym (get_or-slice 8 4 summed.bytes j 0 below)
      ∙ ap (λ xs. get_or xs j 0) (sym e)
      ∙ get_or-slice 8 4 sent.bytes j 0 below
      ∙ sent_id i lt

  sum_sent :
      calc_fcs32 36 0xffff_ffff sent.bytes
      ≡ some (bit_xor (crc_bytes 0xffff_ffff (take 36 sent.bytes)) 0xffff_ffff)
  sum_sent = rw (
    calc_fcs32-crc 36 0xffff_ffff sent.bytes sent-IsValid.small,
    le→ltb (length sent.bytes) 36 (omega (arith, sent-IsValid.full)),
  )

  register-lt :
      (n : ℕ) (h : NbGenerator) → IsValid h → crc_bytes 0xffff_ffff (take n h.bytes) < 2 ^ 32
  register-lt n h w =
      crc_bytes-lt (take n h.bytes) 0xffff_ffff (All-take IsByte n h.bytes w.small) (omega arith)

  fcs_field :
      field 4 36 true sent ≡ bit_xor (crc_bytes 0xffff_ffff (take 36 summed.bytes)) 0xffff_ffff
  fcs_field =
      field-write_all (take 5 all)
        (record { size = 4; offset = 36; value = beat_fcs alive g; big = true }) (drop 6 all) g v
        (omega arith) (omega arith) (omega arith)
      ∙ ap (λ h. bit_xor (crc_bytes 0xffff_ffff (take 36 h.bytes)) 0xffff_ffff % 2 ^ 32)
          (early-write_all alive g (beat_fcs alive g))
      ∙ mod-eq_of_lt (xor-lt 32 _ 0xffff_ffff (register-lt 36 summed summed-IsValid) (omega arith))

  xor_right_cancel : (a b c : ℕ) → bit_xor a c ≡ bit_xor b c → a ≡ b
  xor_right_cancel a b c e =
      ground (arith, xor_comm a c, xor_comm b c, xor_cancel c a, xor_cancel c b)

  -- Equal checksums mean equal ids: the two headers differ there only.
  equal_sums :
      crc_bytes 0xffff_ffff (take 36 sent.bytes) ≡ crc_bytes 0xffff_ffff (take 36 summed.bytes)
      → slice 8 4 sent.bytes ≡ slice 8 4 summed.bytes
  equal_sums e =
      crc_burst (crc_bytes 0xffff_ffff (slice 0 8 summed.bytes)) (slice 8 4 sent.bytes)
        (slice 8 4 summed.bytes) (slice 12 24 summed.bytes) (register-lt 8 summed summed-IsValid)
        (part 8 4 sent sent-IsValid) (part 8 4 summed summed-IsValid)
        (part 12 24 summed summed-IsValid)
        (length-slice 8 4 sent.bytes (omega (arith, sent-IsValid.full)))
        (length-slice 8 4 summed.bytes (omega (arith, summed-IsValid.full)))
        (sym (behind_front (slice 8 4 sent.bytes ++ slice 12 24 summed.bytes))
          ∙ ap (crc_bytes 0xffff_ffff) (
              ap₂ (λ xs ys. xs ++ (slice 8 4 sent.bytes ++ ys)) (sym front) (sym back)
              ∙ sym (header_split sent.bytes))
          ∙ e
          ∙ ap (crc_bytes 0xffff_ffff) (header_split summed.bytes)
          ∙ behind_front (slice 8 4 summed.bytes ++ slice 12 24 summed.bytes))
    where
      part : (o n : ℕ) (h : NbGenerator) → IsValid h → All IsByte (slice o n h.bytes)
      part o n h w = All-take IsByte n _ (All-drop IsByte o h.bytes w.small)

      behind_front :
          (xs : List ℕ)
          → crc_bytes 0xffff_ffff (slice 0 8 summed.bytes ++ xs)
            ≡ crc_bytes (crc_bytes 0xffff_ffff (slice 0 8 summed.bytes)) xs
      behind_front xs = crc_bytes-append (slice 0 8 summed.bytes) xs 0xffff_ffff

  same_header : HasComid g → take 36 sent.bytes ≡ take 36 summed.bytes
  same_header has =
      header_split sent.bytes ∙ ap₃ front (same_id has) back ∙ sym (header_split summed.bytes)
    where
      ap₃ : {a a' b b' c c' : List ℕ} → a ≡ a' → b ≡ b' → c ≡ c' → a ++ (b ++ c) ≡ a' ++ (b' ++ c')
      ap₃ p q r = ap₂ ◌++◌ p (ap₂ ◌++◌ q r)

  exact : (calc_fcs32 36 0xffff_ffff sent.bytes ≡ some (field 4 36 true sent)) ↔ HasComid g
  exact = (
    λ fits.
        let sums : bit_xor (crc_bytes 0xffff_ffff (take 36 sent.bytes)) 0xffff_ffff
            ≡ field 4 36 true sent =
          cc (fits, sum_sent) in
        id_same (equal_sums (xor_right_cancel _ _ 0xffff_ffff (sums ∙ fcs_field))),
    λ has.
        sum_sent
        ∙ ap (λ h. some (bit_xor (crc_bytes 0xffff_ffff h) 0xffff_ffff)) (same_header has)
        ∙ ap some (sym fcs_field),
  )

-- For a heartbeat that a valid generator returns, the checksum fits the header exactly if the
-- four bytes of the communication id stood in the frame before the heartbeat.
pub heartbeat_checksum :
    (alive : ℕ) (g g' : NbGenerator)
    → IsValid g
    → heartbeat alive g ≡ some g'
    → (calc_fcs32 36 0xffff_ffff g'.bytes ≡ some (field 4 36 true g')) ↔ HasComid g
heartbeat_checksum alive g g' v e =
    let same : sent alive g v ≡ g' = cc (sent_lem alive g v) in
    subst (λ h. (calc_fcs32 36 0xffff_ffff h.bytes ≡ some (field 4 36 true h)) ↔ HasComid g) same
      (exact alive g v)

-- A heartbeat leaves the id in the frame.
pub heartbeat-HasComid :
    (alive : ℕ) (g g' : NbGenerator) → IsValid g → heartbeat alive g ≡ some g' → HasComid g'
unfolding write_all
heartbeat-HasComid alive g g' v e =
    let same : sent alive g v ≡ g' = cc (sent_lem alive g v) in
    subst HasComid same (sent_id alive g v)
