-- ===== src/Mvb/Frame/Read.antt =====
-- A field read back from the frame, as the receiver of `set_value` does.
use infinity_station.Base.{ℕ, zero, suc, ◌+◌, ◌-◌, ◌*◌, ◌%◌, ◌^◌, ◌≤◌, ◌<◌, ◌≡◌, refl, ◌∙◌}
use infinity_station.Base.{Bool, true, false, List, arith, ◌⊎◌, inl, inr, length, get_or}
use infinity_station.Base.{get_or_ext, subst, sym}
use native.Mathlib.Decide.{dec_lt}
use infinity_station.Mvb.Frame.{set_value}
use infinity_station.Mvb.Frame.Bytes.{
  byte_of, place, set_value_inside, set_value_outside, length-set_value,
}

-- The number whose byte `i` stands at `position i`.
unfoldable pub read_bytes : (ℕ → ℕ) → ℕ → List ℕ → ℕ
read_bytes position zero frame = 0
read_bytes position (suc n) frame =
    read_bytes position n frame + get_or frame (position n) 0 * 2 ^ (n * 8)

-- A field of `size` bytes at `offset`, in either order.
unfoldable pub read_value : ℕ → ℕ → Bool → List ℕ → ℕ
unfolding read_bytes
read_value size offset is_big_endian frame =
    read_bytes (λ i. offset + place is_big_endian size i) size frame

read_bytes_ext :
    (position : ℕ → ℕ) (n : ℕ) (xs ys : List ℕ)
    → ((i : ℕ) → i < n → get_or xs (position i) 0 ≡ get_or ys (position i) 0)
    → read_bytes position n xs ≡ read_bytes position n ys
unfolding read_bytes
read_bytes_ext position zero xs ys h = refl
read_bytes_ext position (suc n) xs ys h =
    ground (arith, read_bytes_ext position n xs ys (λ i lt. h i (omega arith)), h n (omega arith))

-- Sizes of the integer types.
abbrev pub IsSize : ℕ → Type 0
IsSize size = (size ≡ 1) ⊎ (size ≡ 2) ⊎ (size ≡ 4)

read_bytes_of :
    (position : ℕ → ℕ) (n value : ℕ) (frame : List ℕ)
    → n ≤ 4
    → ((i : ℕ) → i < n → get_or frame (position i) 0 ≡ byte_of value i)
    → read_bytes position n frame ≡ value % 2 ^ (n * 8)
unfolding read_bytes
read_bytes_of position zero value frame le h = omega arith
read_bytes_of position (suc zero) value frame le h = omega (arith, h 0 (omega arith))
read_bytes_of position (suc (suc zero)) value frame le h =
    omega (arith, h 0 (omega arith), h 1 (omega arith))
read_bytes_of position (suc (suc (suc zero))) value frame le h =
    omega (arith, h 0 (omega arith), h 1 (omega arith), h 2 (omega arith))
read_bytes_of position (suc (suc (suc (suc zero)))) value frame le h =
    omega (arith, h 0 (omega arith), h 1 (omega arith), h 2 (omega arith), h 3 (omega arith))
read_bytes_of position (suc (suc (suc (suc (suc n))))) value frame le h = absurd (omega arith)

module _ (size offset value : ℕ) (frame : List ℕ) (fits : offset + size ≤ length frame) where
  -- A number written to a field of at most four bytes inside the frame is read back in the same
  -- byte order, cut to the width of the field.
  pub read_value-set_value :
      (is_big_endian : Bool)
      → size ≤ 4
      → read_value size offset is_big_endian (set_value size offset size value is_big_endian frame)
        ≡ value % 2 ^ (size * 8)
  unfolding read_value
  read_value-set_value is_big_endian le =
      read_bytes_of _ size value _ le (set_value_inside size offset value frame fits is_big_endian)

  place-lt : (is_big_endian : Bool) (n i : ℕ) → i < n → place is_big_endian n i < n
  place-lt true n i h = h
  place-lt false n i h = omega arith

  -- A field beside the written one keeps its value.
  pub read_value-set_value_ne :
      (is_big_endian order : Bool) (n other : ℕ)
      → (other + n ≤ offset) ⊎ (offset + size ≤ other)
      → read_value n other order (set_value size offset size value is_big_endian frame)
        ≡ read_value n other order frame
  unfolding read_value
  read_value-set_value_ne is_big_endian order n other (inl before) = read_bytes_ext _ n _ _ λ i lt.
      set_value_outside size offset value frame fits is_big_endian _
        (inl (omega (arith, place-lt order n i lt)))
  read_value-set_value_ne is_big_endian order n other (inr behind) =
      read_bytes_ext _ n _ _
        λ i lt. set_value_outside size offset value frame fits is_big_endian _ (inr (omega arith))

module _ (size offset value : ℕ) (is_big_endian : Bool) (frame : List ℕ)
    (fits : offset + size ≤ length frame) where
  -- The field holds the value.
  abbrev pub Holds : Type 0
  Holds =
      (i : ℕ) → i < size → get_or frame (offset + place is_big_endian size i) 0 ≡ byte_of value i

  index_of :
      (p : ℕ)
      → offset ≤ p
      → p < offset + size
      → (i : ℕ) × (i < size) × (offset + place is_big_endian size i ≡ p)
  index_of p lo hi = go is_big_endian
    where
      go : (big : Bool) → (i : ℕ) × (i < size) × (offset + place big size i ≡ p)
      go true = (p - offset, omega arith, omega arith)
      go false = (size - 1 - (p - offset), omega arith, omega arith)

  -- Then the write changes nothing.
  pub set_value_same : Holds → set_value size offset size value is_big_endian frame ≡ frame
  set_value_same holds =
      get_or_ext 0 _ frame (length-set_value size offset size value is_big_endian frame) at_byte
    where
      written : List ℕ
      written = set_value size offset size value is_big_endian frame

      inside : (p : ℕ) → offset ≤ p → p < offset + size → get_or written p 0 ≡ get_or frame p 0
      inside p lo hi =
          let (i, lt, e) = index_of p lo hi in
          subst (λ q. get_or written q 0 ≡ get_or frame q 0) e
            (set_value_inside size offset value frame fits is_big_endian i lt ∙ sym (holds i lt))

      at_byte : (p : ℕ) → get_or written p 0 ≡ get_or frame p 0
      at_byte p = elim (dec_lt p offset) [
        | yes before ↦ set_value_outside size offset value frame fits is_big_endian p (inl before)
        | no from ↦ elim (dec_lt p (offset + size)) [
          | yes upto ↦ inside p (omega arith) upto
          | no behind ↦
              set_value_outside size offset value frame fits is_big_endian p (inr (omega arith))
        ]
      ]
