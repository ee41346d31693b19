-- ===== src/Mvb/ByteArray/Laws.antt =====
-- Round trips of the byte array tools, and the two ways to count the digits of a byte.
use infinity_station.Base.{
  ℕ, ◌+◌, ◌-◌, ◌/◌, ◌%◌, ◌^◌, ◌≤◌, ◌<◌, true, ◌≡◌, ap, ◌∙◌, Bool, List, set,
}
use infinity_station.Base.{
  leb, arith, length, length-set, get_or, le→ltb, get_or-set_self, get_or-set_ne,
}
use infinity_station.Mvb.Parse.Words.{or_two}
use infinity_station.Mvb.ByteArray.{
  write_to_vector_be, read_from_vector_be, set_bit_in_vector_lsb, set_bit_in_vector_msb,
}

module _ (bytes : List ℕ) (offset value : ℕ) (fits : offset + 2 ≤ length bytes) where
  abbrev first : List ℕ
  first = set bytes (offset + 0) (value / 2 ^ 8 % 256)

  abbrev second : List ℕ
  second = set first (offset + 1) (value % 256)

  length-second : length second ≡ length bytes
  length-second =
      length-set first (offset + 1) (value % 256)
      ∙ length-set bytes (offset + 0) (value / 2 ^ 8 % 256)

  written : write_to_vector_be 2 bytes value offset ≡ second
  unfolding write_to_vector_be
  written = rw (le→ltb (length bytes) (offset + 2) fits) (ap (set first (offset + 1)) lowest)
    where
      lowest : value / 1 % 256 ≡ value % 256
      lowest = omega arith

  high : get_or second (offset + 0) 0 ≡ value / 2 ^ 8 % 256
  high =
      get_or-set_ne first (offset + 1) (offset + 0) (value % 256) 0 (ground arith)
      ∙ get_or-set_self bytes (offset + 0) (value / 2 ^ 8 % 256) 0 (omega arith)

  low : get_or second (offset + 1) 0 ≡ value % 256
  low =
      get_or-set_self first (offset + 1) (value % 256) 0
        (omega (arith, length-set bytes (offset + 0) (value / 2 ^ 8 % 256)))

  -- Two bytes written inside the vector, the higher first, are read back, cut to 16 digits.
  pub read_from_vector_be-write_to_vector_be :
      read_from_vector_be 2 (write_to_vector_be 2 bytes value offset) offset ≡ value % 2 ^ 16
  unfolding read_from_vector_be
  read_from_vector_be-write_to_vector_be = rw written (
      rw (le→ltb (length second) (offset + 2) (omega (arith, length-second))) (
        rw (high, low)
          (or_two (value / 2 ^ 8 % 256) (value % 256) (omega arith) (omega arith) ∙ omega arith)))

-- For a digit below 8, counting from the highest digit is counting from the lowest one backwards,
-- also where the vector is too short.
pub set_bit_in_vector_msb-lsb :
    (bytes : List ℕ) (offset bit : ℕ) (v : Bool)
    → bit < 8
    → set_bit_in_vector_msb bytes offset bit v ≡ set_bit_in_vector_lsb bytes offset (7 - bit) v
unfolding set_bit_in_vector_msb set_bit_in_vector_lsb
set_bit_in_vector_msb-lsb bytes offset bit v low =
    let fits : leb bit 7 ≡ true = ground arith in rw fits
