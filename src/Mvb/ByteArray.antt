-- ===== src/Mvb/ByteArray.antt =====
-- kits/thrid_devices/duagon/mvb_tools/ByteArrayTools.h: numbers and digits in a vector of bytes, on
-- a little-endian host. `size` is sizeof(T). `none` is an access past the end of the vector, or
-- std::out_of_range.
pub mod Laws
use infinity_station.Base.{
  ℕ, zero, suc, ◌+◌, ◌-◌, ◌*◌, ◌/◌, ◌%◌, ◌^◌, bit_or, Bool, List, [], ◌∷◌, ◌++◌,
}
use infinity_station.Base.{
  Option, none, some, ◌>>=◌, ltb, leb, if◌then◌else◌, length, get_or, get_elem?, set,
}
use infinity_station.Mvb.Frame.{bitset_set, store_low_first}

unfoldable pub write_be_loop : ℕ → ℕ → ℕ → ℕ → ℕ → List ℕ → List ℕ
write_be_loop zero i size value offset bytes = bytes
write_be_loop (suc left) i size value offset bytes =
    write_be_loop left (i + 1) size value offset
      (set bytes (offset + i) (value / 2 ^ ((size - 1 - i) * 8) % 2 ^ 8))

unfoldable pub write_to_vector_be : ℕ → List ℕ → ℕ → ℕ → List ℕ
unfolding write_be_loop
write_to_vector_be size bytes value offset =
    if ltb (length bytes) (offset + size)
    then bytes
    else write_be_loop size 0 size value offset bytes

unfoldable pub read_be_loop : ℕ → ℕ → ℕ → ℕ → List ℕ → ℕ → ℕ
read_be_loop zero i size value bytes offset = value
read_be_loop (suc left) i size value bytes offset =
    read_be_loop left (i + 1) size
      (bit_or value (get_or bytes (offset + i) 0 * 2 ^ ((size - 1 - i) * 8)) % 2 ^ (size * 8)) bytes
      offset

unfoldable pub read_from_vector_be : ℕ → List ℕ → ℕ → ℕ
unfolding read_be_loop
read_from_vector_be size bytes offset =
    if ltb (length bytes) (offset + size) then 0 else read_be_loop size 0 size 0 bytes offset

-- A vector that is too short is logged, and written all the same.
unfoldable pub write_to_vector_le : ℕ → List ℕ → ℕ → ℕ → Option (List ℕ)
unfolding store_low_first
write_to_vector_le size bytes value offset =
    if ltb (length bytes) (offset + size)
    then none
    else some (store_low_first size 0 offset value bytes)

unfoldable pub read_le_bytes : ℕ → List ℕ → ℕ → ℕ
read_le_bytes zero bytes offset = 0
read_le_bytes (suc n) bytes offset =
    read_le_bytes n bytes offset + get_or bytes (offset + n) 0 * 2 ^ (n * 8)

unfoldable pub read_from_vector_le : ℕ → List ℕ → ℕ → ℕ
unfolding read_le_bytes
read_from_vector_le size bytes offset =
    if ltb (length bytes) (offset + size) then 0 else read_le_bytes size bytes offset

unfoldable pub set_bit_in_vector_lsb : List ℕ → ℕ → ℕ → Bool → Option (List ℕ)
unfolding bitset_set
set_bit_in_vector_lsb bytes offset bit v = do
  old ← get_elem? bytes offset
  new ← bitset_set old bit v
  some (set bytes offset new)

-- A negative position is past the end of the bitset as well.
unfoldable pub set_bit_in_vector_msb : List ℕ → ℕ → ℕ → Bool → Option (List ℕ)
unfolding bitset_set
set_bit_in_vector_msb bytes offset bit v = do
  old ← get_elem? bytes offset
  new ← if leb bit 7 then bitset_set old (7 - bit) v else none
  some (set bytes offset new)

-- The two digits of a byte, in lower case.
unfoldable pub hex_char : ℕ → ℕ
hex_char v = if leb v 9 then 48 + v else 87 + v

-- `left` bytes from index `i` on, a comma before each but the first of all.
unfoldable pub hex_loop : ℕ → ℕ → List ℕ → List ℕ
unfolding hex_char
hex_loop zero i bytes = []
hex_loop (suc left) i bytes =
    (if leb i 0 then [] else 44 ∷ [])
    ++ hex_char (get_or bytes i 0 / 16)
      ∷ hex_char (get_or bytes i 0 % 16)
      ∷ hex_loop left (i + 1) bytes

unfoldable pub hex_string : List ℕ → ℕ → List ℕ
unfolding hex_loop
hex_string bytes len = hex_loop len 0 bytes
