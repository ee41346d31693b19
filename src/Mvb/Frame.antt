-- ===== src/Mvb/Frame.antt =====
-- The byte vector of a frame generator: `setBitSetValue` and `setValue` of
-- modules/mvb_service/mvbprocessmsg/ningbo8/MVBNBDataGenerator.cpp. The arguments of type int
-- are never negative where the generators call these, and are natural numbers here. A run holds
-- the mutex of the generator, so it is one step. `none` is std::out_of_range.
pub mod BitSet
pub mod Bytes
pub mod Read
use infinity_station.Base.{ℕ, zero, suc, ◌+◌, ◌-◌, ◌*◌, ◌/◌, ◌%◌, ◌^◌, ◌<◌, Bool, ◌&&◌, ◌||◌, List}
use infinity_station.Base.{Option, none, some, ◌>>=◌, ltb, if◌then◌else◌, length, get_elem?, set}

abbrev pub IsByte : ℕ → Type 0
IsByte b = b < 256

-- std::bitset<8> as the byte of its digits: reading digit `i`, and writing it for `i` below 8.
unfoldable pub bit_of : ℕ → ℕ → ℕ
bit_of b i = b / 2 ^ i % 2

unfoldable pub with_bit : ℕ → ℕ → Bool → ℕ
with_bit b i v = b / 2 ^ suc i * 2 ^ suc i + (if v then 2 ^ i else 0) + b % 2 ^ i

-- `bitset::set` throws for a position past the end.
unfoldable pub bitset_set : ℕ → ℕ → Bool → Option ℕ
unfolding with_bit
bitset_set b i v = if ltb i 8 then some (with_bit b i v) else none

-- `for (size_t i = beginbit; i < endbit; i++) setModset.set(modbit, false);`
unfoldable pub clear_rounds : ℕ → ℕ → ℕ → Option ℕ
unfolding bitset_set
clear_rounds zero modbit b = some b
clear_rounds (suc rounds) modbit b = do
  b' ← bitset_set b modbit Bool.false
  clear_rounds rounds modbit b'

unfoldable pub set_bit_set_value : ℕ → ℕ → ℕ → ℕ → Bool → List ℕ → Option (List ℕ)
unfolding clear_rounds
set_bit_set_value offset beginbit endbit modbit value frame =
    if ltb (length frame) offset
      || (ltb beginbit 0 && ltb 7 beginbit)
      || (ltb endbit 0 && ltb 7 endbit)
      || (ltb modbit 0 && ltb 7 modbit)
    then some frame
    else (do
      old ← get_elem? frame offset
      cleared ← clear_rounds (endbit - beginbit) modbit old
      new ← bitset_set cleared modbit value
      some (set frame offset new))

-- The two loops of `setValue`, with `left` rounds to go from round `i` on. A value is its bit
-- pattern, so `(value >> (i*8)) & 0xFF` is its byte `i`.
unfoldable pub store_low_first : ℕ → ℕ → ℕ → ℕ → List ℕ → List ℕ
store_low_first zero i offset value frame = frame
store_low_first (suc left) i offset value frame =
    store_low_first left (i + 1) offset value (set frame (offset + i) (value / 2 ^ (i * 8) % 2 ^ 8))

unfoldable pub store_high_first : ℕ → ℕ → ℕ → ℕ → ℕ → List ℕ → List ℕ
store_high_first zero i offset size value frame = frame
store_high_first (suc left) i offset size value frame =
    store_high_first left (i + 1) offset size value
      (set frame (offset + size - i - 1) (value / 2 ^ (i * 8) % 2 ^ 8))

-- `size` is sizeof(T).
unfoldable pub set_value : ℕ → ℕ → ℕ → ℕ → Bool → List ℕ → List ℕ
unfolding store_low_first store_high_first
set_value size offset len value is_big_endian frame =
    if ltb (length frame) offset || ltb (length frame) (offset + len) || ltb len size
    then frame
    else (if is_big_endian
        then store_low_first size 0 offset value frame
        else store_high_first size 0 offset size value frame)
