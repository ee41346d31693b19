-- ===== src/Mvb/Frame/BitSet.antt =====
-- What `set_bit_set_value` does on every argument, and the laws of single digits.
use infinity_station.Base.{ℕ, zero, suc, ◌-◌, ◌≤◌, ◌<◌, ◌≡◌, ◌≢◌, refl}
use infinity_station.Base.{Bool, true, false, ◌&&◌, ◌||◌, ◌==◌, ltb, if◌then◌else◌, List, arith}
use infinity_station.Base.{Option, none, some, length, get_or, set, get_elem?-eq-get_or}
use infinity_station.Base.{get_elem?-none, ◌>>=◌, lt→ltb, le→ltb, All, All-get_or}
use infinity_station.Base.Bits.Table.{every_below, every_below_at}
use infinity_station.Mvb.Frame.{
  IsByte, bit_of, with_bit, bitset_set, clear_rounds, set_bit_set_value,
}

-- One table for the laws below, over all bytes, both positions and both values.
same_law : ℕ → ℕ → Bool → Bool → Bool
same_law b i v w = with_bit (with_bit b i w) i v == with_bit b i v

self_law : ℕ → ℕ → Bool → Bool
self_law b i v = bit_of (with_bit b i v) i == (if v then 1 else 0)

other_law : ℕ → ℕ → ℕ → Bool → Bool
other_law b i j v = i == j || (bit_of (with_bit b i v) j == bit_of b j)

self_table :
    every_below 256 (λ b. every_below 8 (λ i.
      self_law b i true
      && self_law b i false
      && same_law b i true true
      && same_law b i true false
      && same_law b i false true
      && same_law b i false false
      && ltb (with_bit b i true) 256
      && ltb (with_bit b i false) 256))
    ≡ true
unfolding every_below self_law same_law with_bit bit_of
self_table = refl

other_table :
    every_below 256
      (λ b. every_below 8 (λ i. every_below 8 (λ j. other_law b i j true && other_law b i j false)))
    ≡ true
unfolding every_below other_law with_bit bit_of
other_table = refl

module _ (b i : ℕ) (byte : IsByte b) (below : i < 8) where
  self_laws :
      self_law b i true
        && self_law b i false
        && same_law b i true true
        && same_law b i true false
        && same_law b i false true
        && same_law b i false false
        && ltb (with_bit b i true) 256
        && ltb (with_bit b i false) 256
      ≡ true
  self_laws = every_below_at i 8 _ (every_below_at b 256 _ self_table byte) below

  -- Only the last write of a digit counts.
  pub with_bit-same : (v w : Bool) → with_bit (with_bit b i w) i v ≡ with_bit b i v
  unfolding same_law
  with_bit-same true true = ground (arith, self_laws)
  with_bit-same true false = ground (arith, self_laws)
  with_bit-same false true = ground (arith, self_laws)
  with_bit-same false false = ground (arith, self_laws)

  pub bit_of-with_bit_self : (v : Bool) → bit_of (with_bit b i v) i ≡ (if v then 1 else 0)
  unfolding self_law
  bit_of-with_bit_self true = ground (arith, self_laws)
  bit_of-with_bit_self false = ground (arith, self_laws)

  pub with_bit-IsByte : (v : Bool) → IsByte (with_bit b i v)
  with_bit-IsByte true = ground (arith, self_laws)
  with_bit-IsByte false = ground (arith, self_laws)

  others : (j : ℕ) → j < 8 → other_law b i j true && other_law b i j false ≡ true
  others j lt =
      every_below_at j 8 _ (every_below_at i 8 _ (every_below_at b 256 _ other_table byte) below) lt

  pub bit_of-with_bit_ne :
      (j : ℕ) (v : Bool) → j < 8 → i ≢ j → bit_of (with_bit b i v) j ≡ bit_of b j
  unfolding other_law
  bit_of-with_bit_ne j true lt ne = ground (arith, others j lt)
  bit_of-with_bit_ne j false lt ne = ground (arith, others j lt)

clear_rounds-inside :
    (rounds i b : ℕ) (v : Bool)
    → IsByte b
    → i < 8
    → (c : ℕ) × (clear_rounds rounds i b ≡ some c) × IsByte c × (with_bit c i v ≡ with_bit b i v)
unfolding clear_rounds bitset_set
clear_rounds-inside zero i b v byte below = (b, refl, byte, refl)
clear_rounds-inside (suc rounds) i b v byte below =
    let (c, runs, small, same) =
      clear_rounds-inside rounds i (with_bit b i false) v (with_bit-IsByte b i byte below false)
        below in
    (c, ground (arith, runs), small, ground (arith, same, with_bit-same b i byte below v false))

clear_rounds-outside :
    (rounds i b : ℕ) (v : Bool) (k : ℕ → Option (List ℕ))
    → 8 ≤ i
    → (clear_rounds rounds i b >>= λ c. bitset_set c i v >>= k) ≡ none
unfolding clear_rounds bitset_set
clear_rounds-outside zero i b v k above = ground arith
clear_rounds-outside (suc rounds) i b v k above = ground arith

module _ (offset beginbit endbit modbit : ℕ) (v : Bool) (frame : List ℕ)
    (bytes : All IsByte frame) where
  -- The test that the guard comes down to, its other three parts being false.
  guard_range :
      (n : ℕ)
      → (ltb n offset
          || (ltb beginbit 0 && ltb 7 beginbit)
          || (ltb endbit 0 && ltb 7 endbit)
          || (ltb modbit 0 && ltb 7 modbit))
        ≡ ltb n offset
  guard_range n = ground arith

  set_bit_set_value_past :
      length frame < offset → set_bit_set_value offset beginbit endbit modbit v frame ≡ some frame
  unfolding set_bit_set_value
  set_bit_set_value_past h = rw (guard_range (length frame), lt→ltb _ _ h)

  set_bit_set_value_at_end :
      offset ≡ length frame → set_bit_set_value offset beginbit endbit modbit v frame ≡ none
  unfolding set_bit_set_value
  set_bit_set_value_at_end e = rw (
    guard_range (length frame),
    le→ltb (length frame) offset (omega arith),
    get_elem?-none frame offset (omega arith),
  )

  set_bit_set_value_high :
      offset < length frame
      → 8 ≤ modbit
      → set_bit_set_value offset beginbit endbit modbit v frame ≡ none
  unfolding set_bit_set_value
  set_bit_set_value_high lt high =
      rw
        (
          guard_range (length frame),
          le→ltb (length frame) offset (omega arith),
          get_elem?-eq-get_or frame offset 0 lt,
        )
        (clear_rounds-outside (endbit - beginbit) modbit _ v _ high)

  pub set_bit_set_value_inside :
      offset < length frame
      → modbit < 8
      → set_bit_set_value offset beginbit endbit modbit v frame
        ≡ some (set frame offset (with_bit (get_or frame offset 0) modbit v))
  unfolding set_bit_set_value bitset_set
  set_bit_set_value_inside lt low =
      let byte = All-get_or IsByte frame offset 0 bytes lt in
      let (c, runs, small, same) = clear_rounds-inside (endbit - beginbit) modbit _ v byte low in
      rw (
        guard_range (length frame),
        le→ltb (length frame) offset (omega arith),
        get_elem?-eq-get_or frame offset 0 lt,
        runs,
        lt→ltb modbit 8 low,
        same,
      )

  -- On a frame of bytes: an offset past the end is ignored; an offset at the end, or a digit past
  -- 7 inside the frame, throws; otherwise one digit of one byte is written, whatever range
  -- `beginbit` to `endbit` is given.
  pub set_bit_set_value_cases : set_bit_set_value offset beginbit endbit modbit v frame ≡ (
      if ltb (length frame) offset
      then some frame
      else (if ltb offset (length frame) && ltb modbit 8
          then some (set frame offset (with_bit (get_or frame offset 0) modbit v))
          else none))
  set_bit_set_value_cases = ground (
    arith, set_bit_set_value_past, set_bit_set_value_at_end, set_bit_set_value_high,
    set_bit_set_value_inside,
  )
