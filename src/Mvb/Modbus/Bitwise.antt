-- ===== src/Mvb/Modbus/Bitwise.antt =====
-- The checksum of the Hangde line is the bitwise one: the reflected CRC-16 of polynomial 0xA001.
use infinity_station.Base.{
  ℕ, zero, suc, ◌+◌, ◌*◌, ◌/◌, ◌%◌, ◌^◌, ◌≤◌, ◌<◌, bit_xor, List, [], ◌∷◌, ◌≡◌, refl, sym, ap, ap₂,
  ◌∙◌,
}
use infinity_station.Base.{
  arith, length, get_or, take, drop, All, All-get_or, drop-cons, ◌==◌, true, false, ◌&&◌, ltb, none,
  some,
}
use infinity_station.Base.Bits.Xor.{xor_fields, xor-lt, xor_comm, xor_assoc}
use infinity_station.Base.Bits.Shift.{shift_bits, shift_eight-split}
use infinity_station.Base.Bits.Table.{every_below, every_below_at}
use infinity_station.Mvb.Modbus.{
  auch_crc_lo, auch_crc_hi, modbus_step, modbus_loop, word_of, modbus_crc16,
}

-- The polynomial, its lowest digit first.
abbrev pub crc16 : ℕ
crc16 = 0xa001

-- The reference: every byte is added to the low end of the register and shifted through.
unfoldable pub crc16_bytes : ℕ → List ℕ → ℕ
unfolding shift_bits
crc16_bytes s [] = s
crc16_bytes s (b ∷ bs) = crc16_bytes (shift_bits crc16 8 (bit_xor s b)) bs

abbrev pub IsRegister : ℕ × ℕ → Type 0
IsRegister (hi, lo) = (hi < 256) × (lo < 256)

abbrev pub number : ℕ × ℕ → ℕ
number (hi, lo) = hi * 256 + lo

tables :
    every_below 256 (λ x.
      (shift_bits crc16 8 x == get_or auch_crc_lo x 0 * 256 + get_or auch_crc_hi x 0)
      && ltb (get_or auch_crc_lo x 0) 256
      && ltb (get_or auch_crc_hi x 0) 256)
    ≡ true
unfolding every_below auch_crc_lo auch_crc_hi shift_bits
tables = refl

table_entry :
    (x : ℕ)
    → x < 256
    → (shift_bits crc16 8 x ≡ get_or auch_crc_lo x 0 * 256 + get_or auch_crc_hi x 0)
      × (get_or auch_crc_lo x 0 < 256)
      × (get_or auch_crc_hi x 0 < 256)
table_entry x h =
    let checked = every_below_at x 256 _ tables h in
    (ground (arith, checked), ground (arith, checked), ground (arith, checked))

-- A byte meets the low byte of a word only.
xor-low : (hi lo b : ℕ) → lo < 256 → b < 256 → bit_xor (hi * 256 + lo) b ≡ hi * 256 + bit_xor lo b
xor-low hi lo b lt byte =
    ap (λ w. bit_xor w b) (sym (xor_fields 8 hi lo lt))
    ∙ xor_assoc (hi * 256) lo b
    ∙ xor_fields 8 hi (bit_xor lo b) (xor-lt 8 lo b lt byte)

pub modbus_step-eq-shift :
    (register : ℕ × ℕ) (b : ℕ)
    → IsRegister register
    → b < 256
    → (number (modbus_step register b) ≡ shift_bits crc16 8 (bit_xor (number register) b))
      × IsRegister (modbus_step register b)
unfolding modbus_step
modbus_step-eq-shift (hi, lo) b (high, low) byte =
    let index-lt : bit_xor lo b < 256 = xor-lt 8 lo b low byte in
    let (entry, lo-lt, hi-lt) = table_entry (bit_xor lo b) index-lt in
    let index = bit_xor lo b in
    let l = get_or auch_crc_lo index 0 in
    let h = get_or auch_crc_hi index 0 in
    let quotient : (hi * 256 + index) / 256 ≡ hi = omega arith in
    let remainder : (hi * 256 + index) % 256 ≡ index = omega arith in
    (
      sym (
          ap (shift_bits crc16 8) (xor-low hi lo b low byte)
          ∙ shift_eight-split crc16 (hi * 256 + index)
          ∙ ap₂ (λ q r. bit_xor q (shift_bits crc16 8 r)) quotient remainder
          ∙ ap (bit_xor hi) entry
          ∙ xor_comm hi (l * 256 + h)
          ∙ xor-low l h hi hi-lt high
          ∙ ap (λ x. l * 256 + x) (xor_comm h hi)),
      (lo-lt, xor-lt 8 hi h high hi-lt),
    )

modbus_loop-crc16_bytes :
    (fuel left len i : ℕ) (register : ℕ × ℕ) (buffer : List ℕ)
    → IsRegister register
    → All (λ b. b < 256) buffer
    → len ≤ length buffer
    → len < 256
    → i + left ≡ len
    → left < fuel
    → (r : ℕ × ℕ) × (modbus_loop fuel len i register buffer ≡ some r)
      × IsRegister r
      × (number r ≡ crc16_bytes (number register) (take left (drop i buffer)))
unfolding modbus_loop crc16_bytes
modbus_loop-crc16_bytes zero left len i register buffer v h fits short at more =
    absurd (omega (arith, more))
modbus_loop-crc16_bytes (suc fuel) zero len i register buffer v h fits short at more =
    (register, ground (arith, at), v, refl)
modbus_loop-crc16_bytes (suc fuel) (suc left) len i register buffer v h fits short at more =
    let (same, v') =
      modbus_step-eq-shift register (get_or buffer i 0) v
        (All-get_or _ buffer i 0 h (omega (arith, at, fits))) in
    let next = modbus_step register (get_or buffer i 0) in
    let (r, is, v'', result) =
      modbus_loop-crc16_bytes fuel left len (suc i) next buffer v' h fits short (omega (arith, at))
        (omega (arith, more)) in
    let counter : (i + 1) % 2 ^ 8 ≡ suc i = omega (arith, at, short) in
    let goes : ltb i len ≡ true = ground (arith, at) in
    (
      r,
      go next goes counter ∙ is,
      v'',
      rw (drop-cons buffer i 0 (omega (arith, at, fits)))
          (result ∙ ap (λ n. crc16_bytes n (take left (drop (suc i) buffer))) same),
    )
  where
    go :
        (next : ℕ × ℕ)
        → ltb i len ≡ true
        → (i + 1) % 2 ^ 8 ≡ suc i
        → elim (ltb i len) [
          | true ↦ modbus_loop fuel len ((i + 1) % 2 ^ 8) next buffer
          | false ↦ some register
        ]
          ≡ modbus_loop fuel len (suc i) next buffer
    go next goes counter = rw (goes, counter) refl

pub modbus_crc16_lem :
    (buffer : List ℕ) (len : ℕ)
    → All (λ b. b < 256) buffer
    → len ≤ length buffer
    → len < 256
    → (sum : ℕ) × (modbus_crc16 buffer len ≡ some sum)
      × (sum < 2 ^ 16)
      × (sum ≡ crc16_bytes 0xffff (take len buffer))
unfolding modbus_crc16
modbus_crc16_lem buffer len h fits short =
    let (r, is, (hi, lo), same) =
      modbus_loop-crc16_bytes 257 len len 0 (0xff, 0xff) buffer (omega arith, omega arith) h fits
        short (omega arith) (omega (arith, short)) in
    (number r, ap word_of is, omega (arith, hi, lo), same)

-- For a length below 256 inside a buffer of bytes the loop ends, and the checksum is the bitwise
-- reference, started from 0xffff.
pub modbus_crc16-crc :
    (buffer : List ℕ) (len : ℕ)
    → All (λ b. b < 256) buffer
    → len ≤ length buffer
    → len < 256
    → modbus_crc16 buffer len ≡ some (crc16_bytes 0xffff (take len buffer))
modbus_crc16-crc buffer len h fits short =
    let (sum, is, small, same) = modbus_crc16_lem buffer len h fits short in is ∙ ap some same

-- For a length of 256 or more, and a buffer of 256 bytes or more, so that no round reads past its end,
-- the loop does not end: from any state of a counter that is a byte, no number of rounds is enough.
pub modbus_loop-endless :
    (fuel len i : ℕ) (register : ℕ × ℕ) (buffer : List ℕ)
    → 256 ≤ len
    → 256 ≤ length buffer
    → i < 256
    → modbus_loop fuel len i register buffer ≡ none
unfolding modbus_loop
modbus_loop-endless zero len i register buffer long room byte = refl
modbus_loop-endless (suc fuel) len i register buffer long room byte =
    let goes : ltb i len ≡ true = ground (arith, long, byte) in
    let rest =
      modbus_loop-endless fuel len ((i + 1) % 2 ^ 8) (modbus_step register (get_or buffer i 0))
        buffer long room (omega arith) in
    ground (arith, goes, rest)
