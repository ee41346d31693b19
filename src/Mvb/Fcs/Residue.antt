-- ===== src/Mvb/Fcs/Residue.antt =====
-- What the checksum detects: a word fed in after the data acts on the register at once, so a frame
-- with its own checksum leaves a fixed residue, and two frames that differ in one word never agree.
use infinity_station.Base.{ℕ, zero, suc, ◌+◌, ◌*◌, ◌/◌, ◌%◌, ◌^◌, ◌<◌, bit_xor, List, [], ◌∷◌, ◌++◌}
use infinity_station.Base.{◌≡◌, refl, sym, ap, subst, ◌∙◌, arith, All, length, ◌⊎◌, inl, inr}
use native.Mathlib.Nat.{pow-suc}
use infinity_station.Base.Bits.Xor.{xor_comm, xor_assoc, xor_cancel, xor-zero, xor_self}
use infinity_station.Base.Bits.Xor.{xor-lt, xor_fields}
use infinity_station.Base.Bits.Shift.{poly, shift_bit, shift_bits, shift_bit-xor, shift_bits-xor}
use infinity_station.Base.Bits.Shift.{shift_eight-mul}
use infinity_station.Mvb.Fcs.Bitwise.{crc32, crc_bytes}

-- The `n` bytes of a number, the lowest first.
abbrev pub low_bytes : ℕ → ℕ → List ℕ
low_bytes zero v = []
low_bytes (suc n) v = v % 256 ∷ low_bytes n (v / 256)

pub crc_bytes-append :
    (xs ys : List ℕ) (s : ℕ) → crc_bytes s (xs ++ ys) ≡ crc_bytes (crc_bytes s xs) ys
unfolding crc_bytes
crc_bytes-append [] ys s = refl
crc_bytes-append (x ∷ xs) ys s = crc_bytes-append xs ys _

-- Rounds of eight digits.
shift_bytes : ℕ → ℕ → ℕ
shift_bytes zero s = s
shift_bytes (suc n) s = shift_bytes n (shift_bits crc32 8 s)

join :
    (s v : ℕ)
    → bit_xor (shift_bits crc32 8 (bit_xor s (v % 256))) (v / 256)
      ≡ shift_bits crc32 8 (bit_xor s v)
join s v =
    ap (bit_xor (shift_bits crc32 8 (bit_xor s (v % 256)))) (sym (shift_eight-mul crc32 (v / 256)))
    ∙ sym (shift_bits-xor crc32 8 (bit_xor s (v % 256)) (v / 256 * 256))
    ∙ ap (shift_bits crc32 8) (xor_assoc s (v % 256) (v / 256 * 256) ∙ ap (bit_xor s) whole)
  where
    whole : bit_xor (v % 256) (v / 256 * 256) ≡ v
    whole =
        xor_comm (v % 256) (v / 256 * 256)
        ∙ xor_fields 8 (v / 256) (v % 256) (omega arith)
        ∙ omega arith

crc_bytes-low_bytes :
    (n s v : ℕ) → v < 256 ^ n → crc_bytes s (low_bytes n v) ≡ shift_bytes n (bit_xor s v)
unfolding crc_bytes shift_bytes
crc_bytes-low_bytes zero s v h =
    let none_left : v ≡ 0 = omega arith in rw none_left (sym (xor-zero s))
crc_bytes-low_bytes (suc n) s v h =
    crc_bytes-low_bytes n _ (v / 256) (omega (arith, pow-suc 256 n)) ∙ ap (shift_bytes n) (join s v)

-- The register after data and their own checksum, lowest byte first.
pub crc_residue :
    (bs : List ℕ)
    → crc_bytes 0xffff_ffff bs < 2 ^ 32
    → crc_bytes 0xffff_ffff (bs ++ low_bytes 4 (bit_xor (crc_bytes 0xffff_ffff bs) 0xffff_ffff))
      ≡ 0xdebb_20e3
unfolding shift_bytes shift_bits
crc_residue bs h =
    let reg = crc_bytes 0xffff_ffff bs in
    let sum = bit_xor reg 0xffff_ffff in
    crc_bytes-append bs (low_bytes 4 sum) 0xffff_ffff
    ∙ crc_bytes-low_bytes 4 reg sum (xor-lt 32 reg 0xffff_ffff h (omega arith))
    ∙ ap (shift_bytes 4) (xor_cancel reg 0xffff_ffff)

poly-lt : (s : ℕ) → poly crc32 (s % 2) < 2 ^ 32
unfolding poly
poly-lt s = ground arith

shift_bit-lt : (s : ℕ) → s < 2 ^ 32 → shift_bit crc32 s < 2 ^ 32
unfolding shift_bit
shift_bit-lt s h = xor-lt 32 (s / 2) (poly crc32 (s % 2)) (omega arith) (poly-lt s)

pub shift_bits-lt : (k s : ℕ) → s < 2 ^ 32 → shift_bits crc32 k s < 2 ^ 32
unfolding shift_bits
shift_bits-lt zero s h = h
shift_bits-lt (suc k) s h = shift_bits-lt k (shift_bit crc32 s) (shift_bit-lt s h)

pub crc_bytes-lt :
    (bs : List ℕ) (s : ℕ) → All (λ b. b < 256) bs → s < 2 ^ 32 → crc_bytes s bs < 2 ^ 32
unfolding crc_bytes
crc_bytes-lt [] s h lt = lt
crc_bytes-lt (b ∷ bs) s h lt =
    crc_bytes-lt bs _ h.1 (shift_bits-lt 8 (bit_xor s b) (xor-lt 32 s b lt (omega (arith, h.0))))

parity_cases : (d : ℕ) → (d % 2 ≡ 0) ⊎ (d % 2 ≡ 1)
parity_cases d = omega arith

xor-eq_zero : (a b : ℕ) → bit_xor a b ≡ 0 → a ≡ b
xor-eq_zero a b e = sym (xor-zero a) ∙ ap (bit_xor a) (sym e) ∙ xor_cancel a b

shift_bit-eq_zero : (d : ℕ) → d < 2 ^ 32 → shift_bit crc32 d ≡ 0 → d ≡ 0
unfolding shift_bit poly
shift_bit-eq_zero d lt e = elim (parity_cases d) [
  | inl even ↦ even_case even (rw even at e)
  | inr odd ↦ odd_case odd (rw odd at e)
]
  where
    even_case : d % 2 ≡ 0 → bit_xor (d / 2) 0 ≡ 0 → d ≡ 0
    even_case even e = omega (arith, xor-zero (d / 2))

    odd_case : d % 2 ≡ 1 → bit_xor (d / 2) 0xedb8_8320 ≡ 0 → d ≡ 0
    odd_case odd e = absurd (omega (arith, xor-eq_zero (d / 2) 0xedb8_8320 e))

shift_bit-injective :
    (s t : ℕ) → s < 2 ^ 32 → t < 2 ^ 32 → shift_bit crc32 s ≡ shift_bit crc32 t → s ≡ t
shift_bit-injective s t hs ht e = xor-eq_zero s t (
    shift_bit-eq_zero (bit_xor s t) (xor-lt 32 s t hs ht) (
      shift_bit-xor crc32 s t
      ∙ ap (λ x. bit_xor x (shift_bit crc32 t)) e
      ∙ xor_self (shift_bit crc32 t)))

shift_bits-injective :
    (k s t : ℕ) → s < 2 ^ 32 → t < 2 ^ 32 → shift_bits crc32 k s ≡ shift_bits crc32 k t → s ≡ t
unfolding shift_bits
shift_bits-injective zero s t hs ht e = e
shift_bits-injective (suc k) s t hs ht e =
    shift_bit-injective s t hs ht
      (shift_bits-injective k _ _ (shift_bit-lt s hs) (shift_bit-lt t ht) e)

crc_suffix-injective :
    (bs : List ℕ) (s t : ℕ)
    → All (λ b. b < 256) bs
    → s < 2 ^ 32
    → t < 2 ^ 32
    → crc_bytes s bs ≡ crc_bytes t bs
    → s ≡ t
unfolding crc_bytes
crc_suffix-injective [] s t h hs ht e = e
crc_suffix-injective (b ∷ bs) s t h hs ht e =
    let below : (r : ℕ) → r < 2 ^ 32 → bit_xor r b < 2 ^ 32 =
      λ r hr. xor-lt 32 r b hr (omega (arith, h.0)) in
    let same = shift_bits-injective 8 _ _ (below s hs) (below t ht) (
      crc_suffix-injective bs _ _ h.1 (shift_bits-lt 8 _ (below s hs))
        (shift_bits-lt 8 _ (below t ht)) e) in
    ground (arith, same, xor_comm s b, xor_comm t b, xor_cancel b s, xor_cancel b t)

-- The number whose bytes are the list.
word : List ℕ → ℕ
word [] = 0
word (b ∷ bs) = b + 256 * word bs

low_bytes-word : (bs : List ℕ) → All (λ b. b < 256) bs → low_bytes (length bs) (word bs) ≡ bs
unfolding word
low_bytes-word [] h = refl
low_bytes-word (b ∷ bs) h =
    let byte = h.0 in
    let low : (b + 256 * word bs) % 256 ≡ b = omega arith in
    let high : (b + 256 * word bs) / 256 ≡ word bs = omega arith in
    rw (low, high) (ap (◌∷◌ b) (low_bytes-word bs h.1))

word-lt : (bs : List ℕ) → All (λ b. b < 256) bs → word bs < 256 ^ length bs
unfolding word
word-lt [] h = omega arith
word-lt (b ∷ bs) h = omega (arith, word-lt bs h.1, pow-suc 256 (length bs), h.0)

shift_bytes-injective :
    (n s t : ℕ) → s < 2 ^ 32 → t < 2 ^ 32 → shift_bytes n s ≡ shift_bytes n t → s ≡ t
unfolding shift_bytes
shift_bytes-injective zero s t hs ht e = e
shift_bytes-injective (suc n) s t hs ht e =
    shift_bits-injective 8 s t hs ht
      (shift_bytes-injective n _ _ (shift_bits-lt 8 s hs) (shift_bits-lt 8 t ht) e)

crc_four :
    (s : ℕ) (xs : List ℕ)
    → All (λ b. b < 256) xs
    → length xs ≡ 4
    → (crc_bytes s xs ≡ shift_bytes 4 (bit_xor s (word xs)))
      × (low_bytes 4 (word xs) ≡ xs)
      × (word xs < 2 ^ 32)
crc_four s xs h l =
    let bytes : low_bytes 4 (word xs) ≡ xs =
      subst (λ n. low_bytes n (word xs) ≡ xs) l (low_bytes-word xs h) in
    let small : word xs < 256 ^ 4 = subst (λ n. word xs < 256 ^ n) l (word-lt xs h) in
    (ap (crc_bytes s) (sym bytes) ∙ crc_bytes-low_bytes 4 s (word xs) small, bytes, small)

-- Two frames that differ in at most four bytes in a row have different checksums.
pub crc_burst :
    (s : ℕ) (xs ys bs : List ℕ)
    → s < 2 ^ 32
    → All (λ b. b < 256) xs
    → All (λ b. b < 256) ys
    → All (λ b. b < 256) bs
    → length xs ≡ 4
    → length ys ≡ 4
    → crc_bytes s (xs ++ bs) ≡ crc_bytes s (ys ++ bs)
    → xs ≡ ys
crc_burst s xs ys bs hs hx hy hb lx ly e =
    let (rx, bx, wx) = crc_four s xs hx lx in
    let (ry, by, wy) = crc_four s ys hy ly in
    let registers =
      crc_suffix-injective bs _ _ hb (crc_bytes-lt xs s hx hs) (crc_bytes-lt ys s hy hs)
        (sym (crc_bytes-append xs bs s) ∙ e ∙ crc_bytes-append ys bs s) in
    let mixed =
      shift_bytes-injective 4 _ _ (xor-lt 32 s (word xs) hs wx) (xor-lt 32 s (word ys) hs wy)
        (sym rx ∙ registers ∙ ry) in
    let words = sym (xor_cancel s (word xs)) ∙ ap (bit_xor s) mixed ∙ xor_cancel s (word ys) in
    sym bx ∙ ap (low_bytes 4) words ∙ by
