-- ===== src/Mvb/Parse/Words.antt =====
-- The numbers of a received frame: the highest byte comes first.
use infinity_station.Base.{
  ℕ, zero, suc, ◌+◌, ◌-◌, ◌*◌, ◌/◌, ◌%◌, ◌^◌, ◌≤◌, ◌<◌, bit_or, false, List, [], ◌∷◌, ◌≡◌, refl, ap,
  ◌∙◌,
}
use infinity_station.Base.{
  none, some, ltb, length, take, drop, get_or, All, All-get_or, drop-cons, arith,
}
use infinity_station.Base.{
  Bool-cases, inl, inr, subst, get_elem?-eq-get_or, get_elem?-none, length-drop, le→ltb,
}
use Prim.Native.Nat.{bit_or-bitwise}
use native.Mathlib.Nat.{pow-suc}
use native.Mathlib.Decide.{dec_lt}
use infinity_station.Base.Order.{halving}
use infinity_station.Base.Bits.{bit_or_step}
use infinity_station.Mvb.Frame.{IsByte, set_value}
use infinity_station.Mvb.Frame.Bytes.{byte_of, set_value_inside, length-set_value, set_value-IsByte}
use infinity_station.Mvb.Parse.{substr, convert_loop, convert_string, number_at}

zero-or : (b : ℕ) → bit_or 0 b ≡ b
zero-or b = bit_or-bitwise 0 b

or-zero : (a : ℕ) → bit_or a 0 ≡ a
or-zero = halving _ refl λ n half. omega (arith, bit_or_step (suc n) 0, half)

-- Two numbers with no digit in common: `|` is `+`.
or_fields : (k q r : ℕ) → r < 2 ^ k → bit_or (q * 2 ^ k) r ≡ q * 2 ^ k + r
or_fields zero q r fits = ground (arith, or-zero q)
or_fields (suc k) q r fits = ground (
  arith,
  bit_or_step (q * 2 ^ suc k) r,
  ap (λ (t : ℕ). q * t) (pow-suc 2 k),
  pow-suc 2 k,
  or_fields k q (r / 2) (omega (arith, pow-suc 2 k)),
)

pub or_two :
    (a b : ℕ)
    → a < 256
    → b < 256
    → bit_or (bit_or 0 (a * 256) % 65536) (b * 1) % 65536 ≡ a * 256 + b
or_two a b ha hb =
    let first : bit_or 0 (a * 256) % 65536 ≡ a * 2 ^ 8 = omega (arith, zero-or (a * 256)) in
    ap (λ w. bit_or w (b * 1) % 65536) first ∙ omega (arith, or_fields 8 a (b * 1) (omega arith))

convert_two :
    (a b : ℕ) (rest : List ℕ)
    → IsByte a
    → IsByte b
    → convert_string 2 (a ∷ b ∷ rest) ≡ some (a * 256 + b)
unfolding convert_string convert_loop
convert_two a b rest ha hb = ap some (or_two a b ha hb)

convert_four :
    (a b c d : ℕ) (rest : List ℕ)
    → IsByte a
    → IsByte b
    → IsByte c
    → IsByte d
    → convert_string 4 (a ∷ b ∷ c ∷ d ∷ rest) ≡ some (((a * 256 + b) * 256 + c) * 256 + d)
unfolding convert_string convert_loop
convert_four a b c d rest ha hb hc hd =
    let first : bit_or 0 (a * 0x100_0000) % 0x1_0000_0000 ≡ a * 2 ^ 24 =
      omega (arith, zero-or (a * 0x100_0000)) in
    let second : bit_or (a * 2 ^ 24) (b * 0x1_0000) % 0x1_0000_0000 ≡ (a * 256 + b) * 2 ^ 16 =
      omega (arith, or_fields 24 a (b * 0x1_0000) (omega arith)) in
    let third : bit_or ((a * 256 + b) * 2 ^ 16) (c * 256) % 0x1_0000_0000
        ≡ ((a * 256 + b) * 256 + c) * 2 ^ 8 =
      omega (arith, or_fields 16 (a * 256 + b) (c * 256) (omega arith)) in
    let step = λ (k w : ℕ). bit_or w k % 0x1_0000_0000 in
    ap (λ w. some (step (d * 1) (step (c * 256) (step (b * 0x1_0000) w)))) first
    ∙ ap (λ w. some (step (d * 1) (step (c * 256) w))) second
    ∙ ap (λ w. some (step (d * 1) w)) third
    ∙ ap some (omega (arith, or_fields 8 ((a * 256 + b) * 256 + c) (d * 1) (omega arith)))

convert_loop-short :
    (left i size r : ℕ) (value : List ℕ)
    → i ≤ length value
    → length value < i + left
    → convert_loop left i size r value ≡ none
unfolding convert_loop
convert_loop-short zero i size r value le short = absurd (omega arith)
convert_loop-short (suc left) i size r value le short = elim (dec_lt i (length value)) [
  | yes inside ↦
      rw (get_elem?-eq-get_or value i 0 inside)
        (convert_loop-short left (i + 1) size _ value (omega arith) (omega arith))
  | no past ↦ rw (get_elem?-none value i (omega arith))
]

length-take-le : (n : ℕ) (xs : List ℕ) → length (take n xs) ≤ length xs
length-take-le zero xs = omega arith
length-take-le (suc n) [] = omega arith
length-take-le (suc n) (x ∷ xs) = omega (arith, length-take-le n xs)

-- A number that does not lie wholly inside the frame throws.
pub number_at-short :
    (size pos : ℕ) (bytes : List ℕ) → length bytes < pos + size → number_at size pos bytes ≡ none
unfolding number_at substr convert_string
number_at-short size pos bytes short = elim (Bool-cases (ltb (length bytes) pos)) [
  | inl past ↦ rw past
  | inr inside ↦ rw inside (
      convert_loop-short size 0 size 0 (take size (drop pos bytes)) (omega arith) (
        omega (
          arith,
          length-take-le size (drop pos bytes),
          length-drop pos bytes (ground (arith, inside)),
        )))
]

module _ (pos : ℕ) (bytes : List ℕ) (small : All IsByte bytes) where
  at : (i : ℕ) → i < length bytes → IsByte (get_or bytes i 0)
  at i lt = All-get_or IsByte bytes i 0 small lt

  -- Two bytes inside the frame, the higher first.
  pub number_at-two :
      pos + 2 ≤ length bytes
      → number_at 2 pos bytes ≡ some (get_or bytes pos 0 * 256 + get_or bytes (suc pos) 0)
  unfolding number_at substr
  number_at-two fits =
      rw
        (
          le→ltb (length bytes) pos (omega arith),
          drop-cons bytes pos 0 (omega arith),
          drop-cons bytes (suc pos) 0 (omega arith),
        )
        (convert_two _ _ [] (at pos (omega arith)) (at (suc pos) (omega arith)))

  -- Four bytes inside the frame, the highest first.
  pub number_at-four :
      pos + 4 ≤ length bytes
      → number_at 4 pos bytes
        ≡ some (
            ((get_or bytes pos 0 * 256 + get_or bytes (suc pos) 0) * 256
                + get_or bytes (suc (suc pos)) 0)
              * 256
            + get_or bytes (suc (suc (suc pos))) 0)
  unfolding number_at substr
  number_at-four fits =
      rw
        (
          le→ltb (length bytes) pos (omega arith),
          drop-cons bytes pos 0 (omega arith),
          drop-cons bytes (suc pos) 0 (omega arith),
          drop-cons bytes (suc (suc pos)) 0 (omega arith),
          drop-cons bytes (suc (suc (suc pos))) 0 (omega arith),
        )
        (convert_four _ _ _ _ [] (at pos (omega arith)) (at (suc pos) (omega arith))
          (at (suc (suc pos)) (omega arith)) (at (suc (suc (suc pos))) (omega arith)))

module _ (pos value : ℕ) (frame : List ℕ) (small : All IsByte frame) where
  abbrev written : ℕ → List ℕ
  written size = set_value size pos size value false frame

  -- Byte `i` of the value, by its position.
  byte_at :
      (size i p : ℕ)
      → pos + size ≤ length frame
      → i < size
      → pos + (size - i - 1) ≡ p
      → get_or (written size) p 0 ≡ byte_of value i
  byte_at size i p fits lt e =
      subst (λ p. get_or (written size) p 0 ≡ byte_of value i) e
        (set_value_inside size pos value frame fits false i lt)

  length-written : (size : ℕ) → length (written size) ≡ length frame
  length-written size = length-set_value size pos size value false frame

  -- A number that `set_value` writes on a little-endian host to two bytes inside a frame of bytes
  -- is read back by the parser, cut to 16 digits.
  pub number_at-set_value_two :
      pos + 2 ≤ length frame
      → number_at 2 pos (set_value 2 pos 2 value false frame) ≡ some (value % 2 ^ 16)
  number_at-set_value_two fits =
      number_at-two pos (written 2) (set_value-IsByte 2 pos 2 value false frame small)
        (omega (arith, length-written 2))
      ∙ ap some (
          omega (
            arith,
            byte_at 2 1 pos fits (omega arith) (omega arith),
            byte_at 2 0 (suc pos) fits (omega arith) (omega arith),
          ))

  -- A number that `set_value` writes on a little-endian host to four bytes inside a frame of
  -- bytes is read back by the parser, cut to 32 digits.
  pub number_at-set_value_four :
      pos + 4 ≤ length frame
      → number_at 4 pos (set_value 4 pos 4 value false frame) ≡ some (value % 2 ^ 32)
  number_at-set_value_four fits =
      number_at-four pos (written 4) (set_value-IsByte 4 pos 4 value false frame small)
        (omega (arith, length-written 4))
      ∙ ap some (
          omega (
            arith,
            byte_at 4 3 pos fits (omega arith) (omega arith),
            byte_at 4 2 (suc pos) fits (omega arith) (omega arith),
            byte_at 4 1 (suc (suc pos)) fits (omega arith) (omega arith),
            byte_at 4 0 (suc (suc (suc pos))) fits (omega arith) (omega arith),
          ))
