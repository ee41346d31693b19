-- ===== src/Rfid/Hex.antt =====
-- The text of a tag.
use infinity_station.Base.{ℕ, ◌*◌, ◌/◌, ◌%◌, ◌<◌, List, [], ◌∷◌, ◌≡◌, refl, ap₂, arith}
use infinity_station.Base.{length, All}
use infinity_station.Rfid.{hex_digit, byte_to_hex_str}
use mathlib.Core.List.{head-eq_of_cons-eq, tail-eq_of_cons-eq, nil≢cons, cons≢nil}

hex_digit-injective : (v w : ℕ) → v < 16 → w < 16 → hex_digit v ≡ hex_digit w → v ≡ w
unfolding hex_digit
hex_digit-injective v w lv lw e = ground arith

-- Two lists of bytes with the same text are the same.
pub byte_to_hex_str-injective :
    (xs ys : List ℕ)
    → All (λ b. b < 256) xs
    → All (λ b. b < 256) ys
    → byte_to_hex_str xs ≡ byte_to_hex_str ys
    → xs ≡ ys
unfolding byte_to_hex_str
byte_to_hex_str-injective [] [] hx hy e = refl
byte_to_hex_str-injective [] (y ∷ ys) hx hy e = absurd (nil≢cons e)
byte_to_hex_str-injective (x ∷ xs) [] hx hy e = absurd (cons≢nil e)
byte_to_hex_str-injective (x ∷ xs) (y ∷ ys) hx hy e =
    let bx = hx.0 in
    let by = hy.0 in
    let behind = tail-eq_of_cons-eq e in
    let high =
      hex_digit-injective (x / 16) (y / 16) (omega arith) (omega arith) (head-eq_of_cons-eq e) in
    let low =
      hex_digit-injective (x % 16) (y % 16) (omega arith) (omega arith)
        (head-eq_of_cons-eq behind) in
    ap₂ ◌∷◌ (omega (arith, high, low))
      (byte_to_hex_str-injective xs ys hx.1 hy.1 (tail-eq_of_cons-eq behind))

pub length-byte_to_hex_str : (xs : List ℕ) → length (byte_to_hex_str xs) ≡ 2 * length xs
unfolding byte_to_hex_str
length-byte_to_hex_str [] = refl
length-byte_to_hex_str (x ∷ xs) = omega (arith, length-byte_to_hex_str xs)
