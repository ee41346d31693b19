-- ===== src/Rfid/Checksum.antt =====
-- The checksum of the tag reader's frames.
use infinity_station.Base.{
  ℕ, zero, suc, ◌+◌, ◌-◌, ◌%◌, ◌<◌, List, [], ◌∷◌, ◌++◌, ◌≡◌, refl, ap, ◌∙◌,
}
use infinity_station.Base.{arith, length, get_or, drop, ◌↔◌}
use native.Mathlib.Numerals.{add-one}
use infinity_station.Rfid.{checksum_loop, calculate_checksum, command_frame}

unfoldable pub total : List ℕ → ℕ
total [] = 0
total (b ∷ bs) = b + total bs

pub total-append : (xs ys : List ℕ) → total (xs ++ ys) ≡ total xs + total ys
unfolding total
total-append [] ys = omega arith
total-append (x ∷ xs) ys = omega (arith, total-append xs ys)

-- The sum of the first `n`.
unfoldable pub total_first : ℕ → List ℕ → ℕ
total_first zero bs = 0
total_first (suc n) [] = 0
total_first (suc n) (b ∷ bs) = b + total_first n bs

total_first-nil : (n : ℕ) → total_first n [] ≡ 0
unfolding total_first
total_first-nil zero = refl
total_first-nil (suc n) = refl

total_first-drop :
    (n i : ℕ) (bs : List ℕ)
    → total_first (suc n) (drop i bs) ≡ get_or bs i 0 + total_first n (drop (suc i) bs)
unfolding total_first
total_first-drop n zero [] = omega (arith, total_first-nil n)
total_first-drop n (suc i) [] = omega (arith, total_first-nil n)
total_first-drop n zero (b ∷ bs) = refl
total_first-drop n (suc i) (b ∷ bs) = total_first-drop n i bs

loop_lem :
    (left i s : ℕ) (bytes : List ℕ)
    → checksum_loop left i (s % 256) bytes ≡ (s + total_first left (drop i bytes)) % 256
unfolding checksum_loop total_first
loop_lem zero i s bytes = omega arith
loop_lem (suc left) i s bytes =
    let once : (s % 256 + get_or bytes i 0) % 256 ≡ (s + get_or bytes i 0) % 256 = omega arith in
    rw (once, add-one)
      (loop_lem left (suc i) (s + get_or bytes i 0) bytes
        ∙ omega (arith, total_first-drop left i bytes))

pub first_of : (bs : List ℕ) (b : ℕ) → total_first (length bs) (bs ++ b ∷ []) ≡ total bs
unfolding total_first total
first_of [] b = refl
first_of (x ∷ bs) b = ap (λ t. x + t) (first_of bs b)

-- The checksum is the complement of the sum of the bytes it covers, modulo 256.
pub calculate_checksum_lem :
    (len : ℕ) (bytes : List ℕ)
    → calculate_checksum bytes len ≡ (256 - total_first len bytes % 256) % 256
unfolding calculate_checksum
calculate_checksum_lem len bytes = omega (arith, loop_lem len 0 0 bytes)

-- A frame whose last byte is below 256 passes the check of the receiver exactly if the sum of all
-- its bytes is 0 modulo 256.
pub calculate_checksum_iff :
    (body : List ℕ) (check : ℕ)
    → check < 256
    → (calculate_checksum (body ++ check ∷ []) (length body) ≡ check)
      ↔ (total (body ++ check ∷ []) % 256 ≡ 0)
unfolding total
calculate_checksum_iff body check byte =
    let sum =
      calculate_checksum_lem (length body) (body ++ check ∷ [])
      ∙ ap (λ t. (256 - t % 256) % 256) (first_of body check) in
    let whole = total-append body (check ∷ []) in
    (λ e. omega (arith, sum, whole, e), λ e. omega (arith, sum, whole, e))

-- The bytes of every command frame, with its checksum, sum up to 0 modulo 256.
pub command_frame-total :
    (command parameter reader_address : ℕ)
    → total (command_frame command parameter reader_address) % 256 ≡ 0
unfolding command_frame total total_first
command_frame-total command parameter reader_address =
    omega
      (arith, calculate_checksum_lem 5 (0x0a ∷ reader_address ∷ 0x03 ∷ command ∷ parameter ∷ []))
