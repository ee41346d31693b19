-- ===== src/Mvb/Fcs/Detection.antt =====
-- What a receiver of `calcFCS32` detects, for the checksum of a whole frame.
use infinity_station.Base.{ℕ, zero, suc, ◌/◌, bit_xor, List, [], ◌∷◌, ◌++◌, ◌≡◌, refl, sym, ap, ◌∙◌}
use infinity_station.Base.{some, arith, All, All-append, length, take, le→ltb}
use infinity_station.Base.Bits.Xor.{xor_comm, xor_cancel}
use infinity_station.Mvb.Frame.{IsByte}
use infinity_station.Mvb.Fcs.{calc_fcs32}
use infinity_station.Mvb.Fcs.Bitwise.{crc_bytes, calc_fcs32-crc}
use infinity_station.Mvb.Fcs.Residue.{
  low_bytes, crc_residue, crc_burst, crc_bytes-append, crc_bytes-lt,
}

take-length {ℓ} : {A : Type ℓ} (xs : List A) → take (length xs) xs ≡ xs
take-length [] = refl
take-length (x ∷ xs) = ap (◌∷◌ x) (take-length xs)

-- The checksum of a whole frame.
calc_fcs32-whole :
    (frame : List ℕ)
    → All IsByte frame
    → calc_fcs32 (length frame) 0xffff_ffff frame
      ≡ some (bit_xor (crc_bytes 0xffff_ffff frame) 0xffff_ffff)
calc_fcs32-whole frame h =
    rw
      (
        calc_fcs32-crc (length frame) 0xffff_ffff frame h,
        le→ltb (length frame) (length frame) (omega arith),
      )
      (rw (take-length frame))

low_bytes-IsByte : (n v : ℕ) → All IsByte (low_bytes n v)
low_bytes-IsByte zero v = omega arith
low_bytes-IsByte (suc n) v = (omega arith, low_bytes-IsByte n (v / 256))

unfoldable complement : ℕ → ℕ
complement r = bit_xor r 0xffff_ffff

complement-injective : (a b : ℕ) → complement a ≡ complement b → a ≡ b
unfolding complement
complement-injective a b e = ground (
  arith,
  e,
  xor_comm a 0xffff_ffff,
  xor_comm b 0xffff_ffff,
  xor_cancel 0xffff_ffff a,
  xor_cancel 0xffff_ffff b,
)

-- A frame of bytes followed by its own checksum, lowest byte first, always has the checksum
-- 0x2144df1c.
pub calc_fcs32_residue :
    (frame : List ℕ) (sum : ℕ)
    → All IsByte frame
    → calc_fcs32 (length frame) 0xffff_ffff frame ≡ some sum
    → calc_fcs32 (length (frame ++ low_bytes 4 sum)) 0xffff_ffff (frame ++ low_bytes 4 sum)
      ≡ some 0x2144_df1c
calc_fcs32_residue frame sum h e =
    let own : sum ≡ bit_xor (crc_bytes 0xffff_ffff frame) 0xffff_ffff =
      cc (calc_fcs32-whole frame h) in
    calc_fcs32-whole (frame ++ low_bytes 4 sum)
      (All-append IsByte frame (low_bytes 4 sum) h (low_bytes-IsByte 4 sum))
    ∙ ap (λ v. some (bit_xor (crc_bytes 0xffff_ffff (frame ++ low_bytes 4 v)) 0xffff_ffff)) own
    ∙ ap (λ r. some (bit_xor r 0xffff_ffff))
        (crc_residue frame (crc_bytes-lt frame 0xffff_ffff h (omega arith)))

-- Two frames of bytes that differ at most in the same four bytes in a row have the same checksum
-- only if they are equal.
pub calc_fcs32_burst :
    (front xs ys back : List ℕ)
    → All IsByte front
    → All IsByte xs
    → All IsByte ys
    → All IsByte back
    → length xs ≡ 4
    → length ys ≡ 4
    → calc_fcs32 (length (front ++ (xs ++ back))) 0xffff_ffff (front ++ (xs ++ back))
      ≡ calc_fcs32 (length (front ++ (ys ++ back))) 0xffff_ffff (front ++ (ys ++ back))
    → xs ≡ ys
unfolding complement
calc_fcs32_burst front xs ys back hf hx hy hb lx ly e =
    crc_burst (crc_bytes 0xffff_ffff front) xs ys back
      (crc_bytes-lt front 0xffff_ffff hf (omega arith)) hx hy hb lx ly
      (sym (crc_bytes-append front (xs ++ back) 0xffff_ffff)
        ∙ complement-injective _ _ (cc (whole xs hx, whole ys hy))
        ∙ crc_bytes-append front (ys ++ back) 0xffff_ffff)
  where
    whole :
        (zs : List ℕ)
        → All IsByte zs
        → calc_fcs32 (length (front ++ (zs ++ back))) 0xffff_ffff (front ++ (zs ++ back))
          ≡ some (complement (crc_bytes 0xffff_ffff (front ++ (zs ++ back))))
    whole zs hz =
        calc_fcs32-whole (front ++ (zs ++ back))
          (All-append IsByte front (zs ++ back) hf (All-append IsByte zs back hz hb))
