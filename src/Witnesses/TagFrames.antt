-- ===== src/Witnesses/TagFrames.antt =====
-- Concrete frames and tables for the theorems of Rfid.
use infinity_station.Base.{
  ℕ, ◌≡◌, ◌≢◌, refl, ◌%◌, true, List, [], ◌∷◌, ◌++◌, arith, ◌==◌, if◌then◌else◌,
}
use infinity_station.Rfid.{Rfid61MData, Reader, byte_to_hex_str, parse_tag_data}
use infinity_station.Rfid.Checksum.{total}
use infinity_station.Rfid.Tags.{reply_body, parse_tag_data-reply}

abbrev junk : Rfid61MData
junk = record { reader_address = 7; status = 0; tag_id = [] }

abbrev code : List ℕ
code = 0xe2 ∷ 0 ∷ 0x47 ∷ 1 ∷ 2 ∷ 3 ∷ 4 ∷ 5 ∷ 6 ∷ 7 ∷ 8 ∷ 9 ∷ []

abbrev reply : List ℕ
reply = reply_body 3 17 0 0 1 code []

abbrev reader : Reader
reader = record { rfid_map = []; is_save_natural_data = true; connected = true }

abbrev rows : List (List (List ℕ))
rows =
    ((1 ∷ []) ∷ (2 ∷ []) ∷ (3 ∷ []) ∷ [])
    ∷ ((4 ∷ []) ∷ [])
    ∷ ((5 ∷ []) ∷ (6 ∷ []) ∷ (3 ∷ []) ∷ [])
    ∷ []

parse_tag_data-reply_example : parse_tag_data junk (reply ++ 0x7c ∷ []) ≡ record {
  reader_address = 3;
  status = 0;
  tag_id = if total (reply ++ 0x7c ∷ []) % 256 == 0 then byte_to_hex_str code else [];
}
parse_tag_data-reply_example =
    parse_tag_data-reply junk 3 17 0 0 1 0x7c code [] refl refl (omega arith)

odd : total (reply ++ 0 ∷ []) % 256 ≢ 0
unfolding total
odd = omega arith
