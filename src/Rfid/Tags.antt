-- ===== src/Rfid/Tags.antt =====
-- The replies of the reader with tag data: what `parseTagData` accepts and what is emitted.
use infinity_station.Base.{
  ℕ, zero, suc, ◌+◌, ◌-◌, ◌*◌, ◌%◌, ◌<◌, Bool, true, false, not, ◌||◌, List, [], ◌∷◌, ◌++◌,
}
use infinity_station.Base.{
  ◌≡◌, ◌≢◌, refl, ap, ◌∙◌, arith, length, length-append, take, drop, get_or, none, some,
}
use infinity_station.Base.{◌==◌, ==_iff, ltb, if◌then◌else◌, le→ltb}
use mathlib.Core.List.{append_assoc}
use infinity_station.Rfid.{
  Rfid61MData, Reader, Output, calculate_checksum, byte_to_hex_str, parse_groups, parse_tag_data,
  handle_tag_data_response, emit_result, send_out_data, send_rfid_natural_data,
  send_rfid_back_check_data, find_row, rfid_data_trans,
}
use infinity_station.Rfid.Checksum.{total, calculate_checksum_iff}

-- What is emitted for a tag.
abbrev pub emitted : List ℕ → List ℕ → Reader → List Output
emitted tag_id bytes r =
    send_out_data tag_id
      ∷ (if r.is_save_natural_data then send_rfid_natural_data bytes tag_id ∷ [] else [])
    ++ elim (find_row tag_id r.rfid_map) [
      | none ↦ []
      | some row ↦ send_rfid_back_check_data (rfid_data_trans row) ∷ []
    ]

take-append : (n : ℕ) (xs ys : List ℕ) → length xs ≡ n → take n (xs ++ ys) ≡ xs
take-append zero [] ys e = refl
take-append zero (x ∷ xs) ys e = absurd (omega arith)
take-append (suc n) [] ys e = absurd (omega arith)
take-append (suc n) (x ∷ xs) ys e = ap (◌∷◌ x) (take-append n xs ys (omega arith))

get_or-last : (xs : List ℕ) (b : ℕ) → get_or (xs ++ b ∷ []) (length xs) 0 ≡ b
get_or-last [] b = refl
get_or-last (x ∷ xs) b = get_or-last xs b

parse_groups_lem :
    (more : ℕ) (bytes text : List ℕ) (passes : Bool)
    → length bytes ≡ 6 + suc more * 13 + 1
    → byte_to_hex_str (take 12 (drop 7 bytes)) ≡ text
    → (calculate_checksum bytes (length bytes - 1) == get_or bytes (length bytes - 1) 0) ≡ passes
    → parse_groups (suc more) bytes ≡ (if passes then text else [])
unfolding parse_groups
parse_groups_lem more bytes text passes count e check =
    let exact : (length bytes == 6 + suc more * 13 + 1) ≡ true = (==_iff _ _).1 count in
    rw (exact, check, e) (ground arith)

-- A reply of `suc more` tags, of which the first has the given antenna and code.
abbrev pub reply_body : ℕ → ℕ → ℕ → ℕ → ℕ → List ℕ → List ℕ → List ℕ
reply_body reader len more port antenna epc others =
    0x0b ∷ reader ∷ len ∷ 0 ∷ suc more ∷ port ∷ antenna ∷ epc ++ others

module _ (junk : Rfid61MData) (reader len more port antenna check : ℕ) (epc others : List ℕ)
    (twelve : length epc ≡ 12) (fits : length others ≡ 13 * more) (byte : check < 256) where
  abbrev body : List ℕ
  body = reply_body reader len more port antenna epc others

  length-body : length body ≡ 7 + 12 + 13 * more
  length-body = omega (arith, length-append epc others)

  length-reply : length (body ++ check ∷ []) ≡ suc (length body)
  length-reply = omega (arith, length-append body (check ∷ []))

  accepted :
      (calculate_checksum (body ++ check ∷ []) (length body) == check)
      ≡ (total (body ++ check ∷ []) % 256 == 0)
  accepted = ground (arith, calculate_checksum_iff body check byte)

  groups :
      parse_groups (suc more) (body ++ check ∷ [])
      ≡ (if total (body ++ check ∷ []) % 256 == 0 then byte_to_hex_str epc else [])
  groups =
      parse_groups_lem more (body ++ check ∷ []) (byte_to_hex_str epc) _
        (omega (arith, length-reply, length-body))
        (ap byte_to_hex_str (
          ap (take 12) (append_assoc epc others (check ∷ []))
          ∙ take-append 12 epc (others ++ check ∷ []) twelve))
        (ap (λ n. calculate_checksum (body ++ check ∷ []) n == get_or (body ++ check ∷ []) n 0)
            before
          ∙ ap (λ b. calculate_checksum (body ++ check ∷ []) (length body) == b)
              (get_or-last body check)
          ∙ accepted)
    where
      before : length (body ++ check ∷ []) - 1 ≡ length body
      before = omega (arith, length-reply)

  -- A reply with head 0x0b, status 0, one tag or more, 13 bytes for each tag and a last byte
  -- yields the code of its first tag as text if all its bytes sum up to 0 modulo 256, and the
  -- empty text if they do not; the status is 0 in both cases.
  pub parse_tag_data-reply : parse_tag_data junk (body ++ check ∷ []) ≡ record {
    reader_address = reader;
    status = 0;
    tag_id = if total (body ++ check ∷ []) % 256 == 0 then byte_to_hex_str epc else [];
  }
  unfolding parse_tag_data
  parse_tag_data-reply =
      rw (le→ltb (length (body ++ check ∷ [])) 8 (omega (arith, length-reply, length-body)), groups)

  -- A reply with head 0x0b, status 0, one tag or more, 13 bytes for each tag and a last byte is
  -- emitted even if its bytes do not sum up to 0 modulo 256, as a tag with the empty text.
  pub handle_tag_data_response-corrupt :
      (r : Reader)
      → total (body ++ check ∷ []) % 256 ≢ 0
      → handle_tag_data_response junk (body ++ check ∷ []) r ≡ emitted [] (body ++ check ∷ []) r
  unfolding handle_tag_data_response emit_result
  handle_tag_data_response-corrupt r odd =
      let fails : (total (body ++ check ∷ []) % 256 == 0) ≡ false = ground arith in
      ap (λ result. emit_result result (body ++ check ∷ []) r)
        (parse_tag_data-reply
          ∙ ap
              (λ ok. record {
                reader_address = reader;
                status = 0;
                tag_id = if ok then byte_to_hex_str epc else [];
              })
              fails)

-- What is emitted for a frame that is too short or has another head depends on the uninitialised
-- status only: nothing if it is not 0, and a tag with the empty text if it is 0.
pub handle_tag_data_response-invalid :
    (junk : Rfid61MData) (bytes : List ℕ) (r : Reader)
    → (ltb (length bytes) 8 || not (get_or bytes 0 0 == 0x0b)) ≡ true
    → handle_tag_data_response junk bytes r ≡ (if junk.status == 0 then emitted [] bytes r else [])
unfolding handle_tag_data_response parse_tag_data emit_result
handle_tag_data_response-invalid junk bytes r bad = rw bad (ground arith)
