-- ===== src/Rfid.antt =====
-- kits/thrid_devices/rfid_recv_kits/RfidVFR61M/RfidVFR61M.cpp: the frames exchanged with the tag
-- reader. The socket, the timer and the reading of the file are left out: what the class sends or
-- emits is the list of its outputs, in order. Texts are the lists of their bytes.
pub mod Checksum
pub mod Hex
pub mod Tags
pub mod Rows
use infinity_station.Base.Text.{same_text}
use infinity_station.Base.{
  ℕ, zero, suc, ◌+◌, ◌-◌, ◌*◌, ◌/◌, ◌%◌, ◌^◌, ◌<◌, Bool, true, false, not, ◌&&◌, ◌||◌,
}
use infinity_station.Base.{
  List, [], ◌∷◌, ◌++◌, length, take, drop, get_or, Option, none, some, get_elem?,
}
use infinity_station.Base.{◌==◌, ltb, leb, if◌then◌else◌}

-- `checksum += data[i]` in a uint8_t, `left` rounds from index `i` on.
unfoldable pub checksum_loop : ℕ → ℕ → ℕ → List ℕ → ℕ
checksum_loop zero i checksum bytes = checksum
checksum_loop (suc left) i checksum bytes =
    checksum_loop left (i + 1) ((checksum + get_or bytes i 0) % 256) bytes

-- `(~checksum + 1) & 0xFF`
unfoldable pub calculate_checksum : List ℕ → ℕ → ℕ
unfolding checksum_loop
calculate_checksum bytes len = (255 - checksum_loop len 0 0 bytes + 1) % 256

unfoldable pub command_frame : ℕ → ℕ → ℕ → List ℕ
unfolding calculate_checksum
command_frame command parameter reader_address =
    let frame = 0x0a ∷ reader_address ∷ 0x03 ∷ command ∷ parameter ∷ [] in
    frame ++ calculate_checksum frame (length frame) ∷ []

-- The char of a half byte.
unfoldable pub hex_digit : ℕ → ℕ
hex_digit v = if leb v 9 then 48 + v else 55 + v

unfoldable pub byte_to_hex_str : List ℕ → List ℕ
unfolding hex_digit
byte_to_hex_str [] = []
byte_to_hex_str (b ∷ bs) = hex_digit (b / 16) ∷ hex_digit (b % 16) ∷ byte_to_hex_str bs

-- The fields of Rfid61MData that are written.
pub record Rfid61MData : Type 0 where
  pub reader_address : ℕ
  pub status : ℕ
  pub tag_id : List ℕ

-- The checks from the number of tags on; `back` is the last byte.
unfoldable pub parse_groups : ℕ → List ℕ → List ℕ
unfolding calculate_checksum byte_to_hex_str
parse_groups tag_count bytes =
    if tag_count == 0 || not (length bytes == 6 + tag_count * 13 + 1)
    then []
    else (let tag_id = byte_to_hex_str (take 12 (drop 7 bytes)) in
        if calculate_checksum bytes (length bytes - 1) == get_or bytes (length bytes - 1) 0
        then tag_id
        else [])

-- `junk` is what the fields that are never initialised hold.
unfoldable pub parse_tag_data : Rfid61MData → List ℕ → Rfid61MData
unfolding parse_groups
parse_tag_data junk bytes =
    if ltb (length bytes) 8 || not (get_or bytes 0 0 == 0x0b)
    then record junk { tag_id = [] }
    else record {
      reader_address = get_or bytes 1 0;
      status = get_or bytes 3 0;
      tag_id = if get_or bytes 3 0 == 0 then parse_groups (get_or bytes 4 0) bytes else [];
    }

-- What `rfid_data_trans` fills: the tag, the pole and the station, each cut by `strncpy` to the
-- width of its buffer less one.
pub record RfidData : Type 0 where
  pub str_item : List ℕ
  pub str_pole : List ℕ
  pub str_station : List ℕ

unfoldable pub c_str : List ℕ → List ℕ
c_str [] = []
c_str (b ∷ bs) = let rest = c_str bs in if b == 0 then [] else b ∷ rest

unfoldable pub column : ℕ → ℕ → List (List ℕ) → List ℕ
unfolding c_str
column width n row = take (width - 1) (c_str (get_or row n []))

unfoldable pub rfid_data_trans : List (List ℕ) → RfidData
unfolding column
rfid_data_trans row = record {
  str_item = column 32 2 row;
  str_pole = column 32 3 row;
  str_station = column 32 6 row;
}

-- What the class sends to the reader, or emits.
pub data Output : Type 0 where
  send_data : List ℕ → Output
  send_out_data : List ℕ → Output
  send_rfid_natural_data : List ℕ → List ℕ → Output
  send_rfid_back_check_data : RfidData → Output

-- The hash map from a tag to its row.
unfoldable pub find_row : List ℕ → List (List ℕ × List (List ℕ)) → Option (List (List ℕ))
unfolding same_text
find_row key [] = none
find_row key ((k, row) ∷ rest) =
    let further = find_row key rest in if same_text key k then some row else further

-- `resultMap[key] = row`
unfoldable pub assign_row :
    List ℕ → List (List ℕ) → List (List ℕ × List (List ℕ)) → List (List ℕ × List (List ℕ))
unfolding same_text
assign_row key row [] = (key, row) ∷ []
assign_row key row ((k, old) ∷ rest) =
    let further = assign_row key row rest in
    if same_text key k then (k, row) ∷ rest else (k, old) ∷ further

unfoldable pub add_rows :
    ℕ → List (List (List ℕ)) → List (List ℕ × List (List ℕ)) → List (List ℕ × List (List ℕ))
unfolding assign_row
add_rows key_column [] result_map = result_map
add_rows key_column (row ∷ rows) result_map = add_rows key_column rows (
    if leb (length row) key_column
    then result_map
    else assign_row (get_or row key_column []) row result_map)

unfoldable pub list_data_to_unordered_map : List (List (List ℕ)) → ℕ → List (List ℕ × List (List ℕ))
unfolding add_rows
list_data_to_unordered_map csv_data key_column = add_rows key_column csv_data []

-- What the handlers read of the object.
pub record Reader : Type 0 where
  pub rfid_map : List (List ℕ × List (List ℕ))
  pub is_save_natural_data : Bool
  pub connected : Bool

unfoldable pub send_command_frame : ℕ → ℕ → Reader → List Output
unfolding command_frame
send_command_frame command parameter r =
    if r.connected then send_data (command_frame command parameter 0x03) ∷ [] else []

unfoldable pub handle_inventory_response : List ℕ → Reader → List Output
unfolding send_command_frame
handle_inventory_response bytes r =
    if ltb (length bytes) 7
    then []
    else (let tag_count =
          get_or bytes (length bytes - 3) 0 * 2 ^ 8 + get_or bytes (length bytes - 2) 0 in
        if ltb 0 tag_count then send_command_frame 0x41 0x01 r else send_command_frame 0x44 0x00 r)

-- `handleTagDataResponse` behind the parsing.
unfoldable pub emit_result : Rfid61MData → List ℕ → Reader → List Output
unfolding find_row rfid_data_trans
emit_result result bytes r =
    if not (result.status == 0)
    then []
    else send_out_data result.tag_id
        ∷ (if r.is_save_natural_data then send_rfid_natural_data bytes result.tag_id ∷ [] else [])
      ++ elim (find_row result.tag_id r.rfid_map) [
        | none ↦ []
        | some row ↦ send_rfid_back_check_data (rfid_data_trans row) ∷ []
      ]

unfoldable pub handle_tag_data_response : Rfid61MData → List ℕ → Reader → List Output
unfolding parse_tag_data emit_result
handle_tag_data_response junk bytes r = emit_result (parse_tag_data junk bytes) bytes r

-- The task that `OnrecvData` runs; `none` is a read past the end of the bytes.
unfoldable pub on_recv_data : Rfid61MData → List ℕ → Reader → Option (List Output)
unfolding handle_inventory_response handle_tag_data_response
on_recv_data junk bytes r = elim (get_elem? bytes 2) [
  | none ↦ none
  | some len ↦ some (
      if len == 0x04
      then handle_inventory_response bytes r
      else (if len == 0x11 then handle_tag_data_response junk bytes r else []))
]
