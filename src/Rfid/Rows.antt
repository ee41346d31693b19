-- ===== src/Rfid/Rows.antt =====
-- The table from tags to rows that `ListDataTOUnorderedMap` builds.
use infinity_station.Base.{
  ℕ, Bool, true, false, List, [], ◌∷◌, Option, none, some, ◌≡◌, refl, sym, ap, ◌∙◌,
}
use infinity_station.Base.{length, get_or, leb, if◌then◌else◌, Bool-cases, inl, inr, arith}
use infinity_station.Base.Text.{same_text, same_text_sound, same_text_refl}
use infinity_station.Rfid.{find_row, assign_row, add_rows, list_data_to_unordered_map}

-- Two tests that do not both hold can change places.
two_tests {ℓ} :
    {A : Type ℓ} (o a b : A) (p q : Bool)
    → ¬ ((p ≡ true) × (q ≡ true))
    → (if p then a else (if q then b else o)) ≡ (if q then b else (if p then a else o))
two_tests o a b true true not_both = absurd (not_both (refl, refl))
two_tests o a b true false not_both = refl
two_tests o a b false q not_both = refl

find_row-assign_row :
    (key k : List ℕ) (row : List (List ℕ)) (m : List (List ℕ × List (List ℕ)))
    → find_row key (assign_row k row m) ≡ (if same_text key k then some row else find_row key m)
unfolding find_row assign_row
find_row-assign_row key k row [] = refl
find_row-assign_row key k row ((j, old) ∷ m) = elim (Bool-cases (same_text k j)) [
  | inl same ↦ rw same (rw (sym (same_text_sound k j same)) (ground arith))
  | inr other ↦ rw other (
      rw (find_row-assign_row key k row m)
        (two_tests _ _ _ (same_text key j) (same_text key k) (apart other)))
]
  where
    apart : same_text k j ≡ false → ¬ ((same_text key j ≡ true) × (same_text key k ≡ true))
    apart other (with_j, with_k) =
        let same : k ≡ j = sym (same_text_sound key k with_k) ∙ same_text_sound key j with_j in
        absurd (ground (arith, ap (same_text k) same, same_text_refl k))

-- The last row whose column has the key, if `found` came before.
unfoldable pub last_row :
    List ℕ → ℕ → List (List (List ℕ)) → Option (List (List ℕ)) → Option (List (List ℕ))
last_row key key_column [] found = found
last_row key key_column (row ∷ rows) found = last_row key key_column rows (
    if leb (length row) key_column
    then found
    else (if same_text key (get_or row key_column []) then some row else found))

add_rows_lem :
    (key : List ℕ) (key_column : ℕ) (rows : List (List (List ℕ)))
    (m : List (List ℕ × List (List ℕ)))
    → find_row key (add_rows key_column rows m) ≡ last_row key key_column rows (find_row key m)
unfolding add_rows last_row
add_rows_lem key key_column [] m = refl
add_rows_lem key key_column (row ∷ rows) m = elim (Bool-cases (leb (length row) key_column)) [
  | inl short ↦ rw short (add_rows_lem key key_column rows m)
  | inr long ↦ rw long (
      add_rows_lem key key_column rows (assign_row (get_or row key_column []) row m)
      ∙ ap (last_row key key_column rows)
          (find_row-assign_row key (get_or row key_column []) row m))
]

-- A tag is looked up to the last row that is long enough and has it in the key column, and to
-- nothing if there is none.
pub list_data_to_unordered_map_lem :
    (key : List ℕ) (rows : List (List (List ℕ))) (key_column : ℕ)
    → find_row key (list_data_to_unordered_map rows key_column) ≡ last_row key key_column rows none
unfolding list_data_to_unordered_map find_row
list_data_to_unordered_map_lem key rows key_column = add_rows_lem key key_column rows []
