-- ===== src/Location/Batches.antt =====
-- The rows that wait for the data base and the batches that were given to it.
use infinity_station.Base.{
  ◌≤◌, ◌≡◌, refl, ap, sym, ◌∙◌, List, [], ◌∷◌, ◌++◌, arith, All, length, length-append, ltb,
  Bool-cases, inl, inr, All-append,
}
use mathlib.Core.List.{append-nil, append_assoc}
use infinity_station.Location.{PositionDataBase, data_base_insert}

module _ {A : Type 0} where
  unfoldable pub insert_all : List A → PositionDataBase A → PositionDataBase A
  insert_all [] d = d
  insert_all (row ∷ rows) d = insert_all rows (data_base_insert row d)

  abbrev pub concat : List (List A) → List A
  concat [] = []
  concat (b ∷ bs) = b ++ concat bs

  concat-append : (bs : List (List A)) (b : List A) → concat (bs ++ b ∷ []) ≡ concat bs ++ b
  concat-append [] b = append-nil b
  concat-append (c ∷ bs) b = ap (◌++◌ c) (concat-append bs b) ∙ sym (append_assoc c (concat bs) b)

  -- All the rows that were inserted.
  abbrev pub rows_of : PositionDataBase A → List A
  rows_of d = concat d.inserted ++ d.insert_data

  -- The rows in order, whole batches of 52, and fewer than 52 rows that wait.
  record Batched (rows : List A) (d : PositionDataBase A) : Type 0 where
    in_order : concat d.inserted ++ d.insert_data ≡ rows
    whole : All (λ (b : List A). length b ≡ 52) d.inserted
    waits : length d.insert_data ≤ 51

  data_base_insert-Batched :
      (rows : List A) (row : A) (d : PositionDataBase A)
      → Batched rows d
      → Batched (rows ++ row ∷ []) (data_base_insert row d)
  unfolding data_base_insert
  data_base_insert-Batched rows row d h = elim (Bool-cases (ltb 50 (length d.insert_data))) [
    | inl full ↦ rw full (record {
      in_order =
          append-nil _
          ∙ concat-append d.inserted (d.insert_data ++ row ∷ [])
          ∙ sym (append_assoc (concat d.inserted) d.insert_data (row ∷ []))
          ∙ ap (λ l. l ++ row ∷ []) h.in_order;
      whole =
          All-append _ d.inserted _ h.whole
            (ground (arith, h.waits, length-append d.insert_data (row ∷ [])), tt);
      waits = omega arith;
    })
    | inr room ↦ rw room (record {
      in_order =
          sym (append_assoc (concat d.inserted) d.insert_data (row ∷ []))
          ∙ ap (λ l. l ++ row ∷ []) h.in_order;
      whole = h.whole;
      waits = ground (arith, length-append d.insert_data (row ∷ []));
    })
  ]

  pub rows_of-insert :
      (row : A) (d : PositionDataBase A) → rows_of (data_base_insert row d) ≡ rows_of d ++ row ∷ []
  unfolding data_base_insert
  rows_of-insert row d = elim (Bool-cases (ltb 50 (length d.insert_data))) [
    | inl full ↦ rw full (
        append-nil _
        ∙ concat-append d.inserted (d.insert_data ++ row ∷ [])
        ∙ sym (append_assoc (concat d.inserted) d.insert_data (row ∷ [])))
    | inr room ↦ rw room (sym (append_assoc (concat d.inserted) d.insert_data (row ∷ [])))
  ]

  insert_all-Batched :
      (rows more : List A) (d : PositionDataBase A)
      → Batched rows d
      → Batched (rows ++ more) (insert_all more d)
  unfolding insert_all
  insert_all-Batched rows [] d h = rw (append-nil rows) h
  insert_all-Batched rows (row ∷ more) d h = rw (← append_assoc rows (row ∷ []) more) (
      insert_all-Batched (rows ++ row ∷ []) more (data_base_insert row d)
        (data_base_insert-Batched rows row d h))

  -- Whatever rows are inserted into an empty buffer, the batches given to the data base, in order, and
  -- then the rows that wait are the rows inserted: each batch has 52 rows, and at most 51 wait.
  pub insert_all-batches :
      (rows : List A)
      → let d = insert_all rows (record { insert_data = []; inserted = [] }) in
        (concat d.inserted ++ d.insert_data ≡ rows)
        × All (λ (b : List A). length b ≡ 52) d.inserted
        × (length d.insert_data ≤ 51)
  insert_all-batches rows =
      let h =
        insert_all-Batched [] rows (record { insert_data = []; inserted = [] })
          (record { in_order = refl; whole = tt; waits = omega arith }) in
      (h.in_order, h.whole, h.waits)
