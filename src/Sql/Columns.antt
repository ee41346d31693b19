-- ===== src/Sql/Columns.antt =====
-- The statement and the columns of values of a batch that SqlInsert.h adds.
use infinity_station.Base.{
  ℕ, ◌≡◌, refl, ap, sym, ◌∙◌, Bool, true, false, List, [], ◌∷◌, ◌++◌, map, none, some, arith, All,
  if◌then◌else◌, Bool-cases, inl, inr,
}
use infinity_station.Base.Text.{codes, same_text, same_text_sound, same_text_refl, find_key}
use mathlib.Core.List.{append-nil, append_assoc}
use infinity_station.Sql.{join, is_word, placeholders}
use infinity_station.Sql.Insert.{
  new_insert, is_id, field_names, placeholders_of, build_sql_statement, append_value, append_row,
  append_rows, insert_batch,
}
use infinity_station.Sql.Placeholders.{
  HasNoColon, IsName, stops, placeholders-skip, placeholders-name, name-HasNoColon, join-HasNoColon,
  literal,
}

names_placeholders :
    (ks : List (List ℕ)) (rest : List ℕ)
    → All IsName ks
    → stops rest ≡ true
    → placeholders (join (codes ", ") (placeholders_of ks) ++ rest)
      ≡ placeholders_of ks ++ placeholders rest
unfolding join placeholders_of
names_placeholders [] rest h e = refl
names_placeholders (k ∷ []) rest h e = placeholders-name k rest h.0 e
names_placeholders (k ∷ l ∷ ks) rest h e =
    let later = join (codes ", ") (placeholders_of (l ∷ ks)) in
    ap (λ t. placeholders (b':' ∷ t)) (append_assoc k (codes ", " ++ later) rest)
    ∙ placeholders-name k (codes ", " ++ (later ++ rest)) h.0 (unfold is_word in refl)
    ∙ ap (◌∷◌ (b':' ∷ k)) (
        placeholders-skip (codes ", ") (later ++ rest) (literal ", " refl)
        ∙ names_placeholders (l ∷ ks) rest h.1 e)

names-HasNoColon : (ks : List (List ℕ)) → All IsName ks → All HasNoColon ks
names-HasNoColon [] h = tt
names-HasNoColon (k ∷ ks) h = (name-HasNoColon k h.0, names-HasNoColon ks h.1)

end_placeholders : placeholders (codes ")") ≡ []
unfolding placeholders
end_placeholders = refl

module _ {V : Type 0} where
  pub statement-fields :
      (table : List ℕ) (row : List (List ℕ × V))
      → HasNoColon table
      → All IsName (field_names row)
      → placeholders (build_sql_statement table row) ≡ placeholders_of (field_names row)
  unfolding build_sql_statement
  statement-fields table row t h =
      placeholders-skip (codes "INSERT INTO ") _ (literal "INSERT INTO " refl)
      ∙ placeholders-skip table _ t
      ∙ placeholders-skip (codes " (") _ (literal " (" refl)
      ∙ placeholders-skip (join (codes ", ") (field_names row)) _ (
          join-HasNoColon (codes ", ") (field_names row) (literal ", " refl)
            (names-HasNoColon (field_names row) h))
      ∙ placeholders-skip (codes ") VALUES (") _ (literal ") VALUES (" refl)
      ∙ names_placeholders (field_names row) (codes ")") h (unfold is_word in refl)
      ∙ ap (◌++◌ (placeholders_of (field_names row))) end_placeholders
      ∙ append-nil (placeholders_of (field_names row))

  -- The column that is bound to a name.
  abbrev pub column : List ℕ → List (List ℕ × List V) → List V
  column k m = elim (find_key k m) [ none ↦ [] | some vs ↦ vs ]

  -- The values of a row under a name.
  abbrev pub occurrences : List ℕ → List (List ℕ × V) → List V
  occurrences k [] = []
  occurrences k ((j, v) ∷ row) = if same_text j k then v ∷ occurrences k row else occurrences k row

  column-append_value :
      (k j : List ℕ) (v : V) (m : List (List ℕ × List V))
      → column k (append_value j v m) ≡ (if same_text j k then column k m ++ v ∷ [] else column k m)
  unfolding find_key append_value
  column-append_value k j v [] = ground arith
  column-append_value k j v ((i, vs) ∷ m) = ground (
    arith,
    column-append_value k j v m,
    same_text_sound i j,
    same_text_sound i k,
    same_text_sound j k,
    same_text_refl k,
    same_text_refl j,
  )

  column-append_row :
      (k : List ℕ) (row : List (List ℕ × V)) (m : List (List ℕ × List V))
      → is_id k ≡ false
      → column (b':' ∷ k) (append_row row m) ≡ column (b':' ∷ k) m ++ occurrences k row
  unfolding append_row
  column-append_row k [] m n = sym (append-nil (column (b':' ∷ k) m))
  column-append_row k ((j, v) ∷ row) m n = elim (Bool-cases (is_id j)) [
    | inl id ↦ rw (id, not_same j id) (column-append_row k row m n)
    | inr other ↦ rw other (
        column-append_row k row (append_value (b':' ∷ j) v m) n
        ∙ ap (λ l. l ++ occurrences k row)
            (column-append_value (b':' ∷ k) (b':' ∷ j) v m
              ∙ ap (λ b. if b then column (b':' ∷ k) m ++ v ∷ [] else column (b':' ∷ k) m)
                  (unfold same_text in refl))
        ∙ joined (same_text j k) (column (b':' ∷ k) m) v (occurrences k row))
  ]
    where
      not_same : (j : List ℕ) → is_id j ≡ true → same_text j k ≡ false
      not_same j id = elim (Bool-cases (same_text j k)) [
        | inl same ↦ absurd (cc (same_text_sound j k same, id, n))
        | inr ne ↦ ne
      ]

      joined :
          (b : Bool) (vs : List V) (v : V) (ws : List V)
          → (if b then vs ++ v ∷ [] else vs) ++ ws ≡ vs ++ (if b then v ∷ ws else ws)
      joined true vs v ws = append_assoc vs (v ∷ []) ws
      joined false vs v ws = refl

  column-append_rows :
      (k : List ℕ) (value_of : List (List ℕ × V) → V) (rows : List (List (List ℕ × V)))
      (m : List (List ℕ × List V))
      → is_id k ≡ false
      → All (λ row. occurrences k row ≡ value_of row ∷ []) rows
      → column (b':' ∷ k) (append_rows rows m) ≡ column (b':' ∷ k) m ++ map value_of rows
  unfolding append_rows
  column-append_rows k value_of [] m n h = sym (append-nil (column (b':' ∷ k) m))
  column-append_rows k value_of (row ∷ rows) m n h =
      column-append_rows k value_of rows (append_row row m) n h.1
      ∙ ap (λ l. l ++ map value_of rows)
          (column-append_row k row m n ∙ ap (◌++◌ (column (b':' ∷ k) m)) h.0)
      ∙ append_assoc (column (b':' ∷ k) m) (value_of row ∷ []) (map value_of rows)

  -- A batch of rows given to a new insertion, where the table has no colon in its name and the first
  -- row's fields have words for names: the placeholders of the statement are those of the first row's
  -- fields but `id`, in order; and for each other field that every row has once, the column bound to
  -- its placeholder is that field's values in the order of the rows.
  pub insert_batch-columns :
      (table : List ℕ) (row : List (List ℕ × V)) (rows : List (List (List ℕ × V))) (k : List ℕ)
      (value_of : List (List ℕ × V) → V)
      → HasNoColon table
      → All IsName (field_names row)
      → is_id k ≡ false
      → All (λ r. occurrences k r ≡ value_of r ∷ []) (row ∷ rows)
      → let i = insert_batch table (row ∷ rows) new_insert in
        (placeholders i.sql ≡ placeholders_of (field_names row))
        × (column (b':' ∷ k) i.batch_values ≡ map value_of (row ∷ rows))
  unfolding insert_batch new_insert find_key
  insert_batch-columns table row rows k value_of t h n all =
      (statement-fields table row t h, column-append_rows k value_of (row ∷ rows) [] n all)
