-- ===== src/Sql/Insert.antt =====
-- SqlInsert.h: the statement that adds rows, with the columns of values that are bound to it. A row is
-- the map of its fields, as `toVariantMap` gives it. The answers of the data base are arguments.
use infinity_station.Base.{ℕ, Bool, true, false, not, List, [], ◌∷◌, ◌++◌, length, if◌then◌else◌}
use infinity_station.Base.Text.{codes, same_text, put_key}
use infinity_station.Sql.{join}

pub record SqlInsert (V : Type 0) : Type 0 where
  pub is_batch : Bool
  pub batch_size : ℕ
  pub sql : List ℕ
  pub single_values : List (List ℕ × V)
  pub batch_values : List (List ℕ × List V)
  pub in_transaction : Bool  -- of the connection
  pub success : Bool

-- What the data base answers to a batch.
pub record Answers : Type 0 where
  pub prepared : Bool
  pub ran : Bool
  pub committed : Bool

abbrev pub is_id : List ℕ → Bool
is_id key = same_text key (codes "id")

unfoldable pub placeholders_of : List (List ℕ) → List (List ℕ)
placeholders_of [] = []
placeholders_of (k ∷ ks) = (codes ":" ++ k) ∷ placeholders_of ks

module _ {V : Type 0} where
  unfoldable pub new_insert : SqlInsert V
  new_insert = record {
    is_batch = false;
    batch_size = 0;
    sql = [];
    single_values = [];
    batch_values = [];
    in_transaction = false;
    success = false;
  }

  -- The names of a row's fields but its number.
  unfoldable pub field_names : List (List ℕ × V) → List (List ℕ)
  unfolding same_text
  field_names [] = []
  field_names ((k, v) ∷ m) = let rest = field_names m in if not (is_id k) then k ∷ rest else rest

  unfoldable pub build_sql_statement : List ℕ → List (List ℕ × V) → List ℕ
  unfolding field_names join placeholders_of
  build_sql_statement table m =
      codes "INSERT INTO "
      ++ (table
          ++ (codes " ("
              ++ (join (codes ", ") (field_names m)
                  ++ (codes ") VALUES ("
                      ++ (join (codes ", ") (placeholders_of (field_names m)) ++ codes ")")))))

  unfoldable pub put_values : List (List ℕ × V) → List (List ℕ × V) → List (List ℕ × V)
  unfolding same_text put_key
  put_values [] m = m
  put_values ((k, v) ∷ row) m =
      put_values row (if not (is_id k) then put_key (codes ":" ++ k) v m else m)

  unfoldable pub insert_one : List ℕ → List (List ℕ × V) → SqlInsert V → SqlInsert V
  unfolding build_sql_statement put_values
  insert_one table row i = record i {
    is_batch = false;
    sql = build_sql_statement table row;
    single_values = put_values row i.single_values;
  }

  -- `m[k].append(v)`
  unfoldable pub append_value : List ℕ → V → List (List ℕ × List V) → List (List ℕ × List V)
  unfolding same_text
  append_value k v [] = (k, v ∷ []) ∷ []
  append_value k v ((j, vs) ∷ m) =
      let rest = append_value k v m in
      if same_text j k then (j, vs ++ v ∷ []) ∷ m else (j, vs) ∷ rest

  unfoldable pub append_row : List (List ℕ × V) → List (List ℕ × List V) → List (List ℕ × List V)
  unfolding same_text append_value
  append_row [] m = m
  append_row ((k, v) ∷ row) m =
      append_row row (if not (is_id k) then append_value (codes ":" ++ k) v m else m)

  unfoldable pub append_rows :
      List (List (List ℕ × V)) → List (List ℕ × List V) → List (List ℕ × List V)
  unfolding append_row
  append_rows [] m = m
  append_rows (row ∷ rows) m = append_rows rows (append_row row m)

  unfoldable pub insert_batch : List ℕ → List (List (List ℕ × V)) → SqlInsert V → SqlInsert V
  unfolding build_sql_statement append_rows
  insert_batch table [] i = i
  insert_batch table (row ∷ rows) i = record i {
    is_batch = true;
    sql = build_sql_statement table row;
    batch_values = append_rows (row ∷ rows) i.batch_values;
    batch_size = length (row ∷ rows);
  }

  unfoldable pub exec_single : Answers → SqlInsert V → SqlInsert V × Bool
  exec_single a i = if not a.prepared then (i, false) else (i, a.ran)

  unfoldable pub exec_batch : Answers → SqlInsert V → SqlInsert V × Bool
  exec_batch a i =
      if not a.prepared
      then (i, false)
      else if not a.ran
      then (record i { in_transaction = false; success = false }, false)
      else (record i { in_transaction = not a.committed; success = a.committed }, a.committed)

  unfoldable pub exec : Answers → SqlInsert V → SqlInsert V × Bool
  unfolding exec_single exec_batch
  exec a i = if not i.is_batch then exec_single a i else exec_batch a i

  unfoldable pub get_num_affected : SqlInsert V → ℕ
  get_num_affected i = if not i.success then 0 else i.batch_size
