-- ===== src/Witnesses/Queries.antt =====
-- Statements for the theorems of Sql.
use infinity_station.Base.{ℕ, ◌≡◌, refl, true, false, List, [], ◌∷◌, map, some, All}
use infinity_station.Base.Text.{codes, same_text, is_empty}
use infinity_station.Sql.{Condition, equal, greater_than, and_also, is_word, placeholders}
use infinity_station.Sql.Select.{SqlSelect, new_select, select, add_where, order_by, paginate, exec}
use infinity_station.Sql.Insert.{new_insert, insert_batch, placeholders_of, field_names, is_id}
use infinity_station.Sql.Placeholders.{IsName, literal, is_name_sound}
use infinity_station.Sql.Statement.{IsPlain}
use infinity_station.Sql.Bound.{HasOwnFields, values, exec-own}
use infinity_station.Sql.Columns.{column, occurrences, insert_batch-columns}
use infinity_station.Sql.Offline.{OfflineRead, data_by_time_range}

abbrev poles_query : SqlSelect ℕ
unfolding new_select select add_where order_by paginate is_empty
poles_query = paginate 1 5 (
    order_by (codes "id") true (
      add_where (codes "line_dir") equal 1 and_also (
        add_where (codes "kilo_meter") greater_than 7 and_also
          (select (codes "id" ∷ codes "span" ∷ []) new_select))))

poles_query-IsPlain : IsPlain (codes "line_data") poles_query
unfolding new_select select add_where order_by paginate is_empty is_word
poles_query-IsPlain = record {
  table_plain = literal "line_data" refl;
  distinct_plain = tt;
  fields_plain = (literal "id" refl, (literal "span" refl, tt));
  order_plain = (literal "id ASC" refl, tt);
  named = (is_name_sound (codes "kilo_meter") refl, (is_name_sound (codes "line_dir") refl, tt));
}

poles_query-HasOwnFields : HasOwnFields poles_query.conditions
unfolding new_select select add_where order_by paginate is_empty same_text
poles_query-HasOwnFields = ((refl, tt), (tt, tt))

exec-own_example :
    values (exec (codes "line_data") true true poles_query).0
    ≡ map (λ (c : Condition ℕ). some c.value) poles_query.conditions
exec-own_example =
    exec-own (codes "line_data") poles_query poles_query-IsPlain poles_query-HasOwnFields

abbrev time_range : OfflineRead ℕ
time_range = data_by_time_range 10 20 100

abbrev speed_row : ℕ → ℕ → List (List ℕ × ℕ)
speed_row id speed = (codes "id", id) ∷ (codes "speed", speed) ∷ []

abbrev speed_of : List (List ℕ × ℕ) → ℕ
speed_of (_ ∷ (k, v) ∷ _) = v
speed_of _ = 0

speed-IsName : All IsName (field_names (speed_row 1 30))
unfolding field_names same_text is_word
speed-IsName = (is_name_sound (codes "speed") refl, tt)

speed-ne-id : is_id (codes "speed") ≡ false
unfolding same_text
speed-ne-id = refl

speed_once :
    All
      (λ r. occurrences (codes "speed") r ≡ speed_of r ∷ [])
      (speed_row 1 30 ∷ speed_row 2 40 ∷ [])
unfolding same_text
speed_once = (refl, (refl, tt))

insert_batch-columns_example :
    let i =
      insert_batch (codes "location_data") (speed_row 1 30 ∷ speed_row 2 40 ∷ []) new_insert in
    (placeholders i.sql ≡ placeholders_of (field_names (speed_row 1 30)))
    × (column (b':' ∷ codes "speed") i.batch_values
        ≡ map speed_of (speed_row 1 30 ∷ speed_row 2 40 ∷ []))
insert_batch-columns_example =
    insert_batch-columns (codes "location_data") (speed_row 1 30) (speed_row 2 40 ∷ [])
      (codes "speed") speed_of (literal "location_data" refl) speed-IsName speed-ne-id speed_once
