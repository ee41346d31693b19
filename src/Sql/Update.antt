-- ===== src/Sql/Update.antt =====
-- SqlUpdate.h: the statement that changes one row, and its execution up to the answers of the data base.
-- The order in which the hash of the new values is walked is that of the list.
use infinity_station.Base.{ℕ, Bool, true, false, not, List, [], ◌∷◌, ◌++◌, if◌then◌else◌}
use infinity_station.Base.Text.{codes, is_empty, put_key}
use infinity_station.Sql.{OperatorComparison, OperatorLogical, Condition, join, bind_conditions}
use infinity_station.Sql.Select.{where_part}

pub record SqlUpdate (V : Type 0) : Type 0 where
  pub set_values : List (List ℕ × V)
  pub conditions : List (Condition V)
  pub sql : List ℕ
  pub bound : List (List ℕ × V)
  pub success : Bool

module _ {V : Type 0} where
  unfoldable pub new_update : SqlUpdate V
  new_update = record { set_values = []; conditions = []; sql = []; bound = []; success = false }

  unfoldable pub set_value : List ℕ → V → SqlUpdate V → SqlUpdate V
  unfolding is_empty put_key
  set_value field value u =
      if not (is_empty field) then record u { set_values = put_key field value u.set_values } else u

  unfoldable pub add_condition :
      List ℕ → OperatorComparison → V → OperatorLogical → SqlUpdate V → SqlUpdate V
  add_condition field op value logic u = record u {
    conditions =
        u.conditions
        ++ record { field = field; op = op; value = value; logic_operator = logic } ∷ [];
  }

  unfoldable pub set_clauses : List (List ℕ × V) → List (List ℕ)
  set_clauses [] = []
  set_clauses ((k, v) ∷ m) = (k ++ (codes " = :set_" ++ k)) ∷ set_clauses m

  unfoldable pub build_set_clause : List (List ℕ × V) → List ℕ
  unfolding join set_clauses
  build_set_clause m = join (codes ", ") (set_clauses m)

  unfoldable pub build_update_statement : List ℕ → SqlUpdate V → List ℕ
  unfolding build_set_clause where_part
  build_update_statement table u =
      codes "UPDATE "
      ++ (table
          ++ (codes " SET "
              ++ (build_set_clause u.set_values ++ (where_part u.conditions ++ codes ";"))))

  unfoldable pub bind_set : List (List ℕ × V) → List (List ℕ × V) → List (List ℕ × V)
  unfolding put_key
  bind_set [] bound = bound
  bind_set ((k, v) ∷ m) bound = bind_set m (put_key (codes ":set_" ++ k) v bound)

  unfoldable pub bind_values : SqlUpdate V → SqlUpdate V
  unfolding bind_set bind_conditions
  bind_values u = record u { bound = bind_conditions u.conditions (bind_set u.set_values u.bound) }

  -- Whether the data base prepares the statement, and whether it runs it.
  unfoldable pub exec_single : List ℕ → Bool → Bool → SqlUpdate V → SqlUpdate V × Bool
  unfolding is_empty build_update_statement bind_values
  exec_single table prepared run u =
      if is_empty u.set_values
      then (u, false)
      else let u' = record u { sql = build_update_statement table u } in
        if not prepared
        then (u', false)
        else let u'' = bind_values u' in
          if not run then (u'', false) else (record u'' { success = true }, true)
