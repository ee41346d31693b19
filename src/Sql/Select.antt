-- ===== src/Sql/Select.antt =====
-- SqlSelect.h: the statement of a query, and its execution up to the answers of the data base.
use infinity_station.Base.{
  ℕ, ◌-◌, ◌*◌, Bool, true, false, not, ◌&&◌, List, [], ◌∷◌, ◌++◌, ltb, if◌then◌else◌,
}
use infinity_station.Base.Text.{codes, is_empty}
use infinity_station.Kits.Timers.{to_string}
use infinity_station.Sql.{
  OperatorComparison, OperatorLogical, Condition, join, build_where_clause, bind_conditions,
}

-- A page is a natural number: one below 1 is no page, as 0 is.
pub record SqlSelect (V : Type 0) : Type 0 where
  pub distinct_on_fields : List (List ℕ)
  pub fields : List (List ℕ)
  pub conditions : List (Condition V)
  pub order_by_clauses : List (List ℕ)
  pub page : ℕ
  pub page_size : ℕ
  pub distinct_rows : Bool
  pub sql : List ℕ
  pub bound : List (List ℕ × V)
  pub success : Bool

module _ {V : Type 0} where
  unfoldable pub new_select : SqlSelect V
  new_select = record {
    distinct_on_fields = [];
    fields = [];
    conditions = [];
    order_by_clauses = [];
    page = 0;
    page_size = 0;
    distinct_rows = false;
    sql = [];
    bound = [];
    success = false;
  }

  unfoldable pub select : List (List ℕ) → SqlSelect V → SqlSelect V
  select fields q = record q { fields = fields }

  -- The logical operator of the first condition is the one that a condition has by default.
  unfoldable pub add_where :
      List ℕ → OperatorComparison → V → OperatorLogical → SqlSelect V → SqlSelect V
  unfolding is_empty
  add_where field op value logic q =
      if is_empty q.conditions
      then record q {
        conditions =
            q.conditions
            ++ record {
              field = field;
              op = op;
              value = value;
              logic_operator = OperatorLogical.and_also;
            }
              ∷ [];
      }
      else record q {
        conditions =
            q.conditions
            ++ record { field = field; op = op; value = value; logic_operator = logic } ∷ [];
      }

  unfoldable pub order_by : List ℕ → Bool → SqlSelect V → SqlSelect V
  order_by field ascending q = record q {
    order_by_clauses =
        q.order_by_clauses
        ++ (field ++ (codes " " ++ (if ascending then codes "ASC" else codes "DESC"))) ∷ [];
  }

  unfoldable pub distinct : List ℕ → SqlSelect V → SqlSelect V
  distinct field q = record q { distinct_on_fields = q.distinct_on_fields ++ field ∷ [] }

  unfoldable pub paginate : ℕ → ℕ → SqlSelect V → SqlSelect V
  paginate page page_size q = record q { page = page; page_size = page_size }

  unfoldable pub distinct_clause : SqlSelect V → List ℕ
  unfolding is_empty join
  distinct_clause q =
      if not (is_empty q.distinct_on_fields)
      then codes "DISTINCT ON (" ++ (join (codes ", ") q.distinct_on_fields ++ codes ") ")
      else if q.distinct_rows
      then codes "DISTINCT "
      else []

  unfoldable pub fields_of : SqlSelect V → List ℕ
  unfolding is_empty join
  fields_of q = if is_empty q.fields then codes "*" else join (codes ", ") q.fields

  unfoldable pub where_part : List (Condition V) → List ℕ
  unfolding is_empty build_where_clause
  where_part cs =
      if is_empty (build_where_clause cs) then [] else codes " WHERE " ++ build_where_clause cs

  unfoldable pub order_part : SqlSelect V → List ℕ
  unfolding is_empty join
  order_part q =
      if is_empty q.order_by_clauses
      then []
      else codes " ORDER BY " ++ join (codes ", ") q.order_by_clauses

  unfoldable pub limit_part : SqlSelect V → List ℕ
  unfolding to_string
  limit_part q =
      if ltb 0 q.page && ltb 0 q.page_size
      then codes " LIMIT "
        ++ (to_string q.page_size ++ (codes " OFFSET " ++ to_string ((q.page - 1) * q.page_size)))
      else []

  unfoldable pub build_select_statement : List ℕ → SqlSelect V → List ℕ
  unfolding distinct_clause fields_of where_part order_part limit_part
  build_select_statement table q =
      codes "SELECT "
      ++ (distinct_clause q
          ++ (fields_of q
              ++ (codes " FROM "
                  ++ (table
                      ++ (where_part q.conditions
                          ++ (order_part q ++ (limit_part q ++ codes ";")))))))

  -- Whether the data base prepares the statement, and whether it runs it.
  unfoldable pub exec : List ℕ → Bool → Bool → SqlSelect V → SqlSelect V × Bool
  unfolding build_select_statement bind_conditions
  exec table prepared run q =
      let q' = record q { sql = build_select_statement table q } in
      if not prepared
      then (q', false)
      else let q'' = record q' { bound = bind_conditions q'.conditions q'.bound } in
        if not run then (q'', false) else (record q'' { success = true }, true)

  -- The rows that the data base has found, of a query that ran.
  unfoldable pub get_results {ℓ} : {R : Type ℓ} → List R → SqlSelect V → List R
  get_results found q = if q.success then found else []
