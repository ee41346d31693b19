-- ===== src/Sql.antt =====
-- kits/common/database: SqlTypes.h and what SqlSelect.h, SqlUpdate.h and SqlInsert.h share: the conditions
-- of a statement, its WHERE clause, and the values that are bound to its placeholders. The type of
-- a value, a QVariant that is only passed on, is a parameter. A text is a list of code units.
pub mod Select
pub mod Update
pub mod Insert
pub mod Placeholders
pub mod Statement
pub mod Bound
pub mod Offline
pub mod Columns
use infinity_station.Base.{
  ℕ, Bool, true, false, ◌&&◌, ◌||◌, List, [], ◌∷◌, ◌++◌, map, Option, none, some, ◌==◌, leb,
  if◌then◌else◌,
}
use infinity_station.Base.Text.{codes, put_key}

pub data OperatorComparison : Type 0 where
  equal not_equal greater_than less_than greater_equal less_equal : OperatorComparison

pub data OperatorLogical : Type 0 where
  and_also or_else : OperatorLogical

unfoldable pub comparison_operator_map : OperatorComparison → List ℕ
comparison_operator_map equal = codes "="
comparison_operator_map not_equal = codes "!="
comparison_operator_map greater_than = codes ">"
comparison_operator_map less_than = codes "<"
comparison_operator_map greater_equal = codes ">="
comparison_operator_map less_equal = codes "<="

unfoldable pub logical_operator_map : OperatorLogical → List ℕ
logical_operator_map and_also = codes "AND"
logical_operator_map or_else = codes "OR"

pub record Condition (V : Type 0) : Type 0 where
  pub field : List ℕ
  pub op : OperatorComparison
  pub value : V
  pub logic_operator : OperatorLogical

-- `QStringList::join`
unfoldable pub join : List ℕ → List (List ℕ) → List ℕ
join separator [] = []
join separator (t ∷ []) = t
join separator (t ∷ u ∷ ts) = t ++ (separator ++ join separator (u ∷ ts))

module _ {V : Type 0} where
  unfoldable pub clause_of : Condition V → List ℕ
  unfolding comparison_operator_map
  clause_of c = c.field ++ (codes " " ++ (comparison_operator_map c.op ++ (codes " :" ++ c.field)))

  -- The clauses after the first.
  unfoldable pub more_clauses : List (Condition V) → List (List ℕ)
  unfolding clause_of logical_operator_map
  more_clauses [] = []
  more_clauses (c ∷ cs) =
      (logical_operator_map c.logic_operator ++ (codes " " ++ clause_of c)) ∷ more_clauses cs

  unfoldable pub clauses : List (Condition V) → List (List ℕ)
  unfolding clause_of more_clauses
  clauses [] = []
  clauses (c ∷ cs) = clause_of c ∷ more_clauses cs

  unfoldable pub build_where_clause : List (Condition V) → List ℕ
  unfolding join clauses
  build_where_clause cs = join (codes " ") (clauses cs)

  -- `bindValue` for each condition: a name that is bound again has the new value.
  unfoldable pub bind_conditions : List (Condition V) → List (List ℕ × V) → List (List ℕ × V)
  unfolding put_key
  bind_conditions [] bound = bound
  bind_conditions (c ∷ cs) bound = bind_conditions cs (put_key (codes ":" ++ c.field) c.value bound)

-- What the data base takes for placeholders: each colon with the letters, digits and underlines
-- after it.
unfoldable pub is_word : ℕ → Bool
is_word c =
    (leb b'a' c && leb c b'z')
    || (leb b'A' c && leb c b'Z')
    || (leb b'0' c && leb c b'9')
    || c == b'_'

unfoldable pub word_of : List ℕ → List ℕ
unfolding is_word
word_of [] = []
word_of (c ∷ cs) = if is_word c then c ∷ word_of cs else []

unfoldable pub placeholders : List ℕ → List (List ℕ)
unfolding word_of
placeholders [] = []
placeholders (c ∷ cs) =
    let rest = placeholders cs in if c == b':' then (b':' ∷ word_of cs) ∷ rest else rest
