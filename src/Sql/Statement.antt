-- ===== src/Sql/Statement.antt =====
-- The placeholders of a whole query are those of its conditions, in order.
use infinity_station.Base.{
  ℕ, zero, suc, ◌-◌, ◌*◌, ◌/◌, ◌≡◌, refl, ap, ◌∙◌, true, false, List, [], ◌∷◌, ◌++◌, arith, All,
  All-append, not, ◌&&◌, ltb, Bool-cases, inl, inr,
}
use infinity_station.Base.Text.{codes, is_empty}
use mathlib.Core.List.{append-nil, append_assoc}
use infinity_station.Kits.Timers.{to_string, digits_of}
use infinity_station.Sql.{
  Condition, build_where_clause, clauses, more_clauses, clause_of, join, placeholders, is_word,
}
use infinity_station.Sql.Select.{
  SqlSelect, distinct_clause, fields_of, where_part, order_part, limit_part, build_select_statement,
}
use infinity_station.Sql.Placeholders.{
  HasNoColon, HasNames, stops, names, placeholders-skip, where-placeholders, join-HasNoColon,
  literal,
}

digits-HasNoColon : (fuel n : ℕ) (acc : List ℕ) → HasNoColon acc → HasNoColon (digits_of fuel n acc)
unfolding digits_of
digits-HasNoColon zero n acc h = h
digits-HasNoColon (suc fuel) n acc h = elim (Bool-cases (ltb n 10)) [
  | inl last ↦ rw last (ground (arith, last), h)
  | inr more ↦ rw more (digits-HasNoColon fuel (n / 10) _ (ground arith, h))
]

to_string-HasNoColon : (n : ℕ) → HasNoColon (to_string n)
unfolding to_string
to_string-HasNoColon n = digits-HasNoColon 20 n [] tt

append_not_empty : (xs ys : List ℕ) → is_empty ys ≡ false → is_empty (xs ++ ys) ≡ false
unfolding is_empty
append_not_empty [] ys h = h
append_not_empty (x ∷ xs) ys h = refl

empty_append : (xs ys : List ℕ) → is_empty xs ≡ false → is_empty (xs ++ ys) ≡ false
unfolding is_empty
empty_append [] ys h = cc
empty_append (x ∷ xs) ys h = refl

module _ {V : Type 0} where
  -- The names of the statement hold no colon, and those of the conditions are words.
  pub record IsPlain (table : List ℕ) (q : SqlSelect V) : Type 0 where
    pub table_plain : HasNoColon table
    pub distinct_plain : All HasNoColon q.distinct_on_fields
    pub fields_plain : All HasNoColon q.fields
    pub order_plain : All HasNoColon q.order_by_clauses
    pub named : HasNames q.conditions

  limit-HasNoColon : (q : SqlSelect V) → HasNoColon (limit_part q)
  unfolding limit_part
  limit-HasNoColon q = elim (Bool-cases (ltb 0 q.page && ltb 0 q.page_size)) [
    | inl on ↦ rw on (
        All-append _ (codes " LIMIT ") _ (literal " LIMIT " refl) (
          All-append _ (to_string q.page_size) _ (to_string-HasNoColon q.page_size) (
            All-append _ (codes " OFFSET ") _ (literal " OFFSET " refl)
              (to_string-HasNoColon ((q.page - 1) * q.page_size)))))
    | inr off ↦ rw off tt
  ]

  distinct-HasNoColon :
      (q : SqlSelect V) → All HasNoColon q.distinct_on_fields → HasNoColon (distinct_clause q)
  unfolding distinct_clause
  distinct-HasNoColon q h = elim (Bool-cases (not (is_empty q.distinct_on_fields))) [
    | inl some_field ↦ rw some_field (
        All-append _ (codes "DISTINCT ON (") _ (literal "DISTINCT ON (" refl) (
          All-append _ (join (codes ", ") q.distinct_on_fields) _
            (join-HasNoColon (codes ", ") q.distinct_on_fields (literal ", " refl) h)
            (literal ") " refl)))
    | inr nothing ↦ rw nothing (elim (Bool-cases q.distinct_rows) [
      | inl rows ↦ rw rows (literal "DISTINCT " refl)
      | inr all ↦ rw all tt
    ])
  ]

  fields-HasNoColon : (q : SqlSelect V) → All HasNoColon q.fields → HasNoColon (fields_of q)
  unfolding fields_of
  fields-HasNoColon q h = elim (Bool-cases (is_empty q.fields)) [
    | inl e ↦ rw e (literal "*" refl)
    | inr e ↦ rw e (join-HasNoColon (codes ", ") q.fields (literal ", " refl) h)
  ]

  order-HasNoColon :
      (q : SqlSelect V) → All HasNoColon q.order_by_clauses → HasNoColon (order_part q)
  unfolding order_part
  order-HasNoColon q h = elim (Bool-cases (is_empty q.order_by_clauses)) [
    | inl e ↦ rw e tt
    | inr e ↦ rw e (
        All-append _ (codes " ORDER BY ") _ (literal " ORDER BY " refl)
          (join-HasNoColon (codes ", ") q.order_by_clauses (literal ", " refl) h))
  ]

  -- What comes after the conditions.
  end_of : SqlSelect V → List ℕ
  end_of q = order_part q ++ (limit_part q ++ codes ";")

  limit_stops : (q : SqlSelect V) → stops (limit_part q ++ codes ";") ≡ true
  unfolding limit_part is_word
  limit_stops q = elim (Bool-cases (ltb 0 q.page && ltb 0 q.page_size)) [
    | inl on ↦ rw on refl
    | inr off ↦ rw off refl
  ]

  end_stops : (q : SqlSelect V) → stops (end_of q) ≡ true
  unfolding end_of order_part is_word
  end_stops q = elim (Bool-cases (is_empty q.order_by_clauses)) [
    | inl e ↦ rw e (limit_stops q)
    | inr e ↦ rw e refl
  ]

  end_placeholders :
      (q : SqlSelect V) → All HasNoColon q.order_by_clauses → placeholders (end_of q) ≡ []
  unfolding end_of
  end_placeholders q h =
      placeholders-skip (order_part q) _ (order-HasNoColon q h)
      ∙ placeholders-skip (limit_part q) _ (limit-HasNoColon q)
      ∙ unfold placeholders in refl

  clause_not_empty : (c : Condition V) → is_empty (clause_of c) ≡ false
  unfolding clause_of
  clause_not_empty c = append_not_empty c.field _ (unfold is_empty in refl)

  where_not_empty :
      (c : Condition V) (cs : List (Condition V)) → is_empty (build_where_clause (c ∷ cs)) ≡ false
  unfolding build_where_clause clauses join more_clauses
  where_not_empty c [] = clause_not_empty c
  where_not_empty c (d ∷ cs) = empty_append (clause_of c) _ (clause_not_empty c)

  where_part-placeholders :
      (cs : List (Condition V)) (rest : List ℕ)
      → HasNames cs
      → stops rest ≡ true
      → placeholders (where_part cs ++ rest) ≡ names cs ++ placeholders rest
  unfolding where_part
  where_part-placeholders [] rest h e = unfold build_where_clause clauses join is_empty in refl
  where_part-placeholders (c ∷ cs) rest h e = rw (where_not_empty c cs) (
      ap placeholders (append_assoc (codes " WHERE ") (build_where_clause (c ∷ cs)) rest)
      ∙ placeholders-skip (codes " WHERE ") _ (literal " WHERE " refl)
      ∙ where-placeholders c cs rest h e)

  pub statement-placeholders :
      (table : List ℕ) (q : SqlSelect V)
      → IsPlain table q
      → placeholders (build_select_statement table q) ≡ names q.conditions
  unfolding build_select_statement end_of
  statement-placeholders table q h =
      placeholders-skip (codes "SELECT ") _ (literal "SELECT " refl)
      ∙ placeholders-skip (distinct_clause q) _ (distinct-HasNoColon q h.distinct_plain)
      ∙ placeholders-skip (fields_of q) _ (fields-HasNoColon q h.fields_plain)
      ∙ placeholders-skip (codes " FROM ") _ (literal " FROM " refl)
      ∙ placeholders-skip table _ h.table_plain
      ∙ where_part-placeholders q.conditions (end_of q) h.named (end_stops q)
      ∙ ap (◌++◌ (names q.conditions)) (end_placeholders q h.order_plain)
      ∙ append-nil (names q.conditions)
