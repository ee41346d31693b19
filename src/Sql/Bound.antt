-- ===== src/Sql/Bound.antt =====
-- Which values the placeholders of a query have when it runs, and the reads of OfflineSqlOp.cpp.
use infinity_station.Base.{
  ℕ, ◌≡◌, refl, ap, ap₂, ◌∙◌, true, false, List, [], ◌∷◌, map, Option, some, All, if◌then◌else◌,
}
use infinity_station.Base.Text.{same_text, same_text_refl, find_key, put_key, find_key-put_key}
use infinity_station.Sql.{Condition, bind_conditions, placeholders}
use infinity_station.Sql.Select.{SqlSelect, exec}
use infinity_station.Sql.Placeholders.{names}
use infinity_station.Sql.Statement.{IsPlain, statement-placeholders}

module _ {V : Type 0} where
  -- The value of the last condition on a field.
  abbrev pub last_value : List ℕ → List (Condition V) → Option V → Option V
  last_value field [] before = before
  last_value field (c ∷ cs) before =
      last_value field cs (if same_text c.field field then some c.value else before)

  bind_conditions-last :
      (field : List ℕ) (cs : List (Condition V)) (bound : List (List ℕ × V))
      → find_key (b':' ∷ field) (bind_conditions cs bound)
        ≡ last_value field cs (find_key (b':' ∷ field) bound)
  unfolding bind_conditions
  bind_conditions-last field [] bound = refl
  bind_conditions-last field (c ∷ cs) bound =
      bind_conditions-last field cs (put_key (b':' ∷ c.field) c.value bound)
      ∙ ap (last_value field cs) (
          find_key-put_key (b':' ∷ c.field) (b':' ∷ field) c.value bound
          ∙ ap (λ b. if b then some c.value else find_key (b':' ∷ field) bound)
              (unfold same_text in refl))

  -- No two conditions are on one field.
  abbrev pub HasOwnFields : List (Condition V) → Type 0
  HasOwnFields [] = Unit {0}
  HasOwnFields (c ∷ cs) =
      All (λ (d : Condition V). same_text d.field c.field ≡ false) cs × HasOwnFields cs

  last_value-absent :
      (field : List ℕ) (cs : List (Condition V)) (before : Option V)
      → All (λ (d : Condition V). same_text d.field field ≡ false) cs
      → last_value field cs before ≡ before
  last_value-absent field [] before h = refl
  last_value-absent field (c ∷ cs) before h = rw (h.0) (last_value-absent field cs before h.1)

  last_value-own :
      (cs : List (Condition V)) (before : List ℕ → Option V)
      → HasOwnFields cs
      → map (λ (c : Condition V). last_value c.field cs (before c.field)) cs
        ≡ map (λ (c : Condition V). some c.value) cs
  last_value-own [] before h = refl
  last_value-own (c ∷ cs) before h =
      ap₂ ◌∷◌ (rw (same_text_refl c.field) (last_value-absent c.field cs (some c.value) h.0))
        (last_value-own cs (λ f. if same_text c.field f then some c.value else before f) h.1)

  names-last :
      (cs ds : List (Condition V)) (bound : List (List ℕ × V))
      → map (λ p. find_key p (bind_conditions ds bound)) (names cs)
        ≡ map (λ (c : Condition V). last_value c.field ds (find_key (b':' ∷ c.field) bound)) cs
  names-last [] ds bound = refl
  names-last (c ∷ cs) ds bound =
      ap₂ ◌∷◌ (bind_conditions-last c.field ds bound) (names-last cs ds bound)

  -- The values at the placeholders of the statement, in order.
  abbrev pub values : SqlSelect V → List (Option V)
  values q = map (λ p. find_key p q.bound) (placeholders q.sql)

  -- A query that runs gives each placeholder, in the order of the statement, the value of the last
  -- condition on the same field.
  pub exec-last :
      (table : List ℕ) (q : SqlSelect V)
      → IsPlain table q
      → ((exec table true true q).1 ≡ true)
        × (values (exec table true true q).0
            ≡ map
                (λ (c : Condition V).
                  last_value c.field q.conditions (find_key (b':' ∷ c.field) q.bound))
                q.conditions)
  unfolding exec
  exec-last table q h = (
    refl,
    ap (map (λ p. find_key p (bind_conditions q.conditions q.bound)))
          (statement-placeholders table q h)
        ∙ names-last q.conditions q.conditions q.bound,
  )

  -- For a query whose table, fields, DISTINCT fields and clauses of order have no colon, whose
  -- conditions are on fields with names that are words, and no two of them on one field: when the data
  -- base prepares and runs the statement, its placeholders are bound, in the order of the statement, to
  -- the values of the conditions.
  pub exec-own :
      (table : List ℕ) (q : SqlSelect V)
      → IsPlain table q
      → HasOwnFields q.conditions
      → values (exec table true true q).0 ≡ map (λ (c : Condition V). some c.value) q.conditions
  exec-own table q h own =
      (exec-last table q h).1 ∙ last_value-own q.conditions (λ f. find_key (b':' ∷ f) q.bound) own
