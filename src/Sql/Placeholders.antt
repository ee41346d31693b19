-- ===== src/Sql/Placeholders.antt =====
-- The placeholders in the statements that SqlSelect.h builds.
use Prim.Native.String.{String}
use infinity_station.Base.{
  ℕ, ◌≡◌, refl, ap, sym, ◌∙◌, Bool, true, false, List, [], ◌∷◌, ◌++◌, arith, All, All-append, ◌==◌,
  if◌then◌else◌, Bool-cases, inl, inr,
}
use infinity_station.Base.Text.{codes}
use mathlib.Core.List.{append_assoc}
use infinity_station.Sql.{
  OperatorComparison, equal, not_equal, greater_than, less_than, greater_equal, less_equal,
  OperatorLogical, and_also, or_else, comparison_operator_map, logical_operator_map, Condition,
  join, clause_of, more_clauses, clauses, build_where_clause, is_word, word_of, placeholders,
}

abbrev pub HasNoColon : List ℕ → Type 0
HasNoColon = All (λ c. (c == b':') ≡ false)

-- That a text has no colon is computed for a literal.
abbrev pub no_colon : List ℕ → Bool
no_colon [] = true
no_colon (c ∷ cs) = if c == b':' then false else no_colon cs

pub no_colon_sound : (cs : List ℕ) → no_colon cs ≡ true → HasNoColon cs
no_colon_sound [] e = tt
no_colon_sound (c ∷ cs) e = elim (Bool-cases (c == b':')) [
  | inl t ↦ absurd (ground (arith, e, t))
  | inr f ↦ (f, no_colon_sound cs (ground (arith, e, f)))
]

pub literal : (s : String) → no_colon (codes s) ≡ true → HasNoColon (codes s)
literal s e = no_colon_sound (codes s) e

abbrev pub IsName : List ℕ → Type 0
IsName = All (λ c. is_word c ≡ true)

abbrev pub is_name : List ℕ → Bool
is_name [] = true
is_name (c ∷ cs) = if is_word c then is_name cs else false

pub is_name_sound : (cs : List ℕ) → is_name cs ≡ true → IsName cs
is_name_sound [] e = tt
is_name_sound (c ∷ cs) e = elim (Bool-cases (is_word c)) [
  | inl t ↦ (t, is_name_sound cs (ground (arith, e, t)))
  | inr f ↦ absurd (ground (arith, e, f))
]

-- No letter, digit or underline comes next.
abbrev pub stops : List ℕ → Bool
stops [] = true
stops (c ∷ cs) = if is_word c then false else true

pub placeholders-skip : (xs ys : List ℕ) → HasNoColon xs → placeholders (xs ++ ys) ≡ placeholders ys
unfolding placeholders
placeholders-skip [] ys h = refl
placeholders-skip (x ∷ xs) ys h = rw (h.0) (placeholders-skip xs ys h.1)

word_of-name : (f rest : List ℕ) → IsName f → stops rest ≡ true → word_of (f ++ rest) ≡ f
unfolding word_of
word_of-name [] [] h e = refl
word_of-name [] (r ∷ rest) h e = ground (arith, e)
word_of-name (c ∷ f) rest h e = rw (h.0) (ap (◌∷◌ c) (word_of-name f rest h.1 e))

word_ne_colon : (c : ℕ) → is_word c ≡ true → (c == b':') ≡ false
unfolding is_word
word_ne_colon c h = ground arith

pub name-HasNoColon : (f : List ℕ) → IsName f → HasNoColon f
name-HasNoColon [] h = tt
name-HasNoColon (c ∷ f) h = (word_ne_colon c h.0, name-HasNoColon f h.1)

pub placeholders-name :
    (f rest : List ℕ)
    → IsName f
    → stops rest ≡ true
    → placeholders (b':' ∷ (f ++ rest)) ≡ (b':' ∷ f) ∷ placeholders rest
unfolding placeholders
placeholders-name f rest h e =
    rw (word_of-name f rest h e, placeholders-skip f rest (name-HasNoColon f h)) refl

comparison-HasNoColon : (op : OperatorComparison) → HasNoColon (comparison_operator_map op)
unfolding comparison_operator_map
comparison-HasNoColon equal = (refl, tt)
comparison-HasNoColon not_equal = (refl, (refl, tt))
comparison-HasNoColon greater_than = (refl, tt)
comparison-HasNoColon less_than = (refl, tt)
comparison-HasNoColon greater_equal = (refl, (refl, tt))
comparison-HasNoColon less_equal = (refl, (refl, tt))

logical-HasNoColon : (op : OperatorLogical) → HasNoColon (logical_operator_map op)
unfolding logical_operator_map
logical-HasNoColon and_also = (refl, (refl, (refl, tt)))
logical-HasNoColon or_else = (refl, (refl, tt))

pub join-HasNoColon :
    (s : List ℕ) (ts : List (List ℕ)) → HasNoColon s → All HasNoColon ts → HasNoColon (join s ts)
unfolding join
join-HasNoColon s [] h a = tt
join-HasNoColon s (t ∷ []) h a = a.0
join-HasNoColon s (t ∷ u ∷ ts) h a =
    All-append _ t _ a.0 (All-append _ s _ h (join-HasNoColon s (u ∷ ts) h a.1))

module _ {V : Type 0} where
  abbrev pub names : List (Condition V) → List (List ℕ)
  names [] = []
  names (c ∷ cs) = (b':' ∷ c.field) ∷ names cs

  abbrev pub HasNames : List (Condition V) → Type 0
  HasNames = All (λ (c : Condition V). IsName c.field)

  clause-placeholders :
      (c : Condition V) (rest : List ℕ)
      → IsName c.field
      → stops rest ≡ true
      → placeholders (clause_of c ++ rest) ≡ (b':' ∷ c.field) ∷ placeholders rest
  unfolding clause_of
  clause-placeholders c rest h e =
      ap placeholders (clause_text c.field (comparison_operator_map c.op))
      ∙ placeholders-skip c.field _ (name-HasNoColon c.field h)
      ∙ placeholders-skip (codes " ") _ (refl, tt)
      ∙ placeholders-skip (comparison_operator_map c.op) _ (comparison-HasNoColon c.op)
      ∙ placeholders-skip (codes " ") _ (refl, tt)
      ∙ placeholders-name c.field rest h e
    where
      clause_text :
          (f o : List ℕ)
          → (f ++ (codes " " ++ (o ++ (codes " :" ++ f)))) ++ rest
            ≡ f ++ (codes " " ++ (o ++ (codes " " ++ (b':' ∷ (f ++ rest)))))
      clause_text f o = simp (append_assoc)

  more-placeholders :
      (pre : List ℕ) (c : Condition V) (cs : List (Condition V)) (rest : List ℕ)
      → HasNoColon pre
      → HasNames (c ∷ cs)
      → stops rest ≡ true
      → placeholders (join (codes " ") ((pre ++ clause_of c) ∷ more_clauses cs) ++ rest)
        ≡ names (c ∷ cs) ++ placeholders rest
  unfolding join more_clauses
  more-placeholders pre c [] rest p h e =
      ap placeholders (append_assoc pre (clause_of c) rest)
      ∙ placeholders-skip pre _ p
      ∙ clause-placeholders c rest h.0 e
  more-placeholders pre c (d ∷ cs) rest p h e =
      let word = logical_operator_map d.logic_operator in
      let later = join (codes " ") ((word ++ (codes " " ++ clause_of d)) ∷ more_clauses cs) in
      ap placeholders (
        append_assoc (pre ++ clause_of c) (codes " " ++ later) rest
        ∙ append_assoc pre (clause_of c) _)
      ∙ placeholders-skip pre _ p
      ∙ clause-placeholders c (codes " " ++ (later ++ rest)) h.0 (unfold is_word in refl)
      ∙ ap (◌∷◌ (b':' ∷ c.field)) (
          placeholders-skip (codes " ") (later ++ rest) (refl, tt)
          ∙ ap (λ t. placeholders (join (codes " ") (t ∷ more_clauses cs) ++ rest))
              (sym (append_assoc word (codes " ") (clause_of d)))
          ∙ more-placeholders (word ++ codes " ") d cs rest
              (All-append _ word _ (logical-HasNoColon d.logic_operator) (refl, tt)) h.1 e)

  pub where-placeholders :
      (c : Condition V) (cs : List (Condition V)) (rest : List ℕ)
      → HasNames (c ∷ cs)
      → stops rest ≡ true
      → placeholders (build_where_clause (c ∷ cs) ++ rest) ≡ names (c ∷ cs) ++ placeholders rest
  unfolding build_where_clause clauses
  where-placeholders c cs rest h e = more-placeholders [] c cs rest tt h e
