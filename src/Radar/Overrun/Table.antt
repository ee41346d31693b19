-- ===== src/Radar/Overrun/Table.antt =====
-- The index table of RadarOverrun.cpp, m_overrun_hash_index: its entries in the order of a walk through
-- the unordered map. Where the map puts a new entry is a parameter, and that the entries may be in
-- another order afterwards is its matter too. An index is an unsigned number below 2^31.
use infinity_station.Base.{
  ℕ, zero, suc, ◌+◌, ◌≡◌, ◌≢◌, Bool, true, false, List, [], ◌∷◌, Option, none, some, ◌==◌,
  if◌then◌else◌,
}

abbrev pub IndexTable : Type 0
IndexTable = List (ℕ × Bool)

-- The mark that `find` reads.
unfoldable pub lookup : ℕ → IndexTable → Option Bool
lookup i [] = none
lookup i ((k, used) ∷ t) = if k == i then some used else lookup i t

unfoldable pub mark : ℕ → Bool → IndexTable → IndexTable
mark i used [] = []
mark i used ((k, u) ∷ t) = if k == i then (k, used) ∷ t else (k, u) ∷ mark i used t

-- The first entry of a walk that is not used.
unfoldable pub first_unused : IndexTable → Option ℕ
first_unused [] = none
first_unused ((k, true) ∷ t) = first_unused t
first_unused ((k, false) ∷ t) = some k

abbrev pub begin_index : IndexTable → ℕ
begin_index [] = 0
begin_index ((k, used) ∷ t) = k + 1

unfoldable pub return_index : ℕ → IndexTable → IndexTable
return_index i t = mark i false t

-- The number of indices that are not in use.
unfoldable pub unused : IndexTable → ℕ
unused [] = 0
unused ((k, true) ∷ t) = unused t
unused ((k, false) ∷ t) = suc (unused t)

-- No two entries have one index.
unfoldable pub Distinct : IndexTable → Type 0
Distinct [] = Unit
Distinct ((k, used) ∷ t) = (lookup k t ≡ none) × Distinct t

module _ (place : ℕ → IndexTable → IndexTable) where
  -- `m_overrun_hash_index[i] = false`
  unfoldable pub assign_unused : ℕ → IndexTable → IndexTable
  assign_unused i t = elim (lookup i t) [ none ↦ place i t | some used ↦ mark i false t ]

  unfoldable pub add_unused : ℕ → ℕ → IndexTable → IndexTable
  add_unused start zero t = t
  add_unused start (suc n) t = add_unused (suc start) n (assign_unused start t)

  unfoldable pub expand_hash_table : ℕ → IndexTable → IndexTable
  expand_hash_table n t = add_unused (begin_index t) n t

  -- `none` is the -1 after both walks.
  unfoldable pub get_hash_index : IndexTable → Option (ℕ × IndexTable)
  get_hash_index t = elim (first_unused t) [
    | some i ↦ some (i, mark i true t)
    | none ↦
        let t' = expand_hash_table 10 t in
        elim (first_unused t') [ some i ↦ some (i, mark i true t') | none ↦ none ]
  ]

  -- What an unordered map does with a new entry `(i, false)`.
  pub record IsMap : Type 0 where
    pub has : (i : ℕ) (t : IndexTable) → lookup i t ≡ none → lookup i (place i t) ≡ some false
    pub keeps :
        (i j : ℕ) (t : IndexTable) → lookup i t ≡ none → j ≢ i → lookup j (place i t) ≡ lookup j t
    pub distinct : (i : ℕ) (t : IndexTable) → lookup i t ≡ none → Distinct t → Distinct (place i t)
