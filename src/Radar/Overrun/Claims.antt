-- ===== src/Radar/Overrun/Claims.antt =====
-- Which indices the table of RadarOverrun.cpp gives.
use infinity_station.Base.{
  ℕ, ◌+◌, ◌≤◌, ◌<◌, ◌≡◌, ◌≢◌, refl, ap, sym, subst, ◌-◌, ltb, ◌∙◌, Bool, true, false, some, arith,
  ◌⊎◌, inl, inr, Bool-cases, Option-cases,
}
use infinity_station.Radar.Overrun.Table.{
  IndexTable, lookup, mark, first_unused, begin_index, Distinct, add_unused, expand_hash_table,
  get_hash_index, IsMap,
}
use infinity_station.Radar.Overrun.Growth.{
  lookup-mark, lookup-mark-same, mark-Distinct, first_unused-lookup, first_unused-none,
  lookup-add-below, lookup-add-above, lookup-add-start, lookup-add-inside, add-Distinct,
}

module _ (place : ℕ → IndexTable → IndexTable) (m : IsMap place) where
  -- The table from which the index is taken.
  unfoldable pub IsSource : IndexTable → IndexTable → Type 0
  IsSource t s =
      (s ≡ t) ⊎ (((j : ℕ) → lookup j t ≢ some false) × (s ≡ add_unused place (begin_index t) 10 t))

  pub get_hash_index-IsSource :
      (t : IndexTable)
      → (s : IndexTable) × (i : ℕ) × IsSource t s
        × (first_unused s ≡ some i)
        × (get_hash_index place t ≡ some (i, mark i true s))
  unfolding IsSource get_hash_index expand_hash_table
  get_hash_index-IsSource t =
      let s = add_unused place (begin_index t) 10 t in
      elim (Option-cases (first_unused t)) [
        | inr (i, is) ↦ (t, i, inl refl, is, ground (arith, is))
        | inl absent ↦ elim (Option-cases (first_unused s)) [
          | inr (i, is) ↦ (
            s,
            i,
            inr ((λ j. first_unused-none j t absent), refl),
            is,
            ground (arith, absent, is),
          )
          | inl missing ↦ absurd (
              first_unused-none (begin_index t) s missing
                (lookup-add-start place m (begin_index t) 9 t))
        ]
      ]

  source-Distinct : (t s : IndexTable) → IsSource t s → Distinct t → Distinct s
  unfolding IsSource
  source-Distinct t s (inl same) d = subst Distinct (sym same) d
  source-Distinct t s (inr (_, more)) d =
      subst Distinct (sym more) (add-Distinct place m (begin_index t) 10 t d)

  source-used :
      (t s : IndexTable) (j : ℕ) → IsSource t s → j < begin_index t → lookup j s ≡ lookup j t
  unfolding IsSource
  source-used t s j (inl same) below = cc
  source-used t s j (inr (_, more)) below =
      ap (lookup j) more ∙ lookup-add-below place m (begin_index t) 10 j t below

  -- An index in the table that was full.
  source-again :
      (t s : IndexTable) (i : ℕ)
      → IsSource t s
      → ((j : ℕ) → lookup j t ≢ some false)
      → lookup i s ≡ some false
      → (n : ℕ) × (n < 10) × (i ≡ begin_index t + n)
  unfolding IsSource
  source-again t s i (inl same) full unused = absurd (full i (ap (lookup i) (sym same) ∙ unused))
  source-again t s i (inr (_, more)) full unused =
      let here = ap (lookup i) (sym more) ∙ unused in
      elim (Bool-cases (ltb i (begin_index t))) [
        | inl low ↦ absurd (
            full i
              (sym (lookup-add-below place m (begin_index t) 10 i t (ground (arith, low))) ∙ here))
        | inr high ↦ elim (Bool-cases (ltb i (begin_index t + 10))) [
          | inl low ↦ (i - begin_index t, ground (arith, low, high), ground (arith, high))
          | inr beyond ↦ absurd (
              full i (
                sym (lookup-add-above place m (begin_index t) 10 i t (ground (arith, beyond)))
                ∙ here))
        ]
      ]

  source-lost :
      (t s : IndexTable) (j : ℕ)
      → IsSource t s
      → ((j : ℕ) → lookup j t ≢ some false)
      → (i : ℕ) → lookup i s ≡ some false
      → begin_index t ≤ j
      → j < begin_index t + 10
      → lookup j s ≡ some false
  unfolding IsSource
  source-lost t s j (inl same) full i unused low high =
      absurd (full i (ap (lookup i) (sym same) ∙ unused))
  source-lost t s j (inr (_, more)) full i unused low high =
      ap (lookup j) more ∙ lookup-add-inside place m (begin_index t) 10 j t low high

  -- Where the map keeps its entries, no two of them have one index, and no index is beyond that of
  -- the first entry of a walk: an index is always found; it is not in use before and is in use
  -- afterwards, every other index in use stays so, and again no two entries have one index.
  pub get_hash_index-unused :
      (t : IndexTable)
      → Distinct t
      → ((j : ℕ) (u : Bool) → lookup j t ≡ some u → j < begin_index t)
      → (i : ℕ) × (t' : IndexTable) × (get_hash_index place t ≡ some (i, t'))
        × (lookup i t ≢ some true)
        × (lookup i t' ≡ some true)
        × ((j : ℕ) → lookup j t ≡ some true → lookup j t' ≡ some true)
        × Distinct t'
  get_hash_index-unused t d below =
      let (s, i, source, first, is) = get_hash_index-IsSource t in
      let ds = source-Distinct t s source d in
      let unused = first_unused-lookup i s ds first in
      let kept =
        λ (j : ℕ) (h : lookup j t ≡ some true). source-used t s j source (below j true h) ∙ h in
      (
        i,
        mark i true s,
        is,
        λ h. absurd (cc (kept i h, unused)),
        lookup-mark-same i true false s unused,
        λ j h. lookup-mark i j true s (λ e. cc (kept j h, unused, e)) ∙ kept j h,
        mark-Distinct i true s ds,
      )

  -- Where the map keeps its entries, no two of them have one index, every index of the table is in
  -- use, and so are the ten after that of the first entry of a walk: an index is given that is in use
  -- already, and the nine others of the ten are marked unused.
  pub get_hash_index-again :
      (t : IndexTable)
      → Distinct t
      → ((j : ℕ) → lookup j t ≢ some false)
      → ((n : ℕ) → n < 10 → lookup (begin_index t + n) t ≡ some true)
      → (i : ℕ) × (t' : IndexTable) × (get_hash_index place t ≡ some (i, t'))
        × (lookup i t ≡ some true)
        × ((n : ℕ) → n < 10 → begin_index t + n ≢ i → lookup (begin_index t + n) t' ≡ some false)
  get_hash_index-again t d full used =
      let (s, i, source, first, is) = get_hash_index-IsSource t in
      let unused = first_unused-lookup i s (source-Distinct t s source d) first in
      let (n, small, at) = source-again t s i source full unused in
      (
        i,
        mark i true s,
        is,
        subst (λ j. lookup j t ≡ some true) (sym at) (used n small),
        λ n' small' other.
            lookup-mark i (begin_index t + n') true s other
            ∙ source-lost t s (begin_index t + n') source full i unused (omega arith) (omega arith),
      )
