-- ===== src/Radar/Overrun/Growth.antt =====
-- How the marks of the index table of RadarOverrun.cpp change as it grows.
use infinity_station.Base.{
  ℕ, zero, suc, ◌+◌, ◌≤◌, ◌<◌, ◌≡◌, ◌≢◌, refl, subst, ◌∙◌, Bool, true, false, [], ◌∷◌, none, some,
  ◌==◌, arith, inl, inr, Bool-cases, Option-cases,
}
use infinity_station.Radar.Overrun.Table.{
  IndexTable, lookup, mark, first_unused, Distinct, assign_unused, add_unused, IsMap,
}

pub lookup-mark : (i j : ℕ) (u : Bool) (t : IndexTable) → j ≢ i → lookup j (mark i u t) ≡ lookup j t
unfolding lookup mark
lookup-mark i j u [] h = refl
lookup-mark i j u ((k, v) ∷ t) h = ground (arith, lookup-mark i j u t h)

pub lookup-mark-same :
    (i : ℕ) (u v : Bool) (t : IndexTable) → lookup i t ≡ some v → lookup i (mark i u t) ≡ some u
unfolding lookup mark
lookup-mark-same i u v [] h = cc
lookup-mark-same i u v ((k, w) ∷ t) h = elim (Bool-cases (k == i)) [
  | inl same ↦ ground (arith, same)
  | inr other ↦ ground (arith, lookup-mark-same i u v t, other)
]

pub mark-Distinct : (i : ℕ) (u : Bool) (t : IndexTable) → Distinct t → Distinct (mark i u t)
unfolding Distinct mark
mark-Distinct i u [] d = tt
mark-Distinct i u ((k, v) ∷ t) d = elim (Bool-cases (k == i)) [
  | inl same ↦ ground (arith, same, d)
  | inr other ↦ ground (arith, other, d, mark-Distinct i u t d.1, lookup-mark i k u t)
]

-- A walk ends at an unused index, where no two entries have one index.
pub first_unused-lookup :
    (i : ℕ) (t : IndexTable) → Distinct t → first_unused t ≡ some i → lookup i t ≡ some false
unfolding lookup first_unused Distinct
first_unused-lookup i [] d e = cc
first_unused-lookup i ((k, true) ∷ t) d e =
    let later = first_unused-lookup i t d.1 e in ground (arith, later, d.0)
first_unused-lookup i ((k, false) ∷ t) d e = ground (arith, e)

pub first_unused-none : (i : ℕ) (t : IndexTable) → first_unused t ≡ none → lookup i t ≢ some false
unfolding lookup first_unused
first_unused-none i [] e h = cc
first_unused-none i ((k, true) ∷ t) e h = ground (arith, first_unused-none i t e, h)
first_unused-none i ((k, false) ∷ t) e h = cc

module _ (place : ℕ → IndexTable → IndexTable) (m : IsMap place) where
  lookup-assign : (i : ℕ) (t : IndexTable) → lookup i (assign_unused place i t) ≡ some false
  unfolding assign_unused
  lookup-assign i t = elim (Option-cases (lookup i t)) [
    | inl absent ↦ ground (arith, absent, m.has i t absent)
    | inr (u, is) ↦ ground (arith, is, lookup-mark-same i false u t is)
  ]

  lookup-assign-other :
      (i j : ℕ) (t : IndexTable) → j ≢ i → lookup j (assign_unused place i t) ≡ lookup j t
  unfolding assign_unused
  lookup-assign-other i j t h = elim (Option-cases (lookup i t)) [
    | inl absent ↦ ground (arith, absent, m.keeps i j t absent h)
    | inr (u, is) ↦ ground (arith, is, lookup-mark i j false t h)
  ]

  assign-Distinct : (i : ℕ) (t : IndexTable) → Distinct t → Distinct (assign_unused place i t)
  unfolding assign_unused
  assign-Distinct i t d = elim (Option-cases (lookup i t)) [
    | inl absent ↦ ground (arith, absent, m.distinct i t absent d)
    | inr (u, is) ↦ ground (arith, is, mark-Distinct i false t d)
  ]

  pub lookup-add-below :
      (start n j : ℕ) (t : IndexTable)
      → j < start
      → lookup j (add_unused place start n t) ≡ lookup j t
  unfolding add_unused
  lookup-add-below start zero j t h = refl
  lookup-add-below start (suc n) j t h =
      lookup-add-below (suc start) n j (assign_unused place start t) (omega arith)
      ∙ lookup-assign-other start j t (λ e. omega (arith, e))

  pub lookup-add-above :
      (start n j : ℕ) (t : IndexTable)
      → start + n ≤ j
      → lookup j (add_unused place start n t) ≡ lookup j t
  unfolding add_unused
  lookup-add-above start zero j t h = refl
  lookup-add-above start (suc n) j t h =
      lookup-add-above (suc start) n j (assign_unused place start t) (omega arith)
      ∙ lookup-assign-other start j t (λ e. omega (arith, e))

  pub lookup-add-start :
      (start n : ℕ) (t : IndexTable) → lookup start (add_unused place start (suc n) t) ≡ some false
  unfolding add_unused
  lookup-add-start start n t =
      lookup-add-below (suc start) n start (assign_unused place start t) (omega arith)
      ∙ lookup-assign start t

  pub add-Distinct :
      (start n : ℕ) (t : IndexTable) → Distinct t → Distinct (add_unused place start n t)
  unfolding add_unused
  add-Distinct start zero t d = d
  add-Distinct start (suc n) t d =
      add-Distinct (suc start) n (assign_unused place start t) (assign-Distinct start t d)

  pub lookup-add-inside :
      (start n j : ℕ) (t : IndexTable)
      → start ≤ j
      → j < start + n
      → lookup j (add_unused place start n t) ≡ some false
  unfolding add_unused
  lookup-add-inside start zero j t low high = absurd (omega arith)
  lookup-add-inside start (suc n) j t low high = elim (Bool-cases (j == start)) [
    | inl same ↦
        subst
          (λ x.
            lookup x (add_unused place (suc start) n (assign_unused place start t)) ≡ some false)
          (ground (arith, same)) (lookup-add-start start n t)
    | inr other ↦
        lookup-add-inside (suc start) n j (assign_unused place start t) (ground (arith, other, low))
          (omega arith)
  ]
