-- ===== src/Radar/Overrun/Room.antt =====
-- The index table of RadarOverrun.cpp while it need not grow.
use infinity_station.Base.{
  ℕ, suc, ◌<◌, ◌≡◌, ◌≢◌, refl, ◌∙◌, true, false, [], ◌∷◌, some, arith, inl, inr, Bool-cases, ◌==◌,
}
use infinity_station.Radar.Overrun.Table.{
  IndexTable, lookup, mark, first_unused, Distinct, get_hash_index, unused,
}
use infinity_station.Radar.Overrun.Growth.{
  lookup-mark, lookup-mark-same, mark-Distinct, first_unused-lookup,
}

first_unused-room : (t : IndexTable) → 0 < unused t → (i : ℕ) × (first_unused t ≡ some i)
unfolding unused first_unused
first_unused-room [] room = absurd (omega (arith, room))
first_unused-room ((k, true) ∷ t) room = first_unused-room t room
first_unused-room ((k, false) ∷ t) room = (k, refl)

unused-mark :
    (i : ℕ) (t : IndexTable) → lookup i t ≡ some false → suc (unused (mark i true t)) ≡ unused t
unfolding unused mark lookup
unused-mark i [] h = cc
unused-mark i ((k, true) ∷ t) h = elim (Bool-cases (k == i)) [
  | inl same ↦ absurd (ground (arith, same, h))
  | inr other ↦ ground (arith, other, unused-mark i t, h)
]
unused-mark i ((k, false) ∷ t) h = elim (Bool-cases (k == i)) [
  | inl same ↦ ground (arith, same)
  | inr other ↦ ground (arith, other, unused-mark i t, h)
]

pub get_hash_index-room :
    (place : ℕ → IndexTable → IndexTable) (t : IndexTable)
    → Distinct t
    → 0 < unused t
    → (i : ℕ) × (t' : IndexTable) × (get_hash_index place t ≡ some (i, t'))
      × (lookup i t ≢ some true)
      × (lookup i t' ≡ some true)
      × ((j : ℕ) → lookup j t ≡ some true → lookup j t' ≡ some true)
      × Distinct t'
      × (suc (unused t') ≡ unused t)
unfolding get_hash_index
get_hash_index-room place t d room =
    let (i, is) = first_unused-room t room in
    let free = first_unused-lookup i t d is in
    (
      i,
      mark i true t,
      ground (arith, is),
      λ h. cc (h, free),
      lookup-mark-same i true false t free,
      λ j h. lookup-mark i j true t (λ e. cc (h, free, e)) ∙ h,
      mark-Distinct i true t d,
      unused-mark i t free,
    )
