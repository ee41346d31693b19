-- ===== src/Location/Poles.antt =====
-- Which pole `selectLineData` takes for a position.
use infinity_station.Base.{
  ℕ, ◌+◌, ◌-◌, ◌≤◌, ◌<◌, ◌≡◌, ◌≢◌, refl, sym, subst, ◌++◌, ◌∙◌, ap, ap₂, true, false, ◌&&◌, List,
  [], ◌∷◌, Option, none, some, arith, All, ◌==◌, ltb, Bool-cases, Option-cases, inl, inr,
}
use infinity_station.Location.{
  Pole, PositionData, higher, highest, where_less, where_greater, select_kilometer_less,
  select_kilometer_great, position_at, position_of, choose, select_line_data, apart,
}

All-le_trans :
    (rs : List Pole) (x y : ℕ)
    → x ≤ y
    → All (λ (r : Pole). r.kilo_meter ≤ x) rs
    → All (λ (r : Pole). r.kilo_meter ≤ y) rs
All-le_trans [] x y h a = tt
All-le_trans (r ∷ rs) x y h a = (omega (arith, a.0), All-le_trans rs x y h a.1)

higher-max :
    (r : Pole) (rs : List Pole)
    → All (λ (q : Pole). q.kilo_meter ≤ (higher r (highest rs)).kilo_meter) (r ∷ rs)
unfolding higher highest
higher-max r [] = (omega arith, tt)
higher-max r (q ∷ rs) = (
  ground arith,
  All-le_trans (q ∷ rs) (higher q (highest rs)).kilo_meter _ (ground arith) (higher-max q rs),
)

higher-All {κ} :
    (P : Pole → Type κ) (r : Pole) (rs : List Pole) → All P (r ∷ rs) → P (higher r (highest rs))
unfolding higher highest
higher-All P r [] h = h.0
higher-All P r (q ∷ rs) h =
    elim (Bool-cases (ltb r.kilo_meter (higher q (highest rs)).kilo_meter)) [
      | inl t ↦ rw t (higher-All P q rs h.1)
      | inr f ↦ rw f h.0
    ]

highest-some : (rs : List Pole) → rs ≢ [] → (b : Pole) × (highest rs ≡ some b)
unfolding highest
highest-some [] h = absurd (h refl)
highest-some (r ∷ rs) h = (higher r (highest rs), refl)

highest-max :
    (rs : List Pole) (b : Pole)
    → highest rs ≡ some b
    → All (λ (r : Pole). r.kilo_meter ≤ b.kilo_meter) rs
unfolding highest
highest-max [] b e = tt
highest-max (r ∷ rs) b e =
    subst (λ (c : Option Pole). All (λ (q : Pole). q.kilo_meter ≤ (value_of c).kilo_meter) (r ∷ rs))
      e (higher-max r rs)
  where
    value_of : Option Pole → Pole
    value_of none = r
    value_of (some c) = c

highest-All {κ} :
    (P : Pole → Type κ) (rs : List Pole) (b : Pole) → All P rs → highest rs ≡ some b → P b
unfolding highest
highest-All P [] b h e = cc
highest-All P (r ∷ rs) b h e = subst (λ (c : Option Pole). P (value_of c)) e (higher-All P r rs h)
  where
    value_of : Option Pole → Pole
    value_of none = r
    value_of (some c) = c

where_less-below :
    (dis dir : ℕ) (table : List Pole)
    → All (λ (r : Pole). r.kilo_meter < dis) (where_less dis dir table)
unfolding where_less
where_less-below dis dir [] = tt
where_less-below dis dir (r ∷ rs) = elim (Bool-cases (ltb r.kilo_meter dis && r.line_dir == dir)) [
  | inl t ↦ rw t (ground arith, where_less-below dis dir rs)
  | inr f ↦ rw f (where_less-below dis dir rs)
]

where_greater-above :
    (dis dir : ℕ) (table : List Pole)
    → All (λ (r : Pole). dis < r.kilo_meter) (where_greater dis dir table)
unfolding where_greater
where_greater-above dis dir [] = tt
where_greater-above dis dir (r ∷ rs) =
    elim (Bool-cases (ltb dis r.kilo_meter && r.line_dir == dir)) [
      | inl t ↦ rw t (ground arith, where_greater-above dis dir rs)
      | inr f ↦ rw f (where_greater-above dis dir rs)
    ]

-- No pole behind is nearer than a pole that is not behind the nearest one.
All-apart :
    (dis x : ℕ) (rs : List Pole) (l : Pole)
    → All (λ (r : Pole). r.kilo_meter < dis) rs
    → All (λ (r : Pole). r.kilo_meter ≤ l.kilo_meter) rs
    → x ≤ dis - l.kilo_meter
    → All (λ (r : Pole). x ≤ apart dis r.kilo_meter) rs
All-apart dis x [] l below least h = tt
All-apart dis x (r ∷ rs) l below least h =
    (ground (arith, below.0, least.0), All-apart dis x rs l below.1 least.1 h)

highest-none {κ} : (P : Pole → Type κ) (rs : List Pole) → highest rs ≡ none → All P rs
unfolding highest
highest-none P [] e = tt
highest-none P (r ∷ rs) e = cc

less-below :
    (dis dir : ℕ) (table : List Pole) (l : Pole)
    → select_kilometer_less dis dir table ≡ some l
    → l.kilo_meter < dis
unfolding select_kilometer_less
less-below dis dir table l =
    highest-All (λ r. r.kilo_meter < dis) (where_less dis dir table) l
      (where_less-below dis dir table)

great-above :
    (dis dir : ℕ) (table : List Pole) (g : Pole)
    → select_kilometer_great dis dir table ≡ some g
    → dis < g.kilo_meter
unfolding select_kilometer_great
great-above dis dir table g =
    highest-All (λ r. dis < r.kilo_meter) (where_greater dis dir table) g
      (where_greater-above dis dir table)

-- A pole that is no farther than the one behind is no farther than any behind.
less-All :
    (dis dir x : ℕ) (table : List Pole) (l : Pole)
    → select_kilometer_less dis dir table ≡ some l
    → x ≤ dis - l.kilo_meter
    → All (λ (q : Pole). x ≤ apart dis q.kilo_meter) (where_less dis dir table)
unfolding select_kilometer_less
less-All dis dir x table l e h =
    All-apart dis x (where_less dis dir table) l (where_less-below dis dir table)
      (highest-max (where_less dis dir table) l e) h

less-none :
    (dis dir x : ℕ) (table : List Pole)
    → select_kilometer_less dis dir table ≡ none
    → All (λ (q : Pole). x ≤ apart dis q.kilo_meter) (where_less dis dir table)
unfolding select_kilometer_less
less-none dis dir x table e = highest-none _ (where_less dis dir table) e

great-some :
    (dis dir : ℕ) (table : List Pole)
    → where_greater dis dir table ≢ []
    → (g : Pole) × (select_kilometer_great dis dir table ≡ some g)
unfolding select_kilometer_great
great-some dis dir table h = highest-some (where_greater dis dir table) h

by_poles :
    (dis dir : ℕ) (table : List Pole) (l g : Option Pole) (p : PositionData)
    → select_kilometer_less (dis + 1000) dir table ≡ l
    → select_kilometer_great (dis + 1000) dir table ≡ g
    → select_line_data dis dir table p ≡ position_of (dis + 1000) (choose (dis + 1000) l g) p
unfolding select_line_data
by_poles dis dir table l g p e e' =
    ap₂ (λ a b. position_of (dis + 1000) (choose (dis + 1000) a b) p) e e'

choose-nearer :
    (dis : ℕ) (l g : Pole)
    → ltb (dis - l.kilo_meter) (g.kilo_meter - dis) ≡ true
    → choose dis (some l) (some g) ≡ some l
unfolding choose
choose-nearer dis l g e = rw e refl

choose-farther :
    (dis : ℕ) (l g : Pole)
    → ltb (dis - l.kilo_meter) (g.kilo_meter - dis) ≡ false
    → choose dis (some l) (some g) ≡ some g
unfolding choose
choose-farther dis l g e = rw e refl

-- Where a pole of the direction lies ahead of the position moved on by a metre, a pole is found, and
-- no pole behind that position is nearer to it.
pub select_line_data-behind :
    (dis dir : ℕ) (table : List Pole) (p : PositionData)
    → where_greater (dis + 1000) dir table ≢ []
    → (r : Pole) × (select_line_data dis dir table p ≡ some (position_at (dis + 1000) r p))
      × All
          (λ (q : Pole). apart (dis + 1000) r.kilo_meter ≤ apart (dis + 1000) q.kilo_meter)
          (where_less (dis + 1000) dir table)
unfolding position_of choose
select_line_data-behind dis dir table p ahead =
    let (g, found) = great-some (dis + 1000) dir table ahead in
    let above = great-above (dis + 1000) dir table g found in
    elim (Option-cases (select_kilometer_less (dis + 1000) dir table)) [
      | inl nobody ↦ (
        g,
        by_poles dis dir table none (some g) p nobody found,
        less-none (dis + 1000) dir _ table nobody,
      )
      | inr (l, behind) ↦
          let below = less-below (dis + 1000) dir table l behind in
          elim (Bool-cases (ltb ((dis + 1000) - l.kilo_meter) (g.kilo_meter - (dis + 1000)))) [
            | inl nearer ↦ (
              l,
              by_poles dis dir table (some l) (some g) p behind found
                  ∙ ap (λ a. position_of (dis + 1000) a p) (choose-nearer (dis + 1000) l g nearer),
              less-All (dis + 1000) dir _ table l behind (ground arith),
            )
            | inr farther ↦ (
              g,
              by_poles dis dir table (some l) (some g) p behind found
                  ∙ ap (λ a. position_of (dis + 1000) a p)
                      (choose-farther (dis + 1000) l g farther),
              less-All (dis + 1000) dir _ table l behind (ground arith),
            )
          ]
    ]

All-middle {κ} :
    (P : Pole → Type κ) (xs : List Pole) (f : Pole) (ys : List Pole) → All P (xs ++ f ∷ ys) → P f
All-middle P [] f ys h = h.0
All-middle P (x ∷ xs) f ys h = All-middle P xs f ys h.1

append_ne_nil : (xs : List Pole) (f : Pole) (ys : List Pole) → xs ++ f ∷ ys ≢ []
append_ne_nil [] f ys e = cc
append_ne_nil (x ∷ xs) f ys e = cc

great-max :
    (dis dir : ℕ) (table : List Pole) (g : Pole)
    → select_kilometer_great dis dir table ≡ some g
    → All (λ (r : Pole). r.kilo_meter ≤ g.kilo_meter) (where_greater dis dir table)
unfolding select_kilometer_great
great-max dis dir table g e = highest-max (where_greater dis dir table) g e

-- If any pole ahead is farther off than the highest pole behind, the pole behind is taken, however
-- near the next pole ahead may be.
pub select_line_data-passed :
    (dis dir : ℕ) (table : List Pole) (p : PositionData) (l f : Pole) (xs ys : List Pole)
    → select_kilometer_less (dis + 1000) dir table ≡ some l
    → where_greater (dis + 1000) dir table ≡ xs ++ f ∷ ys
    → apart (dis + 1000) l.kilo_meter < apart (dis + 1000) f.kilo_meter
    → select_line_data dis dir table p ≡ some (position_at (dis + 1000) l p)
unfolding position_of
select_line_data-passed dis dir table p l f xs ys behind ahead far =
    let (g, found) =
      great-some (dis + 1000) dir table (λ e. append_ne_nil xs f ys (sym ahead ∙ e)) in
    let below = less-below (dis + 1000) dir table l behind in
    let above =
      All-middle (λ r. dis + 1000 < r.kilo_meter) xs f ys
        (rw (← ahead) (where_greater-above (dis + 1000) dir table)) in
    let last =
      All-middle (λ r. r.kilo_meter ≤ g.kilo_meter) xs f ys
        (rw (← ahead) (great-max (dis + 1000) dir table g found)) in
    let nearer : ltb ((dis + 1000) - l.kilo_meter) (g.kilo_meter - (dis + 1000)) ≡ true =
      ground arith in
    by_poles dis dir table (some l) (some g) p behind found
    ∙ ap (λ a. position_of (dis + 1000) a p) (choose-nearer (dis + 1000) l g nearer)
