-- ===== src/Task/Lines/Walks.antt =====
-- The loop of `convertLinedata` over the rows of one station.
use infinity_station.Base.{
  ℕ, ◌≡◌, refl, ap, sym, subst, ◌∙◌, false, List, [], ◌∷◌, ◌++◌, map, none, some, All,
  if◌then◌else◌, Bool-cases, inl, inr,
}
use mathlib.Core.List.{append-nil, append_assoc}
use infinity_station.Base.Text.{same_text, same_text_refl, find_key, find_key-put_key, is_empty}
use infinity_station.Task.{value_or}
use infinity_station.Task.Lines.{
  LineData, Item, StationObj, Walk, item_of, items_at, send_current, open_station, append_item,
  visit, walk,
}

-- The rows of one station, at least one.
pub record Group (F : Type 0) : Type 0 where
  pub name : List ℕ
  pub first : LineData F
  pub more : List (LineData F)

module _ {F : Type 0} where
  abbrev pub rows_of : Group F → List (LineData F)
  rows_of g = g.first ∷ g.more

  abbrev pub object_of : Group F → StationObj F
  object_of g = record { station_name = g.name; items = map item_of (rows_of g) }

  -- The rows of a group have its name, which is not empty.
  abbrev pub IsGroup : Group F → Type 0
  IsGroup g =
      (is_empty g.name ≡ false) × All (λ (d : LineData F). d.station_name ≡ g.name) (rows_of g)

  abbrev pub rows_of_all : List (Group F) → List (LineData F)
  rows_of_all [] = []
  rows_of_all (g ∷ gs) = rows_of g ++ rows_of_all gs

  -- No two groups have one name.
  abbrev pub IsApart : List (Group F) → Type 0
  IsApart [] = Unit
  IsApart (g ∷ gs) = All (λ (h : Group F). same_text g.name h.name ≡ false) gs × IsApart gs

  pub walk-append :
      (xs ys : List (LineData F)) (s : Walk F) → walk (xs ++ ys) s ≡ walk ys (walk xs s)
  unfolding walk
  walk-append [] ys s = refl
  walk-append (d ∷ xs) ys s = walk-append xs ys (visit d s)

  -- What a walk over rows of the station `n`, which is in the map, leaves.
  pub record Stays (n : List ℕ) (its : List (Item F)) (s s' : Walk F) : Type 0 where
    pub same_current : s'.current_station ≡ s.current_station
    pub same_sent : s'.sent ≡ s.sent
    pub grown : find_key n s'.station_map ≡ some its
    pub others :
        (j : List ℕ) → same_text n j ≡ false → find_key j s'.station_map ≡ find_key j s.station_map

  pub Stays-trans :
      {n : List ℕ} {a b : List (Item F)} {s t u : Walk F}
      → Stays n a s t
      → Stays n b t u
      → Stays n b s u
  Stays-trans p q = record {
    same_current = q.same_current ∙ p.same_current;
    same_sent = q.same_sent ∙ p.same_sent;
    grown = q.grown;
    others = λ j ne. q.others j ne ∙ p.others j ne;
  }

  pub append-Stays :
      (n : List ℕ) (its : List (Item F)) (item : Item F) (s : Walk F)
      → find_key n s.station_map ≡ some its
      → Stays n (its ++ item ∷ []) s (append_item n item s)
  unfolding append_item items_at value_or
  append-Stays n its item s e = record {
    same_current = refl;
    same_sent = refl;
    grown = rw e (find_key-put_key n n _ s.station_map ∙ rw (same_text_refl n) refl);
    others = λ j ne. find_key-put_key n j _ s.station_map ∙ rw ne refl;
  }

  pub visit-known :
      (d : LineData F) (n : List ℕ) (its : List (Item F)) (s : Walk F)
      → d.station_name ≡ n
      → find_key n s.station_map ≡ some its
      → visit d s ≡ append_item n (item_of d) s
  unfolding visit
  visit-known d n its s e f = rw e (rw f refl)

  pub walk-Stays :
      (ds : List (LineData F)) (n : List ℕ) (its : List (Item F)) (s : Walk F)
      → All (λ (d : LineData F). d.station_name ≡ n) ds
      → find_key n s.station_map ≡ some its
      → Stays n (its ++ map item_of ds) s (walk ds s)
  unfolding walk
  walk-Stays [] n its s named e = record {
    same_current = refl;
    same_sent = refl;
    grown = rw (append-nil its) e;
    others = λ j ne. refl;
  }
  walk-Stays (d ∷ ds) n its s named e =
      let one = append-Stays n its (item_of d) s e in
      let rest =
        walk-Stays ds n (its ++ item_of d ∷ []) (append_item n (item_of d) s) named.1 one.grown in
      rw (visit-known d n its s named.0 e) (
        subst (λ l. Stays n l s (walk ds (append_item n (item_of d) s)))
          (append_assoc its (item_of d ∷ []) (map item_of ds)) (Stays-trans one rest))

  -- The object of the current station, which is yet to be sent.
  unfoldable pub pending : Walk F → List (StationObj F)
  pending s =
      if is_empty s.current_station
      then []
      else record {
        station_name = s.current_station;
        items = items_at s.current_station s.station_map;
      }
        ∷ []

  -- What the rows of a group leave, whose name is not in the map.
  pub record Enters (g : Group F) (s s' : Walk F) : Type 0 where
    pub new_current : s'.current_station ≡ g.name
    pub now_sent : s'.sent ≡ s.sent ++ pending s
    pub holds : find_key g.name s'.station_map ≡ some (map item_of (rows_of g))
    pub others :
        (j : List ℕ)
        → same_text g.name j ≡ false
        → find_key j s'.station_map ≡ find_key j s.station_map

  pub open-sent : (n : List ℕ) (s : Walk F) → (open_station n s).sent ≡ s.sent ++ pending s
  unfolding open_station send_current pending
  open-sent n s = elim (Bool-cases (is_empty s.current_station)) [
    | inl e ↦ rw e (sym (append-nil s.sent))
    | inr e ↦ rw e refl
  ]

  pub visit-new :
      (d : LineData F) (n : List ℕ) (s : Walk F)
      → d.station_name ≡ n
      → find_key n s.station_map ≡ none
      → visit d s ≡ append_item n (item_of d) (open_station n s)
  unfolding visit
  visit-new d n s e f =
      rw (subst (λ m. find_key m s.station_map ≡ none) (sym e) f)
        (ap (λ m. append_item m (item_of d) (open_station m s)) e)

  pub open-found : (n : List ℕ) (s : Walk F) → find_key n (open_station n s).station_map ≡ some []
  unfolding open_station
  open-found n s = find_key-put_key n n [] s.station_map ∙ rw (same_text_refl n) refl

  pub open-others :
      (n j : List ℕ) (s : Walk F)
      → same_text n j ≡ false
      → find_key j (open_station n s).station_map ≡ find_key j s.station_map
  unfolding open_station
  open-others n j s ne = find_key-put_key n j [] s.station_map ∙ rw ne refl

  pub open-current : (n : List ℕ) (s : Walk F) → (open_station n s).current_station ≡ n
  unfolding open_station
  open-current n s = refl

  pub walk-Enters :
      (g : Group F) (s : Walk F)
      → All (λ (d : LineData F). d.station_name ≡ g.name) (rows_of g)
      → find_key g.name s.station_map ≡ none
      → Enters g s (walk (rows_of g) s)
  unfolding walk
  walk-Enters g s named absent =
      rw (visit-new g.first g.name s named.0 absent, walk)
        (record {
          new_current = stays.same_current ∙ open-current g.name s;
          now_sent = stays.same_sent ∙ open-sent g.name s;
          holds = stays.grown;
          others = λ j ne. stays.others j ne ∙ open-others g.name j s ne;
        })
    where
      opened : Walk F
      opened = open_station g.name s

      one : Stays g.name (item_of g.first ∷ []) opened (append_item g.name (item_of g.first) opened)
      one = append-Stays g.name [] (item_of g.first) opened (open-found g.name s)

      stays :
          Stays g.name
            (item_of g.first ∷ map item_of g.more)
            opened
            (walk g.more (append_item g.name (item_of g.first) opened))
      stays = Stays-trans one (
          walk-Stays g.more g.name (item_of g.first ∷ [])
            (append_item g.name (item_of g.first) opened) named.1 one.grown)
