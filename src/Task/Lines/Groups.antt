-- ===== src/Task/Lines/Groups.antt =====
-- What `convertLinedata` sends: whole stations where the rows come station by station.
use infinity_station.Base.{
  ℕ, ◌≡◌, refl, ap, ap₂, sym, ◌∙◌, false, not, ◌&&◌, List, [], ◌∷◌, ◌++◌, map, none, All,
  if◌then◌else◌, Bool-cases, inl, inr,
}
use mathlib.Core.List.{append-nil, append_assoc}
use infinity_station.Base.Text.{same_text, same_text_comm, find_key, is_empty}
use infinity_station.Task.{value_or}
use infinity_station.Task.Lines.{
  LineData, Item, StationObj, Walk, item_of, items_at, send_current, walk, no_walk,
  convert_linedata,
}
use infinity_station.Task.Lines.Walks.{
  Group, rows_of, object_of, IsGroup, rows_of_all, IsApart, Stays, Enters, pending, walk-append,
  walk-Stays, walk-Enters,
}

module _ {F : Type 0} where
  -- The end of `convert_linedata`.
  finished : Walk F → List (StationObj F)
  finished s =
      if not (is_empty s.current_station)
        && not (is_empty (items_at s.current_station s.station_map))
      then send_current s
      else s.sent

  -- The current station has an item, if there is one.
  abbrev HasItems : Walk F → Type 0
  HasItems s =
      is_empty s.current_station ≡ false
      → is_empty (items_at s.current_station s.station_map) ≡ false

  finished-pending : (s : Walk F) → HasItems s → finished s ≡ s.sent ++ pending s
  unfolding finished pending send_current
  finished-pending s h = elim (Bool-cases (is_empty s.current_station)) [
    | inl e ↦ rw e (sym (append-nil s.sent))
    | inr e ↦ rw (e, h e) refl
  ]

  Enters-items :
      (g : Group F) (s s' : Walk F)
      → Enters g s s'
      → items_at s'.current_station s'.station_map ≡ map item_of (rows_of g)
  unfolding items_at value_or
  Enters-items g s s' h = rw (h.new_current, h.holds) refl

  abbrev sent_alone : List ℕ → List (Item F) → List (StationObj F)
  sent_alone n its = record { station_name = n; items = its } ∷ []

  Enters-pending :
      (g : Group F) (s s' : Walk F)
      → Enters g s s'
      → is_empty g.name ≡ false
      → pending s' ≡ object_of g ∷ []
  unfolding pending
  Enters-pending g s s' h named =
      let e : is_empty s'.current_station ≡ false = rw h.new_current named in
      rw e (ap₂ sent_alone h.new_current (Enters-items g s s' h))

  Enters-fresh :
      (g : Group F) (s s' : Walk F) (gs : List (Group F))
      → Enters g s s'
      → All (λ (h : Group F). same_text g.name h.name ≡ false) gs
      → All (λ (h : Group F). find_key h.name s.station_map ≡ none) gs
      → All (λ (h : Group F). find_key h.name s'.station_map ≡ none) gs
  Enters-fresh g s s' [] h apart fresh = tt
  Enters-fresh g s s' (k ∷ gs) h apart fresh =
      (h.others k.name apart.0 ∙ fresh.0, Enters-fresh g s s' gs h apart.1 fresh.1)

  Enters-HasItems : (g : Group F) (s s' : Walk F) → Enters g s s' → HasItems s'
  unfolding is_empty
  Enters-HasItems g s s' h e = rw (Enters-items g s s' h) refl

  walk_nil : (s : Walk F) → finished (walk [] s) ≡ finished s
  unfolding walk
  walk_nil s = refl

  walk-groups :
      (gs : List (Group F)) (s : Walk F)
      → All IsGroup gs
      → IsApart gs
      → All (λ (g : Group F). find_key g.name s.station_map ≡ none) gs
      → HasItems s
      → finished (walk (rows_of_all gs) s) ≡ (s.sent ++ pending s) ++ map object_of gs
  walk-groups [] s groups apart fresh items =
      walk_nil s ∙ finished-pending s items ∙ sym (append-nil (s.sent ++ pending s))
  walk-groups (g ∷ gs) s groups apart fresh items =
      let s' = walk (rows_of g) s in
      let h = walk-Enters g s groups.0.1 fresh.0 in
      ap finished (walk-append (rows_of g) (rows_of_all gs) s)
      ∙ walk-groups gs s' groups.1 apart.1 (Enters-fresh g s s' gs h apart.0 fresh.1)
          (Enters-HasItems g s s' h)
      ∙ rw (Enters-pending g s s' h groups.0.0, h.now_sent)
          (append_assoc (s.sent ++ pending s) (object_of g ∷ []) (map object_of gs))

  none_found :
      (gs : List (Group F))
      → All (λ (g : Group F). find_key g.name (no_walk {F = F}).station_map ≡ none) gs
  unfolding find_key
  none_found [] = tt
  none_found (g ∷ gs) = (refl, none_found gs)

  convert-walk : (rows : List (LineData F)) → convert_linedata rows ≡ finished (walk rows no_walk)
  unfolding convert_linedata finished
  convert-walk rows = refl

  -- Where the rows come station by station, each with a name of its own that is not empty, the objects
  -- sent are the stations in order, each with all of its rows in order.
  pub convert_linedata-groups :
      (gs : List (Group F))
      → All IsGroup gs
      → IsApart gs
      → convert_linedata (rows_of_all gs) ≡ map object_of gs
  unfolding convert_linedata finished pending is_empty
  convert_linedata-groups gs groups apart =
      walk-groups gs no_walk groups apart (none_found gs) (λ e. cc)

  finished-Stays :
      (n : List ℕ) (its : List (Item F)) (s s' : Walk F)
      → Stays n its s s'
      → same_text n s.current_station ≡ false
      → finished s' ≡ finished s
  unfolding finished items_at send_current
  finished-Stays n its s s' h ne =
      let found = h.others s.current_station ne in simp (h.same_current, h.same_sent, found)

  -- Rows of a station that comes back after another was begun are never sent, however many they are.
  pub convert_linedata-returning :
      (g h : Group F) (late : List (LineData F))
      → All IsGroup (g ∷ h ∷ [])
      → same_text g.name h.name ≡ false
      → All (λ (d : LineData F). d.station_name ≡ g.name) late
      → convert_linedata (rows_of g ++ (rows_of h ++ late)) ≡ object_of g ∷ object_of h ∷ []
  convert_linedata-returning g h late groups apart named =
      let s1 = walk (rows_of g) no_walk in
      let s2 = walk (rows_of h) s1 in
      let h1 = walk-Enters g no_walk groups.0.1 (none_found (g ∷ [])).0 in
      let h2 = walk-Enters h s1 groups.1.0.1 (h1.others h.name apart ∙ (none_found (h ∷ [])).0) in
      let known = h2.others g.name (same_text_comm h.name g.name ∙ apart) ∙ h1.holds in
      let stays = walk-Stays late g.name (map item_of (rows_of g)) s2 named known in
      convert-walk (rows_of g ++ (rows_of h ++ late))
      ∙ ap finished
          (walk-append (rows_of g) (rows_of h ++ late) no_walk ∙ walk-append (rows_of h) late s1)
      ∙ finished-Stays g.name _ s2 (walk late s2) stays (rw h2.new_current apart)
      ∙ sym (
          convert-walk (rows_of_all (g ∷ h ∷ []))
          ∙ ap finished
              (walk-append (rows_of g) (rows_of h ++ []) no_walk ∙ walk-append (rows_of h) [] s1)
          ∙ walk_nil s2)
      ∙ convert_linedata-groups (g ∷ h ∷ []) groups ((apart, tt), (tt, tt))
