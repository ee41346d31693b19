-- ===== src/Radar/Overrun/Lost.antt =====
-- Indices of RadarOverrun.cpp that no region has and that stay in use.
use infinity_station.Base.{
  ℕ, ◌≡◌, ◌≢◌, refl, ap, sym, subst, ◌∙◌, false, List, [], ◌∷◌, Option, none, some, arith, All, inl,
  inr, Bool-cases, ltb, length, ◌≤◌,
}
use infinity_station.Radar.Overrun.Table.{IndexTable, return_index, unused}
use infinity_station.Radar.Overrun.Growth.{lookup-mark, mark-Distinct}
use infinity_station.Radar.Overrun.Scan.{DeviceSurfaceData, Geometry, scan_frame}
use infinity_station.Radar.Overrun.Regions.{IsOnly, scan_frame-object, scan_frame-is_match}
use infinity_station.Radar.Overrun.Frame.{
  RadarOverrun, Angles, Clock, IsSort, find_row, erase_row, write, stamp_last, match_all,
  release_one, release_all, is_overrun,
}
use infinity_station.Radar.Overrun.Matching.{Inherits, write-same, match_all-avoids, Apart, Result}
use infinity_station.Radar.Overrun.Adding.{Held, add_items-Adding}

find_row-erase :
    (i k : ℕ) (h : List (ℕ × List ℕ)) → k ≢ i → find_row i (erase_row k h) ≡ find_row i h
unfolding find_row erase_row
find_row-erase i k [] apart = refl
find_row-erase i k ((j, row) ∷ h) apart = ground (arith, apart, find_row-erase i k h)

module _ {P A S : Type 0} where
  stamp_last-index :
      (time : S) (row : List ℕ) (store : ℕ → DeviceSurfaceData P A S) (n : ℕ)
      → (stamp_last time row store n).index ≡ (store n).index
  unfolding stamp_last
  stamp_last-index time [] store n = refl
  stamp_last-index time (k ∷ []) store n = ground arith
  stamp_last-index time (k ∷ l ∷ row) store n = stamp_last-index time (l ∷ row) store n

module _ {P A S : Type 0} (i : ℕ) (row : List ℕ) where
  -- The index is held, and no region of the frame before has it.
  pub record IsLost (r : RadarOverrun P A S) : Type 0 where
    pub held : Held i row r.overrun_hash_index r.overrun_hash
    pub avoided : All (λ n. (r.store n).index ≢ i) r.overrun_list_before

  stamp_last-avoids :
      (time : S) (xs ns : List ℕ) (store : ℕ → DeviceSurfaceData P A S)
      → All (λ n. (store n).index ≢ i) ns
      → All (λ n. (stamp_last time xs store n).index ≢ i) ns
  stamp_last-avoids time xs [] store h = tt
  stamp_last-avoids time xs (n ∷ ns) store h = (
    subst (λ k. k ≢ i) (sym (stamp_last-index time xs store n)) h.0,
    stamp_last-avoids time xs ns store h.1,
  )

  release_one-IsLost :
      (clock : Clock S) (erased_key : ℕ → ℕ) (intact : (k : ℕ) → erased_key k ≡ k) (j : ℕ)
      (found : Option (List ℕ)) (r : RadarOverrun P A S) (to_sql : List (List ℕ))
      → j ≢ i
      → IsLost r
      → IsLost (release_one clock erased_key j found r to_sql).0
  unfolding release_one return_index
  release_one-IsLost clock erased_key intact j none r to_sql apart lost = lost
  release_one-IsLost clock erased_key intact j (some xs) r to_sql apart lost =
      let same =
        lookup-mark (erased_key j) i false r.overrun_hash_index (λ e. apart (sym (e ∙ intact j))) in
      record {
        held = record {
          used = same ∙ lost.held.used;
          distinct = mark-Distinct (erased_key j) false r.overrun_hash_index lost.held.distinct;
          stays = find_row-erase i j r.overrun_hash apart ∙ lost.held.stays;
        };
        avoided =
            stamp_last-avoids (clock.updated_at j) xs r.overrun_list_before r.store lost.avoided;
      }

  pub release_all-IsLost :
      (clock : Clock S) (erased_key : ℕ → ℕ) (intact : (k : ℕ) → erased_key k ≡ k) (is : List ℕ)
      (r : RadarOverrun P A S) (to_sql : List (List ℕ))
      → All (λ j. j ≢ i) is
      → IsLost r
      → IsLost (release_all clock erased_key is r to_sql).0
  unfolding release_all
  release_all-IsLost clock erased_key intact [] r to_sql h lost = lost
  release_all-IsLost clock erased_key intact (j ∷ is) r to_sql h lost =
      let found = find_row j r.overrun_hash in
      let (r', to_sql') = release_one clock erased_key j found r to_sql in
      release_all-IsLost clock erased_key intact is r' to_sql' h.1
        (release_one-IsLost clock erased_key intact j found r to_sql h.0 lost)

  before-Apart :
      (address : ℕ) (o : DeviceSurfaceData P A S) (store : ℕ → DeviceSurfaceData P A S)
      (bs : List ℕ)
      → All (λ b. b ≢ address) bs
      → All (λ b. (store b).index ≢ i) bs
      → All (λ b. (b ≢ address) × ((write address o store b).index ≢ i)) bs
  before-Apart address o store [] h k = tt
  before-Apart address o store (b ∷ bs) h k = (
    (h.0, let apart = h.0 in let other = k.0 in ground (arith, apart, other)),
    before-Apart address o store bs h.1 k.1,
  )

  module _ {D : Type 0} (g : Geometry P A) (angles : Angles A D) (clock : Clock S)
      (erased_key : ℕ → ℕ) (intact : (k : ℕ) → erased_key k ≡ k)
      (place : ℕ → IndexTable → IndexTable) (sort : (ℕ → DeviceSurfaceData P A S) → List ℕ → List ℕ)
      (sorts : IsSort sort) where
    -- Where the key of an erased entry still reads as it was, an index that is in use, that no region of the last frame has,
    -- and that still has its row: whatever the next frame, with no more
    -- regions than there are unused indices, and the object of the pool for it, one that no region of the last frame is and that is not marked as matched, the call comes to its end,
    -- and the index is in use afterwards, no region has it, and its row is neither given out nor changed.
    pub is_overrun-IsLost :
        (corners : ℕ) (frame : List P) (address : ℕ) (o : DeviceSurfaceData P A S)
        (r : RadarOverrun P A S)
        → o.is_match ≡ false
        → All (λ b. b ≢ address) r.overrun_list_before
        → length (scan_frame g address frame o).overrun_list_now ≤ unused r.overrun_hash_index
        → IsLost r
        → (r' : RadarOverrun P A S) × (to_sql : List (List ℕ)) × (is_overrun g angles clock
              erased_key place sort corners frame address o r
            ≡ some (r', to_sql))
          × IsLost r'
    unfolding is_overrun Result Inherits Apart IsOnly
    is_overrun-IsLost corners frame address o r unmatched other room lost =
        let s = scan_frame g address frame o in
        let store = write address s.obj r.store in
        let now = sort store s.overrun_list_now in
        let bs = sort store r.overrun_list_before in
        let only : IsOnly address now =
          ((sorts store s.overrun_list_now).0 (λ a. a ≡ address)).0
            (scan_frame-object g address frame o).0 in
        let bs_apart =
          ((sorts store r.overrun_list_before).0 (λ b. (b ≢ address) × ((store b).index ≢ i))).0
            (before-Apart address s.obj r.store r.overrun_list_before other lost.avoided) in
        let unmarked = scan_frame-is_match g address frame o ∙ unmatched in
        let inherits : Inherits i address store = λ e.
          absurd
            (cc (sym (ap (λ x. x.is_match) (write-same address s.obj r.store)) ∙ e, unmarked)) in
        let (store', no_use) = match_all angles bs now store [] in
        let (_, inherits', avoided) =
          match_all-avoids i angles address bs now store [] only (bs_apart, inherits, tt) in
        let before = record r { store = store'; overrun_list_before = [] } in
        let (after, is, adding) =
          add_items-Adding i row place clock address now before only
            record { held = lost.held; only = tt; inherits = inherits'; named = tt }
            (omega (arith, room, (sorts store s.overrun_list_now).1)) in
        let (r', to_sql) = release_all clock erased_key no_use after [] in
        elim (Bool-cases (ltb corners 3)) [
          | inl few ↦ (r, [], ground (arith, few), lost)
          | inr many ↦ (
            r',
            to_sql,
            ground (arith, many, is),
            release_all-IsLost clock erased_key intact no_use after [] avoided
                record { held = adding.held; avoided = adding.named },
          )
        ]
