-- ===== src/Radar/Overrun/Adding.antt =====
-- The regions that are added in RadarOverrun.cpp while an index stays held.
use infinity_station.Base.{
  ℕ, ◌≡◌, ◌≢◌, refl, ap, sym, subst, ◌∙◌, true, List, [], ◌∷◌, ◌++◌, some, arith, All, All-append,
  length, ◌≤◌, ◌<◌, suc, inl, inr, Bool-cases,
}
use infinity_station.Radar.Overrun.Table.{IndexTable, lookup, Distinct, unused}
use infinity_station.Radar.Overrun.Room.{get_hash_index-room}
use infinity_station.Radar.Overrun.Scan.{DeviceSurfaceData}
use infinity_station.Radar.Overrun.Regions.{IsOnly}
use infinity_station.Radar.Overrun.Frame.{
  RadarOverrun, Clock, find_row, push_row, write, push_item, add_old, add_new, add_item, add_items,
}
use infinity_station.Radar.Overrun.Matching.{Inherits, write-same}

find_row-push :
    (i k n : ℕ) (h : List (ℕ × List ℕ)) → k ≢ i → find_row i (push_row k n h) ≡ find_row i h
unfolding find_row push_row
find_row-push i k n [] apart = ground (arith, apart)
find_row-push i k n ((j, row) ∷ h) apart = ground (arith, apart, find_row-push i k n h)

-- The index `i` is in use, its row is `row`, and the table is sound.
pub record Held (i : ℕ) (row : List ℕ) (t : IndexTable) (h : List (ℕ × List ℕ)) : Type 0 where
  pub used : lookup i t ≡ some true
  pub distinct : Distinct t
  pub stays : find_row i h ≡ some row

module _ {P A S : Type 0} (i : ℕ) (row : List ℕ) where
  -- While the regions of a frame are added.
  pub record Adding (address : ℕ) (r : RadarOverrun P A S) : Type 0 where
    pub held : Held i row r.overrun_hash_index r.overrun_hash
    pub only : IsOnly address r.overrun_list_before
    pub inherits : Inherits i address r.store
    pub named : All (λ n. (r.store n).index ≢ i) r.overrun_list_before

  only-named :
      (address : ℕ) (store : ℕ → DeviceSurfaceData P A S) (xs : List ℕ)
      → IsOnly address xs
      → (store address).index ≢ i
      → All (λ n. (store n).index ≢ i) xs
  unfolding IsOnly
  only-named address store [] only h = tt
  only-named address store (x ∷ xs) only h =
      (subst (λ k. (store k).index ≢ i) (sym only.0) h, only-named address store xs only.1 h)

  module _ (place : ℕ → IndexTable → IndexTable) (clock : Clock S) (address : ℕ) where
    pub push_item-Adding :
        (index : ℕ) (o : DeviceSurfaceData P A S) (r : RadarOverrun P A S) (t : IndexTable)
        → Held i row t r.overrun_hash
        → IsOnly address r.overrun_list_before
        → index ≢ i
        → o.index ≡ index
        → Adding address (
            push_item address index
              (record r { store = write address o r.store; overrun_hash_index = t }))
    unfolding push_item Inherits IsOnly
    push_item-Adding index o r t held only apart e = record {
      held = record {
        used = held.used;
        distinct = held.distinct;
        stays = find_row-push i index address r.overrun_hash apart ∙ held.stays;
      };
      only = All-append (λ k. k ≡ address) r.overrun_list_before (address ∷ []) only (refl, tt);
      inherits = λ _.
          subst (λ x. x.index ≢ i) (sym (write-same address o r.store))
            (subst (λ k. k ≢ i) (sym e) apart);
      named =
          only-named address (write address o r.store) (r.overrun_list_before ++ address ∷ [])
            (All-append (λ k. k ≡ address) r.overrun_list_before (address ∷ []) only (refl, tt))
            (subst (λ x. x.index ≢ i) (sym (write-same address o r.store))
              (subst (λ k. k ≢ i) (sym e) apart));
    }

    add_item-Adding :
        (r : RadarOverrun P A S)
        → Adding address r
        → 0 < unused r.overrun_hash_index
        → (r' : RadarOverrun P A S) × (add_item place clock address r ≡ some r')
          × Adding address r'
          × (unused r.overrun_hash_index ≤ suc (unused r'.overrun_hash_index))
    unfolding add_item add_old add_new push_item Inherits
    add_item-Adding r adding room =
        let (k, t, is, fresh, used, kept, distinct, less) =
          get_hash_index-room place r.overrun_hash_index adding.held.distinct room in
        elim (Bool-cases (r.store address).is_match) [
          | inl old ↦ (
            add_old address r,
            ground (arith, old),
            push_item-Adding (r.store address).index _ r r.overrun_hash_index adding.held
                adding.only (adding.inherits old) refl,
            omega arith,
          )
          | inr new ↦ (
            add_new clock address k t r,
            ground (arith, new, is),
            push_item-Adding k _ r t
                record {
                  used = kept i adding.held.used;
                  distinct = distinct;
                  stays = adding.held.stays;
                }
                adding.only
                (λ e.
                  fresh (
                    subst (λ j. lookup j r.overrun_hash_index ≡ some true) (sym e)
                      adding.held.used))
                refl,
            omega (arith, less),
          )
        ]

    pub add_items-Adding :
        (ns : List ℕ) (r : RadarOverrun P A S)
        → IsOnly address ns
        → Adding address r
        → length ns ≤ unused r.overrun_hash_index
        → (r' : RadarOverrun P A S) × (add_items place clock ns r ≡ some r') × Adding address r'
    unfolding add_items IsOnly
    add_items-Adding [] r only adding room = (r, refl, adding)
    add_items-Adding (n ∷ ns) r only adding room =
        let (r', is, adding', less) = add_item-Adding r adding (omega (arith, room)) in
        let (r'', is', adding'') =
          add_items-Adding ns r' only.1 adding' (omega (arith, room, less)) in
        let at = ap (λ k. add_item place clock k r) only.0 ∙ is in
        (r'', ground (arith, at, is'), adding'')
