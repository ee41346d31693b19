-- ===== src/Radar/Overrun/Frame.antt =====
-- isOverrun of RadarOverrun.cpp over a store of the objects that its shared pointers reach: the regions
-- of a frame are matched with those of the frame before, get or keep their indices, and those that have
-- ended are given back. The arithmetic in floating point and the sort by angle are parameters. A time
-- that the code reads from the clock is a function of the index that it is read for.
use infinity_station.Base.{
  ℕ, ◌+◌, ◌≤◌, ◌≡◌, ◌≢◌, Bool, true, false, ◌&&◌, List, [], ◌∷◌, ◌++◌, Option, none, some, ltb,
  ◌==◌, All, length, if◌then◌else◌, ◌↔◌,
}
use infinity_station.Radar.Overrun.Table.{IndexTable, get_hash_index, return_index, unused}
use infinity_station.Radar.Overrun.Scan.{DeviceSurfaceData, Geometry, scan_frame}

-- The members of RadarOverrun, and the store.
pub record RadarOverrun (P A S : Type 0) : Type 0 where
  pub store : ℕ → DeviceSurfaceData P A S
  pub overrun_list_before : List ℕ
  pub overrun_hash : List (ℕ × List ℕ)
  pub overrun_hash_index : IndexTable

pub record Angles (A D : Type 0) : Type 0 where
  pub ring_difference : A → A → D
  pub is_less : D → D → Bool
  pub widest : D  -- 360
  pub is_acceptable : D → Bool  -- at most 10

-- The arguments of a call of isOverrun, and what the pool gives it.
pub record Call (P A S : Type 0) : Type 0 where
  pub corners : ℕ
  pub frame : List P
  pub address : ℕ
  pub obj : DeviceSurfaceData P A S

pub record Clock (S : Type 0) : Type 0 where
  pub created_at : ℕ → S
  pub updated_at : ℕ → S
  pub location_at : ℕ → S

-- What the code relies on of `std::sort`: it drops no element, makes none up, and keeps their number.
abbrev pub IsSort : {P A S : Type 0} → ((ℕ → DeviceSurfaceData P A S) → List ℕ → List ℕ) → Type 1
IsSort {P} {A} {S} sort =
    (store : ℕ → DeviceSurfaceData P A S) (xs : List ℕ)
    → ((Good : ℕ → Type 0) → All Good xs ↔ All Good (sort store xs))
      × (length (sort store xs) ≡ length xs)

unfoldable pub find_row : ℕ → List (ℕ × List ℕ) → Option (List ℕ)
find_row i [] = none
find_row i ((k, row) ∷ h) = if k == i then some row else find_row i h

-- `m_overrun_hash[i].push_back(n)`
unfoldable pub push_row : ℕ → ℕ → List (ℕ × List ℕ) → List (ℕ × List ℕ)
push_row i n [] = (i, n ∷ []) ∷ []
push_row i n ((k, row) ∷ h) = if k == i then (k, row ++ n ∷ []) ∷ h else (k, row) ∷ push_row i n h

unfoldable pub erase_row : ℕ → List (ℕ × List ℕ) → List (ℕ × List ℕ)
erase_row i [] = []
erase_row i ((k, row) ∷ h) = if k == i then h else (k, row) ∷ erase_row i h

module _ {P A S : Type 0} where
  abbrev pub write :
      ℕ → DeviceSurfaceData P A S → (ℕ → DeviceSurfaceData P A S) → ℕ → DeviceSurfaceData P A S
  write n o store k = if k == n then o else store k

  -- The write through `vec_data.back()`.
  unfoldable pub stamp_last :
      S → List ℕ → (ℕ → DeviceSurfaceData P A S) → ℕ → DeviceSurfaceData P A S
  stamp_last time [] store = store
  stamp_last time (n ∷ []) store = write n (record (store n) { update_time = time }) store
  stamp_last time (n ∷ m ∷ row) store = stamp_last time (m ∷ row) store

  -- The end of the round for the region before `b`, with the region now that was found: the store, and
  -- the indices of the regions that have ended.
  unfoldable pub match_one :
      ℕ → Option ℕ → (ℕ → DeviceSurfaceData P A S) → List ℕ → (ℕ → DeviceSurfaceData P A S) × List ℕ
  match_one b (some n) store no_use = (
    write n
        (record (store n) {
          is_match = true;
          index = (store b).index;
          create_time = (store b).create_time;
          z_size = (store n).z_size + (store b).z_size;
        })
        store,
    no_use,
  )
  match_one b none store no_use = (store, no_use ++ (store b).index ∷ [])

  module _ {D : Type 0} (angles : Angles A D) where
    -- The nearest of the regions now to the region before `b`.
    unfoldable pub nearest : (ℕ → DeviceSurfaceData P A S) → ℕ → List ℕ → D → Option ℕ → Option ℕ
    nearest store b [] min best = best
    nearest store b (n ∷ ns) min best =
        let d = angles.ring_difference (store n).angle_start (store b).angle_start in
        let better = angles.is_less d min && angles.is_acceptable d in
        nearest store b ns (if better then d else min) (if better then some n else best)

    unfoldable pub match_all :
        List ℕ
        → List ℕ
        → (ℕ → DeviceSurfaceData P A S)
        → List ℕ
        → (ℕ → DeviceSurfaceData P A S) × List ℕ
    match_all [] ns store no_use = (store, no_use)
    match_all (b ∷ bs) ns store no_use =
        let (store', no_use') = match_one b (nearest store b ns angles.widest none) store no_use in
        match_all bs ns store' no_use'

  -- What both branches end with.
  unfoldable pub push_item : ℕ → ℕ → RadarOverrun P A S → RadarOverrun P A S
  push_item n index r = record r {
    overrun_list_before = r.overrun_list_before ++ n ∷ [];
    overrun_hash = push_row index n r.overrun_hash;
  }

  -- A region that goes on.
  unfoldable pub add_old : ℕ → RadarOverrun P A S → RadarOverrun P A S
  add_old n r =
      push_item n (r.store n).index
        (record r { store = write n (record (r.store n) { is_match = false }) r.store })

  -- A new region, with its index and the table after.
  unfoldable pub add_new : Clock S → ℕ → ℕ → IndexTable → RadarOverrun P A S → RadarOverrun P A S
  add_new clock n index t r = push_item n index (record r {
    store =
        write n
          (record (r.store n) {
            create_time = clock.created_at index;
            index = index;
            location_id = clock.location_at index;
            is_match = false;
          })
          r.store;
    overrun_hash_index = t;
  })

  module _ (place : ℕ → IndexTable → IndexTable) (clock : Clock S) where
    -- `none` where the loop on the index -1 does not end.
    unfoldable pub add_item : ℕ → RadarOverrun P A S → Option (RadarOverrun P A S)
    add_item n r =
        if (r.store n).is_match
        then some (add_old n r)
        else elim (get_hash_index place r.overrun_hash_index) [
          | none ↦ none
          | some (index, t) ↦ some (add_new clock n index t r)
        ]

    unfoldable pub add_items : List ℕ → RadarOverrun P A S → Option (RadarOverrun P A S)
    add_items [] r = some r
    add_items (n ∷ ns) r = elim (add_item n r) [ none ↦ none | some r' ↦ add_items ns r' ]

  -- The row of an index, if there is one, is handed out, and the index given back: the code
  -- reads it through a reference to the entry that it has just erased, and `erased_key` is what it reads
  -- there.
  unfoldable pub release_one :
      Clock S
      → (ℕ → ℕ)
      → ℕ
      → Option (List ℕ)
      → RadarOverrun P A S
      → List (List ℕ)
      → RadarOverrun P A S × List (List ℕ)
  release_one clock erased_key i none r to_sql = (r, to_sql)
  release_one clock erased_key i (some row) r to_sql = (
    record r {
      store = stamp_last (clock.updated_at i) row r.store;
      overrun_hash = erase_row i r.overrun_hash;
      overrun_hash_index = return_index (erased_key i) r.overrun_hash_index;
    },
    to_sql ++ row ∷ [],
  )

  unfoldable pub release_all :
      Clock S
      → (ℕ → ℕ)
      → List ℕ
      → RadarOverrun P A S
      → List (List ℕ)
      → RadarOverrun P A S × List (List ℕ)
  release_all clock erased_key [] r to_sql = (r, to_sql)
  release_all clock erased_key (i ∷ is) r to_sql =
      let (r', to_sql') = release_one clock erased_key i (find_row i r.overrun_hash) r to_sql in
      release_all clock erased_key is r' to_sql'

  module _ {D : Type 0} (g : Geometry P A) (angles : Angles A D) (clock : Clock S)
      (erased_key : ℕ → ℕ) (place : ℕ → IndexTable → IndexTable)
      (sort : (ℕ → DeviceSurfaceData P A S) → List ℕ → List ℕ) where
    -- A call with a frame, where the polygon has `corners` points and the pool gives the object `o` at
    -- `address`.
    unfoldable pub is_overrun :
        ℕ
        → List P
        → ℕ
        → DeviceSurfaceData P A S
        → RadarOverrun P A S
        → Option (RadarOverrun P A S × List (List ℕ))
    is_overrun corners frame address o r =
        let s = scan_frame g address frame o in
        let store = write address s.obj r.store in
        let now = sort store s.overrun_list_now in
        let (store', no_use) = match_all angles (sort store r.overrun_list_before) now store [] in
        let before = record r { store = store'; overrun_list_before = [] } in
        if ltb corners 3 then some (r, []) else elim (add_items place clock now before) [
          | none ↦ none
          | some after ↦ some (release_all clock erased_key no_use after [])
        ]

    -- The calls for the frames, one after the other.
    unfoldable pub follow : List (Call P A S) → RadarOverrun P A S → Option (RadarOverrun P A S)
    follow [] r = some r
    follow (c ∷ cs) r = elim (is_overrun c.corners c.frame c.address c.obj r) [
      | none ↦ none
      | some (r', to_sql) ↦ follow cs r'
    ]

    -- What the pool gives is not marked as matched and no region of the last frame, and a frame has no
    -- more regions than there are indices that are not in use.
    unfoldable pub IsFit : List (Call P A S) → RadarOverrun P A S → Type 0
    IsFit [] r = Unit
    IsFit (c ∷ cs) r =
        (c.obj.is_match ≡ false)
        × All (λ b. b ≢ c.address) r.overrun_list_before
        × (length (scan_frame g c.address c.frame c.obj).overrun_list_now
            ≤ unused r.overrun_hash_index)
        × elim (is_overrun c.corners c.frame c.address c.obj r) [
          | none ↦ Unit
          | some (r', to_sql) ↦ IsFit cs r'
        ]
