-- ===== src/Radar/Overrun/Single.antt =====
-- How RadarOverrun.cpp follows a single region.
use infinity_station.Base.{
  ℕ, ◌≤◌, ◌≡◌, ◌≢◌, refl, ap, ap₂, sym, subst, ◌∙◌, true, false, ◌&&◌, List, [], ◌∷◌, none, some,
  arith, All, length, if◌then◌else◌, ◌↔◌, ◌==◌, Bool-cases, inl, inr,
}
use infinity_station.Radar.Overrun.Table.{IndexTable, lookup, mark, return_index}
use infinity_station.Radar.Overrun.Growth.{lookup-mark, lookup-mark-same}
use infinity_station.Radar.Overrun.Scan.{DeviceSurfaceData, Geometry, scan_frame}
use infinity_station.Radar.Overrun.Matching.{write-same}
use infinity_station.Radar.Overrun.Frame.{
  RadarOverrun, Angles, Call, Clock, IsSort, find_row, push_row, erase_row, write, nearest,
  match_one, match_all, push_item, add_old, add_item, add_items, release_one, release_all,
  is_overrun,
}

one_left : (a : ℕ) (xs : List ℕ) → All (λ k. k ≡ a) xs → length xs ≡ 1 → xs ≡ a ∷ []
one_left a [] only e = absurd (omega (arith, e))
one_left a (x ∷ []) only e = ap (λ k. k ∷ []) only.0
one_left a (x ∷ y ∷ xs) only e = absurd (omega (arith, e))

module _ {P A S : Type 0} (sort : (ℕ → DeviceSurfaceData P A S) → List ℕ → List ℕ)
    (sorts : IsSort sort) where
  sort-one :
      (store : ℕ → DeviceSurfaceData P A S) (a : ℕ) (xs : List ℕ)
      → xs ≡ a ∷ []
      → sort store xs ≡ a ∷ []
  sort-one store a xs e =
      ap (sort store) e
      ∙ one_left a (sort store (a ∷ [])) (((sorts store (a ∷ [])).0 (λ k. k ≡ a)).0 (refl, tt))
          (sorts store (a ∷ [])).1

  sort-none : (store : ℕ → DeviceSurfaceData P A S) (xs : List ℕ) → xs ≡ [] → sort store xs ≡ []
  sort-none store xs e = ap (sort store) e ∙ nothing (sort store []) (sorts store []).1
    where
      nothing : (ys : List ℕ) → length ys ≡ 0 → ys ≡ []
      nothing [] h = refl
      nothing (y ∷ ys) h = absurd (omega (arith, h))

-- An index in use is unused after the mark of `k` exactly where it is `k`.
marked_iff :
    (i k : ℕ) (t : IndexTable)
    → lookup i t ≡ some true
    → (lookup i (mark k false t) ≡ some false) ↔ (k ≡ i)
marked_iff i k t used = (forth, back)
  where
    back : k ≡ i → lookup i (mark k false t) ≡ some false
    back e =
        subst (λ j. lookup i (mark j false t) ≡ some false) (sym e)
          (lookup-mark-same i false true t used)

    forth : lookup i (mark k false t) ≡ some false → k ≡ i
    forth h = elim (Bool-cases (k == i)) [
      | inl same ↦ ground (arith, same)
      | inr other ↦ absurd (cc (h, used, lookup-mark k i false t (λ e. ground (arith, other, e))))
    ]

module _ {P A S : Type 0} where
  write-other :
      (n k : ℕ) (o : DeviceSurfaceData P A S) (store : ℕ → DeviceSurfaceData P A S)
      → k ≢ n
      → write n o store k ≡ store k
  write-other n k o store apart = ground (arith, apart)

  release_all-one :
      (clock : Clock S) (erased_key : ℕ → ℕ) (i : ℕ) (row : List ℕ) (r : RadarOverrun P A S)
      → find_row i r.overrun_hash ≡ some row
      → release_all clock erased_key (i ∷ []) r [] ≡ release_one clock erased_key i (some row) r []
  unfolding release_all
  release_all-one clock erased_key i row r is =
      ap (λ found. release_one clock erased_key i found r []) is

  nearest-one :
      {D : Type 0} (angles : Angles A D) (store : ℕ → DeviceSurfaceData P A S) (a b : ℕ)
      (o p : DeviceSurfaceData P A S)
      → store a ≡ o
      → store b ≡ p
      → let d = angles.ring_difference o.angle_start p.angle_start in
        (angles.is_less d angles.widest && angles.is_acceptable d) ≡ true
        → nearest angles store b (a ∷ []) angles.widest none ≡ some a
  unfolding nearest
  nearest-one angles store a b o p is is' near =
      ap (λ x. if x then some a else none)
        (ap₂
            (λ x y.
              let d = angles.ring_difference x.angle_start y.angle_start in
              angles.is_less d angles.widest && angles.is_acceptable d)
            is is'
          ∙ near)

module _ {P A S D : Type 0} (g : Geometry P A) (angles : Angles A D) (clock : Clock S)
    (erased_key : ℕ → ℕ) (place : ℕ → IndexTable → IndexTable)
    (sort : (ℕ → DeviceSurfaceData P A S) → List ℕ → List ℕ) (sorts : IsSort sort) where
  add_items-old :
      (r : RadarOverrun P A S) (store : ℕ → DeviceSurfaceData P A S) (a : ℕ)
      → (store a).is_match ≡ true
      → let before = record r { store = store; overrun_list_before = [] } in
        add_items place clock (a ∷ []) before ≡ some (add_old a before)
  unfolding add_items add_item
  add_items-old r store a old = ground (arith, old)

  -- A call, by what the scan and the sorts give.
  call-sorted :
      (c : Call P A S) (r : RadarOverrun P A S) (bs now : List ℕ)
      → (store' : ℕ → DeviceSurfaceData P A S) (no_use : List ℕ) (after : RadarOverrun P A S)
      → 3 ≤ c.corners
      → let s = scan_frame g c.address c.frame c.obj in
        let store = write c.address s.obj r.store in
        sort store r.overrun_list_before ≡ bs
        → sort store s.overrun_list_now ≡ now
        → match_all angles bs now store [] ≡ (store', no_use)
        → add_items place clock now (record r { store = store'; overrun_list_before = [] })
          ≡ some after
        → is_overrun g angles clock erased_key place sort c.corners c.frame c.address c.obj r
          ≡ some (release_all clock erased_key no_use after [])
  unfolding is_overrun
  call-sorted c r bs now store' no_use after polygon is is' matched added =
      ground (arith, polygon, is, is', matched, added)

  -- Where the sort keeps what it sorts and the polygon has three points or more: if the last frame
  -- had one region, another object than the pool gives, with an index that is in use and has a row,
  -- and a frame has none, the call gives out that row and nothing else, takes it out of the rows, and
  -- leaves no region. The mark of no index changes but that of the number that the key of the erased
  -- entry still reads as, and the index is marked unused exactly where that number is the index itself.
  pub ended-released :
      (c : Call P A S) (r : RadarOverrun P A S) (b : ℕ) (row : List ℕ)
      → 3 ≤ c.corners
      → (scan_frame g c.address c.frame c.obj).overrun_list_now ≡ []
      → r.overrun_list_before ≡ b ∷ []
      → b ≢ c.address
      → find_row (r.store b).index r.overrun_hash ≡ some row
      → lookup (r.store b).index r.overrun_hash_index ≡ some true
      → (r' : RadarOverrun P A S) × (is_overrun g angles clock erased_key place sort c.corners
            c.frame c.address c.obj r
          ≡ some (r', row ∷ []))
        × (r'.overrun_list_before ≡ [])
        × (r'.overrun_hash ≡ erase_row (r.store b).index r.overrun_hash)
        × ((lookup (r.store b).index r'.overrun_hash_index ≡ some false)
            ↔ (erased_key (r.store b).index ≡ (r.store b).index))
        × ((j : ℕ)
            → j ≢ erased_key (r.store b).index
            → lookup j r'.overrun_hash_index ≡ lookup j r.overrun_hash_index)
  unfolding match_all match_one nearest add_items release_one return_index
  ended-released c r b row polygon no_region one apart has used =
      let s = scan_frame g c.address c.frame c.obj in
      let store = write c.address s.obj r.store in
      let i = (store b).index in
      let same : i ≡ (r.store b).index =
        ap (λ x. x.index) (write-other c.address b s.obj r.store apart) in
      let after = record r { store = store; overrun_list_before = [] } in
      let called =
        call-sorted c r (b ∷ []) [] store (i ∷ []) after polygon
          (sort-one sort sorts store b r.overrun_list_before one)
          (sort-none sort sorts store s.overrun_list_now no_region) refl refl in
      let used' = subst (λ j. lookup j r.overrun_hash_index ≡ some true) (sym same) used in
      let has' = subst (λ j. find_row j r.overrun_hash ≡ some row) (sym same) has in
      let (r', to_sql) = release_one clock erased_key i (some row) after [] in
      (
        r',
        called ∙ ap some (release_all-one clock erased_key i row after has'),
        refl,
        ap (λ k. erase_row k r.overrun_hash) same,
        subst (λ k. (lookup k r'.overrun_hash_index ≡ some false) ↔ (erased_key k ≡ k)) same
            (marked_iff i (erased_key i) r.overrun_hash_index used'),
        λ j other.
            lookup-mark (erased_key i) j false r.overrun_hash_index
              (λ e. other (e ∙ ap erased_key same)),
      )

  -- Where the sort keeps what it sorts and the polygon has three points or more: if the last frame
  -- had one region, another object than the pool gives, and a frame has one at an acceptable angle
  -- from it, less than the widest, the region has the index of the other and the time that it began,
  -- it is put into the row of that index, the table stays as it is, and nothing is given out.
  pub continued-index :
      (c : Call P A S) (r : RadarOverrun P A S) (b : ℕ)
      → 3 ≤ c.corners
      → (scan_frame g c.address c.frame c.obj).overrun_list_now ≡ c.address ∷ []
      → r.overrun_list_before ≡ b ∷ []
      → b ≢ c.address
      → let d =
          angles.ring_difference
            (scan_frame g c.address c.frame c.obj).obj.angle_start
            (r.store b).angle_start in
        angles.is_less d angles.widest ≡ true
        → angles.is_acceptable d ≡ true
        → (r' : RadarOverrun P A S) × (is_overrun g angles clock erased_key place sort c.corners
              c.frame c.address c.obj r
            ≡ some (r', []))
          × (r'.overrun_list_before ≡ c.address ∷ [])
          × ((r'.store c.address).index ≡ (r.store b).index)
          × ((r'.store c.address).create_time ≡ (r.store b).create_time)
          × (r'.overrun_hash ≡ push_row (r.store b).index c.address r.overrun_hash)
          × (r'.overrun_hash_index ≡ r.overrun_hash_index)
  unfolding match_all match_one add_items add_item add_old push_item release_all
  continued-index c r b polygon region one apart nearer near =
      let s = scan_frame g c.address c.frame c.obj in
      let store = write c.address s.obj r.store in
      let here = write-same c.address s.obj r.store in
      let there = write-other c.address b s.obj r.store apart in
      let found =
        nearest-one angles store c.address b s.obj (r.store b) here there
          (ground (arith, nearer, near)) in
      let (store', no_use) = match_one b (some c.address) store [] in
      let after = add_old c.address (record r { store = store'; overrun_list_before = [] }) in
      (
        after,
        call-sorted c r (b ∷ []) (c.address ∷ []) store' [] after polygon
            (sort-one sort sorts store b r.overrun_list_before one)
            (sort-one sort sorts store c.address s.overrun_list_now region)
            (ap (λ x. match_one b x store []) found)
            (add_items-old r store' c.address
              (ap (λ x. x.is_match) (write-same c.address _ store))),
        refl,
        ap (λ x. x.index) (write-same c.address _ store')
            ∙ ap (λ x. x.index) (write-same c.address _ store)
            ∙ ap (λ x. x.index) there,
        ap (λ x. x.create_time) (write-same c.address _ store')
            ∙ ap (λ x. x.create_time) (write-same c.address _ store)
            ∙ ap (λ x. x.create_time) there,
        ap (λ k. push_row k c.address r.overrun_hash)
            (ap (λ x. x.index) (write-same c.address _ store) ∙ ap (λ x. x.index) there),
        refl,
      )
