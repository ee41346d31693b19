-- ===== src/Radar/Overrun/Regions.antt =====
-- What the regions of a frame are in RadarOverrun.cpp.
use infinity_station.Base.{
  ℕ, ◌+◌, ◌-◌, ◌/◌, ◌<◌, ◌≡◌, refl, ap, sym, ◌∙◌, Bool, false, ◌&&◌, ◌||◌, not, List, [], ◌∷◌, ◌++◌,
  length, arith, All, All-append, length-append, Bool-cases, inl, inr, Option-cases, get_elem?,
  if◌then◌else◌,
}
use mathlib.Core.List.{append-nil, append_assoc}
use infinity_station.Radar.Overrun.Scan.{
  DeviceSurfaceData, Geometry, Scan, set_angle, close_region, scan_point, scan_points, end_scan,
  scan_frame, begin_scan, is_empty,
}

module _ {P A : Type 0} (g : Geometry P A) where
  unfoldable pub over_limit : P → Bool
  over_limit p = not (g.is_origin p) && g.is_point_in_polygon p

  -- The points of a frame over the limit, in order.
  unfoldable pub points_over : List P → List P
  points_over [] = []
  points_over (p ∷ ps) = if over_limit p then p ∷ points_over ps else points_over ps

-- Every entry is the one object.
unfoldable pub IsOnly : ℕ → List ℕ → Type 0
IsOnly address xs = All (λ a. a ≡ address) xs

pub IsOnly-snoc :
    (address : ℕ) (xs : List ℕ) → IsOnly address xs → IsOnly address (xs ++ address ∷ [])
unfolding IsOnly
IsOnly-snoc address xs h = All-append (λ a. a ≡ address) xs (address ∷ []) h (refl, tt)

snoc-nonempty : (xs : List ℕ) (a : ℕ) → is_empty (xs ++ a ∷ []) ≡ false
snoc-nonempty [] a = refl
snoc-nonempty (x ∷ xs) a = refl

large-nonempty {ℓ} : {A : Type ℓ} (xs : List A) → 5 < length xs → is_empty xs ≡ false
large-nonempty [] h = absurd (omega (arith, h))
large-nonempty (x ∷ xs) h = refl

module _ {P A S : Type 0} (g : Geometry P A) (address : ℕ) where
  set_angle-kept :
      (o : DeviceSurfaceData P A S)
      → ((set_angle g address o).data_surface ≡ o.data_surface)
        × ((set_angle g address o).z_size ≡ o.z_size)
        × ((set_angle g address o).is_match ≡ o.is_match)
  unfolding set_angle
  set_angle-kept o =
      elim (Option-cases (get_elem? o.data_surface (length o.data_surface / 2 - 1))) [
        | inl absent ↦ ground (arith, absent)
        | inr (p, is) ↦ ground (arith, is)
      ]

  -- The points that a state has beyond those of another, and that all its regions are the one object.
  Grown : Scan P A S → List P → Scan P A S → Type 0
  Grown s ps t =
      (t.obj.data_surface ≡ s.obj.data_surface ++ ps)
      × (t.obj.z_size ≡ s.obj.z_size + length ps)
      × (IsOnly address s.overrun_list_now → IsOnly address t.overrun_list_now)
      × (t.obj.is_match ≡ s.obj.is_match)

  close_region-Grown : (s : Scan P A S) → Grown s [] (close_region g address s)
  unfolding Grown close_region
  close_region-Grown s =
      let xs = s.obj.data_surface in
      (
        ground (arith, set_angle-kept s.obj, append-nil xs),
        ground (arith, set_angle-kept s.obj),
        λ h. ground (arith, h, IsOnly-snoc address s.overrun_list_now h),
        ground (arith, set_angle-kept s.obj),
      )

  scan_point-Grown :
      (p : P) (s : Scan P A S)
      → Grown s (if over_limit g p then p ∷ [] else []) (scan_point g address p s)
  unfolding Grown scan_point over_limit
  scan_point-Grown p s = ground (arith, close_region-Grown s, append-nil s.obj.data_surface)

  scan_points-Grown :
      (ps : List P) (s : Scan P A S) → Grown s (points_over g ps) (scan_points g address ps s)
  unfolding Grown scan_points points_over
  scan_points-Grown [] s = (sym (append-nil s.obj.data_surface), omega arith, λ h. h, refl)
  scan_points-Grown (p ∷ ps) s =
      let (data1, size1, only1, match1) = scan_point-Grown p s in
      let (data2, size2, only2, match2) = scan_points-Grown ps (scan_point g address p s) in
      (
        ground (
          arith,
          data1,
          data2,
          append_assoc s.obj.data_surface (p ∷ []) (points_over g ps),
          append-nil s.obj.data_surface,
        ),
        ground (arith, size1, size2),
        λ h. only2 (only1 h),
        match2 ∙ match1,
      )

  end_scan-kept :
      (s : Scan P A S)
      → ((end_scan g address s).obj ≡ s.obj)
        × (IsOnly address s.overrun_list_now
            → IsOnly address (end_scan g address s).overrun_list_now)
  unfolding end_scan
  end_scan-kept s =
      let here = s.in_polygon && not (is_empty s.obj.data_surface) in
      elim (Bool-cases here) [
        | inl ends ↦ (
          ground (arith, ends),
          λ h. ground (arith, ends, IsOnly-snoc address s.overrun_list_now h),
        )
        | inr goes ↦ (ground (arith, goes), λ h. ground (arith, goes, h))
      ]

  -- Whatever points the object has when the pool gives it, and however many regions a frame has:
  -- every entry of the list of regions is that one object, whose points are those it had and then all
  -- points of the frame over the limit, in order, and its count of points grows by their number.
  pub scan_frame-object :
      (frame : List P) (o : DeviceSurfaceData P A S)
      → let s = scan_frame g address frame o in
        IsOnly address s.overrun_list_now
        × (s.obj.data_surface ≡ o.data_surface ++ points_over g frame)
        × (s.obj.z_size ≡ o.z_size + length (points_over g frame))
  unfolding scan_frame Grown
  scan_frame-object frame o =
      let (points, size, only, _) = scan_points-Grown frame (begin_scan o) in
      let (same, kept) = end_scan-kept (scan_points g address frame (begin_scan o)) in
      (
        kept (only (unfold IsOnly in tt)),
        ap (λ x. x.data_surface) same ∙ points,
        ap (λ x. x.z_size) same ∙ size,
      )

  pub scan_frame-is_match :
      (frame : List P) (o : DeviceSurfaceData P A S)
      → (scan_frame g address frame o).obj.is_match ≡ o.is_match
  unfolding scan_frame Grown
  scan_frame-is_match frame o =
      let s = scan_points g address frame (begin_scan o) in
      let (_, _, _, same) = scan_points-Grown frame (begin_scan o) in
      ap (λ x. x.is_match) (end_scan-kept s).0 ∙ same

  -- Whether a region is under way or in the list.
  started : Scan P A S → Bool
  started s = s.in_polygon || not (is_empty s.overrun_list_now)

  -- With more than five points in the object a region that ends is never too small.
  scan_point-started :
      (p : P) (s : Scan P A S)
      → 5 < length s.obj.data_surface
      → started (scan_point g address p s) ≡ (started s || over_limit g p)
  unfolding started scan_point close_region over_limit
  scan_point-started p s large = ground (arith, large, snoc-nonempty s.overrun_list_now address)

  Grown-large :
      (s t : Scan P A S) (ps : List P)
      → Grown s ps t
      → 5 < length s.obj.data_surface
      → 5 < length t.obj.data_surface
  unfolding Grown
  Grown-large s t ps (points, _, _, _) large =
      omega (arith, large, ap (λ xs. length xs) points, length-append s.obj.data_surface ps)

  scan_point-large :
      (p : P) (s : Scan P A S)
      → 5 < length s.obj.data_surface
      → 5 < length (scan_point g address p s).obj.data_surface
  unfolding Grown
  scan_point-large p s large =
      Grown-large s (scan_point g address p s) _ (scan_point-Grown p s) large

  scan_points-started :
      (ps : List P) (s : Scan P A S)
      → 5 < length s.obj.data_surface
      → started (scan_points g address ps s) ≡ (started s || not (is_empty (points_over g ps)))
  unfolding scan_points points_over
  scan_points-started [] s large = ground arith
  scan_points-started (p ∷ ps) s large =
      let here = scan_point-started p s large in
      let rest = scan_points-started ps (scan_point g address p s) (scan_point-large p s large) in
      ground (arith, here, rest)

  end_scan-started :
      (s : Scan P A S)
      → 5 < length s.obj.data_surface
      → is_empty (end_scan g address s).overrun_list_now ≡ not (started s)
  unfolding end_scan started
  end_scan-started s large =
      ground
        (arith, large, large-nonempty s.obj.data_surface, snoc-nonempty s.overrun_list_now address)

  -- Where the object that the pool gives has more than five points, a frame has a region in the list
  -- exactly when at least one of its points is over the limit.
  pub scan_frame-one_point :
      (frame : List P) (o : DeviceSurfaceData P A S)
      → 5 < length o.data_surface
      → is_empty (scan_frame g address frame o).overrun_list_now ≡ is_empty (points_over g frame)
  unfolding scan_frame started
  scan_frame-one_point frame o large =
      let s = scan_points g address frame (begin_scan o) in
      let big = Grown-large (begin_scan o) s _ (scan_points-Grown frame (begin_scan o)) large in
      let begun = scan_points-started frame (begin_scan o) large in
      ground (arith, end_scan-started s big, begun)
