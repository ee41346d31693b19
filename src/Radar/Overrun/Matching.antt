-- ===== src/Radar/Overrun/Matching.antt =====
-- The rounds of the matching in RadarOverrun.cpp that leave an index alone.
use infinity_station.Base.{
  ℕ, ◌≡◌, ◌≢◌, refl, sym, subst, ◌∙◌, true, ◌&&◌, List, [], ◌∷◌, Option, none, some, arith, All,
  All-append, inl, inr, Bool-cases, if◌then◌else◌,
}
use infinity_station.Radar.Overrun.Table.{}
use infinity_station.Radar.Overrun.Scan.{DeviceSurfaceData}
use infinity_station.Radar.Overrun.Regions.{IsOnly}
use infinity_station.Radar.Overrun.Frame.{Angles, write, nearest, match_one, match_all}

some_injective : (j k : ℕ) → some j ≡ some k → j ≡ k
some_injective j k e = cc

module _ {P A S : Type 0} where
  pub write-same :
      (n : ℕ) (o : DeviceSurfaceData P A S) (store : ℕ → DeviceSurfaceData P A S)
      → write n o store n ≡ o
  write-same n o store = ground arith

module _ {P A S : Type 0} (i : ℕ) where
  -- A region that inherited its index has another.
  unfoldable pub Inherits : ℕ → (ℕ → DeviceSurfaceData P A S) → Type 0
  Inherits address store = (store address).is_match ≡ true → (store address).index ≢ i

  module _ {D : Type 0} (angles : Angles A D) (address : ℕ) where
    nearest-only :
        (store : ℕ → DeviceSurfaceData P A S) (b : ℕ) (ns : List ℕ) (min : D) (best : Option ℕ)
        → IsOnly address ns
        → ((n : ℕ) → best ≡ some n → n ≡ address)
        → (n : ℕ) → nearest angles store b ns min best ≡ some n
        → n ≡ address
    unfolding nearest IsOnly
    nearest-only store b [] min best only h n e = h n e
    nearest-only store b (k ∷ ns) min best only h n e =
        let d = angles.ring_difference (store k).angle_start (store b).angle_start in
        let better = angles.is_less d min && angles.is_acceptable d in
        nearest-only store b ns (if better then d else min) (if better then some k else best) only.1
          (λ j is. elim (Bool-cases better) [
            | inl yes_better ↦ some_injective j k (ground (arith, is, yes_better)) ∙ only.0
            | inr worse ↦ h j (ground (arith, is, worse))
          ])
          n e

    -- What holds after each round.
    unfoldable pub Apart : (ℕ → DeviceSurfaceData P A S) → List ℕ → Type 0
    Apart store bs = All (λ b. (b ≢ address) × ((store b).index ≢ i)) bs

    unfoldable pub Result : List ℕ → (ℕ → DeviceSurfaceData P A S) × List ℕ → Type 0
    Result bs (store, no_use) = Apart store bs × Inherits address store × All (λ j. j ≢ i) no_use

    write-Apart :
        (o : DeviceSurfaceData P A S) (store : ℕ → DeviceSurfaceData P A S) (bs : List ℕ)
        → Apart store bs
        → Apart (write address o store) bs
    unfolding Apart
    write-Apart o store [] h = tt
    write-Apart o store (b ∷ bs) ((other, not_i), h) =
        ((other, ground (arith, other, not_i)), write-Apart o store bs h)

    match_one-Result :
        (b : ℕ) (best : Option ℕ) (bs : List ℕ) (store : ℕ → DeviceSurfaceData P A S)
        (no_use : List ℕ)
        → ((n : ℕ) → best ≡ some n → n ≡ address)
        → Result (b ∷ bs) (store, no_use)
        → Result bs (match_one b best store no_use)
    unfolding match_one Result Inherits Apart
    match_one-Result b none bs store no_use at (hb, inherits, hu) =
        (hb.1, inherits, All-append (λ j. j ≢ i) no_use ((store b).index ∷ []) hu (hb.0.1, tt))
    match_one-Result b (some n) bs store no_use at (hb, inherits, hu) =
        subst (λ k. Result bs (match_one b (some k) store no_use)) (sym (at n refl))
          (
            write-Apart _ store bs hb.1,
            λ _. subst (λ x. x.index ≢ i) (sym (write-same address _ store)) hb.0.1,
            hu,
          )

    pub match_all-avoids :
        (bs ns : List ℕ) (store : ℕ → DeviceSurfaceData P A S) (no_use : List ℕ)
        → IsOnly address ns
        → Result bs (store, no_use)
        → Result [] (match_all angles bs ns store no_use)
    unfolding match_all
    match_all-avoids [] ns store no_use only h = h
    match_all-avoids (b ∷ bs) ns store no_use only h =
        let best = nearest angles store b ns angles.widest none in
        let (store', no_use') = match_one b best store no_use in
        match_all-avoids bs ns store' no_use' only (
          match_one-Result b best bs store no_use
            (nearest-only store b ns angles.widest none only (λ n e. absurd (cc (e)))) h)
