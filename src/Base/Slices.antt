-- ===== src/Base/Slices.antt =====
-- Runs of consecutive elements of a list.
use Prim.Native.Nat.{ℕ, zero, suc, ◌+◌, ◌≤◌, ◌<◌}
use mathlib.Core.Path.{◌≡◌, refl, sym, ap, ◌∙◌}
use mathlib.Core.List.{List, [], ◌∷◌, ◌++◌}
use native.Mathlib.Decide.{dec_lt}
use native.Mathlib.Omega.{arith}
use infinity_station.Base.Lists.{length, get_or, take, drop, All, length-take, get_or_ext}

module _ {ℓ} {A : Type ℓ} where
  pub get_or-drop :
      (o : ℕ) (xs : List A) (i : ℕ) (d : A) → get_or (drop o xs) i d ≡ get_or xs (o + i) d
  get_or-drop zero xs i d = ap (λ k. get_or xs k d) (omega arith)
  get_or-drop (suc o) [] i d = refl
  get_or-drop (suc o) (x ∷ xs) i d = get_or-drop o xs i d ∙ ap (λ k. get_or (x ∷ xs) k d) e
    where
      e : suc (o + i) ≡ suc o + i
      e = omega arith

  pub get_or-take :
      (n : ℕ) (xs : List A) (i : ℕ) (d : A) → i < n → get_or (take n xs) i d ≡ get_or xs i d
  get_or-take zero xs i d h = absurd (omega arith)
  get_or-take (suc n) [] i d h = refl
  get_or-take (suc n) (x ∷ xs) zero d h = refl
  get_or-take (suc n) (x ∷ xs) (suc i) d h = get_or-take n xs i d (omega arith)

  pub length-drop : (n : ℕ) (xs : List A) → n ≤ length xs → n + length (drop n xs) ≡ length xs
  length-drop zero xs h = omega arith
  length-drop (suc n) [] h = absurd (omega arith)
  length-drop (suc n) (x ∷ xs) h = omega (arith, length-drop n xs (omega arith))

  pub drop-drop : (a b : ℕ) (xs : List A) → drop b (drop a xs) ≡ drop (a + b) xs
  drop-drop zero b xs = ap (λ n. drop n xs) (omega arith)
  drop-drop (suc a) b [] = empty b ∙ sym (empty (suc a + b))
    where
      empty : (n : ℕ) → drop {A = A} n [] ≡ []
      empty zero = refl
      empty (suc n) = refl
  drop-drop (suc a) b (x ∷ xs) = drop-drop a b xs ∙ ap (λ n. drop n (x ∷ xs)) e
    where
      e : suc (a + b) ≡ suc a + b
      e = omega arith

  pub take-add : (a b : ℕ) (xs : List A) → take (a + b) xs ≡ take a xs ++ take b (drop a xs)
  take-add zero b xs = ap (λ n. take n xs) (omega arith)
  take-add (suc a) b [] = ap (λ n. take n []) e ∙ sym (empty b)
    where
      e : suc a + b ≡ suc (a + b)
      e = omega arith

      empty : (n : ℕ) → take {A = A} n [] ≡ []
      empty zero = refl
      empty (suc n) = refl
  take-add (suc a) b (x ∷ xs) = ap (λ n. take n (x ∷ xs)) e ∙ ap (◌∷◌ x) (take-add a b xs)
    where
      e : suc a + b ≡ suc (a + b)
      e = omega arith

  pub All-drop {κ} : (P : A → Type κ) (n : ℕ) (xs : List A) → All P xs → All P (drop n xs)
  All-drop P zero xs h = h
  All-drop P (suc n) [] h = h
  All-drop P (suc n) (x ∷ xs) h = All-drop P n xs h.1

  pub All-take {κ} : (P : A → Type κ) (n : ℕ) (xs : List A) → All P xs → All P (take n xs)
  All-take P zero xs h = tt
  All-take P (suc n) [] h = h
  All-take P (suc n) (x ∷ xs) h = (h.0, All-take P n xs h.1)

  abbrev pub slice : ℕ → ℕ → List A → List A
  slice o n xs = take n (drop o xs)

  pub length-slice : (o n : ℕ) (xs : List A) → o + n ≤ length xs → length (slice o n xs) ≡ n
  length-slice o n xs h = length-take n (drop o xs) (omega (arith, length-drop o xs))

  pub get_or-slice :
      (o n : ℕ) (xs : List A) (i : ℕ) (d : A)
      → i < n
      → get_or (slice o n xs) i d ≡ get_or xs (o + i) d
  get_or-slice o n xs i d h = get_or-take n (drop o xs) i d h ∙ get_or-drop o xs i d

  pub slice_ext :
      (d : A) (o n : ℕ) (xs ys : List A)
      → o + n ≤ length xs
      → length xs ≡ length ys
      → ((i : ℕ) → i < n → get_or xs (o + i) d ≡ get_or ys (o + i) d)
      → slice o n xs ≡ slice o n ys
  slice_ext d o n xs ys fits same h =
      get_or_ext d _ _ (length-slice o n xs fits ∙ sym (length-slice o n ys (omega arith))) at
    where
      past : (zs : List A) (i : ℕ) → length zs ≤ i → get_or zs i d ≡ d
      past [] i le = refl
      past (z ∷ zs) zero le = absurd (omega arith)
      past (z ∷ zs) (suc i) le = past zs i (omega arith)

      at : (i : ℕ) → get_or (slice o n xs) i d ≡ get_or (slice o n ys) i d
      at i = elim (dec_lt i n) [
        | yes lt ↦ get_or-slice o n xs i d lt ∙ h i lt ∙ sym (get_or-slice o n ys i d lt)
        | no ge ↦
            past (slice o n xs) i (omega (arith, length-slice o n xs fits))
            ∙ sym (past (slice o n ys) i (omega (arith, length-slice o n ys (omega arith))))
      ]
