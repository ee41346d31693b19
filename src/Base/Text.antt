-- ===== src/Base/Text.antt =====
-- Texts as lists of their code units, and maps whose keys are texts.
use Prim.Native.Nat.{ℕ}
use Prim.Native.Char.{code}
use Prim.Native.String.{String}
use mathlib.Core.Path.{◌≡◌, refl, ap₂}
use mathlib.Core.Bool.{Bool, true, false, ◌&&◌}
use mathlib.Core.Option.{Option, none, some}
use mathlib.Core.List.{List, [], ◌∷◌}
use native.Mathlib.Omega.{arith}
use infinity_station.Base.Tests.{◌==◌, if◌then◌else◌}

-- The code units of a text literal.
abbrev pub codes : String → List ℕ
codes String.[] = []
codes (String.◌∷◌ c s) = code c ∷ codes s

-- Equality of two texts.
unfoldable pub same_text : List ℕ → List ℕ → Bool
same_text [] [] = true
same_text [] (d ∷ ds) = false
same_text (c ∷ cs) [] = false
same_text (c ∷ cs) (d ∷ ds) = c == d && same_text cs ds

pub same_text_sound : (xs ys : List ℕ) → same_text xs ys ≡ true → xs ≡ ys
unfolding same_text
same_text_sound [] [] e = refl
same_text_sound [] (y ∷ ys) e = absurd (ground (arith, e))
same_text_sound (x ∷ xs) [] e = absurd (ground (arith, e))
same_text_sound (x ∷ xs) (y ∷ ys) e =
    ap₂ ◌∷◌ (ground (arith, e)) (same_text_sound xs ys (ground (arith, e)))

pub same_text_refl : (xs : List ℕ) → same_text xs xs ≡ true
unfolding same_text
same_text_refl [] = refl
same_text_refl (x ∷ xs) = ground (arith, same_text_refl xs)

pub same_text_comm : (xs ys : List ℕ) → same_text xs ys ≡ same_text ys xs
unfolding same_text
same_text_comm [] [] = refl
same_text_comm [] (y ∷ ys) = refl
same_text_comm (x ∷ xs) [] = refl
same_text_comm (x ∷ xs) (y ∷ ys) = ground (arith, same_text_comm xs ys)

unfoldable pub is_empty {ℓ} : {A : Type ℓ} → List A → Bool
is_empty [] = true
is_empty (x ∷ xs) = false

module _ {ℓ} {V : Type ℓ} where
  unfoldable pub find_key : List ℕ → List (List ℕ × V) → Option V
  unfolding same_text
  find_key k [] = none
  find_key k ((j, v) ∷ m) = let rest = find_key k m in if same_text j k then some v else rest

  -- `m[k] = v`
  unfoldable pub put_key : List ℕ → V → List (List ℕ × V) → List (List ℕ × V)
  unfolding same_text
  put_key k v [] = (k, v) ∷ []
  put_key k v ((j, w) ∷ m) =
      let rest = put_key k v m in if same_text j k then (j, v) ∷ m else (j, w) ∷ rest

  pub find_key-put_key :
      (k j : List ℕ) (v : V) (m : List (List ℕ × V))
      → find_key j (put_key k v m) ≡ (if same_text k j then some v else find_key j m)
  unfolding find_key put_key
  find_key-put_key k j v [] = refl
  find_key-put_key k j v ((i, w) ∷ m) = ground (
    arith,
    find_key-put_key k j v m,
    same_text_sound i k,
    same_text_sound i j,
    same_text_sound k j,
    same_text_refl k,
    same_text_refl j,
  )
