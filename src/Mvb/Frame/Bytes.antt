-- ===== src/Mvb/Frame/Bytes.antt =====
-- What `set_value` writes, byte by byte.
use infinity_station.Base.{
  ℕ, zero, suc, ◌+◌, ◌-◌, ◌*◌, ◌/◌, ◌%◌, ◌^◌, ◌≤◌, ◌<◌, ◌≡◌, ◌≢◌, refl, ◌∙◌,
}
use infinity_station.Base.{Bool, true, false, ◌||◌, ltb, if◌then◌else◌, List, arith, ◌⊎◌, inl, inr}
use infinity_station.Base.{length, get_or, set, length-set, get_or-set_self, get_or-set_ne}
use infinity_station.Base.{All, All-set, Bool-cases}
use infinity_station.Mvb.Frame.{IsByte, store_low_first, store_high_first, set_value}
use native.Mathlib.Decide.{ℕ_discrete}

-- Byte `i` of a bit pattern, the lowest first.
abbrev pub byte_of : ℕ → ℕ → ℕ
byte_of value i = value / 2 ^ (i * 8) % 2 ^ 8

-- The position of byte `i` of a field of `size` bytes, in either order.
abbrev pub place : Bool → ℕ → ℕ → ℕ
place is_big_endian size i = if is_big_endian then i else size - i - 1

-- The two loops have one invariant: both write byte `i` at `position i`.
store : (ℕ → ℕ) → ℕ → ℕ → ℕ → List ℕ → List ℕ
store position zero i value frame = frame
store position (suc left) i value frame =
    store position left (i + 1) value (set frame (position i) (byte_of value i))

store_low_first-store :
    (left i offset value : ℕ) (frame : List ℕ)
    → store_low_first left i offset value frame ≡ store (λ k. offset + k) left i value frame
unfolding store_low_first store
store_low_first-store zero i offset value frame = refl
store_low_first-store (suc left) i offset value frame =
    store_low_first-store left (i + 1) offset value _

store_high_first-store :
    (left i offset size value : ℕ) (frame : List ℕ)
    → store_high_first left i offset size value frame
      ≡ store (λ k. offset + size - k - 1) left i value frame
unfolding store_high_first store
store_high_first-store zero i offset size value frame = refl
store_high_first-store (suc left) i offset size value frame =
    store_high_first-store left (i + 1) offset size value _

module _ (position : ℕ → ℕ) where
  length-store :
      (left i value : ℕ) (frame : List ℕ)
      → length (store position left i value frame) ≡ length frame
  unfolding store
  length-store zero i value frame = refl
  length-store (suc left) i value frame =
      length-store left (i + 1) value _ ∙ length-set frame (position i) _

  store-IsByte :
      (left i value : ℕ) (frame : List ℕ)
      → All IsByte frame
      → All IsByte (store position left i value frame)
  unfolding store
  store-IsByte zero i value frame h = h
  store-IsByte (suc left) i value frame h =
      store-IsByte left (i + 1) value _ (All-set IsByte frame (position i) _ h (omega arith))

  store_outside :
      (left i value : ℕ) (frame : List ℕ) (p : ℕ)
      → ((k : ℕ) → i ≤ k → k < i + left → position k ≢ p)
      → get_or (store position left i value frame) p 0 ≡ get_or frame p 0
  unfolding store
  store_outside zero i value frame p away = refl
  store_outside (suc left) i value frame p away =
      store_outside left (i + 1) value _ p (λ k lo hi. away k (omega arith) (omega arith))
      ∙ get_or-set_ne frame (position i) p _ 0 (away i (omega arith) (omega arith))

  store_inside :
      (left i value : ℕ) (frame : List ℕ) (j : ℕ)
      → ((k l : ℕ) → k < l → l < i + left → position k ≢ position l)
      → ((k : ℕ) → k < i + left → position k < length frame)
      → i ≤ j
      → j < i + left
      → get_or (store position left i value frame) (position j) 0 ≡ byte_of value j
  unfolding store
  store_inside zero i value frame j apart fits lo hi = absurd (omega arith)
  store_inside (suc left) i value frame j apart fits lo hi = elim (ℕ_discrete i j) [
    | yes here ↦ rw (← here) (
        store_outside left (i + 1) value _ (position i)
          (λ k l h e. apart i k (omega arith) (omega arith) (omega arith))
        ∙ get_or-set_self frame (position i) _ 0 (fits i (omega arith)))
    | no later ↦
        store_inside left (i + 1) value _ j (λ k l lt h. apart k l lt (omega arith))
          (λ k h. rw (length-set frame (position i) (byte_of value i)) (fits k (omega arith)))
          (omega arith) (omega arith)
  ]

-- The guard drops a write that does not fit, and the whole frame keeps its length and bytes.
module _ (size offset len value : ℕ) (is_big_endian : Bool) (frame : List ℕ) where
  pub set_value_dropped :
      (ltb (length frame) (offset + len) || ltb len size) ≡ true
      → set_value size offset len value is_big_endian frame ≡ frame
  unfolding set_value
  set_value_dropped h = ground arith

  pub length-set_value : length (set_value size offset len value is_big_endian frame) ≡ length frame
  unfolding set_value
  length-set_value = ground (
    arith,
    store_low_first-store size 0 offset value frame,
    store_high_first-store size 0 offset size value frame,
    length-store (λ k. offset + k) size 0 value frame,
    length-store (λ k. offset + size - k - 1) size 0 value frame,
  )

  pub set_value-IsByte :
      All IsByte frame → All IsByte (set_value size offset len value is_big_endian frame)
  unfolding set_value
  set_value-IsByte h =
      elim (Bool-cases
        (ltb (length frame) offset || ltb (length frame) (offset + len) || ltb len size)) [
          | inl dropped ↦ rw dropped h
          | inr kept ↦ rw kept (stored is_big_endian)
        ]
    where
      stored :
          (big : Bool)
          → All IsByte (
              if big
              then store_low_first size 0 offset value frame
              else store_high_first size 0 offset size value frame)
      stored true =
          rw (store_low_first-store size 0 offset value frame) (store-IsByte _ size 0 value frame h)
      stored false =
          rw (store_high_first-store size 0 offset size value frame)
            (store-IsByte _ size 0 value frame h)

-- A write that fits, with a length that is the size of its type.
module _ (size offset value : ℕ) (frame : List ℕ) (fits : offset + size ≤ length frame) where
  set_value-low :
      set_value size offset size value true frame ≡ store (λ k. offset + k) size 0 value frame
  unfolding set_value
  set_value-low = ground (arith, store_low_first-store size 0 offset value frame)

  set_value-high :
      set_value size offset size value false frame
      ≡ store (λ k. offset + size - k - 1) size 0 value frame
  unfolding set_value
  set_value-high = ground (arith, store_high_first-store size 0 offset size value frame)

  -- Byte `i` of the value goes to its place in the field.
  pub set_value_inside :
      (is_big_endian : Bool) (i : ℕ)
      → i < size
      → get_or
          (set_value size offset size value is_big_endian frame)
          (offset + place is_big_endian size i)
          0
        ≡ byte_of value i
  set_value_inside true i h = rw set_value-low (
      store_inside (λ k. offset + k) size 0 value frame i (λ k l lt b e. omega arith)
        (λ k b. omega arith) (omega arith) (omega arith))
  set_value_inside false i h =
      let same : offset + (size - i - 1) ≡ offset + size - i - 1 = omega arith in
      rw (set_value-high, same)
        (store_inside (λ k. offset + size - k - 1) size 0 value frame i (λ k l lt b e. omega arith)
          (λ k b. omega arith) (omega arith) (omega arith))

  -- The rest of the frame stays.
  pub set_value_outside :
      (is_big_endian : Bool) (p : ℕ)
      → (p < offset) ⊎ (offset + size ≤ p)
      → get_or (set_value size offset size value is_big_endian frame) p 0 ≡ get_or frame p 0
  set_value_outside true p away =
      rw set_value-low
        (store_outside (λ k. offset + k) size 0 value frame p (λ k lo hi e. omega arith))
  set_value_outside false p away =
      rw set_value-high
        (store_outside (λ k. offset + size - k - 1) size 0 value frame p (λ k lo hi e. omega arith))
