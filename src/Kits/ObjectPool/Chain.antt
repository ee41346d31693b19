-- ===== src/Kits/ObjectPool/Chain.antt =====
-- The nodes that are linked from the head of the pool, and what a write elsewhere leaves of them.
use infinity_station.Base.{
  ℕ, ◌<◌, ◌≡◌, Bool, true, false, List, [], ◌∷◌, arith, drop, Bool-cases, inl, inr, ◌==◌,
  if◌then◌else◌,
}
use infinity_station.Kits.ObjectPool.{update}

abbrev pub has : List ℕ → ℕ → Bool
has [] a = false
has (x ∷ xs) a = if x == a then true else has xs a

abbrev pub IsDistinct : List ℕ → Type 0
IsDistinct [] = Unit
IsDistinct (x ∷ xs) = (has xs x ≡ false) × IsDistinct xs

-- `nodes` are the live nodes from `h` on, in the order of their links.
abbrev pub IsChain : (ℕ → Bool) → (ℕ → ℕ) → ℕ → List ℕ → Type 0
IsChain live next h [] = h ≡ 0
IsChain live next h (a ∷ nodes) =
    (h ≡ a) × (0 < a) × (live a ≡ true) × IsChain live next (next a) nodes

pub IsChain-live :
    (live : ℕ → Bool) (next : ℕ → ℕ) (nodes : List ℕ) (h a : ℕ)
    → IsChain live next h nodes
    → has nodes a ≡ true
    → (live a ≡ true) × (0 < a)
IsChain-live live next [] h a c m = cc
IsChain-live live next (b ∷ nodes) h a c m =
    ground (arith, IsChain-live live next nodes (next b) a c.3)

pub IsChain-update_next :
    (live : ℕ → Bool) (next : ℕ → ℕ) (nodes : List ℕ) (h a v : ℕ)
    → IsChain live next h nodes
    → has nodes a ≡ false
    → IsChain live (update next a v) h nodes
IsChain-update_next live next [] h a v c m = c
IsChain-update_next live next (b ∷ nodes) h a v c m = (
  c.0,
  c.1,
  c.2,
  let kept : update next a v b ≡ next b = ground arith in
      rw kept (IsChain-update_next live next nodes (next b) a v c.3 (ground arith)),
)

pub IsChain-update_live :
    (live : ℕ → Bool) (next : ℕ → ℕ) (nodes : List ℕ) (h a : ℕ) (v : Bool)
    → IsChain live next h nodes
    → has nodes a ≡ false
    → IsChain (update live a v) next h nodes
IsChain-update_live live next [] h a v c m = c
IsChain-update_live live next (b ∷ nodes) h a v c m =
    (c.0, c.1, ground arith, IsChain-update_live live next nodes (next b) a v c.3 (ground arith))

pub IsChain-dead :
    (live : ℕ → Bool) (next : ℕ → ℕ) (nodes : List ℕ) (h a : ℕ)
    → IsChain live next h nodes
    → live a ≡ false
    → has nodes a ≡ false
IsChain-dead live next nodes h a c dead = elim (Bool-cases (has nodes a)) [
  | inl there ↦ let alive = (IsChain-live live next nodes h a c there).0 in cc
  | inr no_node ↦ no_node
]

-- The list without its first node, which is the head.
pub IsChain-pop :
    (live : ℕ → Bool) (next : ℕ → ℕ) (nodes : List ℕ) (h : ℕ)
    → IsChain live next h nodes
    → IsDistinct nodes
    → has nodes h ≡ true
    → IsChain live next (next h) (drop 1 nodes)
      × IsDistinct (drop 1 nodes)
      × (has (drop 1 nodes) h ≡ false)
      × (nodes ≡ h ∷ drop 1 nodes)
IsChain-pop live next [] h c d m = cc
IsChain-pop live next (b ∷ nodes) h c d m = (rw c.0 (c.3), d.1, rw c.0 (d.0), ground arith)

pub has-drop : (nodes : List ℕ) (a : ℕ) → has nodes a ≡ false → has (drop 1 nodes) a ≡ false
has-drop [] a h = h
has-drop (b ∷ nodes) a h = ground arith

pub IsDistinct-drop : (nodes : List ℕ) → IsDistinct nodes → IsDistinct (drop 1 nodes)
IsDistinct-drop [] d = d
IsDistinct-drop (b ∷ nodes) d = d.1

pub IsChain-head :
    (live : ℕ → Bool) (next : ℕ → ℕ) (nodes : List ℕ) (h : ℕ)
    → IsChain live next h nodes
    → 0 < h
    → has nodes h ≡ true
IsChain-head live next [] h c pos = absurd (omega arith)
IsChain-head live next (b ∷ nodes) h c pos = ground arith
