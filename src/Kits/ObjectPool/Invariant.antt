-- ===== src/Kits/ObjectPool/Invariant.antt =====
-- What holds of the nodes of the pool, where only thread 0 calls `getObject`: the list of the pooled
-- nodes, the nodes that threads hold, and how a step changes the list.
mod Frames
mod Moves
pub mod Kept
use infinity_station.Base.{
  ℕ, ◌+◌, ◌≤◌, ◌<◌, ◌≡◌, ◌≢◌, refl, Bool, true, false, List, [], ◌∷◌, Option, none, some, arith,
  ◌==◌, if◌then◌else◌, drop, Bool-cases, inl, inr,
}
use infinity_station.Kits.ObjectPool.{
  Memory, System, Pc, Move, Step, Reach, pick, here, later, update, start, idle, check, build,
  push_load, push_cas, add, pop_load, make, pop_next, pop_cas, sub, take, broken, push_win, pop_win,
}
use infinity_station.Kits.ObjectPool.Chain.{
  has, IsDistinct, IsChain, IsChain-live, IsChain-update_next, IsChain-update_live, IsChain-dead,
  IsChain-pop, has-drop, IsDistinct-drop, IsChain-head,
}

-- The call of `getObject` is under way.
abbrev pub popping : Pc → Bool
popping pop_load = true
popping make = true
popping (pop_next _) = true
popping (pop_cas _ _) = true
popping (sub _) = true
popping (take _) = true
popping broken = true
popping _ = false

-- The node that only this thread may touch.
abbrev pub node : Pc → Option ℕ
node (push_load a) = some a
node (push_cas a _) = some a
node (sub h) = some h
node (take h) = some h
node _ = none

-- What a thread's local variables say of the memory and of the pooled nodes.
abbrev pub Local : (ℕ → Bool) → (ℕ → ℕ) → List ℕ → Pc → Type 0
Local live next nodes (push_load a) = (0 < a) × (live a ≡ true) × (has nodes a ≡ false)
Local live next nodes (push_cas a h) =
    (0 < a) × (live a ≡ true) × (has nodes a ≡ false) × (next a ≡ h)
Local live next nodes (pop_next h) = has nodes h ≡ true
Local live next nodes (pop_cas h x) = (has nodes h ≡ true) × (next h ≡ x)
Local live next nodes (sub h) = (live h ≡ true) × (has nodes h ≡ false)
Local live next nodes (take h) = (live h ≡ true) × (has nodes h ≡ false)
Local live next nodes broken = ⊥
Local live next nodes _ = Unit

pub record Inv (m : Memory) (pc : ℕ → Pc) (nodes : List ℕ) : Type 0 where
  pub linked : IsChain m.live m.next m.head nodes
  pub distinct : IsDistinct nodes
  pub locals : (i : ℕ) → Local m.live m.next nodes (pc i)
  pub private_nodes : (i j a : ℕ) → node (pc i) ≡ some a → node (pc j) ≡ some a → i ≡ j
  pub consumer : (i : ℕ) → popping (pc i) ≡ true → i ≡ 0

-- What a step makes of the list of pooled nodes.
abbrev pub nodes_after :
    {max : ℕ} {gets : Bool} {m m' : Memory} {p p' : Pc} → Move max gets m p m' p' → List ℕ → List ℕ
nodes_after (push_win {a = a} _) nodes = a ∷ nodes
nodes_after (pop_win _) nodes = drop 1 nodes
nodes_after _ nodes = nodes
