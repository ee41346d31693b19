-- ===== src/Kits/ObjectPool/Invariant/Moves.antt =====
-- The thread that moves, and the list of pooled nodes after its step.
use infinity_station.Base.{ℕ, ◌≡◌, refl, Bool, true, false, ◌⊎◌, List, some, arith, inl, inr}
use infinity_station.Kits.ObjectPool.{Memory, Pc, Move, push_win, pop_win}
use infinity_station.Kits.ObjectPool.Chain.{
  has, IsDistinct, IsChain, IsChain-live, IsChain-update_next, IsChain-update_live, IsChain-dead,
  IsChain-pop, IsDistinct-drop, IsChain-head,
}
use infinity_station.Kits.ObjectPool.Invariant.{popping, node, Local, nodes_after}

module _ {max : ℕ} {gets : Bool} (m : Memory) (nodes : List ℕ) where
  pub step_linked :
      {m' : Memory} {p p' : Pc} (mv : Move max gets m p m' p')
      → Local m.live m.next nodes p
      → IsChain m.live m.next m.head nodes
      → IsDistinct nodes
      → IsChain m'.live m'.next m'.head (nodes_after mv nodes)
  step_linked (Move.alloc {o = o} {a = a} pos free) l c d =
      let out : has nodes a ≡ false = IsChain-dead m.live m.next nodes m.head a c free in
      IsChain-update_live m.live _ nodes m.head a true
        (IsChain-update_next m.live m.next nodes m.head a 0 c out) out
  step_linked (Move.load {a = a}) l c d =
      IsChain-update_next m.live m.next nodes m.head a m.head c l.2
  step_linked (push_win {a = a} e) l c d = (refl, l.0, l.1, rw (l.3, ← e) c)
  step_linked (pop_win {h = h} {x = x} e) l c d =
      rw (← l.1) ((IsChain-pop m.live m.next nodes h (rw (← e) c) d (l.0)).0)
  step_linked (Move.hand_out {h = h} alive) l c d =
      IsChain-update_live m.live m.next nodes m.head h false c l.1
  step_linked _ l c d = c

  pub step-IsDistinct :
      {m' : Memory} {p p' : Pc} (mv : Move max gets m p m' p')
      → Local m.live m.next nodes p
      → IsDistinct nodes
      → IsDistinct (nodes_after mv nodes)
  step-IsDistinct (push_win e) l d = (l.2, d)
  step-IsDistinct (pop_win e) l d = IsDistinct-drop nodes d
  step-IsDistinct _ l d = d

  -- The thread that moved.
  pub step_own :
      {m' : Memory} {p p' : Pc} (mv : Move max gets m p m' p')
      → Local m.live m.next nodes p
      → IsChain m.live m.next m.head nodes
      → IsDistinct nodes
      → Local m'.live m'.next (nodes_after mv nodes) p'
  step_own (Move.alloc {o = o} {a = a} pos free) l c d =
      (pos, ground arith, IsChain-dead m.live m.next nodes m.head a c free)
  step_own (Move.load {a = a}) l c d = (l.0, l.1, l.2, ground arith)
  step_own (push_win e) l c d = tt
  step_own Move.push_lose l c d = (l.0, l.1, l.2)
  step_own (Move.seen pos) l c d = IsChain-head m.live m.next nodes m.head c pos
  step_own (Move.read alive) l c d = (l, refl)
  step_own (Move.read_deleted {h = h} dead) l c d =
      let alive = (IsChain-live m.live m.next nodes m.head h c l).0 in cc
  step_own (pop_win {h = h} e) l c d = (
    (IsChain-live m.live m.next nodes m.head h c (l.0)).0,
    (IsChain-pop m.live m.next nodes h (rw (← e) c) d (l.0)).2,
  )
  step_own Move.count_down l c d = l
  step_own (Move.take_deleted dead) l c d = cc
  step_own (Move.release o) l c d = tt
  step_own _ l c d = tt

  -- A node that a thread comes to hold was not live before, or was in the pool.
  pub step_node :
      {m' : Memory} {p p' : Pc} (mv : Move max gets m p m' p')
      → Local m.live m.next nodes p
      → (a : ℕ) → node p' ≡ some a
      → (node p ≡ some a) ⊎ (m.live a ≡ false) ⊎ (has nodes a ≡ true)
  step_node (Move.alloc pos dead) l a e = inr (inl (ground arith))
  step_node (pop_win e') l a e = inr (inr (ground arith))
  step_node Move.load l a e = inl e
  step_node Move.push_lose l a e = inl e
  step_node Move.count_down l a e = inl e
  step_node _ l a e = cc

  pub step_popping :
      {m' : Memory} {p p' : Pc} (mv : Move max gets m p m' p')
      → popping p' ≡ true
      → (popping p ≡ true) ⊎ (gets ≡ true)
  step_popping (Move.call g) e = inr g
  step_popping (Move.release x) e = cc
  step_popping (Move.full x) e = cc
  step_popping (Move.room x) e = cc
  step_popping (Move.alloc x y) e = cc
  step_popping Move.load e = cc
  step_popping (push_win x) e = cc
  step_popping Move.push_lose e = cc
  step_popping Move.count_up e = cc
  step_popping Move.construct e = inl refl
  step_popping _ e = inl refl
