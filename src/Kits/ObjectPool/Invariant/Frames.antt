-- ===== src/Kits/ObjectPool/Invariant/Frames.antt =====
-- The threads that stand still: what the step of another thread leaves true of them.
use infinity_station.Base.{ℕ, ◌≡◌, refl, Bool, true, false, List, ◌∷◌, some, arith, drop}
use infinity_station.Kits.ObjectPool.{
  Memory, Pc, Move, update, idle, push_load, push_cas, pop_next, pop_cas, sub, take, broken,
  push_win, pop_win,
}
use infinity_station.Kits.ObjectPool.Chain.{has, IsChain, IsChain-dead, has-drop}
use infinity_station.Kits.ObjectPool.Invariant.{popping, node, Local, nodes_after}

module _ (live : ℕ → Bool) (next : ℕ → ℕ) (nodes : List ℕ) where
  -- The threads that stood still: what a write to one node leaves true.
  pub other_next :
      (a v : ℕ) (q : Pc)
      → has nodes a ≡ false
      → (node q ≡ some a → ⊥)
      → Local live next nodes q
      → Local live (update next a v) nodes q
  other_next a v (push_cas b h) out ne l = (l.0, l.1, l.2, ground arith)
  other_next a v (pop_cas h x) out ne l = (l.0, ground arith)
  other_next a v (push_load b) out ne l = l
  other_next a v (pop_next b) out ne l = l
  other_next a v (sub b) out ne l = l
  other_next a v (take b) out ne l = l
  other_next a v idle out ne l = tt
  other_next a v broken out ne l = l
  other_next a v _ out ne l = tt

  pub other_live :
      (a : ℕ) (v : Bool) (q : Pc)
      → (node q ≡ some a → ⊥)
      → Local live next nodes q
      → Local (update live a v) next nodes q
  other_live a v (push_load b) ne l = (l.0, ground arith, l.2)
  other_live a v (push_cas b h) ne l = (l.0, ground arith, l.2, l.3)
  other_live a v (sub b) ne l = (ground arith, l.1)
  other_live a v (take b) ne l = (ground arith, l.1)
  other_live a v (pop_next b) ne l = l
  other_live a v (pop_cas b x) ne l = l
  other_live a v broken ne l = l
  other_live a v idle ne l = tt
  other_live a v _ ne l = tt

  pub other_push :
      (a : ℕ) (q : Pc)
      → (node q ≡ some a → ⊥)
      → Local live next nodes q
      → Local live next (a ∷ nodes) q
  other_push a (push_load b) ne l = (l.0, l.1, ground arith)
  other_push a (push_cas b h) ne l = (l.0, l.1, ground arith, l.3)
  other_push a (sub b) ne l = (l.0, ground arith)
  other_push a (take b) ne l = (l.0, ground arith)
  other_push a (pop_next b) ne l = ground arith
  other_push a (pop_cas b x) ne l = (ground arith, l.1)
  other_push a broken ne l = l
  other_push a idle ne l = tt
  other_push a _ ne l = tt

  pub other_pop :
      (q : Pc) → popping q ≡ false → Local live next nodes q → Local live next (drop 1 nodes) q
  other_pop (push_load b) ne l = (l.0, l.1, has-drop nodes b l.2)
  other_pop (push_cas b h) ne l = (l.0, l.1, has-drop nodes b l.2, l.3)
  other_pop (sub b) ne l = cc
  other_pop (take b) ne l = cc
  other_pop (pop_next b) ne l = cc
  other_pop (pop_cas b x) ne l = cc
  other_pop broken ne l = l
  other_pop idle ne l = tt
  other_pop _ ne l = tt

  pub node-live : (q : Pc) (a : ℕ) → Local live next nodes q → node q ≡ some a → live a ≡ true
  node-live (push_load b) a l e = ground arith
  node-live (push_cas b h) a l e = ground arith
  node-live (sub b) a l e = ground arith
  node-live (take b) a l e = ground arith
  node-live idle a l e = cc
  node-live _ a l e = cc

  pub node-not-has :
      (q : Pc) (a : ℕ) → Local live next nodes q → node q ≡ some a → has nodes a ≡ false
  node-not-has (push_load b) a l e = ground arith
  node-not-has (push_cas b h) a l e = ground arith
  node-not-has (sub b) a l e = ground arith
  node-not-has (take b) a l e = ground arith
  node-not-has idle a l e = cc
  node-not-has _ a l e = cc

  node-ne-dead : (q : Pc) (a : ℕ) → Local live next nodes q → live a ≡ false → node q ≡ some a → ⊥
  node-ne-dead q a l dead e = let alive = node-live q a l e in cc

module _ {max : ℕ} {gets : Bool} (m : Memory) (nodes : List ℕ) where
  pub step_other :
      {m' : Memory} {p p' : Pc} (mv : Move max gets m p m' p')
      → Local m.live m.next nodes p
      → IsChain m.live m.next m.head nodes
      → (q : Pc) → Local m.live m.next nodes q
      → ((a : ℕ) → node q ≡ some a → node p ≡ some a → ⊥)
      → (popping p ≡ true → popping q ≡ false)
      → Local m'.live m'.next (nodes_after mv nodes) q
  step_other (Move.alloc {o = o} {a = a} pos dead) l c q lq ne alone =
      let out : has nodes a ≡ false = IsChain-dead m.live m.next nodes m.head a c dead in
      let mine : (node q ≡ some a → ⊥) = node-ne-dead m.live m.next nodes q a lq dead in
      other_live m.live (update m.next a 0) nodes a true q mine
        (other_next m.live m.next nodes a 0 q out mine lq)
  step_other (Move.load {a = a}) l c q lq ne alone =
      other_next m.live m.next nodes a m.head q l.2 (λ e. ne a e refl) lq
  step_other (push_win {a = a} e) l c q lq ne alone =
      other_push m.live m.next nodes a q (λ e. ne a e refl) lq
  step_other (pop_win e) l c q lq ne alone = other_pop m.live m.next nodes q (alone refl) lq
  step_other (Move.hand_out {h = h} alive) l c q lq ne alone =
      other_live m.live m.next nodes h false q (λ e. ne h e refl) lq
  step_other _ l c q lq ne alone = lq
