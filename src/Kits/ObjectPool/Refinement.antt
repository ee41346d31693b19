-- ===== src/Kits/ObjectPool/Refinement.antt =====
-- The pool as a stack of objects: every step of a thread is one operation on the stack, or none.
use infinity_station.Base.{ℕ, ◌≡◌, refl, Bool, false, List, [], ◌∷◌, map, ap, arith}
use infinity_station.Kits.ObjectPool.{
  Memory, System, Pc, Move, Reach, update, push_cas, add, pop_load, make, pop_cas, sub, push_win,
  pop_win,
}
use infinity_station.Kits.ObjectPool.Chain.{IsDistinct, has, IsChain, IsChain-dead, IsChain-pop}
use infinity_station.Kits.ObjectPool.Invariant.{Local, nodes_after}
use infinity_station.Kits.ObjectPool.Invariant.Kept.{OneConsumer, Move-Inv, Reach-Inv}

-- The objects in the nodes linked from the head, the top first.
abbrev pub IsPooled : Memory → List ℕ → Type 0
IsPooled m stack = (nodes : List ℕ) × IsChain m.live m.next m.head nodes × (map m.obj nodes ≡ stack)

-- What the step of a thread from one place to another does to the stack: the won exchange of a push
-- puts the object of its node on top, that of a pop takes the object of its node off the top, the
-- answer that there is no object is given of an empty stack, and all else leaves the stack alone.
abbrev pub Effect : Memory → Pc → Pc → List ℕ → List ℕ → Type 0
Effect m (push_cas a _) add stack stack' = stack' ≡ m.obj a ∷ stack
Effect m (pop_cas h _) (sub _) stack stack' = stack ≡ m.obj h ∷ stack'
Effect m pop_load make stack stack' = (stack ≡ []) × (stack' ≡ [])
Effect m _ _ stack stack' = stack' ≡ stack

map-update :
    (f : ℕ → ℕ) (nodes : List ℕ) (a v : ℕ)
    → has nodes a ≡ false
    → map (update f a v) nodes ≡ map f nodes
map-update f [] a v out = refl
map-update f (b ∷ nodes) a v out = ground (arith, map-update f nodes a v)

map-empty :
    (live : ℕ → Bool) (next f : ℕ → ℕ) (nodes : List ℕ) (h : ℕ)
    → IsChain live next h nodes
    → h ≡ 0
    → map f nodes ≡ []
map-empty live next f [] h c e = refl
map-empty live next f (b ∷ nodes) h c e = absurd (omega arith)

module _ {max : ℕ} {gets : Bool} {m : Memory} (nodes : List ℕ)
    (linked : IsChain m.live m.next m.head nodes) (distinct : IsDistinct nodes) where
  Move-Effect :
      {m' : Memory} {p p' : Pc} (mv : Move max gets m p m' p')
      → Local m.live m.next nodes p
      → Effect m p p' (map m.obj nodes) (map m'.obj (nodes_after mv nodes))
  Move-Effect (Move.alloc {o = o} {a = a} pos dead) l =
      map-update m.obj nodes a o (IsChain-dead m.live m.next nodes m.head a linked dead)
  Move-Effect (push_win e) l = refl
  Move-Effect (pop_win {h = h} e) l =
      ap (map m.obj) (IsChain-pop m.live m.next nodes h (rw (← e) linked) distinct l.0).3
  Move-Effect (Move.empty e) l =
      let none_left = map-empty m.live m.next m.obj nodes m.head linked e in (none_left, none_left)
  Move-Effect _ l = refl

-- With one consumer, in every reachable state and for every step of a thread from there, the pool is
-- a stack of objects before and after, and the step does to it what `Effect` names.
pub stack_of_objects :
    {n max : ℕ} {gets : ℕ → Bool} {s : System} {i : ℕ} {m : Memory} {p : Pc}
    → OneConsumer gets
    → Reach n max gets s
    → Move max (gets i) s.mem (s.pc i) m p
    → (stack stack' : List ℕ) × IsPooled s.mem stack
      × IsPooled m stack'
      × Effect s.mem (s.pc i) p stack stack'
stack_of_objects {s = s} {i} {m} {p} one r mv =
    let (nodes, inv) = Reach-Inv one r in
    let inv' = Move-Inv i mv refl (one i) inv in
    (
      map s.mem.obj nodes,
      map m.obj (nodes_after mv nodes),
      (nodes, inv.linked, refl),
      (nodes_after mv nodes, inv'.linked, refl),
      Move-Effect nodes inv.linked inv.distinct mv (inv.locals i),
    )
