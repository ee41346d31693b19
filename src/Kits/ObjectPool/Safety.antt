-- ===== src/Kits/ObjectPool/Safety.antt =====
-- What one consumer is safe from: nodes that are deleted, and objects handed out twice.
use infinity_station.Base.{ℕ, ◌≡◌, ◌≢◌, Bool, true, false, arith, subst}
use infinity_station.Kits.ObjectPool.{System, Reach, take, broken}
use infinity_station.Kits.ObjectPool.Invariant.{Local}
use infinity_station.Kits.ObjectPool.Invariant.Kept.{OneConsumer, Reach-Inv}
use infinity_station.Kits.ObjectPool.Owners.{Reach-Owners}

-- With one consumer no thread reads or deletes a node that is deleted, whatever the allocator hands
-- out and in whatever order the threads move.
pub never_broken :
    {n max : ℕ} {gets : ℕ → Bool} {s : System}
    → OneConsumer gets
    → Reach n max gets s
    → (i : ℕ) → s.pc i ≢ broken
never_broken {s = s} one r i e =
    let (nodes, inv) = Reach-Inv one r in subst (Local s.mem.live s.mem.next nodes) e (inv.locals i)

-- With one consumer, the node that `getObject` takes an object from is live, and no client holds the
-- object at that time: an object is never shared by two owners.
pub handed_out_once :
    {n max : ℕ} {gets : ℕ → Bool} {s : System} {i h : ℕ}
    → OneConsumer gets
    → Reach n max gets s
    → s.pc i ≡ take h
    → (s.mem.live h ≡ true) × (s.mem.out (s.mem.obj h) ≡ false)
handed_out_once {s = s} {i} {h} one r e =
    let (nodes, inv) = Reach-Inv one r in
    let (place, own) = Reach-Owners r in
    let l : Local s.mem.live s.mem.next nodes (take h) =
      subst (Local s.mem.live s.mem.next nodes) e (inv.locals i) in
    (l.0, ground (arith, own.cells h l.0, own.clients (s.mem.obj h)))
