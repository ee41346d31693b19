-- ===== src/Witnesses/Pool.antt =====
-- Runs of the pool of objects for the theorems of Kits/ObjectPool.
use infinity_station.Base.{
  ℕ, zero, suc, ◌+◌, ◌≤◌, ◌<◌, ◌≡◌, ◌≢◌, refl, Bool, true, false, List, ◌∷◌, arith, ◌==◌, length,
}
use infinity_station.Kits.ObjectPool.{System, Memory, Pc, Move, Reach, pick, here, later, update}
use infinity_station.Kits.ObjectPool.Chain.{IsChain}
use infinity_station.Kits.ObjectPool.Invariant.Kept.{OneConsumer}
use infinity_station.Kits.ObjectPool.Safety.{never_broken, handed_out_once}
use infinity_station.Kits.ObjectPool.Bounds.{pool_size}
use infinity_station.Kits.ObjectPool.Refinement.{IsPooled, stack_of_objects}
use infinity_station.Kits.ObjectPool.Reuse.{two_consumers_break}
use infinity_station.Kits.ObjectPool.Progress.{Solo, call_ends_alone}

-- Thread 0 alone calls `getObject`; thread 1 gives objects back.
abbrev zeroth_only : ℕ → Bool
zeroth_only i = i == 0

zeroth_only-OneConsumer : OneConsumer zeroth_only
zeroth_only-OneConsumer i e = ground arith

abbrev moved :
    {s : System} {m : Memory} {p : Pc}
    → Reach 2 4 zeroth_only s
    → (i : ℕ) → i < 2
    → Move 4 (zeroth_only i) s.mem (s.pc i) m p
    → Reach 2 4 zeroth_only (record { mem = m; pc = update s.pc i p })
moved r i lt mv = later r (pick i lt mv)

-- An object is made by thread 0 and pooled by thread 1.
abbrev pooled : (s : System) × Reach 2 4 zeroth_only s
pooled =
    let r1 = moved here 0 (omega arith) (Move.call refl) in
    let r2 = moved r1 0 (omega arith) (Move.empty refl) in
    let r3 = moved r2 0 (omega arith) Move.construct in
    let r4 = moved r3 1 (omega arith) (Move.release {o = 0} refl) in
    let r5 = moved r4 1 (omega arith) (Move.room (omega arith)) in
    let r6 = moved r5 1 (omega arith) (Move.alloc {a = 7} (omega arith) refl) in
    let r7 = moved r6 1 (omega arith) Move.load in
    let r8 = moved r7 1 (omega arith) (Move.push_win refl) in
    let r9 = moved r8 1 (omega arith) Move.count_up in (_, r9)

-- Thread 0 has read the head and the node behind it.
abbrev reading : (s : System) × Reach 2 4 zeroth_only s
reading =
    let r1 = moved pooled.1 0 (omega arith) (Move.call refl) in
    let r2 = moved r1 0 (omega arith) (Move.seen (omega arith)) in
    let r3 = moved r2 0 (omega arith) (Move.read refl) in (_, r3)

-- Thread 0 is about to take the object out of the node.
abbrev taking : (s : System) × Reach 2 4 zeroth_only s
taking =
    let r1 = moved reading.1 0 (omega arith) (Move.pop_win refl) in
    let r2 = moved r1 0 (omega arith) Move.count_down in (_, r2)

pooled_idle : (i : ℕ) → pooled.0.pc i ≡ Pc.idle
pooled_idle zero = refl
pooled_idle (suc zero) = refl
pooled_idle (suc (suc i)) = ground arith

never_broken_example : reading.0.pc 0 ≢ Pc.broken
never_broken_example = never_broken zeroth_only-OneConsumer reading.1 0

handed_out_once_example :
    (taking.0.mem.live 7 ≡ true) × (taking.0.mem.out (taking.0.mem.obj 7) ≡ false)
handed_out_once_example = handed_out_once {i = 0} zeroth_only-OneConsumer taking.1 refl

pool_size_example :
    (nodes : List ℕ) × IsChain pooled.0.mem.live pooled.0.mem.next pooled.0.mem.head nodes
    × (length nodes < 4 + 2)
pool_size_example = pool_size (omega arith) (omega arith) zeroth_only-OneConsumer pooled.1

stack_of_objects_example :
    (stack stack' : List ℕ) × IsPooled reading.0.mem stack
    × IsPooled (record reading.0.mem { head = 0 }) stack'
    × (stack ≡ reading.0.mem.obj 7 ∷ stack')
stack_of_objects_example =
    stack_of_objects {i = 0} zeroth_only-OneConsumer reading.1 (Move.pop_win refl)

two_consumers_break_example : (s : System) × Reach 2 4 (λ _. true) s × (s.pc 0 ≡ Pc.broken)
two_consumers_break_example = two_consumers_break (omega arith) (omega arith)

call_ends_alone_example :
    (j : ℕ) × (m : Memory) × (j ≤ 7)
    × Solo 4 (zeroth_only 0) j reading.0.mem (reading.0.pc 0) m Pc.idle
call_ends_alone_example = call_ends_alone zeroth_only-OneConsumer reading.1 0 9 (omega arith) refl
