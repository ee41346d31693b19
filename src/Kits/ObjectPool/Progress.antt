-- ===== src/Kits/ObjectPool/Progress.antt =====
-- That a call ends if its thread moves alone.
use infinity_station.Base.{
  ℕ, suc, ◌≤◌, ◌<◌, ◌≡◌, refl, Bool, true, false, List, arith, ◌==◌, Bool-cases, inl, inr, ltb,
  ltb→lt, ==_iff,
}
use infinity_station.Kits.ObjectPool.{
  Memory, System, Pc, Move, Reach, idle, check, build, push_load, push_cas, add, pop_load, make,
  pop_next, pop_cas, sub, take, broken, full, room, alloc, load, push_win, push_lose, count_up,
  empty, construct, seen, read, pop_win, pop_lose, count_down, hand_out,
}
use infinity_station.Kits.ObjectPool.Chain.{IsChain, IsChain-live, IsChain-head}
use infinity_station.Kits.ObjectPool.Invariant.{Local}
use infinity_station.Kits.ObjectPool.Invariant.Kept.{OneConsumer, Reach-Inv}

-- Moves of one thread, one after the other, with their number.
pub data Solo (max : ℕ) (gets : Bool) : ℕ → Memory → Pc → Memory → Pc → Type 0 where
  done : {m : Memory} {p : Pc} → Solo max gets 0 m p m p
  then_move :
      {k : ℕ} {m m' m'' : Memory} {p p' p'' : Pc}
      → Move max gets m p m' p'
      → Solo max gets k m' p' m'' p''
      → Solo max gets (suc k) m p m'' p''

-- The call can end in `k` moves or fewer.
pub Returns : ℕ → Bool → ℕ → Memory → Pc → Type 0
Returns max gets k m p = (j : ℕ) × (m' : Memory) × (j ≤ k) × Solo max gets j m p m' idle

head-live :
    (m : Memory) (nodes : List ℕ)
    → IsChain m.live m.next m.head nodes
    → 0 < m.head
    → m.live m.head ≡ true
head-live m nodes c pos =
    (IsChain-live m.live m.next nodes m.head m.head c
      (IsChain-head m.live m.next nodes m.head c pos)).0

module _ (max : ℕ) (gets : Bool) where
  after_move :
      (k : ℕ) {m m' : Memory} {p p' : Pc}
      → Move max gets m p m' p'
      → Returns max gets k m' p'
      → Returns max gets (suc k) m p
  unfolding Returns
  after_move k mv (j, m'', le, run) = (suc j, m'', omega arith, then_move mv run)

  already : (k : ℕ) (m : Memory) → Returns max gets k m idle
  unfolding Returns
  already k m = (0, m, omega arith, done)

  -- `pushNode` from where the node is built.
  push_cas_ends : (m : Memory) (a h : ℕ) → m.head ≡ h → Returns max gets 2 m (push_cas a h)
  push_cas_ends m a h e = after_move 1 (push_win e) (after_move 0 count_up (already 0 _))

  push_load_ends : (m : Memory) (a : ℕ) → Returns max gets 3 m (push_load a)
  push_load_ends m a = after_move 2 load (push_cas_ends _ a m.head refl)

  build_ends : (m : Memory) (o a : ℕ) → 0 < a → m.live a ≡ false → Returns max gets 4 m (build o)
  build_ends m o a pos free = after_move 3 (alloc pos free) (push_load_ends _ a)

  -- `getObject` from where the head is read.
  take_ends : (m : Memory) (h : ℕ) → m.live h ≡ true → Returns max gets 1 m (take h)
  take_ends m h live = after_move 0 (hand_out live) (already 0 _)

  pop_cas_ends :
      (m : Memory) (h x : ℕ) → m.head ≡ h → m.live h ≡ true → Returns max gets 3 m (pop_cas h x)
  pop_cas_ends m h x e live =
      after_move 2 (pop_win e) (after_move 1 count_down (take_ends _ h live))

  pop_load_ends : (m : Memory) → (0 < m.head → m.live m.head ≡ true) → Returns max gets 5 m pop_load
  pop_load_ends m live = elim (Bool-cases (m.head == 0)) [
    | inl nothing ↦
        after_move 4 (empty ((==_iff m.head 0).0 nothing)) (after_move 3 construct (already 3 _))
    | inr node ↦
        let pos : 0 < m.head = ground arith in
        after_move 4 (seen pos)
          (after_move 3 (read (live pos)) (pop_cas_ends m m.head _ refl (live pos)))
  ]

  longer :
      (k : ℕ) (m : Memory) (p : Pc)
      → Returns max gets k m p
      → (n : ℕ) → k ≤ n
      → Returns max gets n m p
  unfolding Returns
  longer k m p (j, m', le, run) n h = (j, m', omega arith, run)

  call_ends :
      (m : Memory) (nodes : List ℕ) (p : Pc) (a : ℕ)
      → IsChain m.live m.next m.head nodes
      → Local m.live m.next nodes p
      → 0 < a
      → m.live a ≡ false
      → Returns max gets 7 m p
  call_ends m nodes idle a c l pos free = already 7 m
  call_ends m nodes (check o) a c l pos free = elim (Bool-cases (ltb m.count max)) [
    | inl less ↦
        longer 5 _ _ (after_move 4 (room (ltb→lt _ _ less)) (build_ends m o a pos free)) 7
          (omega arith)
    | inr enough ↦ longer 1 _ _ (after_move 0 (full (ground arith)) (already 0 m)) 7 (omega arith)
  ]
  call_ends m nodes (build o) a c l pos free =
      longer 4 _ _ (build_ends m o a pos free) 7 (omega arith)
  call_ends m nodes (push_load b) a c l pos free = longer 3 _ _ (push_load_ends m b) 7 (omega arith)
  call_ends m nodes (push_cas b h) a c l pos free =
      longer 4 _ _ (after_move 3 push_lose (push_load_ends m b)) 7 (omega arith)
  call_ends m nodes add a c l pos free =
      longer 1 _ _ (after_move 0 count_up (already 0 _)) 7 (omega arith)
  call_ends m nodes pop_load a c l pos free =
      longer 5 _ _ (pop_load_ends m (head-live m nodes c)) 7 (omega arith)
  call_ends m nodes make a c l pos free =
      longer 1 _ _ (after_move 0 construct (already 0 _)) 7 (omega arith)
  call_ends m nodes (pop_next h) a c l pos free =
      after_move 6 (read (IsChain-live m.live m.next nodes m.head h c l).0)
        (after_move 5 pop_lose (pop_load_ends m (head-live m nodes c)))
  call_ends m nodes (pop_cas h x) a c l pos free =
      longer 6 _ _ (after_move 5 pop_lose (pop_load_ends m (head-live m nodes c))) 7 (omega arith)
  call_ends m nodes (sub h) a c l pos free =
      longer 2 _ _ (after_move 1 count_down (take_ends _ h l.0)) 7 (omega arith)
  call_ends m nodes (take h) a c l pos free = longer 1 _ _ (take_ends m h l.0) 7 (omega arith)
  call_ends m nodes broken a c l pos free = absurd l

-- With one consumer, in any state that is reached, a thread that moves alone from then on can end the
-- call that it is in within seven moves, if the allocator has a free address.
pub call_ends_alone :
    {n max : ℕ} {gets : ℕ → Bool} {s : System}
    → OneConsumer gets
    → Reach n max gets s
    → (i a : ℕ) → 0 < a
    → s.mem.live a ≡ false
    → (j : ℕ) × (m : Memory) × (j ≤ 7) × Solo max (gets i) j s.mem (s.pc i) m idle
unfolding Returns
call_ends_alone {max = max} {gets} {s} one r i a pos free =
    let (nodes, inv) = Reach-Inv one r in
    call_ends max (gets i) s.mem nodes (s.pc i) a inv.linked (inv.locals i) pos free
