-- ===== src/Kits/ObjectPool/Bounds.antt =====
-- How many objects the pool holds, and what `availableCount` says of it.
use infinity_station.Base.{
  ℕ, suc, ◌+◌, ◌%◌, ◌^◌, ◌≤◌, ◌<◌, ◌≡◌, refl, Bool, List, [], ◌∷◌, arith, length, drop,
}
use infinity_station.Kits.ObjectPool.{
  Memory, System, Pc, Move, Reach, pick, here, later, update, start, available_count, check, build,
  push_load, push_cas, add, sub, push_win, pop_win,
}
use infinity_station.Kits.ObjectPool.Chain.{IsChain, IsChain-pop}
use infinity_station.Kits.ObjectPool.Threads.{sum_of, sum_of-update, sum_of-idle, sum_of-le}
use infinity_station.Kits.ObjectPool.Invariant.{Inv, Local, nodes_after}
use infinity_station.Kits.ObjectPool.Invariant.Kept.{OneConsumer, Move-Inv, start-Inv}

-- Past the test of the bound, and not yet linked.
abbrev pub waiting : Pc → ℕ
waiting (build _) = 1
waiting (push_load _) = 1
waiting (push_cas _ _) = 1
waiting _ = 0

abbrev pub adding : Pc → ℕ
adding add = 1
adding _ = 0

abbrev pub subbing : Pc → ℕ
subbing (sub _) = 1
subbing _ = 0

pub record Room (n max : ℕ) (m : Memory) (pc : ℕ → Pc) (nodes : List ℕ) : Type 0 where
  pub fits : m.count < 2 ^ 64
  pub counted :
      (m.count + sum_of adding n pc) % 2 ^ 64 ≡ (length nodes + sum_of subbing n pc) % 2 ^ 64
  pub bounded : length nodes + sum_of subbing n pc + sum_of waiting n pc < max + n

length-drop :
    (h : ℕ) (nodes : List ℕ) → nodes ≡ h ∷ drop 1 nodes → length nodes ≡ suc (length (drop 1 nodes))
length-drop h [] e = cc
length-drop h (x ∷ nodes) e = refl

adding-waiting : (p : Pc) → adding p + waiting p ≤ 1
adding-waiting (build _) = omega arith
adding-waiting add = omega arith
adding-waiting _ = omega arith

module _ {n max : ℕ} {m : Memory} {pc : ℕ → Pc} {nodes : List ℕ} (i : ℕ) (lt : i < n)
    (small : max + n < 2 ^ 64) (inv : Inv m pc nodes) (room : Room n max m pc nodes) where
  sums :
      {p : Pc} (w : Pc → ℕ) (p' : Pc)
      → pc i ≡ p
      → sum_of w n (update pc i p') + w p ≡ sum_of w n pc + w p'
  sums w p' at = let e = sum_of-update w n pc i p' lt in rw at at e

  -- A thread that is not past the test leaves room for one more.
  at_most :
      (p : Pc)
      → pc i ≡ p
      → adding p ≡ 0
      → waiting p ≡ 0
      → sum_of adding n pc + sum_of waiting n pc < n
  at_most p at a w = omega (
    arith,
    sum_of-le adding waiting n (update pc i add) adding-waiting,
    sums adding add at,
    sums waiting add at,
    a,
    w,
  )

  facts_at : (p : Pc) → pc i ≡ p → Local m.live m.next nodes p
  facts_at p at = rw (← at) (inv.locals i)

  pub Move-Room :
      {gets : Bool} {m' : Memory} {p p' : Pc} (mv : Move max gets m p m' p')
      → pc i ≡ p
      → Room n max m' (update pc i p') (nodes_after mv nodes)
  Move-Room {p'} (Move.room {o = o} x) at = record {
    fits = room.fits;
    counted = omega (arith, room.counted, sums adding p' at, sums subbing p' at);
    bounded = omega (
      arith,
      room.counted,
      room.bounded,
      room.fits,
      sums waiting p' at,
      sums subbing p' at,
      at_most (check o) at refl refl,
    );
  }
  Move-Room {p'} (push_win x) at = record {
    fits = room.fits;
    counted = omega (arith, room.counted, sums adding p' at, sums subbing p' at);
    bounded = omega (arith, room.bounded, sums waiting p' at, sums subbing p' at);
  }
  Move-Room {p} {p'} (pop_win {h = h} {x = after} x) at = record {
    fits = room.fits;
    counted = omega (arith, room.counted, sums adding p' at, sums subbing p' at, popped);
    bounded = omega (arith, room.bounded, sums waiting p' at, sums subbing p' at, popped);
  }
    where
      popped : length nodes ≡ suc (length (drop 1 nodes))
      popped =
          length-drop h nodes
            (IsChain-pop m.live m.next nodes h (rw (← x) inv.linked) inv.distinct
              (facts_at _ at).0).3
  Move-Room {p'} Move.count_up at = record {
    fits = omega arith;
    counted = omega (arith, room.counted, sums adding p' at, sums subbing p' at);
    bounded = omega (arith, room.bounded, sums waiting p' at, sums subbing p' at);
  }
  Move-Room {p'} Move.count_down at = record {
    fits = omega arith;
    counted = omega (arith, room.fits, room.counted, sums adding p' at, sums subbing p' at);
    bounded = omega (arith, room.bounded, sums waiting p' at, sums subbing p' at);
  }
  Move-Room {p'} _ at = record {
    fits = room.fits;
    counted = omega (arith, room.counted, sums adding p' at, sums subbing p' at);
    bounded = omega (arith, room.bounded, sums waiting p' at, sums subbing p' at);
  }

module _ {n max : ℕ} (some_thread : 0 < n) (small : max + n < 2 ^ 64) where
  start-Room : Room n max start.mem start.pc []
  start-Room = record {
    fits = omega arith;
    counted = omega (arith, none_of adding (λ _. refl), none_of subbing (λ _. refl));
    bounded = omega (arith, none_of waiting (λ _. refl), none_of subbing (λ _. refl));
  }
    where
      none_of : (w : Pc → ℕ) → ((i : ℕ) → w (start.pc i) ≡ 0) → sum_of w n start.pc ≡ 0
      none_of w = sum_of-idle w n start.pc

  Reach-Room :
      {gets : ℕ → Bool} {s : System}
      → OneConsumer gets
      → Reach n max gets s
      → (nodes : List ℕ) × Inv s.mem s.pc nodes × Room n max s.mem s.pc nodes
  Reach-Room one here = ([], start-Inv, start-Room)
  Reach-Room one (later r (pick i lt mv)) =
      let (nodes, inv, room) = Reach-Room one r in
      (nodes_after mv nodes, Move-Inv i mv refl (one i) inv, Move-Room i lt small inv room mv refl)

  -- With one consumer among `n` threads, `max + n` below 2^64, the nodes linked from the head form a
  -- list of fewer than `max + n` live nodes, whatever the order of the steps.
  pub pool_size :
      {gets : ℕ → Bool} {s : System}
      → OneConsumer gets
      → Reach n max gets s
      → (nodes : List ℕ) × IsChain s.mem.live s.mem.next s.mem.head nodes × (length nodes < max + n)
  pool_size one r =
      let (nodes, inv, room) = Reach-Room one r in (nodes, inv.linked, omega (arith, room.bounded))

  -- With one consumer, once every thread has finished its call, `availableCount` is the number of
  -- linked nodes.
  pub count-length :
      {gets : ℕ → Bool} {s : System}
      → OneConsumer gets
      → Reach n max gets s
      → ((i : ℕ) → s.pc i ≡ Pc.idle)
      → (nodes : List ℕ) × IsChain s.mem.live s.mem.next s.mem.head nodes
        × (available_count s.mem ≡ length nodes)
  unfolding available_count
  count-length {s = s} one r quiet =
      let (nodes, inv, room) = Reach-Room one r in
      (
        nodes,
        inv.linked,
        omega (
          arith,
          room.counted,
          room.fits,
          room.bounded,
          none_of adding (λ i. rw (quiet i) refl),
          none_of subbing (λ i. rw (quiet i) refl),
        ),
      )
    where
      none_of : (w : Pc → ℕ) → ((i : ℕ) → w (s.pc i) ≡ 0) → sum_of w n s.pc ≡ 0
      none_of w = sum_of-idle w n s.pc
