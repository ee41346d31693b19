-- ===== src/Kits/ObjectPool/Reuse.antt =====
-- Two threads in `getObject` at once: the exchange of `popNode` succeeds on a node that was deleted and
-- allocated again.
use infinity_station.Base.{ℕ, ◌≤◌, ◌≡◌, refl, true, arith}
use infinity_station.Kits.ObjectPool.{System, Memory, Pc, Move, Reach, pick, here, later, update}

module _ {n max : ℕ} (two : 2 ≤ n) (room : 2 ≤ max) where
  module _ {s : System} (r : Reach n max (λ _. true) s) where
    zeroth :
        {m : Memory} {p : Pc}
        → Move max true s.mem (s.pc 0) m p
        → Reach n max (λ _. true) (record { mem = m; pc = update s.pc 0 p })
    zeroth mv = later r (pick 0 (omega arith) mv)

    first :
        {m : Memory} {p : Pc}
        → Move max true s.mem (s.pc 1) m p
        → Reach n max (λ _. true) (record { mem = m; pc = update s.pc 1 p })
    first mv = later r (pick 1 (omega arith) mv)

  -- With two threads that may call `getObject` at once and room for two objects, some order of the
  -- steps has a thread read a node that is deleted.
  pub two_consumers_break : (s : System) × Reach n max (λ _. true) s × (s.pc 0 ≡ Pc.broken)
  two_consumers_break =
      let r1 = zeroth here (Move.call refl) in
      let r2 = zeroth r1 (Move.empty refl) in
      let r3 = zeroth r2 Move.construct in
      let r4 = zeroth r3 (Move.call refl) in
      let r5 = zeroth r4 (Move.empty refl) in
      let r6 = zeroth r5 Move.construct in
      let r7 = zeroth r6 (Move.release {o = 0} refl) in
      let r8 = zeroth r7 (Move.room (omega arith)) in
      let r9 = zeroth r8 (Move.alloc {a = 1} (omega arith) refl) in
      let r10 = zeroth r9 Move.load in
      let r11 = zeroth r10 (Move.push_win refl) in
      let r12 = zeroth r11 Move.count_up in
      let r13 = zeroth r12 (Move.release {o = 1} refl) in
      let r14 = zeroth r13 (Move.room (omega arith)) in
      let r15 = zeroth r14 (Move.alloc {a = 2} (omega arith) refl) in
      let r16 = zeroth r15 Move.load in
      let r17 = zeroth r16 (Move.push_win refl) in
      let r18 = zeroth r17 Move.count_up in
      let r19 = first r18 (Move.call refl) in
      let r20 = first r19 (Move.seen (omega arith)) in
      let r21 = first r20 (Move.read refl) in
      let r22 = zeroth r21 (Move.call refl) in
      let r23 = zeroth r22 (Move.seen (omega arith)) in
      let r24 = zeroth r23 (Move.read refl) in
      let r25 = zeroth r24 (Move.pop_win refl) in
      let r26 = zeroth r25 Move.count_down in
      let r27 = zeroth r26 (Move.hand_out refl) in
      let r28 = zeroth r27 (Move.call refl) in
      let r29 = zeroth r28 (Move.seen (omega arith)) in
      let r30 = zeroth r29 (Move.read refl) in
      let r31 = zeroth r30 (Move.pop_win refl) in
      let r32 = zeroth r31 Move.count_down in
      let r33 = zeroth r32 (Move.hand_out refl) in
      let r34 = zeroth r33 (Move.release {o = 0} refl) in
      let r35 = zeroth r34 (Move.room (omega arith)) in
      let r36 = zeroth r35 (Move.alloc {a = 2} (omega arith) refl) in
      let r37 = zeroth r36 Move.load in
      let r38 = zeroth r37 (Move.push_win refl) in
      let r39 = zeroth r38 Move.count_up in
      let r40 = first r39 (Move.pop_win refl) in
      let r41 = zeroth r40 (Move.call refl) in
      let r42 = zeroth r41 (Move.seen (omega arith)) in
      let r43 = zeroth r42 (Move.read_deleted refl) in (_, r43, refl)
