-- ===== src/Kits/ObjectPool/Invariant/Kept.antt =====
-- Every step keeps the invariant, where only thread 0 calls `getObject`.
use infinity_station.Base.{
  ℕ, ◌≡◌, refl, Bool, true, false, List, [], some, arith, ◌==◌, Bool-cases, inl, inr,
}
use infinity_station.Kits.ObjectPool.{
  Memory, System, Pc, Move, Reach, pick, here, later, update, start,
}
use infinity_station.Kits.ObjectPool.Invariant.{popping, node, Local, Inv, nodes_after}
use infinity_station.Kits.ObjectPool.Invariant.Moves.{
  step_linked, step-IsDistinct, step_own, step_node, step_popping,
}
use infinity_station.Kits.ObjectPool.Invariant.Frames.{step_other, node-live, node-not-has}

module _ {max : ℕ} {gets : Bool} {m m' : Memory} {pc : ℕ → Pc} {nodes : List ℕ} (i : ℕ) {p p' : Pc}
    (mv : Move max gets m p m' p') (at : pc i ≡ p) (one : gets ≡ true → i ≡ 0)
    (inv : Inv m pc nodes) where
  own : Local m.live m.next nodes p
  own = rw (← at) (inv.locals i)

  not_shared : (j a : ℕ) → (i == j) ≡ false → node (pc j) ≡ some a → node p ≡ some a → ⊥
  not_shared j a ne ej ei = ground (arith, inv.private_nodes i j a)

  kept_locals : (j : ℕ) → Local m'.live m'.next (nodes_after mv nodes) (update pc i p' j)
  kept_locals j = elim (Bool-cases (i == j)) [
    | inl same ↦ rw same (step_own m nodes mv own inv.linked inv.distinct)
    | inr other ↦ rw other (
        step_other m nodes mv own inv.linked (pc j) (inv.locals j) (λ a. not_shared j a other)
          (alone other))
  ]
    where
      alone : (i == j) ≡ false → popping p ≡ true → popping (pc j) ≡ false
      alone ne e = ground (arith, inv.consumer i, inv.consumer j)

  -- What a thread comes to hold, no other thread holds.
  not_taken : (j a : ℕ) → (i == j) ≡ false → node (pc j) ≡ some a → node p' ≡ some a → ⊥
  not_taken j a ne ej ei = elim (step_node m nodes mv own a ei) [
    | inl mine ↦ not_shared j a ne ej mine
    | inr (inl dead) ↦ let alive = node-live m.live m.next nodes (pc j) a (inv.locals j) ej in cc
    | inr (inr pooled) ↦
        let outside = node-not-has m.live m.next nodes (pc j) a (inv.locals j) ej in cc
  ]

  kept_private :
      (j k a : ℕ) → node (update pc i p' j) ≡ some a → node (update pc i p' k) ≡ some a → j ≡ k
  kept_private j k a ej ek = ground (arith, not_taken j a, not_taken k a, inv.private_nodes j k a)

  kept_consumer : (j : ℕ) → popping (update pc i p' j) ≡ true → j ≡ 0
  kept_consumer j e = elim (Bool-cases (i == j)) [
    | inl same ↦ ground (arith, step_popping m nodes mv, inv.consumer i)
    | inr other ↦ ground (arith, inv.consumer j)
  ]

  pub Move-Inv : Inv m' (update pc i p') (nodes_after mv nodes)
  Move-Inv = record {
    linked = step_linked m nodes mv own inv.linked inv.distinct;
    distinct = step-IsDistinct m nodes mv own inv.distinct;
    locals = kept_locals;
    private_nodes = kept_private;
    consumer = kept_consumer;
  }

-- Only thread 0 calls `getObject`.
abbrev pub OneConsumer : (ℕ → Bool) → Type 0
OneConsumer gets = (i : ℕ) → gets i ≡ true → i ≡ 0

pub start-Inv : Inv start.mem start.pc []
start-Inv = record {
  linked = refl;
  distinct = tt;
  locals = λ _. tt;
  private_nodes = λ i j a e f. cc;
  consumer = λ i e. cc;
}

pub Reach-Inv :
    {n max : ℕ} {gets : ℕ → Bool} {s : System}
    → OneConsumer gets
    → Reach n max gets s
    → (nodes : List ℕ) × Inv s.mem s.pc nodes
Reach-Inv one here = ([], start-Inv)
Reach-Inv one (later r (pick i lt mv)) =
    let (nodes, inv) = Reach-Inv one r in (nodes_after mv nodes, Move-Inv i mv refl (one i) inv)
