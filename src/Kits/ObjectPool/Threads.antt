-- ===== src/Kits/ObjectPool/Threads.antt =====
-- Sums over the threads of the pool, and what a step of one thread does to them.
use infinity_station.Base.{ℕ, zero, suc, ◌+◌, ◌≤◌, ◌<◌, ◌≡◌, refl, arith}
use infinity_station.Kits.ObjectPool.{Pc, update}

-- The threads below `n`, each counted by its weight.
pub sum_of : (Pc → ℕ) → ℕ → (ℕ → Pc) → ℕ
sum_of w zero pc = 0
sum_of w (suc n) pc = sum_of w n pc + w (pc n)

sum_of-update_above :
    (w : Pc → ℕ) (n : ℕ) (pc : ℕ → Pc) (i : ℕ) (p : Pc)
    → n ≤ i
    → sum_of w n (update pc i p) ≡ sum_of w n pc
unfolding sum_of
sum_of-update_above w zero pc i p h = refl
sum_of-update_above w (suc n) pc i p h = ground (arith, sum_of-update_above w n pc i p)

pub sum_of-update :
    (w : Pc → ℕ) (n : ℕ) (pc : ℕ → Pc) (i : ℕ) (p : Pc)
    → i < n
    → sum_of w n (update pc i p) + w (pc i) ≡ sum_of w n pc + w p
unfolding sum_of
sum_of-update w zero pc i p h = absurd (omega arith)
sum_of-update w (suc n) pc i p h =
    ground (arith, sum_of-update w n pc i p, sum_of-update_above w n pc i p)

pub sum_of-idle : (w : Pc → ℕ) (n : ℕ) (pc : ℕ → Pc) → ((i : ℕ) → w (pc i) ≡ 0) → sum_of w n pc ≡ 0
unfolding sum_of
sum_of-idle w zero pc h = refl
sum_of-idle w (suc n) pc h = omega (arith, sum_of-idle w n pc h, h n)

pub sum_of-le :
    (w v : Pc → ℕ) (n : ℕ) (pc : ℕ → Pc)
    → ((p : Pc) → w p + v p ≤ 1)
    → sum_of w n pc + sum_of v n pc ≤ n
unfolding sum_of
sum_of-le w v zero pc h = omega arith
sum_of-le w v (suc n) pc h = omega (arith, sum_of-le w v n pc h, h (pc n))
