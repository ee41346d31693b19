-- ===== src/Kits/ObjectPool.antt =====
-- src/kits/common/object_pool/ObjectPool.h: the lock-free pool of objects, an access of shared memory
-- at a time. A node is an address, 0 is the null pointer, and an object is its number in the order
-- of construction. The allocator may hand out any address that no node stands at.
pub mod Chain
pub mod Invariant
pub mod Owners
mod Threads
pub mod Bounds
pub mod Safety
pub mod Refinement
pub mod Reuse
pub mod Progress
use infinity_station.Base.{ℕ, zero, suc, ◌+◌, ◌-◌, ◌%◌, ◌^◌, ◌≤◌, ◌<◌, ◌≡◌, Bool, true, false}
use infinity_station.Base.{◌==◌, if◌then◌else◌}

abbrev pub update {ℓ} : {A : Type ℓ} → (ℕ → A) → ℕ → A → ℕ → A
update f i a j = if i == j then a else f j

-- The members of the pool, the memory of its nodes, and the objects that clients hold.
pub record Memory : Type 0 where
  pub head : ℕ  -- m_head
  pub count : ℕ  -- m_count, a size_t
  pub live : ℕ → Bool  -- an ObjectNode stands at the address
  pub next : ℕ → ℕ
  pub obj : ℕ → ℕ
  pub out : ℕ → Bool  -- a client's shared_ptr holds the object
  pub made : ℕ  -- objects constructed so far

pub available_count : Memory → ℕ
available_count m = m.count

-- Where a thread stands in `pushNode`, `popNode` and `getObject`, with its local variables.
pub data Pc : Type 0 where
  idle : Pc
  check : (o : ℕ) → Pc
  build : (o : ℕ) → Pc
  push_load : (node : ℕ) → Pc
  push_cas : (node old : ℕ) → Pc
  add : Pc
  pop_load : Pc
  make : Pc
  pop_next : (old : ℕ) → Pc
  pop_cas : (old after : ℕ) → Pc
  sub : (old : ℕ) → Pc
  take : (old : ℕ) → Pc
  broken : Pc  -- after a read of a node that is deleted

-- One step of one thread in a pool of `max` objects; `gets` says whether it may call `getObject`. The
-- write of `next` is one step with the read of `m_head` before it, as the node is still private.
pub data Move (max : ℕ) (gets : Bool) (m : Memory) : Pc → Memory → Pc → Type 0 where
  -- the deleter of a shared_ptr, and pushNode
  release :
      {o : ℕ}
      → m.out o ≡ true
      → Move max gets m idle (record m { out = update m.out o false }) (check o)
  full : {o : ℕ} → max ≤ m.count → Move max gets m (check o) m idle
  room : {o : ℕ} → m.count < max → Move max gets m (check o) m (build o)
  alloc :
      {o a : ℕ}
      → 0 < a
      → m.live a ≡ false
      → Move max gets m
          (build o)
          (record m {
            live = update m.live a true;
            next = update m.next a 0;
            obj = update m.obj a o;
          })
          (push_load a)
  load :
      {a : ℕ}
      → Move max gets m
          (push_load a)
          (record m { next = update m.next a m.head })
          (push_cas a m.head)
  push_win : {a h : ℕ} → m.head ≡ h → Move max gets m (push_cas a h) (record m { head = a }) add
  push_lose : {a h : ℕ} → Move max gets m (push_cas a h) m (push_load a)
  count_up : Move max gets m add (record m { count = (m.count + 1) % 2 ^ 64 }) idle
  -- getObject and popNode
  call : gets ≡ true → Move max gets m idle m pop_load
  empty : m.head ≡ 0 → Move max gets m pop_load m make
  construct :
      Move max gets m make (record m { out = update m.out m.made true; made = m.made + 1 }) idle
  seen : 0 < m.head → Move max gets m pop_load m (pop_next m.head)
  read : {h : ℕ} → m.live h ≡ true → Move max gets m (pop_next h) m (pop_cas h (m.next h))
  read_deleted : {h : ℕ} → m.live h ≡ false → Move max gets m (pop_next h) m broken
  pop_win : {h x : ℕ} → m.head ≡ h → Move max gets m (pop_cas h x) (record m { head = x }) (sub h)
  pop_lose : {h x : ℕ} → Move max gets m (pop_cas h x) m pop_load
  count_down :
      {h : ℕ}
      → Move max gets m (sub h) (record m { count = (m.count + 2 ^ 64 - 1) % 2 ^ 64 }) (take h)
  hand_out :
      {h : ℕ}
      → m.live h ≡ true
      → Move max gets m
          (take h)
          (record m { live = update m.live h false; out = update m.out (m.obj h) true })
          idle
  take_deleted : {h : ℕ} → m.live h ≡ false → Move max gets m (take h) m broken

-- The pool and the threads that use it, by their numbers.
pub record System : Type 0 where
  pub mem : Memory
  pub pc : ℕ → Pc

abbrev pub start : System
start = record {
  mem = record {
    head = 0;
    count = 0;
    live = λ _. false;
    next = λ _. 0;
    obj = λ _. 0;
    out = λ _. false;
    made = 0;
  };
  pc = λ _. Pc.idle;
}

-- `n` threads, of which those that `gets` names call `getObject`.
pub data Step (n max : ℕ) (gets : ℕ → Bool) (s : System) : System → Type 0 where
  pick :
      (i : ℕ) {m : Memory} {p : Pc}
      → i < n
      → Move max (gets i) s.mem (s.pc i) m p
      → Step n max gets s (record { mem = m; pc = update s.pc i p })

pub data Reach (n max : ℕ) (gets : ℕ → Bool) : System → Type 0 where
  here : Reach n max gets start
  later : {s t : System} → Reach n max gets s → Step n max gets s t → Reach n max gets t
