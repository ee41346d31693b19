-- ===== src/Kits/ObjectPool/Owners.antt =====
-- Where each object is: every object is in one place at a time, and only there.
use infinity_station.Base.{ℕ, ◌≤◌, ◌≡◌, refl, Bool, true, Option, none, some, arith}
use infinity_station.Kits.ObjectPool.{
  Memory, System, Pc, Move, Reach, pick, here, later, update, start, check, build,
}

pub data Place : Type 0 where
  unborn : Place
  pooled : (a : ℕ) → Place
  moving : (i : ℕ) → Place
  client : Place
  gone : Place

-- The object on its way into a node.
abbrev pub carried : Pc → Option ℕ
carried (check o) = some o
carried (build o) = some o
carried _ = none

pub record Owners (m : Memory) (pc : ℕ → Pc) (place : ℕ → Place) : Type 0 where
  pub cells : (a : ℕ) → m.live a ≡ true → place (m.obj a) ≡ pooled a
  pub hands : (i o : ℕ) → carried (pc i) ≡ some o → place o ≡ moving i
  pub clients : (o : ℕ) → m.out o ≡ true → place o ≡ client
  pub later_ones : (o : ℕ) → m.made ≤ o → place o ≡ unborn

abbrev pub place_after :
    {max : ℕ} {gets : Bool} {m m' : Memory} {p p' : Pc} (i : ℕ)
    → Move max gets m p m' p'
    → (ℕ → Place)
    → ℕ
    → Place
place_after i (Move.release {o = o} _) place = update place o (moving i)
place_after i (Move.full {o = o} _) place = update place o gone
place_after i (Move.alloc {o = o} {a = a} _ _) place = update place o (pooled a)
place_after {m = m} i Move.construct place = update place m.made client
place_after {m = m} i (Move.hand_out {h = h} _) place = update place (m.obj h) client
place_after i _ place = place

module _ {max : ℕ} {gets : Bool} {m : Memory} {pc : ℕ → Pc} {place : ℕ → Place} (i : ℕ)
    (own : Owners m pc place) where
  kept_cells :
      {m' : Memory} {p p' : Pc} (mv : Move max gets m p m' p')
      → pc i ≡ p
      → (a : ℕ) → m'.live a ≡ true
      → place_after i mv place (m'.obj a) ≡ pooled a
  kept_cells (Move.release {o = o} x) at a l = ground (arith, own.cells a, own.clients o)
  kept_cells (Move.full {o = o} x) at a l = ground (arith, own.cells a, own.hands i o)
  kept_cells (Move.alloc {o = o} {a = b} x y) at a l = ground (arith, own.cells a, own.hands i o)
  kept_cells Move.construct at a l = ground (arith, own.cells a, own.later_ones m.made)
  kept_cells (Move.hand_out {h = h} x) at a l = ground (arith, own.cells a, own.cells h)
  kept_cells _ at a l = own.cells a l

  kept_hands :
      {m' : Memory} {p p' : Pc} (mv : Move max gets m p m' p')
      → pc i ≡ p
      → (j o : ℕ) → carried (update pc i p' j) ≡ some o
      → place_after i mv place o ≡ moving j
  kept_hands (Move.release {o = o} x) at j k l = ground (arith, own.hands j k, own.clients o)
  kept_hands (Move.full {o = o} x) at j k l = ground (arith, own.hands j k, own.hands i o)
  kept_hands (Move.alloc {o = o} {a = b} x y) at j k l =
      ground (arith, own.hands j k, own.hands i o)
  kept_hands Move.construct at j k l = ground (arith, own.hands j k, own.later_ones m.made)
  kept_hands (Move.hand_out {h = h} x) at j k l = ground (arith, own.hands j k, own.cells h)
  kept_hands (Move.room x) at j k l = ground (arith, own.hands j k, own.hands i k)
  kept_hands _ at j k l = ground (arith, own.hands j k)

  kept_clients :
      {m' : Memory} {p p' : Pc} (mv : Move max gets m p m' p')
      → pc i ≡ p
      → (o : ℕ) → m'.out o ≡ true
      → place_after i mv place o ≡ client
  kept_clients (Move.release {o = o} x) at k l = ground (arith, own.clients k)
  kept_clients (Move.full {o = o} x) at k l = ground (arith, own.clients k, own.hands i o)
  kept_clients (Move.alloc {o = o} {a = b} x y) at k l =
      ground (arith, own.clients k, own.hands i o)
  kept_clients Move.construct at k l = ground (arith, own.clients k)
  kept_clients (Move.hand_out {h = h} x) at k l = ground (arith, own.clients k)
  kept_clients _ at k l = own.clients k l

  kept_later :
      {m' : Memory} {p p' : Pc} (mv : Move max gets m p m' p')
      → pc i ≡ p
      → (o : ℕ) → m'.made ≤ o
      → place_after i mv place o ≡ unborn
  kept_later (Move.release {o = o} x) at k l = ground (arith, own.later_ones k, own.clients o)
  kept_later (Move.full {o = o} x) at k l = ground (arith, own.later_ones k, own.hands i o)
  kept_later (Move.alloc {o = o} {a = b} x y) at k l =
      ground (arith, own.later_ones k, own.hands i o)
  kept_later Move.construct at k l = ground (arith, own.later_ones k)
  kept_later (Move.hand_out {h = h} x) at k l = ground (arith, own.later_ones k, own.cells h)
  kept_later _ at k l = own.later_ones k l

  pub Move-Owners :
      {m' : Memory} {p p' : Pc} (mv : Move max gets m p m' p')
      → pc i ≡ p
      → Owners m' (update pc i p') (place_after i mv place)
  Move-Owners mv at = record {
    cells = kept_cells mv at;
    hands = kept_hands mv at;
    clients = kept_clients mv at;
    later_ones = kept_later mv at;
  }

pub start-Owners : Owners start.mem start.pc (λ _. Place.unborn)
start-Owners = record {
  cells = λ a e. cc;
  hands = λ i o e. cc;
  clients = λ o e. cc;
  later_ones = λ o h. refl;
}

pub Reach-Owners :
    {n max : ℕ} {gets : ℕ → Bool} {s : System}
    → Reach n max gets s
    → (place : ℕ → Place) × Owners s.mem s.pc place
Reach-Owners here = (λ _. Place.unborn, start-Owners)
Reach-Owners (later r (pick i lt mv)) =
    let (place, own) = Reach-Owners r in (place_after i mv place, Move-Owners i own mv refl)
