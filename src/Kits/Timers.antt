-- ===== src/Kits/Timers.antt =====
-- src/kits/common/thread_pool/ConcurrentPool.h: the thread pool's delayed and repeated tasks, and the
-- thread that is to fire them. A name is the list of its bytes, a task's function its number, times
-- are milliseconds of the steady clock. Each public call is one step; the timer thread makes a step
-- between two points at which it takes or releases the lock of the tasks.
pub mod Calls
pub mod Order
pub mod Names
pub mod Idle
use infinity_station.Base.Text.{same_text, is_empty}
use infinity_station.Base.{
  ℕ, zero, suc, ◌+◌, ◌/◌, ◌%◌, ◌^◌, Bool, true, false, not, ◌&&◌, ◌||◌, List, [], ◌∷◌, ◌++◌, ◌==◌,
  ltb, leb, if◌then◌else◌,
}

pub record TimerTask : Type 0 where
  pub task_name : List ℕ
  pub next_trigger : ℕ
  pub interval : ℕ
  pub repeat : Bool
  pub task : ℕ

-- `std::string` and `<` on it.
unfoldable pub name_lt : List ℕ → List ℕ → Bool
name_lt [] [] = false
name_lt [] (d ∷ ds) = true
name_lt (c ∷ cs) [] = false
name_lt (c ∷ cs) (d ∷ ds) = let rest = name_lt cs ds in if c == d then rest else ltb c d

-- `operator<` of TimerTask
unfoldable pub task_lt : TimerTask → TimerTask → Bool
unfolding name_lt
task_lt t u =
    if t.next_trigger == u.next_trigger
    then name_lt t.task_name u.task_name
    else ltb t.next_trigger u.next_trigger

-- `emplace` of std::multiset: behind the tasks that are not greater.
unfoldable pub emplace : TimerTask → List TimerTask → List TimerTask
unfolding task_lt
emplace t [] = t ∷ []
emplace t (u ∷ us) = let rest = emplace t us in if task_lt t u then t ∷ u ∷ us else u ∷ rest

-- `std::to_string` of a number, with the digits that are left as fuel.
unfoldable pub digits_of : ℕ → ℕ → List ℕ → List ℕ
digits_of zero n acc = acc
digits_of (suc fuel) n acc =
    let more = digits_of fuel (n / 10) ((48 + n % 10) ∷ acc) in
    if ltb n 10 then (48 + n) ∷ acc else more

-- A uint64_t has at most 20 digits.
unfoldable pub to_string : ℕ → List ℕ
unfolding digits_of
to_string n = digits_of 20 n []

-- Where the timer thread stands, with its local variables.
pub data TimerPc : Type 0 where
  at_loop : TimerPc
  waiting : TimerPc
  waiting_until : (trigger : ℕ) → TimerPc
  after_wait : TimerPc
  inner : TimerPc
  unlocked : (t : TimerTask) (time_now : ℕ) → TimerPc
  relock : (t : TimerTask) (time_now : ℕ) (canceled : Bool) → TimerPc
  ended : TimerPc

pub record Pool : Type 0 where
  pub run : Bool  -- m_bRun
  pub tasks : List TimerTask  -- tasks_
  pub cancels : List (List ℕ)  -- cancels_
  pub serialize_id : ℕ  -- serializeId_
  pub thread : TimerPc
  pub started : List ℕ  -- the functions given to QtConcurrent::run, in order

-- The constructor: the timer thread stands before its loop.
abbrev pub new_pool : Pool
new_pool = record {
  run = true;
  tasks = [];
  cancels = [];
  serialize_id = 0;
  thread = at_loop;
  started = [];
}

unfoldable pub run_task : ℕ → Pool → Pool
run_task f p = if not p.run then p else record p { started = p.started ++ f ∷ [] }

unfoldable pub stop : Pool → Pool
stop p = record p { run = false }

unfoldable pub has_name : List ℕ → List TimerTask → Bool
unfolding same_text
has_name name [] = false
has_name name (t ∷ ts) = same_text t.task_name name || has_name name ts

abbrev enter_task : List ℕ → ℕ → ℕ → Bool → ℕ → Pool → Pool × Bool
enter_task name now milliseconds repeat f p =
    let t : TimerTask = record {
      task_name = name;
      next_trigger = now + milliseconds;
      interval = milliseconds;
      repeat = repeat;
      task = f;
    } in
    (record p { tasks = emplace t p.tasks }, true)

unfoldable pub add_timer_task : List ℕ → ℕ → ℕ → Bool → ℕ → Pool → Pool × Bool
unfolding is_empty
add_timer_task name now milliseconds repeat f p =
    if not (is_empty name)
    then if has_name name p.tasks then (p, false) else enter_task name now milliseconds repeat f p
    else let id = (p.serialize_id + 1) % 2 ^ 64 in
      enter_task (to_string id) now milliseconds repeat f (record p { serialize_id = id })

unfoldable pub run_after : ℕ → ℕ → ℕ → Pool → Pool × Bool
unfolding run_task
run_after now milliseconds f p =
    if not p.run
    then (p, false)
    else if milliseconds == 0
    then (run_task f p, true)
    else add_timer_task [] now milliseconds false f p

unfoldable pub run_every : List ℕ → ℕ → ℕ → ℕ → Pool → Pool × Bool
unfolding is_empty
run_every name now milliseconds f p =
    if not p.run
    then (p, false)
    else if is_empty name
    then (p, false)
    else if milliseconds == 0
    then (p, false)
    else add_timer_task name now milliseconds true f p

-- The set of names to cancel.
unfoldable pub holds_name : List ℕ → List (List ℕ) → Bool
unfolding same_text
holds_name name [] = false
holds_name name (n ∷ ns) = same_text n name || holds_name name ns

unfoldable pub remove_name : List ℕ → List (List ℕ) → List (List ℕ)
unfolding same_text
remove_name name [] = []
remove_name name (n ∷ ns) =
    let rest = remove_name name ns in if same_text n name then ns else n ∷ rest

unfoldable pub timer_cancel : List ℕ → Pool → Pool × Bool
unfolding holds_name
timer_cancel name p =
    (if holds_name name p.cancels then p else record p { cancels = name ∷ p.cancels }, true)

-- One step of `timerThreadFunc` at the time `now`. A wait that does not return stands still.
wait_for : List TimerTask → Pool → Pool
wait_for [] p = record p { thread = waiting }
wait_for (t ∷ ts) p = record p { thread = waiting_until t.next_trigger }

woken : ℕ → ℕ → Pool → Bool
woken now trigger p = elim p.tasks [
  | [] ↦ true
  | t ∷ ts ↦ p.run || ltb t.next_trigger trigger || leb trigger now
]

-- The inner loop tests its bound of 100 on a counter that is raised only behind the loop.
take_due : List TimerTask → ℕ → Pool → Pool
take_due [] now p = record p { thread = at_loop }
take_due (t ∷ ts) now p =
    if ltb now t.next_trigger
    then record p { thread = at_loop }
    else record p { tasks = ts; thread = unlocked t now }

-- The test of `cancels_`, and the task's run.
dispatch : TimerTask → ℕ → Pool → Pool
unfolding is_empty run_task
dispatch t now p =
    if not (is_empty t.task_name) && holds_name t.task_name p.cancels
    then record p { cancels = remove_name t.task_name p.cancels; thread = relock t now true }
    else run_task t.task (record p { thread = relock t now false })

back_in : TimerTask → ℕ → Bool → Pool → Pool
back_in t now canceled p =
    if not canceled && t.repeat && not p.run
    then record p {
      tasks = emplace (record t { next_trigger = now + t.interval }) p.tasks;
      thread = inner;
    }
    else record p { thread = inner }

thread_at : TimerPc → ℕ → Pool → Pool
unfolding wait_for woken take_due dispatch back_in is_empty
thread_at at_loop now p = if not p.run then wait_for p.tasks p else record p { thread = ended }
thread_at waiting now p =
    if p.run || not (is_empty p.tasks) then record p { thread = after_wait } else p
thread_at (waiting_until trigger) now p =
    if woken now trigger p then record p { thread = after_wait } else p
thread_at after_wait now p =
    if p.run then record p { thread = ended } else record p { thread = inner }
thread_at inner now p = take_due p.tasks now p
thread_at (unlocked t time_now) now p = dispatch t time_now p
thread_at (relock t time_now canceled) now p = back_in t time_now canceled p
thread_at ended now p = p

unfoldable pub timer_thread_func : ℕ → Pool → Pool
unfolding thread_at
timer_thread_func now p = thread_at p.thread now p
