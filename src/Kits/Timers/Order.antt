-- ===== src/Kits/Timers/Order.antt =====
-- The order of the pending tasks, and the names under which they are kept.
use infinity_station.Base.{
  ℕ, ◌≤◌, ◌≡◌, refl, Bool, true, false, not, List, [], ◌∷◌, arith, All, ◌==◌, ltb, if◌then◌else◌,
  subst, ◌&&◌, ◌||◌,
}
use infinity_station.Base.Text.{is_empty}
use infinity_station.Kits.Timers.{
  Pool, TimerPc, TimerTask, has_name, holds_name, at_loop, waiting, waiting_until, after_wait,
  inner, unlocked, relock, ended, name_lt, task_lt, emplace, new_pool, run_after, run_every,
  timer_cancel, stop, timer_thread_func, run_task, add_timer_task, thread_at, dispatch, back_in,
  take_due, wait_for, woken,
}
use infinity_station.Kits.Timers.Calls.{Event, launch, after, every, cancel, halt, tick, step, play}

-- No task is less than the one before it.
abbrev pub IsOrdered : List TimerTask → Type 0
IsOrdered [] = Unit
IsOrdered (t ∷ []) = Unit
IsOrdered (t ∷ u ∷ us) = (task_lt u t ≡ false) × IsOrdered (u ∷ us)

name_lt-asymm : (xs ys : List ℕ) → name_lt xs ys ≡ true → name_lt ys xs ≡ false
unfolding name_lt
name_lt-asymm [] [] h = refl
name_lt-asymm [] (y ∷ ys) h = refl
name_lt-asymm (x ∷ xs) [] h = cc
name_lt-asymm (x ∷ xs) (y ∷ ys) h = ground (arith, name_lt-asymm xs ys)

task_lt-asymm : (t u : TimerTask) → task_lt t u ≡ true → task_lt u t ≡ false
unfolding task_lt
task_lt-asymm t u h = ground (arith, name_lt-asymm t.task_name u.task_name)

task_lt-trigger : (t u : TimerTask) → task_lt u t ≡ false → t.next_trigger ≤ u.next_trigger
unfolding task_lt
task_lt-trigger t u h = ground arith

IsOrdered-tail : (t : TimerTask) (ts : List TimerTask) → IsOrdered (t ∷ ts) → IsOrdered ts
IsOrdered-tail t [] h = tt
IsOrdered-tail t (u ∷ us) h = h.1

emplace-IsOrdered : (t : TimerTask) (ts : List TimerTask) → IsOrdered ts → IsOrdered (emplace t ts)
unfolding emplace
emplace-IsOrdered t [] h = tt
emplace-IsOrdered t (u ∷ []) h = ground (arith, task_lt-asymm t u)
emplace-IsOrdered t (u ∷ v ∷ vs) h =
    ground (arith, task_lt-asymm t u, emplace-IsOrdered t (v ∷ vs) h.1)

-- The head is due first.
IsOrdered-head :
    (t : TimerTask) (ts : List TimerTask)
    → IsOrdered (t ∷ ts)
    → All (λ u. t.next_trigger ≤ u.next_trigger) ts
IsOrdered-head t [] h = tt
IsOrdered-head t (u ∷ us) h = (task_lt-trigger t u h.0, below us (IsOrdered-head u us h.1))
  where
    below :
        (xs : List TimerTask)
        → All (λ x. u.next_trigger ≤ x.next_trigger) xs
        → All (λ x. t.next_trigger ≤ x.next_trigger) xs
    below [] a = tt
    below (x ∷ xs) a = (omega (arith, a.0, task_lt-trigger t u h.0), below xs a.1)

if-IsOrdered :
    (b : Bool) (p q : Pool)
    → IsOrdered p.tasks
    → IsOrdered q.tasks
    → IsOrdered (if b then p else q).tasks
if-IsOrdered true p q hp hq = hp
if-IsOrdered false p q hp hq = hq

if-pair-IsOrdered :
    (b : Bool) (p q : Pool × Bool)
    → IsOrdered p.0.tasks
    → IsOrdered q.0.tasks
    → IsOrdered (if b then p else q).0.tasks
if-pair-IsOrdered true p q hp hq = hp
if-pair-IsOrdered false p q hp hq = hq

module _ (p : Pool) (ordered : IsOrdered p.tasks) where
  add_timer_task-IsOrdered :
      (name : List ℕ) (now milliseconds : ℕ) (r : Bool) (f : ℕ)
      → IsOrdered (add_timer_task name now milliseconds r f p).0.tasks
  unfolding add_timer_task
  add_timer_task-IsOrdered name now milliseconds r f =
      if-pair-IsOrdered (not (is_empty name)) _ _
        (if-pair-IsOrdered (has_name name p.tasks) _ _ ordered
          (emplace-IsOrdered _ p.tasks ordered))
        (emplace-IsOrdered _ p.tasks ordered)

  take_due-IsOrdered :
      (ts : List TimerTask) (now : ℕ)
      → IsOrdered ts
      → p.tasks ≡ ts
      → IsOrdered (take_due ts now p).tasks
  unfolding take_due
  take_due-IsOrdered [] now h e = ordered
  take_due-IsOrdered (t ∷ ts) now h e =
      if-IsOrdered (ltb now t.next_trigger) _ _ ordered (IsOrdered-tail t ts h)

  wait_for-IsOrdered : (ts : List TimerTask) → IsOrdered (wait_for ts p).tasks
  unfolding wait_for
  wait_for-IsOrdered [] = ordered
  wait_for-IsOrdered (t ∷ ts) = ordered

  thread-IsOrdered : (q : TimerPc) (now : ℕ) → IsOrdered (thread_at q now p).tasks
  unfolding thread_at woken dispatch back_in run_task
  thread-IsOrdered at_loop now = if-IsOrdered (not p.run) _ _ (wait_for-IsOrdered p.tasks) ordered
  thread-IsOrdered waiting now = if-IsOrdered (p.run || not (is_empty p.tasks)) _ _ ordered ordered
  thread-IsOrdered (waiting_until trigger) now =
      if-IsOrdered (woken now trigger p) _ _ ordered ordered
  thread-IsOrdered after_wait now = if-IsOrdered p.run _ _ ordered ordered
  thread-IsOrdered inner now = take_due-IsOrdered p.tasks now ordered refl
  thread-IsOrdered (unlocked t time_now) now =
      if-IsOrdered (not (is_empty t.task_name) && holds_name t.task_name p.cancels) _ _ ordered
        (if-IsOrdered (not p.run) _ _ ordered ordered)
  thread-IsOrdered (relock t time_now canceled) now =
      if-IsOrdered (not canceled && t.repeat && not p.run) _ _ (emplace-IsOrdered _ p.tasks ordered)
        ordered
  thread-IsOrdered ended now = ordered

  step-IsOrdered : (e : Event) → IsOrdered (step e p).tasks
  unfolding step run_after run_every timer_cancel stop run_task timer_thread_func
  step-IsOrdered (launch f) = if-IsOrdered (not p.run) _ _ ordered ordered
  step-IsOrdered (after now milliseconds f) = if-pair-IsOrdered (not p.run) _ _ ordered (
      if-pair-IsOrdered (milliseconds == 0) _ _ (if-IsOrdered (not p.run) _ _ ordered ordered)
        (add_timer_task-IsOrdered [] now milliseconds false f))
  step-IsOrdered (every name now milliseconds f) = if-pair-IsOrdered (not p.run) _ _ ordered (
      if-pair-IsOrdered (is_empty name) _ _ ordered (
        if-pair-IsOrdered (milliseconds == 0) _ _ ordered
          (add_timer_task-IsOrdered name now milliseconds true f)))
  step-IsOrdered (cancel name) = if-IsOrdered (holds_name name p.cancels) _ _ ordered ordered
  step-IsOrdered halt = ordered
  step-IsOrdered (tick now) = thread-IsOrdered p.thread now

play-IsOrdered : (es : List Event) (p : Pool) → IsOrdered p.tasks → IsOrdered (play es p).tasks
unfolding play
play-IsOrdered [] p h = h
play-IsOrdered (e ∷ es) p h = play-IsOrdered es (step e p) (step-IsOrdered p h e)

-- After any calls and steps of the timer thread, the task at the front, which the thread fires next,
-- is due no later than any other that is pending.
pub play-earliest :
    (es : List Event) (t : TimerTask) (ts : List TimerTask)
    → (play es new_pool).tasks ≡ t ∷ ts
    → All (λ u. t.next_trigger ≤ u.next_trigger) ts
play-earliest es t ts e = IsOrdered-head t ts (subst IsOrdered e (play-IsOrdered es new_pool tt))
