-- ===== src/Kits/Timers/Calls.antt =====
-- The public calls on the timers and the steps of their thread, in one sequence.
use infinity_station.Base.{ℕ, List, [], ◌∷◌}
use infinity_station.Kits.Timers.{
  Pool, run_task, run_after, run_every, timer_cancel, stop, timer_thread_func,
}

-- A public call, or a step of the timer thread, at a time of the clock.
pub data Event : Type 0 where
  launch : (f : ℕ) → Event  -- runTask
  after : (now milliseconds f : ℕ) → Event
  every : (name : List ℕ) (now milliseconds f : ℕ) → Event
  cancel : (name : List ℕ) → Event
  halt : Event
  tick : (now : ℕ) → Event

unfoldable pub step : Event → Pool → Pool
unfolding run_task run_after run_every timer_cancel stop timer_thread_func
step (launch f) p = run_task f p
step (after now milliseconds f) p = (run_after now milliseconds f p).0
step (every name now milliseconds f) p = (run_every name now milliseconds f p).0
step (cancel name) p = (timer_cancel name p).0
step halt p = stop p
step (tick now) p = timer_thread_func now p

unfoldable pub play : List Event → Pool → Pool
unfolding step
play [] p = p
play (e ∷ es) p = play es (step e p)
