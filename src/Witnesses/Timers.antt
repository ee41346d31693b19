-- ===== src/Witnesses/Timers.antt =====
-- Calls on the timers for the theorems of Kits/Timers.
use infinity_station.Base.{ℕ, ◌≡◌, refl, true, false, List, [], ◌∷◌, ◌++◌}
use infinity_station.Kits.Timers.{
  TimerTask, new_pool, run_after, run_every, add_timer_task, emplace, to_string, has_name,
}
use infinity_station.Kits.Timers.Calls.{Event, launch, after, every, cancel, halt, tick, play, step}
use infinity_station.Kits.Timers.Idle.{play-immediate}

-- The name "beat".
abbrev beat : List ℕ
beat = 98 ∷ 101 ∷ 97 ∷ 116 ∷ []

abbrev calls : List Event
calls =
    every beat 0 500 1
    ∷ launch 5
    ∷ after 10 0 2
    ∷ after 20 100 3
    ∷ tick 30
    ∷ cancel beat
    ∷ tick 700
    ∷ []

-- The task of `runAfter` is due before that of `runEvery`.
abbrev sooner : TimerTask
sooner = record {
  task_name = 49 ∷ [];
  next_trigger = 120;
  interval = 100;
  repeat = false;
  task = 3;
}

abbrev later_one : TimerTask
later_one = record { task_name = beat; next_trigger = 500; interval = 500; repeat = true; task = 1 }

play-immediate_example :
    (play (calls ++ halt ∷ tick 800 ∷ after 900 0 4 ∷ []) new_pool).started ≡ 5 ∷ 2 ∷ []
play-immediate_example = play-immediate (calls ++ halt ∷ tick 800 ∷ after 900 0 4 ∷ [])

pending : (play calls new_pool).tasks ≡ sooner ∷ later_one ∷ []
unfolding play step run_every run_after add_timer_task emplace to_string has_name
pending = refl

taken : (run_every beat 0 500 1 new_pool).1 ≡ true
unfolding run_every add_timer_task has_name
taken = refl
