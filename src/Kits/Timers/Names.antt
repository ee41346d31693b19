-- ===== src/Kits/Timers/Names.antt =====
-- The names of timers: a name that is pending is refused.
use infinity_station.Base.{
  ℕ, ◌+◌, ◌%◌, ◌^◌, ◌<◌, ◌≡◌, refl, Bool, true, false, List, [], ◌∷◌, arith, ◌||◌,
}
use infinity_station.Base.Text.{same_text, same_text_refl, is_empty}
use infinity_station.Kits.Timers.{
  Pool, TimerTask, has_name, emplace, run_after, run_every, add_timer_task, to_string,
}

has_name-emplace :
    (name : List ℕ) (t : TimerTask) (ts : List TimerTask)
    → has_name name (emplace t ts) ≡ (same_text t.task_name name || has_name name ts)
unfolding has_name emplace
has_name-emplace name t [] = refl
has_name-emplace name t (u ∷ us) = ground (arith, has_name-emplace name t us)

has_name-emplace_self :
    (t : TimerTask) (ts : List TimerTask) → has_name t.task_name (emplace t ts) ≡ true
has_name-emplace_self t ts = rw (has_name-emplace t.task_name t ts, same_text_refl t.task_name) refl

module _ (p : Pool) (name : List ℕ) (now milliseconds : ℕ) (r : Bool) (f : ℕ) where
  add_timer_task-taken :
      is_empty name ≡ false
      → has_name name p.tasks ≡ true
      → add_timer_task name now milliseconds r f p ≡ (p, false)
  unfolding add_timer_task
  add_timer_task-taken e h = ground arith

  add_timer_task-named :
      is_empty name ≡ false
      → (add_timer_task name now milliseconds r f p).1 ≡ true
      → (has_name name (add_timer_task name now milliseconds r f p).0.tasks ≡ true)
        × ((add_timer_task name now milliseconds r f p).0.run ≡ p.run)
  unfolding add_timer_task
  add_timer_task-named e h = ground (
    arith,
    has_name-emplace_self
        (record {
          task_name = name;
          next_trigger = now + milliseconds;
          interval = milliseconds;
          repeat = r;
          task = f;
        })
        p.tasks,
  )

-- Once `runEvery` has taken a name, it refuses the name until the thread takes the task out, and the
-- refused call changes nothing.
pub run_every-run_every :
    (p : Pool) (name : List ℕ) (now now' milliseconds milliseconds' f g : ℕ)
    → (run_every name now milliseconds f p).1 ≡ true
    → run_every name now' milliseconds' g (run_every name now milliseconds f p).0
      ≡ ((run_every name now milliseconds f p).0, false)
unfolding run_every
run_every-run_every p name now now' milliseconds milliseconds' f g h = ground (
  arith,
  add_timer_task-named p name now milliseconds true f,
  add_timer_task-taken (add_timer_task name now milliseconds true f p).0 name now' milliseconds'
      true g,
)

numbered :
    (p : Pool) (now milliseconds f : ℕ)
    → has_name
        (to_string ((p.serialize_id + 1) % 2 ^ 64))
        (add_timer_task [] now milliseconds false f p).0.tasks
      ≡ true
unfolding add_timer_task
numbered p now milliseconds f = has_name-emplace_self _ p.tasks

-- In a pool that runs, `runAfter` with a delay takes the next number for a name: `runEvery` refuses that
-- name too, though no timer was ever given it, and changes nothing.
pub run_every-run_after :
    (p : Pool) (now now' milliseconds milliseconds' f g : ℕ)
    → p.run ≡ true
    → 0 < milliseconds
    → run_every
        (to_string ((p.serialize_id + 1) % 2 ^ 64))
        now'
        milliseconds'
        g
        (run_after now milliseconds f p).0
      ≡ ((run_after now milliseconds f p).0, false)
unfolding run_after run_every
run_every-run_after p now now' milliseconds milliseconds' f g on pos = ground (
  arith,
  numbered p now milliseconds f,
  add_timer_task-taken (add_timer_task [] now milliseconds false f p).0
      (to_string ((p.serialize_id + 1) % 2 ^ 64)) now' milliseconds' true g,
)
