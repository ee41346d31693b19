-- ===== src/Kits/Timers/Idle.antt =====
-- What the timer thread ever starts: its loop runs only after `stop`, when `runTask` does nothing.
use infinity_station.Base.{
  ℕ, zero, suc, ◌≡◌, refl, Bool, true, false, sym, Bool-cases, inl, inr, ◌∙◌, List, [], ◌∷◌, ◌++◌,
  arith,
}
use mathlib.Core.List.{append-nil, append_assoc}
use infinity_station.Kits.Timers.Calls.{Event, launch, after, every, cancel, halt, tick, step, play}
use infinity_station.Kits.Timers.{
  Pool, TimerPc, at_loop, ended, new_pool, run_after, run_every, timer_cancel, stop,
  timer_thread_func, run_task, add_timer_task, thread_at, dispatch, back_in, take_due, wait_for,
  woken,
}

-- The calls of `runTask`, and of `runAfter` without a delay, up to the first `stop`.
abbrev pub immediate : List Event → List ℕ
immediate [] = []
immediate (launch f ∷ es) = f ∷ immediate es
immediate (after now zero f ∷ es) = f ∷ immediate es
immediate (halt ∷ es) = []
immediate (_ ∷ es) = immediate es

abbrev outside : TimerPc → Bool
outside at_loop = true
outside ended = true
outside _ = false

enter-kept :
    (name : List ℕ) (now milliseconds f : ℕ) (r : Bool) (p : Pool)
    → ((add_timer_task name now milliseconds r f p).0.run ≡ p.run)
      × ((add_timer_task name now milliseconds r f p).0.thread ≡ p.thread)
      × ((add_timer_task name now milliseconds r f p).0.started ≡ p.started)
unfolding add_timer_task
enter-kept name now milliseconds f r p = ground arith

-- Once the pool is stopped, nothing is started.
thread-stopped :
    (q : TimerPc) (now : ℕ) (p : Pool)
    → p.run ≡ false
    → ((thread_at q now p).run ≡ false) × ((thread_at q now p).started ≡ p.started)
unfolding thread_at wait_for woken take_due dispatch back_in run_task
thread-stopped at_loop now p e = ground arith
thread-stopped ended now p e = ground arith
thread-stopped _ now p e = ground arith

step-stopped :
    (e : Event) (p : Pool)
    → p.run ≡ false
    → ((step e p).run ≡ false) × ((step e p).started ≡ p.started)
unfolding step timer_thread_func run_task run_after run_every timer_cancel stop
step-stopped (launch f) p h = ground arith
step-stopped (tick now) p h = thread-stopped p.thread now p h
step-stopped (after now milliseconds f) p h = ground arith
step-stopped _ p h = ground arith

play-stopped : (es : List Event) (p : Pool) → p.run ≡ false → (play es p).started ≡ p.started
unfolding play
play-stopped [] p h = refl
play-stopped (e ∷ es) p h =
    let (still, same) = step-stopped e p h in play-stopped es (step e p) still ∙ same

-- Until then the timer thread is before its loop, or has ended.
record IsRunning (p : Pool) : Type 0 where
  running : p.run ≡ true
  away : outside p.thread ≡ true

thread-running :
    (q : TimerPc) (now : ℕ) (p : Pool)
    → p.thread ≡ q
    → p.run ≡ true
    → outside q ≡ true
    → (outside (thread_at q now p).thread ≡ true)
      × ((thread_at q now p).run ≡ true)
      × ((thread_at q now p).started ≡ p.started)
unfolding thread_at wait_for
thread-running at_loop now p at e o = ground arith
thread-running _ now p at e o = ground arith

-- What a call, or a step of the thread, starts while the pool runs.
abbrev starts : Event → List ℕ
starts (launch f) = f ∷ []
starts (after now zero f) = f ∷ []
starts _ = []

abbrev halts : Event → Bool
halts halt = true
halts _ = false

step-IsRunning :
    (e : Event) (p : Pool)
    → IsRunning p
    → halts e ≡ false
    → IsRunning (step e p) × ((step e p).started ≡ p.started ++ starts e)
unfolding step timer_thread_func run_after run_every timer_cancel run_task
step-IsRunning (tick now) p v h =
    let (out, on, same) = thread-running p.thread now p refl v.running v.away in
    (record { running = on; away = out }, same ∙ sym (append-nil p.started))
step-IsRunning (launch f) p v h = ground arith
step-IsRunning (after now zero f) p v h = ground arith
step-IsRunning (after now (suc milliseconds) f) p v h =
    ground (arith, append-nil p.started, enter-kept [] now (suc milliseconds) f false p)
step-IsRunning (every name now milliseconds f) p v h =
    ground (arith, append-nil p.started, enter-kept name now milliseconds f true p)
step-IsRunning (cancel name) p v h = ground (arith, append-nil p.started)
step-IsRunning halt p v h = cc

immediate-cons :
    (e : Event) (es : List Event) → halts e ≡ false → immediate (e ∷ es) ≡ starts e ++ immediate es
immediate-cons (launch f) es h = refl
immediate-cons (after now zero f) es h = refl
immediate-cons (after now (suc milliseconds) f) es h = refl
immediate-cons halt es h = cc
immediate-cons _ es h = refl

play-halted :
    (e : Event) (es : List Event) (p : Pool)
    → halts e ≡ true
    → (play (e ∷ es) p).started ≡ p.started ++ immediate (e ∷ es)
unfolding play
play-halted halt es p h =
    play-stopped es (step halt p) (unfold step stop in refl)
    ∙ unfold step stop in sym (append-nil p.started)
play-halted (after now milliseconds f) es p h = cc
play-halted _ es p h = cc

play-running :
    (es : List Event) (p : Pool) → IsRunning p → (play es p).started ≡ p.started ++ immediate es
unfolding play
play-running [] p v = sym (append-nil p.started)
play-running (e ∷ es) p v = elim (Bool-cases (halts e)) [
  | inl stops ↦ play-halted e es p stops
  | inr goes ↦
      let (v', more) = step-IsRunning e p v goes in
      play-running es (step e p) v'
      ∙ rw (more, immediate-cons e es goes) (append_assoc p.started (starts e) (immediate es))
]

-- Whatever calls are made and however the timer thread's steps fall among them, the functions that are
-- started are those of the calls `runTask(f)` and `runAfter(0, f)` before the first `stop`, in their
-- order: none that was given with a delay, and none of `runEvery`.
pub play-immediate : (es : List Event) → (play es new_pool).started ≡ immediate es
play-immediate es = play-running es new_pool (record { running = refl; away = refl })
