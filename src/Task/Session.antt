-- ===== src/Task/Session.antt =====
-- The requests of a session in any order: which tasks are notified, and what a failed start leaves.
use infinity_station.Base.{
  ℕ, ◌≡◌, ◌≢◌, refl, Bool, true, false, List, [], ◌∷◌, ◌++◌, some, arith, All, Bool-cases, ap, inl,
  inr, if◌then◌else◌,
}
use infinity_station.Base.Int.{ℤ, pos, negsuc}
use infinity_station.Base.Text.{same_text}
use infinity_station.Task.{
  TaskInfo, Request, World, TaskCtrl, value_or, is_int, no_task, clear, read_request, start_task,
  stop_task, create_online_task, create_test_task_data, create_task, recv_mblk_data, down_line,
  name_task, minus_one, slash,
}

module _ {F : Type 0} (zero_km : F) where
  -- The tasks notified in the course of a session, in order.
  unfoldable pub session : List (World × Request F) → TaskCtrl F → List (TaskInfo F)
  session [] c = []
  session ((w, q) ∷ es) c =
      let (c', notified) = recv_mblk_data zero_km w q c in notified ++ session es c'

  -- The state at the end of a session.
  unfoldable pub after_session : List (World × Request F) → TaskCtrl F → TaskCtrl F
  after_session [] c = c
  after_session ((w, q) ∷ es) c = after_session es (recv_mblk_data zero_km w q c).0

abbrev pub runs : {F : Type 0} → TaskInfo F → Bool
runs t = is_int t.taskstate 0

-- A request for an online task.
abbrev pub IsOnline : {F : Type 0} → Request F → Type 0
IsOnline q = q.task_type ≡ some (pos 1)

-- A request to start a task is for an online task. A request without a state is to stop.
abbrev pub IsOnlineIfStart : {F : Type 0} → Request F → Type 0
IsOnlineIfStart q = is_int (value_or q.task_state (pos 1)) 0 ≡ true → IsOnline q

-- No running task is notified while `busy`, which each notified task sets for those behind it.
abbrev pub Alternates : {F : Type 0} → Bool → List (TaskInfo F) → Type 0
Alternates busy [] = Unit
Alternates busy (t ∷ ts) = (runs t ≡ true → busy ≡ false) × Alternates (runs t) ts

module _ {F : Type 0} (zero_km : F) where
  -- Between the flag and the current task.
  abbrev pub IsConsistent : TaskCtrl F → Type 0
  IsConsistent c = c.start_task_flag ≡ runs c.current_task

  recv-IsConsistent :
      (w : World) (q : Request F) (c : TaskCtrl F)
      → IsConsistent c
      → IsConsistent (recv_mblk_data zero_km w q c).0
  unfolding recv_mblk_data create_task create_online_task create_test_task_data read_request
      start_task name_task stop_task clear
  recv-IsConsistent w q c h = ground arith

  -- What a request for an online task or a stop notifies.
  accepted : World → Request F → TaskCtrl F → Bool
  accepted w q c = is_int (create_task zero_km w q (no_task zero_km) c).1 0

  handed : World → Request F → TaskCtrl F → TaskInfo F
  handed w q c = (create_task zero_km w q (no_task zero_km) c).2

  recv-accepted :
      (w : World) (q : Request F) (c : TaskCtrl F)
      → (recv_mblk_data zero_km w q c).1 ≡ (if accepted w q c then handed w q c ∷ [] else [])
  unfolding recv_mblk_data accepted handed
  recv-accepted w q c = refl

  handed-running :
      (w : World) (q : Request F) (c : TaskCtrl F)
      → IsOnlineIfStart q
      → accepted w q c ≡ true
      → runs (handed w q c) ≡ true
      → (c.start_task_flag ≡ false) × ((recv_mblk_data zero_km w q c).0.start_task_flag ≡ true)
  unfolding recv_mblk_data accepted handed create_task create_online_task create_test_task_data
      read_request start_task name_task stop_task clear
  handed-running w q c online yes_ on = ground arith

  not_accepted :
      (w : World) (q : Request F) (c : TaskCtrl F)
      → IsOnlineIfStart q
      → accepted w q c ≡ false
      → c.start_task_flag ≡ true
      → (recv_mblk_data zero_km w q c).0.start_task_flag ≡ true
  unfolding recv_mblk_data accepted create_task create_online_task create_test_task_data
      read_request start_task name_task stop_task clear
  not_accepted w q c online no_ on = ground arith

  -- Once an online task could not be started, every later request for one is refused.
  refused :
      (w : World) (q : Request F) (c : TaskCtrl F)
      → IsOnline q
      → q.task_state ≡ some (pos 0)
      → c.start_task_flag ≡ true
      → recv_mblk_data zero_km w q c ≡ (c, [])
  unfolding recv_mblk_data create_task create_online_task
  refused w q c online start busy = ground arith

is_int-ne : (k : ℤ) (n : ℕ) → k ≢ pos n → is_int k n ≡ false
unfolding is_int
is_int-ne (pos m) n h = ground (arith, λ (e : m ≡ n). h (ap pos e))
is_int-ne (negsuc m) n h = refl

module _ {F : Type 0} (zero_km : F) where
  session-Alternates :
      (es : List (World × Request F)) (c : TaskCtrl F) (busy : Bool)
      → All (λ e. IsOnlineIfStart e.1) es
      → (busy ≡ true → c.start_task_flag ≡ true)
      → Alternates busy (session zero_km es c)
  unfolding session
  session-Alternates [] c busy online h = tt
  session-Alternates ((w, q) ∷ es) c busy online h =
      let c' = (recv_mblk_data zero_km w q c).0 in
      rw (recv-accepted zero_km w q c) (elim (Bool-cases (accepted zero_km w q c)) [
        | inl done ↦ rw done (
          (λ on. ground (arith, handed-running zero_km w q c online.0 done on)),
          session-Alternates es c' (runs (handed zero_km w q c)) online.1
              (λ on. (handed-running zero_km w q c online.0 done on).1),
        )
        | inr failed ↦ rw failed (
            session-Alternates es c' busy online.1
              (λ on. not_accepted zero_km w q c online.0 failed (h on)))
      ])

  -- Where every request to start a task is for an online task, a running task is notified only when
  -- the notification before it was of a task that does not run, or when it is the first.
  pub starts_alternate :
      (es : List (World × Request F)) (c : TaskCtrl F)
      → All (λ e. IsOnlineIfStart e.1) es
      → Alternates false (session zero_km es c)
  starts_alternate es c online = session-Alternates es c false online (λ e. cc)

  -- If the flag of the tasks says whether the current task runs, it does so after any requests, of
  -- whatever kind, and whatever the clock, the folders and the data base answer to them.
  pub after_session-IsConsistent :
      (es : List (World × Request F)) (c : TaskCtrl F)
      → IsConsistent zero_km c
      → IsConsistent zero_km (after_session zero_km es c)
  unfolding after_session
  after_session-IsConsistent [] c h = h
  after_session-IsConsistent ((w, q) ∷ es) c h =
      after_session-IsConsistent es (recv_mblk_data zero_km w q c).0
        (recv-IsConsistent zero_km w q c h)

  -- A request that starts an online task.
  abbrev pub IsOnlineStart : World × Request F → Type 0
  IsOnlineStart e = IsOnline e.1 × (e.1.task_state ≡ some (pos 0))

  session-refused :
      (es : List (World × Request F)) (c : TaskCtrl F)
      → All IsOnlineStart es
      → c.start_task_flag ≡ true
      → session zero_km es c ≡ []
  unfolding session
  session-refused [] c starts busy = refl
  session-refused ((w, q) ∷ es) c starts busy =
      rw (refused zero_km w q c starts.0.0 starts.0.1 busy) (session-refused es c starts.1 busy)

  unstarted :
      (w : World) (q : Request F) (c : TaskCtrl F)
      → IsOnline q
      → q.task_state ≡ some (pos 0)
      → ((path : List ℕ) → w.folder path ≡ false)
      → ((recv_mblk_data zero_km w q c).1 ≡ [])
        × ((recv_mblk_data zero_km w q c).0.start_task_flag ≡ true)
  unfolding recv_mblk_data create_task create_online_task start_task read_request
  unstarted w q c online start unmade = ground (
    arith,
    unmade (
        c.save_path
        ++ slash
        ++ w.day
        ++ slash
        ++ (name_task zero_km w
            (read_request zero_km
              (if same_text (value_or q.line_direction minus_one) down_line then pos 0 else pos 1) q
              c).current_task).task_name),
  )

  -- When the folder of a first online task can be neither found nor made, nothing is notified, and no
  -- later request for an online task is served, whatever its folder, until the task is stopped.
  pub failed_start_blocks :
      (w : World) (q : Request F) (es : List (World × Request F)) (c : TaskCtrl F)
      → All IsOnlineStart ((w, q) ∷ es)
      → ((path : List ℕ) → w.folder path ≡ false)
      → session zero_km ((w, q) ∷ es) c ≡ []
  unfolding session
  failed_start_blocks w q es c starts unmade =
      let (silent, busy) = unstarted w q c starts.0.0 starts.0.1 unmade in
      rw silent (session-refused es (recv_mblk_data zero_km w q c).0 starts.1 busy)

  create_task-other :
      (w : World) (q : Request F) (t : TaskInfo F) (c : TaskCtrl F) (k : ℤ)
      → q.task_state ≡ some k
      → is_int k 0 ≡ false
      → is_int k 1 ≡ false
      → create_task zero_km w q t c ≡ (c, pos 0, t)
  unfolding create_task
  create_task-other w q t c k e start stop = rw (e, start, stop) refl

  -- A request with a state other than start and stop changes nothing, and yet a task without a name
  -- that is stopped is notified.
  pub other_state_notified :
      (w : World) (q : Request F) (c : TaskCtrl F) (k : ℤ)
      → q.task_state ≡ some k
      → k ≢ pos 0
      → k ≢ pos 1
      → recv_mblk_data zero_km w q c ≡ (c, no_task zero_km ∷ [])
  unfolding recv_mblk_data
  other_state_notified w q c k e start stop =
      rw (create_task-other w q (no_task zero_km) c k e (is_int-ne k 0 start) (is_int-ne k 1 stop))
        refl
