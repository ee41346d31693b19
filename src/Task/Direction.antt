-- ===== src/Task/Direction.antt =====
-- The direction of the line in the two ways of creating a task.
use infinity_station.Base.{
  ◌≡◌, ◌∙◌, Bool-cases, inl, inr, refl, Bool, true, false, some, arith, if◌then◌else◌,
}
use infinity_station.Base.Int.{ℤ, pos, negsuc}
use infinity_station.Base.Text.{same_text}
use infinity_station.Task.{
  TaskInfo, Request, World, TaskCtrl, read_request, start_task, name_task, create_online_task,
  create_test_task_data, finish, up_line, down_line,
}

module _ {F : Type 0} (zero_km : F) where
  start_task-line_dir :
      (w : World) (c : TaskCtrl F)
      → (start_task zero_km w c).0.current_task.line_dir ≡ c.current_task.line_dir
  unfolding start_task name_task
  start_task-line_dir w c = ground arith

  finish-line_dir :
      (failure : ℤ) (t : TaskInfo F) (w : World) (c : TaskCtrl F)
      → (finish zero_km failure t (start_task zero_km w c)).0.current_task.line_dir
        ≡ c.current_task.line_dir
  finish-line_dir failure t w c = elim (Bool-cases (start_task zero_km w c).1) [
    | inl done ↦ rw done (start_task-line_dir w c)
    | inr failed ↦ rw failed (start_task-line_dir w c)
  ]

  -- For a request that names one of the two directions of the line, an online task and a task made by
  -- hand get opposite numbers for it: the up line is 1 online and 0 by hand, the down line 0 and 1.
  pub line_dir_disagrees :
      (w : World) (q : Request F) (t : TaskInfo F) (c : TaskCtrl F) (down : Bool)
      → q.line_direction ≡ some (if down then down_line else up_line)
      → c.start_task_flag ≡ false
      → ((create_online_task zero_km w q t c).0.current_task.line_dir
          ≡ (if down then pos 0 else pos 1))
        × ((create_test_task_data zero_km w q t c).0.current_task.line_dir
            ≡ (if down then pos 1 else pos 0))
  unfolding create_online_task create_test_task_data read_request same_text
  line_dir_disagrees w q t c true e free = (
    rw free (finish-line_dir (negsuc 1) t w _ ∙ rw e refl),
    finish-line_dir (negsuc 0) t w _ ∙ rw e refl,
  )
  line_dir_disagrees w q t c false e free = (
    rw free (finish-line_dir (negsuc 1) t w _ ∙ rw e refl),
    finish-line_dir (negsuc 0) t w _ ∙ rw e refl,
  )
