-- ===== src/Task.antt =====
-- modules/task_service/PreviousTaskCtrl.{h,cpp}, from `createTask` on, and `recvMBLKData` of
-- TaskService.cpp: the current inspection task, its start and its stop. Texts are lists of UTF-16 code
-- units, the type of a kilometre, a double that is only passed on, is a parameter with its zero.
-- The clock, the file system and the answers of the data base are arguments.
pub mod Session
pub mod Direction
pub mod Config
pub mod Lines
use infinity_station.Base.{
  ℕ, ◌+◌, Bool, true, false, List, [], ◌∷◌, ◌++◌, Option, none, some, ◌==◌, if◌then◌else◌,
}
use infinity_station.Base.Int.{ℤ, pos, negsuc}
use infinity_station.Base.Text.{same_text}

pub record TaskInfo (F : Type 0) : Type 0 where
  pub task_name : List ℕ
  pub create_time : List ℕ
  pub sub_way_num : List ℕ
  pub line_name : List ℕ
  pub start_station : List ℕ
  pub end_station : List ℕ
  pub start_pole : List ℕ
  pub kilometer : F
  pub task_save_path : List ℕ
  pub line_dir : ℤ  -- 0: up, 1: down
  pub direction : ℤ
  pub taskstate : ℤ  -- 0: running, 1: stopped, 2: paused
  pub task_id : ℤ

-- A row of the table of tasks.
pub record TaskData : Type 0 where
  pub task_name : List ℕ
  pub line_name : List ℕ
  pub direction : ℤ
  pub start_station : List ℕ
  pub start_pole : List ℕ
  pub end_station : List ℕ
  pub created_time : List ℕ
  pub updated_time : List ℕ
  pub line_dir : ℤ

-- The map of values that comes with a request; a missing entry is `none`.
pub record Request (F : Type 0) : Type 0 where
  pub task_type : Option ℤ
  pub task_state : Option ℤ
  pub line_direction : Option (List ℕ)
  pub line_name : Option (List ℕ)
  pub start_station : Option (List ℕ)
  pub start_pole : Option (List ℕ)
  pub end_station : Option (List ℕ)
  pub train_number : Option (List ℕ)
  pub run_direction : Option ℤ
  pub kilometer : Option F

-- What is answered during one request: the times of the clock, whether the folder of a path is there
-- or can be made, and the number that the data base finds for a task's name.
pub record World : Type 0 where
  pub stamp : List ℕ
  pub day : List ℕ
  pub created : List ℕ
  pub updated : List ℕ
  pub ended : List ℕ
  pub folder : List ℕ → Bool
  pub search_id : List ℕ → ℤ

-- The statements sent to the data base.
pub data Statement : Type 0 where
  insert_task : TaskData → Statement
  end_task : (time : List ℕ) (task_id : ℤ) → Statement

pub record TaskCtrl (F : Type 0) : Type 0 where
  pub save_path : List ℕ
  pub current_task : TaskInfo F
  pub start_task_flag : Bool
  pub task_row : TaskData
  pub statements : List Statement

unfoldable pub value_or {ℓ} : {A : Type ℓ} → Option A → A → A
value_or none d = d
value_or (some a) d = a

unfoldable pub is_int : ℤ → ℕ → Bool
is_int (pos n) k = n == k
is_int (negsuc n) k = false

-- The UTF-16 code units of the two directions of a line.
abbrev pub up_line : List ℕ
up_line = 0x4e0a ∷ 0x884c ∷ []

abbrev pub down_line : List ℕ
down_line = 0x4e0b ∷ 0x884c ∷ []

-- `"-1"`, the text of the default of a missing direction.
abbrev pub minus_one : List ℕ
minus_one = 45 ∷ 49 ∷ []

abbrev underscore : List ℕ
underscore = 95 ∷ []

abbrev pub slash : List ℕ
slash = 47 ∷ []

module _ {F : Type 0} (zero_km : F) where
  -- A new TaskInfo.
  abbrev pub no_task : TaskInfo F
  no_task = record {
    task_name = [];
    create_time = [];
    sub_way_num = [];
    line_name = [];
    start_station = [];
    end_station = [];
    start_pole = [];
    kilometer = zero_km;
    task_save_path = [];
    line_dir = pos 0;
    direction = pos 0;
    taskstate = pos 1;
    task_id = negsuc 0;
  }

  -- `TaskInfo::clear`, which leaves the path.
  unfoldable pub clear : TaskInfo F → TaskInfo F
  clear t = record no_task { task_save_path = t.task_save_path }

  -- The fields that both ways of creation read from the request, in `m_currentTask`.
  unfoldable pub read_request : ℤ → Request F → TaskCtrl F → TaskCtrl F
  unfolding value_or
  read_request line_dir q c = record c {
    current_task = record c.current_task {
      line_dir = line_dir;
      line_name = value_or q.line_name [];
      start_station = value_or q.start_station [];
      start_pole = value_or q.start_pole [];
      end_station = value_or q.end_station [];
      sub_way_num = value_or q.train_number [];
      direction = value_or q.run_direction (pos 0);
      kilometer = value_or q.kilometer zero_km;
      create_time = c.task_row.created_time;
      taskstate = pos 0;
    };
    start_task_flag = true;
  }

  -- `m_currentTask` and `m_taskData` at the start of a task.
  unfoldable pub name_task : World → TaskInfo F → TaskInfo F
  name_task w t = record t {
    create_time = w.stamp;
    task_name =
        t.sub_way_num ++ underscore ++ w.stamp ++ underscore ++ t.line_name ++ underscore
        ++ t.start_station ++ underscore ++ t.end_station;
  }

  unfoldable pub row_of : World → TaskInfo F → TaskData
  row_of w t = record {
    task_name = t.task_name;
    line_name = t.line_name;
    direction = t.direction;
    start_station = t.start_station;
    start_pole = t.start_pole;
    end_station = t.end_station;
    created_time = w.created;
    updated_time = w.updated;
    line_dir = t.line_dir;
  }

  -- The result 0 is `true`.
  unfoldable pub start_task : World → TaskCtrl F → TaskCtrl F × Bool
  start_task w c =
      let t = name_task w c.current_task in
      let row = row_of w t in
      let c' : TaskCtrl F = record c {
        current_task = t;
        task_row = row;
        statements = c.statements ++ insert_task row ∷ [];
      } in
      let path = c.save_path ++ slash ++ w.day ++ slash ++ t.task_name in
      if w.folder path
      then (
        record c' {
          current_task = record t { task_save_path = path; task_id = w.search_id t.task_name };
        },
        true,
      )
      else (c', false)

  unfoldable pub stop_task : World → TaskCtrl F → TaskCtrl F
  unfolding clear
  stop_task w c = record c {
    current_task = clear c.current_task;
    start_task_flag = false;
    statements = c.statements ++ end_task w.ended c.current_task.task_id ∷ [];
  }

  -- The result and the task that is handed out, on failure the one that came in.
  abbrev pub finish : ℤ → TaskInfo F → TaskCtrl F × Bool → TaskCtrl F × ℤ × TaskInfo F
  finish failure t (c, true) = (c, pos 0, c.current_task)
  finish failure t (c, false) = (c, failure, t)

  unfoldable pub create_online_task :
      World → Request F → TaskInfo F → TaskCtrl F → TaskCtrl F × ℤ × TaskInfo F
  unfolding value_or
  create_online_task w q t c =
      let line_dir =
        if same_text (value_or q.line_direction minus_one) down_line then pos 0 else pos 1 in
      if c.start_task_flag
      then (c, negsuc 0, t)
      else finish (negsuc 1) t (start_task w (read_request line_dir q c))

  unfoldable pub create_test_task_data :
      World → Request F → TaskInfo F → TaskCtrl F → TaskCtrl F × ℤ × TaskInfo F
  unfolding value_or
  create_test_task_data w q t c =
      let line_dir =
        if same_text (value_or q.line_direction minus_one) up_line then pos 0 else pos 1 in
      finish (negsuc 0) t (start_task w (read_request line_dir q c))

  unfoldable pub create_task :
      World → Request F → TaskInfo F → TaskCtrl F → TaskCtrl F × ℤ × TaskInfo F
  unfolding value_or is_int
  create_task w q t c =
      let type = value_or q.task_type (pos 0) in
      let state = value_or q.task_state (pos 1) in
      if is_int state 0
      then if is_int type 1 then create_online_task w q t c else create_test_task_data w q t c
      else if is_int state 1
      then (let c' = stop_task w c in (c', pos 0, c'.current_task))
      else (c, pos 0, t)

  -- `recvMBLKData`: the tasks that are notified.
  unfoldable pub recv_mblk_data : World → Request F → TaskCtrl F → TaskCtrl F × List (TaskInfo F)
  unfolding is_int
  recv_mblk_data w q c =
      let (c', code, t) = create_task w q no_task c in (c', if is_int code 0 then t ∷ [] else [])
