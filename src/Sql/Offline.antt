-- ===== src/Sql/Offline.antt =====
-- modules/radar_offline/OfflineSqlOp.cpp: the reads of the offline evaluation. Each runs one query and
-- asks a second, new one for the rows. GetTimeRange, which takes the first row that its second query
-- does not have, is left out.
pub mod Reads
use infinity_station.Base.{ℕ, Bool, true, false, List, [], ◌∷◌, if◌then◌else◌}
use infinity_station.Base.Text.{codes}
use infinity_station.Sql.{equal, less_equal, greater_equal, and_also}
use infinity_station.Sql.Select.{
  SqlSelect, new_select, select, add_where, paginate, exec, get_results,
}

pub data OfflineRead (V : Type 0) : Type 0 where
  overrun_by_task : V → OfflineRead V
  location_by_id : V → OfflineRead V
  data_by_time : V → ℕ → OfflineRead V
  data_by_time_range : V → V → ℕ → OfflineRead V
  task_table : OfflineRead V
  location_by_time : V → ℕ → OfflineRead V
  overrun_by_time : V → ℕ → OfflineRead V

module _ {V : Type 0} where
  unfoldable pub table_of : OfflineRead V → List ℕ
  table_of (overrun_by_task id) = codes "radar_over_data"
  table_of (location_by_id id) = codes "location_data"
  table_of (data_by_time time range) = codes "radar_data"
  table_of (data_by_time_range from to range) = codes "radar_data"
  table_of task_table = codes "task_data"
  table_of (location_by_time time range) = codes "location_data"
  table_of (overrun_by_time time range) = codes "radar_over_data"

  -- The rows from a time on.
  unfoldable pub since : V → ℕ → SqlSelect V
  unfolding new_select select add_where paginate
  since time range =
      paginate 1 range
        (add_where (codes "created_time") greater_equal time and_also (select [] new_select))

  unfoldable pub query_of : OfflineRead V → SqlSelect V
  unfolding new_select select add_where paginate since
  query_of (overrun_by_task id) =
      add_where (codes "task_id") equal id and_also (select [] new_select)
  query_of (location_by_id id) =
      paginate 1 1 (add_where (codes "id") equal id and_also (select [] new_select))
  query_of (data_by_time time range) = since time range
  query_of (data_by_time_range from to range) = paginate 1 range (
      add_where (codes "created_time") less_equal to and_also
        (add_where (codes "created_time") greater_equal from and_also (select [] new_select)))
  query_of task_table = select [] new_select
  query_of (location_by_time time range) = since time range
  query_of (overrun_by_time time range) = since time range

  unfoldable pub read_rows {ℓ} : {R : Type ℓ} → Bool → Bool → List R → OfflineRead V → List R
  unfolding table_of query_of exec get_results new_select
  read_rows prepared ran found r =
      if (exec (table_of r) prepared ran (query_of r)).1
      then get_results found (new_select {V = V})
      else []
