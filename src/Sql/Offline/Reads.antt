-- ===== src/Sql/Offline/Reads.antt =====
-- What the reads of OfflineSqlOp.cpp give.
use infinity_station.Base.{◌≡◌, refl, Bool, List, [], Bool-cases, inl, inr}
use infinity_station.Sql.Select.{new_select, exec, get_results}
use infinity_station.Sql.Offline.{OfflineRead, table_of, query_of, read_rows}

module _ {V : Type 0} where
  -- Whatever the data base answers and finds, every read gives no row.
  pub read_rows-empty {ℓ} :
      {R : Type ℓ} (prepared ran : Bool) (found : List R) (r : OfflineRead V)
      → read_rows prepared ran found r ≡ []
  unfolding read_rows get_results new_select
  read_rows-empty prepared ran found r =
      elim (Bool-cases (exec (table_of r) prepared ran (query_of r)).1) [
        | inl t ↦ rw t refl
        | inr f ↦ rw f refl
      ]
