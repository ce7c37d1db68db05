-- ===== src/Table/Clock.antt =====
-- `stamp_record` and `stamp_table`. `now` is what `com_util_get_realtime` gives.
use app_com_util.Base.{ℕ, if◌then◌else◌}
use app_com_util.Base.Words.{add64}
use app_com_util.Timespec.{Timespec}
use app_com_util.Table.{Table, entry, set_entry, has_record_timestamp}

unfoldable pub stamp_record : Table → ℕ → Timespec → Table
stamp_record t rec now =
    let generation = add64 t.table_generation 1 in
    let stamped =
      if has_record_timestamp t
      then set_entry t rec (record (entry t rec) { timestamp = now; generation = generation })
      else t in
    record stamped { table_generation = generation; table_timestamp = now }

unfoldable pub stamp_table : Table → Timespec → Table
stamp_table t now = record t {
  table_timestamp = now;
  table_generation = add64 t.table_generation 1;
}
