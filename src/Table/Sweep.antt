-- ===== src/Table/Sweep.antt =====
-- The calls that go over all records: `com_util_hashtable_push_deleted`,
-- `com_util_hashtable_purge_deleted` and `com_util_hashtable_clear`.
use app_com_util.Base.{
  ℕ, zero, suc, ◌+◌, ◌-◌, not, ◌&&◌, Option, none, some, ltb, leb, ◌==◌, if◌then◌else◌,
}
use app_com_util.Base.Words.{add64, sub64}
use app_com_util.Layout.{◌>>=◌, lifetime_infinite}
use app_com_util.Timespec.{Timespec}
use app_com_util.Table.{Table, rec_empty, rec_deleted, entry, set_status, set_next, new_table}
use app_com_util.Table.Clock.{stamp_table}
use app_com_util.Table.Delete.{expire_record}
use app_com_util.Table.Put.{Link, head, next_of, read_link, write_link}

-- The inner loop of `hashtable_unlink_empty_chains`. Each round drops a record from the chain or
-- steps on, so a chain without a circle takes no more rounds than it has records.
unfoldable pub unlink_empty : ℕ → Table → Link → Option Table
unlink_empty zero t link = if read_link t link == 0 then some t else none
unlink_empty (suc fuel) t link =
    let rec = read_link t link - 1 in
    let dropped = unlink_empty fuel (set_next (write_link t link (entry t rec).next) rec 0) link in
    let further = unlink_empty fuel t (next_of rec) in
    if read_link t link == 0
    then some t
    else if (entry t rec).status == rec_empty
    then dropped
    else further

-- Its outer loop: `rounds` buckets from bucket `i` on.
unfoldable pub unlink_empty_from : ℕ → ℕ → Table → Option Table
unfolding unlink_empty
unlink_empty_from zero i t = some t
unlink_empty_from (suc rounds) i t =
    unlink_empty t.config.capacity t (head i) >>= unlink_empty_from rounds (i + 1)

-- `hashtable_unlink_empty_chains`
unfoldable pub unlink_empty_chains : Table → Option Table
unfolding unlink_empty_from
unlink_empty_chains t = unlink_empty_from t.config.capacity 0 t

-- The variables of the two loops: the table, `new_next_empty` and `expired_count`.
pub record Sweep : Type 0 where
  pub table : Table
  pub next_empty : ℕ
  pub expired : ℕ

-- The end of a round: the first empty record is noted.
abbrev pub note_empty : ℕ → Sweep → Sweep
note_empty i s = record s {
  next_empty =
      if (s.next_empty == 0) && ((entry s.table i).status == rec_empty)
      then i + 1
      else s.next_empty;
}

-- One round of `com_util_hashtable_push_deleted`. A status below 255 does not wrap.
unfoldable pub push_round : ℕ → Sweep → Sweep
unfolding expire_record
push_round i s =
    let status = (entry s.table i).status in
    let lifetime = s.table.config.lifetime in
    let aged = set_status s.table i (status + 1) in
    note_empty i (
      if leb rec_deleted status && ltb status lifetime_infinite
      then if leb lifetime (status + 1) && not (lifetime == lifetime_infinite)
        then record s { table = expire_record aged i; expired = add64 s.expired 1 }
        else record s { table = aged }
      else s)

-- One round of `com_util_hashtable_purge_deleted`.
unfoldable pub purge_round : ℕ → Sweep → Sweep
unfolding expire_record
purge_round i s = note_empty i (
    if leb rec_deleted (entry s.table i).status
    then record s { table = expire_record s.table i }
    else s)

-- `for (i = 0; i < capacity; i++)`: `rounds` are left from index `i` on.
unfoldable pub sweep : (ℕ → Sweep → Sweep) → ℕ → ℕ → Sweep → Sweep
sweep round zero i s = s
sweep round (suc rounds) i s = sweep round rounds (i + 1) (round i s)

abbrev pub start_sweep : Table → Sweep
start_sweep t = record { table = t; next_empty = 0; expired = 0 }

-- `com_util_hashtable_push_deleted`
unfoldable pub push_deleted : Table → Option Table
unfolding sweep push_round unlink_empty_chains
push_deleted t =
    let s = sweep push_round t.config.capacity 0 (start_sweep t) in
    unlink_empty_chains s.table >>= λ t'.
    some (record t' { next_empty = s.next_empty; deleted_count = sub64 t'.deleted_count s.expired })

-- `com_util_hashtable_purge_deleted`
unfoldable pub purge_deleted : Table → Option Table
unfolding sweep purge_round unlink_empty_chains
purge_deleted t =
    let s = sweep purge_round t.config.capacity 0 (start_sweep t) in
    unlink_empty_chains s.table >>= λ t'.
    some (record t' { next_empty = s.next_empty; deleted_count = 0 })

-- `com_util_hashtable_clear`: all behind the header is zero, as in a new table; the generation goes on.
unfoldable pub clear : Table → Timespec → Table
unfolding new_table stamp_table
clear t now =
    stamp_table
      (record (new_table t.config) {
        table_timestamp = t.table_timestamp;
        table_generation = t.table_generation;
      })
      now
