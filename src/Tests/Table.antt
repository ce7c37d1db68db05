-- ===== src/Tests/Table.antt =====
-- Tables of three records at work.
use app_com_util.Arena.{arena_reset, free_block_adjoins, arena_find_fit, scan_fit}
use app_com_util.Base.{
  map, ℕ, ◌≡◌, ◌≢◌, refl, none, some, List, [], ◌∷◌, true, arith, drop, replicate,
}
use app_com_util.Base.Int.{pos}
use app_com_util.Bytes.{c_string, overwrite}
use app_com_util.Field.{Field, field_at, store, key_fits, find_free, fixed_string_fits}
use app_com_util.Field.Readback.{store-field_at_variable}
use app_com_util.Layout.{Config, ◌>>=◌, field_is_variable}
use app_com_util.Status.{Status}
use app_com_util.Timespec.{Timespec}
use app_com_util.Base.Words.{sub64}
use app_com_util.Table.Push.{pushed, push_sweep-CountsAgree}
use app_com_util.Table.Purge.{purged, purge_sweep-CountsAgree}
use app_com_util.Table.Tally.{empty, count_status-eq}
use app_com_util.Table.Statuses.{in_use, deleted}
use app_com_util.Table.Sweep.{sweep, purge_round, push_round, start_sweep}
use app_com_util.Table.{Table, Entry, outside, new_table, has_record_timestamp}
use app_com_util.Table.Put.{upsert, put_found, head, find_best_deleted_record}
use app_com_util.Table.Delete.{delete, delete_at, mark_deleted}
use app_com_util.Table.Query.{count_status, next_record, find_recno}
use app_com_util.Table.Counts.{CountsAgree, table_statuses, delete_at-CountsAgree}
use app_com_util.Table.Fills.{put_found-CountsAgree}
use app_com_util.Table.Next.{NextAnswer, next_record-IsNext}
use app_com_util.Table.Oldest.{IsOldest, find_best_deleted_record-IsOldest}

-- Keys of 4 bytes with their NUL, values of up to 16 bytes in all.
abbrev small_words : Config
small_words = record {
  capacity = 3;
  key_type = 1;
  value_type = 2;
  timestamp_scope = 1;
  key_size = 4;
  value_size = 0;
  key_storage_size = 0;
  value_storage_size = 16;
  value_align = 0;
  lifetime = 3;
  reuse_deleted = 1;
}

abbrev noon : Timespec
noon = record { tv_sec = pos 43200; tv_nsec = pos 0 }

abbrev record_of : ℕ → ℕ → Entry
record_of status generation = record {
  next = 0;
  status = status;
  timestamp = noon;
  generation = generation;
}

abbrev cat : List ℕ
cat = 99 ∷ 97 ∷ 116 ∷ 0 ∷ []

abbrev dog : List ℕ
dog = 100 ∷ 111 ∷ 103 ∷ 0 ∷ []

-- A record in use, a deleted one and an empty one.
abbrev mixed : Table
mixed = record (new_table small_words) {
  next_empty = 3;
  in_use_count = 1;
  deleted_count = 1;
  table_generation = 2;
  entries = record_of 1 1 ∷ record_of 2 2 ∷ record_of 0 0 ∷ [];
}

mixed-CountsAgree : CountsAgree mixed
unfolding new_table
mixed-CountsAgree = record {
  length_eq = refl;
  small = omega arith;
  in_use_eq = refl;
  deleted_eq = refl;
  next_empty_eq = refl;
}

words-are : (c_string cat ≡ 99 ∷ 97 ∷ 116 ∷ []) × (cat ≢ dog)
words-are = (refl, λ e. absurd (ground arith))

delete_at-CountsAgree_example : CountsAgree ((delete_at mixed (head 0) 0 noon).1)
delete_at-CountsAgree_example = delete_at-CountsAgree mixed (head 0) 0 noon mixed-CountsAgree

put_found-CountsAgree_example : CountsAgree ((put_found mixed 1 dog 0 true noon).table)
put_found-CountsAgree_example =
    put_found-CountsAgree mixed 1 dog 0 true noon mixed-CountsAgree (λ e. absurd (omega arith))

purge_sweep-CountsAgree_example :
    let s = sweep purge_round mixed.config.capacity 0 (start_sweep mixed) in
    (table_statuses s.table ≡ map purged (table_statuses mixed))
    × CountsAgree (record s.table { next_empty = s.next_empty; deleted_count = 0 })
purge_sweep-CountsAgree_example = purge_sweep-CountsAgree mixed mixed-CountsAgree

push_sweep-CountsAgree_example :
    let s = sweep push_round mixed.config.capacity 0 (start_sweep mixed) in
    (table_statuses s.table ≡ map (pushed mixed.config.lifetime) (table_statuses mixed))
    × CountsAgree (record s.table {
      next_empty = s.next_empty;
      deleted_count = sub64 s.table.deleted_count s.expired;
    })
push_sweep-CountsAgree_example = push_sweep-CountsAgree mixed mixed-CountsAgree

count_status-eq_example :
    count_status mixed
    ≡ (in_use (table_statuses mixed), deleted (table_statuses mixed), empty (table_statuses mixed))
count_status-eq_example = count_status-eq mixed mixed-CountsAgree

next_record-IsNext_example : NextAnswer 2 1 (drop 1 mixed.entries) (next_record mixed 1 2 true)
unfolding new_table
next_record-IsNext_example = next_record-IsNext mixed 1 2 (omega arith) (omega arith) (omega arith)

find_best_deleted_record-IsOldest_example :
    IsOldest (has_record_timestamp mixed) mixed.entries (find_best_deleted_record mixed none)
find_best_deleted_record-IsOldest_example = find_best_deleted_record-IsOldest mixed

-- A storage of 16 bytes in which record 1 holds the bytes 8 to 11.
abbrev values : Field
values = record {
  type = 2;
  size = 0;
  storage_size = 16;
  slots = [];
  refs =
      record { offset = 0; length = 0 }
      ∷ record { offset = 8; length = 4 }
      ∷ record { offset = 0; length = 0 }
      ∷ [];
  free = record { offset = 0; length = 8 } ∷ record { offset = 12; length = 4 } ∷ [];
  storage = 0 ∷ 0 ∷ 0 ∷ 0 ∷ 0 ∷ 0 ∷ 0 ∷ 0 ∷ 100 ∷ 111 ∷ 103 ∷ 0 ∷ 0 ∷ 0 ∷ 0 ∷ 0 ∷ [];
  used = 4;
}

abbrev slots_of_four : Field
slots_of_four = record {
  type = 1;
  size = 4;
  storage_size = 0;
  slots = replicate 3 (replicate 4 0);
  refs = [];
  free = [];
  storage = [];
  used = 0;
}

store-field_at_variable_example : c_string (field_at (store values 0 cat 12) 0) ≡ c_string cat
store-field_at_variable_example =
    store-field_at_variable values 0 cat 12 refl (omega arith) (omega arith) (omega arith)

-- A key put into a new table is found as its first record, and no longer once it is deleted.
put_and_found :
    (upsert (new_table small_words) (outside cat) (outside dog) noon >>= λ r.
    find_recno r.table (outside cat) true)
    ≡ some (Status.ok, some 1)
unfolding upsert key_fits new_table field_is_variable fixed_string_fits find_free arena_find_fit
    scan_fit arena_reset free_block_adjoins find_recno store overwrite
put_and_found = refl

put_and_deleted :
    (upsert (new_table small_words) (outside cat) (outside dog) noon >>= λ r.
    delete r.table (outside cat) noon >>= λ d. find_recno d.1 (outside cat) true)
    ≡ some (Status.not_found, none)
unfolding upsert key_fits new_table field_is_variable fixed_string_fits find_free arena_find_fit
    scan_fit arena_reset free_block_adjoins delete store overwrite find_recno mark_deleted
put_and_deleted = refl
