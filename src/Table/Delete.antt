-- ===== src/Table/Delete.antt =====
-- `hashtable_expire_record`, `com_util_hashtable_delete` and `com_util_hashtable_delete_rec`.
use app_com_util.Base.{
  ℕ, zero, suc, ◌+◌, ◌-◌, not, ◌||◌, Option, none, some, List, ltb, leb, ◌==◌, if◌then◌else◌,
}
use app_com_util.Base.Words.{add64, sub64}
use app_com_util.Layout.{◌>>=◌}
use app_com_util.Field.{field_at, key_fits}
use app_com_util.Status.{Status}
use app_com_util.Timespec.{Timespec}
use app_com_util.Table.{
  Table, Input, null, inside, outside, rec_empty, rec_in_use, rec_deleted, no_time, entry,
  set_entry, set_status, set_next, has_record_timestamp, key_equal, hash_key,
}
use app_com_util.Table.Clock.{stamp_record}
use app_com_util.Table.Put.{Link, head, next_of, read_link, write_link, release_key, release_value}

-- `hashtable_expire_record`
unfoldable pub expire_record : Table → ℕ → Table
expire_record t rec =
    let t' = release_key (release_value (set_status t rec rec_empty) rec) rec in
    if has_record_timestamp t'
    then set_entry t' rec (record (entry t' rec) { timestamp = no_time; generation = 0 })
    else t'

-- The loop of `com_util_hashtable_delete` as far as the match: the link that names the record of the
-- key, and the record's number; `some none` if no record of the chain has the key.
unfoldable pub find_link : ℕ → Table → List ℕ → Link → Option (Option (Link × ℕ))
unfolding key_equal field_at
find_link zero t key link = if read_link t link == 0 then some none else none
find_link (suc fuel) t key link =
    let cur = read_link t link in
    let further = find_link fuel t key (next_of (cur - 1)) in
    if cur == 0
    then some none
    else if key_equal t (field_at t.keys (cur - 1)) key
    then some (some (link, cur))
    else further

-- The record's status, time and count, in the body of the match.
unfoldable pub mark_deleted : Table → ℕ → Timespec → Table
mark_deleted t rec now =
    let t' = stamp_record (set_status t rec rec_deleted) rec now in
    record t' { in_use_count = sub64 t'.in_use_count 1 }

-- `*link = *hashtable_entry_next(ht, rec); *hashtable_entry_next(ht, rec) = 0;`
unfoldable pub cut_record : Table → Link → ℕ → Table
cut_record t link rec = set_next (write_link t link (entry t rec).next) rec 0

-- `next_empty` once the record is empty.
unfoldable pub lower_next_empty : Table → ℕ → Table
lower_next_empty t rec = record t {
  next_empty = if (t.next_empty == 0) || ltb (rec + 1) t.next_empty then rec + 1 else t.next_empty;
}

-- A lifetime of 2 empties the record at once.
unfoldable pub drop_record : Table → Link → ℕ → Table
drop_record t link rec = lower_next_empty (cut_record (expire_record t rec) link rec) rec

-- The body of the match.
unfoldable pub delete_at : Table → Link → ℕ → Timespec → Status × Table
delete_at t link rec now =
    let marked = mark_deleted t rec now in
    if not ((entry t rec).status == rec_in_use)
    then (Status.not_found, t)
    else if leb marked.config.lifetime rec_deleted
    then (Status.ok, drop_record marked link rec)
    else (Status.ok, record marked { deleted_count = add64 marked.deleted_count 1 })

unfoldable pub delete_bytes : Table → List ℕ → Timespec → Option (Status × Table)
unfolding find_link delete_at hash_key
delete_bytes t key now =
    if not (key_fits t.keys key)
    then some (Status.out_of_range, t)
    else (find_link t.config.capacity t key (head (hash_key t key)) >>= elim [
      | none ↦ some (Status.not_found, t)
      | some (link, cur) ↦ some (delete_at t link (cur - 1) now)
    ])

-- `com_util_hashtable_delete`
unfoldable pub delete : Table → Input → Timespec → Option (Status × Table)
unfolding delete_bytes
delete t null now = some (Status.invalid_argument, t)
delete t (inside key) now = delete_bytes t key now
delete t (outside key) now = delete_bytes t key now

-- `com_util_hashtable_delete_rec`
unfoldable pub delete_rec : Table → ℕ → Timespec → Option (Status × Table)
unfolding delete_bytes field_at
delete_rec t number now =
    if (number == 0) || ltb t.config.capacity number
    then some (Status.invalid_argument, t)
    else if not ((entry t (number - 1)).status == rec_in_use)
    then some (Status.not_found, t)
    else delete t (inside (field_at t.keys (number - 1))) now
