-- ===== src/Table/Direct.antt =====
-- `com_util_hashtable_insert_direct`, which fills a given empty record.
use app_com_util.Base.{
  ℕ, ◌+◌, ◌-◌, Bool, true, false, not, ◌&&◌, ◌||◌, Option, none, some, List, ltb, leb, ◌==◌,
  if◌then◌else◌, get_or, set, drop,
}
use app_com_util.Base.Int.{pos, ltb_ℤ}
use app_com_util.Base.Words.{add64}
use app_com_util.Layout.{◌>>=◌, lifetime_infinite}
use app_com_util.Field.{find_free, fixed_string_fits, key_fits}
use app_com_util.Status.{Status}
use app_com_util.Timespec.{Timespec, cmp}
use app_com_util.Table.{
  Table, Input, outside, rec_empty, rec_in_use, rec_deleted, entry, set_entry, set_status, set_next,
  has_record_timestamp, hash_key, find_key, first_empty,
}
use app_com_util.Table.Put.{key_store, value_store}

-- The record's time and generation are the given ones; those of the table follow if they are behind.
unfoldable pub stamp_given : Table → ℕ → Timespec → ℕ → Table
unfolding cmp
stamp_given t rec timestamp generation =
    let t' =
      set_entry t rec (record (entry t rec) { timestamp = timestamp; generation = generation }) in
    record t' {
      table_timestamp =
          if ltb_ℤ (pos 0) (cmp timestamp t.table_timestamp) then timestamp else t.table_timestamp;
      table_generation =
          if ltb t.table_generation generation then generation else t.table_generation;
    }

-- The branch for record timestamps, where the tests before it have seen a time.
unfoldable pub stamp_direct : Table → ℕ → Option Timespec → ℕ → Table
unfolding stamp_given
stamp_direct t rec none generation = t
stamp_direct t rec (some time) generation =
    if has_record_timestamp t then stamp_given t rec time generation else t

-- The writes, once all tests have passed.
unfoldable pub fill_direct : Table → ℕ → List ℕ → ℕ → List ℕ → ℕ → ℕ → Option Timespec → ℕ → Table
unfolding stamp_direct hash_key first_empty
fill_direct t rec key key_offset value value_offset status timestamp generation =
    let idx = hash_key t key in
    let t₁ =
      set_status (key_store (value_store t rec value value_offset) rec key key_offset) rec status in
    let t₂ = stamp_direct t₁ rec timestamp generation in
    let t₃ = set_next t₂ rec (get_or t₂.bucket_head idx 0) in
    let t₄ : Table = record t₃ { bucket_head = set t₃.bucket_head idx (rec + 1) } in
    let next_empty : ℕ =
      if t₄.next_empty == rec + 1
      then first_empty (rec + 1) (drop (rec + 1) t₄.entries)
      else t₄.next_empty in
    let t₅ : Table = record t₄ { next_empty = next_empty } in
    if status == rec_in_use
    then record t₅ { in_use_count = add64 t₅.in_use_count 1 }
    else record t₅ { deleted_count = add64 t₅.deleted_count 1 }

-- The search for the key and for room, and the writes.
unfoldable pub insert_at :
    Table → ℕ → List ℕ → ℕ → List ℕ → Option Timespec → ℕ → Option (Status × Table)
unfolding find_key fill_direct
insert_at t rec key status value timestamp generation = find_key t key >>= λ cur.
    if not (cur == 0)
    then some (Status.duplicate_key, t)
    else elim (find_free t.keys rec false key) [
      | none ↦ some (Status.storage_full, t)
      | some key_offset ↦ elim (find_free t.values rec false value) [
        | none ↦ some (Status.storage_full, t)
        | some value_offset ↦ some (
          Status.ok,
          fill_direct t rec key key_offset value value_offset status timestamp generation,
        )
      ]
    ]

-- The tests of the arguments behind those of the pointers.
unfoldable pub insert_direct_bytes :
    Table → ℕ → List ℕ → ℕ → List ℕ → Option Timespec → ℕ → Option (Status × Table)
unfolding insert_at
insert_direct_bytes t number key status value timestamp generation =
    let timed : Bool = elim timestamp [ none ↦ false | some _ ↦ true ] in
    if if has_record_timestamp t then not timed else timed || not (generation == 0)
    then some (Status.invalid_argument, t)
    else if ltb status rec_in_use || ltb lifetime_infinite status
    then some (Status.invalid_argument, t)
    else if not (key_fits t.keys key)
    then some (Status.out_of_range, t)
    else if not (fixed_string_fits t.values value)
    then some (Status.out_of_range, t)
    else if (number == 0) || ltb t.config.capacity number
    then some (Status.invalid_argument, t)
    else if leb rec_deleted status
        && not (t.config.lifetime == lifetime_infinite)
        && leb t.config.lifetime status
    then some (Status.skipped, t)
    else if not ((entry t (number - 1)).status == rec_empty)
    then some (Status.duplicate_definition, t)
    else insert_at t (number - 1) key status value timestamp generation

-- `com_util_hashtable_insert_direct`
unfoldable pub insert_direct :
    Table → ℕ → Input → ℕ → Input → Option Timespec → ℕ → Option (Status × Table)
unfolding insert_direct_bytes
insert_direct t number (outside key) status (outside value) timestamp generation =
    insert_direct_bytes t number key status value timestamp generation
insert_direct t number key status value timestamp generation = some (Status.invalid_argument, t)
