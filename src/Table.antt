-- ===== src/Table.antt =====
-- The records, buckets and chains of prod/libsrc/com_util/hashtable/hashtable.c.
-- The state is what the management area and the value area hold: the settings and counters of the
-- header, the bucket heads, one entry for each record, and the fields of keys and values. Records are
-- numbered from 1 in links and from 0 in the arrays, as in the source.
-- A loop along a chain has the capacity as its fuel: a chain without a circle has no more records.
-- The result `none` of a function that walks a chain says that the walk does not end.
pub mod Clock
pub mod Put
pub mod Direct
pub mod Delete
pub mod Sweep
pub mod Query
pub mod Resize
pub mod Statuses
pub mod Counts
pub mod Fills
pub mod Fresh
pub mod Swept
pub mod Purge
pub mod Push
pub mod Tally
pub mod Next
pub mod Oldest
pub mod Chain
pub mod Linked
pub mod Shape
pub mod Valid
pub mod Deleted
pub mod Filled
pub mod Written
pub mod Revived
pub mod Answers
pub mod Placed
pub mod Evicted
pub mod Refilled
pub mod Refined
pub mod Created
pub mod Found
pub mod Occupied
pub mod Inserted
pub mod Reached
use app_com_util.Base.{
  ℕ, zero, suc, ◌+◌, ◌-◌, ◌%◌, Bool, true, false, not, ◌&&◌, ◌||◌, Option, none, some, List, [],
  ◌∷◌, ltb, leb, ◌==◌, if◌then◌else◌, get_or, set, take, replicate, length,
}
use app_com_util.Base.Words.{add64, mul64}
use app_com_util.Bytes.{c_string, bytes_equal}
use app_com_util.Layout.{Config, fixed_binary, scope_record}
use app_com_util.Field.{Field, field_at, new_field}
use app_com_util.Timespec.{Timespec}
use app_com_util.Base.Int.{pos}

-- One element of the entry array without its key.
pub record Entry : Type 0 where
  pub next : ℕ
  pub status : ℕ
  pub timestamp : Timespec
  pub generation : ℕ

pub record Table : Type 0 where
  pub config : Config
  pub next_empty : ℕ
  pub in_use_count : ℕ
  pub deleted_count : ℕ
  pub table_timestamp : Timespec
  pub table_generation : ℕ
  pub bucket_head : List ℕ
  pub entries : List Entry
  pub keys : Field
  pub values : Field

-- `REC_EMPTY`, `REC_IN_USE` and `REC_DELETED`: from 2 on a record is deleted, and the number is its age.
abbrev pub rec_empty : ℕ
rec_empty = 0

abbrev pub rec_in_use : ℕ
rec_in_use = 1

abbrev pub rec_deleted : ℕ
rec_deleted = 2

abbrev pub no_time : Timespec
no_time = record { tv_sec = pos 0; tv_nsec = pos 0 }

abbrev pub empty_entry : Entry
empty_entry = record { next = 0; status = rec_empty; timestamp = no_time; generation = 0 }

-- `*hashtable_entry_status(ht, rec)` and its kin.
abbrev pub entry : Table → ℕ → Entry
entry t rec = get_or t.entries rec empty_entry

abbrev pub set_entry : Table → ℕ → Entry → Table
set_entry t rec e = record t { entries = set t.entries rec e }

abbrev pub set_status : Table → ℕ → ℕ → Table
set_status t rec status = set_entry t rec (record (entry t rec) { status = status })

abbrev pub set_next : Table → ℕ → ℕ → Table
set_next t rec next = set_entry t rec (record (entry t rec) { next = next })

-- `hashtable_has_record_timestamp`
abbrev pub has_record_timestamp : Table → Bool
has_record_timestamp t = t.config.timestamp_scope == scope_record

-- The loop of `hash_key`: `hash * 33 + c` at 64 bits.
abbrev pub hash_bytes : ℕ → List ℕ → ℕ
hash_bytes hash [] = hash
hash_bytes hash (c ∷ cs) = hash_bytes (add64 (add64 (mul64 hash 32) hash) c) cs

-- `hash_key`
unfoldable pub hash_key : Table → List ℕ → ℕ
hash_key t key =
    hash_bytes 5381
      (if not (t.config.key_type == fixed_binary) then c_string key else take t.config.key_size key)
    % t.config.capacity

-- `key_equal`
unfoldable pub key_equal : Table → List ℕ → List ℕ → Bool
key_equal t stored key =
    if not (t.config.key_type == fixed_binary)
    then bytes_equal (c_string stored) (c_string key)
    else bytes_equal (take t.config.key_size stored) (take t.config.key_size key)

-- The loop `while (cur != 0)` that looks for a key: `some 0` is its end without a match, any other
-- `some` the record that matches.
unfoldable pub chain_find : ℕ → Table → List ℕ → ℕ → Option ℕ
unfolding key_equal field_at
chain_find zero t key cur = if cur == 0 then some 0 else none
chain_find (suc fuel) t key cur =
    let further = chain_find fuel t key (entry t (cur - 1)).next in
    if cur == 0
    then some 0
    else if key_equal t (field_at t.keys (cur - 1)) key
    then some cur
    else further

-- The search from the head of the key's bucket.
unfoldable pub find_key : Table → List ℕ → Option ℕ
unfolding hash_key chain_find
find_key t key = chain_find t.config.capacity t key (get_or t.bucket_head (hash_key t key) 0)

-- A pointer argument: null, into one of the table's areas (`input_points_into_table`), or elsewhere;
-- with the bytes that can be read there.
pub data Input : Type 0 where
  null : Input
  inside : List ℕ → Input
  outside : List ℕ → Input

-- The table that `com_util_hashtable_create` makes of accepted settings.
unfoldable pub new_table : Config → Table
unfolding new_field
new_table c = record {
  config = c;
  next_empty = 1;
  in_use_count = 0;
  deleted_count = 0;
  table_timestamp = no_time;
  table_generation = 0;
  bucket_head = replicate c.capacity 0;
  entries = replicate c.capacity empty_entry;
  keys = new_field c.capacity c.key_type c.key_size c.key_storage_size;
  values = new_field c.capacity c.value_type c.value_size c.value_storage_size;
}

-- The loop of `scan_next_empty` over the entries from index `i` on.
unfoldable pub first_empty : ℕ → List Entry → ℕ
first_empty i [] = 0
first_empty i (e ∷ es) =
    let further = first_empty (i + 1) es in if e.status == rec_empty then i + 1 else further
