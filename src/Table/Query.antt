-- ===== src/Table/Query.antt =====
-- The functions that read a table. What is written through a pointer comes with the status; the flag
-- `wanted` of an argument says that the pointer is not null.
use Prim.Native.Nat.{bit_and}
use app_com_util.Base.{
  ℕ, ◌+◌, ◌-◌, Bool, true, not, ◌&&◌, ◌||◌, Option, none, some, List, [], ◌∷◌, ltb, ◌==◌,
  if◌then◌else◌, take, drop,
}
use app_com_util.Base.Words.{sub64}
use app_com_util.Layout.{◌>>=◌}
use app_com_util.Field.{field_at, key_fits, stored_size}
use app_com_util.Status.{Status}
use app_com_util.Timespec.{Timespec}
use app_com_util.Table.{
  Table, Entry, Input, null, inside, outside, rec_empty, rec_in_use, entry, has_record_timestamp,
  find_key,
}

-- A status, with what was written if the call wrote it.
abbrev pub Answer : Type 0 → Type 0
Answer A = Status × Option A

abbrev pub input_bytes : Input → Option (List ℕ)
input_bytes null = none
input_bytes (inside bytes) = some bytes
input_bytes (outside bytes) = some bytes

-- `com_util_hashtable_find_recno` behind its tests of the pointers.
unfoldable pub find_recno_bytes : Table → List ℕ → Option (Answer ℕ)
unfolding find_key
find_recno_bytes t key =
    if not (key_fits t.keys key)
    then some (Status.out_of_range, none)
    else (find_key t key >>= λ cur.
        if (cur == 0) || not ((entry t (cur - 1)).status == rec_in_use)
        then some (Status.not_found, none)
        else some (Status.ok, some cur))

-- `com_util_hashtable_find_recno`
unfoldable pub find_recno : Table → Input → Bool → Option (Answer ℕ)
unfolding find_recno_bytes
find_recno t key wanted = elim (input_bytes key) [
  | none ↦ some (Status.invalid_argument, none)
  | some bytes ↦
      if not wanted then some (Status.invalid_argument, none) else find_recno_bytes t bytes
]

-- The search of `com_util_hashtable_find_value_ref`, `_find_timestamp_ref` and `_find_generation`,
-- which have the loop of `find_recno` and answer with something of the record.
abbrev pub answer_record : {A : Type 0} → (ℕ → A) → Answer ℕ → Answer A
answer_record f (s, none) = (s, none)
answer_record f (s, some cur) = (s, some (f (cur - 1)))

-- `com_util_hashtable_find_value_ref`
unfoldable pub find_value_ref : Table → Input → Bool → Option (Answer (List ℕ))
unfolding find_recno field_at
find_value_ref t key wanted =
    find_recno t key wanted >>= λ r. some (answer_record (field_at t.values) r)

-- A search that only a table with a time for each record answers.
abbrev pub timed_search : {A : Type 0} → (ℕ → A) → Table → Input → Bool → Option (Answer A)
timed_search f t key wanted = elim (input_bytes key) [
  | none ↦ some (Status.invalid_argument, none)
  | some bytes ↦
      if not wanted
      then some (Status.invalid_argument, none)
      else if not (has_record_timestamp t)
      then some (Status.unsupported, none)
      else (find_recno_bytes t bytes >>= λ r. some (answer_record f r))
]

-- `com_util_hashtable_find_timestamp_ref`
unfoldable pub find_timestamp_ref : Table → Input → Bool → Option (Answer Timespec)
unfolding find_recno_bytes
find_timestamp_ref t = timed_search (λ rec. (entry t rec).timestamp) t

-- `com_util_hashtable_find_generation`
unfoldable pub find_generation : Table → Input → Bool → Option (Answer ℕ)
unfolding find_recno_bytes
find_generation t = timed_search (λ rec. (entry t rec).generation) t

-- The destination of a copy: its bytes before the call, if it is not null. `dest_size` is given apart.
-- `copy_arguments_are_valid`
unfoldable pub copy_arguments_are_valid : Option (List ℕ) → ℕ → Bool → Bool
copy_arguments_are_valid dest dest_size wanted =
    wanted && (elim dest [ none ↦ dest_size == 0 | some _ ↦ not (dest_size == 0) ])

-- `copy_field`: the status, `*required_size_out` if it was written, and the bytes copied to `dest`.
unfoldable pub copy_field :
    List ℕ → ℕ → Option (List ℕ) → ℕ → Bool → Status × Option ℕ × Option (List ℕ)
copy_field src required_size none dest_size wanted =
    if not wanted || not (dest_size == 0)
    then (Status.invalid_argument, none, none)
    else (Status.ok, some required_size, none)
copy_field src required_size (some dest) dest_size wanted =
    if not wanted || (dest_size == 0)
    then (Status.invalid_argument, none, none)
    else if ltb dest_size required_size
    then (Status.buffer_too_small, some required_size, none)
    else (Status.ok, some required_size, some (take required_size src))

-- `com_util_hashtable_find_value_copy`
unfoldable pub find_value_copy :
    Table → Input → Option (List ℕ) → ℕ → Bool → Option (Status × Option ℕ × Option (List ℕ))
unfolding find_recno copy_arguments_are_valid copy_field field_at stored_size
find_value_copy t key dest dest_size wanted =
    if not (copy_arguments_are_valid dest dest_size wanted)
    then some (Status.invalid_argument, none, none)
    else (find_recno t key true >>= λ r. elim r.1 [
      | none ↦ some (r.0, none, none)
      | some cur ↦ some (
          copy_field (field_at t.values (cur - 1)) (stored_size t.values (cur - 1)) dest dest_size
            wanted)
    ])

-- The tests of a record's number and status that the `get_` functions share.
abbrev pub get_record : {A : Type 0} → (ℕ → A) → Table → ℕ → Answer A
get_record f t number =
    if (number == 0) || ltb t.config.capacity number
    then (Status.invalid_argument, none)
    else if (entry t (number - 1)).status == rec_empty
    then (Status.not_found, none)
    else (Status.ok, some (f (number - 1)))

-- `com_util_hashtable_get_key_ref`
unfoldable pub get_key_ref : Table → ℕ → Bool → Answer (List ℕ)
unfolding field_at
get_key_ref t number wanted =
    if not wanted then (Status.invalid_argument, none) else get_record (field_at t.keys) t number

-- `com_util_hashtable_get_value_ref`
unfoldable pub get_value_ref : Table → ℕ → Bool → Answer (List ℕ)
unfolding field_at
get_value_ref t number wanted =
    if not wanted then (Status.invalid_argument, none) else get_record (field_at t.values) t number

-- `com_util_hashtable_get_timestamp_ref`
unfoldable pub get_timestamp_ref : Table → ℕ → Bool → Answer Timespec
get_timestamp_ref t number wanted =
    if not wanted
    then (Status.invalid_argument, none)
    else if not (has_record_timestamp t)
    then (Status.unsupported, none)
    else get_record (λ rec. (entry t rec).timestamp) t number

-- `com_util_hashtable_get_generation`
unfoldable pub get_generation : Table → ℕ → Bool → Answer ℕ
get_generation t number wanted =
    if not wanted
    then (Status.invalid_argument, none)
    else if not (has_record_timestamp t)
    then (Status.unsupported, none)
    else get_record (λ rec. (entry t rec).generation) t number

-- `com_util_hashtable_get_status`
unfoldable pub get_status : Table → ℕ → Bool → Answer ℕ
get_status t number wanted =
    if not wanted
    then (Status.invalid_argument, none)
    else if (number == 0) || ltb t.config.capacity number
    then (Status.invalid_argument, none)
    else (Status.ok, some (entry t (number - 1)).status)

-- The bit of a status: `SCAN_EMPTY`, `SCAN_IN_USE` or `SCAN_DELETED`.
abbrev pub status_bit : ℕ → ℕ
status_bit status = if status == rec_empty then 4 else if status == rec_in_use then 1 else 2

-- The loop of `com_util_hashtable_next_record` over the entries from index `i` on.
unfoldable pub next_from : ℕ → ℕ → List Entry → Option ℕ
next_from mask i [] = none
next_from mask i (e ∷ es) =
    let further = next_from mask (i + 1) es in
    if not (bit_and mask (status_bit e.status) == 0) then some (i + 1) else further

-- `com_util_hashtable_next_record`; a mask has 32 bits, and `~known_bits` all but the lowest three.
-- `some none` is `*has_record_out == 0`.
unfoldable pub next_record : Table → ℕ → ℕ → Bool → Answer (Option ℕ)
unfolding next_from
next_record t from mask wanted =
    if not wanted
    then (Status.invalid_argument, none)
    else if (mask == 0) || not (bit_and mask 0xfffffff8 == 0)
    then (Status.invalid_argument, none)
    else if ltb t.config.capacity from
    then (Status.invalid_argument, none)
    else (Status.ok, some (next_from mask from (drop from t.entries)))

-- `com_util_hashtable_count_status`: the numbers of records in use, deleted and empty.
unfoldable pub count_status : Table → ℕ × ℕ × ℕ
count_status t = (
  t.in_use_count,
  t.deleted_count,
  sub64 (sub64 t.config.capacity t.in_use_count) t.deleted_count,
)
