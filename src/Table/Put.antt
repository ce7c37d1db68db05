-- ===== src/Table/Put.antt =====
-- `hashtable_put` with `com_util_hashtable_add` and `com_util_hashtable_upsert`, and the two updates.
-- The functions take a table that is not null.
use app_com_util.Base.{
  ℕ, zero, suc, ◌+◌, ◌-◌, Bool, true, false, not, ◌&&◌, ◌||◌, Option, none, some, List, [], ◌∷◌,
  ltb, ◌==◌, if◌then◌else◌, get_or, set, drop,
}
use app_com_util.Base.Words.{add64, sub64}
use app_com_util.Layout.{◌>>=◌}
use app_com_util.Field.{field_at, find_free, release, store, fixed_string_fits, key_fits}
use app_com_util.Status.{Status}
use app_com_util.Timespec.{Timespec}
use app_com_util.Table.{
  Table, Entry, Input, inside, outside, rec_empty, rec_in_use, rec_deleted, entry, set_status,
  set_next, has_record_timestamp, hash_key, find_key, first_empty,
}
use app_com_util.Table.Clock.{stamp_record}

-- What a call leaves: its status, what it wrote to `inserted_out`, and the table.
pub record Reply : Type 0 where
  pub status : Status
  pub inserted : Option Bool
  pub table : Table

abbrev pub refuse : Status → Table → Reply
refuse s t = record { status = s; inserted = none; table = t }

abbrev pub accept : Bool → Table → Reply
accept inserted t = record { status = Status.ok; inserted = some inserted; table = t }

-- The best record so far in `hashtable_find_best_deleted_record`: `found`, `best_rec`, `best_status`
-- and `best_generation`.
pub record Best : Type 0 where
  pub rec : ℕ
  pub status : ℕ
  pub generation : ℕ

-- The ladder that sets `better`.
unfoldable pub is_better : Bool → Option Best → Entry → Bool
is_better timed none e = true
is_better timed (some b) e =
    ltb b.status e.status || ((e.status == b.status) && timed && ltb e.generation b.generation)

-- Its loop from index `i` on. `keep` is `none` for a null pointer, else the marks from index `i` on.
unfoldable pub best_from : Bool → ℕ → Option (List Bool) → Option Best → List Entry → Option Best
unfolding is_better
best_from timed i keep best [] = best
best_from timed i keep best (e ∷ es) =
    let kept : Bool = elim keep [ none ↦ true | some ks ↦ get_or ks 0 false ] in
    let keep' : Option (List Bool) = elim keep [ none ↦ none | some ks ↦ some (drop 1 ks) ] in
    let here : Best = record {
      rec = i;
      status = e.status;
      generation = if timed then e.generation else 0;
    } in
    best_from timed (i + 1) keep'
      (if ltb e.status rec_deleted
        then best
        else if not kept
        then best
        else if is_better timed best e
        then some here
        else best)
      es

-- `found ? best_rec + 1 : 0`
abbrev pub best_number : Option Best → ℕ
best_number none = 0
best_number (some b) = b.rec + 1

-- `hashtable_find_best_deleted_record`
unfoldable pub find_best_deleted_record : Table → Option (List Bool) → ℕ
unfolding best_from
find_best_deleted_record t keep =
    best_number (best_from (has_record_timestamp t) 0 keep none t.entries)

-- `*link` and `*link = …`: a link is a bucket head or the `next` of a record.
pub data Link : Type 0 where
  head : ℕ → Link
  next_of : ℕ → Link

abbrev pub read_link : Table → Link → ℕ
read_link t (head idx) = get_or t.bucket_head idx 0
read_link t (next_of rec) = (entry t rec).next

abbrev pub write_link : Table → Link → ℕ → Table
write_link t (head idx) cur = record t { bucket_head = set t.bucket_head idx cur }
write_link t (next_of rec) cur = set_next t rec cur

-- The loop of `hashtable_unlink_record`.
unfoldable pub unlink_from : ℕ → Table → ℕ → Link → Option Table
unlink_from zero t rec link = if read_link t link == 0 then some t else none
unlink_from (suc fuel) t rec link =
    let further = unlink_from fuel t rec (next_of (read_link t link - 1)) in
    if read_link t link == 0
    then some t
    else if read_link t link == rec + 1
    then some (set_next (write_link t link (entry t rec).next) rec 0)
    else further

-- `hashtable_unlink_record`
unfoldable pub unlink_record : Table → ℕ → Option Table
unfolding unlink_from hash_key field_at
unlink_record t rec = unlink_from t.config.capacity t rec (head (hash_key t (field_at t.keys rec)))

abbrev pub release_key : Table → ℕ → Table
release_key t rec = record t { keys = release t.keys rec }

abbrev pub release_value : Table → ℕ → Table
release_value t rec = record t { values = release t.values rec }

abbrev pub key_store : Table → ℕ → List ℕ → ℕ → Table
key_store t rec key offset = record t { keys = store t.keys rec key offset }

abbrev pub value_store : Table → ℕ → List ℕ → ℕ → Table
value_store t rec value offset = record t { values = store t.values rec value offset }

-- The value of a record is replaced: the steps that the updates share.
unfoldable pub replace_value : Table → ℕ → List ℕ → Option Table
replace_value t rec value = elim (find_free t.values rec true value) [
  | none ↦ none
  | some offset ↦ some (value_store (release_value t rec) rec value offset)
]

-- A deleted record of the key comes back.
unfoldable pub revive : Table → ℕ → Timespec → Table
unfolding stamp_record
revive t rec now =
    let t' = stamp_record (set_status t rec rec_in_use) rec now in
    record t' { deleted_count = sub64 t'.deleted_count 1; in_use_count = add64 t'.in_use_count 1 }

-- `hashtable_put` where the key was found. The policy 0 is `ADD_DELETED_OVERWRITE`.
unfoldable pub put_found : Table → ℕ → List ℕ → ℕ → Bool → Timespec → Reply
unfolding replace_value revive stamp_record
put_found t rec value policy allow_update now =
    if (entry t rec).status == rec_in_use
    then if not allow_update
      then refuse Status.duplicate_key t
      else elim (replace_value t rec value) [
        | none ↦ refuse Status.storage_full t
        | some t' ↦ accept false (stamp_record t' rec now)
      ]
    else if policy == 0
    then elim (replace_value t rec value) [
      | none ↦ refuse Status.storage_full t
      | some t' ↦ accept true (revive t' rec now)
    ]
    else accept true (revive t rec now)

-- A deleted record makes room: it leaves its chain and gives back its key and its value.
unfoldable pub evict : Table → ℕ → Option Table
unfolding unlink_record
evict t rec = do
  t' ← unlink_record t rec
  some
      (release_value (release_key (record t' { deleted_count = sub64 t'.deleted_count 1 }) rec) rec)

-- The record is filled and put at the head of bucket `idx`.
unfoldable pub fill : Table → ℕ → ℕ → List ℕ → ℕ → List ℕ → ℕ → Timespec → Table
unfolding stamp_record first_empty
fill t rec idx key key_offset value value_offset now =
    let t₁ = set_status (value_store t rec value value_offset) rec rec_in_use in
    let t₂ = stamp_record (key_store t₁ rec key key_offset) rec now in
    let t₃ = set_next t₂ rec (get_or t₂.bucket_head idx 0) in
    let t₄ : Table = record t₃ { bucket_head = set t₃.bucket_head idx (rec + 1) } in
    let next_empty : ℕ =
      if rec + 1 == t₄.next_empty
      then first_empty (rec + 1) (drop (rec + 1) t₄.entries)
      else t₄.next_empty in
    record t₄ { next_empty = next_empty; in_use_count = add64 t₄.in_use_count 1 }

-- The record that `hashtable_put` takes for a new key: 0 if there is none.
unfoldable pub free_record : Table → ℕ
unfolding find_best_deleted_record
free_record t =
    if (t.next_empty == 0) && not (t.config.reuse_deleted == 0)
    then find_best_deleted_record t none
    else t.next_empty

-- `hashtable_put` where no record of the chain has the key.
unfoldable pub put_new : Table → List ℕ → List ℕ → Timespec → Option Reply
unfolding free_record evict fill hash_key
put_new t key value now =
    let rec_no = free_record t in
    let rec = rec_no - 1 in
    let occupied = not ((entry t rec).status == rec_empty) in
    if rec_no == 0
    then some (refuse Status.limit_exceeded t)
    else elim (find_free t.keys rec occupied key) [
      | none ↦ some (refuse Status.storage_full t)
      | some key_offset ↦ elim (find_free t.values rec occupied value) [
        | none ↦ some (refuse Status.storage_full t)
        | some value_offset ↦ do
          t' ← if occupied then evict t rec else some t
          some (accept true (fill t' rec (hash_key t key) key key_offset value value_offset now))
      ]
    ]

-- `hashtable_put` behind its tests of the pointers.
unfoldable pub put_bytes : Table → List ℕ → List ℕ → ℕ → Bool → Timespec → Option Reply
unfolding find_key put_found put_new
put_bytes t key value policy allow_update now =
    if ltb 1 policy
    then some (refuse Status.invalid_argument t)
    else if not (key_fits t.keys key)
    then some (refuse Status.out_of_range t)
    else if not (fixed_string_fits t.values value)
    then some (refuse Status.out_of_range t)
    else (find_key t key >>= λ cur.
        if cur == 0
        then put_new t key value now
        else some (put_found t (cur - 1) value policy allow_update now))

-- `hashtable_put`
unfoldable pub put : Table → Input → Input → ℕ → Bool → Timespec → Option Reply
unfolding put_bytes
put t (outside key) (outside value) policy allow_update now =
    put_bytes t key value policy allow_update now
put t key value policy allow_update now = some (refuse Status.invalid_argument t)

-- `com_util_hashtable_add`, which has no `inserted_out`.
unfoldable pub add : Table → Input → Input → ℕ → Timespec → Option Reply
unfolding put
add t key value policy now =
    put t key value policy false now >>= λ r. some (record r { inserted = none })

-- `com_util_hashtable_upsert`
unfoldable pub upsert : Table → Input → Input → Timespec → Option Reply
unfolding put
upsert t key value now = put t key value 0 true now

-- What `com_util_hashtable_update` and `com_util_hashtable_update_rec` do with the record.
unfoldable pub update_at : Table → ℕ → List ℕ → Timespec → Status × Table
unfolding replace_value stamp_record
update_at t rec value now =
    if not ((entry t rec).status == rec_in_use)
    then (Status.not_found, t)
    else elim (replace_value t rec value) [
      | none ↦ (Status.storage_full, t)
      | some t' ↦ (Status.ok, stamp_record t' rec now)
    ]

-- `com_util_hashtable_update` behind its tests of the pointers.
unfoldable pub update_bytes : Table → List ℕ → List ℕ → Timespec → Option (Status × Table)
unfolding find_key update_at
update_bytes t key value now =
    if not (key_fits t.keys key)
    then some (Status.out_of_range, t)
    else if not (fixed_string_fits t.values value)
    then some (Status.out_of_range, t)
    else (find_key t key >>= λ cur.
        if cur == 0 then some (Status.not_found, t) else some (update_at t (cur - 1) value now))

-- `com_util_hashtable_update`: only the value may not point into the table.
unfoldable pub update : Table → Input → Input → Timespec → Option (Status × Table)
unfolding update_bytes
update t (outside key) (outside value) now = update_bytes t key value now
update t (inside key) (outside value) now = update_bytes t key value now
update t key value now = some (Status.invalid_argument, t)

-- `com_util_hashtable_update_rec`
unfoldable pub update_rec : Table → ℕ → Input → Timespec → Status × Table
unfolding update_at
update_rec t number (outside value) now =
    if not (fixed_string_fits t.values value)
    then (Status.out_of_range, t)
    else if (number == 0) || ltb t.config.capacity number
    then (Status.invalid_argument, t)
    else update_at t (number - 1) value now
update_rec t number value now = (Status.invalid_argument, t)
