-- ===== src/Table/Resize.antt =====
-- The move of a table's records to a table with other sizes: `hashtable_config_is_compatible`,
-- `hashtable_plan_migration`, `hashtable_apply_migration` and `com_util_hashtable_resize`.
use app_com_util.Base.{
  ℕ, zero, suc, ◌+◌, ◌-◌, Bool, false, not, ◌&&◌, ◌||◌, Option, none, some, List, [], ◌∷◌, ltb, leb,
  ◌==◌, if◌then◌else◌, set, map,
}
use app_com_util.Base.Words.{add64}
use app_com_util.Layout.{
  ◌>>=◌, Config, field_is_variable, validate_config, mgmt_layout, data_region_size,
  data_region_align, align_up_checked, add_checked,
}
use app_com_util.Field.{Field, field_at, ref_at}
use app_com_util.Status.{Status}
use app_com_util.Table.{Table, Entry, outside, rec_empty, entry, has_record_timestamp, new_table}
use app_com_util.Table.Direct.{insert_direct}
use app_com_util.Table.Put.{find_best_deleted_record}

-- `hashtable_config_is_compatible`
unfoldable pub config_is_compatible : Config → Config → Bool
config_is_compatible current next =
    (current.key_type == next.key_type)
    && (current.value_type == next.value_type)
    && (current.key_size == next.key_size)
    && (current.value_size == next.value_size)
    && (current.value_align == next.value_align)
    && (current.timestamp_scope == next.timestamp_scope)
    && (current.lifetime == next.lifetime)
    && (current.reuse_deleted == next.reuse_deleted)

-- The marks and the count of the records that are not empty.
abbrev pub occupied_marks : List Entry → List Bool
occupied_marks = map (λ e. not (e.status == rec_empty))

abbrev pub count_marks : List Bool → ℕ
count_marks [] = 0
count_marks (k ∷ ks) = let rest = count_marks ks in if k then suc rest else rest

-- The loop that drops deleted records until no more than `new_capacity` are kept: `excess` is
-- `kept - new_capacity`. `none` is the failure where no deleted record is left.
unfoldable pub drop_deleted : ℕ → Table → List Bool → Option (List Bool)
unfolding find_best_deleted_record
drop_deleted zero t keep = some keep
drop_deleted (suc excess) t keep =
    let victim = find_best_deleted_record t (some keep) in
    let further = drop_deleted excess t (set keep (victim - 1) false) in
    if victim == 0 then none else further

-- The bytes that the kept records use in a field, from record `i` on.
unfoldable pub kept_bytes : Field → ℕ → List Bool → ℕ
kept_bytes f i [] = 0
kept_bytes f i (k ∷ ks) =
    let rest = kept_bytes f (i + 1) ks in
    if k && field_is_variable f.type then add64 (ref_at f i).length rest else rest

-- The last test of `hashtable_plan_migration`.
abbrev pub check_storage : Table → Config → List Bool → Status × Option (List Bool)
check_storage src new_config keep =
    if ltb new_config.key_storage_size (kept_bytes src.keys 0 keep)
      || ltb new_config.value_storage_size (kept_bytes src.values 0 keep)
    then (Status.storage_full, none)
    else (Status.ok, some keep)

-- `hashtable_plan_migration`; `alloc` says that `com_util_calloc` gives memory for the marks.
unfoldable pub plan_migration : Table → Config → Bool → Status × Option (List Bool)
unfolding drop_deleted kept_bytes
plan_migration src new_config alloc =
    let keep = occupied_marks src.entries in
    let kept = count_marks keep in
    if not alloc
    then (Status.out_of_memory, none)
    else if ltb new_config.capacity src.in_use_count
    then (Status.limit_exceeded, none)
    else if ltb new_config.capacity kept
    then if src.config.reuse_deleted == 0
      then (Status.limit_exceeded, none)
      else elim (drop_deleted (kept - new_config.capacity) src keep) [
        | none ↦ (Status.limit_exceeded, none)
        | some keep' ↦ check_storage src new_config keep'
      ]
    else check_storage src new_config keep

-- The loop of `hashtable_apply_migration` over the marks from record `i` on.
unfoldable pub apply_from : Table → Bool → ℕ → ℕ → List Bool → Table → Option (Status × Table)
unfolding insert_direct
apply_from src preserve i next_record [] dst = some (Status.ok, dst)
apply_from src preserve i next_record (k ∷ ks) dst =
    let timed = has_record_timestamp src in
    let number : ℕ = if preserve then i + 1 else next_record in
    let inserted =
      insert_direct dst number (outside (field_at src.keys i)) (entry src i).status
        (outside (field_at src.values i)) (if timed then some (entry src i).timestamp else none)
        (if timed then (entry src i).generation else 0) in
    let skip = apply_from src preserve (i + 1) next_record ks dst in
    let next : Option (Status × Table) = inserted >>= λ r. elim r.0 [
      | Status.ok ↦
          apply_from src preserve (i + 1) (if preserve then next_record else next_record + 1) ks r.1
      | s ↦ some (s, r.1)
    ] in
    if k then next else skip

-- `hashtable_apply_migration`
unfoldable pub apply_migration : Table → Table → List Bool → Option (Status × Table)
unfolding apply_from
apply_migration src dst keep =
    apply_from src (leb src.config.capacity dst.config.capacity) 0 1 keep dst >>= λ r. elim r.0 [
      | Status.ok ↦ some (
        Status.ok,
        record r.1 {
          table_timestamp = src.table_timestamp;
          table_generation = src.table_generation;
        },
      )
      | s ↦ some (s, r.1)
    ]

-- `com_util_hashtable_create` with both buffers null: `alloc` and `alloc_handle` say that the two
-- calls of `com_util_calloc` give memory.
unfoldable pub create_owned : Config → Bool → Bool → Status × Option Table
unfolding validate_config mgmt_layout data_region_size data_region_align align_up_checked
    add_checked new_table
create_owned c alloc alloc_handle =
    let size : Option ℕ =
      (mgmt_layout c >>= λ l. data_region_size c >>= λ data_size.
      align_up_checked l.mgmt_size (data_region_align c) >>= λ data_offset.
      add_checked data_offset data_size) in
    if not (validate_config c) then (Status.invalid_argument, none) else elim size [
      | none ↦ (Status.invalid_argument, none)
      | some _ ↦
          if not alloc || not alloc_handle
          then (Status.out_of_memory, none)
          else (Status.ok, some (new_table c))
    ]

-- The results of the three calls of `com_util_calloc` in a resize.
pub record Allocs : Type 0 where
  pub marks : Bool
  pub buffer : Bool
  pub handle : Bool

-- `com_util_hashtable_resize`: the table is replaced only at the end. `new_config` may be null.
unfoldable pub resize : Table → Bool → Option Config → Allocs → Option (Status × Table)
unfolding config_is_compatible plan_migration create_owned apply_migration
resize t owns_buffer none a = some (Status.invalid_argument, t)
resize t owns_buffer (some c) a =
    let plan = plan_migration t c a.marks in
    let staged = create_owned c a.buffer a.handle in
    let migrate : List Bool → Option (Status × Table) = λ keep. elim staged.1 [
      | none ↦ some (staged.0, t)
      | some dst ↦ apply_migration t dst keep >>= λ r. elim r.0 [
        | Status.ok ↦ some (Status.ok, r.1)
        | s ↦ some (s, t)
      ]
    ] in
    if not owns_buffer
    then some (Status.unsupported, t)
    else if not (validate_config c)
    then some (Status.invalid_argument, t)
    else if not (config_is_compatible t.config c)
    then some (Status.invalid_argument, t)
    else elim plan.1 [ none ↦ some (plan.0, t) | some keep ↦ migrate keep ]
