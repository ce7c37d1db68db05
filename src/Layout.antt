-- ===== src/Layout.antt =====
-- The sizes and offsets of a hash table's two areas, and the check of its settings: the first part
-- of prod/libsrc/com_util/hashtable/hashtable.c. `none` is the non-zero result of a checked function.
pub mod Checked
pub mod Sizes
pub mod Entries
pub mod Settings
use Prim.Native.Nat.{bit_and}
use app_com_util.Base.{
  ℕ, ◌+◌, ◌-◌, ◌*◌, ◌/◌, ◌%◌, Bool, true, false, not, ◌&&◌, ◌||◌, Option, none, some, ltb, ◌==◌,
  if◌then◌else◌,
}
use app_com_util.Base.Words.{u64_mod}
use app_com_util.Status.{Status}

infixl 5 ◌>>=◌
abbrev pub ◌>>=◌ : {A B : Type 0} → Option A → (A → Option B) → Option B
none >>= f = none
some a >>= f = f a

-- `com_util_hashtable_field_type`
abbrev pub fixed_binary : ℕ
fixed_binary = 0

abbrev pub fixed_string : ℕ
fixed_string = 1

abbrev pub variable_string : ℕ
variable_string = 2

-- `com_util_hashtable_timestamp_scope`
abbrev pub scope_table : ℕ
scope_table = 0

abbrev pub scope_record : ℕ
scope_record = 1

-- `COM_UTIL_HASHTABLE_LIFETIME_INFINITE`
abbrev pub lifetime_infinite : ℕ
lifetime_infinite = 255

-- `com_util_hashtable_config`, without its padding. Its enums are unsigned; the `int` `reuse_deleted` is its
-- 32 bits as a number, which is 0 or equal to another exactly if the `int` is.
pub record Config : Type 0 where
  pub capacity : ℕ
  pub key_type : ℕ
  pub value_type : ℕ
  pub timestamp_scope : ℕ
  pub key_size : ℕ
  pub value_size : ℕ
  pub key_storage_size : ℕ
  pub value_storage_size : ℕ
  pub value_align : ℕ
  pub lifetime : ℕ
  pub reuse_deleted : ℕ

-- `sizeof(struct hashtable_persist_header)`: two 32-bit words, 72 bytes of settings, seven counters,
-- a time of 16 bytes and the generation.
abbrev pub header_size : ℕ
header_size = 160

-- `sizeof(struct hashtable_string_ref)` and `sizeof(struct hashtable_free_block)`
abbrev pub ref_size : ℕ
ref_size = 16

unfoldable pub add_checked : ℕ → ℕ → Option ℕ
add_checked a b = if ltb (u64_mod - 1 - a) b then none else some (a + b)

unfoldable pub mul_checked : ℕ → ℕ → Option ℕ
mul_checked a b = if not (a == 0) && ltb ((u64_mod - 1) / a) b then none else some (a * b)

unfoldable pub align_up_checked : ℕ → ℕ → Option ℕ
unfolding add_checked
align_up_checked offset alignment =
    let rem = offset % alignment in add_checked offset (if rem == 0 then 0 else alignment - rem)

unfoldable pub field_is_variable : ℕ → Bool
field_is_variable type = type == variable_string

unfoldable pub entry_key_offset : Config → ℕ
entry_key_offset c =
    let off : ℕ = if c.timestamp_scope == scope_record then 9 + (7 + 16 + 8) else 9 in
    let rem = off % 8 in
    if not (c.key_type == variable_string)
    then off
    else if not (rem == 0)
    then off + (8 - rem)
    else off

unfoldable pub entry_generation_offset : ℕ
entry_generation_offset = 8 + 1 + 7 + 16

unfoldable pub key_slot_size : Config → ℕ
unfolding field_is_variable
key_slot_size c = if field_is_variable c.key_type then ref_size else c.key_size

unfoldable pub value_stride_checked : Config → Option ℕ
unfolding align_up_checked
value_stride_checked c =
    if c.value_align == 0 then some c.value_size else align_up_checked c.value_size c.value_align

unfoldable pub data_region_align : Config → ℕ
unfolding field_is_variable
data_region_align c =
    if field_is_variable c.value_type then 8 else if c.value_align == 0 then 1 else c.value_align

unfoldable pub entry_stride_checked : Config → Option ℕ
unfolding entry_key_offset key_slot_size add_checked align_up_checked
entry_stride_checked c =
    add_checked (entry_key_offset c) (key_slot_size c) >>= λ raw. align_up_checked raw 8

unfoldable pub free_list_region_size : Config → Option ℕ
unfolding add_checked mul_checked
free_list_region_size c = add_checked c.capacity 1 >>= λ count. mul_checked count ref_size

-- The three offsets that `hashtable_mgmt_layout` writes.
pub record MgmtLayout : Type 0 where
  pub bucket_head : ℕ
  pub entries : ℕ
  pub mgmt_size : ℕ

unfoldable pub mgmt_layout : Config → Option MgmtLayout
unfolding add_checked mul_checked entry_stride_checked free_list_region_size field_is_variable
mgmt_layout c = do
  buckets ← mul_checked c.capacity 8
  off_entries ← add_checked header_size buckets
  entry_stride ← entry_stride_checked c
  records ← mul_checked c.capacity entry_stride
  behind ← add_checked off_entries records
  free_end ←
      if field_is_variable c.key_type
      then (free_list_region_size c >>= λ region. add_checked behind region)
      else some behind
  size ← add_checked free_end c.key_storage_size
  some (record { bucket_head = header_size; entries = off_entries; mgmt_size = size })

unfoldable pub data_region_size : Config → Option ℕ
unfolding add_checked mul_checked value_stride_checked free_list_region_size field_is_variable
data_region_size c =
    if not (field_is_variable c.value_type)
    then (value_stride_checked c >>= λ stride. mul_checked c.capacity stride)
    else do
      refs ← mul_checked c.capacity ref_size
      free_list ← free_list_region_size c
      size ← add_checked refs free_list
      add_checked size c.value_storage_size

-- One half of the long test of `hashtable_validate_config`: a variable field has a storage and no
-- fixed size, any other the reverse.
unfoldable pub field_sizes_bad : ℕ → ℕ → ℕ → Bool
unfolding field_is_variable
field_sizes_bad type fixed storage =
    (field_is_variable type && (not (fixed == 0) || (storage == 0)))
    || (not (field_is_variable type) && ((fixed == 0) || not (storage == 0)))

-- The test of `value_align`.
unfoldable pub value_align_bad : Config → Bool
unfolding field_is_variable
value_align_bad c =
    if field_is_variable c.value_type
    then not (c.value_align == 0)
    else not (c.value_align == 0)
      && (ltb 16 c.value_align || not (bit_and c.value_align (c.value_align - 1) == 0))

-- `hashtable_validate_config`: `true` is the result 0. The enums have no value below their first.
unfoldable pub validate_config : Config → Bool
unfolding field_sizes_bad value_align_bad
validate_config c =
    if c.capacity == 0
    then false
    else if ltb variable_string c.key_type || ltb variable_string c.value_type
    then false
    else if not (c.timestamp_scope == scope_table) && not (c.timestamp_scope == scope_record)
    then false
    else if field_sizes_bad c.key_type c.key_size c.key_storage_size
        || field_sizes_bad c.value_type c.value_size c.value_storage_size
    then false
    else if value_align_bad c
    then false
    else not (ltb c.lifetime 2)

-- `com_util_hashtable_required_size`: `config` may be null, and so may the places for the two sizes;
-- what is written to them comes with the status.
unfoldable pub required_size : Option Config → Bool → Bool → Status × Option ℕ × Option ℕ
unfolding validate_config mgmt_layout data_region_size
required_size none want_mgmt want_data = (Status.invalid_argument, none, none)
required_size (some c) want_mgmt want_data =
    if not want_mgmt && not want_data
    then (Status.invalid_argument, none, none)
    else if not (validate_config c)
    then (Status.invalid_argument, none, none)
    else elim (mgmt_layout c) [
      | none ↦ (Status.invalid_argument, none, none)
      | some l ↦ elim (data_region_size c) [
        | none ↦ (Status.invalid_argument, none, none)
        | some d ↦ (
          Status.ok,
          (if want_mgmt then some l.mgmt_size else none),
          (if want_data then some d else none),
        )
      ]
    ]
