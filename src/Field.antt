-- ===== src/Field.antt =====
-- The keys or the values of a hash table: fixed slots, or a string storage with its descriptors and
-- free list. prod/libsrc/com_util/hashtable/hashtable.c has one function for keys and one for values
-- at each operation, with the same text; here they are one function, applied to either field.
pub mod Readback
pub mod Storage
pub mod Release
pub mod Fill
pub mod Sound
pub mod Replace
use app_com_util.Base.{
  ℕ, ◌+◌, Bool, true, false, not, ◌||◌, Option, none, some, List, [], ◌∷◌, ltb, ◌==◌, if◌then◌else◌,
  get_or, set, take, drop, replicate,
}
use app_com_util.Base.Words.{add64, sub64}
use app_com_util.Bytes.{strlen, has_nul, overwrite}
use app_com_util.Arena.{Block, arena_find_fit, arena_take, arena_give, arena_reset}
use app_com_util.Layout.{field_is_variable, fixed_binary, fixed_string}

-- `struct hashtable_string_ref`
pub record Ref : Type 0 where
  pub offset : ℕ
  pub length : ℕ

-- `type` to `storage_size` are settings; `slots` is used by fixed fields; a variable field has the
-- descriptors `refs`, the free list `free`, the bytes `storage` and their number in use.
pub record Field : Type 0 where
  pub type : ℕ
  pub size : ℕ
  pub storage_size : ℕ
  pub slots : List (List ℕ)
  pub refs : List Ref
  pub free : List Block
  pub storage : List ℕ
  pub used : ℕ

abbrev pub no_ref : Ref
no_ref = record { offset = 0; length = 0 }

-- `hashtable_key_ref_at`, `hashtable_value_ref_at`
abbrev pub ref_at : Field → ℕ → Ref
ref_at f rec = get_or f.refs rec no_ref

-- What can be read from the address of the stored bytes on: `hashtable_entry_key`,
-- `hashtable_data_at`.
unfoldable pub field_at : Field → ℕ → List ℕ
field_at f rec =
    if field_is_variable f.type then drop (ref_at f rec).offset f.storage else get_or f.slots rec []

-- `field_input_size` of a variable field.
abbrev pub string_size : List ℕ → ℕ
string_size input = strlen input + 1

-- `key_storage_find_free`, `value_storage_find_free`: `none` is the result 0.
unfoldable pub find_free : Field → ℕ → Bool → List ℕ → Option ℕ
find_free f rec replace input =
    let own = if replace then ref_at f rec else no_ref in
    if not (field_is_variable f.type)
    then some 0
    else arena_find_fit f.free own.offset own.length (string_size input)

-- `release_key`, `release_value`
unfoldable pub release : Field → ℕ → Field
release f rec =
    let own = ref_at f rec in
    if field_is_variable f.type
    then record f {
      storage = overwrite f.storage own.offset (replicate own.length 0);
      free = arena_give f.free own.offset own.length;
      used = sub64 f.used own.length;
      refs = set f.refs rec no_ref;
    }
    else record f { slots = set f.slots rec (replicate f.size 0) }

-- `key_store`, `value_store`
unfoldable pub store : Field → ℕ → List ℕ → ℕ → Field
store f rec input offset =
    let length = string_size input in
    if field_is_variable f.type
    then record f {
      free = arena_take f.free offset length;
      refs = set f.refs rec (record { offset = offset; length = length });
      storage = overwrite f.storage offset (take length input);
      used = add64 f.used length;
    }
    else if f.type == fixed_string
    then record f { slots = set f.slots rec (overwrite (replicate f.size 0) 0 (take length input)) }
    else record f { slots = set f.slots rec (take f.size input) }

-- `fixed_string_fits`
unfoldable pub fixed_string_fits : Field → List ℕ → Bool
fixed_string_fits f input = not (f.type == fixed_string) || has_nul f.size input

-- `key_fits`
unfoldable pub key_fits : Field → List ℕ → Bool
key_fits f key =
    if f.type == fixed_binary
    then true
    else if field_is_variable f.type
    then ltb (strlen key) f.storage_size
    else has_nul f.size key

-- `stored_key_size`, `stored_value_size`
unfoldable pub stored_size : Field → ℕ → ℕ
unfolding field_at
stored_size f rec =
    if field_is_variable f.type
    then (ref_at f rec).length
    else if f.type == fixed_string
    then string_size (field_at f rec)
    else f.size

-- A field of a new or cleared table: all bytes 0, and `hashtable_reset_arenas`.
unfoldable pub new_field : ℕ → ℕ → ℕ → ℕ → Field
new_field capacity type size storage_size = record {
  type = type;
  size = size;
  storage_size = storage_size;
  slots = if field_is_variable type then [] else replicate capacity (replicate size 0);
  refs = if field_is_variable type then replicate capacity no_ref else [];
  free = if field_is_variable type then arena_reset storage_size else [];
  storage = if field_is_variable type then replicate storage_size 0 else [];
  used = 0;
}
