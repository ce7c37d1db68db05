-- ===== src/Layout/Settings.antt =====
-- Which settings `hashtable_validate_config` accepts.
use Prim.Native.Nat.{bit_and}
use app_com_util.Base.{
  ℕ, zero, suc, ◌-◌, ◌≤◌, ◌<◌, ◌≡◌, ◌↔◌, ◌⊎◌, arith, true, false, Bool, ◌==◌, ◌&&◌, ◌||◌, not, refl,
  if◌then◌else◌,
}
use app_com_util.Layout.{
  Config, field_is_variable, field_sizes_bad, value_align_bad, validate_config, variable_string,
  scope_table, scope_record,
}

-- A field's two sizes: a variable string has a storage only, any other a fixed size only.
abbrev pub FieldSizes : ℕ → ℕ → ℕ → Type 0
FieldSizes type fixed storage =
    ((type ≡ variable_string) × (fixed ≡ 0) × (0 < storage))
    ⊎ ((type < variable_string) × (0 < fixed) × (storage ≡ 0))

abbrev pub AlignAllowed : ℕ → Type 0
AlignAllowed a = (a ≡ 0) ⊎ (a ≡ 1) ⊎ (a ≡ 2) ⊎ (a ≡ 4) ⊎ (a ≡ 8) ⊎ (a ≡ 16)

pub record IsAccepted (c : Config) : Type 0 where
  pub capacity : 0 < c.capacity
  pub key : FieldSizes c.key_type c.key_size c.key_storage_size
  pub value : FieldSizes c.value_type c.value_size c.value_storage_size
  pub scope : (c.timestamp_scope ≡ scope_table) ⊎ (c.timestamp_scope ≡ scope_record)
  pub align : AlignAllowed c.value_align
  pub variable_align : c.value_type ≡ variable_string → c.value_align ≡ 0
  pub lifetime : 2 ≤ c.lifetime

abbrev listed : ℕ → Bool
listed a = (a == 0) || (a == 1) || (a == 2) || (a == 4) || (a == 8) || (a == 16)

abbrev one_bit : ℕ → Bool
one_bit a = (a == 0) || (bit_and a (a - 1) == 0)

-- The test for a power of two gives what the list gives at the alignments below `bound`.
agree_to : ℕ → Bool
agree_to zero = true
agree_to (suc a) =
    let lower = agree_to a in if one_bit a then listed a && lower else not (listed a) && lower

agree_to_bound : (bound a : ℕ) → agree_to bound ≡ true → a < bound → one_bit a ≡ listed a
unfolding agree_to
agree_to_bound zero a e below = absurd (omega arith)
agree_to_bound (suc bound) a e below = ground (arith, agree_to_bound bound a)

alignments_agree : agree_to 17 ≡ true
unfolding agree_to
alignments_agree = refl

power_of_two : (a : ℕ) → a < 17 → one_bit a ≡ listed a
power_of_two a below = agree_to_bound 17 a alignments_agree below

field_sizes_bad_sound :
    (type fixed storage : ℕ)
    → type ≤ variable_string
    → field_sizes_bad type fixed storage ≡ false
    → FieldSizes type fixed storage
unfolding field_sizes_bad field_is_variable
field_sizes_bad_sound type fixed storage h e = ground arith

field_sizes_bad_complete :
    (type fixed storage : ℕ)
    → FieldSizes type fixed storage
    → field_sizes_bad type fixed storage ≡ false
unfolding field_sizes_bad field_is_variable
field_sizes_bad_complete type fixed storage h = ground arith

value_align_bad_sound :
    (c : Config)
    → value_align_bad c ≡ false
    → AlignAllowed c.value_align × (c.value_type ≡ variable_string → c.value_align ≡ 0)
unfolding value_align_bad field_is_variable
value_align_bad_sound c e = ground (arith, power_of_two c.value_align)

value_align_bad_complete :
    (c : Config)
    → AlignAllowed c.value_align
    → (c.value_type ≡ variable_string → c.value_align ≡ 0)
    → value_align_bad c ≡ false
unfolding value_align_bad field_is_variable
value_align_bad_complete c a v = ground (arith, power_of_two c.value_align)

IsAccepted-of_valid : (c : Config) → validate_config c ≡ true → IsAccepted c
unfolding validate_config
IsAccepted-of_valid c e = ground (
  arith,
  field_sizes_bad_sound c.key_type c.key_size c.key_storage_size,
  field_sizes_bad_sound c.value_type c.value_size c.value_storage_size,
  value_align_bad_sound c,
)

valid_of_accepted : (c : Config) → IsAccepted c → validate_config c ≡ true
unfolding validate_config
valid_of_accepted c v = ground (
  arith,
  field_sizes_bad_complete c.key_type c.key_size c.key_storage_size v.key,
  field_sizes_bad_complete c.value_type c.value_size c.value_storage_size v.value,
  value_align_bad_complete c v.align v.variable_align,
)

-- `hashtable_validate_config` accepts exactly the settings that the header describes: a capacity, a
-- size of the right kind for key and value, an alignment of 0 or a power of two up to 16 that
-- variable values do not have, one of the two scopes, and a lifetime from 2 on.
pub validate_config_iff : (c : Config) → (validate_config c ≡ true) ↔ IsAccepted c
validate_config_iff c = (IsAccepted-of_valid c, valid_of_accepted c)
