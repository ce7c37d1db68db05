-- ===== src/Tests/Layout.antt =====
-- Sizes and settings of concrete tables.
use app_com_util.Base.{◌≡◌, refl, ◌↔◌, none, some, true, if◌then◌else◌, ltb, arith}
use app_com_util.Base.Words.{u64_mod}
use app_com_util.Layout.{Config, mgmt_layout, data_region_size, header_size, validate_config}
use app_com_util.Layout.Checked.{fit64}
use app_com_util.Layout.Sizes.{
  InRange, mgmt_bytes, data_bytes, entries_offset, mgmt_layout-eq, data_region_size-eq,
}
use app_com_util.Layout.Settings.{IsAccepted, validate_config_iff}

-- Keys in a storage of 64 bytes, values of 6 bytes at multiples of 4, times for each record.
abbrev words : Config
words = record {
  capacity = 10;
  key_type = 2;
  value_type = 0;
  timestamp_scope = 1;
  key_size = 0;
  value_size = 6;
  key_storage_size = 64;
  value_storage_size = 0;
  value_align = 4;
  lifetime = 3;
  reuse_deleted = 1;
}

words-InRange : InRange words
words-InRange = record {
  capacity_pos = omega arith;
  capacity_u64 = omega arith;
  key_size_u64 = omega arith;
  value_size_u64 = omega arith;
}

words_data : data_region_size words ≡ some 80
unfolding data_region_size
words_data = refl

words_valid : validate_config words ≡ true
unfolding validate_config
words_valid = refl

mgmt_layout-eq_example : mgmt_layout words ≡ (
    if ltb (mgmt_bytes words) u64_mod
    then some (record {
      bucket_head = header_size;
      entries = entries_offset words;
      mgmt_size = mgmt_bytes words;
    })
    else none)
mgmt_layout-eq_example = mgmt_layout-eq words words-InRange

data_region_size-eq_example : data_region_size words ≡ fit64 (data_bytes words)
data_region_size-eq_example = data_region_size-eq words words-InRange

validate_config_iff_example : (validate_config words ≡ true) ↔ IsAccepted words
validate_config_iff_example = validate_config_iff words
