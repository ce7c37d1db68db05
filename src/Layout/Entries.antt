-- ===== src/Layout/Entries.antt =====
-- Where a record's fields stand in the management area.
use app_com_util.Base.{ℕ, ◌+◌, ◌*◌, ◌%◌, ◌≤◌, ◌≡◌, arith, true}
use app_com_util.Layout.{
  Config, header_size, entry_key_offset, entry_generation_offset, key_slot_size, field_is_variable,
  scope_record,
}
use app_com_util.Layout.Sizes.{entry_stride, entries_offset, mgmt_bytes}

-- The offset of record `rec`, counted from 0.
abbrev pub entry_offset : Config → ℕ → ℕ
entry_offset c rec = entries_offset c + rec * entry_stride c

time_before_generation : 16 + 16 ≤ entry_generation_offset
unfolding entry_generation_offset
time_before_generation = omega arith

generation_before_key :
    (c : Config)
    → c.timestamp_scope ≡ scope_record
    → entry_generation_offset + 8 ≤ entry_key_offset c
unfolding entry_key_offset entry_generation_offset
generation_before_key c e = ground arith

-- The place of one record: the record lies behind the buckets and inside the area, at a multiple of
-- 8, apart from the next one. Its link stands at 0 and has 8 bytes, its status byte at 8, its time, where
-- it has one, at 16 with 16 bytes, behind it the generation with 8 bytes, and then the key.
pub record Placed (c : Config) (rec : ℕ) : Type 0 where
  pub behind_buckets : header_size + c.capacity * 8 ≤ entry_offset c rec
  pub inside : entry_offset c rec + entry_stride c ≤ mgmt_bytes c
  pub next : entry_offset c rec + entry_stride c ≡ entry_offset c (rec + 1)
  pub aligned : entry_offset c rec % 8 ≡ 0
  pub status_before_key : 8 + 1 ≤ entry_key_offset c
  pub time_before_generation : 16 + 16 ≤ entry_generation_offset
  pub status_before_generation : 8 + 1 ≤ entry_generation_offset
  pub generation_aligned : (entry_offset c rec + entry_generation_offset) % 8 ≡ 0
  pub generation_before_key :
      c.timestamp_scope ≡ scope_record → entry_generation_offset + 8 ≤ entry_key_offset c
  pub key_inside : entry_key_offset c + key_slot_size c ≤ entry_stride c
  pub ref_aligned :
      field_is_variable c.key_type ≡ true → (entry_offset c rec + entry_key_offset c) % 8 ≡ 0
