-- ===== src/Status.antt =====
-- The result codes of prod/include/com_util/base/result.h that the modelled functions return.
pub data Status : Type 0 where
  ok skipped invalid_argument out_of_range buffer_too_small out_of_memory not_found duplicate_key
        duplicate_definition limit_exceeded storage_full unsupported corrupt_descriptor unknown :
      Status
