-- ===== src/Tests/Refined.antt =====
-- A table of three records, empty and with one pair in it.
use app_com_util.Base.{ℕ, ◌≡◌, refl, inl, inr, some, List, [], ◌∷◌, true, false, Bool, arith}
use app_com_util.Arena.{arena_find_fit, scan_fit, arena_reset, free_block_adjoins}
use app_com_util.Base.Int.{pos}
use app_com_util.Field.{Field, new_field, store, find_free}
use app_com_util.Field.Sound.{IsSound, canon, content, store-IsSound, find_free-HasRoom}
use app_com_util.Field.Storage.{mark}
use app_com_util.Layout.{Config, field_is_variable}
use app_com_util.Status.{Status}
use app_com_util.Timespec.{Timespec}
use app_com_util.Table.{Table, new_table, find_key}
use app_com_util.Table.Put.{Reply, put, put_bytes, update_bytes}
use app_com_util.Table.Delete.{delete_bytes}
use app_com_util.Table.Query.{Answer, find_recno_bytes}
use app_com_util.Table.Linked.{occupied, key_of, FindsKey, find_key-FindsKey}
use app_com_util.Table.Valid.{IsCreatable, IsValid, Holds}
use app_com_util.Table.Created.{new_table-IsValid, clear-IsValid}
use app_com_util.Table.Direct.{insert_direct_bytes}
use app_com_util.Table.Inserted.{InsertsAs, insert_direct_bytes-InsertsAs}
use app_com_util.Table.Sweep.{clear}
use app_com_util.Table.Answers.{PutsAs, UpdatesAs}
use app_com_util.Table.Refined.{put_bytes-PutsAs, update_bytes-UpdatesAs}
use app_com_util.Table.Deleted.{Deletes, delete_bytes-Deletes}
use app_com_util.Table.Found.{FindsAs, find_recno_bytes-FindsAs}
use app_com_util.Table.Reached.{created, next, put_step, Reaches-IsValid}

-- Keys of 4 bytes with their NUL, values in a storage of 16 bytes.
abbrev words : Config
words = record {
  capacity = 3;
  key_type = 1;
  value_type = 2;
  timestamp_scope = 1;
  key_size = 4;
  value_size = 0;
  key_storage_size = 0;
  value_storage_size = 16;
  value_align = 0;
  lifetime = 3;
  reuse_deleted = 1;
}

words-IsCreatable : IsCreatable words
words-IsCreatable = record {
  accepted = record {
    capacity = omega arith;
    key = inr (omega arith, omega arith, refl);
    value = inl (refl, refl, omega arith);
    scope = inr refl;
    align = inl refl;
    variable_align = λ _. refl;
    lifetime = omega arith;
  };
  capacity_small = omega arith;
  keys_small = omega arith;
  values_small = omega arith;
}

abbrev midnight : Timespec
midnight = record { tv_sec = pos 0; tv_nsec = pos 0 }

abbrev owl : List ℕ
owl = 111 ∷ 119 ∷ 108 ∷ 0 ∷ []

abbrev elk : List ℕ
elk = 101 ∷ 108 ∷ 107 ∷ 0 ∷ []

abbrev hoot : List ℕ
hoot = 104 ∷ 111 ∷ 111 ∷ 116 ∷ 0 ∷ []

empty_table-IsValid : IsValid (new_table words)
empty_table-IsValid = (new_table-IsValid words words-IsCreatable).0

abbrev put_owl :
    (r : Reply) × (put_bytes (new_table words) owl hoot 0 false midnight ≡ some r)
    × IsValid r.table
    × PutsAs (new_table words) owl hoot 0 false r
put_owl =
    put_bytes-PutsAs (new_table words) owl hoot 0 false midnight empty_table-IsValid
      (λ _. omega arith) (λ _. omega arith)

abbrev with_owl : Table
with_owl = put_owl.0.table

put_bytes-PutsAs_example :
    (r : Reply) × (put_bytes with_owl elk hoot 0 false midnight ≡ some r)
    × IsValid r.table
    × PutsAs with_owl elk hoot 0 false r
put_bytes-PutsAs_example =
    put_bytes-PutsAs with_owl elk hoot 0 false midnight put_owl.2 (λ _. omega arith)
      (λ _. omega arith)

update_bytes-UpdatesAs_example :
    (r : Status × Table) × (update_bytes with_owl owl elk midnight ≡ some r)
    × IsValid r.1
    × UpdatesAs with_owl (key_of with_owl owl) elk r
update_bytes-UpdatesAs_example =
    update_bytes-UpdatesAs with_owl owl elk midnight put_owl.2 (λ _. omega arith)

delete_bytes-Deletes_example :
    (result : Status × Table) × (delete_bytes with_owl owl midnight ≡ some result)
    × IsValid result.1
    × Deletes with_owl owl result
delete_bytes-Deletes_example = delete_bytes-Deletes with_owl owl midnight put_owl.2

find_recno_bytes-FindsAs_example :
    (a : Answer ℕ) × (find_recno_bytes with_owl owl ≡ some a) × FindsAs with_owl owl a
find_recno_bytes-FindsAs_example = find_recno_bytes-FindsAs with_owl owl put_owl.2

find_key-FindsKey_example :
    (n : ℕ) × (find_key with_owl elk ≡ some n) × FindsKey with_owl (key_of with_owl elk) n
find_key-FindsKey_example = find_key-FindsKey with_owl put_owl.2.chains elk put_owl.2.whole.linked

Reaches-IsValid_example : IsValid with_owl
unfolding put
Reaches-IsValid_example = Reaches-IsValid words with_owl words-IsCreatable (
    next created (
      put_step (new_table words) owl hoot 0 false midnight put_owl.0 (λ _. omega arith)
        (λ _. omega arith) put_owl.1))

-- The storage of the values of the empty table.
abbrev values : Field
values = (new_table words).values

abbrev no_record : ℕ → Bool
no_record = occupied (new_table words)

store-IsSound_example :
    IsSound 3 (mark no_record 0 true) (store values 0 hoot 0)
    × (content (store values 0 hoot 0) 0 ≡ canon values.type values.size hoot)
    × ((s : ℕ) → no_record s ≡ true → content (store values 0 hoot 0) s ≡ content values s)
unfolding new_table new_field find_free field_is_variable arena_find_fit scan_fit arena_reset
    free_block_adjoins
store-IsSound_example =
    store-IsSound 3 no_record values 0 hoot 0 empty_table-IsValid.whole.values (omega arith) refl
      (record { known = omega arith; ends = λ _. omega arith; fits = λ e. absurd (omega arith) })
      (find_free-HasRoom 3 no_record values 0 hoot 0 empty_table-IsValid.whole.values refl)

clear-IsValid_example :
    IsValid (clear with_owl midnight)
    × ((key value : List ℕ) → ¬ Holds (clear with_owl midnight) key value)
clear-IsValid_example = clear-IsValid with_owl midnight put_owl.2

insert_direct_bytes-InsertsAs_example :
    (r : Status × Table) × (insert_direct_bytes with_owl 3 elk 2 hoot (some midnight) 7 ≡ some r)
    × IsValid r.1
    × InsertsAs with_owl 3 elk 2 hoot r
insert_direct_bytes-InsertsAs_example =
    insert_direct_bytes-InsertsAs with_owl 3 elk 2 hoot (some midnight) 7 put_owl.2
      (λ _. omega arith) (λ _. omega arith)
