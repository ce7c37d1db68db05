-- ===== src/Table/Created.antt =====
-- A new and a cleared table: valid, with an empty map.
use app_com_util.Base.{
  ℕ, zero, suc, ◌≤◌, ◌<◌, ◌≡◌, refl, ap, Bool, true, false, not, List, [], inl, inr,
  length-replicate, replicate, get_or, arith, ◌==◌, ==_iff,
}
use app_com_util.Base.Words.{u64_mod}
use app_com_util.Arena.{arena_reset}
use app_com_util.Field.{new_field, no_ref}
use app_com_util.Field.Sound.{IsSound}
use app_com_util.Layout.{Config, variable_string, field_is_variable}
use app_com_util.Layout.Settings.{FieldSizes}
use app_com_util.Timespec.{Timespec}
use app_com_util.Table.{Table, empty_entry, new_table}
use app_com_util.Table.Clock.{stamp_table}
use app_com_util.Table.Sweep.{clear}
use app_com_util.Table.Fresh.{new_table-CountsAgree, clear-CountsAgree}
use app_com_util.Table.Linked.{occupied}
use app_com_util.Table.Shape.{SameShape}
use app_com_util.Table.Valid.{
  IsCreatable, IsWhole, IsValid, Holds, SameShape-IsWhole, status_occupied,
}

new_field-IsSound :
    (n type size storage : ℕ) (live : ℕ → Bool)
    → ((r : ℕ) → live r ≡ false)
    → FieldSizes type size storage
    → storage < u64_mod
    → IsSound n live (new_field n type size storage)
unfolding new_field field_is_variable arena_reset
new_field-IsSound n type size storage live dead (inl (e, _, pos)) small =
    let variable : (type == variable_string) ≡ true = (==_iff type variable_string).1 e in
    inl (
      variable,
      record {
        free_list =
            rw variable (record { small = small; ordered = (omega arith, pos, omega arith, tt) });
        bytes = rw variable (length-replicate {A = ℕ} storage 0);
        refs = rw variable (length-replicate n no_ref);
        used_eq = rw variable (omega arith);
        place = λ r l. absurd (cc (dead r, l));
        apart = λ r s l m d. absurd (cc (dead r, l));
      },
    )
new_field-IsSound n type size storage live dead (inr (known, _, _)) small =
    let fixed : (type == variable_string) ≡ false = ground arith in
    inr (fixed, rw fixed (length-replicate n (replicate size 0)))

empty_entries : (n r : ℕ) → get_or (replicate n empty_entry) r empty_entry ≡ empty_entry
empty_entries zero r = refl
empty_entries (suc n) zero = refl
empty_entries (suc n) (suc r) = empty_entries n r

zeros : (n i : ℕ) → ◌≡◌ {A = ℕ} (get_or (replicate n 0) i 0) 0
zeros zero i = refl
zeros (suc n) zero = refl
zeros (suc n) (suc i) = zeros n i

new_table-occupied : (c : Config) (r : ℕ) → occupied (new_table c) r ≡ false
unfolding new_table
new_table-occupied c r = ap (λ e. not (e.status == 0)) (empty_entries c.capacity r)

new_table-IsWhole : (c : Config) → IsCreatable c → IsWhole (new_table c) (λ i. [])
unfolding new_table new_field
new_table-IsWhole c h =
    let dead = new_table-occupied c in
    record {
      linked = record {
        capacity_pos = h.accepted.capacity;
        type_eq = refl;
        size_eq = refl;
        heads_eq = length-replicate {A = ℕ} c.capacity 0;
        entries_eq = length-replicate c.capacity empty_entry;
        chain = λ i below. zeros c.capacity i;
        distinct = λ i below. tt;
        member = λ i r below m. absurd (ground arith);
        listed = λ r now. absurd (cc (dead r, now));
        unique = λ r s now _ _. absurd (cc (dead r, now));
      };
      keys =
          new_field-IsSound c.capacity c.key_type c.key_size c.key_storage_size
            (occupied (new_table c)) dead h.accepted.key h.keys_small;
      values =
          new_field-IsSound c.capacity c.value_type c.value_size c.value_storage_size
            (occupied (new_table c)) dead h.accepted.value h.values_small;
      keys_known = known c.key_type c.key_size c.key_storage_size h.accepted.key;
      values_known = known c.value_type c.value_size c.value_storage_size h.accepted.value;
      creatable = h;
    }
  where
    known : (type size storage : ℕ) → FieldSizes type size storage → type ≤ variable_string
    known type size storage f = ground arith

-- With settings that are accepted and whose sizes fit 64 bits, a new table is valid and its map empty.
pub new_table-IsValid :
    (c : Config)
    → IsCreatable c
    → IsValid (new_table c) × ((key value : List ℕ) → ¬ Holds (new_table c) key value)
new_table-IsValid c h = (
  record {
    chains = λ i. [];
    whole = new_table-IsWhole c h;
    counts = new_table-CountsAgree c h.accepted.capacity h.capacity_small;
  },
  λ key value (r, held).
      absurd (cc (new_table-occupied c r, status_occupied (new_table c) r held.in_use)),
)

-- Clearing a valid table leaves a valid table whose map is empty.
pub clear-IsValid :
    (t : Table) (now : Timespec)
    → IsValid t
    → IsValid (clear t now) × ((key value : List ℕ) → ¬ Holds (clear t now) key value)
unfolding clear new_table stamp_table
clear-IsValid t now v =
    let shape : SameShape (new_table t.config) (clear t now) = record {
      config_eq = refl;
      heads_eq = refl;
      length_eq = refl;
      next_eq = λ r. refl;
    } in
    (
      record {
        chains = λ i. [];
        whole =
            SameShape-IsWhole shape (λ r. refl) refl refl
              (new_table-IsWhole t.config v.whole.creatable);
        counts = (clear-CountsAgree t now v.whole.linked.capacity_pos v.counts).0;
      },
      λ key value (r, held).
          absurd (cc (new_table-occupied t.config r, status_occupied (clear t now) r held.in_use)),
    )
