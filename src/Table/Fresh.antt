-- ===== src/Table/Fresh.antt =====
-- The counters of a new, a cleared and a purged table.
use app_com_util.Base.{
  ℕ, zero, suc, ◌<◌, ◌≡◌, refl, ap, sym, ◌∙◌, ◌∷◌, replicate, length, arith, length-replicate,
}
use app_com_util.Base.Words.{u64_mod}
use app_com_util.Layout.{Config}
use app_com_util.Timespec.{Timespec}
use app_com_util.Table.{Table, empty_entry, new_table}
use app_com_util.Table.Clock.{stamp_table}
use app_com_util.Table.Sweep.{clear}
use app_com_util.Table.Statuses.{statuses, in_use, deleted, first_zero}
use app_com_util.Table.Counts.{CountsAgree, Keeps-CountsAgree, table_statuses}

statuses-empty : (n : ℕ) → statuses (replicate n empty_entry) ≡ replicate n 0
statuses-empty zero = refl
statuses-empty (suc n) = ap (λ l. 0 ∷ l) (statuses-empty n)

in_use-zeros : (n : ℕ) → in_use (replicate n 0) ≡ 0
in_use-zeros zero = refl
in_use-zeros (suc n) = omega (arith, in_use-zeros n)

deleted-zeros : (n : ℕ) → deleted (replicate n 0) ≡ 0
deleted-zeros zero = refl
deleted-zeros (suc n) = omega (arith, deleted-zeros n)

first_zero-zeros : (n : ℕ) → 0 < n → first_zero 0 (replicate n 0) ≡ 1
first_zero-zeros zero h = absurd (omega arith)
first_zero-zeros (suc n) h = refl

-- A new table has true counters and its first record as the first empty one, for a capacity that is
-- not 0 and fits 64 bits.
pub new_table-CountsAgree :
    (c : Config) → 0 < c.capacity → c.capacity < u64_mod → CountsAgree (new_table c)
unfolding new_table
new_table-CountsAgree c pos small = record {
  length_eq = ap length (statuses-empty c.capacity) ∙ length-replicate {A = ℕ} c.capacity 0;
  small = small;
  in_use_eq = sym (ap in_use (statuses-empty c.capacity) ∙ in_use-zeros c.capacity);
  deleted_eq = sym (ap deleted (statuses-empty c.capacity) ∙ deleted-zeros c.capacity);
  next_empty_eq =
      sym (ap (first_zero 0) (statuses-empty c.capacity) ∙ first_zero-zeros c.capacity pos);
}

-- For a table of a capacity that is not 0 with true counters, `com_util_hashtable_clear` keeps the
-- settings, leaves every record empty and the counters true.
pub clear-CountsAgree :
    (t : Table) (now : Timespec)
    → 0 < t.config.capacity
    → CountsAgree t
    → CountsAgree (clear t now)
      × ((clear t now).config ≡ t.config)
      × (table_statuses (clear t now) ≡ replicate t.config.capacity 0)
unfolding clear new_table stamp_table
clear-CountsAgree t now pos v =
    let fresh = new_table-CountsAgree t.config pos v.small in
    (
      Keeps-CountsAgree
          (record {
            config_eq = refl;
            in_use_eq = refl;
            deleted_eq = refl;
            next_empty_eq = refl;
            statuses_eq = refl;
          })
          fresh,
      refl,
      statuses-empty t.config.capacity,
    )
