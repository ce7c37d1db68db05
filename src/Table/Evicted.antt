-- ===== src/Table/Evicted.antt =====
-- A deleted record is evicted and filled again.
use app_com_util.Base.{
  ℕ, ◌≤◌, ◌≡◌, ◌≢◌, refl, ap, sym, ◌∙◌, true, List, inl, inr, ◌↔◌, some, get_or, set, arith,
  Bool-cases, ◌==◌, ==_iff,
}
use app_com_util.Base.Words.{add64, sub64}
use app_com_util.Field.{release}
use app_com_util.Timespec.{Timespec}
use app_com_util.Table.{Table, empty_entry, entry, set_status}
use app_com_util.Table.Delete.{cut_record}
use app_com_util.Table.Put.{
  fill, evict, revive, release_key, release_value, read_link, Link, head, next_of,
}
use app_com_util.Table.Statuses.{set-set}
use app_com_util.Table.Counts.{
  CountsAgree, Keeps-CountsAgree, Sets-Keeps, set_status-Sets, stamp_record-Keeps, table_statuses,
  cut_record-Keeps,
}
use app_com_util.Table.Fills.{revive-CountsAgree}
use app_com_util.Table.Linked.{occupied, IsLinked}
use app_com_util.Table.Linked.Removal.{own_link, own_link-Cut, unlink_record-eq}
use app_com_util.Table.Shape.{SameShape-read_link, set_status-SameShape}
use app_com_util.Table.Deleted.{cut_record-fields}
use app_com_util.Table.Valid.{
  IsWhole, Holds, status_occupied, Empties, emptied_status, emptied_key, emptied_value,
}
use app_com_util.Table.Filled.{Occupies}
use app_com_util.Table.Placed.{fill-counts}

-- The table that `evict` leaves.
abbrev pub evicted : Table → (ℕ → List ℕ) → ℕ → Table
evicted t chains rec =
    let cut = cut_record t (own_link t chains rec) rec in
    release_value (release_key (record cut { deleted_count = sub64 cut.deleted_count 1 }) rec) rec

pub evict-eq :
    {t : Table} {chains : ℕ → List ℕ} (v : IsLinked t chains) (rec : ℕ)
    → occupied t rec ≡ true
    → evict t rec ≡ some (evicted t chains rec)
unfolding evict
evict-eq v rec occ = rw (unlink_record-eq v rec occ) refl

read_link-eq :
    (t t' : Table) (l : Link)
    → t'.bucket_head ≡ t.bucket_head
    → t'.entries ≡ t.entries
    → read_link t' l ≡ read_link t l
read_link-eq t t' (head i) h e = ap (λ heads. get_or heads i 0) h
read_link-eq t t' (next_of r) h e = ap (λ es. (get_or es r empty_entry).next) e

module _ {t : Table} {chains : ℕ → List ℕ} (v : IsLinked t chains) (rec : ℕ)
    (occ : occupied t rec ≡ true) where
  -- `fill` overwrites the status, so the record may count as empty in between.
  abbrev pub emptied : Table
  emptied = set_status (evicted t chains rec) rec 0

  pub emptied-Empties : Empties rec t emptied chains
  emptied-Empties =
      let link = own_link t chains rec in
      let cut = cut_record t link rec in
      let (keys, values, heads, entries) = cut_record-fields t link rec in
      let shape = set_status-SameShape (evicted t chains rec) rec 0 in
      let k = cut_record-Keeps t link rec in
      record {
        config_eq = k.config_eq;
        heads_eq = heads;
        length_eq = shape.length_eq ∙ entries;
        cut = λ l own.
            SameShape-read_link shape l
            ∙ read_link-eq cut (evicted t chains rec) l refl refl
            ∙ own_link-Cut v rec l own;
        statuses_eq =
            (set_status-Sets (evicted t chains rec) rec 0).statuses_eq
            ∙ ap (λ ss. set ss rec 0) k.statuses_eq;
        keys_eq = ap (λ f. release f rec) keys;
        values_eq = ap (λ f. release f rec) values;
      }

-- To fill the evicted table is to occupy the emptied one.
pub Occupies-emptied :
    {rec : ℕ} {key value : List ℕ} {key_offset value_offset : ℕ} {e t' : Table}
    → Occupies rec 1 key key_offset value value_offset e t'
    → Occupies rec 1 key key_offset value value_offset (set_status e rec 0) t'
Occupies-emptied {rec} {e = e} {t'} o =
    let shape = set_status-SameShape e rec 0 in
    record {
      config_eq = o.config_eq;
      heads_eq = o.heads_eq;
      length_eq = o.length_eq ∙ sym shape.length_eq;
      next_eq = λ r. elim (Bool-cases (r == rec)) [
        | inl d ↦ o.next_eq r ∙ rw d refl
        | inr d ↦ o.next_eq r ∙ rw d (sym (shape.next_eq r))
      ];
      statuses_eq =
          o.statuses_eq
          ∙ sym (set-set (table_statuses e) rec 0 1)
          ∙ ap (λ ss. set ss rec 1) (sym ((set_status-Sets e rec 0).statuses_eq));
      keys_eq = o.keys_eq;
      values_eq = o.values_eq;
    }

-- The counters after a deleted record was evicted and filled, while no record was empty.
pub evicted-CountsAgree :
    {t : Table} (chains : ℕ → List ℕ) (rec idx : ℕ) (key : List ℕ) (key_offset : ℕ) (value : List ℕ)
    (value_offset : ℕ) (now : Timespec)
    → CountsAgree t
    → 2 ≤ (entry t rec).status
    → t.next_empty ≡ 0
    → table_statuses (fill (evicted t chains rec) rec idx key key_offset value value_offset now)
      ≡ set (table_statuses t) rec 1
    → CountsAgree (fill (evicted t chains rec) rec idx key key_offset value value_offset now)
unfolding revive
evicted-CountsAgree {t} chains rec idx key key_offset value value_offset now v old none_empty
      statuses =
    let link = own_link t chains rec in
    let k = cut_record-Keeps t link rec in
    let (config, in_use, deleted, next_empty) =
      fill-counts (evicted t chains rec) rec idx key key_offset value value_offset now in
    let s =
      Sets-Keeps (set_status-Sets t rec 1) (stamp_record-Keeps (set_status t rec 1) rec now) in
    Keeps-CountsAgree
      (record {
        config_eq = config ∙ k.config_eq ∙ sym s.config_eq;
        in_use_eq = in_use ∙ ap (λ n. add64 n 1) (k.in_use_eq ∙ sym s.in_use_eq);
        deleted_eq = deleted ∙ ap (λ n. sub64 n 1) (k.deleted_eq ∙ sym s.deleted_eq);
        next_empty_eq =
            next_empty (k.next_empty_eq ∙ none_empty) ∙ sym none_empty ∙ sym s.next_empty_eq;
        statuses_eq = statuses ∙ sym s.statuses_eq;
      })
      (revive-CountsAgree t rec now v old)

-- A deleted record was not in the map.
pub Empties-Holds :
    {rec : ℕ} {t t' : Table} {chains : ℕ → List ℕ}
    → Empties rec t t' chains
    → IsWhole t chains
    → 2 ≤ (entry t rec).status
    → (k value : List ℕ) → Holds t' k value ↔ Holds t k value
Empties-Holds {rec} {t} {t'} s w old k value =
    let occ : occupied t rec ≡ true = ground (arith, old) in
    (
      λ (r, held).
          let at = sym (emptied_status s w occ r) ∙ held.in_use in
          elim (Bool-cases (r == rec)) [
            | inl e ↦ absurd (zero_one (rw e at at))
            | inr e ↦
                let apart : r ≢ rec = λ d. absurd (cc ((==_iff r rec).1 d, e)) in
                let used : (entry t r).status ≡ 1 = rw e at at in
                let now = status_occupied t r used in
                (
                  r,
                  record {
                    in_use = used;
                    key_eq = sym (emptied_key s w occ r now apart) ∙ held.key_eq;
                    value_eq = sym (emptied_value s w occ r now apart) ∙ held.value_eq;
                  },
                )
          ],
      λ (r, held).
          let apart : r ≢ rec =
            λ d. absurd (omega (arith, ap (λ x. (entry t x).status) d, held.in_use)) in
          let now = status_occupied t r held.in_use in
          elim (Bool-cases (r == rec)) [
            | inl e ↦ absurd (apart ((==_iff r rec).0 e))
            | inr e ↦ (
              r,
              record {
                in_use = emptied_status s w occ r ∙ rw e held.in_use;
                key_eq = emptied_key s w occ r now apart ∙ held.key_eq;
                value_eq = emptied_value s w occ r now apart ∙ held.value_eq;
              },
            )
          ],
    )
  where
    zero_one : ◌≡◌ {A = ℕ} 0 1 → ⊥
    zero_one e = absurd (omega arith)
