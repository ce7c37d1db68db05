-- ===== src/Table/Placed.antt =====
-- The record that a put chooses for a new key, and how `fill` occupies it.
use app_com_util.Base.{
  ℕ, zero, suc, ◌+◌, ◌≤◌, ◌<◌, ◌≡◌, refl, ap, sym, ◌∙◌, Bool, false, not, ◌&&◌, List, ◌⊎◌, inl, inr,
  none, length, length-set, get_or, set, arith, Bool-cases, ◌==◌,
}
use app_com_util.Base.Words.{add64}
use app_com_util.Timespec.{Timespec}
use app_com_util.Table.{Table, Entry, empty_entry, entry, set_status, has_record_timestamp}
use app_com_util.Table.Clock.{stamp_record}
use app_com_util.Table.Put.{
  fill, value_store, key_store, free_record, next_of, find_best_deleted_record,
}
use app_com_util.Table.Statuses.{map-get_or, first_zero, first_zero-bounds, first_zero-empty}
use app_com_util.Table.Counts.{
  CountsAgree, Sets, Sets-Keeps, Keeps-trans, set_status-Sets, stamp_record-Keeps, set_entry-Keeps,
  table_statuses,
}
use app_com_util.Table.Oldest.{find_best_deleted_record-IsOldest, IsOldest}
use app_com_util.Table.Linked.{key_of, bucket}
use app_com_util.Table.Linked.Walk.{read-write}
use app_com_util.Table.Shape.{
  SameShape, SameShape-trans, set_status-SameShape, stamp_record-SameShape, stamp_record-fields,
}
use app_com_util.Table.Filled.{Occupies}

-- A record for a new key is empty, or deleted while no record is empty.
pub record IsFree (t : Table) (rec : ℕ) : Type 0 where
  pub below : rec < t.config.capacity
  pub unused : ((entry t rec).status ≡ 0) ⊎ ((2 ≤ (entry t rec).status) × (t.next_empty ≡ 0))

oldest_cases :
    (timed : Bool) (es : List Entry) (n : ℕ)
    → IsOldest timed es n
    → (n ≡ 0)
      ⊎ ((rec : ℕ) × (n ≡ suc rec) × (rec < length es) × (2 ≤ (get_or es rec empty_entry).status))
oldest_cases timed es zero h = inl refl
oldest_cases timed es (suc rec) h = inr (rec, refl, h.0, h.1)

first_cases :
    (t : Table) (n : ℕ)
    → CountsAgree t
    → t.next_empty ≡ n
    → (n ≡ 0) ⊎ ((rec : ℕ) × (n ≡ suc rec) × IsFree t rec)
first_cases t zero v e = inl refl
first_cases t (suc rec) v e =
    let at : first_zero 0 (table_statuses t) ≡ 0 + rec + 1 = omega (arith, v.next_empty_eq) in
    let empty = first_zero-empty 0 (table_statuses t) rec at in
    inr (
      rec,
      refl,
      record {
        below = ground (arith, first_zero-bounds 0 (table_statuses t), v.length_eq);
        unused = inl (sym (map-get_or t.entries rec) ∙ empty);
      },
    )

pub free_record-cases :
    (t : Table)
    → CountsAgree t
    → length t.entries ≡ t.config.capacity
    → (free_record t ≡ 0) ⊎ ((rec : ℕ) × (free_record t ≡ suc rec) × IsFree t rec)
unfolding free_record
free_record-cases t v entries =
    elim (Bool-cases ((t.next_empty == 0) && not (t.config.reuse_deleted == 0))) [
      | inr e ↦ rw e (first_cases t t.next_empty v refl)
      | inl e ↦
          let none_empty : t.next_empty ≡ 0 = ground arith in
          elim (oldest_cases (has_record_timestamp t) t.entries (find_best_deleted_record t none)
            (find_best_deleted_record-IsOldest t)) [
              | inl nothing ↦ rw e (inl nothing)
              | inr (rec, at, below, old) ↦
                  rw e
                    (inr (rec, at, record { below = omega arith; unused = inr (old, none_empty) }))
            ]
    ]

module _ (t : Table) (rec idx : ℕ) (key : List ℕ) (key_offset : ℕ) (value : List ℕ)
    (value_offset : ℕ) (now : Timespec) where
  abbrev stored : Table
  stored = key_store (set_status (value_store t rec value value_offset) rec 1) rec key key_offset

  stored-shape : SameShape t stored
  stored-shape =
      let h = set_status-SameShape t rec 1 in
      record { config_eq = refl; heads_eq = refl; length_eq = h.length_eq; next_eq = h.next_eq }

  stored-Sets : Sets rec 1 t stored
  stored-Sets = record {
    config_eq = refl;
    in_use_eq = refl;
    deleted_eq = refl;
    next_empty_eq = refl;
    statuses_eq = (set_status-Sets t rec 1).statuses_eq;
  }

  pub fill-Occupies :
      rec < length t.entries
      → idx ≡ bucket t.config.capacity (key_of t key)
      → Occupies rec 1 key key_offset value value_offset t
          (fill t rec idx key key_offset value value_offset now)
  unfolding fill
  fill-Occupies inside at =
      let t₂ = stamp_record stored rec now in
      let shape = SameShape-trans stored-shape (stamp_record-SameShape stored rec now) in
      let (keys, values) = stamp_record-fields stored rec now in
      let head = get_or t₂.bucket_head idx 0 in
      let linked : Entry = record (entry t₂ rec) { next = head } in
      let s =
        Sets-Keeps stored-Sets
          (Keeps-trans (stamp_record-Keeps stored rec now) (set_entry-Keeps t₂ rec linked refl)) in
      record {
        config_eq = shape.config_eq;
        heads_eq =
            ap (λ heads. set heads idx (rec + 1)) shape.heads_eq
            ∙ ap (λ i. set t.bucket_head i (rec + 1)) at;
        length_eq = length-set t₂.entries rec linked ∙ shape.length_eq;
        next_eq = λ r.
            read-write t₂ (next_of rec) (next_of r) head (omega (arith, shape.length_eq))
            ∙ elim (Bool-cases (r == rec)) [
              | inl e ↦ rw e (
                  ap (λ heads. get_or heads idx 0) shape.heads_eq
                  ∙ ap (λ i. get_or t.bucket_head i 0) at)
              | inr e ↦ rw e (shape.next_eq r)
            ];
        statuses_eq = s.statuses_eq;
        keys_eq = keys;
        values_eq = values;
      }

  pub fill-counts :
      let t' = fill t rec idx key key_offset value value_offset now in
      (t'.config ≡ t.config)
      × (t'.in_use_count ≡ add64 t.in_use_count 1)
      × (t'.deleted_count ≡ t.deleted_count)
      × (t.next_empty ≡ 0 → t'.next_empty ≡ 0)
  unfolding fill
  fill-counts =
      let k = Sets-Keeps stored-Sets (stamp_record-Keeps stored rec now) in
      (
        k.config_eq,
        ap (λ n. add64 n 1) k.in_use_eq,
        k.deleted_eq,
        λ none_empty.
            let other : (rec + 1 == 0) ≡ false = ground arith in
            rw (k.next_empty_eq, none_empty, other) refl,
      )
