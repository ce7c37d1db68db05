-- ===== src/Table/Occupied.antt =====
-- How `com_util_hashtable_insert_direct` occupies a record, in use or deleted.
use app_com_util.Base.{
  ℕ, ◌+◌, ◌≤◌, ◌<◌, ◌≡◌, ◌≢◌, refl, ap, sym, ◌∙◌, List, inl, inr, ◌↔◌, Option, none, some, length,
  length-set, get_or, set, arith, Bool-cases, ◌==◌, ==_iff,
}
use app_com_util.Timespec.{Timespec}
use app_com_util.Table.{Table, Entry, entry, set_status, has_record_timestamp, hash_key, rec_in_use}
use app_com_util.Table.Put.{value_store, key_store, next_of}
use app_com_util.Table.Direct.{stamp_given, stamp_direct, fill_direct}
use app_com_util.Table.Counts.{Sets, Sets-Keeps, Keeps-trans, set_status-Sets, set_entry-Keeps}
use app_com_util.Table.Tally.{stamp_direct-Keeps}
use app_com_util.Table.Linked.{hash_key-bucket}
use app_com_util.Table.Linked.Walk.{read-write}
use app_com_util.Table.Shape.{SameShape, SameShape-trans, set_status-SameShape, set_entry-SameShape}
use app_com_util.Table.Valid.{IsWhole, Holds, status_occupied}
use app_com_util.Table.Filled.{
  Occupies, HasPlaceFor, filled_status, filled_key_kept, filled_value_kept,
}

stamp_direct-SameShape :
    (t : Table) (rec : ℕ) (timestamp : Option Timespec) (generation : ℕ)
    → SameShape t (stamp_direct t rec timestamp generation)
      × ((stamp_direct t rec timestamp generation).keys ≡ t.keys)
      × ((stamp_direct t rec timestamp generation).values ≡ t.values)
unfolding stamp_direct stamp_given
stamp_direct-SameShape t rec none generation = (
  record { config_eq = refl; heads_eq = refl; length_eq = refl; next_eq = λ r. refl },
  refl,
  refl,
)
stamp_direct-SameShape t rec (some time) generation = elim (Bool-cases (has_record_timestamp t)) [
  | inr e ↦ rw e (
    record { config_eq = refl; heads_eq = refl; length_eq = refl; next_eq = λ r. refl },
    refl,
    refl,
  )
  | inl e ↦
      let h =
        set_entry-SameShape t rec
          (record (entry t rec) { timestamp = time; generation = generation }) refl in
      rw e (
        record { config_eq = refl; heads_eq = refl; length_eq = h.length_eq; next_eq = h.next_eq },
        refl,
        refl,
      )
]

pub fill_direct-Occupies :
    (t : Table) (rec : ℕ) (key : List ℕ) (key_offset : ℕ) (value : List ℕ) (value_offset status : ℕ)
    (timestamp : Option Timespec) (generation : ℕ)
    → rec < length t.entries
    → Occupies rec status key key_offset value value_offset t
        (fill_direct t rec key key_offset value value_offset status timestamp generation)
unfolding fill_direct
fill_direct-Occupies t rec key key_offset value value_offset status timestamp generation inside =
    let idx = hash_key t key in
    let at = hash_key-bucket t key in
    let t₁ =
      set_status (key_store (value_store t rec value value_offset) rec key key_offset) rec status in
    let t₂ = stamp_direct t₁ rec timestamp generation in
    let h = set_status-SameShape t rec status in
    let first : SameShape t t₁ = record {
      config_eq = refl;
      heads_eq = refl;
      length_eq = h.length_eq;
      next_eq = h.next_eq;
    } in
    let (second, keys, values) = stamp_direct-SameShape t₁ rec timestamp generation in
    let shape = SameShape-trans first second in
    let head = get_or t₂.bucket_head idx 0 in
    let linked : Entry = record (entry t₂ rec) { next = head } in
    let filled : Sets rec status t t₁ = record {
      config_eq = refl;
      in_use_eq = refl;
      deleted_eq = refl;
      next_empty_eq = refl;
      statuses_eq = (set_status-Sets t rec status).statuses_eq;
    } in
    let s = Sets-Keeps filled (
      Keeps-trans (stamp_direct-Keeps t₁ rec timestamp generation)
        (set_entry-Keeps t₂ rec linked refl)) in
    let occupies : Occupies rec status key key_offset value value_offset t (record t₂ {
      entries = set t₂.entries rec linked;
      bucket_head = set t₂.bucket_head idx (rec + 1);
    }) =
      record {
        config_eq = shape.config_eq;
        heads_eq =
            ap (λ heads. set heads idx (rec + 1)) shape.heads_eq
            ∙ ap (λ i. set t.bucket_head i (rec + 1)) at;
        length_eq = length-set t₂.entries rec linked ∙ shape.length_eq;
        next_eq = λ r.
            read-write t₂ (next_of rec) (next_of r) head (omega (arith, shape.length_eq))
            ∙ elim (Bool-cases (r == rec)) [
              | inl e ↦ rw e (
                  ap (λ heads. get_or heads idx 0) shape.heads_eq
                  ∙ ap (λ i. get_or t.bucket_head i 0) at)
              | inr e ↦ rw e (shape.next_eq r)
            ];
        statuses_eq = s.statuses_eq;
        keys_eq = keys;
        values_eq = values;
      } in
    elim (Bool-cases (status == rec_in_use)) [
      | inl e ↦ rw e (same_but_counters occupies)
      | inr e ↦ rw e (same_but_counters occupies)
    ]
  where
    same_but_counters :
        {rec s : ℕ} {key : List ℕ} {key_offset : ℕ} {value : List ℕ}
        {value_offset next_empty in_use dead : ℕ} {t u : Table}
        → Occupies rec s key key_offset value value_offset t u
        → Occupies rec s key key_offset value value_offset t
            (record u { next_empty = next_empty; in_use_count = in_use; deleted_count = dead })
    same_but_counters o = record {
      config_eq = o.config_eq;
      heads_eq = o.heads_eq;
      length_eq = o.length_eq;
      next_eq = o.next_eq;
      statuses_eq = o.statuses_eq;
      keys_eq = o.keys_eq;
      values_eq = o.values_eq;
    }

-- A record that is filled as deleted does not come into the map.
pub Occupies-Holds :
    {rec s : ℕ} {key value : List ℕ} {key_offset value_offset : ℕ} {t t' : Table}
    {chains : ℕ → List ℕ}
    → Occupies rec s key key_offset value value_offset t t'
    → IsWhole t chains
    → HasPlaceFor rec key key_offset value value_offset t
    → 2 ≤ s
    → (k v : List ℕ) → Holds t' k v ↔ Holds t k v
Occupies-Holds {rec} {s} {t = t} {t'} o w h old k v =
    let used : s ≢ 0 = λ z. absurd (omega arith) in
    (
      λ (r, held).
          let at = sym (filled_status o w h used r) ∙ held.in_use in
          elim (Bool-cases (r == rec)) [
            | inl e ↦ absurd (omega (arith, rw e at at))
            | inr e ↦
                let in_use : (entry t r).status ≡ 1 = rw e at at in
                let now = status_occupied t r in_use in
                (
                  r,
                  record {
                    in_use = in_use;
                    key_eq = sym (filled_key_kept o w h used r now) ∙ held.key_eq;
                    value_eq = sym (filled_value_kept o w h used r now) ∙ held.value_eq;
                  },
                )
          ],
      λ (r, held).
          let now = status_occupied t r held.in_use in
          elim (Bool-cases (r == rec)) [
            | inl e ↦ absurd (
                omega
                  (arith, ap (λ x. (entry t x).status) ((==_iff r rec).0 e), held.in_use, h.empty))
            | inr e ↦ (
              r,
              record {
                in_use = filled_status o w h used r ∙ rw e held.in_use;
                key_eq = filled_key_kept o w h used r now ∙ held.key_eq;
                value_eq = filled_value_kept o w h used r now ∙ held.value_eq;
              },
            )
          ],
    )
