-- ===== src/Table/Fills.antt =====
-- What `hashtable_put` does with a record keeps the counters of the header true.
use app_com_util.Base.{
  ℕ, if◌then◌else◌, ◌+◌, ◌≤◌, ◌<◌, ◌≡◌, ◌≢◌, refl, ap, sym, ◌∙◌, Bool, true, false, List, leb, ◌==◌,
  length, length-set, get_or, set, drop, arith, inl, inr, Bool-cases, Option-cases, ==_iff,
}
use app_com_util.Base.Words.{add64-eq, sub64-eq}
use app_com_util.Field.{find_free}
use app_com_util.Timespec.{Timespec}
use app_com_util.Table.{first_empty, Table, entry, set_status}
use app_com_util.Table.Clock.{stamp_record}
use app_com_util.Table.Put.{
  replace_value, revive, put_found, update_at, fill, value_store, release_value, key_store,
}
use app_com_util.Table.Statuses.{
  in_use, deleted, in_use-set, deleted-set, counts-le, first_zero, first_empty-eq,
  first_zero-set_other, first_zero-set_occupied, first_zero-set_first, map-get_or, statuses-drop,
  status_inside,
}
use app_com_util.Table.Counts.{
  CountsAgree, Keeps, Sets, Keeps-CountsAgree, Sets-Keeps, Keeps-trans, set_status-Sets,
  stamp_record-Keeps, set_entry-Keeps, change-CountsAgree, table_statuses,
}

replaced-Keeps :
    (t : Table) (rec : ℕ) (value : List ℕ) (offset : ℕ)
    → Keeps t (value_store (release_value t rec) rec value offset)
replaced-Keeps t rec value offset = record {
  config_eq = refl;
  in_use_eq = refl;
  deleted_eq = refl;
  next_empty_eq = refl;
  statuses_eq = refl;
}

==_absurd : (m n : ℕ) → m ≡ n → (m == n) ≡ false → ⊥
==_absurd m n e f = ground arith

deleted_positive : (ss : List ℕ) (i : ℕ) → i < length ss → 2 ≤ get_or ss i 0 → 1 ≤ deleted ss
deleted_positive ss i inside e = let changed = deleted-set ss i 0 inside in grind arith

pub revive-CountsAgree :
    (t : Table) (rec : ℕ) (now : Timespec)
    → CountsAgree t
    → 2 ≤ (entry t rec).status
    → CountsAgree (revive t rec now)
unfolding revive
revive-CountsAgree t rec now v old =
    let ss = table_statuses t in
    let read = map-get_or t.entries rec in
    let occupied : get_or ss rec 0 ≢ 0 = λ z. absurd (omega arith) in
    let inside = status_inside ss rec occupied in
    let some_deleted : 1 ≤ deleted ss = deleted_positive ss rec inside (omega arith) in
    let aged : leb 2 (get_or ss rec 0) ≡ true = ground arith in
    let unused : (get_or ss rec 0 == 1) ≡ false = ground arith in
    let room = counts-le ss in
    let s =
      Sets-Keeps (set_status-Sets t rec 1) (stamp_record-Keeps (set_status t rec 1) rec now) in
    change-CountsAgree rec 1 v inside s.config_eq s.statuses_eq
      (rw
        (
          s.in_use_eq,
          unused,
          add64-eq t.in_use_count 1 (omega (arith, v.small, v.length_eq, v.in_use_eq)),
        )
        (omega arith))
      (rw
        (
          s.deleted_eq,
          aged,
          sub64-eq t.deleted_count 1 (omega (arith, v.small, v.length_eq, v.deleted_eq))
              (omega (arith, v.deleted_eq)),
        )
        (omega (arith, v.deleted_eq)))
      (s.next_empty_eq
        ∙ v.next_empty_eq
        ∙ sym (first_zero-set_occupied 0 ss rec 1 occupied (omega arith)))

-- Where the counters of the header are true, a put of a key whose record is in use or deleted keeps
-- them true, whether it is refused, replaces the value or brings the record back.
pub put_found-CountsAgree :
    (t : Table) (rec : ℕ) (value : List ℕ) (policy : ℕ) (allow_update : Bool) (now : Timespec)
    → CountsAgree t
    → (entry t rec).status ≢ 0
    → CountsAgree ((put_found t rec value policy allow_update now).table)
unfolding put_found replace_value
put_found-CountsAgree t rec value policy allow_update now v occupied =
    let value_kept = λ (offset : ℕ). Keeps-CountsAgree (replaced-Keeps t rec value offset) v in
    let stamped = λ (offset : ℕ).
      Keeps-CountsAgree
        (Keeps-trans (replaced-Keeps t rec value offset) (stamp_record-Keeps _ rec now)) v in
    elim (Bool-cases ((entry t rec).status == 1)) [
      | inl e ↦ elim (Bool-cases allow_update) [
        | inr a ↦ rw (e, a) v
        | inl a ↦ elim (Option-cases (find_free t.values rec true value)) [
          | inl f ↦ rw (e, a, f) v
          | inr (offset, f) ↦ rw (e, a, f) (stamped offset)
        ]
      ]
      | inr e ↦
          let old : 2 ≤ (entry t rec).status = ground arith in
          elim (Bool-cases (policy == 0)) [
            | inr p ↦ rw (e, p) (revive-CountsAgree t rec now v old)
            | inl p ↦ elim (Option-cases (find_free t.values rec true value)) [
              | inl f ↦ rw (e, p, f) v
              | inr (offset, f) ↦
                  rw (e, p, f) (revive-CountsAgree _ rec now (value_kept offset) old)
            ]
          ]
    ]

pub update_at-CountsAgree :
    (t : Table) (rec : ℕ) (value : List ℕ) (now : Timespec)
    → CountsAgree t
    → CountsAgree ((update_at t rec value now).1)
unfolding update_at replace_value
update_at-CountsAgree t rec value now v = elim (Bool-cases ((entry t rec).status == 1)) [
  | inr e ↦ rw e v
  | inl e ↦ elim (Option-cases (find_free t.values rec true value)) [
    | inl f ↦ rw (e, f) v
    | inr (offset, f) ↦
        rw (e, f)
          (Keeps-CountsAgree
            (Keeps-trans (replaced-Keeps t rec value offset) (stamp_record-Keeps _ rec now)) v)
  ]
]

-- The number of the first empty record, behind the writes to a record that was empty.
pub next_empty_filled :
    (t t' : Table) (rec status : ℕ)
    → CountsAgree t
    → Sets rec status t t'
    → 1 ≤ status
    → (if rec + 1 == t'.next_empty
        then first_empty (rec + 1) (drop (rec + 1) t'.entries)
        else t'.next_empty)
      ≡ first_zero 0 (set (table_statuses t) rec status)
next_empty_filled t t' rec status v s some_status =
    let ss = table_statuses t in
    let occupied : status ≢ 0 = λ z. absurd (omega arith) in
    let zero_add : rec + 1 ≡ 0 + rec + 1 = omega arith in
    elim (Bool-cases (rec + 1 == t'.next_empty)) [
      | inl e ↦
          let at : first_zero 0 ss ≡ 0 + rec + 1 =
            omega (arith, (==_iff (rec + 1) t'.next_empty).0 e, s.next_empty_eq, v.next_empty_eq) in
          rw e (
            first_empty-eq (rec + 1) (drop (rec + 1) t'.entries)
            ∙ ap (first_zero (rec + 1))
                (statuses-drop (rec + 1) t'.entries ∙ ap (drop (rec + 1)) s.statuses_eq)
            ∙ ap (λ i. first_zero i (drop (rec + 1) (set ss rec status))) zero_add
            ∙ sym (first_zero-set_first 0 ss rec status at occupied))
      | inr e ↦
          let apart : first_zero 0 ss ≢ 0 + rec + 1 = λ z. absurd (
            ==_absurd (rec + 1) t'.next_empty (omega (arith, s.next_empty_eq, v.next_empty_eq))
              e) in
          rw e (
            s.next_empty_eq
            ∙ v.next_empty_eq
            ∙ sym (first_zero-set_other 0 ss rec status apart occupied))
    ]

-- Where the counters of the header are true, filling an empty record below the capacity with a new key
-- keeps them true, `next_empty` included, also where the record was the first empty one.
pub fill-CountsAgree :
    (t : Table) (rec idx : ℕ) (key : List ℕ) (key_offset : ℕ) (value : List ℕ) (value_offset : ℕ)
    (now : Timespec)
    → CountsAgree t
    → rec < t.config.capacity
    → (entry t rec).status ≡ 0
    → CountsAgree (fill t rec idx key key_offset value value_offset now)
unfolding fill
fill-CountsAgree t rec idx key key_offset value value_offset now v below empty =
    let ss = table_statuses t in
    let inside : rec < length ss = omega (arith, v.length_eq) in
    let read = map-get_or t.entries rec ∙ empty in
    let room = counts-le ss in
    let t₁ =
      key_store (set_status (value_store t rec value value_offset) rec 1) rec key key_offset in
    let t₂ = stamp_record t₁ rec now in
    let filled : Sets rec 1 t t₁ = record {
      config_eq = refl;
      in_use_eq = refl;
      deleted_eq = refl;
      next_empty_eq = refl;
      statuses_eq = (set_status-Sets t rec 1).statuses_eq;
    } in
    let s = Sets-Keeps filled (
      Keeps-trans (stamp_record-Keeps t₁ rec now) (
        set_entry-Keeps t₂ rec (record (entry t₂ rec) { next = get_or t₂.bucket_head idx 0 })
          refl)) in
    let more = in_use-set ss rec 1 inside in
    let unused : (get_or ss rec 0 == 1) ≡ false = rw read refl in
    let in_room : in_use ss + 1 ≤ length ss =
      ground (arith, counts-le (set ss rec 1), length-set ss rec 1) in
    change-CountsAgree rec 1 v inside s.config_eq s.statuses_eq
      (rw
        (
          s.in_use_eq,
          read,
          add64-eq t.in_use_count 1 (omega (arith, v.small, v.length_eq, v.in_use_eq)),
        )
        (omega arith))
      (rw (s.deleted_eq, read) refl) (next_empty_filled t _ rec 1 v s (omega arith))
