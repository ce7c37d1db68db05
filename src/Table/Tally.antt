-- ===== src/Table/Tally.antt =====
-- The counters of the header at `com_util_hashtable_count_status` and
-- `com_util_hashtable_insert_direct`.
use app_com_util.Base.{
  ℕ, ◌+◌, ◌-◌, ◌≤◌, ◌<◌, ◌≡◌, refl, ap, ◌∙◌, Bool, true, false, List, [], ◌∷◌, drop, leb, ◌==◌,
  if◌then◌else◌, length, length-set, get_or, set, arith, inl, inr, Option, none, some, Bool-cases,
}
use app_com_util.Base.Words.{sub64, add64-eq, sub64-eq}
use app_com_util.Timespec.{Timespec}
use app_com_util.Table.{
  Table, entry, first_empty, set_status, set_next, has_record_timestamp, hash_key,
}
use app_com_util.Table.Put.{value_store, key_store}
use app_com_util.Table.Query.{count_status}
use app_com_util.Table.Direct.{fill_direct, stamp_direct, stamp_given}
use app_com_util.Table.Statuses.{
  in_use, deleted, in_use-set, deleted-set, counts-le, first_zero, map-get_or,
}
use app_com_util.Table.Fills.{next_empty_filled}
use app_com_util.Table.Counts.{
  CountsAgree, Keeps, Sets, Sets-Keeps, Keeps-trans, set_status-Sets, set_entry-Keeps,
  change-CountsAgree, table_statuses, Keeps-refl,
}

-- The number of empty records.
abbrev pub empty : List ℕ → ℕ
empty [] = 0
empty (s ∷ ss) = (if s == 0 then 1 else 0) + empty ss

all_counted : (ss : List ℕ) → in_use ss + deleted ss + empty ss ≡ length ss
all_counted [] = refl
all_counted (s ∷ ss) = ground (arith, all_counted ss)

==_comm : (m n : ℕ) → (m == n) ≡ (n == m)
==_comm m n = ground arith

triple : {a a' b b' c c' : ℕ} → a ≡ a' → b ≡ b' → c ≡ c' → Path (ℕ × ℕ × ℕ) (a, b, c) (a', b', c')
triple p q r = λ i. (p i, q i, r i)

-- Where the counters of the header are true, `com_util_hashtable_count_status` answers how many
-- records are in use, how many are deleted and how many are empty.
pub count_status-eq :
    (t : Table)
    → CountsAgree t
    → count_status t
      ≡ (in_use (table_statuses t), deleted (table_statuses t), empty (table_statuses t))
unfolding count_status
count_status-eq t v =
    let ss = table_statuses t in
    let counted = all_counted ss in
    let rest : sub64 (sub64 t.config.capacity t.in_use_count) t.deleted_count ≡ empty ss =
      let first : sub64 t.config.capacity t.in_use_count ≡ t.config.capacity - t.in_use_count =
        sub64-eq t.config.capacity t.in_use_count v.small
          (omega (arith, v.in_use_eq, v.length_eq)) in
      ap (λ n. sub64 n t.deleted_count) first
      ∙ sub64-eq (t.config.capacity - t.in_use_count) t.deleted_count (omega (arith, v.small))
          (omega (arith, v.in_use_eq, v.deleted_eq, v.length_eq))
      ∙ omega (arith, v.in_use_eq, v.deleted_eq, v.length_eq) in
    triple v.in_use_eq v.deleted_eq rest

pub stamp_direct-Keeps :
    (t : Table) (rec : ℕ) (timestamp : Option Timespec) (generation : ℕ)
    → Keeps t (stamp_direct t rec timestamp generation)
unfolding stamp_direct
stamp_direct-Keeps t rec none generation = Keeps-refl t
stamp_direct-Keeps t rec (some time) generation = elim (Bool-cases (has_record_timestamp t)) [
  | inr e ↦ rw e (Keeps-refl t)
  | inl e ↦ rw e (
      unfold stamp_given in
      record {
        config_eq = refl;
        in_use_eq = refl;
        deleted_eq = refl;
        next_empty_eq = refl;
        statuses_eq =
            (set_entry-Keeps t rec
              (record (entry t rec) { timestamp = time; generation = generation })
              refl).statuses_eq;
      })
]

-- Where the counters of the header are true, the writes of `com_util_hashtable_insert_direct` into an
-- empty record below the capacity keep them true, for a status of a record in use or deleted.
pub fill_direct-CountsAgree :
    (t : Table) (rec : ℕ) (key : List ℕ) (key_offset : ℕ) (value : List ℕ) (value_offset status : ℕ)
    (timestamp : Option Timespec) (generation : ℕ)
    → CountsAgree t
    → rec < t.config.capacity
    → (entry t rec).status ≡ 0
    → 1 ≤ status
    → CountsAgree (fill_direct t rec key key_offset value value_offset status timestamp generation)
unfolding fill_direct
fill_direct-CountsAgree t rec key key_offset value value_offset status timestamp generation v below
      was some_status =
    let ss = table_statuses t in
    let inside : rec < length ss = omega (arith, v.length_eq) in
    let read = map-get_or t.entries rec ∙ was in
    let t₁ =
      key_store (set_status (value_store t rec value value_offset) rec status) rec key key_offset in
    let t₂ = stamp_direct t₁ rec timestamp generation in
    let filled : Sets rec status t t₁ = record {
      config_eq = refl;
      in_use_eq = refl;
      deleted_eq = refl;
      next_empty_eq = refl;
      statuses_eq = (set_status-Sets t rec status).statuses_eq;
    } in
    let s = Sets-Keeps filled (
      Keeps-trans (stamp_direct-Keeps t₁ rec timestamp generation) (
        set_entry-Keeps t₂ rec
          (record (entry t₂ rec) { next = get_or t₂.bucket_head (hash_key t key) 0 }) refl)) in
    let t₃ = set_next t₂ rec (get_or t₂.bucket_head (hash_key t key) 0) in
    let next : (if t₂.next_empty == rec + 1
          then first_empty (rec + 1) (drop (rec + 1) t₃.entries)
          else t₂.next_empty)
        ≡ first_zero 0 (set ss rec status) =
      ap
        (λ (b : Bool).
          if b then first_empty (rec + 1) (drop (rec + 1) t₃.entries) else t₂.next_empty)
        (==_comm t₂.next_empty (rec + 1))
      ∙ next_empty_filled t t₃ rec status v s some_status in
    let more = in_use-set ss rec status inside in
    let older = deleted-set ss rec status inside in
    let unused : (get_or ss rec 0 == 1) ≡ false = rw read refl in
    let room : in_use ss + deleted ss + 1 ≤ length ss =
      ground (arith, counts-le (set ss rec status), length-set ss rec status) in
    elim (Bool-cases (status == 1)) [
      | inl e ↦
          let young : leb 2 status ≡ false = ground arith in
          rw e (
            change-CountsAgree rec status v inside s.config_eq s.statuses_eq
              (rw
                (
                  s.in_use_eq,
                  read,
                  e,
                  add64-eq t.in_use_count 1 (omega (arith, v.small, v.length_eq, v.in_use_eq)),
                )
                (omega arith))
              (rw (s.deleted_eq, read, young) refl) next)
      | inr e ↦
          let old : leb 2 status ≡ true = ground arith in
          rw e (
            change-CountsAgree rec status v inside s.config_eq s.statuses_eq
              (rw (s.in_use_eq, read, e) refl)
              (rw
                (
                  s.deleted_eq,
                  read,
                  old,
                  add64-eq t.deleted_count 1 (omega (arith, v.small, v.length_eq, v.deleted_eq)),
                )
                (omega arith))
              next)
    ]
