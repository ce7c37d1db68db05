-- ===== src/Table/Counts.antt =====
-- The counters of the header say what the statuses are.
use app_com_util.Base.{
  ℕ, ◌+◌, ◌≤◌, ◌<◌, ◌≡◌, refl, ap, sym, ◌∙◌, ◌||◌, List, ltb, leb, ◌==◌, if◌then◌else◌, length,
  get_or, set, arith, inl, inr, Bool-cases, length-set, ==_iff,
}
use app_com_util.Base.Words.{u64_mod, add64, sub64, add64-eq, sub64-eq}
use app_com_util.Timespec.{Timespec}
use app_com_util.Table.{Table, Entry, entry, set_entry, set_status, has_record_timestamp}
use app_com_util.Table.Clock.{stamp_record}
use app_com_util.Table.Delete.{
  expire_record, mark_deleted, cut_record, lower_next_empty, drop_record, delete_at,
}
use app_com_util.Table.Put.{release_key, release_value, Link, head, next_of, write_link}
use app_com_util.Table.Statuses.{
  statuses, in_use, deleted, first_zero, in_use-set, deleted-set, counts-le, status_inside,
  first_zero-set_empty, first_zero-set_occupied, map-set, map-get_or, set-set, statuses-set_same,
}

abbrev pub table_statuses : Table → List ℕ
table_statuses t = statuses t.entries

-- The header's three counters are what a count over the records gives, and `next_empty` is the first
-- empty record.
pub record CountsAgree (t : Table) : Type 0 where
  pub length_eq : length (table_statuses t) ≡ t.config.capacity
  pub small : t.config.capacity < u64_mod
  pub in_use_eq : t.in_use_count ≡ in_use (table_statuses t)
  pub deleted_eq : t.deleted_count ≡ deleted (table_statuses t)
  pub next_empty_eq : t.next_empty ≡ first_zero 0 (table_statuses t)

-- A step that leaves the settings, the counters and the statuses alone.
pub record Keeps (t t' : Table) : Type 0 where
  pub config_eq : t'.config ≡ t.config
  pub in_use_eq : t'.in_use_count ≡ t.in_use_count
  pub deleted_eq : t'.deleted_count ≡ t.deleted_count
  pub next_empty_eq : t'.next_empty ≡ t.next_empty
  pub statuses_eq : table_statuses t' ≡ table_statuses t

-- A step that gives one record another status, and leaves the settings and counters alone.
pub record Sets (rec status : ℕ) (t t' : Table) : Type 0 where
  pub config_eq : t'.config ≡ t.config
  pub in_use_eq : t'.in_use_count ≡ t.in_use_count
  pub deleted_eq : t'.deleted_count ≡ t.deleted_count
  pub next_empty_eq : t'.next_empty ≡ t.next_empty
  pub statuses_eq : table_statuses t' ≡ set (table_statuses t) rec status

pub Keeps-refl : (t : Table) → Keeps t t
Keeps-refl t = record {
  config_eq = refl;
  in_use_eq = refl;
  deleted_eq = refl;
  next_empty_eq = refl;
  statuses_eq = refl;
}

pub Keeps-trans : {t u v : Table} → Keeps t u → Keeps u v → Keeps t v
Keeps-trans p q = record {
  config_eq = q.config_eq ∙ p.config_eq;
  in_use_eq = q.in_use_eq ∙ p.in_use_eq;
  deleted_eq = q.deleted_eq ∙ p.deleted_eq;
  next_empty_eq = q.next_empty_eq ∙ p.next_empty_eq;
  statuses_eq = q.statuses_eq ∙ p.statuses_eq;
}

pub Sets-Keeps :
    {rec status : ℕ} {t u v : Table} → Sets rec status t u → Keeps u v → Sets rec status t v
Sets-Keeps p q = record {
  config_eq = q.config_eq ∙ p.config_eq;
  in_use_eq = q.in_use_eq ∙ p.in_use_eq;
  deleted_eq = q.deleted_eq ∙ p.deleted_eq;
  next_empty_eq = q.next_empty_eq ∙ p.next_empty_eq;
  statuses_eq = q.statuses_eq ∙ p.statuses_eq;
}

pub Keeps-Sets :
    {rec status : ℕ} {t u v : Table} → Keeps t u → Sets rec status u v → Sets rec status t v
Keeps-Sets {rec} {status} p q = record {
  config_eq = q.config_eq ∙ p.config_eq;
  in_use_eq = q.in_use_eq ∙ p.in_use_eq;
  deleted_eq = q.deleted_eq ∙ p.deleted_eq;
  next_empty_eq = q.next_empty_eq ∙ p.next_empty_eq;
  statuses_eq = q.statuses_eq ∙ ap (λ ss. set ss rec status) p.statuses_eq;
}

pub Sets-Sets : {rec a b : ℕ} {t u v : Table} → Sets rec a t u → Sets rec b u v → Sets rec b t v
Sets-Sets {rec} {a} {b} {t} p q = record {
  config_eq = q.config_eq ∙ p.config_eq;
  in_use_eq = q.in_use_eq ∙ p.in_use_eq;
  deleted_eq = q.deleted_eq ∙ p.deleted_eq;
  next_empty_eq = q.next_empty_eq ∙ p.next_empty_eq;
  statuses_eq =
      q.statuses_eq ∙ ap (λ ss. set ss rec b) p.statuses_eq ∙ set-set (table_statuses t) rec a b;
}

pub set_entry-Keeps :
    (t : Table) (rec : ℕ) (e : Entry)
    → e.status ≡ (entry t rec).status
    → Keeps t (set_entry t rec e)
set_entry-Keeps t rec e h = record {
  config_eq = refl;
  in_use_eq = refl;
  deleted_eq = refl;
  next_empty_eq = refl;
  statuses_eq = statuses-set_same t.entries rec e h;
}

pub set_status-Sets : (t : Table) (rec s : ℕ) → Sets rec s t (set_status t rec s)
set_status-Sets t rec s = record {
  config_eq = refl;
  in_use_eq = refl;
  deleted_eq = refl;
  next_empty_eq = refl;
  statuses_eq = map-set t.entries rec (record (entry t rec) { status = s });
}

pub stamp_record-Keeps : (t : Table) (rec : ℕ) (now : Timespec) → Keeps t (stamp_record t rec now)
unfolding stamp_record
stamp_record-Keeps t rec now = elim (Bool-cases (has_record_timestamp t)) [
  | inl e ↦ rw e record {
    config_eq = refl;
    in_use_eq = refl;
    deleted_eq = refl;
    next_empty_eq = refl;
    statuses_eq = statuses-set_same t.entries rec _ refl;
  }
  | inr e ↦ rw e record {
    config_eq = refl;
    in_use_eq = refl;
    deleted_eq = refl;
    next_empty_eq = refl;
    statuses_eq = refl;
  }
]

pub write_link-Keeps : (t : Table) (link : Link) (cur : ℕ) → Keeps t (write_link t link cur)
write_link-Keeps t (head idx) cur = record {
  config_eq = refl;
  in_use_eq = refl;
  deleted_eq = refl;
  next_empty_eq = refl;
  statuses_eq = refl;
}
write_link-Keeps t (next_of rec) cur = set_entry-Keeps t rec _ refl

pub Keeps-CountsAgree : {t t' : Table} → Keeps t t' → CountsAgree t → CountsAgree t'
Keeps-CountsAgree {t} {t'} k v = record {
  length_eq = rw (k.statuses_eq, k.config_eq) v.length_eq;
  small = rw k.config_eq v.small;
  in_use_eq = rw (k.in_use_eq, k.statuses_eq) v.in_use_eq;
  deleted_eq = rw (k.deleted_eq, k.statuses_eq) v.deleted_eq;
  next_empty_eq = rw (k.next_empty_eq, k.statuses_eq) v.next_empty_eq;
}

-- One record got the status `s`, and the counters moved with it.
pub change-CountsAgree :
    {t t' : Table} (rec s : ℕ)
    → CountsAgree t
    → rec < length (table_statuses t)
    → t'.config ≡ t.config
    → table_statuses t' ≡ set (table_statuses t) rec s
    → t'.in_use_count + (if get_or (table_statuses t) rec 0 == 1 then 1 else 0)
      ≡ t.in_use_count + (if s == 1 then 1 else 0)
    → t'.deleted_count + (if leb 2 (get_or (table_statuses t) rec 0) then 1 else 0)
      ≡ t.deleted_count + (if leb 2 s then 1 else 0)
    → t'.next_empty ≡ first_zero 0 (set (table_statuses t) rec s)
    → CountsAgree t'
change-CountsAgree {t} {t'} rec s v inside c ss u d n = record {
  length_eq = rw (ss, c, length-set) v.length_eq;
  small = rw c v.small;
  in_use_eq = rw ss (omega (arith, v.in_use_eq, in_use-set (table_statuses t) rec s inside));
  deleted_eq = rw ss (omega (arith, v.deleted_eq, deleted-set (table_statuses t) rec s inside));
  next_empty_eq = rw ss n;
}

pub expire_record-Sets : (t : Table) (rec : ℕ) → Sets rec 0 t (expire_record t rec)
unfolding expire_record
expire_record-Sets t rec =
    let emptied : Sets rec 0 t (release_key (release_value (set_status t rec 0) rec) rec) = record {
      config_eq = refl;
      in_use_eq = refl;
      deleted_eq = refl;
      next_empty_eq = refl;
      statuses_eq = map-set t.entries rec (record (entry t rec) { status = 0 });
    } in
    elim (Bool-cases (has_record_timestamp t)) [
      | inl e ↦ rw e (Sets-Keeps emptied (set_entry-Keeps _ rec _ refl))
      | inr e ↦ rw e emptied
    ]

-- Only a record in use is deleted, so the record is one of the table's.
pub in_use_inside :
    (t : Table) (rec : ℕ) → (entry t rec).status ≡ 1 → rec < length (table_statuses t)
in_use_inside t rec e =
    let s = map-get_or t.entries rec in status_inside (table_statuses t) rec (omega arith)

-- What the mark leaves: the status 2, and one record in use less.
pub record Marked (rec : ℕ) (t t' : Table) : Type 0 where
  pub config_eq : t'.config ≡ t.config
  pub in_use_eq : t'.in_use_count ≡ sub64 t.in_use_count 1
  pub deleted_eq : t'.deleted_count ≡ t.deleted_count
  pub next_empty_eq : t'.next_empty ≡ t.next_empty
  pub statuses_eq : table_statuses t' ≡ set (table_statuses t) rec 2

pub mark_deleted-Marked :
    (t : Table) (rec : ℕ) (now : Timespec) → Marked rec t (mark_deleted t rec now)
unfolding mark_deleted
mark_deleted-Marked t rec now =
    let s =
      Sets-Keeps (set_status-Sets t rec 2) (stamp_record-Keeps (set_status t rec 2) rec now) in
    record {
      config_eq = s.config_eq;
      in_use_eq = ap (λ n. sub64 n 1) s.in_use_eq;
      deleted_eq = s.deleted_eq;
      next_empty_eq = s.next_empty_eq;
      statuses_eq = s.statuses_eq;
    }

pub cut_record-Keeps : (t : Table) (link : Link) (rec : ℕ) → Keeps t (cut_record t link rec)
unfolding cut_record
cut_record-Keeps t link rec =
    Keeps-trans (write_link-Keeps t link (entry t rec).next) (set_entry-Keeps _ rec _ refl)

-- A record that becomes empty.
pub record Dropped (rec : ℕ) (t t' : Table) : Type 0 where
  pub config_eq : t'.config ≡ t.config
  pub in_use_eq : t'.in_use_count ≡ t.in_use_count
  pub deleted_eq : t'.deleted_count ≡ t.deleted_count
  pub next_empty_eq :
      t'.next_empty
      ≡ (if (t.next_empty == 0) || ltb (rec + 1) t.next_empty then rec + 1 else t.next_empty)
  pub statuses_eq : table_statuses t' ≡ set (table_statuses t) rec 0

pub drop_record-Dropped :
    (t : Table) (link : Link) (rec : ℕ) → Dropped rec t (drop_record t link rec)
unfolding drop_record lower_next_empty
drop_record-Dropped t link rec =
    let s =
      Sets-Keeps (expire_record-Sets t rec) (cut_record-Keeps (expire_record t rec) link rec) in
    record {
      config_eq = s.config_eq;
      in_use_eq = s.in_use_eq;
      deleted_eq = s.deleted_eq;
      next_empty_eq =
          ap (λ (n : ℕ). if (n == 0) || ltb (rec + 1) n then rec + 1 else n) s.next_empty_eq;
      statuses_eq = s.statuses_eq;
    }

pub use_positive : (ss : List ℕ) (i : ℕ) → i < length ss → get_or ss i 0 ≡ 1 → 1 ≤ in_use ss
use_positive ss i inside e = let changed = in_use-set ss i 0 inside in grind arith

delete_aged :
    (t t' : Table) (rec : ℕ)
    → CountsAgree t
    → (entry t rec).status ≡ 1
    → Marked rec t t'
    → CountsAgree (record t' { deleted_count = add64 t'.deleted_count 1 })
delete_aged t t' rec v was m =
    let inside = in_use_inside t rec was in
    let read = map-get_or t.entries rec ∙ was in
    let room = counts-le (table_statuses t) in
    let changed = in_use-set (table_statuses t) rec 2 inside in
    let aged = deleted-set (table_statuses t) rec 2 inside in
    let some_use : 1 ≤ in_use (table_statuses t) =
      use_positive (table_statuses t) rec inside read in
    let used_small : t.in_use_count < u64_mod =
      omega (arith, v.small, v.length_eq, v.in_use_eq, counts-le (table_statuses t)) in
    change-CountsAgree rec 2 v inside m.config_eq m.statuses_eq
      (rw (m.in_use_eq, read, sub64-eq t.in_use_count 1 used_small (omega (arith, v.in_use_eq)))
        (omega (arith, v.in_use_eq)))
      (rw
        (
          m.deleted_eq,
          read,
          add64-eq t.deleted_count 1 (omega (arith, v.small, v.length_eq, v.deleted_eq, room)),
        )
        (omega arith))
      (m.next_empty_eq
        ∙ v.next_empty_eq
        ∙ sym (
            first_zero-set_occupied 0 (table_statuses t) rec 2 (λ z. absurd (omega arith))
              (omega arith)))

delete-Dropped :
    (t t₁ t₂ : Table) (rec : ℕ)
    → CountsAgree t
    → (entry t rec).status ≡ 1
    → Marked rec t t₁
    → Dropped rec t₁ t₂
    → CountsAgree t₂
delete-Dropped t t₁ t₂ rec v was m d =
    let inside = in_use_inside t rec was in
    let read = map-get_or t.entries rec ∙ was in
    let some_use : 1 ≤ in_use (table_statuses t) =
      use_positive (table_statuses t) rec inside read in
    let used_small : t.in_use_count < u64_mod =
      omega (arith, v.small, v.length_eq, v.in_use_eq, counts-le (table_statuses t)) in
    let emptied = first_zero-set_empty 0 (table_statuses t) rec inside in
    let zero_add : 0 + rec + 1 ≡ rec + 1 = omega arith in
    change-CountsAgree rec 0 v inside (d.config_eq ∙ m.config_eq)
      (d.statuses_eq ∙ ap (λ ss. set ss rec 0) m.statuses_eq ∙ set-set (table_statuses t) rec 2 0)
      (rw
        (
          d.in_use_eq,
          m.in_use_eq,
          read,
          sub64-eq t.in_use_count 1 used_small (omega (arith, v.in_use_eq)),
        )
        (omega (arith, v.in_use_eq)))
      (rw (d.deleted_eq, m.deleted_eq, read) refl)
      (rw (d.next_empty_eq, m.next_empty_eq, v.next_empty_eq) (sym (rw zero_add at emptied)))

-- Where the counters of the header are true, what `com_util_hashtable_delete` does with the record that
-- it found keeps them true: it is refused, or its slot becomes empty at once, or stays deleted.
pub delete_at-CountsAgree :
    (t : Table) (link : Link) (rec : ℕ) (now : Timespec)
    → CountsAgree t
    → CountsAgree ((delete_at t link rec now).1)
unfolding delete_at
delete_at-CountsAgree t link rec now v =
    let marked = mark_deleted t rec now in
    elim (Bool-cases ((entry t rec).status == 1)) [
      | inr e ↦ rw e v
      | inl e ↦
          let was = (==_iff (entry t rec).status 1).0 e in
          let m = mark_deleted-Marked t rec now in
          elim (Bool-cases (leb marked.config.lifetime 2)) [
            | inr l ↦ rw (e, l) (delete_aged t marked rec v was m)
            | inl l ↦
                rw (e, l)
                  (delete-Dropped t marked (drop_record marked link rec) rec v was m
                    (drop_record-Dropped marked link rec))
          ]
    ]
