-- ===== src/Table/Shape.antt =====
-- Steps that leave the links of a table alone, and what a change of one status means record by record.

use app_com_util.Base.{
  ℕ, zero, suc, ◌<◌, ◌≡◌, refl, ap, sym, ◌∙◌, List, [], ◌∷◌, inl, inr, length, length-set, get_or,
  set, arith, Bool-cases, ◌==◌, ==_iff, if◌then◌else◌, get_or-set_self, get_or-set_ne,
}
use app_com_util.Timespec.{Timespec}
use app_com_util.Table.{
  Table, Entry, empty_entry, entry, set_entry, set_status, has_record_timestamp,
}
use app_com_util.Table.Clock.{stamp_record}
use app_com_util.Table.Put.{read_link, head, next_of, Link}
use app_com_util.Table.Statuses.{map-get_or, length-statuses}
use app_com_util.Table.Counts.{table_statuses}

-- Settings, bucket heads and links are the same.
pub record SameShape (t t' : Table) : Type 0 where
  pub config_eq : t'.config ≡ t.config
  pub heads_eq : t'.bucket_head ≡ t.bucket_head
  pub length_eq : length t'.entries ≡ length t.entries
  pub next_eq : (r : ℕ) → (entry t' r).next ≡ (entry t r).next

pub SameShape-trans : {t u v : Table} → SameShape t u → SameShape u v → SameShape t v
SameShape-trans p q = record {
  config_eq = q.config_eq ∙ p.config_eq;
  heads_eq = q.heads_eq ∙ p.heads_eq;
  length_eq = q.length_eq ∙ p.length_eq;
  next_eq = λ r. q.next_eq r ∙ p.next_eq r;
}

next-set :
    (es : List Entry) (i : ℕ) (e : Entry) (r : ℕ)
    → e.next ≡ (get_or es i empty_entry).next
    → (get_or (set es i e) r empty_entry).next ≡ (get_or es r empty_entry).next
next-set [] i e r h = refl
next-set (x ∷ es) zero e zero h = h
next-set (x ∷ es) zero e (suc r) h = refl
next-set (x ∷ es) (suc i) e zero h = refl
next-set (x ∷ es) (suc i) e (suc r) h = next-set es i e r h

pub set_entry-SameShape :
    (t : Table) (rec : ℕ) (e : Entry)
    → e.next ≡ (entry t rec).next
    → SameShape t (set_entry t rec e)
set_entry-SameShape t rec e h = record {
  config_eq = refl;
  heads_eq = refl;
  length_eq = length-set t.entries rec e;
  next_eq = λ r. next-set t.entries rec e r h;
}

pub set_status-SameShape : (t : Table) (rec s : ℕ) → SameShape t (set_status t rec s)
set_status-SameShape t rec s = set_entry-SameShape t rec (record (entry t rec) { status = s }) refl

pub stamp_record-SameShape :
    (t : Table) (rec : ℕ) (now : Timespec) → SameShape t (stamp_record t rec now)
unfolding stamp_record
stamp_record-SameShape t rec now = elim (Bool-cases (has_record_timestamp t)) [
  | inl e ↦
      let h =
        set_entry-SameShape t rec (record (entry t rec) { timestamp = now; generation = _ }) refl in
      rw e (record {
        config_eq = h.config_eq;
        heads_eq = h.heads_eq;
        length_eq = h.length_eq;
        next_eq = h.next_eq;
      })
  | inr e ↦
      rw e (record { config_eq = refl; heads_eq = refl; length_eq = refl; next_eq = λ r. refl })
]

pub stamp_record-fields :
    (t : Table) (rec : ℕ) (now : Timespec)
    → ((stamp_record t rec now).keys ≡ t.keys) × ((stamp_record t rec now).values ≡ t.values)
unfolding stamp_record
stamp_record-fields t rec now = elim (Bool-cases (has_record_timestamp t)) [
  | inl e ↦ rw e (refl, refl)
  | inr e ↦ rw e (refl, refl)
]

pub SameShape-read_link :
    {t t' : Table} → SameShape t t' → (l : Link) → read_link t' l ≡ read_link t l
SameShape-read_link s (head i) = ap (λ heads. get_or heads i 0) s.heads_eq
SameShape-read_link s (next_of r) = s.next_eq r

-- A change of one status, record by record.
pub status_changed :
    (t t' : Table) (rec s r : ℕ)
    → rec < length t.entries
    → table_statuses t' ≡ set (table_statuses t) rec s
    → (entry t' r).status ≡ (if r == rec then s else (entry t r).status)
status_changed t t' rec s r inside e =
    let read = sym (map-get_or t'.entries r) ∙ ap (λ ss. get_or ss r 0) e in
    elim (Bool-cases (r == rec)) [
      | inl d ↦
          let same = (==_iff r rec).0 d in
          rw d (
            read
            ∙ ap (λ x. get_or (set (table_statuses t) rec s) x 0) same
            ∙ get_or-set_self (table_statuses t) rec s 0 (omega (arith, length-statuses t.entries)))
      | inr d ↦ rw d (
          read
          ∙ get_or-set_ne (table_statuses t) rec r s 0
              (λ same. absurd (cc ((==_iff r rec).1 (sym same), d)))
          ∙ map-get_or t.entries r)
    ]

pub status_kept :
    (t t' : Table) (r : ℕ)
    → table_statuses t' ≡ table_statuses t
    → (entry t' r).status ≡ (entry t r).status
status_kept t t' r e =
    sym (map-get_or t'.entries r) ∙ ap (λ ss. get_or ss r 0) e ∙ map-get_or t.entries r
