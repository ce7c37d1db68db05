-- ===== src/Table/Revived.antt =====
-- The put of a key that a record has, in use or deleted, and the update of a record in use.
use app_com_util.Base.{
  ℕ, ◌<◌, ◌≡◌, ◌≢◌, refl, ap, ◌∙◌, true, List, inl, inr, some, length, arith, Bool-cases, ◌==◌,
  ==_iff,
}
use app_com_util.Field.{Field, find_free, release, store}
use app_com_util.Field.Sound.{IsSound, IsInput, content, canon}
use app_com_util.Field.Replace.{replace-IsSound, replaced_type}
use app_com_util.Timespec.{Timespec}
use app_com_util.Table.{Table, entry, set_status}
use app_com_util.Table.Clock.{stamp_record}
use app_com_util.Table.Put.{revive}
use app_com_util.Table.Counts.{Sets-Keeps, set_status-Sets, stamp_record-Keeps}
use app_com_util.Table.Linked.{occupied, occupied_below}
use app_com_util.Table.Shape.{
  SameShape-trans, set_status-SameShape, stamp_record-SameShape, stamp_record-fields,
  status_changed, status_kept,
}
use app_com_util.Table.Valid.{IsWhole}
use app_com_util.Table.Written.{Writes}

-- The values of a table in which one record holds `w`.
pub record Rewrites (rec : ℕ) (w : List ℕ) (t : Table) (f : Field) : Type 0 where
  pub sound : IsSound t.config.capacity (occupied t) f
  pub type_eq : f.type ≡ t.values.type
  pub value_eq : content f rec ≡ w
  pub kept : (r : ℕ) → occupied t r ≡ true → r ≢ rec → content f r ≡ content t.values r

pub Rewrites-same :
    {t : Table} {chains : ℕ → List ℕ} (rec : ℕ)
    → IsWhole t chains
    → Rewrites rec (content t.values rec) t t.values
Rewrites-same rec w = record {
  sound = w.values;
  type_eq = refl;
  value_eq = refl;
  kept = λ r now apart. refl;
}

pub Rewrites-replace :
    {t : Table} {chains : ℕ → List ℕ} (rec : ℕ) (value : List ℕ) (offset : ℕ)
    → IsWhole t chains
    → occupied t rec ≡ true
    → IsInput t.values value
    → find_free t.values rec true value ≡ some offset
    → Rewrites rec
        (canon t.values.type t.values.size value)
        t
        (store (release t.values rec) rec value offset)
Rewrites-replace {t} rec value offset w occ given found =
    let (sound, read, kept) =
      replace-IsSound t.config.capacity (occupied t) t.values rec value offset w.values
        (occupied_below w.linked rec occ) occ given found in
    record {
      sound = sound;
      type_eq = replaced_type t.values rec value offset;
      value_eq = read;
      kept = kept;
    }

abbrev pub with_values : Table → Field → Table
with_values t f = record t { values = f }

-- The record in use gets the value and its time.
pub stamped-Writes :
    {t : Table} {f : Field} {w : List ℕ} (rec : ℕ) (now : Timespec)
    → Rewrites rec w t f
    → (entry t rec).status ≡ 1
    → Writes rec w t (stamp_record (with_values t f) rec now)
stamped-Writes {t} {f} rec now s used =
    let u = with_values t f in
    let shape = stamp_record-SameShape u rec now in
    let (keys, values) = stamp_record-fields u rec now in
    let k = stamp_record-Keeps u rec now in
    record {
      shape = record {
        config_eq = shape.config_eq;
        heads_eq = shape.heads_eq;
        length_eq = shape.length_eq;
        next_eq = shape.next_eq;
      };
      keys_eq = keys;
      status_eq = λ r.
          status_kept u (stamp_record u rec now) r k.statuses_eq ∙ elim (Bool-cases (r == rec)) [
            | inl e ↦ rw e (ap (λ x. (entry t x).status) ((==_iff r rec).0 e) ∙ used)
            | inr e ↦ rw e refl
          ];
      sound = rw values s.sound;
      type_eq = ap (λ g. g.type) values ∙ s.type_eq;
      value_eq = ap (λ g. content g rec) values ∙ s.value_eq;
      kept = λ r now apart. ap (λ g. content g r) values ∙ s.kept r now apart;
    }

-- A deleted record comes back with the value.
pub revived-Writes :
    {t : Table} {chains : ℕ → List ℕ} {f : Field} {w : List ℕ} (rec : ℕ) (now : Timespec)
    → IsWhole t chains
    → Rewrites rec w t f
    → occupied t rec ≡ true
    → Writes rec w t (revive (with_values t f) rec now)
unfolding revive
revived-Writes {t} {f = f} rec now v s occ =
    let u = with_values t f in
    let shape =
      SameShape-trans (set_status-SameShape u rec 1)
        (stamp_record-SameShape (set_status u rec 1) rec now) in
    let (keys, values) = stamp_record-fields (set_status u rec 1) rec now in
    let k =
      Sets-Keeps (set_status-Sets u rec 1) (stamp_record-Keeps (set_status u rec 1) rec now) in
    let inside : rec < length t.entries =
      omega (arith, occupied_below v.linked rec occ, v.linked.entries_eq) in
    record {
      shape = record {
        config_eq = shape.config_eq;
        heads_eq = shape.heads_eq;
        length_eq = shape.length_eq;
        next_eq = shape.next_eq;
      };
      keys_eq = keys;
      status_eq = λ r.
          status_changed u (stamp_record (set_status u rec 1) rec now) rec 1 r inside k.statuses_eq;
      sound = rw values s.sound;
      type_eq = ap (λ g. g.type) values ∙ s.type_eq;
      value_eq = ap (λ g. content g rec) values ∙ s.value_eq;
      kept = λ r now apart. ap (λ g. content g r) values ∙ s.kept r now apart;
    }
