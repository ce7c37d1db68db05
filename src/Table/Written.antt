-- ===== src/Table/Written.antt =====
-- The value of a record is written, or a deleted record comes back: what that makes of a whole table
-- and of its map.
use app_com_util.Base.{
  ℕ, ◌≡◌, ◌≢◌, refl, ap, sym, subst, ◌∙◌, true, false, List, ◌⊎◌, inl, inr, ◌↔◌, arith, Bool-cases,
  ◌==◌, ==_iff, if◌then◌else◌,
}
use app_com_util.Field.Sound.{IsSound, IsSound-fewer, content, canon}
use app_com_util.Table.{Table, entry}
use app_com_util.Table.Linked.{occupied, key_of}
use app_com_util.Table.Linked.Change.{SameLinks-IsLinked}
use app_com_util.Table.Shape.{SameShape}
use app_com_util.Table.Valid.{
  IsWhole, Holds, status_occupied, status_changed_occupied, SameShape-SameLinks,
}
use app_com_util.Table.Filled.{
  Occupies, HasPlaceFor, filled_status, filled_key, filled_value, filled_key_kept,
  filled_value_kept,
}

-- The map gets a value for a key, and keeps all others.
abbrev pub Maps : Table → Table → List ℕ → List ℕ → Type 0
Maps t t' key w =
    (k value : List ℕ)
    → Holds t' k value ↔ ((k ≡ key) × (value ≡ w)) ⊎ ((k ≢ key) × Holds t k value)

-- Record `rec` has a key; it is in use and holds the value `w`.
pub record Writes (rec : ℕ) (w : List ℕ) (t t' : Table) : Type 0 where
  pub shape : SameShape t t'
  pub keys_eq : t'.keys ≡ t.keys
  pub status_eq : (r : ℕ) → (entry t' r).status ≡ (if r == rec then 1 else (entry t r).status)
  pub sound : IsSound t.config.capacity (occupied t) t'.values
  pub type_eq : t'.values.type ≡ t.values.type
  pub value_eq : content t'.values rec ≡ w
  pub kept : (r : ℕ) → occupied t r ≡ true → r ≢ rec → content t'.values r ≡ content t.values r

pub Writes-IsWhole :
    {rec : ℕ} {w : List ℕ} {t t' : Table} {chains : ℕ → List ℕ}
    → Writes rec w t t'
    → occupied t rec ≡ true
    → IsWhole t chains
    → IsWhole t' chains
Writes-IsWhole {rec} {w} {t} {t'} s occ v =
    let same =
      λ (r : ℕ). status_changed_occupied t t' rec 1 r occ (λ z. absurd (omega arith)) s.status_eq in
    record {
      linked = SameLinks-IsLinked (SameShape-SameLinks s.shape same s.keys_eq) v.linked;
      keys =
          rw (s.shape.config_eq, s.keys_eq)
            (IsSound-fewer t.config.capacity (occupied t) (occupied t') t.keys
              (λ r h. sym (same r) ∙ h) v.keys);
      values = rw s.shape.config_eq (
          IsSound-fewer t.config.capacity (occupied t) (occupied t') t'.values
            (λ r h. sym (same r) ∙ h) s.sound);
      keys_known = rw s.keys_eq v.keys_known;
      values_known = rw s.type_eq v.values_known;
      creatable = rw s.shape.config_eq v.creatable;
    }

-- One record is in use with a key that no other has: all other pairs stay.
Maps-by :
    {t t' : Table} (rec : ℕ) (key w : List ℕ)
    → ((r : ℕ) → (entry t' r).status ≡ (if r == rec then 1 else (entry t r).status))
    → content t'.keys rec ≡ key
    → content t'.values rec ≡ w
    → ((r : ℕ)
        → occupied t r ≡ true
        → r ≢ rec
        → (content t'.keys r ≡ content t.keys r) × (content t'.values r ≡ content t.values r))
    → ((r : ℕ) → occupied t r ≡ true → content t.keys r ≡ key → r ≡ rec)
    → ((occupied t rec ≡ true) → content t.keys rec ≡ key)
    → Maps t t' key w
Maps-by {t} {t'} rec key w statuses has holds same only own k value = (
  λ (r, held). elim (Bool-cases (r == rec)) [
    | inl e ↦
        let at = (==_iff r rec).0 e in
        inl (
          sym held.key_eq ∙ ap (content t'.keys) at ∙ has,
          sym held.value_eq ∙ ap (content t'.values) at ∙ holds,
        )
    | inr e ↦
        let apart : r ≢ rec = λ d. absurd (cc ((==_iff r rec).1 d, e)) in
        let in_use : (entry t r).status ≡ 1 = rw e at (sym (statuses r) ∙ held.in_use) in
        let now = status_occupied t r in_use in
        let (key_same, value_same) = same r now apart in
        inr (
          λ d. apart (only r now (sym key_same ∙ held.key_eq ∙ d)),
          (
            r,
            record {
              in_use = in_use;
              key_eq = sym key_same ∙ held.key_eq;
              value_eq = sym value_same ∙ held.value_eq;
            },
          ),
        )
  ],
  elim [
    | inl (k_eq, value_eq) ↦
        let self : (rec == rec) ≡ true = (==_iff rec rec).1 refl in
        (
          rec,
          record {
            in_use = statuses rec ∙ rw self refl;
            key_eq = has ∙ sym k_eq;
            value_eq = holds ∙ sym value_eq;
          },
        )
    | inr (other, (r, held)) ↦
        let now = status_occupied t r held.in_use in
        let apart : r ≢ rec = λ d. other (
          sym held.key_eq ∙ ap (content t.keys) d ∙ own (subst (λ x. occupied t x ≡ true) d now)) in
        let (key_same, value_same) = same r now apart in
        elim (Bool-cases (r == rec)) [
          | inl e ↦ absurd (apart ((==_iff r rec).0 e))
          | inr e ↦ (
            r,
            record {
              in_use = statuses r ∙ rw e held.in_use;
              key_eq = key_same ∙ held.key_eq;
              value_eq = value_same ∙ held.value_eq;
            },
          )
        ]
  ],
)

pub Writes-Maps :
    {rec : ℕ} {w : List ℕ} {t t' : Table} {chains : ℕ → List ℕ}
    → Writes rec w t t'
    → occupied t rec ≡ true
    → IsWhole t chains
    → Maps t t' (content t.keys rec) w
Writes-Maps {rec} {w} {t} {t'} s occ v =
    Maps-by rec (content t.keys rec) w s.status_eq (ap (λ f. content f rec) s.keys_eq) s.value_eq
      (λ r now apart. (ap (λ f. content f r) s.keys_eq, s.kept r now apart))
      (λ r now same. v.linked.unique r rec now occ same) (λ _. refl)

one_used : ◌≢◌ {A = ℕ} 1 0
one_used z = absurd (omega arith)

pub Occupies-Maps :
    {rec : ℕ} {key value : List ℕ} {key_offset value_offset : ℕ} {t t' : Table}
    {chains : ℕ → List ℕ}
    → Occupies rec 1 key key_offset value value_offset t t'
    → IsWhole t chains
    → HasPlaceFor rec key key_offset value value_offset t
    → Maps t t' (key_of t key) (canon t.values.type t.values.size value)
Occupies-Maps {rec} {key} {value} {key_offset} {value_offset} {t} o w h =
    let used = one_used in
    let fresh : occupied t rec ≡ false = rw h.empty refl in
    Maps-by rec (key_of t key) (canon t.values.type t.values.size value) (filled_status o w h used)
      (filled_key o w h used) (filled_value o w h used)
      (λ r now apart. (filled_key_kept o w h used r now, filled_value_kept o w h used r now))
      (λ r now same. absurd (h.absent r now same)) (λ now. absurd (cc (now, fresh)))
