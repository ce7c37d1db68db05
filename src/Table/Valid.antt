-- ===== src/Table/Valid.antt =====
-- What holds of a table between two calls, the map that it stands for, and what the emptying of a
-- record leaves of both.
use app_com_util.Base.{
  ℕ, ◌≤◌, ◌<◌, ◌≡◌, ◌≢◌, refl, ap, sym, ◌∙◌, true, false, not, List, inl, inr, length, set, arith,
  Bool-cases, ◌==◌, ==_iff, if◌then◌else◌,
}
use app_com_util.Field.{release}
use app_com_util.Field.Storage.{mark}
use app_com_util.Field.Sound.{
  IsSound, IsSound-fewer, content, release-IsSound, release-SameSettings,
}
use app_com_util.Base.Words.{u64_mod}
use app_com_util.Layout.{Config, variable_string}
use app_com_util.Layout.Settings.{IsAccepted}
use app_com_util.Table.{Table, entry}
use app_com_util.Table.Counts.{table_statuses, CountsAgree}
use app_com_util.Table.Chain.{remove}
use app_com_util.Table.Linked.{occupied, occupied_below, IsLinked}
use app_com_util.Table.Linked.Change.{Removes, Removes-IsLinked, SameLinks, SameLinks-IsLinked}
use app_com_util.Table.Linked.Cut.{Cut}
use app_com_util.Table.Linked.Removal.{own_link, Cut-chains}
use app_com_util.Table.Shape.{SameShape, status_changed}

-- Settings that a table can be created with, whose sizes fit 64 bits.
pub record IsCreatable (c : Config) : Type 0 where
  pub accepted : IsAccepted c
  pub capacity_small : c.capacity < u64_mod
  pub keys_small : c.key_storage_size < u64_mod
  pub values_small : c.value_storage_size < u64_mod

-- Links and fields agree with the statuses.
pub record IsWhole (t : Table) (chains : ℕ → List ℕ) : Type 0 where
  pub linked : IsLinked t chains
  pub keys : IsSound t.config.capacity (occupied t) t.keys
  pub values : IsSound t.config.capacity (occupied t) t.values
  pub keys_known : t.keys.type ≤ variable_string
  pub values_known : t.values.type ≤ variable_string
  pub creatable : IsCreatable t.config

-- The counters agree too.
pub record IsValid (t : Table) : Type 0 where
  pub chains : ℕ → List ℕ
  pub whole : IsWhole t chains
  pub counts : CountsAgree t

-- The map: a record in use has the key and the value.
pub record HeldAt (t : Table) (key value : List ℕ) (r : ℕ) : Type 0 where
  pub in_use : (entry t r).status ≡ 1
  pub key_eq : content t.keys r ≡ key
  pub value_eq : content t.values r ≡ value

abbrev pub Holds : Table → List ℕ → List ℕ → Type 0
Holds t key value = (r : ℕ) × HeldAt t key value r

pub status_occupied : (t : Table) (r : ℕ) → (entry t r).status ≡ 1 → occupied t r ≡ true
status_occupied t r e = rw e refl

-- Settings, links, keys and occupation are the same: so is the order of the chains.
pub SameShape-SameLinks :
    {t t' : Table}
    → SameShape t t'
    → ((r : ℕ) → occupied t' r ≡ occupied t r)
    → t'.keys ≡ t.keys
    → SameLinks t t'
SameShape-SameLinks s o k = record {
  config_eq = s.config_eq;
  heads_eq = s.heads_eq;
  length_eq = s.length_eq;
  next_eq = s.next_eq;
  occupied_eq = o;
  keys_eq = k;
}

-- Record `rec` is cut out of its chain, gives back its key and its value, and becomes empty.
pub record Empties (rec : ℕ) (t t' : Table) (chains : ℕ → List ℕ) : Type 0 where
  pub config_eq : t'.config ≡ t.config
  pub heads_eq : length t'.bucket_head ≡ length t.bucket_head
  pub length_eq : length t'.entries ≡ length t.entries
  pub cut : Cut t t' (own_link t chains rec) rec
  pub statuses_eq : table_statuses t' ≡ set (table_statuses t) rec 0
  pub keys_eq : t'.keys ≡ release t.keys rec
  pub values_eq : t'.values ≡ release t.values rec

module _ {rec : ℕ} {t t' : Table} {chains : ℕ → List ℕ} (s : Empties rec t t' chains)
    (w : IsWhole t chains) (now : occupied t rec ≡ true) where
  inside : rec < length t.entries
  inside = omega (arith, occupied_below w.linked rec now, w.linked.entries_eq)

  pub emptied_status : (r : ℕ) → (entry t' r).status ≡ (if r == rec then 0 else (entry t r).status)
  emptied_status r = status_changed t t' rec 0 r inside s.statuses_eq

  pub emptied_occupied : (r : ℕ) → occupied t' r ≡ (if r == rec then false else occupied t r)
  emptied_occupied r =
      let e = emptied_status r in
      elim (Bool-cases (r == rec)) [
        | inl d ↦ rw d (ap (λ x. not (x == 0)) (rw d at e))
        | inr d ↦ rw d (ap (λ x. not (x == 0)) (rw d at e))
      ]

  fewer : (r : ℕ) → occupied t' r ≡ true → mark (occupied t) rec false r ≡ true
  fewer r h = sym (emptied_occupied r) ∙ h

  emptied_keys :
      IsSound t.config.capacity (mark (occupied t) rec false) (release t.keys rec)
      × ((r : ℕ)
          → occupied t r ≡ true
          → r ≢ rec
          → content (release t.keys rec) r ≡ content t.keys r)
  emptied_keys = release-IsSound t.config.capacity (occupied t) t.keys rec w.keys now

  emptied_values :
      IsSound t.config.capacity (mark (occupied t) rec false) (release t.values rec)
      × ((r : ℕ)
          → occupied t r ≡ true
          → r ≢ rec
          → content (release t.values rec) r ≡ content t.values r)
  emptied_values = release-IsSound t.config.capacity (occupied t) t.values rec w.values now

  pub emptied_key : (r : ℕ) → occupied t r ≡ true → r ≢ rec → content t'.keys r ≡ content t.keys r
  emptied_key r h d = ap (λ f. content f r) s.keys_eq ∙ emptied_keys.1 r h d

  pub emptied_value :
      (r : ℕ) → occupied t r ≡ true → r ≢ rec → content t'.values r ≡ content t.values r
  emptied_value r h d = ap (λ f. content f r) s.values_eq ∙ emptied_values.1 r h d

  Empties-Removes : Removes rec t t' chains
  Empties-Removes = record {
    config_eq = s.config_eq;
    type_eq = ap (λ f. f.type) s.keys_eq ∙ (release-SameSettings t.keys rec).type_eq;
    size_eq = ap (λ f. f.size) s.keys_eq ∙ (release-SameSettings t.keys rec).size_eq;
    heads_eq = s.heads_eq;
    length_eq = s.length_eq;
    chain = Cut-chains w.linked t' rec now s.cut;
    occupied_eq = emptied_occupied;
    keys_eq = emptied_key;
  }

  pub Empties-IsWhole : IsWhole t' (λ i. remove rec (chains i))
  Empties-IsWhole = record {
    linked = Removes-IsLinked Empties-Removes w.linked;
    keys =
        rw (s.config_eq, s.keys_eq)
          (IsSound-fewer t.config.capacity (mark (occupied t) rec false) (occupied t')
            (release t.keys rec) fewer emptied_keys.0);
    values =
        rw (s.config_eq, s.values_eq)
          (IsSound-fewer t.config.capacity (mark (occupied t) rec false) (occupied t')
            (release t.values rec) fewer emptied_values.0);
    keys_known = rw (s.keys_eq, (release-SameSettings t.keys rec).type_eq) w.keys_known;
    values_known = rw (s.values_eq, (release-SameSettings t.values rec).type_eq) w.values_known;
    creatable = rw s.config_eq w.creatable;
  }

-- Links, fields and occupation stay as they are.
pub SameShape-IsWhole :
    {t t' : Table} {chains : ℕ → List ℕ}
    → SameShape t t'
    → ((r : ℕ) → occupied t' r ≡ occupied t r)
    → t'.keys ≡ t.keys
    → t'.values ≡ t.values
    → IsWhole t chains
    → IsWhole t' chains
SameShape-IsWhole {t} {t'} s o k v w =
    let still = λ (r : ℕ) (h : occupied t' r ≡ true). sym (o r) ∙ h in
    record {
      linked = SameLinks-IsLinked (SameShape-SameLinks s o k) w.linked;
      keys =
          rw (s.config_eq, k)
            (IsSound-fewer t.config.capacity (occupied t) (occupied t') t.keys still w.keys);
      values =
          rw (s.config_eq, v)
            (IsSound-fewer t.config.capacity (occupied t) (occupied t') t.values still w.values);
      keys_known = rw k w.keys_known;
      values_known = rw v w.values_known;
      creatable = rw s.config_eq w.creatable;
    }

-- A record with a key gets another status, which is not that of an empty one.
pub status_changed_occupied :
    (t t' : Table) (rec s r : ℕ)
    → occupied t rec ≡ true
    → s ≢ 0
    → ((r : ℕ) → (entry t' r).status ≡ (if r == rec then s else (entry t r).status))
    → occupied t' r ≡ occupied t r
status_changed_occupied t t' rec s r occ some_status statuses =
    let e = statuses r in
    elim (Bool-cases (r == rec)) [
      | inl d ↦
          let at : (entry t' r).status ≡ s = rw d at e in
          ap (λ x. not (x == 0)) at
          ∙ ground (arith, some_status)
          ∙ sym occ
          ∙ ap (occupied t) (sym ((==_iff r rec).0 d))
      | inr d ↦ ap (λ x. not (x == 0)) (rw d at e)
    ]
