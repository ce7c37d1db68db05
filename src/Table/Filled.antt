-- ===== src/Table/Filled.antt =====
-- A new key gets an empty record: what that makes of a whole table and of its map.
use app_com_util.Base.{
  ℕ, ◌+◌, ◌<◌, ◌≡◌, ◌≢◌, refl, ap, ap₂, sym, ◌∙◌, true, false, not, List, inl, inr, length,
  length-set, get_or, set, arith, Bool-cases, ◌==◌, ==_iff, if◌then◌else◌, get_or-set_self,
  get_or-set_ne,
}
use app_com_util.Field.{store}
use app_com_util.Field.Storage.{mark}
use app_com_util.Field.Sound.{
  IsSound, IsSound-fewer, IsInput, HasRoom, canon, content, store-IsSound, store-SameSettings,
}
use app_com_util.Table.{Table, entry}
use app_com_util.Table.Counts.{table_statuses}
use app_com_util.Table.Chain.{IsChain, IsChain-frame}
use app_com_util.Table.Linked.{occupied, key_of, bucket}
use app_com_util.Table.Linked.Change.{Adds, Adds-IsLinked, push}
use app_com_util.Table.Shape.{status_changed}
use app_com_util.Table.Valid.{IsWhole}

-- The empty record `rec` gets the status `s`, a key and a value, and heads the bucket of the key.
pub record Occupies (rec s : ℕ) (key : List ℕ) (key_offset : ℕ) (value : List ℕ) (value_offset : ℕ)
    (t t' : Table) : Type 0 where
  pub config_eq : t'.config ≡ t.config
  pub heads_eq :
      t'.bucket_head ≡ set t.bucket_head (bucket t.config.capacity (key_of t key)) (rec + 1)
  pub length_eq : length t'.entries ≡ length t.entries
  pub next_eq :
      (r : ℕ)
      → (entry t' r).next ≡ (
          if r == rec
          then get_or t.bucket_head (bucket t.config.capacity (key_of t key)) 0
          else (entry t r).next)
  pub statuses_eq : table_statuses t' ≡ set (table_statuses t) rec s
  pub keys_eq : t'.keys ≡ store t.keys rec key key_offset
  pub values_eq : t'.values ≡ store t.values rec value value_offset

-- What the step needs: the record is empty, the key new, and there is room.
pub record HasPlaceFor (rec : ℕ) (key : List ℕ) (key_offset : ℕ) (value : List ℕ) (value_offset : ℕ)
    (t : Table) : Type 0 where
  pub below : rec < t.config.capacity
  pub empty : (entry t rec).status ≡ 0
  pub absent : (r : ℕ) → occupied t r ≡ true → content t.keys r ≢ key_of t key
  pub key_input : IsInput t.keys key
  pub value_input : IsInput t.values value
  pub key_room : HasRoom t.keys key key_offset
  pub value_room : HasRoom t.values value value_offset

module _ {rec s key_offset value_offset : ℕ} {key value : List ℕ} {t t' : Table}
    {chains : ℕ → List ℕ} (o : Occupies rec s key key_offset value value_offset t t')
    (w : IsWhole t chains) (h : HasPlaceFor rec key key_offset value value_offset t)
    (some_status : s ≢ 0) where
  fresh : occupied t rec ≡ false
  fresh = rw h.empty refl

  pub filled_status : (r : ℕ) → (entry t' r).status ≡ (if r == rec then s else (entry t r).status)
  filled_status r =
      status_changed t t' rec s r (omega (arith, h.below, w.linked.entries_eq)) o.statuses_eq

  filled_occupied : (r : ℕ) → occupied t' r ≡ (if r == rec then true else occupied t r)
  filled_occupied r =
      let e = filled_status r in
      elim (Bool-cases (r == rec)) [
        | inl d ↦
            let at : (entry t' r).status ≡ s = rw d at e in
            rw d (ap (λ x. not (x == 0)) at ∙ ground (arith, some_status))
        | inr d ↦ rw d (ap (λ x. not (x == 0)) (rw d at e))
      ]

  fewer : (r : ℕ) → occupied t' r ≡ true → mark (occupied t) rec true r ≡ true
  fewer r k = sym (filled_occupied r) ∙ k

  filled_keys :
      IsSound t.config.capacity (mark (occupied t) rec true) (store t.keys rec key key_offset)
      × (content (store t.keys rec key key_offset) rec ≡ canon t.keys.type t.keys.size key)
      × ((r : ℕ)
          → occupied t r ≡ true
          → content (store t.keys rec key key_offset) r ≡ content t.keys r)
  filled_keys =
      store-IsSound t.config.capacity (occupied t) t.keys rec key key_offset w.keys h.below fresh
        h.key_input h.key_room

  filled_values :
      IsSound t.config.capacity (mark (occupied t) rec true) (store t.values rec value value_offset)
      × (content (store t.values rec value value_offset) rec
          ≡ canon t.values.type t.values.size value)
      × ((r : ℕ)
          → occupied t r ≡ true
          → content (store t.values rec value value_offset) r ≡ content t.values r)
  filled_values =
      store-IsSound t.config.capacity (occupied t) t.values rec value value_offset w.values h.below
        fresh h.value_input h.value_room

  pub filled_key : content t'.keys rec ≡ key_of t key
  filled_key =
      ap (λ f. content f rec) o.keys_eq
      ∙ filled_keys.1
      ∙ ap₂ (λ type size. canon type size key) w.linked.type_eq w.linked.size_eq

  pub filled_value : content t'.values rec ≡ canon t.values.type t.values.size value
  filled_value = ap (λ f. content f rec) o.values_eq ∙ filled_values.1

  pub filled_key_kept : (r : ℕ) → occupied t r ≡ true → content t'.keys r ≡ content t.keys r
  filled_key_kept r k = ap (λ f. content f r) o.keys_eq ∙ filled_keys.2 r k

  pub filled_value_kept : (r : ℕ) → occupied t r ≡ true → content t'.values r ≡ content t.values r
  filled_value_kept r k = ap (λ f. content f r) o.values_eq ∙ filled_values.2 r k

  other-IsChain :
      (i cur : ℕ)
      → i < t.config.capacity
      → IsChain t.entries cur (chains i)
      → IsChain t'.entries cur (chains i)
  other-IsChain i cur below c =
      IsChain-frame t.entries t'.entries cur (chains i)
        (λ r m.
          let now = (w.linked.member i r below m).0 in
          let apart : (r == rec) ≡ false = elim (Bool-cases (r == rec)) [
            | inl e ↦ absurd (cc (ap (occupied t) ((==_iff r rec).0 e), now, fresh))
            | inr e ↦ e
          ] in
          o.next_eq r ∙ rw apart refl)
        c

  filled-IsChain :
      (i : ℕ)
      → i < t.config.capacity
      → IsChain t'.entries
          (get_or t'.bucket_head i 0)
          (push rec (bucket t.config.capacity (key_of t key)) chains i)
  filled-IsChain i below =
      let idx = bucket t.config.capacity (key_of t key) in
      let c = w.linked.chain i below in
      let self : (rec == rec) ≡ true = (==_iff rec rec).1 refl in
      elim (Bool-cases (i == idx)) [
        | inl e ↦
            let same = (==_iff i idx).0 e in
            let next : (entry t' rec).next ≡ get_or t.bucket_head i 0 =
              o.next_eq rec ∙ rw self (ap (λ k. get_or t.bucket_head k 0) (sym same)) in
            rw e (
              ap (λ heads. get_or heads i 0) o.heads_eq
                  ∙ ap (λ k. get_or (set t.bucket_head idx (rec + 1)) k 0) same
                  ∙ get_or-set_self t.bucket_head idx (rec + 1) 0
                      (omega (arith, below, same, w.linked.heads_eq))
                  ∙ omega arith,
              rw next (other-IsChain i (get_or t.bucket_head i 0) below c),
            )
        | inr e ↦
            let head : get_or t'.bucket_head i 0 ≡ get_or t.bucket_head i 0 =
              ap (λ heads. get_or heads i 0) o.heads_eq
              ∙ get_or-set_ne t.bucket_head idx i (rec + 1) 0
                  (λ same. absurd (cc ((==_iff i idx).1 (sym same), e))) in
            rw (e, head) (other-IsChain i (get_or t.bucket_head i 0) below c)
      ]

  Occupies-Adds : Adds rec (key_of t key) t t' chains
  Occupies-Adds = record {
    config_eq = o.config_eq;
    type_eq = ap (λ f. f.type) o.keys_eq ∙ (store-SameSettings t.keys rec key key_offset).type_eq;
    size_eq = ap (λ f. f.size) o.keys_eq ∙ (store-SameSettings t.keys rec key key_offset).size_eq;
    heads_eq =
        ap length o.heads_eq
        ∙ length-set t.bucket_head (bucket t.config.capacity (key_of t key)) (rec + 1);
    length_eq = o.length_eq;
    fresh = fresh;
    absent = h.absent;
    chain = filled-IsChain;
    occupied_eq = filled_occupied;
    key_eq = filled_key;
    keys_eq = filled_key_kept;
  }

  pub Occupies-IsWhole : IsWhole t' (push rec (bucket t.config.capacity (key_of t key)) chains)
  Occupies-IsWhole = record {
    linked = Adds-IsLinked Occupies-Adds w.linked;
    keys =
        rw (o.config_eq, o.keys_eq)
          (IsSound-fewer t.config.capacity (mark (occupied t) rec true) (occupied t')
            (store t.keys rec key key_offset) fewer filled_keys.0);
    values =
        rw (o.config_eq, o.values_eq)
          (IsSound-fewer t.config.capacity (mark (occupied t) rec true) (occupied t')
            (store t.values rec value value_offset) fewer filled_values.0);
    keys_known =
        rw (o.keys_eq, (store-SameSettings t.keys rec key key_offset).type_eq) w.keys_known;
    values_known =
        rw (o.values_eq, (store-SameSettings t.values rec value value_offset).type_eq)
          w.values_known;
    creatable = rw o.config_eq w.creatable;
  }
