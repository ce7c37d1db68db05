-- ===== src/Table/Linked/Change.antt =====
-- What keeps the chains of a table in order: a step that leaves them alone, the removal of a record and
-- a new record.
use app_com_util.Base.{
  ℕ, ◌<◌, ◌≡◌, ◌≢◌, refl, ap, sym, ◌∙◌, true, false, List, ◌∷◌, ◌⊎◌, inl, inr, length, get_or,
  arith, Bool-cases, ◌==◌, ==_iff, if◌then◌else◌, ◌||◌, ◌&&◌,
}
use app_com_util.Field.Sound.{content}
use app_com_util.Table.{Table, entry}
use app_com_util.Table.Chain.{
  IsChain, IsChain-frame, contains, AreDistinct, remove, contains-remove, remove-AreDistinct,
}
use app_com_util.Table.Linked.{IsLinked, occupied, bucket, bucket-lt}

-- A step that leaves keys, links and the occupation of the records alone.
pub record SameLinks (t t' : Table) : Type 0 where
  pub config_eq : t'.config ≡ t.config
  pub heads_eq : t'.bucket_head ≡ t.bucket_head
  pub length_eq : length t'.entries ≡ length t.entries
  pub next_eq : (r : ℕ) → (entry t' r).next ≡ (entry t r).next
  pub occupied_eq : (r : ℕ) → occupied t' r ≡ occupied t r
  pub keys_eq : t'.keys ≡ t.keys

pub SameLinks-IsLinked :
    {t t' : Table} {chains : ℕ → List ℕ} → SameLinks t t' → IsLinked t chains → IsLinked t' chains
SameLinks-IsLinked {t} {t'} {chains} s v = record {
  capacity_pos = rw s.config_eq v.capacity_pos;
  type_eq = rw (s.config_eq, s.keys_eq) v.type_eq;
  size_eq = rw (s.config_eq, s.keys_eq) v.size_eq;
  heads_eq = rw (s.config_eq, s.heads_eq) v.heads_eq;
  entries_eq = rw (s.config_eq, s.length_eq) v.entries_eq;
  chain =
      rw (s.config_eq, s.heads_eq)
        (λ i h.
          IsChain-frame t.entries t'.entries (get_or t.bucket_head i 0) (chains i)
            (λ r c. s.next_eq r) (v.chain i h));
  distinct = rw s.config_eq v.distinct;
  member =
      rw (s.config_eq, s.keys_eq)
        (λ i r h c. let (now, at) = v.member i r h c in (s.occupied_eq r ∙ now, at));
  listed = rw (s.config_eq, s.keys_eq) (λ r h. v.listed r (sym (s.occupied_eq r) ∙ h));
  unique =
      rw s.keys_eq
        (λ r u h k e. v.unique r u (sym (s.occupied_eq r) ∙ h) (sym (s.occupied_eq u) ∙ k) e);
}

-- Record `rec` is taken out of its chain and becomes empty.
pub record Removes (rec : ℕ) (t t' : Table) (chains : ℕ → List ℕ) : Type 0 where
  pub config_eq : t'.config ≡ t.config
  pub type_eq : t'.keys.type ≡ t.keys.type
  pub size_eq : t'.keys.size ≡ t.keys.size
  pub heads_eq : length t'.bucket_head ≡ length t.bucket_head
  pub length_eq : length t'.entries ≡ length t.entries
  pub chain :
      (i : ℕ)
      → i < t.config.capacity
      → IsChain t'.entries (get_or t'.bucket_head i 0) (remove rec (chains i))
  pub occupied_eq : (r : ℕ) → occupied t' r ≡ (if r == rec then false else occupied t r)
  pub keys_eq : (r : ℕ) → occupied t r ≡ true → r ≢ rec → content t'.keys r ≡ content t.keys r

apart_of : (r s : ℕ) → (r == s) ≡ false → r ≢ s
apart_of r s other same = let self = (==_iff r s).1 same in cc (self, other)

other_of : (r s : ℕ) → r ≢ s → (r == s) ≡ false
other_of r s apart = elim (Bool-cases (r == s)) [
  | inl e ↦ absurd (apart ((==_iff r s).0 e))
  | inr e ↦ e
]

still_occupied :
    {rec : ℕ} {t t' : Table} {chains : ℕ → List ℕ} (s : Removes rec t t' chains) (r : ℕ)
    → occupied t' r ≡ true
    → (occupied t r ≡ true) × (r ≢ rec)
still_occupied {rec} s r h =
    let e = s.occupied_eq r in
    (
      ground arith,
      λ same. let self : (r == rec) ≡ true = (==_iff r rec).1 same in absurd (ground arith),
    )

pub Removes-IsLinked :
    {rec : ℕ} {t t' : Table} {chains : ℕ → List ℕ}
    → Removes rec t t' chains
    → IsLinked t chains
    → IsLinked t' (λ i. remove rec (chains i))
Removes-IsLinked {rec} {t} {t'} {chains} s v = record {
  capacity_pos = rw s.config_eq v.capacity_pos;
  type_eq = s.type_eq ∙ v.type_eq ∙ ap (λ c. c.key_type) (sym s.config_eq);
  size_eq = s.size_eq ∙ v.size_eq ∙ ap (λ c. c.key_size) (sym s.config_eq);
  heads_eq = s.heads_eq ∙ v.heads_eq ∙ ap (λ c. c.capacity) (sym s.config_eq);
  entries_eq = s.length_eq ∙ v.entries_eq ∙ ap (λ c. c.capacity) (sym s.config_eq);
  chain = rw s.config_eq s.chain;
  distinct = rw s.config_eq (λ i h. remove-AreDistinct rec (chains i) (v.distinct i h));
  member = rw s.config_eq (λ i r h c.
      let left = contains-remove rec r (chains i) (v.distinct i h) in
      let before : contains r (chains i) ≡ true = ground arith in
      let other : (r == rec) ≡ false = ground arith in
      let (now, at) = v.member i r h before in
      let still = s.occupied_eq r in
      (ground arith, ap (bucket t.config.capacity) (s.keys_eq r now (apart_of r rec other)) ∙ at));
  listed = rw s.config_eq (λ r h.
      let (now, apart) = still_occupied s r h in
      let i = bucket t.config.capacity (content t.keys r) in
      let left =
        contains-remove rec r (chains i)
          (v.distinct i (bucket-lt t.config.capacity (content t.keys r) v.capacity_pos)) in
      let in_chain = v.listed r now in
      let other : (r == rec) ≡ false = other_of r rec apart in
      rw (s.keys_eq r now apart, left, other) in_chain);
  unique = λ r u h k e.
      let (now, apart) = still_occupied s r h in
      let (now', apart') = still_occupied s u k in
      v.unique r u now now' (sym (s.keys_eq r now apart) ∙ e ∙ s.keys_eq u now' apart');
}

-- The chains with record `rec` at the head of bucket `idx`.
abbrev pub push : ℕ → ℕ → (ℕ → List ℕ) → ℕ → List ℕ
push rec idx chains i = if i == idx then rec ∷ chains i else chains i

-- The empty record `rec` gets a key that no record has.
pub record Adds (rec : ℕ) (bytes : List ℕ) (t t' : Table) (chains : ℕ → List ℕ) : Type 0 where
  pub config_eq : t'.config ≡ t.config
  pub type_eq : t'.keys.type ≡ t.keys.type
  pub size_eq : t'.keys.size ≡ t.keys.size
  pub heads_eq : length t'.bucket_head ≡ length t.bucket_head
  pub length_eq : length t'.entries ≡ length t.entries
  pub fresh : occupied t rec ≡ false
  pub absent : (r : ℕ) → occupied t r ≡ true → content t.keys r ≢ bytes
  pub chain :
      (i : ℕ)
      → i < t.config.capacity
      → IsChain t'.entries
          (get_or t'.bucket_head i 0)
          (push rec (bucket t.config.capacity bytes) chains i)
  pub occupied_eq : (r : ℕ) → occupied t' r ≡ (if r == rec then true else occupied t r)
  pub key_eq : content t'.keys rec ≡ bytes
  pub keys_eq : (r : ℕ) → occupied t r ≡ true → content t'.keys r ≡ content t.keys r

not_listed :
    {t : Table} {chains : ℕ → List ℕ} (v : IsLinked t chains) (rec i : ℕ)
    → i < t.config.capacity
    → occupied t rec ≡ false
    → contains rec (chains i) ≡ false
not_listed {t} {chains} v rec i h fresh = elim (Bool-cases (contains rec (chains i))) [
  | inl e ↦ absurd (cc ((v.member i rec h e).0, fresh))
  | inr e ↦ e
]

-- What holds of every occupied record after the step.
now_occupied :
    {rec : ℕ} {bytes : List ℕ} {t t' : Table} {chains : ℕ → List ℕ} (s : Adds rec bytes t t' chains)
    (r : ℕ)
    → occupied t' r ≡ true
    → ((r ≡ rec) × (content t'.keys r ≡ bytes))
      ⊎ (((r == rec) ≡ false) × (occupied t r ≡ true) × (content t'.keys r ≡ content t.keys r))
now_occupied {rec} {bytes} {t} {t'} s r h = elim (Bool-cases (r == rec)) [
  | inl e ↦ let same = (==_iff r rec).0 e in inl (same, ap (content t'.keys) same ∙ s.key_eq)
  | inr e ↦
      let before : occupied t r ≡ true = ground (arith, s.occupied_eq r) in
      inr (e, before, s.keys_eq r before)
]

push-AreDistinct :
    (rec idx i : ℕ) (chains : ℕ → List ℕ)
    → contains rec (chains i) ≡ false
    → AreDistinct (chains i)
    → AreDistinct (push rec idx chains i)
push-AreDistinct rec idx i chains fresh d = elim (Bool-cases (i == idx)) [
  | inl e ↦ rw e (fresh, d)
  | inr e ↦ rw e d
]

contains-push :
    (rec idx i r : ℕ) (chains : ℕ → List ℕ)
    → contains r (push rec idx chains i) ≡ (((i == idx) && (r == rec)) || contains r (chains i))
contains-push rec idx i r chains = elim (Bool-cases (i == idx)) [
  | inl e ↦ rw e refl
  | inr e ↦ rw e refl
]

Adds-member :
    {rec : ℕ} {bytes : List ℕ} {t t' : Table} {chains : ℕ → List ℕ} (s : Adds rec bytes t t' chains)
    (v : IsLinked t chains) (i r : ℕ)
    → i < t.config.capacity
    → contains r (push rec (bucket t.config.capacity bytes) chains i) ≡ true
    → (occupied t' r ≡ true) × (bucket t.config.capacity (content t'.keys r) ≡ i)
Adds-member {rec} {bytes} {t} {t'} {chains} s v i r h c =
    let idx = bucket t.config.capacity bytes in
    let how = contains-push rec idx i r chains in
    elim (Bool-cases (contains r (chains i))) [
      | inl e ↦
          let (now, at) = v.member i r h e in
          let after = s.occupied_eq r in
          (ground arith, ap (bucket t.config.capacity) (s.keys_eq r now) ∙ at)
      | inr e ↦
          let here : (i == idx) ≡ true = ground arith in
          let self : (r == rec) ≡ true = ground arith in
          let same = (==_iff r rec).0 self in
          (
            s.occupied_eq r ∙ rw self refl,
            ap (λ x. bucket t.config.capacity (content t'.keys x)) same
                ∙ ap (bucket t.config.capacity) s.key_eq
                ∙ sym ((==_iff i idx).0 here),
          )
    ]

Adds-listed :
    {rec : ℕ} {bytes : List ℕ} {t t' : Table} {chains : ℕ → List ℕ} (s : Adds rec bytes t t' chains)
    (v : IsLinked t chains) (r : ℕ)
    → occupied t' r ≡ true
    → contains r (
        push rec
          (bucket t.config.capacity bytes)
          chains
          (bucket t.config.capacity (content t'.keys r)))
      ≡ true
Adds-listed {rec} {bytes} {t} {t'} {chains} s v r h =
    let idx = bucket t.config.capacity bytes in
    elim (now_occupied s r h) [
      | inl (same, has) ↦
          let self : (r == rec) ≡ true = (==_iff r rec).1 same in
          let here : (idx == idx) ≡ true = (==_iff idx idx).1 refl in
          ap (λ b. contains r (push rec idx chains (bucket t.config.capacity b))) has
          ∙ contains-push rec idx idx r chains
          ∙ rw (here, self) refl
      | inr (_, before, keeps) ↦
          let i = bucket t.config.capacity (content t.keys r) in
          let in_chain = v.listed r before in
          ap (λ b. contains r (push rec idx chains (bucket t.config.capacity b))) keeps
          ∙ contains-push rec idx i r chains
          ∙ ground arith
    ]

pub Adds-IsLinked :
    {rec : ℕ} {bytes : List ℕ} {t t' : Table} {chains : ℕ → List ℕ}
    → Adds rec bytes t t' chains
    → IsLinked t chains
    → IsLinked t' (push rec (bucket t.config.capacity bytes) chains)
Adds-IsLinked {rec} {bytes} {t} {t'} {chains} s v = record {
  capacity_pos = rw s.config_eq v.capacity_pos;
  type_eq = s.type_eq ∙ v.type_eq ∙ ap (λ c. c.key_type) (sym s.config_eq);
  size_eq = s.size_eq ∙ v.size_eq ∙ ap (λ c. c.key_size) (sym s.config_eq);
  heads_eq = s.heads_eq ∙ v.heads_eq ∙ ap (λ c. c.capacity) (sym s.config_eq);
  entries_eq = s.length_eq ∙ v.entries_eq ∙ ap (λ c. c.capacity) (sym s.config_eq);
  chain = rw s.config_eq s.chain;
  distinct = rw s.config_eq (λ i h.
      push-AreDistinct rec (bucket t.config.capacity bytes) i chains (not_listed v rec i h s.fresh)
        (v.distinct i h));
  member = rw s.config_eq (λ i r h c. Adds-member s v i r h c);
  listed = rw s.config_eq (λ r h. Adds-listed s v r h);
  unique = λ r u h k e. elim (now_occupied s r h) [
    | inl (same, has) ↦ elim (now_occupied s u k) [
      | inl (same', _) ↦ same ∙ sym same'
      | inr (_, before, keeps) ↦ absurd (s.absent u before (sym keeps ∙ sym e ∙ has))
    ]
    | inr (_, before, keeps) ↦ elim (now_occupied s u k) [
      | inl (_, has) ↦ absurd (s.absent r before (sym keeps ∙ e ∙ has))
      | inr (_, before', keeps') ↦ v.unique r u before before' (sym keeps ∙ e ∙ keeps')
    ]
  ];
}
