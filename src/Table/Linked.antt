-- ===== src/Table/Linked.antt =====
-- The chains of a table: every record with a key stands in the chain of its key's bucket, and in no
-- other place; and what a search along them finds.
pub mod Change
pub mod Cut
pub mod Walk
pub mod Removal
use app_com_util.Base.{
  ℕ, zero, suc, ◌+◌, ◌-◌, ◌%◌, ◌≤◌, ◌<◌, ◌≡◌, ◌≢◌, ◌↔◌, refl, ap, ap₂, subst, sym, ◌∙◌, Bool, true,
  false, not, List, [], ◌∷◌, ◌⊎◌, inl, inr, Option, none, some, length, get_or, arith, take,
  Bool-cases, ◌==◌, ==_iff, if◌then◌else◌, ◌||◌, ◌&&◌,
}
use native.Mathlib.Nat.{mod-lt}
use app_com_util.Bytes.{c_string, bytes_equal}
use app_com_util.Field.{field_at}
use app_com_util.Field.Sound.{canon, content}
use app_com_util.Layout.{fixed_binary}
use app_com_util.Table.{
  Table, Entry, empty_entry, entry, hash_bytes, hash_key, key_equal, chain_find, find_key,
}
use app_com_util.Table.Chain.{IsChain, contains, AreDistinct, length-AreDistinct, contains_tail}

-- Whether a record has a key: it is in use or deleted.
abbrev pub occupied : Table → ℕ → Bool
occupied t r = not ((entry t r).status == 0)

-- A key as the table reads it, and its bucket.
abbrev pub key_of : Table → List ℕ → List ℕ
key_of t key = canon t.config.key_type t.config.key_size key

unfoldable pub bucket : ℕ → List ℕ → ℕ
bucket capacity bytes = hash_bytes 5381 bytes % capacity

pub record IsLinked (t : Table) (chains : ℕ → List ℕ) : Type 0 where
  pub capacity_pos : 0 < t.config.capacity
  pub type_eq : t.keys.type ≡ t.config.key_type
  pub size_eq : t.keys.size ≡ t.config.key_size
  pub heads_eq : length t.bucket_head ≡ t.config.capacity
  pub entries_eq : length t.entries ≡ t.config.capacity
  pub chain :
      (i : ℕ) → i < t.config.capacity → IsChain t.entries (get_or t.bucket_head i 0) (chains i)
  pub distinct : (i : ℕ) → i < t.config.capacity → AreDistinct (chains i)
  pub member :
      (i r : ℕ)
      → i < t.config.capacity
      → contains r (chains i) ≡ true
      → (occupied t r ≡ true) × (bucket t.config.capacity (content t.keys r) ≡ i)
  pub listed :
      (r : ℕ)
      → occupied t r ≡ true
      → contains r (chains (bucket t.config.capacity (content t.keys r))) ≡ true
  pub unique :
      (r s : ℕ)
      → occupied t r ≡ true
      → occupied t s ≡ true
      → content t.keys r ≡ content t.keys s
      → r ≡ s

-- Only the table's records are occupied.
status_below :
    (es : List Entry) (r : ℕ) → not ((get_or es r empty_entry).status == 0) ≡ true → r < length es
status_below [] r h = absurd (ground arith)
status_below (e ∷ es) zero h = omega arith
status_below (e ∷ es) (suc r) h = omega (arith, status_below es r h)

pub occupied_below :
    {t : Table} {chains : ℕ → List ℕ} (v : IsLinked t chains) (r : ℕ)
    → occupied t r ≡ true
    → r < t.config.capacity
occupied_below {t} v r h = omega (arith, status_below t.entries r h, v.entries_eq)

-- A chain is no longer than the capacity, which is the fuel of the walks.
pub length-chain :
    {t : Table} {chains : ℕ → List ℕ} (v : IsLinked t chains) (i : ℕ)
    → i < t.config.capacity
    → length (chains i) ≤ t.config.capacity
length-chain {t} {chains} v i h =
    length-AreDistinct t.config.capacity (chains i) (v.distinct i h)
      (λ r c. occupied_below v r ((v.member i r h c).0))

abbrev tail : List ℕ → List ℕ
tail [] = []
tail (x ∷ xs) = xs

pub bytes_equal_iff : (a b : List ℕ) → (bytes_equal a b ≡ true) ↔ (a ≡ b)
bytes_equal_iff [] [] = (λ _. refl, λ _. refl)
bytes_equal_iff [] (b ∷ bs) = (λ h. cc, λ h. absurd (omega (arith, ap length h)))
bytes_equal_iff (a ∷ as') [] = (λ h. cc, λ h. absurd (omega (arith, ap length h)))
bytes_equal_iff (a ∷ as') (b ∷ bs) =
    let (sound, complete) = bytes_equal_iff as' bs in
    (
      λ h.
          let first : a ≡ b = ground arith in
          let rest : bytes_equal as' bs ≡ true = ground arith in
          ap₂ (λ x l. x ∷ l) first (sound rest),
      λ h.
          let first : a ≡ b = ap (λ l. get_or l 0 0) h in
          let rest : as' ≡ bs = ap (λ l. tail l) h in let r = complete rest in ground arith,
    )

pub hash_key-bucket :
    (t : Table) (key : List ℕ) → hash_key t key ≡ bucket t.config.capacity (key_of t key)
unfolding hash_key bucket
hash_key-bucket t key = elim (Bool-cases (t.config.key_type == fixed_binary)) [
  | inl e ↦ rw e refl
  | inr e ↦ rw e refl
]

key_equal-canon :
    (t : Table) (stored key : List ℕ)
    → key_equal t stored key ≡ bytes_equal (key_of t stored) (key_of t key)
unfolding key_equal
key_equal-canon t stored key = elim (Bool-cases (t.config.key_type == fixed_binary)) [
  | inl e ↦ rw e refl
  | inr e ↦ rw e refl
]

pub content-key_of :
    {t : Table} {chains : ℕ → List ℕ} (v : IsLinked t chains) (r : ℕ)
    → content t.keys r ≡ key_of t (field_at t.keys r)
unfolding content
content-key_of {t} v r = ap₂ (λ type size. canon type size (field_at t.keys r)) v.type_eq v.size_eq

pub key_equal-content :
    {t : Table} {chains : ℕ → List ℕ} (v : IsLinked t chains) (r : ℕ) (key : List ℕ)
    → key_equal t (field_at t.keys r) key ≡ bytes_equal (content t.keys r) (key_of t key)
key_equal-content {t} v r key =
    key_equal-canon t (field_at t.keys r) key
    ∙ ap (λ stored. bytes_equal stored (key_of t key)) (sym (content-key_of v r))

-- The first record of a chain with a key, counted from 1; 0 if there is none.
abbrev pub first_match : Table → List ℕ → List ℕ → ℕ
first_match t key [] = 0
first_match t key (r ∷ rs) =
    if key_equal t (field_at t.keys r) key then suc r else first_match t key rs

-- With fuel for the chain the walk ends.
pub chain_find-eq :
    (fuel : ℕ) (t : Table) (key : List ℕ) (cur : ℕ) (rs : List ℕ)
    → IsChain t.entries cur rs
    → length rs ≤ fuel
    → chain_find fuel t key cur ≡ some (first_match t key rs)
unfolding chain_find
chain_find-eq zero t key cur [] h k = rw h refl
chain_find-eq (suc fuel) t key cur [] h k = rw h refl
chain_find-eq zero t key cur (r ∷ rs) h k = absurd (omega arith)
chain_find-eq (suc fuel) t key cur (r ∷ rs) h k =
    let back : suc r - 1 ≡ r = omega arith in
    let positive : (suc r == 0) ≡ false = ground arith in
    let further =
      chain_find-eq fuel t key (get_or t.entries r empty_entry).next rs h.1 (omega arith) in
    rw (h.0, back, positive, further)
      (elim (Bool-cases (key_equal t (field_at t.keys r) key)) [
        | inl e ↦ rw e refl
        | inr e ↦ rw e refl
      ])

-- What the search for a key, read as `bytes`, answers: the number of the one record that has it,
-- counted from 1, or 0 if no record has.
abbrev pub FindsKey : Table → List ℕ → ℕ → Type 0
FindsKey t bytes zero = (r : ℕ) → occupied t r ≡ true → content t.keys r ≢ bytes
FindsKey t bytes (suc r) = (occupied t r ≡ true) × (content t.keys r ≡ bytes)

first_match_sound :
    {t : Table} {chains : ℕ → List ℕ} (v : IsLinked t chains) (key : List ℕ) (rs : List ℕ)
    → ((r : ℕ) → contains r rs ≡ true → occupied t r ≡ true)
    → (first_match t key rs ≡ 0)
        × ((r : ℕ) → contains r rs ≡ true → content t.keys r ≢ key_of t key)
      ⊎ ((r : ℕ) × (first_match t key rs ≡ suc r)
          × (occupied t r ≡ true)
          × (content t.keys r ≡ key_of t key))
first_match_sound {t} v key [] h = inl (refl, λ r c. absurd (ground arith))
first_match_sound {t} v key (r ∷ rs) h =
    let (sound, complete) = bytes_equal_iff (content t.keys r) (key_of t key) in
    let same = key_equal-content v r key in
    let self : (r == r) ≡ true = (==_iff r r).1 refl in
    elim (Bool-cases (key_equal t (field_at t.keys r) key)) [
      | inl e ↦ inr (r, rw e refl, h r (rw self refl), sound (sym same ∙ e))
      | inr e ↦ elim (first_match_sound v key rs (λ s c. h s (contains_tail r s rs c))) [
        | inl (none_found, apart) ↦ inl (
          rw e none_found,
          λ s c. elim (Bool-cases (s == r)) [
            | inl same_record ↦ λ found.
                let has = complete (
                  subst (λ x. content t.keys x ≡ key_of t key) ((==_iff s r).0 same_record)
                    found) in
                cc (has, same, e)
            | inr other ↦ apart s (ground arith)
          ],
        )
        | inr (s, found, now, has) ↦ inr (s, rw e found, now, has)
      ]
    ]

pub bucket-lt : (capacity : ℕ) (bytes : List ℕ) → 0 < capacity → bucket capacity bytes < capacity
unfolding bucket
bucket-lt capacity bytes pos = mod-lt (hash_bytes 5381 bytes) pos

-- The search along the chain of the key's bucket.
pub first_match-FindsKey :
    {t : Table} {chains : ℕ → List ℕ} (v : IsLinked t chains) (key : List ℕ)
    → FindsKey t
        (key_of t key)
        (first_match t key (chains (bucket t.config.capacity (key_of t key))))
first_match-FindsKey {t} {chains} v key =
    let i = bucket t.config.capacity (key_of t key) in
    let below = bucket-lt t.config.capacity (key_of t key) v.capacity_pos in
    elim (first_match_sound v key (chains i) (λ r c. (v.member i r below c).0)) [
      | inl (none_found, apart) ↦ rw none_found (λ r now same.
          apart r
            (subst (λ b. contains r (chains (bucket t.config.capacity b)) ≡ true) same
              (v.listed r now))
            same)
      | inr (r, found, now, has) ↦ rw found (now, has)
    ]

-- In a linked table the search for a key ends, and finds the one record that has the key, in use or
-- deleted; it finds none only if no record has it.
pub find_key-FindsKey :
    (t : Table) (chains : ℕ → List ℕ) (key : List ℕ)
    → IsLinked t chains
    → (n : ℕ) × (find_key t key ≡ some n) × FindsKey t (key_of t key) n
unfolding find_key
find_key-FindsKey t chains key v =
    let i = bucket t.config.capacity (key_of t key) in
    let below = bucket-lt t.config.capacity (key_of t key) v.capacity_pos in
    let found =
      chain_find-eq t.config.capacity t key (get_or t.bucket_head i 0) (chains i) (v.chain i below)
        (length-chain v i below) in
    (first_match t key (chains i), rw (hash_key-bucket t key) found, first_match-FindsKey v key)
