-- ===== src/Table/Refilled.antt =====
-- A record for a new key is filled, an empty one or an evicted one: the table stays valid, and the map gets
-- the pair.
use app_com_util.Base.{
  ℕ, zero, suc, ◌+◌, ◌≤◌, ◌<◌, ◌≡◌, ◌≢◌, refl, ap, ap₂, sym, ◌∙◌, true, false, List, [], ◌∷◌, inl,
  inr, ◌↔◌, some, length, set, arith, Bool-cases, ◌==◌, ==_iff,
}
use app_com_util.Bytes.{strlen, has_nul}
use app_com_util.Field.{Field, find_free, key_fits, fixed_string_fits}
use app_com_util.Field.Sound.{
  IsInput, content, canon, release-SameSettings, find_free-HasRoom, find_free-HasRoom_released,
}
use app_com_util.Field.Replace.{release-IsInput}
use app_com_util.Layout.{variable_string, fixed_binary, field_is_variable}
use app_com_util.Timespec.{Timespec}
use app_com_util.Table.{Table, entry, hash_key}
use app_com_util.Table.Put.{fill}
use app_com_util.Table.Counts.{cut_record-Keeps}
use app_com_util.Table.Deleted.{cut_record-fields}
use app_com_util.Table.Linked.Removal.{own_link}
use app_com_util.Table.Fills.{fill-CountsAgree}
use app_com_util.Table.Linked.{occupied, key_of, bucket, hash_key-bucket}
use app_com_util.Table.Linked.Change.{push}
use app_com_util.Table.Chain.{remove}
use app_com_util.Table.Valid.{
  IsWhole, IsValid, Holds, status_occupied, Empties, Empties-IsWhole, emptied_status,
  emptied_occupied, emptied_key,
}
use app_com_util.Table.Filled.{HasPlaceFor, Occupies-IsWhole}
use app_com_util.Table.Written.{Maps, Occupies-Maps}
use app_com_util.Table.Answers.{HasKey, value_of}
use app_com_util.Table.Placed.{fill-Occupies}
use app_com_util.Table.Evicted.{
  evicted, emptied, emptied-Empties, Occupies-emptied, evicted-CountsAgree, Empties-Holds,
}

-- The bytes hold a NUL where the field holds strings.
abbrev pub IsTerminated : Field → List ℕ → Type 0
IsTerminated f input = (f.type == fixed_binary) ≡ false → strlen input < length input

has_nul-strlen : (n : ℕ) (cs : List ℕ) → has_nul n cs ≡ true → strlen cs + 1 ≤ n
has_nul-strlen zero cs h = absurd (ground arith)
has_nul-strlen (suc n) [] h = absurd (ground arith)
has_nul-strlen (suc n) (c ∷ cs) h = elim (Bool-cases (c == 0)) [
  | inl e ↦ rw e (omega arith)
  | inr e ↦ rw e (omega (arith, has_nul-strlen n cs (rw e at h)))
]

pub value-IsInput :
    (f : Field) (value : List ℕ)
    → f.type ≤ variable_string
    → IsTerminated f value
    → fixed_string_fits f value ≡ true
    → IsInput f value
unfolding fixed_string_fits
value-IsInput f value known ends fits = record {
  known = known;
  ends = ends;
  fits = λ type. has_nul-strlen f.size value (ground arith);
}

pub key-IsInput :
    (f : Field) (key : List ℕ)
    → f.type ≤ variable_string
    → IsTerminated f key
    → key_fits f key ≡ true
    → IsInput f key
unfolding key_fits field_is_variable
key-IsInput f key known ends fits = record {
  known = known;
  ends = ends;
  fits = λ type. has_nul-strlen f.size key (ground arith);
}

pub not_HasKey :
    (t : Table) (bytes : List ℕ)
    → ((r : ℕ) → occupied t r ≡ true → content t.keys r ≢ bytes)
    → ¬ HasKey t bytes
not_HasKey t bytes absent (value, (r, held)) =
    absurd (absent r (status_occupied t r held.in_use) held.key_eq)

Maps-before :
    {t u t' : Table} {key w : List ℕ}
    → ((k value : List ℕ) → Holds u k value ↔ Holds t k value)
    → Maps u t' key w
    → Maps t t' key w
Maps-before same m k value = (
  λ h. elim ((m k value).0 h) [
    | inl x ↦ inl x
    | inr (other, held) ↦ inr (other, (same k value).0 held)
  ],
  elim [
    | inl x ↦ (m k value).1 (inl x)
    | inr (other, held) ↦ (m k value).1 (inr (other, (same k value).1 held))
  ],
)

-- What a put of a new key needs.
pub record IsNew (t : Table) (key value : List ℕ) : Type 0 where
  pub absent : (r : ℕ) → occupied t r ≡ true → content t.keys r ≢ key_of t key
  pub key_input : IsInput t.keys key
  pub value_input : IsInput t.values value

-- An empty record is filled.
pub fill_empty :
    (t : Table) (key value : List ℕ) (rec key_offset value_offset : ℕ) (now : Timespec)
    (v : IsValid t)
    → IsNew t key value
    → rec < t.config.capacity
    → (entry t rec).status ≡ 0
    → find_free t.keys rec false key ≡ some key_offset
    → find_free t.values rec false value ≡ some value_offset
    → let t' = fill t rec (hash_key t key) key key_offset value value_offset now in
      IsValid t' × Maps t t' (key_of t key) (value_of t value)
fill_empty t key value rec key_offset value_offset now v new below empty key_found value_found =
    let w = v.whole in
    let o =
      fill-Occupies t rec (hash_key t key) key key_offset value value_offset now
        (omega (arith, w.linked.entries_eq)) (hash_key-bucket t key) in
    let place : HasPlaceFor rec key key_offset value value_offset t = record {
      below = below;
      empty = empty;
      absent = new.absent;
      key_input = new.key_input;
      value_input = new.value_input;
      key_room =
          find_free-HasRoom t.config.capacity (occupied t) t.keys rec key key_offset w.keys
            key_found;
      value_room =
          find_free-HasRoom t.config.capacity (occupied t) t.values rec value value_offset w.values
            value_found;
    } in
    (
      record {
        chains = push rec (bucket t.config.capacity (key_of t key)) v.chains;
        whole = Occupies-IsWhole o w place (λ z. absurd (omega arith));
        counts =
            fill-CountsAgree t rec (hash_key t key) key key_offset value value_offset now v.counts
              below empty;
      },
      Occupies-Maps o w place,
    )

still_absent :
    {rec : ℕ} {t t' : Table} {chains : ℕ → List ℕ} (s : Empties rec t t' chains)
    (w : IsWhole t chains) (occ : occupied t rec ≡ true) (key : List ℕ)
    → ((r : ℕ) → occupied t r ≡ true → content t.keys r ≢ key_of t key)
    → (r : ℕ) → occupied t' r ≡ true
    → content t'.keys r ≢ key_of t key
still_absent {rec} {t} s w occ key absent r now same =
    let at = sym (emptied_occupied s w occ r) ∙ now in
    elim (Bool-cases (r == rec)) [
      | inl e ↦ absurd (ground (arith, rw e at at))
      | inr e ↦
          let before : occupied t r ≡ true = rw e at at in
          absent r before
            (sym (emptied_key s w occ r before (λ d. absurd (cc ((==_iff r rec).1 d, e)))) ∙ same)
    ]

-- A deleted record is evicted and filled.
pub fill-evicted :
    (t : Table) (key value : List ℕ) (rec key_offset value_offset : ℕ) (now : Timespec)
    (v : IsValid t)
    → IsNew t key value
    → rec < t.config.capacity
    → 2 ≤ (entry t rec).status
    → t.next_empty ≡ 0
    → find_free t.keys rec true key ≡ some key_offset
    → find_free t.values rec true value ≡ some value_offset
    → let t' =
        fill (evicted t v.chains rec) rec (hash_key t key) key key_offset value value_offset now in
      IsValid t' × Maps t t' (key_of t key) (value_of t value)
fill-evicted t key value rec key_offset value_offset now v new below old none_empty key_found
      value_found =
    let w = v.whole in
    let occ : occupied t rec ≡ true = ground (arith, old) in
    let e = evicted t v.chains rec in
    let g = emptied w.linked rec occ in
    let s = emptied-Empties w.linked rec occ in
    let w' = Empties-IsWhole s w occ in
    let key_same : key_of g key ≡ key_of t key =
      ap (λ c. canon c.key_type c.key_size key) s.config_eq in
    let value_same : value_of g value ≡ value_of t value =
      ap₂ (λ type size. canon type size value)
        (ap (λ f. f.type) s.values_eq ∙ (release-SameSettings t.values rec).type_eq)
        (ap (λ f. f.size) s.values_eq ∙ (release-SameSettings t.values rec).size_eq) in
    let filled =
      fill-Occupies e rec (hash_key t key) key key_offset value value_offset now
        (omega (
          arith,
          below,
          w.linked.entries_eq,
          (cut_record-fields t (own_link t v.chains rec) rec).3,
        ))
        (hash_key-bucket t key
          ∙ ap (λ c. bucket c.capacity (canon c.key_type c.key_size key)) (sym s.config_eq)) in
    let o = Occupies-emptied filled in
    let place : HasPlaceFor rec key key_offset value value_offset g = record {
      below = omega (arith, ap (λ c. c.capacity) s.config_eq);
      empty = emptied_status s w occ rec ∙ rw ((==_iff rec rec).1 refl) refl;
      absent = λ r now_r same. still_absent s w occ key new.absent r now_r (same ∙ key_same);
      key_input = rw s.keys_eq (release-IsInput t.keys rec key new.key_input);
      value_input = rw s.values_eq (release-IsInput t.values rec value new.value_input);
      key_room = rw s.keys_eq (
          find_free-HasRoom_released t.config.capacity (occupied t) t.keys rec key key_offset w.keys
            occ key_found);
      value_room = rw s.values_eq (
          find_free-HasRoom_released t.config.capacity (occupied t) t.values rec value value_offset
            w.values occ value_found);
    } in
    (
      record {
        chains = push rec (bucket g.config.capacity (key_of g key)) (λ i. remove rec (v.chains i));
        whole = Occupies-IsWhole o w' place (λ z. absurd (omega arith));
        counts =
            evicted-CountsAgree v.chains rec (hash_key t key) key key_offset value value_offset now
              v.counts old none_empty
              (filled.statuses_eq
                ∙ ap (λ ss. set ss rec 1)
                    (cut_record-Keeps t (own_link t v.chains rec) rec).statuses_eq);
      },
      Maps-before (Empties-Holds s w old)
          (rw (sym key_same, sym value_same) (Occupies-Maps o w' place)),
    )
