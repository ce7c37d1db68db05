-- ===== src/Table/Refined.antt =====
-- `hashtable_put` and `com_util_hashtable_update` on a valid table, behind the tests of the pointers:
-- both end, leave a valid table, and do to the map what they say.
use app_com_util.Base.{
  ℕ, zero, suc, ◌-◌, ◌<◌, ◌≡◌, refl, ap, sym, subst, ◌∙◌, Bool, true, false, List, inl, inr, Option,
  none, some, arith, Bool-cases, Option-cases, ◌==◌, if◌then◌else◌, ltb,
}
use app_com_util.Field.{find_free, key_fits, fixed_string_fits}
use app_com_util.Field.Sound.{IsInput}
use app_com_util.Layout.{◌>>=◌}
use app_com_util.Status.{Status}
use app_com_util.Timespec.{Timespec}
use app_com_util.Table.{Table, hash_key}
use app_com_util.Table.Put.{
  Reply, refuse, accept, fill, evict, free_record, put_new, put_found, put_bytes, update_at,
  update_bytes,
}
use app_com_util.Table.Fills.{put_found-CountsAgree, update_at-CountsAgree}
use app_com_util.Table.Linked.{occupied, key_of, FindsKey, find_key-FindsKey}
use app_com_util.Table.Valid.{IsValid}
use app_com_util.Table.Answers.{PutsAs, UpdatesAs, value_of, put_found-PutsAs, update_at-UpdatesAs}
use app_com_util.Table.Placed.{IsFree, free_record-cases}
use app_com_util.Table.Evicted.{evicted, evict-eq}
use app_com_util.Table.Refilled.{
  IsTerminated, value-IsInput, key-IsInput, not_HasKey, IsNew, fill_empty, fill-evicted,
}

-- `put_new` once the record is chosen.
put_at : Table → ℕ → Bool → List ℕ → List ℕ → Timespec → Option Reply
put_at t rec occupied key value now = elim (find_free t.keys rec occupied key) [
  | none ↦ some (refuse Status.storage_full t)
  | some key_offset ↦ elim (find_free t.values rec occupied value) [
    | none ↦ some (refuse Status.storage_full t)
    | some value_offset ↦ (if occupied then evict t rec else some t) >>= λ t'.
        some (accept true (fill t' rec (hash_key t key) key key_offset value value_offset now))
  ]
]

put_new-put_at :
    (t : Table) (key value : List ℕ) (now : Timespec) (rec : ℕ)
    → free_record t ≡ suc rec
    → put_new t key value now ≡ put_at t rec (occupied t rec) key value now
unfolding put_new put_at
put_new-put_at t key value now rec at =
    let choose : ℕ → Option Reply = λ n.
      if n == 0
      then some (refuse Status.limit_exceeded t)
      else put_at t (n - 1) (occupied t (n - 1)) key value now in
    let back : suc rec - 1 ≡ rec = omega arith in
    let positive : (suc rec == 0) ≡ false = ground arith in
    let chosen : choose (suc rec) ≡ put_at t rec (occupied t rec) key value now =
      rw (back, positive) refl in
    ap choose at ∙ chosen

Answered :
    (t : Table) (key value : List ℕ) (policy : ℕ) (allow_update : Bool) → Option Reply → Type 0
Answered t key value policy allow_update o =
    (r : Reply) × (o ≡ some r) × IsValid r.table × PutsAs t key value policy allow_update r

-- A put of a key that no record has.
put_at-PutsAs :
    (t : Table) (key value : List ℕ) (policy : ℕ) (allow_update : Bool) (now : Timespec)
    (v : IsValid t) (rec : ℕ)
    → IsNew t key value
    → IsFree t rec
    → Answered t key value policy allow_update (put_at t rec (occupied t rec) key value now)
unfolding put_at Answered
put_at-PutsAs t key value policy allow_update now v rec new free =
    let unheld = not_HasKey t (key_of t key) new.absent in
    elim (Option-cases (find_free t.keys rec (occupied t rec) key)) [
      | inl f ↦ (refuse Status.storage_full t, rw (put_at, f) refl, v, PutsAs.no_storage refl)
      | inr (key_offset, f) ↦ elim (Option-cases (find_free t.values rec (occupied t rec) value)) [
        | inl g ↦ (refuse Status.storage_full t, rw (put_at, f, g) refl, v, PutsAs.no_storage refl)
        | inr (value_offset, g) ↦ elim free.unused [
          | inl empty ↦
              let occ : occupied t rec ≡ false = rw empty refl in
              let (valid, maps) =
                fill_empty t key value rec key_offset value_offset now v new free.below empty
                  (rw occ at f) (rw occ at g) in
              (
                accept true (fill t rec (hash_key t key) key key_offset value value_offset now),
                rw (put_at, f, g)
                    (ap
                      (λ b. (if b then evict t rec else some t) >>= λ t'. some (
                        accept true
                          (fill t' rec (hash_key t key) key key_offset value value_offset now)))
                      occ),
                valid,
                PutsAs.inserted unheld refl refl (value_of t value) (inl refl) maps,
              )
          | inr (old, none_empty) ↦
              let occ : occupied t rec ≡ true = ground (arith, old) in
              let (valid, maps) =
                fill-evicted t key value rec key_offset value_offset now v new free.below old
                  none_empty (rw occ at f) (rw occ at g) in
              let e = evicted t v.chains rec in
              (
                accept true (fill e rec (hash_key t key) key key_offset value value_offset now),
                rw (put_at, f, g)
                    (ap
                        (λ b. (if b then evict t rec else some t) >>= λ t'. some (
                          accept true
                            (fill t' rec (hash_key t key) key key_offset value value_offset now)))
                        occ
                      ∙ ap
                          (λ o. o >>= λ t'. some (
                            accept true
                              (fill t' rec (hash_key t key) key key_offset value value_offset now)))
                          (evict-eq v.whole.linked rec occ)),
                valid,
                PutsAs.inserted unheld refl refl (value_of t value) (inl refl) maps,
              )
        ]
      ]
    ]

put_new-PutsAs :
    (t : Table) (key value : List ℕ) (policy : ℕ) (allow_update : Bool) (now : Timespec)
    → IsValid t
    → IsNew t key value
    → Answered t key value policy allow_update (put_new t key value now)
unfolding put_new put_at Answered
put_new-PutsAs t key value policy allow_update now v new =
    elim (free_record-cases t v.counts v.whole.linked.entries_eq) [
      | inl none_free ↦ (
        refuse Status.limit_exceeded t,
        ap
            (λ n.
              if n == 0
              then some (refuse Status.limit_exceeded t)
              else put_at t (n - 1) (occupied t (n - 1)) key value now)
            none_free,
        v,
        PutsAs.no_record (not_HasKey t (key_of t key) new.absent) refl,
      )
      | inr (rec, at, free) ↦
          subst (Answered t key value policy allow_update)
            (sym (put_new-put_at t key value now rec at))
            (put_at-PutsAs t key value policy allow_update now v rec new free)
    ]

put_found_number :
    (t : Table) (key value : List ℕ) (policy : ℕ) (allow_update : Bool) (now : Timespec)
    → IsValid t
    → IsInput t.keys key
    → IsInput t.values value
    → policy < 2
    → (n : ℕ) → FindsKey t (key_of t key) n
    → Answered t key value policy allow_update (
        if n == 0
        then put_new t key value now
        else some (put_found t (n - 1) value policy allow_update now))
unfolding Answered
put_found_number t key value policy allow_update now v key_input value_input small zero absent =
    put_new-PutsAs t key value policy allow_update now v
      (record { absent = absent; key_input = key_input; value_input = value_input })
put_found_number t key value policy allow_update now v key_input value_input small (suc rec)
      (occ, has) =
    let back : suc rec - 1 ≡ rec = omega arith in
    let positive : (suc rec == 0) ≡ false = ground arith in
    let (whole, puts) =
      put_found-PutsAs v.whole rec occ key value policy allow_update now has small value_input in
    (
      put_found t rec value policy allow_update now,
      rw (positive, back) refl,
      record {
        chains = v.chains;
        whole = whole;
        counts =
            put_found-CountsAgree t rec value policy allow_update now v.counts
              (λ empty. absurd (ground (arith, occ)));
      },
      puts,
    )

-- In a valid table a put of a key and a value that end with a NUL where the fields hold strings ends and
-- leaves a valid table. It is refused and changes nothing, a duplicate where the key is in the map and
-- may not be updated; or the map that the table stands for has the value for the key and is otherwise
-- the same, and the answer says whether the key is new. The value is the given one, or with policy 1
-- possibly the one that a deleted record of the key still has.
pub put_bytes-PutsAs :
    (t : Table) (key value : List ℕ) (policy : ℕ) (allow_update : Bool) (now : Timespec)
    → IsValid t
    → IsTerminated t.keys key
    → IsTerminated t.values value
    → (r : Reply) × (put_bytes t key value policy allow_update now ≡ some r)
      × IsValid r.table
      × PutsAs t key value policy allow_update r
unfolding put_bytes Answered
put_bytes-PutsAs t key value policy allow_update now v key_ends value_ends =
    elim (Bool-cases (ltb 1 policy)) [
      | inl p ↦
          (refuse Status.invalid_argument t, rw p refl, v, PutsAs.bad_policy (ground arith) refl)
      | inr p ↦ elim (Bool-cases (key_fits t.keys key)) [
        | inr k ↦ (refuse Status.out_of_range t, rw (p, k) refl, v, PutsAs.unfit refl)
        | inl k ↦ elim (Bool-cases (fixed_string_fits t.values value)) [
          | inr f ↦ (refuse Status.out_of_range t, rw (p, k, f) refl, v, PutsAs.unfit refl)
          | inl f ↦
              let key_input = key-IsInput t.keys key v.whole.keys_known key_ends k in
              let value_input = value-IsInput t.values value v.whole.values_known value_ends f in
              let (n, found, finds) = find_key-FindsKey t v.chains key v.whole.linked in
              let (r, ends, valid, puts) =
                put_found_number t key value policy allow_update now v key_input value_input
                  (ground arith) n finds in
              (r, rw (p, k, f, found) ends, valid, puts)
        ]
      ]
    ]

update_number :
    (t : Table) (key value : List ℕ) (now : Timespec)
    → IsValid t
    → IsInput t.values value
    → (n : ℕ) → FindsKey t (key_of t key) n
    → (r : Status × Table) × ((if n == 0
          then some (Status.not_found, t)
          else some (update_at t (n - 1) value now))
        ≡ some r)
      × IsValid r.1
      × UpdatesAs t (key_of t key) value r
update_number t key value now v value_input zero absent =
    ((Status.not_found, t), refl, v, UpdatesAs.absent (not_HasKey t (key_of t key) absent) refl)
update_number t key value now v value_input (suc rec) (occ, has) =
    let back : suc rec - 1 ≡ rec = omega arith in
    let positive : (suc rec == 0) ≡ false = ground arith in
    let (whole, updates) = update_at-UpdatesAs v.whole rec occ value now value_input in
    (
      update_at t rec value now,
      rw (positive, back) refl,
      record {
        chains = v.chains;
        whole = whole;
        counts = update_at-CountsAgree t rec value now v.counts;
      },
      subst (λ b. UpdatesAs t b value (update_at t rec value now)) has updates,
    )

-- In a valid table an update with a value that ends with a NUL where the values are strings ends and
-- leaves a valid table. It answers that an argument does not fit, that the map has no such key or that
-- the storage is full, and changes nothing; or the map has the key, gets the value for it and is
-- otherwise the same.
pub update_bytes-UpdatesAs :
    (t : Table) (key value : List ℕ) (now : Timespec)
    → IsValid t
    → IsTerminated t.values value
    → (r : Status × Table) × (update_bytes t key value now ≡ some r)
      × IsValid r.1
      × UpdatesAs t (key_of t key) value r
unfolding update_bytes
update_bytes-UpdatesAs t key value now v value_ends = elim (Bool-cases (key_fits t.keys key)) [
  | inr k ↦ ((Status.out_of_range, t), rw k refl, v, UpdatesAs.unfit refl)
  | inl k ↦ elim (Bool-cases (fixed_string_fits t.values value)) [
    | inr f ↦ ((Status.out_of_range, t), rw (k, f) refl, v, UpdatesAs.unfit refl)
    | inl f ↦
        let value_input = value-IsInput t.values value v.whole.values_known value_ends f in
        let (n, found, finds) = find_key-FindsKey t v.chains key v.whole.linked in
        let (r, ends, valid, updates) = update_number t key value now v value_input n finds in
        (r, rw (k, f, found) ends, valid, updates)
  ]
]
