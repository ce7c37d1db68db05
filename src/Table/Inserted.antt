-- ===== src/Table/Inserted.antt =====
-- `com_util_hashtable_insert_direct` on a valid table: a given empty record gets a new key.
use app_com_util.Base.{
  ℕ, zero, suc, ◌-◌, ◌≤◌, ◌<◌, ◌≡◌, ◌≢◌, refl, subst, ◌∙◌, Bool, true, false, not, ◌&&◌, ◌||◌, List,
  inl, inr, ◌↔◌, Option, none, some, arith, Bool-cases, Option-cases, ◌==◌, ==_iff, if◌then◌else◌,
  ltb, leb,
}
use app_com_util.Field.{find_free, key_fits, fixed_string_fits}
use app_com_util.Field.Sound.{IsInput, content, find_free-HasRoom}
use app_com_util.Layout.{lifetime_infinite}
use app_com_util.Status.{Status}
use app_com_util.Timespec.{Timespec}
use app_com_util.Table.{Table, entry, has_record_timestamp, rec_in_use, rec_deleted, rec_empty}
use app_com_util.Table.Direct.{fill_direct, insert_at, insert_direct_bytes}
use app_com_util.Table.Tally.{fill_direct-CountsAgree}
use app_com_util.Table.Linked.{occupied, key_of, bucket, FindsKey, find_key-FindsKey}
use app_com_util.Table.Linked.Change.{push}
use app_com_util.Table.Valid.{IsValid, Holds, HeldAt, status_occupied}
use app_com_util.Table.Filled.{
  Occupies, HasPlaceFor, Occupies-IsWhole, filled_status, filled_key, filled_value,
}
use app_com_util.Table.Written.{Maps, Occupies-Maps}
use app_com_util.Table.Answers.{HasKey, value_of}
use app_com_util.Table.Refilled.{IsTerminated, key-IsInput, value-IsInput}
use app_com_util.Table.Occupied.{fill_direct-Occupies, Occupies-Holds}

-- What the call answers: a refusal changes nothing; else the given record was empty and holds the key and
-- the value, and the map gets the pair if the record is to be in use, and is the same if it is to be
-- deleted.
pub data InsertsAs (t : Table) (number : ℕ) (key : List ℕ) (status : ℕ) (value : List ℕ)
    (r : Status × Table) : Type 0 where
  refused : r.0 ≢ Status.ok → r.1 ≡ t → InsertsAs t number key status value r
  in_use :
      status ≡ 1
      → (entry t (number - 1)).status ≡ 0
      → (¬ HasKey t (key_of t key))
      → HeldAt r.1 (key_of t key) (value_of t value) (number - 1)
      → r.0 ≡ Status.ok
      → Maps t r.1 (key_of t key) (value_of t value)
      → InsertsAs t number key status value r
  deleted :
      2 ≤ status
      → (entry t (number - 1)).status ≡ 0
      → content r.1.keys (number - 1) ≡ key_of t key
      → content r.1.values (number - 1) ≡ value_of t value
      → (entry r.1 (number - 1)).status ≡ status
      → r.0 ≡ Status.ok
      → ((k v : List ℕ) → Holds r.1 k v ↔ Holds t k v)
      → InsertsAs t number key status value r

Inserted :
    (t : Table) (number : ℕ) (key : List ℕ) (status : ℕ) (value : List ℕ)
    → Option (Status × Table)
    → Type 0
Inserted t number key status value o =
    (r : Status × Table) × (o ≡ some r) × IsValid r.1 × InsertsAs t number key status value r

turned_down :
    (t : Table) (number : ℕ) (key : List ℕ) (status : ℕ) (value : List ℕ) (s : Status)
    → IsValid t
    → s ≢ Status.ok
    → Inserted t number key status value (some (s, t))
unfolding Inserted
turned_down t number key status value s v bad = ((s, t), refl, v, refused bad refl)

module _ (t : Table) (rec : ℕ) (key : List ℕ) (status : ℕ) (value : List ℕ)
    (timestamp : Option Timespec) (generation : ℕ) (v : IsValid t) where
  filled_direct :
      (key_offset value_offset : ℕ)
      → HasPlaceFor rec key key_offset value value_offset t
      → 1 ≤ status
      → Inserted t (suc rec) key status value (
          some (
            Status.ok,
            fill_direct t rec key key_offset value value_offset status timestamp generation,
          ))
  unfolding Inserted
  filled_direct key_offset value_offset h some_status =
      let w = v.whole in
      let o =
        fill_direct-Occupies t rec key key_offset value value_offset status timestamp generation
          (omega (arith, h.below, w.linked.entries_eq)) in
      let used : status ≢ 0 = λ z. absurd (omega arith) in
      let back : suc rec - 1 ≡ rec = omega arith in
      let self : (rec == rec) ≡ true = (==_iff rec rec).1 refl in
      (
        (
          Status.ok,
          fill_direct t rec key key_offset value value_offset status timestamp generation,
        ),
        refl,
        record {
          chains = push rec (bucket t.config.capacity (key_of t key)) v.chains;
          whole = Occupies-IsWhole o w h used;
          counts =
              fill_direct-CountsAgree t rec key key_offset value value_offset status timestamp
                generation v.counts h.below h.empty some_status;
        },
        elim (Bool-cases (status == 1)) [
          | inl e ↦
              let one = (==_iff status 1).0 e in
              in_use one (rw back h.empty)
                (λ (b, (r, held)).
                  absurd (h.absent r (status_occupied t r held.in_use) held.key_eq))
                (rw back (record {
                  in_use = filled_status o w h used rec ∙ rw self one;
                  key_eq = filled_key o w h used;
                  value_eq = filled_value o w h used;
                }))
                refl
                (Occupies-Maps
                  (subst
                    (λ s. Occupies rec s key key_offset value value_offset t (
                      fill_direct t rec key key_offset value value_offset status timestamp
                        generation))
                    one o)
                  w h)
          | inr e ↦
              let old : 2 ≤ status = ground arith in
              deleted old (rw back h.empty) (rw back (filled_key o w h used))
                (rw back (filled_value o w h used))
                (rw back (filled_status o w h used rec ∙ rw self refl)) refl
                (Occupies-Holds o w h old)
        ],
      )

  insert_at-Inserted :
      IsInput t.keys key
      → IsInput t.values value
      → rec < t.config.capacity
      → (entry t rec).status ≡ 0
      → 1 ≤ status
      → Inserted t
          (suc rec)
          key
          status
          value
          (insert_at t rec key status value timestamp generation)
  unfolding insert_at
  insert_at-Inserted key_input value_input below empty some_status =
      let (n, searched, finds) = find_key-FindsKey t v.chains key v.whole.linked in
      rw searched (number_known n finds)
    where
      number_known :
          (n : ℕ)
          → FindsKey t (key_of t key) n
          → Inserted t (suc rec) key status value (
              if not (n == 0)
              then some (Status.duplicate_key, t)
              else elim (find_free t.keys rec false key) [
                | none ↦ some (Status.storage_full, t)
                | some key_offset ↦ elim (find_free t.values rec false value) [
                  | none ↦ some (Status.storage_full, t)
                  | some value_offset ↦ some (
                    Status.ok,
                    fill_direct t rec key key_offset value value_offset status timestamp generation,
                  )
                ]
              ])
      number_known (suc n) h =
          let positive : (suc n == 0) ≡ false = ground arith in
          rw positive
            (turned_down t (suc rec) key status value Status.duplicate_key v (λ e. absurd (cc e)))
      number_known zero absent = elim (Option-cases (find_free t.keys rec false key)) [
        | inl f ↦
            rw f
              (turned_down t (suc rec) key status value Status.storage_full v (λ e. absurd (cc e)))
        | inr (key_offset, f) ↦ elim (Option-cases (find_free t.values rec false value)) [
          | inl g ↦
              rw (f, g)
                (turned_down t (suc rec) key status value Status.storage_full v
                  (λ e. absurd (cc e)))
          | inr (value_offset, g) ↦
              rw (f, g)
                (filled_direct key_offset value_offset
                  (record {
                    below = below;
                    empty = empty;
                    absent = absent;
                    key_input = key_input;
                    value_input = value_input;
                    key_room =
                        find_free-HasRoom t.config.capacity (occupied t) t.keys rec key key_offset
                          v.whole.keys f;
                    value_room =
                        find_free-HasRoom t.config.capacity (occupied t) t.values rec value
                          value_offset v.whole.values g;
                  })
                  some_status)
        ]
      ]

insert_direct_bytes-Inserted :
    (t : Table) (number : ℕ) (key : List ℕ) (status : ℕ) (value : List ℕ)
    (timestamp : Option Timespec) (generation : ℕ)
    → IsValid t
    → IsTerminated t.keys key
    → IsTerminated t.values value
    → Inserted t number key status value
        (insert_direct_bytes t number key status value timestamp generation)
unfolding insert_direct_bytes
insert_direct_bytes-Inserted t number key status value timestamp generation v key_ends value_ends =
    let no_answer =
      λ (s : Status) (bad : s ≢ Status.ok). turned_down t number key status value s v bad in
    let invalid = no_answer Status.invalid_argument (λ e. absurd (cc e)) in
    let range = no_answer Status.out_of_range (λ e. absurd (cc e)) in
    let skip = no_answer Status.skipped (λ e. absurd (cc e)) in
    let defined = no_answer Status.duplicate_definition (λ e. absurd (cc e)) in
    let timed : Bool = elim timestamp [ none ↦ false | some _ ↦ true ] in
    let time_bad : Bool =
      if has_record_timestamp t then not timed else timed || not (generation == 0) in
    let status_bad : Bool = ltb status rec_in_use || ltb lifetime_infinite status in
    let number_bad : Bool = (number == 0) || ltb t.config.capacity number in
    let too_old : Bool =
      leb rec_deleted status
      && not (t.config.lifetime == lifetime_infinite)
      && leb t.config.lifetime status in
    elim (Bool-cases time_bad) [
      | inl a ↦ rw a invalid
      | inr a ↦ elim (Bool-cases status_bad) [
        | inl b ↦ rw (a, b) invalid
        | inr b ↦ elim (Bool-cases (key_fits t.keys key)) [
          | inr c ↦ rw (a, b, c) range
          | inl c ↦ elim (Bool-cases (fixed_string_fits t.values value)) [
            | inr d ↦ rw (a, b, c, d) range
            | inl d ↦ elim (Bool-cases number_bad) [
              | inl e ↦ rw (a, b, c, d, e) invalid
              | inr e ↦ elim (Bool-cases too_old) [
                | inl f ↦ rw (a, b, c, d, e, f) skip
                | inr f ↦ elim (Bool-cases ((entry t (number - 1)).status == rec_empty)) [
                  | inr g ↦ rw (a, b, c, d, e, f, g) defined
                  | inl g ↦
                      let back : suc (number - 1) ≡ number = ground arith in
                      let inserted =
                        insert_at-Inserted t (number - 1) key status value timestamp generation v
                          (key-IsInput t.keys key v.whole.keys_known key_ends c)
                          (value-IsInput t.values value v.whole.values_known value_ends d)
                          (ground arith) ((==_iff (entry t (number - 1)).status rec_empty).0 g)
                          (ground arith) in
                      rw (a, b, c, d, e, f, g)
                        (subst
                          (λ n.
                            Inserted t n key status value
                              (insert_at t (number - 1) key status value timestamp generation))
                          back inserted)
                ]
              ]
            ]
          ]
        ]
      ]
    ]

-- In a valid table an insert of a key and a value that end with a NUL where the fields hold strings ends
-- and leaves a valid table. It is refused and changes nothing; or the given record, which was empty, gets
-- the key, the value and the given status. If that is the one of a record in use, no record in use had the
-- key, and the map gets the key with the value and is otherwise the same; if it is that of a deleted one,
-- the map is the same.
pub insert_direct_bytes-InsertsAs :
    (t : Table) (number : ℕ) (key : List ℕ) (status : ℕ) (value : List ℕ)
    (timestamp : Option Timespec) (generation : ℕ)
    → IsValid t
    → IsTerminated t.keys key
    → IsTerminated t.values value
    → (r : Status × Table) × (insert_direct_bytes t number key status value timestamp generation
        ≡ some r)
      × IsValid r.1
      × InsertsAs t number key status value r
unfolding Inserted
insert_direct_bytes-InsertsAs t number key status value timestamp generation v key_ends value_ends =
    insert_direct_bytes-Inserted t number key status value timestamp generation v key_ends
      value_ends
