-- ===== src/Table/Deleted.antt =====
-- `com_util_hashtable_delete` on a whole table: it ends, and takes the key out of the map.
use app_com_util.Base.{
  ℕ, zero, suc, ◌-◌, ◌<◌, ◌≡◌, ◌≢◌, refl, ap, ap₂, sym, subst, ◌∙◌, true, false, List, ◌⊎◌, inl,
  inr, ◌↔◌, none, some, length, length-set, set, arith, Bool-cases, ◌==◌, ==_iff, leb,
  if◌then◌else◌,
}
use app_com_util.Base.Words.{add64}
use app_com_util.Field.{release, key_fits}
use app_com_util.Field.Sound.{content}
use app_com_util.Status.{Status}
use app_com_util.Timespec.{Timespec}
use app_com_util.Table.{Table, entry, set_status, has_record_timestamp}
use app_com_util.Table.Put.{write_link, head, next_of, Link}
use app_com_util.Table.Delete.{
  expire_record, mark_deleted, cut_record, lower_next_empty, drop_record, delete_at, delete_bytes,
}
use app_com_util.Table.Counts.{
  table_statuses, delete_at-CountsAgree, mark_deleted-Marked, drop_record-Dropped,
}
use app_com_util.Table.Statuses.{set-set}
use app_com_util.Table.Linked.{
  occupied, occupied_below, IsLinked, key_of, bucket, bucket-lt, hash_key-bucket, first_match,
  FindsKey, first_match-FindsKey, length-chain,
}
use app_com_util.Table.Linked.Cut.{link_to}
use app_com_util.Table.Linked.Removal.{own_link, own_link-HasLink}
use app_com_util.Table.Linked.Walk.{HasLink, cut_record-Cut, find_link-eq, link_found}
use app_com_util.Table.Shape.{
  SameShape, SameShape-trans, SameShape-read_link, set_entry-SameShape, set_status-SameShape,
  stamp_record-SameShape, stamp_record-fields, status_changed,
}
use app_com_util.Table.Valid.{
  IsWhole, IsValid, SameShape-IsWhole, status_changed_occupied, Holds, Empties, Empties-IsWhole,
  emptied_status, emptied_key, emptied_value, status_occupied,
}

expire_record-SameShape : (t : Table) (rec : ℕ) → SameShape t (expire_record t rec)
unfolding expire_record
expire_record-SameShape t rec =
    let h = set_status-SameShape t rec 0 in
    elim (Bool-cases (has_record_timestamp t)) [
      | inl e ↦
          let emptied = set_status t rec 0 in
          let k =
            set_entry-SameShape emptied rec
              (record (entry emptied rec) { timestamp = _; generation = 0 }) refl in
          rw e (record {
            config_eq = refl;
            heads_eq = refl;
            length_eq = k.length_eq ∙ h.length_eq;
            next_eq = λ r. k.next_eq r ∙ h.next_eq r;
          })
      | inr e ↦ rw e (record {
        config_eq = refl;
        heads_eq = refl;
        length_eq = h.length_eq;
        next_eq = h.next_eq;
      })
    ]

expire_record-fields :
    (t : Table) (rec : ℕ)
    → ((expire_record t rec).keys ≡ release t.keys rec)
      × ((expire_record t rec).values ≡ release t.values rec)
unfolding expire_record
expire_record-fields t rec = elim (Bool-cases (has_record_timestamp t)) [
  | inl e ↦ rw e (refl, refl)
  | inr e ↦ rw e (refl, refl)
]

mark_deleted-SameShape :
    (t : Table) (rec : ℕ) (now : Timespec) → SameShape t (mark_deleted t rec now)
unfolding mark_deleted
mark_deleted-SameShape t rec now =
    let h =
      SameShape-trans (set_status-SameShape t rec 2)
        (stamp_record-SameShape (set_status t rec 2) rec now) in
    record {
      config_eq = h.config_eq;
      heads_eq = h.heads_eq;
      length_eq = h.length_eq;
      next_eq = h.next_eq;
    }

mark_deleted-fields :
    (t : Table) (rec : ℕ) (now : Timespec)
    → ((mark_deleted t rec now).keys ≡ t.keys) × ((mark_deleted t rec now).values ≡ t.values)
unfolding mark_deleted
mark_deleted-fields t rec now = stamp_record-fields (set_status t rec 2) rec now

pub cut_record-fields :
    (t : Table) (link : Link) (rec : ℕ)
    → ((cut_record t link rec).keys ≡ t.keys)
      × ((cut_record t link rec).values ≡ t.values)
      × (length (cut_record t link rec).bucket_head ≡ length t.bucket_head)
      × (length (cut_record t link rec).entries ≡ length t.entries)
unfolding cut_record
cut_record-fields t (head i) rec =
    (refl, refl, length-set t.bucket_head i (entry t rec).next, length-set t.entries rec _)
cut_record-fields t (next_of r) rec = (
  refl,
  refl,
  refl,
  length-set (write_link t (next_of r) (entry t rec).next).entries rec _
      ∙ length-set t.entries r (record (entry t r) { next = (entry t rec).next }),
)

SameShape-HasLink : {t t' : Table} → SameShape t t' → (l : Link) → HasLink t l → HasLink t' l
SameShape-HasLink s (head i) h = omega (arith, ap length s.heads_eq)
SameShape-HasLink s (next_of r) h = omega (arith, s.length_eq)

drop_record-Empties :
    (t : Table) (chains : ℕ → List ℕ) (rec : ℕ) (now : Timespec)
    → IsLinked t chains
    → Empties rec t (drop_record (mark_deleted t rec now) (own_link t chains rec) rec) chains
unfolding drop_record lower_next_empty
drop_record-Empties t chains rec now v =
    let link = own_link t chains rec in
    let marked = mark_deleted t rec now in
    let emptied = expire_record marked rec in
    let m = mark_deleted-Marked t rec now in
    let d = drop_record-Dropped marked link rec in
    let same =
      SameShape-trans (mark_deleted-SameShape t rec now) (expire_record-SameShape marked rec) in
    let (keys, values) = expire_record-fields marked rec in
    let (keys', values') = mark_deleted-fields t rec now in
    let (keys'', values'', heads, entries) = cut_record-fields emptied link rec in
    record {
      config_eq = d.config_eq ∙ m.config_eq;
      heads_eq = heads ∙ ap length same.heads_eq;
      length_eq = entries ∙ same.length_eq;
      cut = λ l own.
          let cut =
            cut_record-Cut emptied link rec (SameShape-HasLink same link (own_link-HasLink v rec)) l
              own in
          rw (same.next_eq rec, SameShape-read_link same l) at cut;
      statuses_eq =
          d.statuses_eq
          ∙ ap (λ ss. set ss rec 0) m.statuses_eq
          ∙ set-set (table_statuses t) rec 2 0;
      keys_eq = keys'' ∙ keys ∙ ap (λ f. release f rec) keys';
      values_eq = values'' ∙ values ∙ ap (λ f. release f rec) values';
    }

-- A record loses its key or its status 1, all others keep what they have: one key leaves the map.
Holds-without :
    {t t' : Table} {chains : ℕ → List ℕ} (v : IsLinked t chains) (rec s : ℕ)
    → occupied t rec ≡ true
    → s ≢ 1
    → ((r : ℕ) → (entry t' r).status ≡ (if r == rec then s else (entry t r).status))
    → ((r : ℕ)
        → occupied t r ≡ true
        → r ≢ rec
        → (content t'.keys r ≡ content t.keys r) × (content t'.values r ≡ content t.values r))
    → (k value : List ℕ) → Holds t' k value ↔ (k ≢ content t.keys rec) × Holds t k value
Holds-without {t} {t'} v rec s now unused statuses same k value = (
  λ (r, held).
      let at = sym (statuses r) ∙ held.in_use in
      elim (Bool-cases (r == rec)) [
        | inl e ↦ absurd (unused (rw e at at))
        | inr e ↦
            let apart : r ≢ rec = λ d. absurd (cc ((==_iff r rec).1 d, e)) in
            let in_use : (entry t r).status ≡ 1 = rw e at at in
            let now_r = status_occupied t r in_use in
            let (key, val) = same r now_r apart in
            (
              λ d. apart (v.unique r rec now_r now (sym key ∙ held.key_eq ∙ d)),
              (
                r,
                record {
                  in_use = in_use;
                  key_eq = sym key ∙ held.key_eq;
                  value_eq = sym val ∙ held.value_eq;
                },
              ),
            )
      ],
  λ (other, (r, held)).
      let apart : r ≢ rec = λ d. other (sym held.key_eq ∙ ap (content t.keys) d) in
      let (key, val) = same r (status_occupied t r held.in_use) apart in
      elim (Bool-cases (r == rec)) [
        | inl e ↦ absurd (apart ((==_iff r rec).0 e))
        | inr e ↦ (
          r,
          record {
            in_use = statuses r ∙ rw e held.in_use;
            key_eq = key ∙ held.key_eq;
            value_eq = val ∙ held.value_eq;
          },
        )
      ],
)

-- What a delete answers: an unsuitable key is refused, a key that the map has not is not found, and
-- neither changes the table; else the key leaves the map, and no other.
abbrev pub Deletes : Table → List ℕ → Status × Table → Type 0
Deletes t key (status, t') =
    ((key_fits t.keys key ≡ false) × (status ≡ Status.out_of_range) × (t' ≡ t))
    ⊎ ((status ≡ Status.not_found) × (t' ≡ t) × ((value : List ℕ) → ¬ Holds t (key_of t key) value))
    ⊎ ((status ≡ Status.ok)
        × ((value : List ℕ) × Holds t (key_of t key) value)
        × ((k value : List ℕ) → Holds t' k value ↔ (k ≢ key_of t key) × Holds t k value))

-- The steps of the match, on the record that has the key.
delete_at-Deletes :
    (t : Table) (chains : ℕ → List ℕ) (rec : ℕ) (now : Timespec) (key : List ℕ)
    → IsWhole t chains
    → occupied t rec ≡ true
    → content t.keys rec ≡ key_of t key
    → let result = delete_at t (own_link t chains rec) rec now in
      ((chains' : ℕ → List ℕ) × IsWhole result.1 chains') × Deletes t key result
unfolding delete_at
delete_at-Deletes t chains rec now key w occ has =
    let link = own_link t chains rec in
    let marked = mark_deleted t rec now in
    elim (Bool-cases ((entry t rec).status == 1)) [
      | inr e ↦ rw e (
        (chains, w),
        inr (
            inl (
              refl,
              refl,
              λ value (r, held).
                  let same =
                    w.linked.unique r rec (status_occupied t r held.in_use) occ
                      (held.key_eq ∙ sym has) in
                  let in_use = subst (λ x. (entry t x).status ≡ 1) same held.in_use in
                  absurd (cc ((==_iff (entry t rec).status 1).1 in_use, e)),
            )),
      )
      | inl e ↦
          let held : (value : List ℕ) × Holds t (key_of t key) value = (
            content t.values rec,
            (
              rec,
              record {
                in_use = (==_iff (entry t rec).status 1).0 e;
                key_eq = has;
                value_eq = refl;
              },
            ),
          ) in
          elim (Bool-cases (leb marked.config.lifetime 2)) [
            | inl l ↦
                let s = drop_record-Empties t chains rec now w.linked in
                rw (e, l)
                  (
                    (_, Empties-IsWhole s w occ),
                    inr (
                        inr (
                          refl,
                          held,
                          λ k value.
                              subst
                                (λ b.
                                  Holds (drop_record marked link rec) k value
                                  ↔ (k ≢ b) × Holds t k value)
                                has
                                (Holds-without w.linked rec 0 occ (λ z. absurd (omega arith))
                                  (emptied_status s w occ)
                                  (λ r h d.
                                    (emptied_key s w occ r h d, emptied_value s w occ r h d))
                                  k value),
                        )),
                  )
            | inr l ↦
                let m = mark_deleted-Marked t rec now in
                let (keys, values) = mark_deleted-fields t rec now in
                let shape = mark_deleted-SameShape t rec now in
                let inside : rec < length t.entries =
                  omega (arith, occupied_below w.linked rec occ, w.linked.entries_eq) in
                let statuses = λ (r : ℕ). status_changed t marked rec 2 r inside m.statuses_eq in
                let aged : Table = record marked { deleted_count = add64 marked.deleted_count 1 } in
                let shape' : SameShape t aged = record {
                  config_eq = shape.config_eq;
                  heads_eq = shape.heads_eq;
                  length_eq = shape.length_eq;
                  next_eq = shape.next_eq;
                } in
                rw (e, l)
                  (
                    (
                      chains,
                      SameShape-IsWhole shape'
                          (λ r.
                            status_changed_occupied t aged rec 2 r occ (λ z. absurd (omega arith))
                              statuses)
                          keys values w,
                    ),
                    inr (
                        inr (
                          refl,
                          held,
                          λ k value.
                              subst (λ b. Holds aged k value ↔ (k ≢ b) × Holds t k value) has
                                (Holds-without {t' = aged} w.linked rec 2 occ
                                  (λ z. absurd (omega arith)) statuses
                                  (λ r h d.
                                    (ap (λ f. content f r) keys, ap (λ f. content f r) values))
                                  k value),
                        )),
                  )
          ]
    ]

delete_found :
    (t : Table) (key : List ℕ) (now : Timespec) (v : IsValid t) (n : ℕ)
    → FindsKey t (key_of t key) n
    → let i = bucket t.config.capacity (key_of t key) in
      (result : Status × Table) × ((elim (link_found (head i) (v.chains i) n) [
        | none ↦ some (Status.not_found, t)
        | some (link, cur) ↦ some (delete_at t link (cur - 1) now)
      ])
        ≡ some result)
      × IsValid result.1
      × Deletes t key result
delete_found t key now v zero absent = (
  (Status.not_found, t),
  refl,
  v,
  inr (
      inl (
        refl,
        refl,
        λ value (r, held). absurd (absent r (status_occupied t r held.in_use) held.key_eq),
      )),
)
delete_found t key now v (suc rec) (occ, has) =
    let back : suc rec - 1 ≡ rec = omega arith in
    let link : link_to (head (bucket t.config.capacity (key_of t key)))
          (v.chains (bucket t.config.capacity (key_of t key))) rec
        ≡ own_link t v.chains rec =
      ap
        (λ b.
          link_to (head (bucket t.config.capacity b)) (v.chains (bucket t.config.capacity b)) rec)
        (sym has) in
    let ((chains', w), deletes) = delete_at-Deletes t v.chains rec now key v.whole occ has in
    (
      delete_at t (own_link t v.chains rec) rec now,
      ap₂ (λ l r. some (delete_at t l r now)) link back,
      record {
        chains = chains';
        whole = w;
        counts = delete_at-CountsAgree t (own_link t v.chains rec) rec now v.counts;
      },
      deletes,
    )

-- A delete in a valid table ends and leaves a valid table. A key that does not fit is refused and one
-- that the map has not is not found, and neither changes the table; else the key leaves the map, and
-- the map is otherwise the same.
pub delete_bytes-Deletes :
    (t : Table) (key : List ℕ) (now : Timespec)
    → IsValid t
    → (result : Status × Table) × (delete_bytes t key now ≡ some result)
      × IsValid result.1
      × Deletes t key result
unfolding delete_bytes
delete_bytes-Deletes t key now v =
    let chains = v.chains in
    let i = bucket t.config.capacity (key_of t key) in
    let below = bucket-lt t.config.capacity (key_of t key) v.whole.linked.capacity_pos in
    let walk =
      find_link-eq t.config.capacity t key (head i) (chains i) (v.whole.linked.chain i below)
        (v.whole.linked.distinct i below) (length-chain v.whole.linked i below) in
    let found = first_match-FindsKey v.whole.linked key in
    elim (Bool-cases (key_fits t.keys key)) [
      | inr e ↦ ((Status.out_of_range, t), rw e refl, v, inl (e, refl, refl))
      | inl e ↦
          let (result, ends, valid, deletes) =
            delete_found t key now v (first_match t key (chains i)) found in
          (result, rw (e, hash_key-bucket t key, walk) ends, valid, deletes)
    ]
