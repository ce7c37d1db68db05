-- ===== src/Table/Answers.antt =====
-- What a put and an update answer, on the map that the table stands for; and the answers where a record
-- has the key.
use app_com_util.Base.{
  ℕ, ◌≤◌, ◌<◌, ◌≡◌, refl, subst, Bool, true, false, List, ◌⊎◌, inl, inr, some, arith, Bool-cases,
  Option-cases, ◌==◌, ==_iff,
}
use app_com_util.Field.{find_free}
use app_com_util.Field.Sound.{IsInput, content, canon}
use app_com_util.Status.{Status}
use app_com_util.Timespec.{Timespec}
use app_com_util.Table.{Table, entry}
use app_com_util.Table.Put.{Reply, refuse, replace_value, put_found, update_at}
use app_com_util.Table.Linked.{occupied, key_of}
use app_com_util.Table.Valid.{IsWhole, Holds, status_occupied}
use app_com_util.Table.Written.{Maps, Writes, Writes-IsWhole, Writes-Maps}
use app_com_util.Table.Revived.{Rewrites-same, Rewrites-replace, stamped-Writes, revived-Writes}

abbrev pub HasKey : Table → List ℕ → Type 0
HasKey t bytes = (value : List ℕ) × Holds t bytes value

-- The value that comes with a key: the given one, or the one that a deleted record still has.
abbrev pub IsRestored : Table → List ℕ → List ℕ → Type 0
IsRestored t bytes w =
    (r : ℕ) × (2 ≤ (entry t r).status) × (content t.keys r ≡ bytes) × (content t.values r ≡ w)

abbrev pub value_of : Table → List ℕ → List ℕ
value_of t value = canon t.values.type t.values.size value

-- The answers of a put. A refusal leaves the table as it is.
pub data PutsAs (t : Table) (key value : List ℕ) (policy : ℕ) (allow_update : Bool) (r : Reply)
    : Type 0 where
  bad_policy :
      2 ≤ policy → r ≡ refuse Status.invalid_argument t → PutsAs t key value policy allow_update r
  unfit : r ≡ refuse Status.out_of_range t → PutsAs t key value policy allow_update r
  duplicate :
      allow_update ≡ false
      → HasKey t (key_of t key)
      → r ≡ refuse Status.duplicate_key t
      → PutsAs t key value policy allow_update r
  no_storage : r ≡ refuse Status.storage_full t → PutsAs t key value policy allow_update r
  no_record :
      (¬ HasKey t (key_of t key))
      → r ≡ refuse Status.limit_exceeded t
      → PutsAs t key value policy allow_update r
  updated :
      allow_update ≡ true
      → HasKey t (key_of t key)
      → r.status ≡ Status.ok
      → r.inserted ≡ some false
      → Maps t r.table (key_of t key) (value_of t value)
      → PutsAs t key value policy allow_update r
  inserted :
      (¬ HasKey t (key_of t key))
      → r.status ≡ Status.ok
      → r.inserted ≡ some true
      → (w : List ℕ) → (w ≡ value_of t value) ⊎ ((policy ≡ 1) × IsRestored t (key_of t key) w)
      → Maps t r.table (key_of t key) w
      → PutsAs t key value policy allow_update r

-- The answers of an update.
pub data UpdatesAs (t : Table) (bytes value : List ℕ) (r : Status × Table) : Type 0 where
  unfit : r ≡ (Status.out_of_range, t) → UpdatesAs t bytes value r
  absent : (¬ HasKey t bytes) → r ≡ (Status.not_found, t) → UpdatesAs t bytes value r
  no_storage : r ≡ (Status.storage_full, t) → UpdatesAs t bytes value r
  updated :
      HasKey t bytes
      → r.0 ≡ Status.ok
      → Maps t r.1 bytes (value_of t value)
      → UpdatesAs t bytes value r

module _ {t : Table} {chains : ℕ → List ℕ} (w : IsWhole t chains) (rec : ℕ)
    (occ : occupied t rec ≡ true) where
  in_use_HasKey : (entry t rec).status ≡ 1 → HasKey t (content t.keys rec)
  in_use_HasKey used =
      (content t.values rec, (rec, record { in_use = used; key_eq = refl; value_eq = refl }))

  unused_HasKey : ((entry t rec).status == 1) ≡ false → ¬ HasKey t (content t.keys rec)
  unused_HasKey e (value, (r, held)) =
      let same = w.linked.unique r rec (status_occupied t r held.in_use) occ held.key_eq in
      let used = subst (λ x. (entry t x).status ≡ 1) same held.in_use in
      absurd (cc ((==_iff (entry t rec).status 1).1 used, e))

  Writes-Maps-at :
      {t' : Table} {bytes v : List ℕ}
      → content t.keys rec ≡ bytes
      → Writes rec v t t'
      → Maps t t' bytes v
  Writes-Maps-at {t'} {bytes} {v} has s = subst (λ b. Maps t t' b v) has (Writes-Maps s occ w)

  pub update_at-UpdatesAs :
      (value : List ℕ) (now : Timespec)
      → IsInput t.values value
      → IsWhole (update_at t rec value now).1 chains
        × UpdatesAs t (content t.keys rec) value (update_at t rec value now)
  unfolding update_at replace_value
  update_at-UpdatesAs value now given = elim (Bool-cases ((entry t rec).status == 1)) [
    | inr e ↦ (rw e w, UpdatesAs.absent (unused_HasKey e) (rw e refl))
    | inl e ↦
        let used = (==_iff (entry t rec).status 1).0 e in
        elim (Option-cases (find_free t.values rec true value)) [
          | inl f ↦ (rw (e, f) w, UpdatesAs.no_storage (rw (e, f) refl))
          | inr (offset, f) ↦
              let s =
                stamped-Writes rec now (Rewrites-replace rec value offset w occ given f) used in
              (
                rw (e, f) (Writes-IsWhole s occ w),
                UpdatesAs.updated (in_use_HasKey used) (rw (e, f) refl)
                    (rw (e, f) (Writes-Maps s occ w)),
              )
        ]
  ]

  pub put_found-PutsAs :
      (key value : List ℕ) (policy : ℕ) (allow_update : Bool) (now : Timespec)
      → content t.keys rec ≡ key_of t key
      → policy < 2
      → IsInput t.values value
      → IsWhole (put_found t rec value policy allow_update now).table chains
        × PutsAs t key value policy allow_update (put_found t rec value policy allow_update now)
  unfolding put_found replace_value
  put_found-PutsAs key value policy allow_update now has small given =
      elim (Bool-cases ((entry t rec).status == 1)) [
        | inl e ↦
            let used = (==_iff (entry t rec).status 1).0 e in
            let held : HasKey t (key_of t key) = subst (HasKey t) has (in_use_HasKey used) in
            elim (Bool-cases allow_update) [
              | inr a ↦ (rw (e, a) w, PutsAs.duplicate a held (rw (e, a) refl))
              | inl a ↦ elim (Option-cases (find_free t.values rec true value)) [
                | inl f ↦ (rw (e, a, f) w, PutsAs.no_storage (rw (e, a, f) refl))
                | inr (offset, f) ↦
                    let s =
                      stamped-Writes rec now (Rewrites-replace rec value offset w occ given f)
                        used in
                    (
                      rw (e, a, f) (Writes-IsWhole s occ w),
                      PutsAs.updated a held (rw (e, a, f) refl) (rw (e, a, f) refl)
                          (rw (e, a, f) (Writes-Maps-at has s)),
                    )
              ]
            ]
        | inr e ↦
            let unheld : ¬ HasKey t (key_of t key) =
              subst (λ b. ¬ HasKey t b) has (unused_HasKey e) in
            elim (Bool-cases (policy == 0)) [
              | inr p ↦
                  let s = revived-Writes rec now w (Rewrites-same rec w) occ in
                  let old : IsRestored t (key_of t key) (content t.values rec) =
                    (rec, ground (arith, occ), has, refl) in
                  (
                    rw (e, p) (Writes-IsWhole s occ w),
                    PutsAs.inserted unheld (rw (e, p) refl) (rw (e, p) refl) (content t.values rec)
                        (inr (ground arith, old)) (rw (e, p) (Writes-Maps-at has s)),
                  )
              | inl p ↦ elim (Option-cases (find_free t.values rec true value)) [
                | inl f ↦ (rw (e, p, f) w, PutsAs.no_storage (rw (e, p, f) refl))
                | inr (offset, f) ↦
                    let s =
                      revived-Writes rec now w (Rewrites-replace rec value offset w occ given f)
                        occ in
                    (
                      rw (e, p, f) (Writes-IsWhole s occ w),
                      PutsAs.inserted unheld (rw (e, p, f) refl) (rw (e, p, f) refl)
                          (value_of t value) (inl refl) (rw (e, p, f) (Writes-Maps-at has s)),
                    )
              ]
            ]
      ]
