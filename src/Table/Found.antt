-- ===== src/Table/Found.antt =====
-- `com_util_hashtable_find_recno` on a valid table: the number of the record in use that has the key.
use app_com_util.Base.{
  ℕ, zero, suc, ◌-◌, ◌≡◌, refl, sym, subst, ◌∙◌, true, false, not, ◌||◌, List, inl, inr, Option,
  none, some, arith, Bool-cases, ◌==◌, ==_iff, if◌then◌else◌,
}
use app_com_util.Field.{key_fits}
use app_com_util.Field.Sound.{content}
use app_com_util.Status.{Status}
use app_com_util.Table.{Table, entry}
use app_com_util.Table.Query.{Answer, find_recno_bytes}
use app_com_util.Table.Linked.{key_of, FindsKey, find_key-FindsKey}
use app_com_util.Table.Valid.{IsValid, HeldAt, status_occupied}
use app_com_util.Table.Answers.{HasKey}

-- What the search answers.
pub data FindsAs (t : Table) (key : List ℕ) (a : Answer ℕ) : Type 0 where
  unfit : key_fits t.keys key ≡ false → a ≡ (Status.out_of_range, none) → FindsAs t key a
  absent :
      key_fits t.keys key ≡ true
      → (¬ HasKey t (key_of t key))
      → a ≡ (Status.not_found, none)
      → FindsAs t key a
  found :
      (r : ℕ)
      → key_fits t.keys key ≡ true
      → HeldAt t (key_of t key) (content t.values r) r
      → a ≡ (Status.ok, some (suc r))
      → FindsAs t key a

-- The answer once the number is known.
answered : Table → ℕ → Option (Answer ℕ)
answered t cur =
    if (cur == 0) || not ((entry t (cur - 1)).status == 1)
    then some (Status.not_found, none)
    else some (Status.ok, some cur)

answered-FindsAs :
    (t : Table) (key : List ℕ) (v : IsValid t) (n : ℕ)
    → FindsKey t (key_of t key) n
    → key_fits t.keys key ≡ true
    → (a : Answer ℕ) × (answered t n ≡ some a) × FindsAs t key a
unfolding answered
answered-FindsAs t key v zero none_has fits = (
  (Status.not_found, none),
  refl,
  FindsAs.absent fits
      (λ (value, (r, held)). absurd (none_has r (status_occupied t r held.in_use) held.key_eq))
      refl,
)
answered-FindsAs t key v (suc rec) (occ, has) fits =
    let back : suc rec - 1 ≡ rec = omega arith in
    let positive : (suc rec == 0) ≡ false = ground arith in
    elim (Bool-cases ((entry t rec).status == 1)) [
      | inl e ↦ (
        (Status.ok, some (suc rec)),
        rw (positive, back, e) refl,
        FindsAs.found rec fits
            (record { in_use = (==_iff (entry t rec).status 1).0 e; key_eq = has; value_eq = refl })
            refl,
      )
      | inr e ↦ (
        (Status.not_found, none),
        rw (positive, back, e) refl,
        FindsAs.absent fits
            (λ (value, (r, held)).
              let same =
                v.whole.linked.unique r rec (status_occupied t r held.in_use) occ
                  (held.key_eq ∙ sym has) in
              let used = subst (λ x. (entry t x).status ≡ 1) same held.in_use in
              absurd (cc ((==_iff (entry t rec).status 1).1 used, e)))
            refl,
      )
    ]

-- In a valid table the search ends. A key that does not fit the key field is out of range; for a key that
-- fits, the search answers with the number, counted from 1, of the record in use that has the key, or that
-- it was not found, and then no record in use has it.
pub find_recno_bytes-FindsAs :
    (t : Table) (key : List ℕ)
    → IsValid t
    → (a : Answer ℕ) × (find_recno_bytes t key ≡ some a) × FindsAs t key a
unfolding find_recno_bytes answered
find_recno_bytes-FindsAs t key v = elim (Bool-cases (key_fits t.keys key)) [
  | inr e ↦ ((Status.out_of_range, none), rw e refl, FindsAs.unfit e refl)
  | inl e ↦
      let (n, searched, finds) = find_key-FindsKey t v.chains key v.whole.linked in
      let (a, ends, answer) = answered-FindsAs t key v n finds e in
      (a, rw (e, searched) ends, answer)
]
