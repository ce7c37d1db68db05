-- ===== src/Table/Chain.antt =====
-- A chain of records: a bucket's head, and then the `next` of each record, end at 0.
use app_com_util.Base.{
  ℕ, zero, suc, ◌+◌, ◌≤◌, ◌<◌, ◌≡◌, refl, Bool, true, false, List, [], ◌∷◌, inl, inr, length,
  get_or, arith, Bool-cases, ◌==◌, ==_iff, if◌then◌else◌, ◌||◌,
}
use app_com_util.Table.{Entry, empty_entry}

abbrev pub IsChain : List Entry → ℕ → List ℕ → Type 0
IsChain es cur [] = cur ≡ 0
IsChain es cur (r ∷ rs) = (cur ≡ suc r) × IsChain es (get_or es r empty_entry).next rs

abbrev pub contains : ℕ → List ℕ → Bool
contains r [] = false
contains r (s ∷ ss) = (r == s) || contains r ss

abbrev pub AreDistinct : List ℕ → Type 0
AreDistinct [] = Unit {0}
AreDistinct (r ∷ rs) = (contains r rs ≡ false) × AreDistinct rs

abbrev pub remove : ℕ → List ℕ → List ℕ
remove r [] = []
remove r (s ∷ ss) = if r == s then ss else s ∷ remove r ss

pub contains-remove :
    (r x : ℕ) (rs : List ℕ)
    → AreDistinct rs
    → contains x (remove r rs) ≡ (if x == r then false else contains x rs)
contains-remove r x [] d = ground arith
contains-remove r x (s ∷ ss) d = ground (arith, contains-remove r x ss)

pub remove-AreDistinct : (r : ℕ) (rs : List ℕ) → AreDistinct rs → AreDistinct (remove r rs)
remove-AreDistinct r [] d = d
remove-AreDistinct r (s ∷ ss) d = elim (Bool-cases (r == s)) [
  | inl e ↦ rw e d.1
  | inr e ↦
      let kept = contains-remove r s ss d.1 in rw e (ground arith, remove-AreDistinct r ss d.1)
]

length-remove : (r : ℕ) (rs : List ℕ) → length rs ≤ length (remove r rs) + 1
length-remove r [] = omega arith
length-remove r (s ∷ ss) = ground (arith, length-remove r ss)

pub contains_tail : (r s : ℕ) (rs : List ℕ) → contains s rs ≡ true → contains s (r ∷ rs) ≡ true
contains_tail r s rs h = ground arith

remove_below :
    (n x : ℕ) (rs : List ℕ)
    → AreDistinct rs
    → ((r : ℕ) → contains r rs ≡ true → r < suc n)
    → contains x (remove n rs) ≡ true
    → x < n
remove_below n x rs d below h = let e = contains-remove n x rs d in let k = below x in ground arith

-- Distinct numbers below `n` are at most `n`.
pub length-AreDistinct :
    (n : ℕ) (rs : List ℕ)
    → AreDistinct rs
    → ((r : ℕ) → contains r rs ≡ true → r < n)
    → length rs ≤ n
length-AreDistinct n [] d below = omega arith
length-AreDistinct zero (r ∷ rs) d below =
    let self : (r == r) ≡ true = (==_iff r r).1 refl in
    absurd (omega (arith, below r (rw self refl)))
length-AreDistinct (suc n) (r ∷ rs) d below =
    let rest = r ∷ rs in
    let shorter =
      length-AreDistinct n (remove n rest) (remove-AreDistinct n rest d)
        (λ x h. remove_below n x rest d below h) in
    omega (arith, shorter, length-remove n rest)

-- The chain does not see a change to the records outside it.
pub IsChain-frame :
    (es es' : List Entry) (cur : ℕ) (rs : List ℕ)
    → ((r : ℕ)
        → contains r rs ≡ true
        → (get_or es' r empty_entry).next ≡ (get_or es r empty_entry).next)
    → IsChain es cur rs
    → IsChain es' cur rs
IsChain-frame es es' cur [] same h = h
IsChain-frame es es' cur (r ∷ rs) same h =
    let self : (r == r) ≡ true = (==_iff r r).1 refl in
    let next = same r (rw self refl) in
    (
      h.0,
      rw next (
          IsChain-frame es es' (get_or es r empty_entry).next rs
            (λ s c. same s (contains_tail r s rs c)) h.1),
    )
