-- ===== src/Table/Next.antt =====
-- `com_util_hashtable_next_record` finds the next record of the statuses asked for.
use Prim.Native.Nat.{bit_and}
use app_com_util.Base.{
  ℕ, zero, suc, ◌+◌, ◌-◌, ◌/◌, ◌%◌, ◌≤◌, ◌<◌, ◌≡◌, ◌≢◌, refl, Bool, true, false, not, List, [], ◌∷◌,
  ◌==◌, ltb, Option, none, some, length, get_or, drop, arith, Bool-cases, inl, inr,
}
use app_com_util.Table.{Table, Entry, empty_entry}
use app_com_util.Table.Query.{Answer, next_from, next_record, status_bit}
use app_com_util.Status.{Status}

abbrev hit : ℕ → Entry → Bool
hit mask e = not (bit_and mask (status_bit e.status) == 0)

-- The entries stand from index `i` on; the answer counts from 1.
abbrev IsNextHit : ℕ → ℕ → List Entry → Option ℕ → Type 0
IsNextHit mask i es none = (k : ℕ) → k < length es → hit mask (get_or es k empty_entry) ≡ false
IsNextHit mask i es (some n) =
    (i < n)
    × (n ≤ i + length es)
    × (hit mask (get_or es (n - 1 - i) empty_entry) ≡ true)
    × ((k : ℕ) → i + k + 1 < n → hit mask (get_or es k empty_entry) ≡ false)

IsNextHit-cons :
    (mask i : ℕ) (e : Entry) (es : List Entry) (r : Option ℕ)
    → hit mask e ≡ false
    → IsNextHit mask (i + 1) es r
    → IsNextHit mask i (e ∷ es) r
IsNextHit-cons mask i e es none h ih = λ k l. split_index k l
  where
    split_index : (k : ℕ) → k < suc (length es) → hit mask (get_or (e ∷ es) k empty_entry) ≡ false
    split_index zero l = h
    split_index (suc k) l = ih k (omega arith)
IsNextHit-cons mask i e es (some n) h ih =
    let at : n - 1 - i ≡ suc (n - 1 - (i + 1)) = omega (arith, ih.0) in
    (omega (arith, ih.0), omega (arith, ih.1), rw at (ih.2), λ k l. split_index k l)
  where
    split_index : (k : ℕ) → i + k + 1 < n → hit mask (get_or (e ∷ es) k empty_entry) ≡ false
    split_index zero l = h
    split_index (suc k) l = ih.3 k (omega arith)

next_from-IsNextHit : (mask i : ℕ) (es : List Entry) → IsNextHit mask i es (next_from mask i es)
unfolding next_from
next_from-IsNextHit mask i [] = λ k l. absurd (omega arith)
next_from-IsNextHit mask i (e ∷ es) = elim (Bool-cases (hit mask e)) [
  | inl h ↦
      let here : i + 1 - 1 - i ≡ 0 = omega arith in
      rw h (omega arith, omega arith, rw here h, λ k l. absurd (omega arith))
  | inr h ↦ rw h (
      IsNextHit-cons mask i e es (next_from mask (i + 1) es) h
        (next_from-IsNextHit mask (i + 1) es))
]

-- What a mask asks for: bit 0 records in use, bit 1 deleted ones, bit 2 empty ones.
pub data Asks (mask status : ℕ) : Type 0 where
  in_use : status ≡ 1 → mask % 2 ≡ 1 → Asks mask status
  deleted : 2 ≤ status → (mask / 2) % 2 ≡ 1 → Asks mask status
  empty : status ≡ 0 → (mask / 4) % 2 ≡ 1 → Asks mask status

-- The first entry that the mask asks for; the entries stand from index `i` on and the answer counts from 1.
abbrev pub IsNext : ℕ → ℕ → List Entry → Option ℕ → Type 0
IsNext mask i es none = (k : ℕ) → k < length es → ¬ Asks mask (get_or es k empty_entry).status
IsNext mask i es (some n) =
    (i < n)
    × (n ≤ i + length es)
    × Asks mask (get_or es (n - 1 - i) empty_entry).status
    × ((k : ℕ) → i + k + 1 < n → ¬ Asks mask (get_or es k empty_entry).status)

-- A property of every mask of three bits.
by_mask :
    (P : ℕ → Type 0)
    → P 0
    → P 1
    → P 2
    → P 3
    → P 4
    → P 5
    → P 6
    → P 7
    → (mask : ℕ) → mask < 8
    → P mask
by_mask P a b c d e f g h zero l = a
by_mask P a b c d e f g h (suc zero) l = b
by_mask P a b c d e f g h (suc (suc zero)) l = c
by_mask P a b c d e f g h (suc (suc (suc zero))) l = d
by_mask P a b c d e f g h (suc (suc (suc (suc zero)))) l = e
by_mask P a b c d e f g h (suc (suc (suc (suc (suc zero))))) l = f
by_mask P a b c d e f g h (suc (suc (suc (suc (suc (suc zero)))))) l = g
by_mask P a b c d e f g h (suc (suc (suc (suc (suc (suc (suc zero))))))) l = h
by_mask P a b c d e f g h (suc (suc (suc (suc (suc (suc (suc (suc m)))))))) l = absurd (omega arith)

abbrev Bits : ℕ → Type 0
Bits mask =
    ((bit_and mask 1 == 0) ≡ (mask % 2 == 0))
    × ((bit_and mask 2 == 0) ≡ ((mask / 2) % 2 == 0))
    × ((bit_and mask 4 == 0) ≡ ((mask / 4) % 2 == 0))
    × (bit_and mask 0xfffffff8 ≡ 0)

mask-Bits : (mask : ℕ) → mask < 8 → Bits mask
mask-Bits =
    by_mask Bits (refl, refl, refl, refl) (refl, refl, refl, refl) (refl, refl, refl, refl)
      (refl, refl, refl, refl) (refl, refl, refl, refl) (refl, refl, refl, refl)
      (refl, refl, refl, refl) (refl, refl, refl, refl)

bit_set : (b : Bool) (n : ℕ) → b ≡ (n % 2 == 0) → not b ≡ true → n % 2 ≡ 1
bit_set b n e h = let odd : (n % 2 == 0) ≡ false = ground arith in ground arith

bit_clear : (b : Bool) (n : ℕ) → b ≡ (n % 2 == 0) → not b ≡ false → n % 2 ≢ 1
bit_clear b n e h = let even : (n % 2 == 0) ≡ true = ground arith in λ z. absurd (ground arith)

-- The two tests of a mask agree on a status.
hit-Asks : (mask : ℕ) (e : Entry) → mask < 8 → hit mask e ≡ true → Asks mask e.status
hit-Asks mask e l h =
    let (one, two, four, none_else) = mask-Bits mask l in
    elim (Bool-cases (e.status == 0)) [
      | inl a ↦ empty (ground arith) (bit_set _ (mask / 4) four (rw a at h))
      | inr a ↦ elim (Bool-cases (e.status == 1)) [
        | inl b ↦ in_use (ground arith) (bit_set _ mask one (rw (a, b) at h))
        | inr b ↦ deleted (ground arith) (bit_set _ (mask / 2) two (rw (a, b) at h))
      ]
    ]

no_hit-Asks : (mask : ℕ) (e : Entry) → mask < 8 → hit mask e ≡ false → ¬ Asks mask e.status
no_hit-Asks mask e l h (in_use a b) =
    let c : (e.status == 0) ≡ false = ground arith in
    let d : (e.status == 1) ≡ true = ground arith in
    bit_clear _ mask ((mask-Bits mask l).0) (rw (c, d) at h) b
no_hit-Asks mask e l h (deleted a b) =
    let c : (e.status == 0) ≡ false = ground arith in
    let d : (e.status == 1) ≡ false = ground arith in
    bit_clear _ (mask / 2) ((mask-Bits mask l).1) (rw (c, d) at h) b
no_hit-Asks mask e l h (empty a b) =
    let c : (e.status == 0) ≡ true = ground arith in
    bit_clear _ (mask / 4) ((mask-Bits mask l).2) (rw c at h) b

IsNextHit-IsNext :
    (mask i : ℕ) (es : List Entry) (r : Option ℕ)
    → mask < 8
    → IsNextHit mask i es r
    → IsNext mask i es r
IsNextHit-IsNext mask i es none l h = λ k m. no_hit-Asks mask (get_or es k empty_entry) l (h k m)
IsNextHit-IsNext mask i es (some n) l h = (
  h.0,
  h.1,
  hit-Asks mask (get_or es (n - 1 - i) empty_entry) l (h.2),
  λ k m. no_hit-Asks mask (get_or es k empty_entry) l (h.3 k m),
)

-- What a successful call answers.
abbrev pub NextAnswer : ℕ → ℕ → List Entry → Answer (Option ℕ) → Type 0
NextAnswer mask from es (s, some r) = (s ≡ Status.ok) × IsNext mask from es r
NextAnswer mask from es (s, none) = ⊥

-- With a mask that has some of the three known bits and no other, and a start inside the table,
-- `com_util_hashtable_next_record` succeeds with the first record behind number `from` that the mask asks
-- for (bit 0: in use, bit 1: deleted, bit 2: empty), and answers no record only if there is none.
pub next_record-IsNext :
    (t : Table) (from mask : ℕ)
    → 0 < mask
    → mask < 8
    → from ≤ t.config.capacity
    → NextAnswer mask from (drop from t.entries) (next_record t from mask true)
unfolding next_record
next_record-IsNext t from mask some_bit known inside =
    let given : (mask == 0) ≡ false = ground arith in
    let (one, two, four, no_other) = mask-Bits mask known in
    let in_range : ltb t.config.capacity from ≡ false = ground arith in
    let es = drop from t.entries in
    rw (given, no_other, in_range)
      (
        refl,
        IsNextHit-IsNext mask from es (next_from mask from es) known
            (next_from-IsNextHit mask from es),
      )
