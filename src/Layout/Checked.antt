-- ===== src/Layout/Checked.antt =====
-- The checked sums and products fail exactly where 64 bits do not hold the result.
use app_com_util.Base.{
  ℕ, ◌+◌, ◌-◌, ◌*◌, ◌/◌, ◌%◌, ◌≤◌, ◌<◌, ◌≡◌, Option, none, some, ltb, ◌==◌, if◌then◌else◌, arith,
  Bool-cases, inl, inr, ltb→lt, false,
}
use app_com_util.Base.Words.{u64_mod}
use native.Mathlib.Nat.{mod-lt, mod-add-mod, mod_self}
use app_com_util.Layout.{◌>>=◌, add_checked, mul_checked, align_up_checked}

-- A number if 64 bits hold it.
abbrev pub fit64 : ℕ → Option ℕ
fit64 n = if ltb n u64_mod then some n else none

-- `add_checked` gives the sum of two 64-bit numbers exactly if 64 bits hold it.
pub add_checked-eq : (a b : ℕ) → a < u64_mod → add_checked a b ≡ fit64 (a + b)
unfolding add_checked
add_checked-eq a b h = ground arith

div_bound : (a b : ℕ) → 0 < a → (u64_mod - 1) / a < b → u64_mod ≤ a * b
div_bound a b pos h = grind arith

div_fit : (a b : ℕ) → 0 < a → b ≤ (u64_mod - 1) / a → a * b < u64_mod
div_fit a b pos h = grind arith

-- `mul_checked` gives the product exactly if 64 bits hold it.
pub mul_checked-eq : (a b : ℕ) → mul_checked a b ≡ fit64 (a * b)
unfolding mul_checked
mul_checked-eq a b = ground (arith, div_bound a b, div_fit a b)

-- `offset` raised to the next multiple of the alignment.
abbrev pub align_up : ℕ → ℕ → ℕ
align_up offset alignment =
    if offset % alignment == 0 then offset else offset + (alignment - offset % alignment)

-- `align_up_checked` gives the offset raised to a multiple of the alignment exactly if 64 bits hold it.
pub align_up_checked-eq :
    (offset alignment : ℕ)
    → offset < u64_mod
    → align_up_checked offset alignment ≡ fit64 (align_up offset alignment)
unfolding align_up_checked
align_up_checked-eq offset alignment h = ground (
  arith,
  add_checked-eq offset (if offset % alignment == 0 then 0 else alignment - offset % alignment),
)

align_up_mod :
    (offset alignment : ℕ)
    → 0 < alignment
    → (offset + (alignment - offset % alignment)) % alignment ≡ 0
align_up_mod offset alignment pos =
    let below = mod-lt offset pos in
    let whole : offset % alignment + (alignment - offset % alignment) ≡ alignment = omega arith in
    rw (← mod-add-mod offset alignment (alignment - offset % alignment), whole) (mod_self alignment)

-- The aligned offset is the least multiple of the alignment from `offset` on.
pub align_up_lem :
    (offset alignment : ℕ)
    → 0 < alignment
    → (offset ≤ align_up offset alignment)
      × (align_up offset alignment < offset + alignment)
      × (align_up offset alignment % alignment ≡ 0)
align_up_lem offset alignment pos =
    ground (arith, mod-lt offset pos, align_up_mod offset alignment pos)

-- A step of a chain of checked sums whose results do not pass `total`.
pub fit64->>= :
    {A : Type 0} (n total : ℕ) (f : ℕ → Option A) (r : A)
    → n ≤ total
    → (n < u64_mod → f n ≡ (if ltb total u64_mod then some r else none))
    → (fit64 n >>= f) ≡ (if ltb total u64_mod then some r else none)
fit64->>= n total f r h next = elim (Bool-cases (ltb n u64_mod)) [
  | inl e ↦ rw e (next (ltb→lt n u64_mod e))
  | inr e ↦ let over : ltb total u64_mod ≡ false = ground arith in rw (e, over)
]
