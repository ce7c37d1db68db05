-- ===== src/Arena/Blocks.antt =====
-- What a well-formed free list is, and which bytes it holds.
use app_com_util.Base.{
  ℕ, ◌+◌, ◌≤◌, ◌<◌, ◌≡◌, refl, List, [], ◌∷◌, Bool, true, false, ◌&&◌, ◌||◌, arith, ltb, leb,
}
use app_com_util.Base.Words.{u64_mod}
use app_com_util.Arena.{Block}

-- Ascending from `low` on, no block empty, none past `size`, and a used byte between any two, so
-- that every block is as long as it can be.
abbrev pub IsOrdered : ℕ → ℕ → List Block → Type 0
IsOrdered low size [] = Unit {0}
IsOrdered low size (b ∷ bs) =
    (low ≤ b.offset)
    × (0 < b.length)
    × (b.offset + b.length ≤ size)
    × IsOrdered (b.offset + b.length + 1) size bs

-- The free list of a storage of `size` bytes.
pub record IsFreeList (size : ℕ) (bs : List Block) : Type 0 where
  pub small : size < u64_mod
  pub ordered : IsOrdered 0 size bs

abbrev pub within : ℕ → ℕ → ℕ → Bool
within offset length x = leb offset x && ltb x (offset + length)

-- Whether the byte at `x` is free.
abbrev pub is_free : List Block → ℕ → Bool
is_free [] x = false
is_free (b ∷ bs) x = within b.offset b.length x || is_free bs x

-- All bytes of `[offset, offset + length)` are free, or none is.
abbrev pub AllFree : List Block → ℕ → ℕ → Type 0
AllFree bs offset length = (x : ℕ) → offset ≤ x → x < offset + length → is_free bs x ≡ true

abbrev pub NoneFree : List Block → ℕ → ℕ → Type 0
NoneFree bs offset length = (x : ℕ) → offset ≤ x → x < offset + length → is_free bs x ≡ false

-- The number of free bytes.
abbrev pub total_free : List Block → ℕ
total_free [] = 0
total_free (b ∷ bs) = b.length + total_free bs

-- A bound from below can be lowered.
pub IsOrdered-le :
    (low low' size : ℕ) (bs : List Block)
    → low' ≤ low
    → IsOrdered low size bs
    → IsOrdered low' size bs
IsOrdered-le low low' size [] h o = tt
IsOrdered-le low low' size (b ∷ bs) h o = (omega arith, o.1, o.2, o.3)

-- No byte below the bound is free.
pub is_free-below :
    (low size : ℕ) (bs : List Block) (x : ℕ)
    → IsOrdered low size bs
    → x < low
    → is_free bs x ≡ false
is_free-below low size [] x o h = refl
is_free-below low size (b ∷ bs) x o h =
    ground (arith, is_free-below (b.offset + b.length + 1) size bs x)

-- No byte past the storage is free.
pub is_free-past :
    (low size : ℕ) (bs : List Block) (x : ℕ)
    → IsOrdered low size bs
    → size ≤ x
    → is_free bs x ≡ false
is_free-past low size [] x o h = refl
is_free-past low size (b ∷ bs) x o h =
    ground (arith, is_free-past (b.offset + b.length + 1) size bs x)
