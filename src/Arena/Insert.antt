-- ===== src/Arena/Insert.antt =====
-- The reference for `arena_give`: a block is inserted by its offset and joined on both sides.
use app_com_util.Base.{
  ℕ, ◌+◌, ◌≤◌, ◌<◌, ◌≡◌, ◌⊎◌, refl, List, [], ◌∷◌, ◌||◌, arith, ltb, if◌then◌else◌, ◌==◌,
  Bool-cases, inl, inr, ltb→lt, ltb-false→le, ==_iff, ◌≢◌,
}
use app_com_util.Arena.{Block}
use app_com_util.Arena.Blocks.{IsOrdered, within, is_free, NoneFree, total_free}

-- A block and the one behind it made one, if nothing lies between them.
abbrev pub fuse : Block → List Block → List Block
fuse b [] = b ∷ []
fuse b (n ∷ bs) =
    if b.offset + b.length == n.offset
    then record b { length = b.length + n.length } ∷ bs
    else b ∷ n ∷ bs

-- The reference: insert by offset, and join on both sides.
abbrev pub insert_block : ℕ → ℕ → List Block → List Block
insert_block start len [] = record { offset = start; length = len } ∷ []
insert_block start len (b ∷ bs) =
    if ltb (b.offset + b.length) start
    then b ∷ insert_block start len bs
    else if b.offset + b.length == start
    then fuse (record b { length = b.length + len }) bs
    else fuse (record { offset = start; length = len }) (b ∷ bs)

-- Every block lies before `start` or from `start + len` on.
abbrev pub Apart : ℕ → ℕ → List Block → Type 0
Apart start len [] = Unit {0}
Apart start len (b ∷ bs) =
    ((b.offset + b.length ≤ start) ⊎ (start + len ≤ b.offset)) × Apart start len bs

apart_head :
    (start len : ℕ) (b : Block) (bs : List Block)
    → 0 < len
    → 0 < b.length
    → NoneFree (b ∷ bs) start len
    → (b.offset + b.length ≤ start) ⊎ (start + len ≤ b.offset)
apart_head start len b bs pos filled h = ground (arith, h start, h b.offset)

none_tail :
    (start len : ℕ) (b : Block) (bs : List Block)
    → NoneFree (b ∷ bs) start len
    → NoneFree bs start len
none_tail start len b bs h x l u = ground (arith, h x)

pub NoneFree-Apart :
    (low size start len : ℕ) (bs : List Block)
    → 0 < len
    → IsOrdered low size bs
    → NoneFree bs start len
    → Apart start len bs
NoneFree-Apart low size start len [] pos o h = tt
NoneFree-Apart low size start len (b ∷ bs) pos o h = (
  apart_head start len b bs pos o.1 h,
  NoneFree-Apart (b.offset + b.length + 1) size start len bs pos o.3 (none_tail start len b bs h),
)

fuse-IsOrdered :
    (low size : ℕ) (b : Block) (bs : List Block)
    → low ≤ b.offset
    → 0 < b.length
    → b.offset + b.length ≤ size
    → IsOrdered (b.offset + b.length) size bs
    → IsOrdered low size (fuse b bs)
fuse-IsOrdered low size b [] h pos fit o = ground arith
fuse-IsOrdered low size b (n ∷ bs) h pos fit o = ground arith

-- What follows the place of the block follows the block.
pub IsOrdered-Apart :
    (size start len low low' : ℕ) (bs : List Block)
    → start ≤ low
    → low' ≤ start + len
    → IsOrdered low size bs
    → Apart start len bs
    → IsOrdered low' size bs
IsOrdered-Apart size start len low low' [] h e o a = tt
IsOrdered-Apart size start len low low' (b ∷ bs) h e o a = (omega arith, o.1, o.2, o.3)

pub insert_block-IsOrdered :
    (low size start len : ℕ) (bs : List Block)
    → 0 < len
    → low ≤ start
    → start + len ≤ size
    → IsOrdered low size bs
    → Apart start len bs
    → IsOrdered low size (insert_block start len bs)
insert_block-IsOrdered low size start len [] pos h fit o a = ground arith
insert_block-IsOrdered low size start len (b ∷ bs) pos h fit o a =
    elim (Bool-cases (ltb (b.offset + b.length) start)) [
      | inl far ↦
          let below = ltb→lt (b.offset + b.length) start far in
          rw far (
            o.0,
            o.1,
            o.2,
            insert_block-IsOrdered (b.offset + b.length + 1) size start len bs pos (omega arith) fit
                o.3 a.1,
          )
      | inr near ↦
          let above = ltb-false→le (b.offset + b.length) start near in
          elim (Bool-cases (b.offset + b.length == start)) [
            | inl touch ↦
                let e = (==_iff (b.offset + b.length) start).0 touch in
                rw (near, touch)
                  (fuse-IsOrdered low size (record b { length = b.length + len }) bs (o.0)
                    (omega arith) (omega arith)
                    (IsOrdered-Apart size start len (b.offset + b.length + 1)
                      (b.offset + (b.length + len)) bs (omega arith) (omega arith) o.3 a.1))
            | inr apart ↦
                let e : b.offset + b.length ≢ start = ground arith in
                rw (near, apart)
                  (fuse-IsOrdered low size (record { offset = start; length = len }) (b ∷ bs) h pos
                    fit (omega arith, o.1, o.2, o.3))
          ]
    ]

is_free-fuse :
    (b : Block) (bs : List Block) (x : ℕ)
    → is_free (fuse b bs) x ≡ within b.offset b.length x || is_free bs x
is_free-fuse b [] x = refl
is_free-fuse b (n ∷ bs) x = ground arith

pub is_free-insert_block :
    (start len : ℕ) (bs : List Block) (x : ℕ)
    → is_free (insert_block start len bs) x ≡ within start len x || is_free bs x
is_free-insert_block start len [] x = refl
is_free-insert_block start len (b ∷ bs) x = ground (
  arith,
  is_free-insert_block start len bs x,
  is_free-fuse (record b { length = b.length + len }) bs x,
  is_free-fuse (record { offset = start; length = len }) (b ∷ bs) x,
)

total_free-fuse : (b : Block) (bs : List Block) → total_free (fuse b bs) ≡ b.length + total_free bs
total_free-fuse b [] = refl
total_free-fuse b (n ∷ bs) = ground arith

pub total_free-insert_block :
    (start len : ℕ) (bs : List Block) → total_free (insert_block start len bs) ≡ len + total_free bs
total_free-insert_block start len [] = refl
total_free-insert_block start len (b ∷ bs) = ground (
  arith,
  total_free-insert_block start len bs,
  total_free-fuse (record b { length = b.length + len }) bs,
  total_free-fuse (record { offset = start; length = len }) (b ∷ bs),
)
