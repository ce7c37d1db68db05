-- ===== src/Arena/Give.antt =====
-- `arena_give`: the block comes back joined with its neighbours.
use app_com_util.Base.{
  ℕ, zero, suc, ◌+◌, ◌≤◌, ◌<◌, ◌≡◌, ◌≢◌, refl, List, [], ◌∷◌, ◌||◌, false, arith, none, some,
}
use app_com_util.Base.Words.{u64_mod, add64-eq}
use app_com_util.Arena.{Block, block_end, give_at, give_from, arena_give}
use app_com_util.Arena.Blocks.{IsOrdered, IsFreeList, within, is_free, NoneFree, total_free}
use app_com_util.Arena.Insert.{
  Apart, fuse, insert_block, NoneFree-Apart, insert_block-IsOrdered, is_free-insert_block,
  total_free-insert_block,
}

give_skip :
    (start end len : ℕ) (p : Block) (bs : List Block)
    → block_end p ≢ start
    → give_from start end len (some p) bs ≡ p ∷ give_from start end len none bs
unfolding give_from
give_skip start end len p [] h = ground arith
give_skip start end len p (n ∷ bs) h = ground arith

give_join :
    (start end len low size : ℕ) (p : Block) (bs : List Block)
    → start ≤ low
    → IsOrdered low size bs
    → give_from start end len (some p) bs ≡ give_at start end len (some p) bs
unfolding give_from
give_join start end len low size p [] h o = refl
give_join start end len low size p (n ∷ bs) h o = ground arith

-- Joining with the next block does not wrap.
abbrev IsSmall : ℕ → List Block → Type 0
IsSmall len [] = len < u64_mod
IsSmall len (n ∷ bs) = len + n.length < u64_mod

give_at_join :
    (start len : ℕ) (p : Block) (bs : List Block)
    → p.offset + p.length ≡ start
    → start < u64_mod
    → IsSmall (p.length + len) bs
    → give_at start (start + len) len (some p) bs ≡ fuse (record p { length = p.length + len }) bs
unfolding give_at
give_at_join start len p [] e small a = ground arith
give_at_join start len p (n ∷ bs) e small a = ground arith

give_at_alone :
    (start len : ℕ) (b : Block) (bs : List Block)
    → b.length + len < u64_mod
    → give_at start (start + len) len none (b ∷ bs)
      ≡ fuse (record { offset = start; length = len }) (b ∷ bs)
unfolding give_at
give_at_alone start len b bs small = ground arith

-- The three places of the block against the first of the list.
give_far :
    (start end len : ℕ) (b : Block) (bs : List Block)
    → b.offset + b.length < start
    → start < u64_mod
    → give_from start end len none (b ∷ bs) ≡ b ∷ give_from start end len none bs
unfolding give_from
give_far start end len b bs h small = ground (arith, give_skip start end len b bs)

give_touching :
    (start end len size : ℕ) (b : Block) (bs : List Block)
    → b.offset + b.length ≡ start
    → 0 < b.length
    → IsOrdered (b.offset + b.length + 1) size bs
    → give_from start end len none (b ∷ bs) ≡ give_at start end len (some b) bs
unfolding give_from
give_touching start end len size b bs h pos o =
    ground (arith, give_join start end len (b.offset + b.length + 1) size b bs)

give_before :
    (start end len : ℕ) (b : Block) (bs : List Block)
    → start ≤ b.offset
    → give_from start end len none (b ∷ bs) ≡ give_at start end len none (b ∷ bs)
unfolding give_from
give_before start end len b bs h = ground arith

IsSmall-tail :
    (size start len : ℕ) (b : Block) (bs : List Block)
    → b.offset + b.length ≡ start
    → start + len ≤ size
    → size < u64_mod
    → IsOrdered (start + 1) size bs
    → Apart start len bs
    → IsSmall (b.length + len) bs
IsSmall-tail size start len b [] e fit small o a = omega arith
IsSmall-tail size start len b (n ∷ bs) e fit small o a = ground arith

pub give_from-eq-insert_block :
    (low size start len : ℕ) (bs : List Block)
    → 0 < len
    → start + len ≤ size
    → size < u64_mod
    → IsOrdered low size bs
    → Apart start len bs
    → give_from start (start + len) len none bs ≡ insert_block start len bs
give_from-eq-insert_block low size start len [] pos fit small o a = unfold give_from give_at in refl
give_from-eq-insert_block low size start len (b ∷ bs) pos fit small o a = ground (
  arith,
  give_far start (start + len) len b bs,
  give_touching start (start + len) len size b bs,
  give_at_join start len b bs,
  IsSmall-tail size start len b bs,
  give_before start (start + len) len b bs,
  give_at_alone start len b bs,
  give_from-eq-insert_block (b.offset + b.length + 1) size start len bs,
)

-- `length == 0` gives nothing back.
within-zero : (offset x : ℕ) → within offset 0 x ≡ false
within-zero offset x = ground arith

-- `arena_give` is the insertion of the block.
pub arena_give-eq-insert_block :
    (size offset len : ℕ) (bs : List Block)
    → IsFreeList size bs
    → 0 < len
    → offset + len ≤ size
    → NoneFree bs offset len
    → arena_give bs offset len ≡ insert_block offset len bs
unfolding arena_give
arena_give-eq-insert_block size offset len bs v pos fit used =
    let a = NoneFree-Apart 0 size offset len bs pos v.ordered used in
    let e = give_from-eq-insert_block 0 size offset len bs pos fit v.small v.ordered a in
    ground (arith, v.small, add64-eq offset len)

-- What `arena_give` leaves: a well-formed list, with the bytes given back free besides those that
-- were, counted once.
pub record Gives (size offset len : ℕ) (bs bs' : List Block) : Type 0 where
  pub valid : IsFreeList size bs'
  pub bytes : (x : ℕ) → is_free bs' x ≡ within offset len x || is_free bs x
  pub total : total_free bs' ≡ len + total_free bs

-- Giving back a block of used bytes inside the storage keeps a well-formed list well formed, frees
-- these bytes and no other, and adds their number to the free bytes.
pub arena_give-Gives :
    (size offset len : ℕ) (bs : List Block)
    → IsFreeList size bs
    → offset + len ≤ size
    → NoneFree bs offset len
    → Gives size offset len bs (arena_give bs offset len)
arena_give-Gives size offset zero bs v fit used = record {
  valid = unfold arena_give in v;
  bytes = unfold arena_give in λ x. rw within-zero;
  total = unfold arena_give in omega arith;
}
arena_give-Gives size offset (suc n) bs v fit used =
    let e = arena_give-eq-insert_block size offset (suc n) bs v (omega arith) fit used in
    let a = NoneFree-Apart 0 size offset (suc n) bs (omega arith) v.ordered used in
    rw e record {
      valid = record {
        small = v.small;
        ordered =
            insert_block-IsOrdered 0 size offset (suc n) bs (omega arith) (omega arith) fit
              v.ordered a;
      };
      bytes = is_free-insert_block offset (suc n) bs;
      total = total_free-insert_block offset (suc n) bs;
    }
