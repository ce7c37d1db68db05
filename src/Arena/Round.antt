-- ===== src/Arena/Round.antt =====
-- `arena_take` and `arena_give` undo one another: equal sets of free bytes have one list.
use app_com_util.Base.{ℕ, ◌+◌, ◌≤◌, ◌<◌, ◌≡◌, refl, List, [], ◌∷◌, arith, sym}
use app_com_util.Arena.{Block, arena_give, arena_take}
use app_com_util.Arena.Blocks.{IsOrdered, IsFreeList, is_free, is_free-below, AllFree, NoneFree}
use app_com_util.Arena.Give.{arena_give-Gives}
use app_com_util.Arena.Take.{arena_take-Takes}

-- Two lists hold the same bytes free.
abbrev pub SameBytes : List Block → List Block → Type 0
SameBytes bs cs = (x : ℕ) → is_free bs x ≡ is_free cs x

module _ (size : ℕ) where
  nil-cons :
      (low : ℕ) (b : Block) (bs : List Block)
      → IsOrdered low size (b ∷ bs)
      → ¬ SameBytes [] (b ∷ bs)
  nil-cons low b bs o same = ground (arith, same b.offset)

  same_offset :
      (lo lo' : ℕ) (b c : Block) (bs cs : List Block)
      → IsOrdered lo size (b ∷ bs)
      → IsOrdered lo' size (c ∷ cs)
      → SameBytes (b ∷ bs) (c ∷ cs)
      → b.offset ≡ c.offset
  same_offset lo lo' b c bs cs o p same = ground (
    arith,
    same b.offset,
    same c.offset,
    is_free-below (b.offset + b.length + 1) size bs c.offset,
    is_free-below (c.offset + c.length + 1) size cs b.offset,
  )

  same_length :
      (lo lo' : ℕ) (b c : Block) (bs cs : List Block)
      → IsOrdered lo size (b ∷ bs)
      → IsOrdered lo' size (c ∷ cs)
      → SameBytes (b ∷ bs) (c ∷ cs)
      → b.offset ≡ c.offset
      → b.length ≡ c.length
  same_length lo lo' b c bs cs o p same e = ground (
    arith,
    same (b.offset + b.length),
    same (c.offset + c.length),
    is_free-below (b.offset + b.length + 1) size bs (b.offset + b.length),
    is_free-below (c.offset + c.length + 1) size cs (c.offset + c.length),
    is_free-below (b.offset + b.length + 1) size bs (c.offset + c.length),
    is_free-below (c.offset + c.length + 1) size cs (b.offset + b.length),
  )

  same_tail :
      (lo lo' : ℕ) (b c : Block) (bs cs : List Block)
      → IsOrdered lo size (b ∷ bs)
      → IsOrdered lo' size (c ∷ cs)
      → SameBytes (b ∷ bs) (c ∷ cs)
      → b.offset ≡ c.offset
      → b.length ≡ c.length
      → SameBytes bs cs
  same_tail lo lo' b c bs cs o p same e l x = ground (
    arith,
    same x,
    is_free-below (b.offset + b.length + 1) size bs x,
    is_free-below (c.offset + c.length + 1) size cs x,
  )

  -- A well-formed free list is determined by its free bytes.
  pub SameBytes-eq :
      (lo lo' : ℕ) (bs cs : List Block)
      → IsOrdered lo size bs
      → IsOrdered lo' size cs
      → SameBytes bs cs
      → bs ≡ cs
  SameBytes-eq lo lo' [] [] o p same = refl
  SameBytes-eq lo lo' [] (c ∷ cs) o p same = absurd (nil-cons lo' c cs p same)
  SameBytes-eq lo lo' (b ∷ bs) [] o p same = absurd (nil-cons lo b bs o (λ x. sym (same x)))
  SameBytes-eq lo lo' (b ∷ bs) (c ∷ cs) o p same =
      let e = same_offset lo lo' b c bs cs o p same in
      let l = same_length lo lo' b c bs cs o p same e in
      let t = same_tail lo lo' b c bs cs o p same e l in
      let r = SameBytes-eq (b.offset + b.length + 1) (c.offset + c.length + 1) bs cs o.3 p.3 t in
      ground arith

-- On a well-formed list, taking a range of free bytes that is not empty and giving it back leaves the
-- list as it was, block for block.
pub arena_give-arena_take :
    (size offset len : ℕ) (bs : List Block)
    → IsFreeList size bs
    → 0 < len
    → offset + len ≤ size
    → AllFree bs offset len
    → arena_give (arena_take bs offset len) offset len ≡ bs
arena_give-arena_take size offset len bs v pos fit all =
    let t = arena_take-Takes size offset len bs v pos all in
    let used : NoneFree (arena_take bs offset len) offset len =
      λ x l u. ground (arith, t.bytes x) in
    let g = arena_give-Gives size offset len (arena_take bs offset len) t.valid fit used in
    SameBytes-eq size 0 0 (arena_give (arena_take bs offset len) offset len) bs g.valid.ordered
      v.ordered (λ x. ground (arith, g.bytes x, t.bytes x, all x))

-- On a well-formed list, giving back a range of used bytes that is not empty and taking it again
-- leaves the list as it was, block for block.
pub arena_take-arena_give :
    (size offset len : ℕ) (bs : List Block)
    → IsFreeList size bs
    → 0 < len
    → offset + len ≤ size
    → NoneFree bs offset len
    → arena_take (arena_give bs offset len) offset len ≡ bs
arena_take-arena_give size offset len bs v pos fit used =
    let g = arena_give-Gives size offset len bs v fit used in
    let all : AllFree (arena_give bs offset len) offset len = λ x l u. ground (arith, g.bytes x) in
    let t = arena_take-Takes size offset len (arena_give bs offset len) g.valid pos all in
    SameBytes-eq size 0 0 (arena_take (arena_give bs offset len) offset len) bs t.valid.ordered
      v.ordered (λ x. ground (arith, g.bytes x, t.bytes x, used x))
