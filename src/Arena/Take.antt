-- ===== src/Arena/Take.antt =====
-- `arena_take`: free bytes that lie together lie in one block, and leave it.
use app_com_util.Base.{
  ℕ, ◌+◌, ◌-◌, ◌≤◌, ◌<◌, ◌≡◌, ◌⊎◌, inl, inr, List, [], ◌∷◌, ◌&&◌, not, arith, ltb, if◌then◌else◌,
  ◌==◌, Bool-cases, ltb→lt, ltb-false→le,
}
use app_com_util.Base.Words.{u64_mod, add64-eq}
use app_com_util.Arena.{Block, take_from, arena_take}
use app_com_util.Arena.Blocks.{
  IsOrdered, IsOrdered-le, IsFreeList, within, is_free, is_free-below, AllFree, total_free,
}

-- Some block holds all of the bytes.
abbrev pub Fits : ℕ → ℕ → List Block → Type 0
Fits start len [] = ⊥
Fits start len (b ∷ bs) =
    ((b.offset ≤ start) × (start + len ≤ b.offset + b.length)) ⊎ Fits start len bs

all_tail :
    (start len : ℕ) (b : Block) (bs : List Block)
    → b.offset + b.length ≤ start
    → AllFree (b ∷ bs) start len
    → AllFree bs start len
all_tail start len b bs h all x l u = ground (arith, all x)

-- Blocks are as long as they can be, so bytes that are free together lie in one.
pub AllFree-Fits :
    (low size start len : ℕ) (bs : List Block)
    → 0 < len
    → IsOrdered low size bs
    → AllFree bs start len
    → Fits start len bs
AllFree-Fits low size start len [] pos o all = ground (arith, all start)
AllFree-Fits low size start len (b ∷ bs) pos o all =
    elim (Bool-cases (ltb start (b.offset + b.length))) [
      | inr e ↦
          let past = ltb-false→le start (b.offset + b.length) e in
          inr (
            AllFree-Fits (b.offset + b.length + 1) size start len bs pos o.3
              (all_tail start len b bs past all))
      | inl e ↦
          let inside = ltb→lt start (b.offset + b.length) e in
          inl (
            ground (arith, all start, is_free-below (b.offset + b.length + 1) size bs start),
            ground (
              arith,
              all (b.offset + b.length),
              is_free-below (b.offset + b.length + 1) size bs (b.offset + b.length),
            ),
          )
    ]

pub Fits-ge :
    (low size start len : ℕ) (bs : List Block)
    → IsOrdered low size bs
    → Fits start len bs
    → low ≤ start
Fits-ge low size start len [] o f = elim f [ ]
Fits-ge low size start len (b ∷ bs) o f =
    ground (arith, Fits-ge (b.offset + b.length + 1) size start len bs)

pub Fits-le :
    (low size start len : ℕ) (bs : List Block)
    → IsOrdered low size bs
    → Fits start len bs
    → start + len ≤ size
Fits-le low size start len [] o f = elim f [ ]
Fits-le low size start len (b ∷ bs) o f =
    ground (arith, Fits-le (b.offset + b.length + 1) size start len bs)

Fits-small :
    (size start len : ℕ) (bs : List Block)
    → IsFreeList size bs
    → Fits start len bs
    → start + len < u64_mod
Fits-small size start len bs v f = omega (arith, v.small, Fits-le 0 size start len bs v.ordered f)

-- A block without the bytes, in front of the rest of the list, by plain arithmetic.
abbrev pub cut : ℕ → ℕ → Block → List Block → List Block
cut start len b bs =
    let front : Block = record { offset = b.offset; length = start - b.offset } in
    let back : Block = record {
      offset = start + len;
      length = b.offset + b.length - (start + len);
    } in
    if b.offset == start
    then if start + len == b.offset + b.length then bs else back ∷ bs
    else if start + len == b.offset + b.length
    then front ∷ bs
    else front ∷ back ∷ bs

cut-IsOrdered :
    (low size start len : ℕ) (b : Block) (bs : List Block)
    → 0 < len
    → IsOrdered low size (b ∷ bs)
    → b.offset ≤ start
    → start + len ≤ b.offset + b.length
    → IsOrdered low size (cut start len b bs)
cut-IsOrdered low size start len b bs pos o l u =
    let lower = λ (k : ℕ) (h : k ≤ b.offset + b.length + 1).
      IsOrdered-le (b.offset + b.length + 1) k size bs h o.3 in
    elim (Bool-cases (b.offset == start)) [
      | inl e ↦ elim (Bool-cases (start + len == b.offset + b.length)) [
        | inl e' ↦ rw (e, e') (lower low (omega arith))
        | inr e' ↦ rw (e, e') (omega arith, ground arith, omega arith, lower _ (omega arith))
      ]
      | inr e ↦ elim (Bool-cases (start + len == b.offset + b.length)) [
        | inl e' ↦ rw (e, e') (o.0, ground arith, omega arith, lower _ (omega arith))
        | inr e' ↦
            rw (e, e')
              (
                o.0,
                ground arith,
                omega arith,
                (omega arith, ground arith, omega arith, lower _ (omega arith)),
              )
      ]
    ]

is_free-cut :
    (low size start len : ℕ) (b : Block) (bs : List Block) (x : ℕ)
    → 0 < len
    → IsOrdered low size (b ∷ bs)
    → b.offset ≤ start
    → start + len ≤ b.offset + b.length
    → is_free (cut start len b bs) x ≡ is_free (b ∷ bs) x && not (within start len x)
is_free-cut low size start len b bs x pos o l u =
    ground (arith, is_free-below (b.offset + b.length + 1) size bs x)

total_free-cut :
    (start len : ℕ) (b : Block) (bs : List Block)
    → b.offset ≤ start
    → start + len ≤ b.offset + b.length
    → len + total_free (cut start len b bs) ≡ total_free (b ∷ bs)
total_free-cut start len b bs l u = ground arith

-- The first block holds the bytes, so they are taken from it.
take_from-here :
    (size start len : ℕ) (b : Block) (bs : List Block)
    → size < u64_mod
    → b.offset + b.length ≤ size
    → b.offset ≤ start
    → start + len ≤ b.offset + b.length
    → take_from start (start + len) (b ∷ bs) ≡ cut start len b bs
unfolding take_from
take_from-here size start len b bs small fit l u = ground arith

-- They lie behind it.
take_from-past :
    (start len : ℕ) (b : Block) (bs : List Block)
    → b.offset + b.length < u64_mod
    → 0 < len
    → b.offset + b.length < start
    → take_from start (start + len) (b ∷ bs) ≡ b ∷ take_from start (start + len) bs
unfolding take_from
take_from-past start len b bs small pos h = ground arith

pub take_from-IsOrdered :
    (low size start len : ℕ) (bs : List Block)
    → 0 < len
    → size < u64_mod
    → IsOrdered low size bs
    → Fits start len bs
    → IsOrdered low size (take_from start (start + len) bs)
take_from-IsOrdered low size start len [] pos small o f = elim f [ ]
take_from-IsOrdered low size start len (b ∷ bs) pos small o (inl f) =
    rw (take_from-here size start len b bs small o.2 f.0 f.1)
      (cut-IsOrdered low size start len b bs pos o f.0 f.1)
take_from-IsOrdered low size start len (b ∷ bs) pos small o (inr f) =
    let past = Fits-ge (b.offset + b.length + 1) size start len bs o.3 f in
    rw (take_from-past start len b bs (omega arith) pos (omega arith)) (
      o.0,
      o.1,
      o.2,
      take_from-IsOrdered (b.offset + b.length + 1) size start len bs pos small o.3 f,
    )

pub is_free-take_from :
    (low size start len : ℕ) (bs : List Block) (x : ℕ)
    → 0 < len
    → size < u64_mod
    → IsOrdered low size bs
    → Fits start len bs
    → is_free (take_from start (start + len) bs) x ≡ is_free bs x && not (within start len x)
is_free-take_from low size start len [] x pos small o f = elim f [ ]
is_free-take_from low size start len (b ∷ bs) x pos small o (inl f) =
    rw (take_from-here size start len b bs small o.2 f.0 f.1)
      (is_free-cut low size start len b bs x pos o f.0 f.1)
is_free-take_from low size start len (b ∷ bs) x pos small o (inr f) =
    let past = Fits-ge (b.offset + b.length + 1) size start len bs o.3 f in
    rw (take_from-past start len b bs (omega arith) pos (omega arith)) (
      ground
        (arith, is_free-take_from (b.offset + b.length + 1) size start len bs x pos small o.3 f))

pub total_free-take_from :
    (low size start len : ℕ) (bs : List Block)
    → 0 < len
    → size < u64_mod
    → IsOrdered low size bs
    → Fits start len bs
    → len + total_free (take_from start (start + len) bs) ≡ total_free bs
total_free-take_from low size start len [] pos small o f = elim f [ ]
total_free-take_from low size start len (b ∷ bs) pos small o (inl f) =
    rw (take_from-here size start len b bs small o.2 f.0 f.1)
      (total_free-cut start len b bs f.0 f.1)
total_free-take_from low size start len (b ∷ bs) pos small o (inr f) =
    let past = Fits-ge (b.offset + b.length + 1) size start len bs o.3 f in
    rw (take_from-past start len b bs (omega arith) pos (omega arith)) (
      omega
        (arith, total_free-take_from (b.offset + b.length + 1) size start len bs pos small o.3 f))

-- What `arena_take` leaves: a well-formed list without the bytes taken.
pub record Takes (size offset len : ℕ) (bs bs' : List Block) : Type 0 where
  pub valid : IsFreeList size bs'
  pub bytes : (x : ℕ) → is_free bs' x ≡ is_free bs x && not (within offset len x)
  pub total : len + total_free bs' ≡ total_free bs

-- Taking a range of free bytes that is not empty keeps a well-formed list well formed, makes these
-- bytes used and no other, and lowers the number of free bytes by theirs.
pub arena_take-Takes :
    (size offset len : ℕ) (bs : List Block)
    → IsFreeList size bs
    → 0 < len
    → AllFree bs offset len
    → Takes size offset len bs (arena_take bs offset len)
unfolding arena_take
arena_take-Takes size offset len bs v pos all =
    let f = AllFree-Fits 0 size offset len bs pos v.ordered all in
    let e = add64-eq offset len (Fits-small size offset len bs v f) in
    rw e record {
      valid = record {
        small = v.small;
        ordered = take_from-IsOrdered 0 size offset len bs pos v.small v.ordered f;
      };
      bytes = λ x. is_free-take_from 0 size offset len bs x pos v.small v.ordered f;
      total = total_free-take_from 0 size offset len bs pos v.small v.ordered f;
    }
