-- ===== src/Arena/Fit.antt =====
-- `arena_find_fit`: the first block that is long enough, once the record's own block is given back.
use app_com_util.Base.{
  ℕ, zero, suc, ◌+◌, ◌≤◌, ◌<◌, ◌≡◌, ◌≢◌, inl, inr, refl, List, [], ◌∷◌, ◌&&◌, true, false, arith,
  ltb, leb, if◌then◌else◌, ◌==◌, Bool-cases, ltb→lt, ltb-false→le, ==_iff, Option, none, some, min,
  ◌∙◌, sym,
}
use app_com_util.Base.Words.{u64_mod, add64, add64-eq}
use app_com_util.Arena.{Block, free_block_adjoins, merge_own, scan_fit, arena_find_fit, arena_give}
use app_com_util.Arena.Blocks.{IsOrdered, IsOrdered-le, IsFreeList, AllFree, NoneFree}
use app_com_util.Arena.Insert.{Apart, fuse, insert_block, NoneFree-Apart, IsOrdered-Apart}
use native.Mathlib.Nat.{add_comm}
use app_com_util.Arena.Give.{arena_give-eq-insert_block, arena_give-Gives}
use app_com_util.Arena.Take.{Fits, AllFree-Fits, Fits-ge}

-- The reference: the offset of the first block of at least `needed` bytes.
unfoldable pub first_fit : ℕ → List Block → Option ℕ
first_fit needed [] = none
first_fit needed (b ∷ bs) = if leb needed b.length then some b.offset else first_fit needed bs

scan_fit-plain :
    (own_offset needed mo ml : ℕ) (bs : List Block)
    → scan_fit own_offset 0 needed mo ml false bs ≡ first_fit needed bs
unfolding scan_fit first_fit free_block_adjoins
scan_fit-plain own_offset needed mo ml [] = refl
scan_fit-plain own_offset needed mo ml (b ∷ bs) =
    ground (arith, scan_fit-plain own_offset needed mo ml bs)

-- The own block, from `own` on with `len` bytes, in a storage below the word size.
module _ (size own len : ℕ) (small : size < u64_mod) (pos : 0 < len) where
  adjoins-past :
      (b : Block)
      → own + len < b.offset
      → b.offset + b.length ≤ size
      → free_block_adjoins b own len ≡ false
  unfolding free_block_adjoins
  adjoins-past b h fit = ground arith

  adjoins-before :
      (b : Block)
      → b.offset + b.length < own
      → own + len ≤ size
      → free_block_adjoins b own len ≡ false
  unfolding free_block_adjoins
  adjoins-before b h fit = ground arith

  adjoins-front :
      (b : Block)
      → b.offset + b.length ≡ own
      → own + len ≤ size
      → free_block_adjoins b own len ≡ true
  unfolding free_block_adjoins
  adjoins-front b h fit = ground arith

  adjoins-back :
      (b : Block)
      → own + len ≡ b.offset
      → b.offset + b.length ≤ size
      → free_block_adjoins b own len ≡ true
  unfolding free_block_adjoins
  adjoins-back b h fit = ground arith

  -- Blocks past the own block and its neighbour are neither joined nor passed over.
  scan_fit-past :
      (low needed mo ml : ℕ) (bs : List Block)
      → own + len < low
      → IsOrdered low size bs
      → scan_fit own len needed mo ml false bs ≡ first_fit needed bs
  unfolding scan_fit first_fit
  scan_fit-past low needed mo ml [] h o = refl
  scan_fit-past low needed mo ml (b ∷ bs) h o = ground (
    arith,
    adjoins-past b,
    scan_fit-past (b.offset + b.length + 1) needed mo ml bs (omega arith) o.3,
  )

  merge_own-skip :
      (mo ml : ℕ) (b : Block) (bs : List Block)
      → free_block_adjoins b own len ≡ false
      → merge_own own len mo ml (b ∷ bs) ≡ merge_own own len mo ml bs
  unfolding merge_own
  merge_own-skip mo ml b bs e = rw e

  merge_own-join :
      (mo ml : ℕ) (b : Block) (bs : List Block)
      → free_block_adjoins b own len ≡ true
      → ml + b.length ≤ size
      → merge_own own len mo ml (b ∷ bs) ≡ merge_own own len (min mo b.offset) (ml + b.length) bs
  unfolding merge_own
  merge_own-join mo ml b bs e h =
      let lower : (if ltb b.offset mo then b.offset else mo) ≡ min mo b.offset = ground arith in
      rw (e, lower, add64-eq ml b.length (omega arith))

  merge_own-past :
      (low mo ml : ℕ) (bs : List Block)
      → own + len < low
      → IsOrdered low size bs
      → merge_own own len mo ml bs ≡ (mo, ml)
  merge_own-past low mo ml [] h o = unfold merge_own in refl
  merge_own-past low mo ml (b ∷ bs) h o =
      merge_own-skip mo ml b bs (adjoins-past b (omega arith) o.2)
      ∙ merge_own-past (b.offset + b.length + 1) mo ml bs (omega arith) o.3

  -- The joined block never starts below the blocks that are left.
  merge_own-ge :
      (bs : List Block) (low mo ml : ℕ)
      → low ≤ mo
      → IsOrdered low size bs
      → low ≤ (merge_own own len mo ml bs).0
  unfolding merge_own
  merge_own-ge [] low mo ml h o = h
  merge_own-ge (b ∷ bs) low mo ml h o =
      merge_own-ge bs low (if free_block_adjoins b own len && ltb b.offset mo then b.offset else mo)
        (if free_block_adjoins b own len then add64 ml b.length else ml) (ground arith)
        (IsOrdered-le (b.offset + b.length + 1) low size bs (omega arith) o.3)

  -- One round of the second loop while the joined block is pending.
  scan_fit-apart :
      (needed mo ml : ℕ) (b : Block) (bs : List Block)
      → b.offset ≤ mo
      → free_block_adjoins b own len ≡ false
      → scan_fit own len needed mo ml true (b ∷ bs)
        ≡ (if leb needed b.length then some b.offset else scan_fit own len needed mo ml true bs)
  unfolding scan_fit
  scan_fit-apart needed mo ml b bs h e = ground arith

  scan_fit-joined :
      (needed mo ml : ℕ) (b : Block) (bs : List Block)
      → b.offset ≤ mo
      → free_block_adjoins b own len ≡ true
      → scan_fit own len needed mo ml true (b ∷ bs) ≡ scan_fit own len needed mo ml true bs
  unfolding scan_fit
  scan_fit-joined needed mo ml b bs h e = ground arith

  scan_fit-reach :
      (needed mo ml : ℕ) (b : Block) (bs : List Block)
      → mo < b.offset
      → scan_fit own len needed mo ml true (b ∷ bs) ≡ (
          if leb needed ml
          then some mo
          else if free_block_adjoins b own len
          then scan_fit own len needed mo ml false bs
          else if leb needed b.length
          then some b.offset
          else scan_fit own len needed mo ml false bs)
  unfolding scan_fit
  scan_fit-reach needed mo ml b bs h = ground arith

  -- The list behind the own block, with the part of the joined block that is known there.
  scan_fit-behind :
      (needed mo ml : ℕ) (bs : List Block)
      → mo ≤ own
      → mo + ml ≡ own + len
      → own + len ≤ size
      → IsOrdered (own + len) size bs
      → let m = merge_own own len mo ml bs in
        scan_fit own len needed m.0 m.1 true bs
        ≡ first_fit needed (fuse (record { offset = mo; length = ml }) bs)
  scan_fit-behind needed mo ml [] l e fit o = unfold scan_fit first_fit merge_own in ground arith
  scan_fit-behind needed mo ml (n ∷ bs) l e fit o = elim (Bool-cases (own + len == n.offset)) [
    | inl near ↦
        let next = (==_iff (own + len) n.offset).0 near in
        let joins = adjoins-back n next o.2 in
        let low : min mo n.offset ≡ mo = omega arith in
        rw
          (
            merge_own-join mo ml n bs joins (omega arith),
            low,
            merge_own-past (n.offset + n.length + 1) mo (ml + n.length) bs (omega arith) o.3,
            scan_fit-reach needed mo (ml + n.length) n bs (omega arith),
            joins,
            scan_fit-past (n.offset + n.length + 1) needed mo (ml + n.length) bs (omega arith) o.3,
            e,
            near,
          )
          (unfold first_fit in refl)
    | inr far ↦
        let gap : own + len < n.offset = ground arith in
        let alone = adjoins-past n gap o.2 in
        rw
          (
            merge_own-skip mo ml n bs alone,
            merge_own-past (n.offset + n.length + 1) mo ml bs (omega arith) o.3,
            scan_fit-reach needed mo ml n bs (omega arith),
            alone,
            scan_fit-past (n.offset + n.length + 1) needed mo ml bs (omega arith) o.3,
            e,
            far,
          )
          (unfold first_fit in refl)
  ]

  -- With the own block given back, the two loops find the first block that fits.
  pub scan_fit-eq-first_fit :
      (low needed : ℕ) (bs : List Block)
      → low ≤ own
      → own + len ≤ size
      → IsOrdered low size bs
      → Apart own len bs
      → let m = merge_own own len own len bs in
        scan_fit own len needed m.0 m.1 true bs ≡ first_fit needed (insert_block own len bs)
  scan_fit-eq-first_fit low needed [] l fit o a =
      unfold scan_fit first_fit merge_own in ground arith
  scan_fit-eq-first_fit low needed (b ∷ bs) l fit o a =
      elim (Bool-cases (ltb (b.offset + b.length) own)) [
        | inl far ↦
            let gap = ltb→lt (b.offset + b.length) own far in
            let alone = adjoins-before b gap fit in
            rw
              (
                far,
                merge_own-skip own len b bs alone,
                scan_fit-apart needed (merge_own own len own len bs).0
                    (merge_own own len own len bs).1 b bs
                    (omega
                      (arith, merge_own-ge bs (b.offset + b.length + 1) own len (omega arith) o.3))
                    alone,
                scan_fit-eq-first_fit (b.offset + b.length + 1) needed bs (omega arith) fit o.3 a.1,
              )
              (unfold first_fit in refl)
        | inr near ↦ elim (Bool-cases (b.offset + b.length == own)) [
          | inl touch ↦
              let e = (==_iff (b.offset + b.length) own).0 touch in
              let joins = adjoins-front b e fit in
              let l' : b.offset ≤ own = omega arith in
              let low' : min own b.offset ≡ b.offset = omega arith in
              let m = merge_own own len b.offset (len + b.length) bs in
              rw
                (
                  near,
                  touch,
                  merge_own-join own len b bs joins (omega arith),
                  low',
                  scan_fit-joined needed m.0 m.1 b bs
                      (merge_own-ge bs b.offset b.offset (len + b.length) (omega arith)
                        (IsOrdered-le (b.offset + b.length + 1) b.offset size bs (omega arith) o.3))
                      joins,
                  add_comm b.length len,
                )
                (scan_fit-behind needed b.offset (len + b.length) bs l' (omega arith) fit (
                  IsOrdered-Apart size own len (b.offset + b.length + 1) (own + len) bs
                    (omega arith) (omega arith) o.3 a.1))
          | inr apart ↦
              let e : b.offset + b.length ≢ own = ground arith in
              let above = ltb-false→le (b.offset + b.length) own near in
              rw (near, apart)
                (scan_fit-behind needed own len (b ∷ bs) (omega arith) refl fit
                  (omega arith, o.1, o.2, o.3))
        ]
      ]

-- On a well-formed list, with an own block inside the storage of which no byte is free,
-- `arena_find_fit` answers the first block that is long enough in the list that `arena_give` makes of
-- it, without changing the list.
pub arena_find_fit-eq-first_fit :
    (size own len needed : ℕ) (bs : List Block)
    → IsFreeList size bs
    → own + len ≤ size
    → NoneFree bs own len
    → arena_find_fit bs own len needed ≡ first_fit needed (arena_give bs own len)
unfolding arena_find_fit
arena_find_fit-eq-first_fit size own zero needed bs v fit used =
    unfold arena_give in scan_fit-plain own needed own 0 bs
arena_find_fit-eq-first_fit size own (suc n) needed bs v fit used =
    let a = NoneFree-Apart 0 size own (suc n) bs (omega arith) v.ordered used in
    let filled : (suc n == 0) ≡ false = ground arith in
    rw (arena_give-eq-insert_block size own (suc n) bs v (omega arith) fit used, filled)
      (scan_fit-eq-first_fit size own (suc n) v.small (omega arith) 0 needed bs (omega arith) fit
        v.ordered a)

first_fit_sound :
    (low size needed off : ℕ) (bs : List Block)
    → IsOrdered low size bs
    → first_fit needed bs ≡ some off
    → Fits off needed bs
unfolding first_fit
first_fit_sound low size needed off [] o e = cc
first_fit_sound low size needed off (b ∷ bs) o e =
    ground (arith, first_fit_sound (b.offset + b.length + 1) size needed off bs)

first_fit-least :
    (low size needed off other : ℕ) (bs : List Block)
    → IsOrdered low size bs
    → first_fit needed bs ≡ some off
    → Fits other needed bs
    → off ≤ other
unfolding first_fit
first_fit-least low size needed off other [] o e f = cc
first_fit-least low size needed off other (b ∷ bs) o e f = ground (
  arith,
  first_fit-least (b.offset + b.length + 1) size needed off other bs,
  Fits-ge (b.offset + b.length + 1) size other needed bs,
)

first_fit_complete :
    (needed other : ℕ) (bs : List Block) → first_fit needed bs ≡ none → ¬ Fits other needed bs
unfolding first_fit
first_fit_complete needed other [] e f = f
first_fit_complete needed other (b ∷ bs) e f = ground (arith, first_fit_complete needed other bs)

Fits-AllFree : (start len : ℕ) (bs : List Block) → Fits start len bs → AllFree bs start len
Fits-AllFree start len [] f x l u = absurd f
Fits-AllFree start len (b ∷ bs) (inl f) x l u = ground arith
Fits-AllFree start len (b ∷ bs) (inr f) x l u = ground (arith, Fits-AllFree start len bs f x l u)

-- What a search for `needed` bytes answers, against the list `bs` with the own block given back.
abbrev pub Found : ℕ → List Block → Option ℕ → Type 0
Found needed bs (some off) =
    AllFree bs off needed × ((other : ℕ) → AllFree bs other needed → off ≤ other)
Found needed bs none = (other : ℕ) → ¬ AllFree bs other needed

first_fit-Found :
    (size needed : ℕ) (bs : List Block)
    → 0 < needed
    → IsFreeList size bs
    → (r : Option ℕ) → first_fit needed bs ≡ r
    → Found needed bs r
first_fit-Found size needed bs pos v none e = λ other all.
    first_fit_complete needed other bs e (AllFree-Fits 0 size other needed bs pos v.ordered all)
first_fit-Found size needed bs pos v (some off) e =
    let f = first_fit_sound 0 size needed off bs v.ordered e in
    (
      Fits-AllFree off needed bs f,
      λ other all.
          first_fit-least 0 size needed off other bs v.ordered e
            (AllFree-Fits 0 size other needed bs pos v.ordered all),
    )

-- On a well-formed list, with an own block inside the storage of which no byte is free (or none, of
-- length 0), a search for at least one byte succeeds exactly if that many bytes are free together once
-- the own block is given back, and answers the lowest such place.
pub arena_find_fit-Found :
    (size own len needed : ℕ) (bs : List Block)
    → IsFreeList size bs
    → 0 < needed
    → own + len ≤ size
    → NoneFree bs own len
    → Found needed (arena_give bs own len) (arena_find_fit bs own len needed)
arena_find_fit-Found size own len needed bs v pos fit used =
    first_fit-Found size needed (arena_give bs own len) pos
      ((arena_give-Gives size own len bs v fit used).valid) (arena_find_fit bs own len needed)
      (sym (arena_find_fit-eq-first_fit size own len needed bs v fit used))
