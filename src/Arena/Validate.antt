-- ===== src/Arena/Validate.antt =====
-- `arena_validate` accepts the well-formed free lists and no others.
use app_com_util.Base.{
  ℕ, ◌+◌, ◌-◌, ◌≤◌, ◌<◌, ◌≡◌, ◌↔◌, List, [], ◌∷◌, true, false, arith, length, Option, none, some,
  leb, ltb, ◌==◌, if◌then◌else◌, Bool, ◌&&◌, not, ap, sym, ◌∙◌, Option-cases, inl, inr,
}
use app_com_util.Base.Words.{u64_mod, add64-eq}
use native.Mathlib.Nat.{add_assoc}
use app_com_util.Arena.{Block, validate_from, arena_validate, block_end}
use app_com_util.Arena.Blocks.{IsOrdered, IsFreeList, total_free}

-- The lowest offset that the loop accepts next.
abbrev next_low : Bool → ℕ → ℕ
next_low true prev_end = 0
next_low false prev_end = prev_end + 1

-- The end of the block before, of which there is none at first.
abbrev behind_end : Bool → ℕ → ℕ
behind_end true prev_end = 0
behind_end false prev_end = prev_end

behind :
    (first : Bool) (prev_end total : ℕ) (b : Block)
    → total ≤ behind_end first prev_end
    → next_low first prev_end ≤ b.offset
    → total + b.length ≤ b.offset + b.length
behind true prev_end total b k l = omega arith
behind false prev_end total b k l = omega arith

passed :
    (first : Bool) (prev_end size : ℕ) (b : Block) (rest : Option ℕ)
    → next_low first prev_end ≤ b.offset
    → 0 < b.length
    → b.offset + b.length ≤ size
    → (if b.length == 0
        then none
        else if ltb size b.offset
        then none
        else if ltb (size - b.offset) b.length
        then none
        else if not first && leb b.offset prev_end
        then none
        else rest)
      ≡ rest
passed true prev_end size b rest l pos fit = ground arith
passed false prev_end size b rest l pos fit = ground arith

module _ (size : ℕ) (small : size < u64_mod) where
  -- One round accepts a block that fits, and no other.
  accept :
      (first : Bool) (prev_end total : ℕ) (b : Block) (bs : List Block)
      → total ≤ behind_end first prev_end
      → next_low first prev_end ≤ b.offset
      → 0 < b.length
      → b.offset + b.length ≤ size
      → validate_from size first prev_end total (b ∷ bs)
        ≡ validate_from size false (b.offset + b.length) (total + b.length) bs
  unfolding validate_from
  accept first prev_end total b bs k l pos fit =
      let e : block_end b ≡ b.offset + b.length = omega arith in
      let sum = add64-eq total b.length (omega (arith, behind first prev_end total b k l)) in
      rw (e, sum) (passed first prev_end size b _ l pos fit)

  accepted :
      (first : Bool) (prev_end total t : ℕ) (b : Block) (bs : List Block)
      → validate_from size first prev_end total (b ∷ bs) ≡ some t
      → (next_low first prev_end ≤ b.offset) × (0 < b.length) × (b.offset + b.length ≤ size)
  unfolding validate_from
  accepted true prev_end total t b bs e = ground arith
  accepted false prev_end total t b bs e = ground arith

  validate_from_sound :
      (first : Bool) (prev_end total t : ℕ) (bs : List Block)
      → total ≤ behind_end first prev_end
      → validate_from size first prev_end total bs ≡ some t
      → IsOrdered (next_low first prev_end) size bs × (t ≡ total + total_free bs)
  validate_from_sound first prev_end total t [] k e = (tt, unfold validate_from in ground arith)
  validate_from_sound first prev_end total t (b ∷ bs) k e =
      let (low, pos, fit) = accepted first prev_end total t b bs e in
      let rest = accept first prev_end total b bs k low pos fit in
      let (o, sum) =
        validate_from_sound false (b.offset + b.length) (total + b.length) t bs
          (behind first prev_end total b k low) (sym rest ∙ e) in
      ((low, pos, fit, o), omega arith)

  validate_from_complete :
      (first : Bool) (prev_end total : ℕ) (bs : List Block)
      → total ≤ behind_end first prev_end
      → IsOrdered (next_low first prev_end) size bs
      → validate_from size first prev_end total bs ≡ some (total + total_free bs)
  validate_from_complete first prev_end total [] k o = unfold validate_from in ground arith
  validate_from_complete first prev_end total (b ∷ bs) k o =
      let rest = accept first prev_end total b bs k o.0 o.1 o.2 in
      let ih =
        validate_from_complete false (b.offset + b.length) (total + b.length) bs
          (behind first prev_end total b k o.0) o.3 in
      rest ∙ ih ∙ ap some (add_assoc total b.length (total_free bs))

  -- For a storage below the word size, a number of used bytes that it can hold and a capacity whose
  -- successor does not wrap, `arena_validate` returns 0 exactly for a well-formed list of at most
  -- `capacity + 1` blocks whose free bytes and the used ones together are the storage.
  pub arena_validate_iff :
      (bs : List Block) (used capacity : ℕ)
      → used ≤ size
      → capacity + 1 < u64_mod
      → (arena_validate size bs used capacity ≡ true)
        ↔ (IsFreeList size bs × (total_free bs + used ≡ size) × (length bs ≤ capacity + 1))
  unfolding arena_validate
  arena_validate_iff bs used capacity fit cap = (
    λ e. elim (Option-cases (validate_from size true 0 0 bs)) [
      | inl f ↦ absurd (ground arith)
      | inr (t, f) ↦
          let (o, sum) = validate_from_sound true 0 0 t bs (omega arith) f in
          (record { small = small; ordered = o }, ground arith, ground arith)
    ],
    λ h.
        rw (validate_from_complete true 0 0 bs (omega arith) h.0.ordered)
          (let total = h.1 in let count = h.2 in ground arith),
  )
