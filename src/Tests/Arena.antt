-- ===== src/Tests/Arena.antt =====
-- The free lists at work.
use app_com_util.Base.{ℕ, ◌+◌, ◌≤◌, ◌≡◌, refl, none, some, List, [], ◌∷◌, true, ◌↔◌, length, arith}
use app_com_util.Arena.{
  Block, arena_find_fit, arena_take, arena_give, arena_validate, give_from, take_from, scan_fit,
  merge_own, free_block_adjoins,
}
use app_com_util.Arena.Blocks.{IsFreeList, AllFree, NoneFree, total_free}
use app_com_util.Arena.Give.{Gives, arena_give-Gives}
use app_com_util.Arena.Take.{Takes, arena_take-Takes}
use app_com_util.Arena.Fit.{Found, first_fit, arena_find_fit-Found, arena_find_fit-eq-first_fit}
use app_com_util.Arena.Round.{arena_give-arena_take, arena_take-arena_give}
use app_com_util.Arena.Validate.{arena_validate_iff}

abbrev block : ℕ → ℕ → Block
block offset length = record { offset = offset; length = length }

-- The bytes 4 to 7 and 12 to 19 of 32 are free.
abbrev two_blocks : List Block
two_blocks = block 4 4 ∷ block 12 8 ∷ []

two_blocks-IsFreeList : IsFreeList 32 two_blocks
two_blocks-IsFreeList = record {
  small = omega arith;
  ordered = (omega arith, omega arith, omega arith, (omega arith, omega arith, omega arith, tt));
}

-- The bytes 8 to 11 are used, and freeing them joins all three blocks.
gap_used : NoneFree two_blocks 8 4
gap_used x l u = ground arith

front_free : AllFree two_blocks 12 5
front_free x l u = ground arith

joined : arena_give two_blocks 8 4 ≡ block 4 16 ∷ []
unfolding arena_give give_from
joined = refl

joined_by_search : arena_find_fit two_blocks 8 4 10 ≡ some 4
unfolding arena_find_fit scan_fit merge_own free_block_adjoins
joined_by_search = refl

too_long : arena_find_fit two_blocks 8 4 17 ≡ none
unfolding arena_find_fit scan_fit merge_own free_block_adjoins
too_long = refl

split : arena_take two_blocks 14 2 ≡ block 4 4 ∷ block 12 2 ∷ block 16 4 ∷ []
unfolding arena_take take_from
split = refl

arena_find_fit-Found_example :
    Found 10 (arena_give two_blocks 8 4) (arena_find_fit two_blocks 8 4 10)
arena_find_fit-Found_example =
    arena_find_fit-Found 32 8 4 10 two_blocks two_blocks-IsFreeList (omega arith) (omega arith)
      gap_used

arena_give-Gives_example : Gives 32 8 4 two_blocks (arena_give two_blocks 8 4)
arena_give-Gives_example =
    arena_give-Gives 32 8 4 two_blocks two_blocks-IsFreeList (omega arith) gap_used

arena_take-Takes_example : Takes 32 12 5 two_blocks (arena_take two_blocks 12 5)
arena_take-Takes_example =
    arena_take-Takes 32 12 5 two_blocks two_blocks-IsFreeList (omega arith) front_free

arena_find_fit-eq-first_fit_example :
    arena_find_fit two_blocks 8 4 10 ≡ first_fit 10 (arena_give two_blocks 8 4)
arena_find_fit-eq-first_fit_example =
    arena_find_fit-eq-first_fit 32 8 4 10 two_blocks two_blocks-IsFreeList (omega arith) gap_used

arena_give-arena_take_example : arena_give (arena_take two_blocks 12 5) 12 5 ≡ two_blocks
arena_give-arena_take_example =
    arena_give-arena_take 32 12 5 two_blocks two_blocks-IsFreeList (omega arith) (omega arith)
      front_free

arena_take-arena_give_example : arena_take (arena_give two_blocks 8 4) 8 4 ≡ two_blocks
arena_take-arena_give_example =
    arena_take-arena_give 32 8 4 two_blocks two_blocks-IsFreeList (omega arith) (omega arith)
      gap_used

arena_validate_iff_example :
    (arena_validate 32 two_blocks 20 10 ≡ true)
    ↔ (IsFreeList 32 two_blocks × (total_free two_blocks + 20 ≡ 32) × (length two_blocks ≤ 11))
arena_validate_iff_example =
    arena_validate_iff 32 (omega arith) two_blocks 20 10 (omega arith) (omega arith)
