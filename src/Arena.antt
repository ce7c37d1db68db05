-- ===== src/Arena.antt =====
-- The free list of a string storage: `arena_*` of prod/libsrc/com_util/hashtable/hashtable.c.
-- The first `*free_count` elements of the array `free_list` are a list, so that `memmove` of the
-- elements behind a position drops or inserts one element there. The bytes of the storage are in
-- module Field.
pub mod Blocks
pub mod Insert
pub mod Give
pub mod Take
pub mod Fit
pub mod Round
pub mod Validate
use app_com_util.Base.{
  ℕ, zero, suc, ◌+◌, ◌-◌, ◌<◌, ◌≤◌, Bool, true, false, not, ◌&&◌, ◌||◌, Option, none, some, List,
  [], ◌∷◌, ltb, leb, ◌==◌, if◌then◌else◌, length,
}
use app_com_util.Base.Words.{add64, sub64}

-- `struct hashtable_free_block`
pub record Block : Type 0 where
  pub offset : ℕ
  pub length : ℕ

-- `free_list[i].offset + free_list[i].length`
abbrev pub block_end : Block → ℕ
block_end b = add64 b.offset b.length

-- `arena_reset`: one block that is the whole storage.
unfoldable pub arena_reset : ℕ → List Block
arena_reset storage_size = record { offset = 0; length = storage_size } ∷ []

-- `arena_free_block_adjoins`
unfoldable pub free_block_adjoins : Block → ℕ → ℕ → Bool
free_block_adjoins b own_offset own_length =
    if own_length == 0
    then false
    else (block_end b == own_offset) || (b.offset == add64 own_offset own_length)

-- The first loop of `arena_find_fit`: the record's own block joined with its free neighbours.
unfoldable pub merge_own : ℕ → ℕ → ℕ → ℕ → List Block → ℕ × ℕ
merge_own own_offset own_length merged_offset merged_length [] = (merged_offset, merged_length)
merge_own own_offset own_length merged_offset merged_length (b ∷ bs) =
    let joins = free_block_adjoins b own_offset own_length in
    merge_own own_offset own_length
      (if joins && ltb b.offset merged_offset then b.offset else merged_offset)
      (if joins then add64 merged_length b.length else merged_length) bs

-- The second loop of `arena_find_fit`, with the test behind it.
unfoldable pub scan_fit : ℕ → ℕ → ℕ → ℕ → ℕ → Bool → List Block → Option ℕ
scan_fit own_offset own_length needed merged_offset merged_length merged_pending [] =
    if merged_pending && leb needed merged_length then some merged_offset else none
scan_fit own_offset own_length needed merged_offset merged_length merged_pending (b ∷ bs) =
    let reached = merged_pending && ltb merged_offset b.offset in
    let rest =
      scan_fit own_offset own_length needed merged_offset merged_length
        (merged_pending && not reached) bs in
    if reached && leb needed merged_length
    then some merged_offset
    else if free_block_adjoins b own_offset own_length
    then rest
    else if leb needed b.length
    then some b.offset
    else rest

-- `arena_find_fit`: `some` is the result 1 with `*offset_out`, `none` the result 0.
unfoldable pub arena_find_fit : List Block → ℕ → ℕ → ℕ → Option ℕ
arena_find_fit bs own_offset own_length needed =
    let (merged_offset, merged_length) =
      if own_length == 0
      then (own_offset, own_length)
      else merge_own own_offset own_length own_offset own_length bs in
    scan_fit own_offset own_length needed merged_offset merged_length (not (own_length == 0)) bs

-- The loop of `arena_take`. Its subtractions do not wrap, by the tests above them.
unfoldable pub take_from : ℕ → ℕ → List Block → List Block
take_from start end [] = []
take_from start end (b ∷ bs) =
    let rest = b ∷ take_from start end bs in
    let front : Block = record { offset = b.offset; length = start - b.offset } in
    let back : Block = record { offset = end; length = block_end b - end } in
    if ltb start b.offset || ltb (block_end b) end
    then rest
    else if (b.offset == start) && (end == block_end b)
    then bs
    else if b.offset == start
    then back ∷ bs
    else if end == block_end b
    then front ∷ bs
    else front ∷ back ∷ bs

-- `arena_take`
unfoldable pub arena_take : List Block → ℕ → ℕ → List Block
arena_take bs offset length = take_from offset (add64 offset length) bs

-- The four branches of `arena_give` behind its loop: `prev` is `free_list[i - 1]`, if `i > 0`, and
-- the list is `free_list[i..count)`.
unfoldable pub give_at : ℕ → ℕ → ℕ → Option Block → List Block → List Block
give_at start end length none [] = record { offset = start; length = length } ∷ []
give_at start end length none (n ∷ bs) =
    if n.offset == end
    then record { offset = start; length = add64 n.length length } ∷ bs
    else record { offset = start; length = length } ∷ n ∷ bs
give_at start end length (some p) [] =
    if block_end p == start
    then record p { length = add64 p.length length } ∷ []
    else p ∷ record { offset = start; length = length } ∷ []
give_at start end length (some p) (n ∷ bs) =
    if block_end p == start
    then if n.offset == end
      then record p { length = add64 p.length (add64 length n.length) } ∷ bs
      else record p { length = add64 p.length length } ∷ n ∷ bs
    else if n.offset == end
    then p ∷ record { offset = start; length = add64 n.length length } ∷ bs
    else p ∷ record { offset = start; length = length } ∷ n ∷ bs

-- `free_list[i - 1]` stays in front of what the loop goes on to.
abbrev pub behind : Option Block → List Block → List Block
behind none bs = bs
behind (some p) bs = p ∷ bs

-- The loop of `arena_give`, which steps over the blocks below `start`.
unfoldable pub give_from : ℕ → ℕ → ℕ → Option Block → List Block → List Block
unfolding give_at
give_from start end length prev [] = give_at start end length prev []
give_from start end length prev (b ∷ bs) =
    let further = behind prev (give_from start end length (some b) bs) in
    if ltb b.offset start then further else give_at start end length prev (b ∷ bs)

-- `arena_give`
unfoldable pub arena_give : List Block → ℕ → ℕ → List Block
arena_give bs offset length =
    if length == 0 then bs else give_from offset (add64 offset length) length none bs

-- The loop of `arena_validate` from index `i` on; `first` says that `i` is 0.
unfoldable pub validate_from : ℕ → Bool → ℕ → ℕ → List Block → Option ℕ
validate_from storage_size first prev_end total [] = some total
validate_from storage_size first prev_end total (b ∷ bs) =
    let rest = validate_from storage_size false (block_end b) (add64 total b.length) bs in
    if b.length == 0
    then none
    else if ltb storage_size b.offset
    then none
    else if ltb (storage_size - b.offset) b.length
    then none
    else if not first && leb b.offset prev_end
    then none
    else rest

-- `arena_validate`: `true` is the result 0.
unfoldable pub arena_validate : ℕ → List Block → ℕ → ℕ → Bool
unfolding validate_from
arena_validate storage_size bs used capacity =
    if ltb (add64 capacity 1) (length bs)
    then false
    else elim (validate_from storage_size true 0 0 bs) [
      | none ↦ false
      | some total ↦ total == sub64 storage_size used
    ]
