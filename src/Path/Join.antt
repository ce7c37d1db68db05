-- ===== src/Path/Join.antt =====
-- The two passes of the join agree: the first one measures what the second one writes.
use app_com_util.Base.{
  ℕ, ◌+◌, Bool, not, ◌&&◌, Option, some, List, ltb, ◌==◌, length, map, if◌then◌else◌,
}
use app_com_util.Path.{ends_with_sep, starts_with_sep, Measured, required, no_room}

abbrev filled : List ℕ → Bool
filled out = not (length out == 0)

abbrev skipped : List ℕ → List ℕ → ℕ
skipped out part = if filled out && ends_with_sep out && starts_with_sep part then 1 else 0

abbrev has_gap : List ℕ → List ℕ → Bool
has_gap out part = filled out && not (ends_with_sep out) && not (starts_with_sep part)

abbrev gap_size : List ℕ → List ℕ → ℕ
gap_size out part = if has_gap out part then 1 else 0

abbrev all_given : List (List ℕ) → List (Option (List ℕ))
all_given = map some

-- What the first pass says of the text that the second one will have written.
abbrev verdict : ℕ → ℕ → Measured
verdict path_size n = if ltb n path_size then required (n + 1) else no_room
