-- ===== src/Tests/Path.antt =====
-- Paths with one name, with several, and with separators side by side.
use app_com_util.Base.{ℕ, ◌≡◌, refl, some, List, [], ◌∷◌}
use app_com_util.Path.{text, too_long, basename, dirname, strip_extension, join}
use app_com_util.Path.Names.{IsSplit, basename-IsSplit}

-- "/a/b.c"
abbrev file : List ℕ
file = 47 ∷ 97 ∷ 47 ∷ 98 ∷ 46 ∷ 99 ∷ []

parent_of_file : dirname 16 file ≡ text (47 ∷ 97 ∷ [])
unfolding dirname
parent_of_file = refl

-- "///a": not the root alone
parent_of_separators : dirname 16 (47 ∷ 47 ∷ 47 ∷ 97 ∷ []) ≡ text (47 ∷ 47 ∷ [])
unfolding dirname
parent_of_separators = refl

without_extension : strip_extension 16 file ≡ text (47 ∷ 97 ∷ 47 ∷ 98 ∷ [])
unfolding strip_extension
without_extension = refl

basename-IsSplit_example : (front : List ℕ) × IsSplit file front (basename file)
basename-IsSplit_example = basename-IsSplit file

-- "a", "" and "/b" in a buffer of 4 and of 3 bytes
joined : join 4 (some (97 ∷ []) ∷ some [] ∷ some (47 ∷ 98 ∷ []) ∷ []) ≡ text (97 ∷ 47 ∷ 98 ∷ [])
unfolding join
joined = refl

refused : join 3 (some (97 ∷ []) ∷ some (98 ∷ []) ∷ []) ≡ too_long
unfolding join
refused = refl
