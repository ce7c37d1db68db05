-- ===== src/Path.antt =====
-- prod/libsrc/com_util/crt/path_name.c: the parts of a path. A string is its bytes without the NUL, and a
-- pointer into it the bytes from there on.
pub mod Names
pub mod Join
use app_com_util.Base.{
  ℕ, zero, suc, ◌+◌, ◌-◌, Bool, true, false, not, ◌&&◌, ◌||◌, Option, none, some, List, [], ◌∷◌,
  ◌++◌, ltb, leb, ◌==◌, if◌then◌else◌, length, take, drop, map, get_or,
}

-- What a function leaves: a text with its NUL in `path_out`; the error `ENAMETOOLONG`, with an empty
-- text; or the error `EINVAL`.
pub data Outcome : Type 0 where
  text : List ℕ → Outcome
  too_long : Outcome
  invalid : Outcome

-- `path_is_sep`, `PLATFORM_PATH_SEP_CHR` on Linux, and the dot
abbrev pub is_sep : ℕ → Bool
is_sep c = (c == 47) || (c == 92)

abbrev pub platform_sep : ℕ
platform_sep = 47

abbrev pub dot : ℕ
dot = 46

-- The loop of `com_util_path_basename`; `base` is what stands behind the last separator so far.
unfoldable pub behind_last : List ℕ → List ℕ → List ℕ
behind_last base [] = base
behind_last base (c ∷ cs) = behind_last (if is_sep c then cs else base) cs

-- `com_util_path_basename`
unfoldable pub basename : List ℕ → List ℕ
unfolding behind_last
basename path = behind_last path path

-- `copy_path_name_text` with a `path_out` and a text that are not null
abbrev pub copy_text : ℕ → List ℕ → Outcome
copy_text path_size text_in =
    if path_size == 0
    then invalid
    else if ltb path_size (length text_in + 1)
    then too_long
    else text text_in

-- `end - path` behind the first loop of `com_util_path_dirname`.
unfoldable pub trim_end : List ℕ → ℕ → ℕ
trim_end path zero = zero
trim_end path (suc n) =
    let rest = trim_end path n in if ltb 1 (suc n) && is_sep (get_or path n 0) then rest else suc n

-- The second loop of `com_util_path_dirname`; a pointer is its distance from `path`.
unfoldable pub last_sep_from : Option ℕ → ℕ → List ℕ → Option ℕ
last_sep_from last_sep p [] = last_sep
last_sep_from last_sep p (c ∷ cs) = last_sep_from (if is_sep c then some p else last_sep) (p + 1) cs

-- `com_util_path_dirname` with a `path_out` that is not null.
unfoldable pub dirname : ℕ → List ℕ → Outcome
unfolding trim_end last_sep_from
dirname path_size path =
    if (path_size == 0) || (length path == 0)
    then invalid
    else elim (last_sep_from none 0 (take (trim_end path (length path)) path)) [
      | none ↦ copy_text path_size (dot ∷ [])
      | some last_sep ↦
          if last_sep == 0
          then copy_text path_size (platform_sep ∷ [])
          else if ltb path_size (last_sep + 1)
          then too_long
          else text (map (λ c. if is_sep c then platform_sep else c) (take last_sep path))
    ]

-- The loop of `com_util_path_extension`.
unfoldable pub last_dot : Option (List ℕ) → List ℕ → Option (List ℕ)
last_dot found [] = found
last_dot found (c ∷ cs) = last_dot (if c == dot then some (c ∷ cs) else found) cs

-- `com_util_path_extension`; two ends of one string are the same pointer if they are as long.
unfoldable pub extension : List ℕ → List ℕ
unfolding basename last_dot
extension path = elim (last_dot none (basename path)) [
  | none ↦ []
  | some found ↦ if length found == length (basename path) then [] else found
]

-- `com_util_path_strip_extension` with a `path_out` that is not null.
unfoldable pub strip_extension : ℕ → List ℕ → Outcome
unfolding extension
strip_extension path_size path =
    let len = length path - length (extension path) in
    if (path_size == 0) || (length path == 0)
    then invalid
    else if ltb path_size (len + 1)
    then too_long
    else text (take len path)

-- Whether the last byte is a separator; false for no bytes.
abbrev pub ends_with_sep : List ℕ → Bool
ends_with_sep [] = false
ends_with_sep (c ∷ cs) = let rest = ends_with_sep cs in if length cs == 0 then is_sep c else rest

abbrev pub starts_with_sep : List ℕ → Bool
starts_with_sep [] = false
starts_with_sep (c ∷ cs) = is_sep c

-- The first pass of `com_util_vpath_join_n`: `required_size`, or the error. A part is `none` for null.
pub data Measured : Type 0 where
  required : ℕ → Measured
  no_room : Measured
  no_part : Measured

unfoldable pub measure : ℕ → ℕ → Bool → Bool → List (Option (List ℕ)) → Measured
measure path_size size have_prev prev_sep [] = required size
measure path_size size have_prev prev_sep (none ∷ parts) = no_part
measure path_size size have_prev prev_sep (some part ∷ parts) =
    let starts = starts_with_sep part in
    let skip : ℕ = if have_prev && prev_sep && starts then 1 else 0 in
    let gap : Bool = have_prev && not prev_sep && not starts in
    let size' : ℕ = if gap then size + 1 else size in
    let empty_part = measure path_size size have_prev prev_sep parts in
    let further =
      measure path_size (size' + (length part - skip)) true (ends_with_sep part) parts in
    if length part == 0
    then empty_part
    else if gap && leb path_size size
    then no_room
    else if ltb (path_size - size') (length part - skip)
    then no_room
    else further

-- One round of the second pass, from the text written so far.
abbrev pub write_part : List ℕ → List ℕ → List ℕ
write_part out part =
    let both : Bool = not (length out == 0) && ends_with_sep out && starts_with_sep part in
    let need_sep : Bool =
      not (length out == 0) && not (ends_with_sep out) && not (starts_with_sep part) in
    if length part == 0
    then out
    else (if need_sep then out ++ (platform_sep ∷ []) else out) ++ drop (if both then 1 else 0) part

-- The second pass, which no null part reaches.
unfoldable pub write_parts : List ℕ → List (Option (List ℕ)) → List ℕ
write_parts out [] = out
write_parts out (none ∷ parts) = write_parts out parts
write_parts out (some part ∷ parts) = write_parts (write_part out part) parts

-- `com_util_path_join_n` with a `path_out` that is not null.
unfoldable pub join : ℕ → List (Option (List ℕ)) → Outcome
unfolding measure write_parts
join path_size parts =
    if (path_size == 0) || (length parts == 0)
    then invalid
    else elim (measure path_size 1 false false parts) [
      | required size ↦ text (write_parts [] parts)
      | no_room ↦ too_long
      | no_part ↦ invalid
    ]
