-- ===== src/Prompt.antt =====
-- prod/libsrc/com_util/prompt/prompt_edit.c: positions in a UTF-8 line and the growth of its buffer.
-- A buffer is its bytes. The loops that go down a position are recursion on it; the one that goes up has
-- the bytes that are left as its fuel.
pub mod Boundary
pub mod Capacity
use Prim.Native.Nat.{bit_and}
use app_com_util.Base.{
  ℕ, zero, suc, ◌+◌, ◌-◌, ◌*◌, Bool, true, false, not, ◌&&◌, ◌||◌, Option, none, some, List, ltb,
  leb, ◌==◌, if◌then◌else◌, get_or,
}
use app_com_util.Base.Words.{mul64}
use app_com_util.Base.Int.{ℤ}

-- `utf8_is_continuation`
abbrev pub is_continuation : ℕ → Bool
is_continuation c = bit_and c 0xC0 == 0x80

abbrev pub continues : List ℕ → ℕ → Bool
continues buf pos = is_continuation (get_or buf pos 0)

-- `while (pos > 0 && utf8_is_continuation(buf[pos])) pos--;`
unfoldable pub go_back : List ℕ → ℕ → ℕ
go_back buf zero = 0
go_back buf (suc pos) =
    let further = go_back buf pos in if continues buf (suc pos) then further else suc pos

-- `com_util_prompt_edit_utf8_prev_boundary`
unfoldable pub prev_boundary : List ℕ → ℕ → ℕ
unfolding go_back
prev_boundary buf pos = if pos == 0 then 0 else go_back buf (pos - 1)

-- `while (pos < len && utf8_is_continuation(buf[pos])) pos++;`
unfoldable pub go_on : ℕ → List ℕ → ℕ → ℕ → ℕ
go_on zero buf len pos = pos
go_on (suc fuel) buf len pos =
    let further = go_on fuel buf len (pos + 1) in
    if ltb pos len && continues buf pos then further else pos

-- `com_util_prompt_edit_utf8_next_boundary`
unfoldable pub next_boundary : List ℕ → ℕ → ℕ → ℕ
unfolding go_on
next_boundary buf len pos = if leb len pos then len else go_on (len - pos) buf len (pos + 1)

-- The loop of the function below, which also stops at the end of the line.
unfoldable pub go_back_inside : List ℕ → ℕ → ℕ → ℕ
go_back_inside buf len zero = 0
go_back_inside buf len (suc pos) =
    let further = go_back_inside buf len pos in
    if ltb (suc pos) len && continues buf (suc pos) then further else suc pos

-- `com_util_prompt_edit_utf8_sanitize_boundary`
unfoldable pub sanitize_boundary : List ℕ → ℕ → ℕ → ℕ
unfolding go_back_inside
sanitize_boundary buf len pos = go_back_inside buf len (if ltb len pos then len else pos)

-- One round of the loop that raises `new_cap`.
abbrev pub next_cap : ℕ → ℕ → ℕ
next_cap max_bytes new_cap =
    let doubled = mul64 new_cap 2 in
    if leb doubled new_cap || ltb max_bytes doubled then max_bytes else doubled

-- The loop; `none` is a loop that has not ended.
unfoldable pub grow : ℕ → ℕ → ℕ → ℕ → Option ℕ
grow zero max_bytes required new_cap = if ltb new_cap required then none else some new_cap
grow (suc fuel) max_bytes required new_cap =
    let further = grow fuel max_bytes required (next_cap max_bytes new_cap) in
    if ltb new_cap required then further else some new_cap

-- A buffer behind its pointer, with `*cap`.
pub record Buffer : Type 0 where
  pub buf : List ℕ
  pub cap : ℕ

abbrev pub failed : ℤ
failed = ℤ.negsuc 0

-- `com_util_prompt_edit_ensure_capacity` for pointers that are not null: its result and the buffer.
-- `realloc` is what `com_util_realloc` gives for the bytes and a new size.
unfoldable pub ensure_capacity :
    (List ℕ → ℕ → Option (List ℕ)) → Buffer → ℕ → ℕ → Option (ℤ × Buffer)
unfolding grow
ensure_capacity realloc b max_bytes required =
    if leb required b.cap
    then some (ℤ.pos 0, b)
    else if ltb max_bytes required
    then some (failed, b)
    else elim (grow required max_bytes required b.cap) [
      | none ↦ none
      | some new_cap ↦ elim (realloc b.buf new_cap) [
        | none ↦ some (failed, b)
        | some new_buf ↦ some (ℤ.pos 0, record { buf = new_buf; cap = new_cap })
      ]
    ]

-- What `com_util_prompt_edit_resolve_options` writes.
pub record Options : Type 0 where
  pub history_max : ℕ
  pub initial_capacity : ℕ
  pub max_bytes : ℕ

-- `COM_UTIL_PROMPT_HISTORY_DEFAULT` and `COM_UTIL_PROMPT_INPUT_BYTES_DEFAULT`
abbrev pub history_default : ℕ
history_default = 64

abbrev pub input_bytes_default : ℕ
input_bytes_default = 4096

-- The steps on `resolved_max_bytes` and on `resolved_initial_capacity`.
abbrev pub at_least_two : ℕ → ℕ
at_least_two n = if ltb n 2 then 2 else n

abbrev pub or_default : ℕ → ℕ → ℕ
or_default n default = if n == 0 then default else n

-- `com_util_prompt_edit_resolve_options`
unfoldable pub resolve_options : ℕ → ℕ → ℕ → ℕ → Options
resolve_options history_max initial_capacity max_bytes initial_capacity_default =
    let most = at_least_two (or_default max_bytes input_bytes_default) in
    let first = at_least_two (or_default initial_capacity initial_capacity_default) in
    record {
      history_max = or_default history_max history_default;
      initial_capacity = if ltb most first then most else first;
      max_bytes = most;
    }
