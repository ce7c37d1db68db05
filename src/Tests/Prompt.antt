-- ===== src/Tests/Prompt.antt =====
-- A line of three characters of one, three and one bytes.
use app_com_util.Base.{
  ℕ, min, ◌+◌, suc, ◌≤◌, ◌<◌, ◌≡◌, refl, ◌⊎◌, none, some, Option, List, [], ◌∷◌, false, arith,
}
use app_com_util.Base.Int.{ℤ}
use app_com_util.Prompt.{
  Buffer, next_cap, continues, prev_boundary, next_boundary, sanitize_boundary, ensure_capacity,
}
use app_com_util.Prompt.Boundary.{
  AllContinue, prev_boundary-IsPrevious, next_boundary-IsNext, sanitize_boundary-IsLast,
}
use app_com_util.Prompt.Capacity.{EnsuresAs, ensure_capacity-EnsuresAs}

abbrev line : List ℕ
line = 97 ∷ 227 ∷ 129 ∷ 130 ∷ 98 ∷ []

back : prev_boundary line 4 ≡ 1
unfolding prev_boundary
back = refl

prev_boundary-IsPrevious_example :
    (prev_boundary line 4 < 4)
    × ((prev_boundary line 4 ≡ 0) ⊎ (continues line (prev_boundary line 4) ≡ false))
    × AllContinue line (suc (prev_boundary line 4)) 4
prev_boundary-IsPrevious_example = prev_boundary-IsPrevious line 4 (omega arith)

next_boundary-IsNext_example :
    (1 < next_boundary line 5 1)
    × (next_boundary line 5 1 ≤ 5)
    × ((next_boundary line 5 1 ≡ 5) ⊎ (continues line (next_boundary line 5 1) ≡ false))
    × AllContinue line (1 + 1) (next_boundary line 5 1)
next_boundary-IsNext_example = next_boundary-IsNext line 5 1 (omega arith)

sanitize_boundary-IsLast_example :
    (sanitize_boundary line 5 3 ≤ min 3 5)
    × ((sanitize_boundary line 5 3 ≡ 0)
        ⊎ (sanitize_boundary line 5 3 ≡ 5)
        ⊎ (continues line (sanitize_boundary line 5 3) ≡ false))
    × AllContinue line (suc (sanitize_boundary line 5 3)) (suc (min 3 5))
sanitize_boundary-IsLast_example = sanitize_boundary-IsLast line 5 3

abbrev no_more_memory : List ℕ → ℕ → Option (List ℕ)
no_more_memory buf n = none

abbrev same_bytes : List ℕ → ℕ → Option (List ℕ)
same_bytes buf n = some buf

abbrev small : Buffer
small = record { buf = line; cap = 5 }

ensure_capacity-EnsuresAs_example :
    (r : ℤ × Buffer) × (ensure_capacity same_bytes small 4096 100 ≡ some r)
    × EnsuresAs same_bytes small 4096 100 r
ensure_capacity-EnsuresAs_example = ensure_capacity-EnsuresAs same_bytes small 4096 100

grown_to_160 :
    ensure_capacity same_bytes small 4096 100 ≡ some (ℤ.pos 0, record { buf = line; cap = 160 })
unfolding ensure_capacity
grown_to_160 = refl

refused_memory : ensure_capacity no_more_memory small 4096 100 ≡ some (ℤ.negsuc 0, small)
unfolding ensure_capacity
refused_memory = refl

-- Twice 2^63 bytes wrap around to none, and the limit is taken.
doubling_wraps : next_cap 0xffffffffffffffff 0x8000000000000000 ≡ 0xffffffffffffffff
doubling_wraps = refl
