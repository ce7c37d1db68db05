-- ===== src/Prompt/Capacity.antt =====
-- The line's buffer grows far enough and not beyond its limit, and the options are made consistent.
use app_com_util.Base.{
  ℕ, zero, suc, ◌+◌, ◌≤◌, ◌<◌, ◌≡◌, refl, Option, none, some, List, ltb, leb, inl, inr, Bool-cases,
  Option-cases, arith,
}
use app_com_util.Base.Int.{ℤ, pos}
use app_com_util.Prompt.{next_cap, grow, Buffer, failed, ensure_capacity, resolve_options}

next_cap-grows :
    (max_bytes new_cap : ℕ)
    → new_cap < max_bytes
    → (new_cap < next_cap max_bytes new_cap) × (next_cap max_bytes new_cap ≤ max_bytes)
next_cap-grows max_bytes new_cap h = ground arith

-- Each round raises the size, so as many rounds as are asked for bytes are enough.
grow-ends :
    (fuel max_bytes required new_cap : ℕ)
    → required ≤ max_bytes
    → required ≤ new_cap + fuel
    → new_cap ≤ max_bytes
    → (n : ℕ) × (grow fuel max_bytes required new_cap ≡ some n)
      × (required ≤ n)
      × (n ≤ max_bytes)
      × (new_cap ≤ n)
unfolding grow
grow-ends zero max_bytes required new_cap h k m = elim (Bool-cases (ltb new_cap required)) [
  | inl e ↦ absurd (ground arith)
  | inr e ↦ (new_cap, rw e refl, ground arith, m, omega arith)
]
grow-ends (suc fuel) max_bytes required new_cap h k m = elim (Bool-cases (ltb new_cap required)) [
  | inr e ↦ (new_cap, rw e refl, ground arith, m, omega arith)
  | inl e ↦
      let less : new_cap < required = ground arith in
      let (more, most) = next_cap-grows max_bytes new_cap (omega arith) in
      let (n, ends, enough, fits, above) =
        grow-ends fuel max_bytes required (next_cap max_bytes new_cap) h (omega arith) most in
      (n, rw e ends, enough, fits, omega arith)
]

-- The answers: enough room was there, too much was asked for, no memory, or a buffer that is large
-- enough and within the limit.
pub data EnsuresAs (realloc : List ℕ → ℕ → Option (List ℕ)) (b : Buffer) (max_bytes required : ℕ)
    (r : ℤ × Buffer) : Type 0 where
  enough : required ≤ b.cap → r ≡ (pos 0, b) → EnsuresAs realloc b max_bytes required r
  too_much : max_bytes < required → r ≡ (failed, b) → EnsuresAs realloc b max_bytes required r
  no_memory :
      (n : ℕ) → realloc b.buf n ≡ none → r ≡ (failed, b) → EnsuresAs realloc b max_bytes required r
  grown :
      (n : ℕ) (new_buf : List ℕ)
      → realloc b.buf n ≡ some new_buf
      → required ≤ n
      → n ≤ max_bytes
      → b.cap ≤ n
      → r ≡ (pos 0, record { buf = new_buf; cap = n })
      → EnsuresAs realloc b max_bytes required r

-- The call ends whatever the sizes are, also where doubling wraps around at 64 bits, which is no failure:
-- there was room, or more was asked for than the limit, or there is no memory, and the buffer is as it
-- was; or it has got a capacity of at least what was asked for, not less than before and not beyond the
-- limit.
pub ensure_capacity-EnsuresAs :
    (realloc : List ℕ → ℕ → Option (List ℕ)) (b : Buffer) (max_bytes required : ℕ)
    → (r : ℤ × Buffer) × (ensure_capacity realloc b max_bytes required ≡ some r)
      × EnsuresAs realloc b max_bytes required r
unfolding ensure_capacity
ensure_capacity-EnsuresAs realloc b max_bytes required = elim (Bool-cases (leb required b.cap)) [
  | inl e ↦ ((pos 0, b), rw e refl, enough (ground arith) refl)
  | inr e ↦ elim (Bool-cases (ltb max_bytes required)) [
    | inl f ↦ ((failed, b), rw (e, f) refl, too_much (ground arith) refl)
    | inr f ↦
        let (n, ends, more, fits, above) =
          grow-ends required max_bytes required b.cap (ground arith) (omega arith) (ground arith) in
        elim (Option-cases (realloc b.buf n)) [
          | inl g ↦ ((failed, b), rw (e, f, ends, g) refl, no_memory n g refl)
          | inr (new_buf, g) ↦ (
            (pos 0, record { buf = new_buf; cap = n }),
            rw (e, f, ends, g) refl,
            grown n new_buf g more fits above refl,
          )
        ]
  ]
]

-- The options: some history, at least two bytes, and no first capacity beyond the limit; a limit of two
-- or more that was asked for is kept, and so is a first capacity from two up to the limit.
pub resolve_options-consistent :
    (history_max initial_capacity max_bytes initial_capacity_default : ℕ)
    → let o = resolve_options history_max initial_capacity max_bytes initial_capacity_default in
      (0 < o.history_max)
      × (2 ≤ o.initial_capacity)
      × (o.initial_capacity ≤ o.max_bytes)
      × (2 ≤ max_bytes → o.max_bytes ≡ max_bytes)
      × (2 ≤ initial_capacity
          → initial_capacity ≤ o.max_bytes
          → o.initial_capacity ≡ initial_capacity)
unfolding resolve_options
resolve_options-consistent history_max initial_capacity max_bytes initial_capacity_default =
    (ground arith, ground arith, ground arith, λ h. ground arith, λ h k. ground arith)
