-- ===== src/Prompt/Boundary.antt =====
-- The moves in a UTF-8 line go to the next character on either side.
use app_com_util.Base.{
  ℕ, zero, suc, min, ◌+◌, ◌-◌, ◌≤◌, ◌<◌, ◌≡◌, refl, sym, ◌∙◌, Bool, not, ==_iff, if◌then◌else◌,
  true, false, ◌&&◌, List, ltb, leb, ◌==◌, ◌⊎◌, inl, inr, Bool-cases, arith,
}
use app_com_util.Prompt.{
  is_continuation, continues, go_back, prev_boundary, go_on, next_boundary, go_back_inside,
  sanitize_boundary,
}

-- A test of every number below a bound.
every_below : ℕ → (ℕ → Bool) → Bool
every_below zero test = true
every_below (suc n) test = let rest = every_below n test in if test n then rest else false

every_below_sound :
    (n : ℕ) (test : ℕ → Bool) (c : ℕ) → every_below n test ≡ true → c < n → test c ≡ true
unfolding every_below
every_below_sound zero test c h l = absurd (omega arith)
every_below_sound (suc n) test c h l = elim (Bool-cases (test n)) [
  | inr e ↦ let fails : every_below (suc n) test ≡ false = rw e refl in absurd (cc (h, fails))
  | inl e ↦
      let rest : every_below n test ≡ true = rw e at h in
      elim (Bool-cases (c == n)) [
        | inl d ↦ rw ((==_iff c n).0 d) e
        | inr d ↦ every_below_sound n test c rest (ground arith)
      ]
]

-- The test of a byte agrees with its range.
abbrev right_at : ℕ → Bool
right_at c = if is_continuation c then leb 0x80 c && ltb c 0xC0 else not (leb 0x80 c && ltb c 0xC0)

every_byte : every_below 256 right_at ≡ true
unfolding every_below
every_byte = refl

-- A byte continues a character exactly if it is one of 0x80 to 0xBF.
is_continuation-eq : (c : ℕ) → c < 256 → is_continuation c ≡ (leb 0x80 c && ltb c 0xC0)
is_continuation-eq c h =
    let right = every_below_sound 256 right_at c every_byte h in
    elim (Bool-cases (is_continuation c)) [
      | inl e ↦ e ∙ sym (rw e at right)
      | inr e ↦
          let outside : not (leb 0x80 c && ltb c 0xC0) ≡ true = rw e at right in
          e ∙ sym (ground arith)
    ]

-- All bytes of [low, high) continue a character.
abbrev pub AllContinue : List ℕ → ℕ → ℕ → Type 0
AllContinue buf low high = (i : ℕ) → low ≤ i → i < high → continues buf i ≡ true

same_position : (i pos : ℕ) → (i == pos) ≡ true → i ≡ pos
same_position i pos d = ground arith

go_back-stops :
    (buf : List ℕ) (pos : ℕ)
    → (go_back buf pos ≤ pos)
      × ((go_back buf pos ≡ 0) ⊎ (continues buf (go_back buf pos) ≡ false))
      × AllContinue buf (suc (go_back buf pos)) (suc pos)
unfolding go_back
go_back-stops buf zero = (omega arith, inl refl, λ i low high. absurd (omega arith))
go_back-stops buf (suc pos) =
    let (below, stops, between) = go_back-stops buf pos in
    elim (Bool-cases (continues buf (suc pos))) [
      | inl e ↦ rw e (
        omega arith,
        stops,
        λ i low high. elim (Bool-cases (i == suc pos)) [
          | inl d ↦ rw (same_position i (suc pos) d) e
          | inr d ↦ between i low (ground arith)
        ],
      )
      | inr e ↦ rw e (omega arith, inr e, λ i low high. absurd (omega arith))
    ]

-- From a position that is not the start, the move back goes to the last start of a character before it:
-- the line's start, or a byte that does not continue a character, with only continuing bytes between.
pub prev_boundary-IsPrevious :
    (buf : List ℕ) (pos : ℕ)
    → 0 < pos
    → (prev_boundary buf pos < pos)
      × ((prev_boundary buf pos ≡ 0) ⊎ (continues buf (prev_boundary buf pos) ≡ false))
      × AllContinue buf (suc (prev_boundary buf pos)) pos
unfolding prev_boundary
prev_boundary-IsPrevious buf zero h = absurd (omega arith)
prev_boundary-IsPrevious buf (suc pos) h =
    let back : suc pos - 1 ≡ pos = omega arith in
    let positive : (suc pos == 0) ≡ false = ground arith in
    let (below, stops, between) = go_back-stops buf pos in
    rw (positive, back) (omega arith, stops, between)

go_on-stops :
    (fuel : ℕ) (buf : List ℕ) (len pos : ℕ)
    → pos ≤ len
    → len ≤ pos + fuel
    → (pos ≤ go_on fuel buf len pos)
      × (go_on fuel buf len pos ≤ len)
      × ((go_on fuel buf len pos ≡ len) ⊎ (continues buf (go_on fuel buf len pos) ≡ false))
      × AllContinue buf pos (go_on fuel buf len pos)
unfolding go_on
go_on-stops zero buf len pos h k =
    (omega arith, h, inl (omega arith), λ i low high. absurd (omega arith))
go_on-stops (suc fuel) buf len pos h k = elim (Bool-cases (ltb pos len && continues buf pos)) [
  | inl e ↦
      let here : continues buf pos ≡ true = ground arith in
      let inside : pos < len = ground arith in
      let (low, high, stops, between) =
        go_on-stops fuel buf len (pos + 1) (omega arith) (omega arith) in
      rw e (
        omega arith,
        high,
        stops,
        λ i l m. elim (Bool-cases (i == pos)) [
          | inl d ↦ rw (same_position i pos d) here
          | inr d ↦ between i (ground arith) m
        ],
      )
  | inr e ↦ rw e (omega arith, h, ground arith, λ i l m. absurd (omega arith))
]

-- From a position before the end, the move on goes to the next start of a character or to the end of the
-- line, with only continuing bytes between.
pub next_boundary-IsNext :
    (buf : List ℕ) (len pos : ℕ)
    → pos < len
    → (pos < next_boundary buf len pos)
      × (next_boundary buf len pos ≤ len)
      × ((next_boundary buf len pos ≡ len) ⊎ (continues buf (next_boundary buf len pos) ≡ false))
      × AllContinue buf (pos + 1) (next_boundary buf len pos)
unfolding next_boundary
next_boundary-IsNext buf len pos h =
    let inside : leb len pos ≡ false = ground arith in
    let (low, high, stops, between) =
      go_on-stops (len - pos) buf len (pos + 1) (omega arith) (omega arith) in
    rw inside (omega arith, high, stops, between)

go_back_inside-stops :
    (buf : List ℕ) (len pos : ℕ)
    → pos ≤ len
    → let r = go_back_inside buf len pos in
      (r ≤ pos)
      × ((r ≡ 0) ⊎ (r ≡ len) ⊎ (continues buf r ≡ false))
      × AllContinue buf (suc r) (suc pos)
unfolding go_back_inside
go_back_inside-stops buf len zero h = (omega arith, inl refl, λ i low high. absurd (omega arith))
go_back_inside-stops buf len (suc pos) h =
    let (below, stops, between) = go_back_inside-stops buf len pos (omega arith) in
    elim (Bool-cases (ltb (suc pos) len && continues buf (suc pos))) [
      | inl e ↦
          let here : continues buf (suc pos) ≡ true = ground arith in
          rw e (
            omega arith,
            stops,
            λ i low high. elim (Bool-cases (i == suc pos)) [
              | inl d ↦ rw (same_position i (suc pos) d) here
              | inr d ↦ between i low (ground arith)
            ],
          )
      | inr e ↦ rw e (omega arith, inr (ground arith), λ i low high. absurd (omega arith))
    ]

-- Any position is brought to one in the line: the last that is not beyond it and is the line's start,
-- its end or the start of a character.
pub sanitize_boundary-IsLast :
    (buf : List ℕ) (len pos : ℕ)
    → let r = sanitize_boundary buf len pos in
      (r ≤ min pos len)
      × ((r ≡ 0) ⊎ (r ≡ len) ⊎ (continues buf r ≡ false))
      × AllContinue buf (suc r) (suc (min pos len))
unfolding sanitize_boundary
sanitize_boundary-IsLast buf len pos = elim (Bool-cases (ltb len pos)) [
  | inl e ↦
      let at : min pos len ≡ len = ground arith in
      rw (e, at) (go_back_inside-stops buf len len (omega arith))
  | inr e ↦
      let at : min pos len ≡ pos = ground arith in
      rw (e, at) (go_back_inside-stops buf len pos (ground arith))
]
