-- ===== src/Timespec/Laws.antt =====
-- Times as numbers of nanoseconds.
use app_com_util.Base.{
  ℕ, suc, ◌+◌, ◌-◌, ◌*◌, ◌/◌, ◌%◌, ◌<◌, ◌≡◌, ◌↔◌, arith, refl, ◌∙◌, true, false,
}
use native.Mathlib.Decide.{dec_lt}
use app_com_util.Base.Int.{
  ℤ, pos, negsuc, pos_part, neg_part, ◌+ℤ◌, ◌-ℤ◌, ◌*ℤ◌, ◌≤ℤ◌, ◌<ℤ◌, ltb_ℤ, int_laws, eq_of_parts,
  +ℤ_parts, -ℤ_parts,
}
use app_com_util.Timespec.{
  Timespec, nsec_per_sec, nsec_per_msec, msec_per_sec, quot, rem, normalize, add, sub, cmp, add_ms,
  diff_ms,
}

unfoldable pub nanoseconds : Timespec → ℤ
nanoseconds ts = ts.tv_sec *ℤ nsec_per_sec +ℤ ts.tv_nsec

abbrev pub IsNormal : Timespec → Type 0
IsNormal ts = (pos 0 ≤ℤ ts.tv_nsec) × (ts.tv_nsec <ℤ pos nsec_per_sec)

-- Division that rounds down, and its remainder.
abbrev pub floor_quot : ℤ → ℤ
floor_quot (pos n) = pos (n / nsec_per_sec)
floor_quot (negsuc n) = negsuc (n / nsec_per_sec)

abbrev pub floor_rem : ℤ → ℤ
floor_rem (pos n) = pos (n % nsec_per_sec)
floor_rem (negsuc n) = pos (nsec_per_sec - 1 - n % nsec_per_sec)

floor_parts :
    (n : ℤ)
    → pos_part (floor_quot n) * nsec_per_sec + pos_part (floor_rem n) + neg_part n
      ≡ neg_part (floor_quot n) * nsec_per_sec + neg_part (floor_rem n) + pos_part n
floor_parts (pos n) = omega arith
floor_parts (negsuc n) = omega arith

add_zero : (a : ℤ) → a ≡ a +ℤ pos 0
add_zero a = omega int_laws

neg_quot :
    (n : ℕ)
    → 0 < suc n % nsec_per_sec
    → quot (negsuc n) nsec_per_sec -ℤ pos 1 ≡ floor_quot (negsuc n)
unfolding quot
neg_quot n h =
    eq_of_parts (quot (negsuc n) nsec_per_sec -ℤ pos 1) (floor_quot (negsuc n))
      (ground (arith, -ℤ_parts (quot (negsuc n) nsec_per_sec) (pos 1)))

neg_quot_zero :
    (n : ℕ) → suc n % nsec_per_sec ≡ 0 → quot (negsuc n) nsec_per_sec ≡ floor_quot (negsuc n)
unfolding quot
neg_quot_zero n h = ground arith

neg_rem :
    (n : ℕ)
    → 0 < suc n % nsec_per_sec
    → rem (negsuc n) nsec_per_sec +ℤ pos nsec_per_sec ≡ floor_rem (negsuc n)
unfolding rem
neg_rem n h =
    eq_of_parts (rem (negsuc n) nsec_per_sec +ℤ pos nsec_per_sec) (floor_rem (negsuc n))
      (ground (arith, +ℤ_parts (rem (negsuc n) nsec_per_sec) (pos nsec_per_sec)))

module _ (sec : ℤ) (n : ℕ) where
  normalize_pos :
      let r = normalize (record { tv_sec = sec; tv_nsec = pos n }) in
      (r.tv_sec ≡ sec +ℤ pos (n / nsec_per_sec)) × (r.tv_nsec ≡ pos (n % nsec_per_sec))
  unfolding normalize quot rem
  normalize_pos = elim (dec_lt n nsec_per_sec) [
    | yes l ↦
        let whole : n / nsec_per_sec ≡ 0 = omega arith in
        let part : n % nsec_per_sec ≡ n = omega arith in
        let inside : ltb_ℤ (pos n) (pos nsec_per_sec) ≡ true = ground arith in
        let positive : ltb_ℤ (pos n) (pos 0) ≡ false = ground arith in
        rw (inside, positive, whole, part) (add_zero sec, refl)
    | no l ↦
        let outside : ltb_ℤ (pos n) (pos nsec_per_sec) ≡ false = ground arith in
        let positive : ltb_ℤ (pos (n % nsec_per_sec)) (pos 0) ≡ false = ground arith in
        rw (outside, positive) (refl, refl)
  ]

  normalize_neg :
      let r = normalize (record { tv_sec = sec; tv_nsec = negsuc n }) in
      (r.tv_sec ≡ sec +ℤ floor_quot (negsuc n)) × (r.tv_nsec ≡ floor_rem (negsuc n))
  unfolding normalize
  normalize_neg =
      let low : ltb_ℤ (negsuc n) (pos 0) ≡ true = ground arith in
      let under : ltb_ℤ (negsuc n) (pos nsec_per_sec) ≡ true = ground arith in
      elim (dec_lt 0 (suc n % nsec_per_sec)) [
        | yes l ↦
            let outside : ltb_ℤ (rem (negsuc n) nsec_per_sec) (pos 0) ≡ true =
              unfold rem in ground arith in
            rw (under, low, outside, neg_quot n l, neg_rem n l) (refl, refl)
        | no l ↦
            let inside : ltb_ℤ (rem (negsuc n) nsec_per_sec) (pos 0) ≡ false =
              unfold rem in ground arith in
            rw (under, low, inside, neg_quot_zero n (omega arith))
              (refl, unfold rem in ground arith)
      ]

-- The two parts of a normalised time, by division that rounds down.
normalize_split :
    (sec nsec : ℤ)
    → let r = normalize (record { tv_sec = sec; tv_nsec = nsec }) in
      (r.tv_sec ≡ sec +ℤ floor_quot nsec) × (r.tv_nsec ≡ floor_rem nsec)
normalize_split sec (pos n) = normalize_pos sec n
normalize_split sec (negsuc n) = normalize_neg sec n

floor_rem_bounds : (n : ℤ) → (pos 0 ≤ℤ floor_rem n) × (floor_rem n <ℤ pos nsec_per_sec)
floor_rem_bounds (pos n) = omega arith
floor_rem_bounds (negsuc n) = omega arith

-- `com_util_timespec_normalize` brings the nanoseconds from 0 below a second and keeps the time.
pub normalize-nanoseconds :
    (ts : Timespec) → IsNormal (normalize ts) × (nanoseconds (normalize ts) ≡ nanoseconds ts)
unfolding nanoseconds
normalize-nanoseconds ts =
    let (s, n) = normalize_split ts.tv_sec ts.tv_nsec in
    rw (s, n) (floor_rem_bounds ts.tv_nsec, omega (int_laws, floor_parts ts.tv_nsec))

-- `com_util_timespec_add` gives the normalised sum, exact to the nanosecond.
pub add-nanoseconds :
    (a b : Timespec) → IsNormal (add a b) × (nanoseconds (add a b) ≡ nanoseconds a +ℤ nanoseconds b)
unfolding add
add-nanoseconds a b =
    let s : Timespec = record { tv_sec = a.tv_sec +ℤ b.tv_sec; tv_nsec = a.tv_nsec +ℤ b.tv_nsec } in
    let (normal, same) = normalize-nanoseconds s in
    (normal, same ∙ unfold nanoseconds in omega int_laws)

-- `com_util_timespec_sub` gives the normalised difference, exact to the nanosecond.
pub sub-nanoseconds :
    (a b : Timespec) → IsNormal (sub a b) × (nanoseconds (sub a b) ≡ nanoseconds a -ℤ nanoseconds b)
unfolding sub
sub-nanoseconds a b =
    let s : Timespec = record { tv_sec = a.tv_sec -ℤ b.tv_sec; tv_nsec = a.tv_nsec -ℤ b.tv_nsec } in
    let (normal, same) = normalize-nanoseconds s in
    (normal, same ∙ unfold nanoseconds in omega int_laws)

-- `com_util_timespec_add_ms` adds exactly that many milliseconds and normalises.
pub add_ms-nanoseconds :
    (ts : Timespec) (timeout_ms : ℕ)
    → IsNormal (add_ms ts timeout_ms)
      × (nanoseconds (add_ms ts timeout_ms) ≡ nanoseconds ts +ℤ pos (timeout_ms * nsec_per_msec))
unfolding add_ms
add_ms-nanoseconds ts timeout_ms =
    let s : Timespec = record {
      tv_sec = ts.tv_sec +ℤ pos (timeout_ms / msec_per_sec);
      tv_nsec = ts.tv_nsec +ℤ pos (timeout_ms % msec_per_sec * nsec_per_msec);
    } in
    let (normal, same) = normalize-nanoseconds s in
    (normal, same ∙ unfold nanoseconds in omega int_laws)

diff_floor :
    (d : Timespec)
    → IsNormal d
    → let ms = d.tv_sec *ℤ msec_per_sec +ℤ quot d.tv_nsec nsec_per_msec in
      (ms *ℤ nsec_per_msec ≤ℤ nanoseconds d)
      × (nanoseconds d <ℤ ms *ℤ nsec_per_msec +ℤ pos nsec_per_msec)
diff_floor d n = normal_cases d.tv_sec d.tv_nsec n
  where
    normal_cases :
        (sec nsec : ℤ)
        → IsNormal (record { tv_sec = sec; tv_nsec = nsec })
        → let ms = sec *ℤ msec_per_sec +ℤ quot nsec nsec_per_msec in
          let t = nanoseconds (record { tv_sec = sec; tv_nsec = nsec }) in
          (ms *ℤ nsec_per_msec ≤ℤ t) × (t <ℤ ms *ℤ nsec_per_msec +ℤ pos nsec_per_msec)
    normal_cases sec (pos k) h = unfold quot nanoseconds in omega int_laws
    normal_cases sec (negsuc k) h = absurd (omega arith)

-- `com_util_timespec_diff_ms` is the difference in milliseconds, rounded down, also where the end is
-- before the start.
pub diff_ms-floor :
    (end start : Timespec)
    → (diff_ms end start *ℤ nsec_per_msec ≤ℤ nanoseconds end -ℤ nanoseconds start)
      × (nanoseconds end -ℤ nanoseconds start
          <ℤ diff_ms end start *ℤ nsec_per_msec +ℤ pos nsec_per_msec)
diff_ms-floor end start =
    let (normal, same) = sub-nanoseconds end start in
    rw (← same) (unfold diff_ms in diff_floor (sub end start) normal)

nanoseconds_parts :
    (ts : Timespec)
    → pos_part (nanoseconds ts) + neg_part ts.tv_sec * nsec_per_sec + neg_part ts.tv_nsec
      ≡ neg_part (nanoseconds ts) + pos_part ts.tv_sec * nsec_per_sec + pos_part ts.tv_nsec
unfolding nanoseconds
nanoseconds_parts ts = omega int_laws

-- `com_util_timespec_cmp` compares normalised times as numbers of nanoseconds: its result is
-- negative, zero or positive as the first is before, at or after the second.
pub cmp-nanoseconds :
    (a b : Timespec)
    → IsNormal a
    → IsNormal b
    → ((cmp a b ≡ negsuc 0) ↔ (nanoseconds a <ℤ nanoseconds b))
      × ((cmp a b ≡ pos 0) ↔ (nanoseconds a ≡ nanoseconds b))
      × ((cmp a b ≡ pos 1) ↔ (nanoseconds b <ℤ nanoseconds a))
unfolding cmp
cmp-nanoseconds a b n m =
    ground
      (arith, nanoseconds_parts a, nanoseconds_parts b, eq_of_parts (nanoseconds a) (nanoseconds b))
