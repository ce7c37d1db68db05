-- ===== src/Timespec.antt =====
-- prod/libsrc/com_util/clock/timespec.c. The functions do nothing, or return 0, on a null pointer; the
-- models take the times themselves. A signed overflow is undefined in C, so the parts are integers
-- without bounds.
pub mod Laws
use app_com_util.Base.{ℕ, suc, ◌*◌, ◌/◌, ◌%◌, Bool, ◌||◌, not, true, false, if◌then◌else◌, ltb}
use app_com_util.Base.Int.{ℤ, pos, negsuc, ◌+ℤ◌, ◌-ℤ◌, ◌*ℤ◌, ltb_ℤ, sub_ℕ}

-- `com_util_timespec`
pub record Timespec : Type 0 where
  pub tv_sec : ℤ
  pub tv_nsec : ℤ

abbrev pub nsec_per_sec : ℕ
nsec_per_sec = 1_000_000_000

abbrev pub nsec_per_msec : ℕ
nsec_per_msec = 1_000_000

abbrev pub msec_per_sec : ℕ
msec_per_sec = 1_000

-- C's `/` and `%`, which round towards zero.
unfoldable pub quot : ℤ → ℕ → ℤ
quot (pos n) d = pos (n / d)
quot (negsuc n) d = sub_ℕ 0 (suc n / d)

unfoldable pub rem : ℤ → ℕ → ℤ
rem (pos n) d = pos (n % d)
rem (negsuc n) d = sub_ℕ 0 (suc n % d)

-- `com_util_timespec_normalize`
unfoldable pub normalize : Timespec → Timespec
normalize ts =
    let carry_sec = quot ts.tv_nsec nsec_per_sec in
    let nsec = rem ts.tv_nsec nsec_per_sec in
    let negative = ltb_ℤ nsec (pos 0) in
    if not (ltb_ℤ ts.tv_nsec (pos nsec_per_sec)) || ltb_ℤ ts.tv_nsec (pos 0)
    then record {
      tv_sec = ts.tv_sec +ℤ (if negative then carry_sec -ℤ pos 1 else carry_sec);
      tv_nsec = if negative then nsec +ℤ pos nsec_per_sec else nsec;
    }
    else ts

-- `com_util_timespec_add`
unfoldable pub add : Timespec → Timespec → Timespec
add a b = normalize (record { tv_sec = a.tv_sec +ℤ b.tv_sec; tv_nsec = a.tv_nsec +ℤ b.tv_nsec })

-- `com_util_timespec_sub`
unfoldable pub sub : Timespec → Timespec → Timespec
sub a b = normalize (record { tv_sec = a.tv_sec -ℤ b.tv_sec; tv_nsec = a.tv_nsec -ℤ b.tv_nsec })

-- `com_util_timespec_cmp`
unfoldable pub cmp : Timespec → Timespec → ℤ
cmp a b =
    if ltb_ℤ a.tv_sec b.tv_sec
    then negsuc 0
    else if ltb_ℤ b.tv_sec a.tv_sec
    then pos 1
    else if ltb_ℤ a.tv_nsec b.tv_nsec
    then negsuc 0
    else if ltb_ℤ b.tv_nsec a.tv_nsec
    then pos 1
    else pos 0

-- `com_util_timespec_add_ms`
unfoldable pub add_ms : Timespec → ℕ → Timespec
add_ms ts timeout_ms = normalize (record {
  tv_sec = ts.tv_sec +ℤ pos (timeout_ms / msec_per_sec);
  tv_nsec = ts.tv_nsec +ℤ pos (timeout_ms % msec_per_sec * nsec_per_msec);
})

-- `com_util_timespec_diff_ms`
unfoldable pub diff_ms : Timespec → Timespec → ℤ
unfolding sub
diff_ms end start =
    let diff = sub end start in diff.tv_sec *ℤ msec_per_sec +ℤ quot diff.tv_nsec nsec_per_msec
