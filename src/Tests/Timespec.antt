-- ===== src/Tests/Timespec.antt =====
-- Times before the epoch and borrows.
use app_com_util.Base.{◌≡◌, ◌*◌, ◌↔◌, refl, arith}
use app_com_util.Base.Int.{pos, negsuc, ◌+ℤ◌, ◌-ℤ◌, ◌*ℤ◌, ◌≤ℤ◌, ◌<ℤ◌}
use app_com_util.Timespec.{Timespec, nsec_per_msec, quot, rem, normalize, cmp, add_ms, diff_ms}
use app_com_util.Timespec.Laws.{
  nanoseconds, IsNormal, normalize-nanoseconds, add_ms-nanoseconds, diff_ms-floor, cmp-nanoseconds,
}

-- Half a second before the epoch, not yet normalised.
abbrev before : Timespec
before = record { tv_sec = pos 0; tv_nsec = negsuc 499999999 }

abbrev at_half : Timespec
at_half = record { tv_sec = pos 2; tv_nsec = pos 500000000 }

abbrev at_third : Timespec
at_third = record { tv_sec = pos 3; tv_nsec = pos 300000000 }

borrowed : normalize before ≡ record { tv_sec = negsuc 0; tv_nsec = pos 500000000 }
unfolding normalize ◌+ℤ◌ rem ◌-ℤ◌ quot
borrowed = refl

before_by : diff_ms at_half at_third ≡ negsuc 799
unfolding diff_ms ◌+ℤ◌ ◌*ℤ◌ normalize ◌-ℤ◌ quot
before_by = refl

normalize-nanoseconds_example :
    IsNormal (normalize before) × (nanoseconds (normalize before) ≡ nanoseconds before)
normalize-nanoseconds_example = normalize-nanoseconds before

add_ms-nanoseconds_example :
    IsNormal (add_ms at_half 2999)
    × (nanoseconds (add_ms at_half 2999) ≡ nanoseconds at_half +ℤ pos (2999 * nsec_per_msec))
add_ms-nanoseconds_example = add_ms-nanoseconds at_half 2999

diff_ms-floor_example :
    (diff_ms at_half at_third *ℤ nsec_per_msec ≤ℤ nanoseconds at_half -ℤ nanoseconds at_third)
    × (nanoseconds at_half -ℤ nanoseconds at_third
        <ℤ diff_ms at_half at_third *ℤ nsec_per_msec +ℤ pos nsec_per_msec)
diff_ms-floor_example = diff_ms-floor at_half at_third

cmp-nanoseconds_example :
    ((cmp at_half at_third ≡ negsuc 0) ↔ (nanoseconds at_half <ℤ nanoseconds at_third))
    × ((cmp at_half at_third ≡ pos 0) ↔ (nanoseconds at_half ≡ nanoseconds at_third))
    × ((cmp at_half at_third ≡ pos 1) ↔ (nanoseconds at_third <ℤ nanoseconds at_half))
cmp-nanoseconds_example =
    cmp-nanoseconds at_half at_third (omega arith, omega arith) (omega arith, omega arith)
