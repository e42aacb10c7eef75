-- ===== src/JulianDay/Signed.antt =====
-- include/swirly/ash/JulianDay.hpp: `isoToJd` of a date that is an `int`. Where it is negative, the
-- division and the remainder of C++ truncate towards 0.
use swirlyc.Common.{
  ◌≡◌, refl, ℕ, suc, ◌/◌, ◌%◌, ℤ, pos, negsuc, ◌+ℤ◌, ◌-ℤ◌, ◌*ℤ◌, Option, none, some,
}
use swirlyc.Domain.{Jday}
use swirlyc.JulianDay.{maybe_iso_to_jd}

-- `n / d` and `n % d` of an `int` by a positive number.
abbrev pub quot : ℤ → ℕ → ℤ
quot (pos n) d = pos (n / d)
quot (negsuc n) d = pos 0 -ℤ pos (suc n / d)

abbrev pub rem : ℤ → ℕ → ℤ
rem (pos n) d = pos (n % d)
rem (negsuc n) d = pos 0 -ℤ pos (suc n % d)

-- `ymdToJd`, where j is `mon + 1`.
abbrev pub signed_ymd_to_jd : ℤ → ℤ → ℤ → ℤ
signed_ymd_to_jd i j k =
    let ahead = quot (j -ℤ pos 14) 12 in
    (k -ℤ pos 32075)
    +ℤ quot (pos 1461 *ℤ (i +ℤ pos 4800 +ℤ ahead)) 4
    +ℤ quot (pos 367 *ℤ (j -ℤ pos 2 -ℤ ahead *ℤ pos 12)) 12
    -ℤ quot (pos 3 *ℤ quot (i +ℤ pos 4900 +ℤ ahead) 100) 4

abbrev pub signed_iso_to_jd : ℤ → ℤ
signed_iso_to_jd n = signed_ymd_to_jd (quot n 10000) (rem (quot n 100) 100) (rem n 100)

abbrev not_negative : ℤ → Option Jday
not_negative (pos n) = some n
not_negative (negsuc n) = none

-- `maybeIsoToJd`, where the day is not negative.
unfoldable pub day_of : ℤ → Option Jday
unfolding maybe_iso_to_jd ◌-ℤ◌ ◌+ℤ◌ ◌*ℤ◌
day_of (pos n) = some (maybe_iso_to_jd n)
day_of (negsuc n) = not_negative (signed_iso_to_jd (negsuc n))

-- 29 February 2016, as `iso_to_jd` has it too.
leap_day : signed_iso_to_jd (pos 20160229) ≡ pos 2457448
unfolding ◌-ℤ◌ ◌+ℤ◌ ◌*ℤ◌
leap_day = refl
