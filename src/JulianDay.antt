-- ===== src/JulianDay.antt =====
-- include/swirly/ash/JulianDay.hpp: dates and Julian days. The formulas are those of the source, with
-- the terms that are subtracted moved to the end, where the difference is not negative from the year 0
-- on; there the division of C++, which truncates, is the one of natural numbers. A quotient that can be
-- negative is the difference of two that are not.
use swirlyc.Common.{
  ℕ, zero, suc, ◌+◌, ◌-◌, ◌*◌, ◌/◌, ◌%◌, ◌==◌, Bool, true, false, not, if◌then◌else◌,
}
use swirlyc.Domain.{Jday, Millis}
pub mod Calendar
pub mod Signed

abbrev pub IsoDate : Type 0
IsoDate = ℕ

-- `ymdToIso` and `ymdToJd` take months from 0; here the month is `mon + 1`.
unfoldable pub ymd_to_iso : ℕ → ℕ → ℕ → IsoDate
ymd_to_iso year month mday = year * 10000 + month * 100 + mday

-- `(j - 14) / 12` is ahead - back.
abbrev pub ahead : ℕ → ℕ
ahead j = (j - 14) / 12

abbrev pub back : ℕ → ℕ
back j = (14 - j) / 12

unfoldable pub ymd_to_jd : ℕ → ℕ → ℕ → Jday
ymd_to_jd i j k =
    k
    + 1461 * (i + 4800 + ahead j - back j) / 4
    + 367 * (j + back j * 12 - 2 - ahead j * 12) / 12
    - 32075
    - 3 * ((i + 4900 + ahead j - back j) / 100) / 4

unfoldable pub iso_to_jd : IsoDate → Jday
unfolding ymd_to_jd
iso_to_jd iso = ymd_to_jd (iso / 10000) (iso / 100 % 100) (iso % 100)

unfoldable pub jd_to_iso : Jday → IsoDate
jd_to_iso jd =
    let l = jd + 68569 in
    let n = 4 * l / 146097 in
    let l' = l - (146097 * n + 3) / 4 in
    let i = 4000 * (l' + 1) / 1461001 in
    let l'' = l' + 31 - 1461 * i / 4 in
    let j = 80 * l'' / 2447 in
    let k = l'' - 2447 * j / 80 in
    let m = j / 11 in (100 * n + i + m - 4900) * 10000 + (j + 2 - 12 * m) * 100 + k

-- From the respective epoch on.
unfoldable pub jd_to_mjd : Jday → Jday
jd_to_mjd jd = jd - 2400000

unfoldable pub mjd_to_jd : Jday → Jday
mjd_to_jd mjd = mjd + 2400000

unfoldable pub jd_to_tjd : Jday → Jday
jd_to_tjd jd = jd - 2440000

unfoldable pub tjd_to_jd : Jday → Jday
tjd_to_jd tjd = tjd + 2440000

-- From 1970 on.
unfoldable pub jd_to_ms : Jday → Millis
jd_to_ms jd = (jd - 2440588) * 86400000 + 43200000

unfoldable pub maybe_jd_to_iso : Jday → IsoDate
unfolding jd_to_iso
maybe_jd_to_iso jd = if not (jd == 0) then jd_to_iso jd else 0

unfoldable pub maybe_iso_to_jd : IsoDate → Jday
unfolding iso_to_jd
maybe_iso_to_jd iso = if not (iso == 0) then iso_to_jd iso else 0
