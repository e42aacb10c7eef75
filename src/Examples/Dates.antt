-- ===== src/Examples/Dates.antt =====
-- The theorems on dates, numbers and sets of entities at concrete ones.
use swirlyc.Common.{suc, ◌≡◌, arith, [], ◌∷◌}
use swirlyc.Text.{codes}
use swirlyc.Text.Number.{stou64}
use swirlyc.Text.Number.Decimal.{print, stou64-print}
use swirlyc.Exception.{ok}
use swirlyc.JulianDay.{ymd_to_iso, ymd_to_jd, iso_to_jd, jd_to_iso}
use swirlyc.JulianDay.Calendar.{IsDate, jd_to_iso-iso_to_jd, ymd_to_jd-tomorrow, day_number}
use swirlyc.Bits.{or}
use swirlyc.EntitySet.{parse, asset_bit, view_bit}
use swirlyc.EntitySet.Pops.{pops, pops-singles}
use swirlyc.EntitySet.Parse.{Entity, parse-join}
use swirlyc.RestRequest
use swirlyc.RestRequest.{RestRequest, valid}

leap_day : IsDate 2016 2 29
leap_day = record {
  month_least = omega arith;
  month_most = omega arith;
  day_least = omega arith;
  day_most = omega arith;
}

jd_to_iso-iso_to_jd_example : jd_to_iso (iso_to_jd (ymd_to_iso 2016 2 29)) ≡ ymd_to_iso 2016 2 29
jd_to_iso-iso_to_jd_example = jd_to_iso-iso_to_jd 2016 2 29 leap_day

ymd_to_jd-tomorrow_example : day_number (2016, 3, 1) ≡ suc (ymd_to_jd 2016 2 29)
ymd_to_jd-tomorrow_example = ymd_to_jd-tomorrow 2016 2 29 leap_day

pops-singles_example : pops 2 (or asset_bit view_bit) ≡ asset_bit ∷ view_bit ∷ []
pops-singles_example = pops-singles 2 (or asset_bit view_bit) (omega arith)

parse-join_example : parse (codes "asset,view") ≡ ok (or asset_bit view_bit)
parse-join_example = parse-join (Entity.asset ∷ Entity.view ∷ [])

stou64-print_example : stou64 (print 18446744073709551617) ≡ 1
stou64-print_example = stou64-print 18446744073709551617

abbrev trader_fields : RestRequest
trader_fields = record RestRequest.reset {
  fields = or RestRequest.mnem_bit RestRequest.display_bit;
}
