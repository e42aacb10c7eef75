-- ===== src/JulianDay/Calendar.antt =====
-- include/swirly/ash/JulianDay.hpp: the Julian days count the days of the Gregorian calendar.
use swirlyc.Common.{
  ℕ, suc, ◌+◌, ◌-◌, ◌*◌, ◌/◌, ◌%◌, ◌==◌, ◌≡◌, ◌≢◌, ◌⊎◌, ◌≤◌, arith, Bool, false, not, ◌&&◌, ◌||◌,
  if◌then◌else◌, ltb, sym, ap, ap₂, Bool-cases, subst, inl, inr, ◌∙◌,
}
use swirlyc.JulianDay.{ymd_to_iso, ymd_to_jd, iso_to_jd, jd_to_iso}

abbrev is_leap : ℕ → Bool
is_leap y = (y % 4 == 0) && (not (y % 100 == 0) || (y % 400 == 0))

abbrev pub month_length : ℕ → ℕ → ℕ
month_length y m =
    if m == 2
    then (if is_leap y then 29 else 28)
    else if (m == 4) || (m == 6) || (m == 9) || (m == 11)
    then 30
    else 31

-- A month of a year, and a day of it.
pub record IsDate (y m k : ℕ) : Type 0 where
  pub month_least : 1 ≤ m
  pub month_most : m ≤ 12
  pub day_least : 1 ≤ k
  pub day_most : k ≤ month_length y m

-- One month, for the arithmetic to be decided month by month.
abbrev IsTwelfth : ℕ → Type 0
IsTwelfth m =
    (m ≡ 1)
    ⊎ (m ≡ 2)
    ⊎ (m ≡ 3)
    ⊎ (m ≡ 4)
    ⊎ (m ≡ 5)
    ⊎ (m ≡ 6)
    ⊎ (m ≡ 7)
    ⊎ (m ≡ 8)
    ⊎ (m ≡ 9)
    ⊎ (m ≡ 10)
    ⊎ (m ≡ 11)
    ⊎ (m ≡ 12)

twelve : (m : ℕ) → 1 ≤ m → m ≤ 12 → IsTwelfth m
twelve m a b = ground (arith, a, b)

-- From March on the formula's months are the calendar's.
late_length :
    (y m k : ℕ)
    → 3 ≤ m
    → m ≤ 12
    → k ≤ month_length y m
    → k + 367 * (m - 2) / 12 ≤ 367 * (m - 1) / 12
late_length y m k a b le = ground (arith, twelve m (omega (arith, a)) b, a, le)

late :
    (y m k : ℕ)
    → 3 ≤ m
    → m ≤ 12
    → 1 ≤ k
    → k + 367 * (m - 2) / 12 ≤ 367 * (m - 1) / 12
    → jd_to_iso (ymd_to_jd y m k) ≡ y * 10000 + m * 100 + k
unfolding ymd_to_jd jd_to_iso
late y m k a b c d = omega (arith, a, b, c, d)

january : (y k : ℕ) → 1 ≤ k → k ≤ 31 → jd_to_iso (ymd_to_jd y 1 k) ≡ y * 10000 + 100 + k
unfolding ymd_to_jd jd_to_iso
january y k a b = omega (arith, a, b)

february : (y k : ℕ) → 1 ≤ k → k ≤ 28 → jd_to_iso (ymd_to_jd y 2 k) ≡ y * 10000 + 200 + k
unfolding ymd_to_jd jd_to_iso
february y k a b = omega (arith, a, b)

leap_day : (y : ℕ) → y % 4 ≡ 0 → y % 100 ≢ 0 → jd_to_iso (ymd_to_jd y 2 29) ≡ y * 10000 + 229
unfolding ymd_to_jd jd_to_iso
leap_day y a b = omega (arith, a, b)

century_day : (y : ℕ) → y % 400 ≡ 0 → jd_to_iso (ymd_to_jd y 2 29) ≡ y * 10000 + 229
unfolding ymd_to_jd jd_to_iso
century_day y a = omega (arith, a)

leap_cases :
    (y k : ℕ)
    → k ≤ month_length y 2
    → (k ≤ 28) ⊎ (((k ≡ 29) × (y % 4 ≡ 0) × (y % 100 ≢ 0)) ⊎ ((k ≡ 29) × (y % 400 ≡ 0)))
leap_cases y k le = ground (arith, le)

whole_february :
    (y k : ℕ) → 1 ≤ k → k ≤ month_length y 2 → jd_to_iso (ymd_to_jd y 2 k) ≡ y * 10000 + 200 + k
whole_february y k a b = elim (leap_cases y k b) [
  | inl le ↦ february y k a le
  | inr (inl (e, f, n)) ↦ rw e (leap_day y f n ∙ omega arith)
  | inr (inr (e, f)) ↦ rw e (century_day y f ∙ omega arith)
]

month_cases : (m : ℕ) → 1 ≤ m → m ≤ 12 → ((m ≡ 1) ⊎ (m ≡ 2)) ⊎ (3 ≤ m)
month_cases m a b = ground (arith, a, b)

-- The date of the Julian day of a date is this date, for every date from the year 0 on.
pub jd_to_iso-ymd_to_jd :
    (y m k : ℕ) → IsDate y m k → jd_to_iso (ymd_to_jd y m k) ≡ ymd_to_iso y m k
unfolding ymd_to_iso
jd_to_iso-ymd_to_jd y m k d = elim (month_cases m d.month_least d.month_most) [
  | inl (inl e) ↦
      subst (λ n. jd_to_iso (ymd_to_jd y n k) ≡ y * 10000 + n * 100 + k) (sym e)
        (january y k d.day_least (ground (arith, d.day_most, e)))
  | inl (inr e) ↦
      subst (λ n. jd_to_iso (ymd_to_jd y n k) ≡ y * 10000 + n * 100 + k) (sym e)
        (whole_february y k d.day_least (subst (λ n. k ≤ month_length y n) e d.day_most))
  | inr le ↦ late y m k le d.month_most d.day_least (late_length y m k le d.month_most d.day_most)
]

parts :
    (y m k : ℕ)
    → IsDate y m k
    → (ymd_to_iso y m k / 10000 ≡ y)
      × (ymd_to_iso y m k / 100 % 100 ≡ m)
      × (ymd_to_iso y m k % 100 ≡ k)
unfolding ymd_to_iso
parts y m k d =
    let le : k ≤ 31 = ground (arith, d.day_most) in
    (omega (arith, d, le), omega (arith, d, le), omega (arith, d, le))

-- Reading the Julian day of an eight-digit date and writing it again gives the date.
pub jd_to_iso-iso_to_jd :
    (y m k : ℕ) → IsDate y m k → jd_to_iso (iso_to_jd (ymd_to_iso y m k)) ≡ ymd_to_iso y m k
unfolding iso_to_jd
jd_to_iso-iso_to_jd y m k d =
    let (e, f, g) = parts y m k d in rw (iso_to_jd, e, f, g) (jd_to_iso-ymd_to_jd y m k d)

not_below : (a b : ℕ) → ltb a b ≡ false → b ≤ a
not_below a b e = ground (arith, e)

next_day : (y m k : ℕ) → 1 ≤ m → m ≤ 12 → ymd_to_jd y m (suc k) ≡ suc (ymd_to_jd y m k)
unfolding ymd_to_jd
next_day y m k le le' = omega (arith, le, le')

next_month :
    (y m : ℕ) → 1 ≤ m → m ≤ 11 → ymd_to_jd y (suc m) 1 ≡ ymd_to_jd y m (month_length y m) + 1
unfolding ymd_to_jd
next_month y m le le' = ground (arith, twelve m le (omega (arith, le')), le')

next_year : (y : ℕ) → ymd_to_jd (suc y) 1 1 ≡ ymd_to_jd y 12 31 + 1
unfolding ymd_to_jd
next_year y = omega arith

-- The day after a day, by the calendar.
abbrev pub tomorrow : ℕ × ℕ × ℕ → ℕ × ℕ × ℕ
tomorrow (y, m, k) =
    if ltb k (month_length y m)
    then (y, m, suc k)
    else if ltb m 12
    then (y, suc m, 1)
    else (suc y, 1, 1)

abbrev pub day_number : ℕ × ℕ × ℕ → ℕ
day_number (y, m, k) = ymd_to_jd y m k

-- The Julian days count days: the day after a date has the next number.
pub ymd_to_jd-tomorrow :
    (y m k : ℕ) → IsDate y m k → day_number (tomorrow (y, m, k)) ≡ suc (ymd_to_jd y m k)
ymd_to_jd-tomorrow y m k d = elim (Bool-cases (ltb k (month_length y m))) [
  | inl e ↦ rw e (next_day y m k d.month_least d.month_most)
  | inr e ↦
      let last : k ≡ month_length y m = omega (arith, d.day_most, not_below _ _ e) in
      elim (Bool-cases (ltb m 12)) [
        | inl f ↦
            rw (e, f)
              (next_month y m d.month_least (ground (arith, f))
                ∙ ap (λ n. ymd_to_jd y m n + 1) (sym last)
                ∙ omega arith)
        | inr f ↦
            let twelfth : m ≡ 12 = ground (arith, f, d.month_most) in
            let end : k ≡ 31 = last ∙ ap (month_length y) twelfth in
            rw (e, f)
              (next_year y ∙ ap₂ (λ a b. ymd_to_jd y a b + 1) (sym twelfth) (sym end) ∙ omega arith)
      ]
]
