-- ===== src/Fat32/Date/Days.antt =====
-- fat32_datetime_to_unix counts the days of the calendar.
use experiment.Base.{
  ℕ, zero, suc, ◌+◌, ◌-◌, ◌*◌, ◌/◌, ◌%◌, ◌^◌, ◌≤◌, ◌<◌, ◌≡◌, refl, ap, sym, subst, ◌∙◌, Bool, true,
  false, Option, none, some, arith, Bool-cases, inl, inr, ltb, ◌==◌, ==_iff, if◌then◌else◌, tests,
  holds_under, holds_under_lem,
}
use experiment.Fat32.Date.{
  is_leap, year_days, months_days, date_days, fat32_datetime_to_unix, Date, month_length, IsDate,
  next_day, date_word, leap_year,
}

abbrev year_length : ℕ → ℕ
year_length y = if is_leap y then 366 else 365

year_days-snoc : (n y : ℕ) → year_days (suc n) y ≡ year_days n y + year_length (y + n)
unfolding year_days
year_days-snoc zero y =
    let e : year_length (y + 0) ≡ year_length y =
      ap year_length {x = y + 0} {y = y} (omega arith) in
    omega (arith, e)
year_days-snoc (suc n) y =
    let e : year_length (y + suc n) ≡ year_length (suc y + n) =
      ap year_length {x = y + suc n} {y = suc y + n} (omega arith) in
    omega (arith, e, year_days-snoc n (suc y))

abbrev steps_by : ℕ → Option ℕ → Option ℕ → Bool
steps_by n none b = false
steps_by n (some x) none = false
steps_by n (some x) (some y) = y == x + n

steps_by-some :
    (n : ℕ) (a b : Option ℕ) → steps_by n a b ≡ true → (x : ℕ) × (a ≡ some x) × (b ≡ some (x + n))
steps_by-some n none b h = absurd (ground arith)
steps_by-some n (some x) none h = absurd (ground arith)
steps_by-some n (some x) (some y) h = (x, refl, ap some ((==_iff y (x + n)).0 h))

-- By evaluation: the days before each month.
abbrev month_test : Bool → ℕ → Bool
month_test leap k =
    steps_by (month_length leap (suc k)) (months_days leap k 1) (months_days leap (suc k) 1)

months-checked : (leap : Bool) → holds_under (month_test leap) 12 ≡ true
unfolding months_days holds_under
months-checked true = refl
months-checked false = refl

month_step :
    (leap : Bool) (k : ℕ)
    → k < 12
    → (b : ℕ) × (months_days leap k 1 ≡ some b)
      × (months_days leap (suc k) 1 ≡ some (b + month_length leap (suc k)))
month_step leap k small =
    steps_by-some (month_length leap (suc k)) (months_days leap k 1) (months_days leap (suc k) 1)
      (holds_under_lem (month_test leap) k {bound = 12} small (months-checked leap))

whole_year : (leap : Bool) → months_days leap 12 1 ≡ some (if leap then 366 else 365)
unfolding months_days
whole_year true = refl
whole_year false = refl

no_months : (leap : Bool) → months_days leap 0 1 ≡ some 0
unfolding months_days
no_months leap = refl

some_number : {a b : ℕ} → some a ≡ some b → a ≡ b
some_number h = ground arith

date_days-at :
    (y m day months : ℕ)
    → months_days (is_leap y) (m - 1) 1 ≡ some months
    → date_days y m day ≡ some ((year_days (y - 1970) 1970 + months + day + 2 ^ 32 - 1) % 2 ^ 32)
unfolding date_days
date_days-at y m day months h = rw h refl

-- The test of the code is that of the calendar.
leap_year-is_leap : (y : ℕ) → leap_year y ≡ is_leap y
unfolding leap_year is_leap
leap_year-is_leap y = ground arith

-- The day number of a date, and of the day behind it.
date_days-next_day :
    (d : Date)
    → IsDate d
    → (k : ℕ) × (date_days d.year d.month d.day ≡ some (k % 2 ^ 32))
      × (let e = next_day d in date_days e.year e.month e.day ≡ some ((k + 1) % 2 ^ 32))
unfolding next_day
date_days-next_day d is =
    let leap = is_leap d.year in
    let last_day : d.day ≤ month_length leap d.month =
      subst (λ (b : Bool). d.day ≤ month_length b d.month) (leap_year-is_leap d.year)
        is.to_last_day in
    let month =
      month_step leap (d.month - 1) (omega (arith, is.to_last_month, is.from_first_month)) in
    let suc_month : suc (d.month - 1) ≡ d.month = omega (arith, is.from_first_month) in
    let y0 = year_days (d.year - 1970) 1970 in
    let here = date_days-at d.year d.month d.day month.0 month.1 in
    rw (leap_year-is_leap d.year) (elim (Bool-cases (ltb d.day (month_length leap d.month))) [
      | inl within ↦ rw within (
        y0 + month.0 + d.day + 2 ^ 32 - 1,
        here,
        date_days-at d.year d.month (suc d.day) month.0 month.1 ∙ ap some (omega arith),
      )
      | inr last ↦
          let full : d.day ≡ month_length leap d.month = omega (tests, last, last_day) in
          elim (Bool-cases (ltb d.month 12)) [
            | inl early ↦
                rw (last, early)
                  (
                    y0 + month.0 + d.day + 2 ^ 32 - 1,
                    here,
                    date_days-at d.year (suc d.month) 1 (month.0 + month_length leap d.month) (
                          ap (λ k. months_days leap k 1) {x = suc d.month - 1}
                            {y = suc (d.month - 1)} (omega arith)
                          ∙ month.2
                          ∙ ap (λ k. some (month.0 + month_length leap k)) suc_month)
                        ∙ ap some (omega (arith, full)),
                  )
            | inr late ↦
                let end : suc (d.month - 1) ≡ 12 =
                  omega (tests, late, is.to_last_month, is.from_first_month) in
                let year =
                  some_number
                    (sym month.2 ∙ ap (λ k. months_days leap k 1) end ∙ whole_year leap) in
                let days =
                  ap (λ k. year_days k 1970) {x = suc d.year - 1970} {y = suc (d.year - 1970)}
                    (omega (arith, is.since))
                  ∙ year_days-snoc (d.year - 1970) 1970
                  ∙ ap (λ k. y0 + year_length k) {x = 1970 + (d.year - 1970)} {y = d.year}
                      (omega (arith, is.since)) in
                let length = ap (month_length leap) suc_month in
                rw (last, late)
                  (
                    y0 + month.0 + d.day + 2 ^ 32 - 1,
                    here,
                    date_days-at (suc d.year) 1 1 0 (no_months (is_leap (suc d.year)))
                        ∙ ap some (omega (arith, full, days, year, length)),
                  )
          ]
    ])

-- A date that fits its bits.
abbrev Encodable : Date → Type 0
Encodable d = (1980 ≤ d.year) × (d.year ≤ 2107) × (d.month ≤ 12) × (d.day ≤ 31)

abbrev seconds_of : ℕ → ℕ
seconds_of time = time / 2 ^ 11 % 2 ^ 5 * 3600 + time / 2 ^ 5 % 2 ^ 6 * 60 + time % 2 ^ 5 * 2

unix-date_word :
    (d : Date) (time k : ℕ)
    → Encodable d
    → date_days d.year d.month d.day ≡ some k
    → fat32_datetime_to_unix (date_word d) time ≡ some ((k * 86400 + seconds_of time) % 2 ^ 32)
unfolding fat32_datetime_to_unix date_word
unix-date_word d time k fits days =
    let w = date_word d in
    let day : ((d.year - 1980) * 2 ^ 9 + d.month * 2 ^ 5 + d.day) % 2 ^ 5 ≡ d.day =
      omega (arith, fits) in
    let month : ((d.year - 1980) * 2 ^ 9 + d.month * 2 ^ 5 + d.day) / 2 ^ 5 % 2 ^ 4 ≡ d.month =
      omega (arith, fits) in
    let year : ((d.year - 1980) * 2 ^ 9 + d.month * 2 ^ 5 + d.day) / 2 ^ 9 % 2 ^ 7 + 1980 ≡ d.year =
      omega (arith, fits) in
    rw (day, month, year, days) (ap some (omega arith))

next_day-Encodable : (d : Date) → IsDate d → d.year < 2107 → Encodable (next_day d)
unfolding next_day
next_day-Encodable d is small = ground (arith, is.since, is.to_last_month, is.to_last_day)

IsDate-Encodable : (d : Date) → IsDate d → Encodable d
IsDate-Encodable d is = ground (arith, is.since, is.until, is.to_last_month, is.to_last_day)

-- For every date from 1980 to 2106 and every time word, fat32_datetime_to_unix answers, it reads its
-- table of months within its bounds, and for the next day of the calendar, at the same time, it
-- answers 86400 seconds more, in 32 bits.
pub fat32_datetime_to_unix-next_day :
    (d : Date) (time : ℕ)
    → IsDate d
    → d.year < 2107
    → (s : ℕ) × (fat32_datetime_to_unix (date_word d) time ≡ some s)
      × (fat32_datetime_to_unix (date_word (next_day d)) time ≡ some ((s + 86400) % 2 ^ 32))
fat32_datetime_to_unix-next_day d time is small =
    let days = date_days-next_day d is in
    let here = unix-date_word d time (days.0 % 2 ^ 32) (IsDate-Encodable d is) days.1 in
    let after =
      unix-date_word (next_day d) time ((days.0 + 1) % 2 ^ 32) (next_day-Encodable d is small)
        days.2 in
    ((days.0 % 2 ^ 32 * 86400 + seconds_of time) % 2 ^ 32, here, after ∙ ap some (omega arith))
