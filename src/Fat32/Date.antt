-- ===== src/Fat32/Date.antt =====
-- fat32_datetime_to_unix, and the calendar.

pub mod Days
use experiment.Base.{
  ℕ, zero, suc, ◌+◌, ◌-◌, ◌*◌, ◌/◌, ◌%◌, ◌^◌, ◌≤◌, ◌<◌, ◌≡◌, refl, ap, ◌∙◌, Bool, true, false, ◌&&◌,
  ◌||◌, not, Option, none, some, List, [], ◌∷◌, arith, Bool-cases, inl, inr, ltb, leb, ◌==◌,
  if◌then◌else◌, ◌>>=◌, holds_under, holds_under_lem,
}

unfoldable pub is_leap : (year : ℕ) → Bool
is_leap y = y % 4 == 0 && (not (y % 100 == 0) || y % 400 == 0)

-- The days of the `n` years from `y` on.
pub year_days : (n y : ℕ) → ℕ
unfolding is_leap
year_days zero y = 0
year_days (suc n) y = (if is_leap y then 366 else 365) + year_days n (suc y)

-- The table of the function; `none` is a read behind its end.
abbrev pub month_days : List ℕ
month_days = 0 ∷ 31 ∷ 28 ∷ 31 ∷ 30 ∷ 31 ∷ 30 ∷ 31 ∷ 31 ∷ 30 ∷ 31 ∷ 30 ∷ 31 ∷ []

abbrev pub lookup : List ℕ → ℕ → Option ℕ
lookup [] i = none
lookup (x ∷ xs) zero = some x
lookup (x ∷ xs) (suc i) = lookup xs i

-- The days of the `n` months from `m` on.
pub months_days : (leap : Bool) → (n m : ℕ) → Option ℕ
months_days leap zero m = some 0
months_days leap (suc n) m = do
  days ← lookup month_days m
  rest ← months_days leap n (suc m)
  some (days + (if m == 2 && leap then 1 else 0) + rest)

-- `days` before it is multiplied; a day 0 counts back.
pub date_days : (year month day : ℕ) → Option ℕ
unfolding is_leap year_days months_days
date_days year month day = do
  months ← months_days (is_leap year) (month - 1) 1
  some ((year_days (year - 1970) 1970 + months + day + 2 ^ 32 - 1) % 2 ^ 32)

unfoldable pub fat32_datetime_to_unix : (date time : ℕ) → Option ℕ
unfolding date_days
fat32_datetime_to_unix date time =
    let day = date % 2 ^ 5 in
    let month = date / 2 ^ 5 % 2 ^ 4 in
    let year = date / 2 ^ 9 % 2 ^ 7 + 1980 in
    let seconds = time % 2 ^ 5 * 2 in
    let minutes = time / 2 ^ 5 % 2 ^ 6 in
    let hours = time / 2 ^ 11 % 2 ^ 5 in
    do
      days ← date_days year month day
      some ((days * 86400 + hours * 3600 + minutes * 60 + seconds) % 2 ^ 32)

-- The calendar.
pub record Date : Type 0 where
  pub year : ℕ
  pub month : ℕ
  pub day : ℕ

abbrev pub month_length : (leap : Bool) → (month : ℕ) → ℕ
month_length leap m =
    if m == 2
    then if leap then 29 else 28
    else if m == 4 || m == 6 || m == 9 || m == 11
    then 30
    else 31

-- Every fourth year, but of the whole centuries only every fourth.
unfoldable pub leap_year : (year : ℕ) → Bool
leap_year y = if y % 100 == 0 then y % 400 == 0 else y % 4 == 0

-- The dates that a directory entry can hold.
pub record IsDate (d : Date) : Type 0 where
  pub since : 1980 ≤ d.year
  pub until : d.year ≤ 2107
  pub from_first_month : 1 ≤ d.month
  pub to_last_month : d.month ≤ 12
  pub from_first_day : 1 ≤ d.day
  pub to_last_day : d.day ≤ month_length (leap_year d.year) d.month

pub next_day : Date → Date
next_day d =
    if ltb d.day (month_length (leap_year d.year) d.month)
    then record d { day = suc d.day }
    else if ltb d.month 12
    then record d { month = suc d.month; day = 1 }
    else record { year = suc d.year; month = 1; day = 1 }

-- The 16 bits of a directory entry.
pub date_word : Date → ℕ
date_word d = (d.year - 1980) * 2 ^ 9 + d.month * 2 ^ 5 + d.day
