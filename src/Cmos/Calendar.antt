-- ===== src/Cmos/Calendar.antt =====
-- kernel/dev/cmos.cpp, `add_second`: the date, against the Gregorian calendar.
use xivix.Base.{
  ℕ, zero, suc, ◌+◌, ◌/◌, ◌%◌, ◌^◌, ◌≤◌, ◌<◌, ◌≡◌, ◌≢◌, ◌⊎◌, refl, arith, [], ◌∷◌, Bool, not, ◌&&◌,
  ◌||◌, if◌then◌else◌, ◌==◌, ltb, get_or, inl, inr,
}
use native.Mathlib.Nat.{pow-le-pow_right}
use xivix.Base.{ap}
use xivix.Base.Bits.{bit_and_mask}
use xivix.Cmos.{Clock, days_in_month, next_day, add_second}

unfoldable pub is_leap : ℕ → Bool
is_leap year = (year % 4 == 0 && not (year % 100 == 0)) || year % 400 == 0

unfoldable pub month_length : ℕ → ℕ → ℕ
unfolding is_leap
month_length month year =
    if month == 2
    then (if is_leap year then 29 else 28)
    else get_or (0 ∷ 31 ∷ 0 ∷ 31 ∷ 30 ∷ 31 ∷ 30 ∷ 31 ∷ 31 ∷ 30 ∷ 31 ∷ 30 ∷ 31 ∷ []) month 0

-- The months for which the code finds the length of the calendar: those of 30 days, and February
-- outside the century years.
abbrev pub IsShort : ℕ → ℕ → Type 0
IsShort month year =
    (month ≡ 4) ⊎ (month ≡ 6) ⊎ (month ≡ 9) ⊎ (month ≡ 11) ⊎ ((month ≡ 2) × (year % 100 ≢ 0))

abbrev pub IsLong : ℕ → Type 0
IsLong month =
    (month ≡ 1)
    ⊎ (month ≡ 3)
    ⊎ (month ≡ 5)
    ⊎ (month ≡ 7)
    ⊎ (month ≡ 8)
    ⊎ (month ≡ 10)
    ⊎ (month ≡ 12)

february : (year : ℕ) → year % 100 ≢ 0 → days_in_month 2 year ≡ month_length 2 year
unfolding days_in_month month_length
february year h = ground (arith, bit_and_mask 2 year)

pub days_in_month-short :
    (month year : ℕ) → IsShort month year → days_in_month month year ≡ month_length month year
unfolding days_in_month month_length
days_in_month-short month year (inl e) = rw e
days_in_month-short month year (inr (inl e)) = rw e
days_in_month-short month year (inr (inr (inl e))) = rw e
days_in_month-short month year (inr (inr (inr (inl e)))) = rw e
days_in_month-short month year (inr (inr (inr (inr (e, h))))) = rw e (february year h)

pub days_in_month-long : (month year : ℕ) → IsLong month → days_in_month month year ≡ 30 + 2 ^ month
unfolding days_in_month
days_in_month-long month year (inl e) = rw e
days_in_month-long month year (inr (inl e)) = rw e
days_in_month-long month year (inr (inr (inl e))) = rw e
days_in_month-long month year (inr (inr (inr (inl e)))) = rw e
days_in_month-long month year (inr (inr (inr (inr (inl e))))) = rw e
days_in_month-long month year (inr (inr (inr (inr (inr (inl e)))))) = rw e
days_in_month-long month year (inr (inr (inr (inr (inr (inr e)))))) = rw e

-- In a century year the code gives February a day too many or too few.
pub days_in_february : (year : ℕ) → year % 100 ≡ 0 → days_in_month 2 year + month_length 2 year ≡ 57
unfolding days_in_month month_length
days_in_february year h = ground (arith, bit_and_mask 2 year, bit_and_mask 2 (year / 100))

-- The day after a date of the calendar.
pub record Date : Type 0 where
  pub day : ℕ
  pub month : ℕ
  pub year : ℕ

abbrev pub date : Clock → Date
date c = record { day = c.monthday; month = c.month; year = c.year }

unfoldable pub tomorrow : Date → Date
tomorrow d =
    if ltb d.day (month_length d.month d.year)
    then record d { day = d.day + 1 }
    else if ltb d.month 12
    then record d { day = 1; month = d.month + 1 }
    else record { day = 1; month = 1; year = d.year + 1 }

pub record IsDate (d : Date) : Type 0 where
  pub from_first : 0 < d.day
  pub to_last : d.day ≤ month_length d.month d.year

month-short : (month year : ℕ) → IsShort month year → month < 12
month-short month year h = omega arith

month_length-le : (month year : ℕ) → IsShort month year → month_length month year < 32
unfolding month_length
month_length-le month year (inl e) = rw e (omega arith)
month_length-le month year (inr (inl e)) = rw e (omega arith)
month_length-le month year (inr (inr (inl e))) = rw e (omega arith)
month_length-le month year (inr (inr (inr (inl e)))) = rw e (omega arith)
month_length-le month year (inr (inr (inr (inr (e, h))))) = rw e (ground arith)

two-le-pow : (n : ℕ) → 1 ≤ n → 2 ≤ 2 ^ n
two-le-pow n h = pow-le-pow_right {n = 2} (omega arith) h

-- At the end of a day in a month of 30 days, or in a February that is not of a century year, the date
-- becomes the next date of the calendar.
pub next_day-short :
    (c : Clock) → IsShort c.month c.year → IsDate (date c) → date (next_day c) ≡ tomorrow (date c)
unfolding next_day tomorrow
next_day-short c h v = ground (
  arith,
  days_in_month-short c.month c.year h,
  month_length-le c.month c.year h,
  month-short c.month c.year h,
)

-- At the end of the 31st day of a month of 31 days the clock does not start the next month: it shows
-- day 32 of the same month.
pub next_day-long :
    (c : Clock)
    → IsLong c.month
    → c.monthday ≡ 31
    → date (next_day c) ≡ record { day = 32; month = c.month; year = c.year }
unfolding next_day
next_day-long c h last =
    ground (arith, days_in_month-long c.month c.year h, two-le-pow c.month (omega arith))

-- The clock after `n` seconds.
pub run : ℕ → Clock → Clock
run zero c = c
run (suc n) c = run n (add_second c)

december-next_day :
    (c : Clock) → c.month ≡ 12 → ((next_day c).month ≡ 12) × ((next_day c).year ≡ c.year)
unfolding next_day
december-next_day c e = ground (
  arith,
  days_in_month-long c.month c.year (inr (inr (inr (inr (inr (inr e)))))),
  ap (λ (m : ℕ). 2 ^ m) e,
)

december-add_second :
    (c : Clock) → c.month ≡ 12 → ((add_second c).month ≡ 12) × ((add_second c).year ≡ c.year)
unfolding add_second
december-add_second c e =
    ground (arith, december-next_day (record c { second = 0; minute = 0; hour = 0 }))

-- A clock that has reached December stays there: no number of seconds starts the next year.
pub december_never_ends :
    (n : ℕ) (c : Clock) → c.month ≡ 12 → ((run n c).month ≡ 12) × ((run n c).year ≡ c.year)
unfolding run
december_never_ends zero c e = (e, refl)
december_never_ends (suc n) c e =
    ground (arith, december-add_second c, december_never_ends n (add_second c))
