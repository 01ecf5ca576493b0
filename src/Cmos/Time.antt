-- ===== src/Cmos/Time.antt =====
-- kernel/dev/cmos.cpp, `add_second`: the time of day.
use xivix.Base.{ℕ, ◌+◌, ◌*◌, ◌%◌, ◌<◌, ◌≡◌, ◌≢◌, arith}
use xivix.Cmos.{Clock, next_day, add_second}

pub record IsTime (c : Clock) : Type 0 where
  pub seconds : c.second < 60
  pub minutes : c.minute < 60
  pub hours : c.hour < 24

abbrev pub second_of_day : Clock → ℕ
second_of_day c = c.hour * 3600 + c.minute * 60 + c.second

pub next_day_time :
    (c : Clock)
    → ((next_day c).hour ≡ c.hour)
      × ((next_day c).minute ≡ c.minute)
      × ((next_day c).second ≡ c.second)
unfolding next_day
next_day_time c = ground arith

-- A second later the time of day is valid, and is the next second of the day.
pub add_second-IsTime :
    (c : Clock)
    → IsTime c
    → IsTime (add_second c) × (second_of_day (add_second c) ≡ (second_of_day c + 1) % 86400)
unfolding add_second
add_second-IsTime c v =
    ground (arith, next_day_time (record c { second = 0; minute = 0; hour = 0 }))

abbrev pub SameDate : Clock → Clock → Type 0
SameDate c d =
    (c.weekday ≡ d.weekday) × (c.monthday ≡ d.monthday) × (c.month ≡ d.month) × (c.year ≡ d.year)

-- The date changes at midnight and at no other second.
pub add_second-date :
    (c : Clock)
    → IsTime c
    → (second_of_day c ≢ 86399 → SameDate (add_second c) c)
      × (second_of_day c ≡ 86399
          → add_second c ≡ next_day (record c { second = 0; minute = 0; hour = 0 }))
unfolding add_second
add_second-date c v = (λ h. ground arith, λ h. ground arith)
