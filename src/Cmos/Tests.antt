-- ===== src/Cmos/Tests.antt =====
-- Runs of kernel/dev/cmos.cpp at concrete times, and its theorems at concrete inputs.
use xivix.Base.{◌≡◌, refl, arith, [], ◌∷◌}
use xivix.Cmos.{Clock, add_second, next_day, days_in_month}
use xivix.Cmos.Time.{IsTime}
use xivix.Cmos.Calendar.{date, run, december_never_ends}
use xivix.Cmos.Irq.{Counted, run_irqs, run_irqs-Counted}

-- The last second of 30 June 2021, and of 31 December 2021.
abbrev june : Clock
june = record {
  itimer = 0x3ff;
  timer = 0;
  hour = 23;
  minute = 59;
  second = 59;
  weekday = 4;
  monthday = 30;
  month = 6;
  year = 2021;
}

abbrev december : Clock
december = record june { monthday = 31; month = 12 }

june-IsTime : IsTime june
june-IsTime = omega arith

next_day-june : date (add_second june) ≡ record { day = 1; month = 7; year = 2021 }
unfolding add_second next_day days_in_month
next_day-june = refl

december_never_ends_example : ((run 90000 december).month ≡ 12) × ((run 90000 december).year ≡ 2021)
december_never_ends_example = december_never_ends 90000 december refl

run_irqs-Counted_example :
    Counted (0xd0 ∷ 0xc0 ∷ 0x90 ∷ []) june (run_irqs (0xd0 ∷ 0xc0 ∷ 0x90 ∷ []) june)
run_irqs-Counted_example = run_irqs-Counted (0xd0 ∷ 0xc0 ∷ 0x90 ∷ []) june june-IsTime (omega arith)
