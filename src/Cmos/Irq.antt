-- ===== src/Cmos/Irq.antt =====
-- kernel/dev/cmos.cpp, `irq`: the periodic and the update interrupts.
use xivix.Base.{ℕ, ◌+◌, ◌%◌, ◌<◌, ◌≡◌, refl, arith, List, [], ◌∷◌, if◌then◌else◌, has}
use xivix.Base.Word.{u32}
use xivix.Cmos.{Clock, next_day, add_second, count_period, count_second, irq}
use xivix.Cmos.Time.{IsTime, second_of_day, add_second-IsTime}

-- The clock after the interrupts, each with its status.
pub run_irqs : List ℕ → Clock → Clock
run_irqs [] c = c
run_irqs (s ∷ ss) c = run_irqs ss (irq s c)

abbrev periodic : ℕ → ℕ
periodic s = if has s 0x40 then 1 else 0

abbrev update : ℕ → ℕ
update s = if has s 0x10 then 1 else 0

pub periods : List ℕ → ℕ
periods [] = 0
periods (s ∷ ss) = periodic s + periods ss

pub updates : List ℕ → ℕ
updates [] = 0
updates (s ∷ ss) = update s + updates ss

-- What the interrupts have counted between two states of the clock.
pub record Counted (ss : List ℕ) (c d : Clock) : Type 0 where
  pub time : IsTime d
  pub in_range : d.itimer < 0x400
  pub fractions : d.itimer ≡ (c.itimer + periods ss) % 0x400
  pub seconds : u32 d.timer ≡ u32 (c.timer + updates ss)
  pub of_day : second_of_day d ≡ (second_of_day c + updates ss) % 86400

next_day_counters : (c : Clock) → ((next_day c).itimer ≡ c.itimer) × ((next_day c).timer ≡ c.timer)
unfolding next_day
next_day_counters c = ground arith

add_second_counters :
    (c : Clock) → ((add_second c).itimer ≡ c.itimer) × ((add_second c).timer ≡ c.timer)
unfolding add_second
add_second_counters c =
    ground (arith, next_day_counters (record c { second = 0; minute = 0; hour = 0 }))

count_period_lem :
    (c : Clock)
    → c.itimer < 0x400
    → ((count_period c).itimer ≡ (c.itimer + 1) % 0x400)
      × ((count_period c).timer ≡ c.timer)
      × (second_of_day (count_period c) ≡ second_of_day c)
      × (IsTime c → IsTime (count_period c))
unfolding count_period
count_period_lem c h = (ground arith, refl, refl, λ v. ground arith)

count_second_lem :
    (c : Clock)
    → IsTime c
    → ((count_second c).itimer ≡ c.itimer)
      × ((count_second c).timer ≡ u32 (c.timer + 1))
      × (second_of_day (count_second c) ≡ (second_of_day c + 1) % 86400)
      × IsTime (count_second c)
unfolding count_second
count_second_lem c v =
    let c' = record c { timer = u32 (c.timer + 1) } in
    let v' : IsTime c' = ground arith in
    let (time, day) = add_second-IsTime c' v' in
    let (fractions, seconds) = add_second_counters c' in (fractions, seconds, day, time)

-- One interrupt counts a fraction of a second if it is periodic, and a second if it ends an update.
irq-Counted : (s : ℕ) (c : Clock) → IsTime c → c.itimer < 0x400 → Counted (s ∷ []) c (irq s c)
unfolding irq periods updates
irq-Counted s c v h =
    ground (arith, count_period_lem c, count_second_lem c, count_second_lem (count_period c))

-- Over any interrupts: `itimer` counts the periodic ones modulo 1024, `timer` the updates modulo
-- 2 ^ 32, and the time of day goes on by one second for each update.
pub run_irqs-Counted :
    (ss : List ℕ) (c : Clock) → IsTime c → c.itimer < 0x400 → Counted ss c (run_irqs ss c)
unfolding run_irqs periods updates
run_irqs-Counted [] c v h = ground arith
run_irqs-Counted (s ∷ ss) c v h =
    let one = irq-Counted s c v h in
    let rest = run_irqs-Counted ss (irq s c) one.time one.in_range in
    record {
      time = rest.time;
      in_range = rest.in_range;
      fractions = omega (arith, one.fractions, rest.fractions);
      seconds = omega (arith, one.seconds, rest.seconds);
      of_day = omega (arith, one.of_day, rest.of_day);
    }
