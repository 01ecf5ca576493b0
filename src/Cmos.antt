-- ===== src/Cmos.antt =====
-- kernel/dev/cmos.cpp: the real-time clock. The register accesses are arguments: what `read` returned.
pub mod Time
pub mod Calendar
pub mod Irq
pub mod Load
mod Tests
use xivix.Base.{
  ℕ, ◌+◌, ◌-◌, ◌*◌, ◌/◌, ◌%◌, ◌^◌, bit_and, Bool, not, ◌&&◌, ltb, leb, ◌==◌, if◌then◌else◌, has,
}
use xivix.Base.Word.{u8, u16, u32}

-- The fields of `class CMOS` that the program reads as the time.
pub record Clock : Type 0 where
  pub itimer : ℕ  -- uint32_t
  pub timer : ℕ  -- uint32_t
  pub hour : ℕ
  pub minute : ℕ
  pub second : ℕ
  pub weekday : ℕ
  pub monthday : ℕ
  pub month : ℕ
  pub year : ℕ  -- uint16_t

-- `days_in_month` of `add_second`. The shift is by at most 12 on a month of the calendar.
pub days_in_month : ℕ → ℕ → ℕ
days_in_month month year =
    let month_flag = u32 (2 ^ month) in
    let days = 30 + bit_and 0b1010110101010 month_flag in
    let leap = if bit_and year 3 == 0 then 1 else 0 in
    let leap' = if year % 100 == 0 && not (has (year / 100) 3) then 0 else leap in
    if month == 2 then days - (2 - leap') else days

-- The part of `add_second` behind `hour = 0`.
pub next_day : Clock → Clock
next_day c =
    let weekday = u8 (c.weekday + 1) in
    let monthday = u8 (c.monthday + 1) in
    let month = u8 (c.month + 1) in
    let c' = record c { weekday = if ltb 7 weekday then 1 else weekday; monthday = monthday } in
    if leb monthday (days_in_month c.month c.year)
    then c'
    else if leb month 12
    then record c' { monthday = 1; month = month }
    else record c' { monthday = 1; month = 1; year = u16 (c.year + 1) }

pub add_second : Clock → Clock
add_second c =
    let second = u8 (c.second + 1) in
    let minute = u8 (c.minute + 1) in
    let hour = u8 (c.hour + 1) in
    if ltb second 60
    then record c { second = second }
    else if ltb minute 60
    then record c { second = 0; minute = minute }
    else if ltb hour 24
    then record c { second = 0; minute = 0; hour = hour }
    else next_day (record c { second = 0; minute = 0; hour = 0 })

-- `irq` at a periodic interrupt.
pub count_period : Clock → Clock
count_period c =
    let ticks = u32 (c.itimer + 1) in record c { itimer = if leb 0x400 ticks then 0 else ticks }

-- `irq` at an update interrupt.
pub count_second : Clock → Clock
count_second c = add_second (record c { timer = u32 (c.timer + 1) })

-- `irq`, by the value of status register C.
pub irq : ℕ → Clock → Clock
irq status c =
    let c' = if has status 0x40 then count_period c else c in
    if has status 0x10 then count_second c' else c'

-- `BCD_TO_BIN`
pub from_bcd : ℕ → ℕ
from_bcd a = bit_and a 0xf + a / 2 ^ 4 * 10

-- The registers as `init` reads them.
pub record Registers : Type 0 where
  pub second : ℕ
  pub minute : ℕ
  pub hour : ℕ
  pub weekday : ℕ
  pub monthday : ℕ
  pub month : ℕ
  pub year : ℕ
  pub century : ℕ

-- The hour of a clock in 12-hour mode, by status register B: the top bit says PM.
pub adjust_hour : ℕ → ℕ → ℕ
adjust_hour b_reg hour =
    if not (has b_reg 0x02) && has hour 0x80
    then u8 (bit_and hour 0x7f + (if has b_reg 0x04 then 12 else 0x12))
    else hour

-- `init`, from the first read of the time on.
pub load_time : ℕ → Registers → Clock → Clock
load_time b_reg r c =
    let bin = λ (a : ℕ). if has b_reg 0x04 then a else from_bcd a in
    let century = u16 (bin r.century) in
    let century' = if century == 0 then 20 else century in
    record c {
      second = u8 (bin r.second);
      minute = u8 (bin r.minute);
      hour = u8 (bin (adjust_hour b_reg r.hour));
      weekday = r.weekday;
      monthday = u8 (bin r.monthday);
      month = u8 (bin r.month);
      year = u16 (century' * 100 + u16 (bin r.year));
    }
