-- ===== src/Cmos/Load.antt =====
-- kernel/dev/cmos.cpp, `init`: the time from the registers, in each of the four modes of the chip.
use xivix.Base.{
  ℕ, ◌+◌, ◌*◌, ◌/◌, ◌%◌, ◌^◌, ◌≤◌, ◌<◌, ◌≡◌, refl, arith, Bool, true, false, not, ◌&&◌,
  if◌then◌else◌, bit_and, has, Bool-cases, inl, inr, ltb, ◌==◌,
}
use xivix.Base.Word.{u8}
use xivix.Base.Bits.{bit_and_mask}
use xivix.Base.Table.{holds_below, holds_below_lem}
use xivix.Cmos.{Clock, Registers, from_bcd, adjust_hour, load_time}

-- A number below 100 in binary coded decimal.
abbrev pub to_bcd : ℕ → ℕ
to_bcd n = n / 10 * 16 + n % 10

pub from_bcd-to_bcd : (n : ℕ) → from_bcd (to_bcd n) ≡ n
unfolding from_bcd
from_bcd-to_bcd n = omega (arith, bit_and_mask 4 (to_bcd n))

-- How the chip shows a number below 100, by status register B.
abbrev pub shown : ℕ → ℕ → ℕ
shown b n = if has b 0x04 then n else to_bcd n

-- How the chip shows an hour: in 12-hour mode 12 stands for 0, and the top bit for the afternoon.
abbrev pub twelve : ℕ → ℕ
twelve h = if h % 12 == 0 then 12 else h % 12

abbrev pub shown_hour : ℕ → ℕ → ℕ
shown_hour b h =
    if has b 0x02
    then shown b h
    else (if ltb h 12 then shown b (twelve h) else 0x80 + shown b (twelve h))

-- The registers at a time, with the years of the century.
pub registers : ℕ → Clock → Registers
registers b c = record {
  second = shown b c.second;
  minute = shown b c.minute;
  hour = shown_hour b c.hour;
  weekday = c.weekday;
  monthday = shown b c.monthday;
  month = shown b c.month;
  year = shown b (c.year % 100);
  century = shown b (c.year / 100);
}

-- A time that the chip can show.
pub record IsShown (c : Clock) : Type 0 where
  pub second : c.second < 60
  pub minute : c.minute < 60
  pub hour : c.hour < 24
  pub monthday : c.monthday < 32
  pub month : c.month < 13
  pub from_century : 100 ≤ c.year
  pub to_century : c.year < 10000

read_shown : (b n : ℕ) → (if has b 0x04 then shown b n else from_bcd (shown b n)) ≡ n
read_shown b n = elim (Bool-cases (has b 0x04)) [
  | inl bin ↦ rw bin
  | inr bcd ↦ rw bcd (from_bcd-to_bcd n)
]

-- The same by the two modes, to be run at every hour: 24-hour mode, and binary numbers.
show_by : Bool → Bool → ℕ → ℕ
show_by full bin h =
    let put = λ (n : ℕ). if bin then n else to_bcd n in
    if full then put h else (if ltb h 12 then put (twelve h) else 0x80 + put (twelve h))

read_by : Bool → Bool → ℕ → ℕ
read_by full bin r =
    let adjusted =
      if not full && has r 0x80 then u8 (bit_and r 0x7f + (if bin then 12 else 0x12)) else r in
    if bin then adjusted else bit_and adjusted 0xf + adjusted / 2 ^ 4 * 10

-- The hour that the code reads.
abbrev pub hour_read : Bool → ℕ → ℕ
hour_read full h = if full then h else (if h == 0 then 12 else (if h == 12 then 24 else h))

read_by-show_by :
    (full bin : Bool) (h : ℕ) → h < 24 → read_by full bin (show_by full bin h) ≡ hour_read full h
unfolding read_by show_by holds_below
read_by-show_by true true h lt =
    holds_below_lem 24 (λ h. read_by true true (show_by true true h)) (hour_read true) refl h lt
read_by-show_by true false h lt =
    holds_below_lem 24 (λ h. read_by true false (show_by true false h)) (hour_read true) refl h lt
read_by-show_by false true h lt =
    holds_below_lem 24 (λ h. read_by false true (show_by false true h)) (hour_read false) refl h lt
read_by-show_by false false h lt =
    holds_below_lem 24 (λ h. read_by false false (show_by false false h)) (hour_read false) refl h
      lt

read_hour :
    (b h : ℕ)
    → h < 24
    → (if has b 0x04
        then adjust_hour b (shown_hour b h)
        else from_bcd (adjust_hour b (shown_hour b h)))
      ≡ hour_read (has b 0x02) h
unfolding adjust_hour from_bcd read_by show_by
read_hour b h lt = read_by-show_by (has b 0x02) (has b 0x04) h lt

-- In all four modes `init` reads the time that the chip shows, but for the hour in 12-hour mode: the
-- first hour of the day is read as 12, and the first of the afternoon as 24.
pub load_time-registers :
    (b : ℕ) (c : Clock)
    → IsShown c
    → load_time b (registers b c) c ≡ record c { hour = hour_read (has b 0x02) c.hour }
unfolding load_time registers
load_time-registers b c v =
    rw
      (
        read_hour b c.hour v.hour,
        read_shown b c.second,
        read_shown b c.minute,
        read_shown b c.monthday,
        read_shown b c.month,
        read_shown b (c.year / 100),
        read_shown b (c.year % 100),
      )
      (ground arith)
