-- ===== src/Net/Timer.antt =====
-- kernel/net/queue.cpp, `Timer` and `runsched`: the tasks of the network layer by the time.
use xivix.Base.{ℕ, zero, suc, ◌+◌, ◌*◌, ◌/◌, ◌≡◌, arith, Bool, if◌then◌else◌, ltb}
use xivix.Base.Word.{u32, sub32}

-- `Timer::expired` of a timer with the next time `next`: the difference, as a signed number, is not
-- negative.
unfoldable pub expired : ℕ → ℕ → Bool
expired now next = ltb (sub32 now next) 0x8000_0000

-- A timer, and how often its task has run.
pub record Timer : Type 0 where
  pub next : ℕ
  pub runs : ℕ

-- One condition of `runsched`: `Timer::expired`, the task and `Timer::add`.
unfoldable pub fire : ℕ → ℕ → Timer → Timer
unfolding expired
fire period now t =
    if expired now t.next then record { next = u32 (t.next + period); runs = t.runs + 1 } else t

-- The timers of the network layer.
pub record Timers : Type 0 where
  pub arp_tc : Timer
  pub net_tc : Timer
  pub dh_tc : Timer

-- `runsched`, at the time `_iv_int_n`.
unfoldable pub runsched : ℕ → Timers → Timers
unfolding fire
runsched now t = record {
  arp_tc = fire 1000 now t.arp_tc;
  net_tc = fire 10000 now t.net_tc;
  dh_tc = fire 100 now t.dh_tc;
}

-- `n` calls of `runsched`, one at each tick from `now` on.
unfoldable pub poll : ℕ → ℕ → Timers → Timers
poll zero now t = t
poll (suc n) now t = runsched (u32 (now + n)) (poll n now t)

-- A timer that has run for the `k`-th time and is due `k` periods after `now`.
abbrev Due : ℕ → ℕ → ℕ → Timer → Type 0
Due now period k t = (t.next ≡ u32 (now + period * k)) × (t.runs ≡ k)

fire-arp :
    (now n : ℕ) (t : Timer)
    → Due now 1000 ((n + 999) / 1000) t
    → Due now 1000 ((suc n + 999) / 1000) (fire 1000 (u32 (now + n)) t)
unfolding fire expired
fire-arp now n t d = ground arith

fire-net :
    (now n : ℕ) (t : Timer)
    → Due now 10000 ((n + 9999) / 10000) t
    → Due now 10000 ((suc n + 9999) / 10000) (fire 10000 (u32 (now + n)) t)
unfolding fire expired
fire-net now n t d = ground arith

fire-dhcp :
    (now n : ℕ) (t : Timer)
    → Due now 100 ((n + 99) / 100) t
    → Due now 100 ((suc n + 99) / 100) (fire 100 (u32 (now + n)) t)
unfolding fire expired
fire-dhcp now n t d = ground arith

abbrev pub at_start : ℕ → Timers
at_start now = record {
  arp_tc = record { next = u32 now; runs = 0 };
  net_tc = record { next = u32 now; runs = 0 };
  dh_tc = record { next = u32 now; runs = 0 };
}

poll-Due :
    (now n : ℕ)
    → let t = poll n now (at_start now) in
      Due now 1000 ((n + 999) / 1000) t.arp_tc
      × Due now 10000 ((n + 9999) / 10000) t.net_tc
      × Due now 100 ((n + 99) / 100) t.dh_tc
unfolding poll runsched
poll-Due now zero =
    ((omega arith, omega arith), (omega arith, omega arith), (omega arith, omega arith))
poll-Due now (suc n) =
    let before = poll-Due now n in
    let t : Timers = poll n now (at_start now) in
    (
      fire-arp now n t.arp_tc before.0,
      fire-net now n t.net_tc before.1,
      fire-dhcp now n t.dh_tc before.2,
    )

-- Of three timers that are due now, and looked at in each of the next `n` ticks, the tasks run once in each
-- 1000, 10000 and 100 ticks that are begun, also where the 32-bit counter of the ticks wraps around.
pub poll-runs :
    (now n : ℕ)
    → let t = poll n now (at_start now) in
      (t.arp_tc.runs ≡ (n + 999) / 1000)
      × (t.net_tc.runs ≡ (n + 9999) / 10000)
      × (t.dh_tc.runs ≡ (n + 99) / 100)
poll-runs now n = let d = poll-Due now n in (d.0.1, d.1.1, d.2.1)
