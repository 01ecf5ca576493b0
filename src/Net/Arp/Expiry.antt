-- ===== src/Net/Arp/Expiry.antt =====
-- kernel/net/queue.cpp, `runarp`: an address that does not answer is asked for and then forgotten.
use xivix.Base.{
  ◌⊎◌, ℕ, zero, suc, ◌+◌, ◌*◌, ◌%◌, ◌/◌, ◌^◌, ◌<◌, ◌≡◌, arith, true, false, if◌then◌else◌, inl, inr,
  bit_and,
}
use xivix.Base.Word.{u16}
use xivix.Base.Bits.{bit_and_split, bit_and-zero, bit_and_mask, bit_and_place}
use xivix.Net.Arp.{ArpEntry, present, run_entry}

-- `n` passes over an entry with a free packet each time, and the number of requests.
unfoldable pub passes : ℕ → ArpEntry → ArpEntry × ℕ
passes zero e = (e, 0)
passes (suc n) e =
    let (e1, sent) = run_entry true e in
    let (e2, asked) = passes n e1 in (e2, (if sent then 1 else 0) + asked)

status_lem : (info : ℕ) → info < 2 ^ 16 → bit_and info 0xe000 ≡ info / 0x2000 * 0x2000
status_lem info h =
    let parts : info / 0x2000 * 2 ^ 13 + info % 0x2000 ≡ info = omega arith in
    let masked : bit_and info (7 * 2 ^ 13 + 0)
        ≡ bit_and (info / 0x2000) 7 * 2 ^ 13 + bit_and (info % 0x2000) 0 =
      rw parts at
        (bit_and_split 13 (info / 0x2000) (info % 0x2000) 7 0 (omega arith) (omega arith)) in
    omega (arith, masked, bit_and-zero (info % 0x2000), bit_and_mask 3 (info / 0x2000))

-- The status is 0 or 0x4000 and the entry is present.
abbrev pub Asking : ArpEntry → ℕ → Type 0
Asking e c = (e.info ≡ 0x1000 + c) ⊎ (e.info ≡ 0x5000 + c)

run_entry-count :
    (e : ArpEntry) (c : ℕ)
    → suc c < 0x1000
    → Asking e (suc c)
    → ((run_entry true e).1 ≡ true) × Asking (run_entry true e).0 c
unfolding run_entry
run_entry-count e c h (inl k) =
    ground (arith, status_lem e.info, bit_and_place 12 e.info, bit_and_mask 12 e.info)
run_entry-count e c h (inr k) =
    ground (arith, status_lem e.info, bit_and_place 12 e.info, bit_and_mask 12 e.info)

run_entry-last :
    (e : ArpEntry)
    → Asking e 0
    → ((run_entry true e).1 ≡ false) × (present (run_entry true e).0 ≡ false)
unfolding run_entry
run_entry-last e (inl k) = ground (
  arith,
  status_lem e.info,
  bit_and_place 12 e.info,
  bit_and_mask 12 e.info,
  bit_and_place 12 (u16 (e.info + 0xffff)),
)
run_entry-last e (inr k) = ground (
  arith,
  status_lem e.info,
  bit_and_place 12 e.info,
  bit_and_mask 12 e.info,
  bit_and_place 12 (u16 (e.info + 0xffff)),
)

-- An entry of unknown or passive status with the count `c` is asked for `c` times, and after one more
-- pass it is no longer in the table.
pub passes_forget :
    (c : ℕ) (e : ArpEntry)
    → c < 0x1000
    → Asking e c
    → let (e1, asked) = passes (suc c) e in (asked ≡ c) × (present e1 ≡ false)
unfolding passes
passes_forget zero e h a = let last = run_entry-last e a in (ground arith, last.1)
passes_forget (suc c) e h a =
    let now = run_entry-count e c h a in
    let rest = passes_forget c (run_entry true e).0 (omega arith) now.1 in (ground arith, rest.1)
