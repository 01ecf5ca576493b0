-- ===== src/Ethernet/Init.antt =====
-- kernel/dev/e1000.cpp: the constructor and `init`. The answers of the device are arguments; the output and what
-- goes into the random numbers are left out.
use xivix.Base.{
  ℕ, zero, suc, ◌+◌, ◌-◌, ◌*◌, ◌/◌, ◌^◌, List, [], ◌∷◌, Option, none, some, if◌then◌else◌, ◌==◌,
  not, has, ltb, replicate,
}
use xivix.Base.Word.{u8, u32}
use xivix.Net.Pool.{Pool}
use xivix.Ethernet.{RingPointer, E1000, no_recv, no_trmt}

-- `e1000::e1000`: the page of descriptors is cleared, and no ring has a limit yet.
unfoldable pub new_e1000 : Pool → E1000
new_e1000 pool =
    let no_ring : RingPointer = record { tail = 0; head = 0; limit = 0 } in
    record {
      rxq = no_ring;
      txq = no_ring;
      recv = replicate 128 no_recv;
      trmt = replicate 128 no_trmt;
      recv_slot = replicate 128 none;
      trmt_slot = replicate 128 none;
      macaddr = replicate 6 0;
      lastint = 0;
      junk_register = 0;
      last_junk = 0;
      last_itime = 0;
      pool = pool;
      kept = [];
      vio = [];
    }

-- The wait for the PCIe accesses to end: what the status register answers to each read, and the count of reads.
-- `none` is a fuel that is spent.
unfoldable pub wait_gio : ℕ → (ℕ → ℕ) → ℕ → Option ℕ
wait_gio zero status nani = none
wait_gio (suc f) status nani =
    let rest = wait_gio f status (nani + 1) in
    if not (has (status nani) (2 ^ 19))
    then some nani
    else if nani + 1 == 100
    then some (nani + 1)
    else rest

-- The wait for the reset to end.
unfoldable pub wait_reset : ℕ → (ℕ → ℕ) → ℕ → Option ℕ
wait_reset zero ctrl nani = none
wait_reset (suc f) ctrl nani =
    let rest = wait_reset f ctrl (nani + 1) in
    if not (has (ctrl nani) (2 ^ 26))
    then some nani
    else if ltb 11000 (nani + 1)
    then some (nani + 1)
    else rest

-- The wait for the link.
unfoldable pub wait_link : ℕ → (ℕ → ℕ) → ℕ → Option ℕ
wait_link zero status lu_wait = none
wait_link (suc f) status lu_wait =
    let rest = wait_link f status (lu_wait - 1) in
    if has (status lu_wait) 2
    then some lu_wait
    else if lu_wait - 1 == 0
    then some (lu_wait - 1)
    else rest

-- The registers that are written, in order.
unfoldable pub write_all : List (ℕ × ℕ) → E1000 → E1000
write_all [] s = s
write_all (w ∷ ws) s = write_all ws (record s { vio = w ∷ s.vio })

-- CTRL: the bits GIO_DIS, LRST, SLU, RST and PHY_RST, and then FD, LRST and SLU.
abbrev pub ctrl_reset : ℕ
ctrl_reset = 2 ^ 2 + 2 ^ 3 + 2 ^ 6 + 2 ^ 26 + 2 ^ 31

abbrev pub ctrl_up : ℕ
ctrl_up = 2 ^ 0 + 2 ^ 3 + 2 ^ 6

-- RCTL: SBP, MPE and BAM, with buffers of 2048 bytes; and EN.
abbrev pub rctl : ℕ
rctl = 2 ^ 2 + 2 ^ 4 + 2 ^ 15

-- TCTL: PSP, CT = 15, COLD = 0x40 and RTLC; and EN.
abbrev pub tctl : ℕ
tctl = 2 ^ 3 + 15 * 2 ^ 4 + 0x40 * 2 ^ 12 + 2 ^ 24

-- The interrupts TXDW, TXQE, LSC, RXSEQ, RXDMT0, RXO, RXT0, MDAC and TXD_LOW.
abbrev pub ims : ℕ
ims = 2 ^ 0 + 2 ^ 1 + 2 ^ 2 + 2 ^ 3 + 2 ^ 4 + 2 ^ 6 + 2 ^ 7 + 2 ^ 9 + 2 ^ 15

abbrev pub all_off : ℕ × ℕ
all_off = (0xd8, 0xffff_ffff)

unfoldable pub begin_reset : List (ℕ × ℕ)
begin_reset = all_off ∷ (0x100, 0) ∷ (0x400, 0) ∷ []

unfoldable pub link_up : List (ℕ × ℕ)
link_up = all_off ∷ (0, ctrl_up) ∷ []

unfoldable pub flow_control : List (ℕ × ℕ)
flow_control =
    (0x28, 0xc2_8001)
    ∷ (0x2c, 0x100)
    ∷ (0x30, 0x8808)
    ∷ (0x38, 0x8100)
    ∷ (0x170, 0xffff)
    ∷ (0x5808, 0)
    ∷ []

-- The receive ring at `rdbuf`.
unfoldable pub receive_setup : ℕ → List (ℕ × ℕ)
receive_setup rdbuf =
    (0x100, rctl)
    ∷ (0x2160, 0)
    ∷ (0x2170, 16)
    ∷ (0x2800, u32 rdbuf)
    ∷ (0x2804, u32 (rdbuf / 2 ^ 32))
    ∷ (0x2808, 2048)
    ∷ (0x2818, 0)
    ∷ (0x2810, 0)
    ∷ (0x2828, 2 ^ 16 + 2 ^ 24)
    ∷ (0x282c, 0)
    ∷ (0x2c00, 0)
    ∷ (0x5008, 0)
    ∷ (0x100, rctl + 2 ^ 1)
    ∷ []

-- The transmit ring at `txbuf`.
unfoldable pub transmit_setup : ℕ → List (ℕ × ℕ)
transmit_setup txbuf =
    (0x400, tctl)
    ∷ (0x3800, u32 txbuf)
    ∷ (0x3804, u32 (txbuf / 2 ^ 32))
    ∷ (0x3808, 2048)
    ∷ (0x3818, 0)
    ∷ (0x3810, 0)
    ∷ (0x404, 0x40 * 2 ^ 10)
    ∷ (0x410, 9 + 8 * 2 ^ 10 + 7 * 2 ^ 20)
    ∷ (0x3828, 2 ^ 8 + 2 ^ 16 + 2 ^ 24 + 2 ^ 22)
    ∷ (0x382c, 103)
    ∷ (0x3840, 1 + 2 ^ 10)
    ∷ (0x400, tctl + 2 ^ 1)
    ∷ []

-- The station address, from the words of RAL and RAH.
unfoldable pub mac_of : ℕ → ℕ → List ℕ
mac_of lo hi =
    u8 lo ∷ u8 (lo / 2 ^ 8) ∷ u8 (lo / 2 ^ 16) ∷ u8 (lo / 2 ^ 24) ∷ u8 hi ∷ u8 (hi / 2 ^ 8) ∷ []

-- `getmediaaddr`
abbrev pub getmediaaddr : E1000 → List ℕ
getmediaaddr s = s.macaddr

-- What the device answers in `init`: the reads of its waits, and the words of the station address.
pub record Answers : Type 0 where
  pub gio : ℕ → ℕ
  pub reset : ℕ → ℕ
  pub link : ℕ → ℕ
  pub ral : ℕ
  pub rah : ℕ

-- `init` after the waits.
unfoldable pub set_up : ℕ → ℕ → Answers → E1000 → E1000
set_up rdbuf txbuf a s =
    let s1 = write_all flow_control s in
    let s2 = write_all (receive_setup rdbuf) (record s1 { macaddr = mac_of a.ral a.rah }) in
    let empty_ring : RingPointer = record { tail = 0; head = 0; limit = 2048 / 2 ^ 4 } in
    let s3 = write_all (transmit_setup txbuf) (record s2 { rxq = empty_ring }) in
    write_all ((0xd0, ims) ∷ []) (record s3 { txq = empty_ring })

-- The writes before and between the waits.
unfoldable pub reset_all : E1000 → E1000
reset_all s = write_all link_up (write_all ((0, ctrl_reset) ∷ []) (write_all begin_reset s))

-- `init`, with the two physical addresses of the rings. The waits need 100, 11001 and 50 reads at most.
unfoldable pub init : ℕ → ℕ → Answers → E1000 → Option E1000
init rdbuf txbuf a s = elim (wait_gio 100 a.gio 0) [
  | none ↦ none
  | some nani ↦ elim (wait_reset 11001 a.reset nani) [
    | none ↦ none
    | some nani' ↦ elim (wait_link 50 a.link 50) [
      | none ↦ none
      | some lu_wait ↦ some (set_up rdbuf txbuf a (reset_all s))
    ]
  ]
]
