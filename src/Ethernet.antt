-- ===== src/Ethernet.antt =====
-- kernel/dev/e1000.cpp and kernel/dev/e1000.hpp: the Ethernet driver. The device writes the descriptors
-- between the calls, not during them.
pub mod Init
pub mod Start
pub mod Process
pub mod Counted
pub mod Loaded
pub mod Ready
pub mod Receive
pub mod Fresh
pub mod Frames
pub mod Passes
pub mod Queues
pub mod Run
pub mod Transmit
mod TestLayer
mod Tests
use xivix.Base.{
  ℕ, zero, suc, ◌+◌, ◌*◌, ◌/◌, ◌%◌, ◌^◌, List, [], ◌∷◌, Option, none, some, Bool, true, false,
  if◌then◌else◌, ◌==◌, ◌&&◌, ◌||◌, not, get_or, set, has, ltb, leb, bit_or, bit_and,
}
use xivix.Base.Word.{u32, sub32}
use xivix.Net.Pool.{Pool, ref_at, take_ref, drop_ref, reset, request_packet}

-- `RingPointer`
pub record RingPointer : Type 0 where
  pub tail : ℕ
  pub head : ℕ
  pub limit : ℕ

-- The place after `c`.
unfoldable pub after : ℕ → ℕ → ℕ
after limit c = if leb limit (u32 (c + 1)) then 0 else u32 (c + 1)

-- `next` returns the tail that was; this is the ring after it.
unfoldable pub next : RingPointer → RingPointer
next r = record r { tail = after r.limit r.tail }

unfoldable pub full : RingPointer → Bool
full r = after r.limit r.tail == r.head

unfoldable pub empty : RingPointer → Bool
empty r = r.tail == r.head

-- `pop` returns the head of this ring.
unfoldable pub pop : RingPointer → RingPointer
pop r = record r { head = after r.limit r.head }

-- `RECV_DESC`, with the fields that the driver uses.
pub record RecvDesc : Type 0 where
  pub address : ℕ
  pub length : ℕ
  pub status : ℕ

-- `TRMT_DESC`
pub record TrmtDesc : Type 0 where
  pub address : ℕ
  pub info : ℕ

abbrev pub no_recv : RecvDesc
no_recv = record { address = 0; length = 0; status = 0 }

abbrev pub no_trmt : TrmtDesc
no_trmt = record { address = 0; info = 0 }

-- `e1000` with its `DESC_PAGE`, the pool of packets, the references to packets that the network layer keeps between
-- its calls, as its DHCP client does with the offers (`kept`), and the writes to the registers (`vio`), the last first.
pub record E1000 : Type 0 where
  pub rxq : RingPointer
  pub txq : RingPointer
  pub recv : List RecvDesc
  pub trmt : List TrmtDesc
  pub recv_slot : List (Option ℕ)
  pub trmt_slot : List (Option ℕ)
  pub macaddr : List ℕ
  pub lastint : ℕ
  pub junk_register : ℕ
  pub last_junk : ℕ
  pub last_itime : ℕ
  pub pool : Pool
  pub kept : List (Option ℕ)
  pub vio : List (ℕ × ℕ)

-- `handle_int`: the reads of the cause, of the two heads, and the time of the interrupt.
unfoldable pub handle_int : ℕ → ℕ → ℕ → ℕ → E1000 → E1000
handle_int its rx_head tx_head itime s = record s {
  lastint = bit_or s.lastint its;
  junk_register =
      u32 (u32 (s.junk_register + sub32 (u32 (its + itime)) s.last_itime + rx_head) + tx_head);
  last_itime = itime;
}

-- A reference that is passed by value, and its end.
abbrev pub pass : Option ℕ → E1000 → E1000
pass p s = record s { pool = take_ref p s.pool }

abbrev pub leave : Option ℕ → E1000 → E1000
leave p s = record s { pool = drop_ref p s.pool }

-- The descriptor that `transmit` writes.
unfoldable pub data_info : ℕ → ℕ
data_info size = size % 2 ^ 20 + 1 * 2 ^ 20 + 0xab * 2 ^ 24

-- The packet is not done: the device is to report it (TDC_RS) and has not (TDS_DD).
unfoldable pub not_done : ℕ → Bool
not_done info = has (info / 2 ^ 24 % 0x100) 8 && not (has (info / 2 ^ 32 % 0x100) 1)

-- A round of the loop over the packets that were sent.
unfoldable pub release : E1000 → E1000
release s = record s {
  pool = reset (get_or s.trmt_slot s.txq.head none) none s.pool;
  trmt_slot = set s.trmt_slot s.txq.head none;
  txq = pop s.txq;
}

-- The loop, for as many rounds.
unfoldable pub release_sent : ℕ → E1000 → E1000
release_sent zero s = s
release_sent (suc n) s =
    let rest = release_sent n (release s) in
    if empty s.txq || not_done (get_or s.trmt s.txq.head no_trmt).info then s else rest

-- The packet that a received frame leaves for the device: the same, or another where it was kept.
unfoldable pub recycle : ℕ → E1000 → Option ℕ × E1000
recycle p s =
    let (q, pool) = request_packet (some p) s.pool in
    if ref_at s.pool p == 1 then (some p, s) else (q, record s { pool = pool })

-- The test of the loop over the received frames.
unfoldable pub has_frame : E1000 → Bool
has_frame s = not (empty s.rxq) && has (get_or s.recv s.rxq.head no_recv).status 1

-- `phys p` is the physical address of the buffer of packet `p`.
module _ (phys : ℕ → ℕ) where
  -- The rest of `transmit` for a packet that is sent.
  unfoldable pub send : ℕ → E1000 → E1000
  send p s =
      let txtail = s.txq.tail in
      let txq = next s.txq in
      record s {
        txq = txq;
        pool = reset (get_or s.trmt_slot txtail none) (some p) s.pool;
        trmt_slot = set s.trmt_slot txtail (some p);
        trmt =
            set s.trmt txtail
              (record { address = phys p; info = data_info (get_or s.pool.size p 0) });
        vio = (0x3818, txq.tail) ∷ s.vio;
      }

  -- `transmit` of a reference that is not null.
  unfoldable pub transmit : ℕ → E1000 → E1000
  transmit p s =
      let s1 = pass (some p) s in
      leave (some p)
        (if ltb (get_or s.pool.size p 0) 42 then s1 else if full s1.txq then s1 else send p s1)

  -- The rest of `addreceive` where there is room.
  unfoldable pub load : ℕ → E1000 → E1000
  load p s =
      let rxtail = s.rxq.tail in
      let rxq = next s.rxq in
      let sized = record s.pool { size = set s.pool.size p 0 } in
      let rxd = get_or s.recv rxtail no_recv in
      record s {
        rxq = rxq;
        pool = reset (get_or s.recv_slot rxtail none) (some p) sized;
        recv_slot = set s.recv_slot rxtail (some p);
        recv = set s.recv rxtail (record rxd { address = phys p; status = 0 });
        vio = (0x2818, rxq.tail) ∷ s.vio;
      }

  -- `addreceive`. A null reference is used where there is room: `none`.
  unfoldable pub addreceive : Option ℕ → E1000 → Option E1000
  addreceive none s = if full s.rxq then some s else none
  addreceive (some p) s =
      let s1 = pass (some p) s in some (leave (some p) (if full s1.rxq then s1 else load p s1))

  -- `n` packets for the device, with the reference `p` that is used again; at the end it is dropped.
  unfoldable pub add_packets : ℕ → Option ℕ → E1000 → Option E1000
  add_packets zero p s = some (leave p s)
  add_packets (suc n) p s =
      let (q, pool) = request_packet p s.pool in
      elim (addreceive q (record s { pool = pool })) [ none ↦ none | some s' ↦ add_packets n q s' ]

  -- The reference goes out of scope after the head is moved.
  unfoldable pub give_back : Option ℕ × E1000 → Option E1000
  give_back (q, s) = elim (addreceive q s) [
    | none ↦ none
    | some s' ↦ some (leave q (record s' { rxq = pop s'.rxq }))
  ]

  -- The network layer takes a packet from its reference. It may send, and keep references.
  module _ (enqueue : ℕ → E1000 → E1000) where
    -- A round for the frame in packet `p`, whose reference is moved out of its slot.
    unfoldable pub receive : ℕ → E1000 → Option E1000
    receive p s =
        let rxd = get_or s.recv s.rxq.head no_recv in
        let sized = record s.pool { size = set s.pool.size p rxd.length } in
        let s1 = record s { pool = sized; recv_slot = set s.recv_slot s.rxq.head none } in
        let s2 = leave (some p) (enqueue p (pass (some p) s1)) in give_back (recycle p s2)

    -- A null reference in the slot is used: `none`.
    unfoldable pub receive_slot : Option ℕ → E1000 → Option E1000
    receive_slot none s = none
    receive_slot (some p) s = receive p s

    -- The loop, for as many rounds.
    unfoldable pub receive_frames : ℕ → E1000 → Option E1000
    receive_frames zero s = some s
    receive_frames (suc n) s = elim (has_frame s) [
      | false ↦ some s
      | true ↦ elim (receive_slot (get_or s.recv_slot s.rxq.head none) s) [
        | none ↦ none
        | some s' ↦ receive_frames n s'
      ]
    ]
