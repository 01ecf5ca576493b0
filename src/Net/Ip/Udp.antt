-- ===== src/Net/Ip/Udp.antt =====
-- kernel/net/queue.cpp, `send_via_udp` against `handle_ip4`: what is sent is what is received.
use mathlib.Core.Option
use xivix.Base.{
  Option, Bool-cases, inl, inr, has, ℕ, zero, suc, ◌+◌, ◌-◌, ◌%◌, ◌^◌, ◌≤◌, ◌<◌, ◌≡◌, ◌≢◌, refl,
  arith, true, false, ◌==◌, ◌&&◌, ◌||◌, ◌∙◌, ap, sym, le→ltb, some, min, ltb, leb,
}
use xivix.Base.Word.{u16}
use xivix.Net.Packet.{Bytes, Packet, put, set_w, set_mac, bswapw, nw, i32, copy}
use xivix.Net.Arp.{ArpLayer, find_ip, entry_at}
use xivix.Net.Ip.{
  handle_payload, fill_header, fill_checksum, ip_length, fill_destination, packet_fill_ip,
  packet_fill_udp, udp_length, fill_udp_header, fill_udp_checksum, send_via_udp, handle_ip4,
  handle_udp, ip4_payload, broadcast,
}
use xivix.Net.Ip.Header.{Header, fill_header-Header, fill_header-above, set_w-ne}

pub copy_lem : (n to i : ℕ) (src buf : Bytes) → i < n → copy n to src buf (to + i) ≡ src i
unfolding copy put
copy_lem zero to i src buf h = absurd (omega arith)
copy_lem (suc n) to i src buf h = ground (arith, copy_lem n to i src buf)

-- The datagram at byte 34 of a frame.
pub record Datagram (buf : Bytes) (sport port length : ℕ) (msg : Bytes) : Type 0 where
  pub source_port : nw buf 34 ≡ sport
  pub target_port : nw buf 36 ≡ bswapw port
  pub udp_bytes : nw buf 38 ≡ length
  pub message : (i : ℕ) → i + 8 < length → buf (42 + i) ≡ msg i

fill_udp_header-Datagram :
    (sport port n : ℕ) (msg buf : Bytes)
    → sport < 2 ^ 16
    → n ≤ 1472
    → Datagram (fill_udp_header sport port (n + 8) (copy n 42 msg buf)) sport port (n + 8) msg
unfolding fill_udp_header nw set_w put bswapw
fill_udp_header-Datagram sport port n msg buf h k = record {
  source_port = omega arith;
  target_port = omega arith;
  udp_bytes = omega arith;
  message = λ i l. ground (arith, copy_lem n 42 i msg buf);
}

-- The datagram does not change with the bytes before it and its checksum.
Datagram-same :
    {buf buf1 : Bytes} {sport port length : ℕ} {msg : Bytes}
    → Datagram buf sport port length msg
    → ((j : ℕ) → j ≢ 6 → j ≢ 7 → buf1 (34 + j) ≡ buf (34 + j))
    → Datagram buf1 sport port length msg
unfolding nw
Datagram-same {buf} {buf1} d h = record {
  source_port =
      omega
        (arith, h 0 (λ q. absurd (omega arith)), h 1 (λ q. absurd (omega arith)), d.source_port);
  target_port =
      omega
        (arith, h 2 (λ q. absurd (omega arith)), h 3 (λ q. absurd (omega arith)), d.target_port);
  udp_bytes =
      omega (arith, h 4 (λ q. absurd (omega arith)), h 5 (λ q. absurd (omega arith)), d.udp_bytes);
  message = λ i l.
      let e : 42 + i ≡ 34 + (8 + i) = omega arith in
      ap buf1 e
      ∙ h (8 + i) (λ q. absurd (omega arith)) (λ q. absurd (omega arith))
      ∙ ap buf (sym e)
      ∙ d.message i l;
}

fill_checksum-above : (buf : Bytes) (j : ℕ) → fill_checksum buf (34 + j) ≡ buf (34 + j)
unfolding fill_checksum
fill_checksum-above buf j =
    set_w-ne 24 _ (34 + j) buf (λ q. absurd (omega arith)) (λ q. absurd (omega arith))

fill_udp_checksum-ne :
    (length : ℕ) (buf : Bytes) (j : ℕ)
    → j ≢ 6
    → j ≢ 7
    → fill_udp_checksum length buf (34 + j) ≡ buf (34 + j)
unfolding fill_udp_checksum
fill_udp_checksum-ne length buf j h k =
    set_w-ne 40 _ (34 + j) buf (λ q. h (omega arith)) (λ q. k (omega arith))

Header-fill_checksum :
    {buf : Bytes} {a d l p : ℕ} → Header buf a d l p → Header (fill_checksum buf) a d l p
unfolding fill_checksum nw i32 set_w put
Header-fill_checksum h = record {
  version = h.version;
  total = h.total;
  protocol = h.protocol;
  source = h.source;
  target = h.target;
  first = h.first;
}

Header-fill_udp_checksum :
    {buf : Bytes} {a d l p : ℕ} (n : ℕ)
    → Header buf a d l p
    → Header (fill_udp_checksum n buf) a d l p
unfolding fill_udp_checksum nw i32 set_w put
Header-fill_udp_checksum n h = record {
  version = h.version;
  total = h.total;
  protocol = h.protocol;
  source = h.source;
  target = h.target;
  first = h.first;
}

-- A destination that has a station is the broadcast or in the table, and the bytes from 34 on stay.
pub fill_destination_lem :
    (arp : ArpLayer) (dst : ℕ) (buf b : Bytes)
    → fill_destination arp dst buf ≡ some b
    → ((dst == broadcast || ltb (find_ip arp dst) arp.size) ≡ true)
      × ((j : ℕ) → b (34 + j) ≡ buf (34 + j))
unfolding fill_destination set_w set_mac put
fill_destination_lem arp dst buf b h = elim (Bool-cases (dst == broadcast)) [
  | inl all ↦
      let e = Option.some-injective _ b (rw all at h) in
      (rw all refl, λ j. ap (λ f. f (34 + j)) (sym e) ∙ ground arith)
  | inr one ↦ elim (Bool-cases (ltb (find_ip arp dst) arp.size)) [
    | inl found ↦ elim (Bool-cases (has (entry_at arp (find_ip arp dst)).info 0x2000)) [
      | inl known ↦
          let e = Option.some-injective _ b (rw (one, found, known) at h) in
          (rw (one, found) refl, λ j. ap (λ f. f (34 + j)) (sym e) ∙ ground arith)
      | inr unknown ↦ absurd (Option.none-ne-some b (rw (one, found, unknown) at h))
    ]
    | inr missing ↦ absurd (Option.none-ne-some b (rw (one, missing) at h))
  ]
]

filled-payload :
    {pkt : Packet} {a d n p : ℕ}
    → Header pkt.buf a d (n + 20) p
    → n + 34 ≤ pkt.size
    → (leb 224 (d % 256) && ltb (d % 256) 255) ≡ false
    → ip4_payload pkt ≡ some (20, n)
unfolding ip4_payload
filled-payload {pkt} {a} {d} {n} h room single =
    let len : n + 20 - 20 ≡ n = omega arith in
    rw
      (
        h.version,
        h.total,
        h.first,
        single,
        le→ltb pkt.size (n + 20 + 14) (omega arith),
        le→ltb (n + 20) 20 (omega arith),
        len,
      )
      refl

handle_ip4-udp :
    (mac : Bytes) (pkt : Packet) (free : Option Bytes) (arp : ArpLayer) {ihl n : ℕ}
    → ip4_payload pkt ≡ some (ihl, n)
    → pkt.buf 23 ≡ 17
    → handle_ip4 mac pkt free arp ≡ handle_udp pkt (14 + ihl) n arp
unfolding handle_ip4 handle_payload
handle_ip4-udp mac pkt free arp h k = ap (handle_payload mac pkt free arp) h ∙ rw k refl

ip_length_lem : (n : ℕ) → n ≤ 1472 → ip_length (n + 8) ≡ n + 8 + 20
unfolding ip_length
ip_length_lem n h = ground arith

-- A message of at most 1472 bytes is sent from a 16-bit port and a 32-bit address to a 32-bit
-- destination whose station is known and which is no multicast group. The host that gets the frame
-- finds in it the two ports, the length, the message and the address of the sender, and handles the
-- datagram at byte 34.
pub send_via_udp-handle_ip4 :
    (mac : Bytes) {arp : ArpLayer} {sport dst port n : ℕ} (msg buf : Bytes) {b : Bytes}
    → arp.system_ip < 2 ^ 32
    → dst < 2 ^ 32
    → (leb 224 (dst % 256) && ltb (dst % 256) 255) ≡ false
    → sport < 2 ^ 16
    → n ≤ 1472
    → fill_destination arp dst (fill_udp_header sport port (n + 8) (copy n 42 msg buf)) ≡ some b
    → (mac2 : Bytes) (free : Option Bytes) (arp2 : ArpLayer)
    → (p : Packet) × (send_via_udp mac sport dst port msg n (some buf) arp ≡ (arp, some p))
      × Datagram p.buf sport port (n + 8) msg
      × (i32 p.buf 26 ≡ arp.system_ip)
      × (handle_ip4 mac2 p free arp2 ≡ handle_udp p 34 (n + 8) arp2)
unfolding send_via_udp packet_fill_udp packet_fill_ip handle_ip4 udp_length
send_via_udp-handle_ip4 mac {arp} {sport} {dst} {port} {n} msg buf {b} ha hd single hs hn h mac2
      free arp2 =
    let filled =
      fill_destination_lem arp dst (fill_udp_header sport port (n + 8) (copy n 42 msg buf)) b h in
    let b1 : Bytes = fill_header mac arp.system_ip dst (n + 8 + 20) 17 b in
    let p : Packet = record {
      buf = fill_udp_checksum (n + 8) (fill_checksum b1);
      size = 14 + (n + 8 + 20);
    } in
    let header = Header-fill_udp_checksum (n + 8) (
      Header-fill_checksum
        (fill_header-Header mac arp.system_ip dst (n + 8 + 20) 17 b ha hd (omega arith)).0) in
    let datagram : Datagram p.buf sport port (n + 8) msg =
      Datagram-same (fill_udp_header-Datagram sport port n msg buf hs hn) (λ j k l.
        fill_udp_checksum-ne (n + 8) (fill_checksum b1) j k l
        ∙ fill_checksum-above b1 j
        ∙ fill_header-above mac arp.system_ip dst (n + 8 + 20) 17 b j
        ∙ filled.1 j) in
    let whole : u16 n ≡ n = omega arith in
    let copied : min 1472 n ≡ n = omega arith in
    let length : min (n + 8) 1480 ≡ n + 8 = omega arith in
    (
      p,
      rw (whole, copied, length, ip_length_lem n hn, h, filled.0) refl,
      datagram,
      header.source,
      handle_ip4-udp mac2 p free arp2 (filled-payload {pkt = p} header (omega arith) single)
          header.protocol,
    )
