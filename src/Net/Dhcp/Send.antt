-- ===== src/Net/Dhcp/Send.antt =====
-- kernel/net/queue.cpp, `DHCP_Client::send_packet` and `OptionAdder`: the bytes of a request.
use xivix.Base.{ℕ, zero, suc, ◌+◌, ◌-◌, ◌≤◌, ◌≡◌, refl, arith, Option, none, some, List, [], ◌∷◌}
use xivix.Base.Word.{u8}
use xivix.Net.Packet.{Packet, Bytes, put, set_w, set_i32, set_mac, bswapw, bswapi}
use mathlib.Core.Option
use xivix.Net.Arp.{ArpLayer}
use xivix.Net.Ip.{packet_fill_udp, broadcast}
use xivix.Net.Dhcp.{Client, Request}

-- `OptionAdder`: where the next byte goes, the place of the length, and the packet.
pub record OptionAdder : Type 0 where
  pub next : ℕ
  pub soo : ℕ
  pub buf : Bytes

-- `OptionAdder::operator()`
unfoldable pub add_option : ℕ → OptionAdder → OptionAdder
unfolding put
add_option op a = record {
  next = a.next + 2;
  soo = a.next + 1;
  buf = put (a.next + 1) 0 (put a.next op a.buf);
}

-- `OptionAdder::v` of one byte, of two and of four in memory order.
unfoldable pub add_byte : ℕ → OptionAdder → OptionAdder
unfolding put
add_byte v a = record a {
  next = a.next + 1;
  buf = put a.next v (put a.soo (u8 (a.buf a.soo + 1)) a.buf);
}

unfoldable pub add_word : ℕ → OptionAdder → OptionAdder
unfolding put set_w
add_word v a = record a {
  next = a.next + 2;
  buf = set_w a.next v (put a.soo (u8 (a.buf a.soo + 2)) a.buf);
}

unfoldable pub add_addr : ℕ → OptionAdder → OptionAdder
unfolding put set_i32
add_addr v a = record a {
  next = a.next + 4;
  buf = set_i32 a.next v (put a.soo (u8 (a.buf a.soo + 4)) a.buf);
}

-- An option with an address, if there is one.
unfoldable pub add_optional : ℕ → Option ℕ → OptionAdder → OptionAdder
unfolding add_option add_addr
add_optional op none a = a
add_optional op (some v) a = add_addr v (add_option op a)

-- The bytes of a list, in one option.
unfoldable pub add_bytes : List ℕ → OptionAdder → OptionAdder
unfolding add_byte
add_bytes [] a = a
add_bytes (v ∷ vs) a = add_bytes vs (add_byte v a)

-- `pk[to + i] = 0` for `n` bytes.
unfoldable pub clear_bytes : ℕ → ℕ → Bytes → Bytes
unfolding put
clear_bytes zero to buf = buf
clear_bytes (suc n) to buf = put (to + n) 0 (clear_bytes n to buf)

-- The addresses that are options: none when the request goes to one host.
unfoldable pub add_addresses : Option ℕ → Option ℕ → Option ℕ → OptionAdder → OptionAdder
unfolding add_optional
add_addresses (some d) reqip srvip a = a
add_addresses none reqip srvip a = add_optional 54 srvip (add_optional 50 reqip a)

-- The flags, of a broadcast or of a unicast, and the address of a client that renews.
unfoldable pub flags : Option ℕ → ℕ
flags none = 0x80
flags (some d) = 0

unfoldable pub client_addr : Option ℕ → Option ℕ → ℕ
client_addr (some d) (some ip) = ip
client_addr (some d) none = 0
client_addr none reqip = 0

-- The fields before the options.
unfoldable pub fill_fields : Bytes → Client → Request → Bytes → Bytes
unfolding set_w set_i32 set_mac bswapw bswapi clear_bytes flags client_addr
fill_fields mac c r buf =
    let b1 : Bytes = set_i32 46 c.transaction (set_i32 42 0x60101 buf) in
    let b2 : Bytes = set_w 52 (flags r.dstip) (set_w 50 (bswapw c.runtime) b1) in
    let b3 : Bytes = set_i32 58 0 (set_i32 54 (client_addr r.dstip r.reqip) b2) in
    let b4 : Bytes = set_mac 70 mac (set_i32 66 0 (set_i32 62 0 b3)) in
    let b5 : Bytes = set_i32 82 0 (set_i32 78 0 (set_w 76 0 b4)) in
    set_i32 278 (bswapi 0x6382_5363) (clear_bytes 192 86 b5)

-- The options, and the end mark.
unfoldable pub fill_options : Request → Bytes → OptionAdder
unfolding add_option add_byte add_word add_bytes add_addresses bswapw put
fill_options r buf =
    let start : OptionAdder = record { next = 282; soo = 0; buf = buf } in
    let a1 : OptionAdder =
      add_addresses r.dstip r.reqip r.srvip (add_byte r.phase (add_option 53 start)) in
    let a2 : OptionAdder =
      add_bytes (1 ∷ 2 ∷ 3 ∷ 4 ∷ 5 ∷ 6 ∷ 15 ∷ 28 ∷ 31 ∷ 42 ∷ 51 ∷ 54 ∷ []) (add_option 55 a1) in
    let a3 : OptionAdder = add_word (bswapw 1400) (add_option 57 a2) in
    record a3 { next = a3.next + 1; buf = put a3.next 0xff a3.buf }

-- `send_packet` up to the transmission, with the packet of `request_packet`: the packet, if it can be
-- filled.
unfoldable pub send_packet : Bytes → Client → Request → Bytes → ArpLayer × Option Packet
unfolding fill_fields fill_options
send_packet mac c r buf =
    let a = fill_options r (fill_fields mac c r buf) in
    let dst : ℕ = Option.get_or r.dstip broadcast in
    packet_fill_udp mac c.arp 68 dst 0x4300 (a.next - 42) a.buf

-- The first option at byte 282 is the type of the message, and the end mark is the last byte of the
-- message, whatever addresses the request has.
pub fill_options-type :
    (phase : ℕ) (reqip srvip dstip : Option ℕ) (buf : Bytes)
    → let r : Request = record { phase = phase; reqip = reqip; srvip = srvip; dstip = dstip } in
      let a = fill_options r buf in
      (a.buf 282 ≡ 53)
      × (a.buf 283 ≡ 1)
      × (a.buf 284 ≡ phase)
      × (a.buf (a.next - 1) ≡ 255)
      × (a.next ≤ 42 + 300)
unfolding fill_options add_addresses add_optional add_addr add_option add_byte add_word add_bytes
    put set_w set_i32 bswapw
fill_options-type phase none none none buf = (refl, refl, refl, refl, omega arith)
fill_options-type phase (some q) none none buf = (refl, refl, refl, refl, omega arith)
fill_options-type phase none (some v) none buf = (refl, refl, refl, refl, omega arith)
fill_options-type phase (some q) (some v) none buf = (refl, refl, refl, refl, omega arith)
fill_options-type phase reqip srvip (some d) buf = (refl, refl, refl, refl, omega arith)
