-- ===== src/Net/Ip.antt =====
-- kernel/net/queue.cpp: `packet_fill_ip`, `packet_fill_udp`, `send_via_udp`, `handle_icmp`, `handle_udp`
-- and `handle_ip4`.
pub mod Header
pub mod Udp
pub mod Check
pub mod Echo
use xivix.Base.{
  ℕ, zero, suc, ◌+◌, ◌-◌, ◌*◌, ◌/◌, ◌%◌, bit_and, bit_or, Bool, true, false, if◌then◌else◌, ◌==◌,
  has, not, ◌&&◌, ◌||◌, Option, none, some, ltb, leb, min,
}
use mathlib.Core.Option
use xivix.Base.Word.{u16, u32}
use xivix.Net.Packet.{Bytes, Packet, put, set_w, set_i32, set_mac, bswapw, nw, i32, copy}
use xivix.Net.Checksum.{ipchksum, psudo_check}
use xivix.Net.Arp.{ArpEntry, ArpLayer, entry_at, find_ip, resolve_with_arp}

-- `~v` of a 16-bit number.
abbrev pub not16 : ℕ → ℕ
not16 v = 0xffff - v

-- The bytes from an index on.
abbrev pub from : ℕ → Bytes → Bytes
from i buf = λ j. buf (i + j)

abbrev pub broadcast : ℕ
broadcast = 0xffff_ffff

-- The length of the IP packet, of a payload.
unfoldable pub ip_length : ℕ → ℕ
ip_length payload_len = let n = u16 (20 + u16 payload_len) in if ltb n 28 then 28 else n

-- The header with the checksum field 0, in a buffer that has the destination station.
unfoldable pub fill_header : Bytes → ℕ → ℕ → ℕ → ℕ → Bytes → Bytes
unfolding put set_w set_i32 set_mac bswapw
fill_header mac system_ip dst length proto buf =
    let b1 : Bytes = set_w 12 (bswapw 0x800) (set_mac 6 mac buf) in
    let b2 : Bytes = set_w 16 (bswapw length) (put 15 0 (put 14 0x45 b1)) in
    let b3 : Bytes = put 23 proto (put 22 8 (set_w 20 0 (set_w 18 0 b2))) in
    set_i32 30 dst (set_i32 26 system_ip (set_w 24 0 b3))

unfoldable pub fill_checksum : Bytes → Bytes
unfolding set_w bswapw
fill_checksum buf = set_w 24 (bswapw (not16 (ipchksum (from 14 buf) 20 0))) buf

-- The destination station: that of every host, or the one of a known entry of the table.
unfoldable pub fill_destination : ArpLayer → ℕ → Bytes → Option Bytes
unfolding set_w set_mac
fill_destination arp dst buf =
    let e = entry_at arp (find_ip arp dst) in
    if dst == broadcast
    then some (set_w 4 0xffff (set_w 2 0xffff (set_w 0 0xffff buf)))
    else (if ltb (find_ip arp dst) arp.size
        then (if has e.info 0x2000 then some (set_mac 0 e.lla buf) else none)
        else none)

-- `packet_fill_ip`, with the station address of the device; none if it returns true.
unfoldable pub packet_fill_ip : Bytes → ArpLayer → ℕ → ℕ → ℕ → Bytes → ArpLayer × Option Packet
packet_fill_ip mac arp dst payload_len proto buf =
    let length = ip_length payload_len in
    let asked =
      if dst == broadcast || ltb (find_ip arp dst) arp.size
      then arp
      else resolve_with_arp dst arp in
    let fill : Bytes → Packet = λ b. record {
      buf = fill_checksum (fill_header mac arp.system_ip dst length proto b);
      size = 14 + length;
    } in
    (asked, Option.map fill (fill_destination arp dst buf))

-- The length of the UDP packet, of a message.
unfoldable pub udp_length : ℕ → ℕ
udp_length msg_size = min (msg_size + 8) 1480

-- The UDP header with the checksum field 0; the port of the destination is in network order.
unfoldable pub fill_udp_header : ℕ → ℕ → ℕ → Bytes → Bytes
unfolding set_w bswapw
fill_udp_header sport port length buf =
    set_w 40 0 (set_w 38 (bswapw length) (set_w 36 port (set_w 34 (bswapw sport) buf)))

unfoldable pub fill_udp_checksum : ℕ → Bytes → Bytes
unfolding set_w bswapw
fill_udp_checksum length buf =
    let sum = ipchksum (from 34 buf) length (u32 (psudo_check buf + length)) in
    set_w 40 (bswapw (if sum == 0xffff then sum else not16 sum)) buf

-- `packet_fill_udp` of a device that is there.
unfoldable pub packet_fill_udp : Bytes → ArpLayer → ℕ → ℕ → ℕ → ℕ → Bytes → ArpLayer × Option Packet
packet_fill_udp mac arp sport dst port msg_size buf =
    let length = udp_length msg_size in
    let (asked, filled) =
      packet_fill_ip mac arp dst length 17 (fill_udp_header sport port length buf) in
    let check : Packet → Packet = λ p. record p { buf = fill_udp_checksum length p.buf } in
    (asked, Option.map check filled)

-- `send_via_udp` with the packet that `request_packet` gives, if any. The second part is the packet
-- that is transmitted.
unfoldable pub send_via_udp :
    Bytes → ℕ → ℕ → ℕ → Bytes → ℕ → Option Bytes → ArpLayer → ArpLayer × Option Packet
send_via_udp mac sport dst port msg msg_size none arp = (arp, none)
send_via_udp mac sport dst port msg msg_size (some buf) arp =
    packet_fill_udp mac arp sport dst port (u16 msg_size) (copy (min 1472 msg_size) 42 msg buf)

-- What becomes of a received packet: the table, the packet that is transmitted, whether it is printed,
-- and the offset and length that the DHCP client gets.
pub record Handled : Type 0 where
  pub arp : ArpLayer
  pub sent : Option Packet
  pub show : Bool
  pub dhcp : Option (ℕ × ℕ)

abbrev pub quiet : Bool → ArpLayer → Handled
quiet show arp = record { arp = arp; sent = none; show = show; dhcp = none }

-- `handle_udp`
unfoldable pub handle_udp : Packet → ℕ → ℕ → ArpLayer → Handled
handle_udp pkt ofs len arp =
    let src = nw pkt.buf ofs in
    let dst = nw pkt.buf (ofs + 2) in
    let length = nw pkt.buf (ofs + 4) in
    if ltb len 8
    then quiet false arp
    else (if ltb length 8
        then quiet false arp
        else (if src == 67 && dst == 68
            then record { arp = arp; sent = none; show = false; dhcp = some (ofs + 8, length - 8) }
            else (if dst == 67
                then quiet false arp
                else (if ltb 1023 dst
                    then quiet false arp
                    else (if dst == 137
                        then quiet false arp
                        else (if dst == 138 then quiet false arp else quiet true arp))))))

-- The message of an echo reply: the bytes of the request with the type 0 and the checksum field 0.
unfoldable pub echo_message : Bytes → ℕ → ℕ → Bytes → Bytes
unfolding put set_w
echo_message pkt ofs len buf = set_w 36 0 (put 34 0 (copy (min 1472 len) 34 (from ofs pkt) buf))

unfoldable pub fill_echo : Bytes → ℕ → ℕ → Bytes → Bytes
unfolding set_w bswapw
fill_echo pkt ofs len buf =
    let b1 : Bytes = echo_message pkt ofs len buf in
    set_w 36 (bswapw (not16 (ipchksum (from 34 b1) len 0))) b1

-- The end of the case ICMP_Echo of `handle_icmp`: the response is transmitted if it could be filled.
unfoldable pub respond : ArpLayer → Option Packet → Handled
respond arp none = quiet true arp
respond arp (some p) = record { arp = arp; sent = some p; show = false; dhcp = none }

-- The case ICMP_Echo of `handle_icmp`, with the packet that `request_packet` gives, if any.
unfoldable pub echo : Bytes → Packet → ℕ → ℕ → ℕ → Option Bytes → ArpLayer → Handled
echo mac pkt src ofs len none arp = quiet false arp
echo mac pkt src ofs len (some buf) arp =
    let (asked, filled) = packet_fill_ip mac arp src len 1 (fill_echo pkt.buf ofs len buf) in
    respond asked filled

-- `handle_icmp`
unfoldable pub handle_icmp : Bytes → Packet → ℕ → ℕ → ℕ → Option Bytes → ArpLayer → Handled
handle_icmp mac pkt src ofs len free arp =
    let itype = pkt.buf ofs in
    if ltb pkt.size (ofs + 8)
    then quiet false arp
    else (if itype == 0 || itype == 3
        then quiet true arp
        else (if itype == 8
            then (if not (pkt.buf (ofs + 1) == 0)
                then quiet true arp
                else echo mac pkt src ofs len free arp)
            else quiet (itype == 11) arp))

-- The checks of `handle_ip4`: the length of the header in bytes and that of the payload.
unfoldable pub ip4_payload : Packet → Option (ℕ × ℕ)
ip4_payload pkt =
    let ipvihl = bit_and (pkt.buf 14) 0xf * 4 in
    let iplen = nw pkt.buf 16 in
    if not (bit_and (pkt.buf 14) 0xf0 == 0x40)
    then none
    else (if ltb ipvihl 20
        then none
        else (if ltb iplen ipvihl
            then none
            else (if ltb pkt.size (iplen + 14)
                then none
                else (if leb 224 (pkt.buf 30) && ltb (pkt.buf 30) 255
                    then none
                    else some (ipvihl, iplen - ipvihl)))))

-- The protocols of `handle_ip4`, of the header and payload lengths if the checks pass.
unfoldable pub handle_payload : Bytes → Packet → Option Bytes → ArpLayer → Option (ℕ × ℕ) → Handled
handle_payload mac pkt free arp none = quiet false arp
handle_payload mac pkt free arp (some (ipvihl, iplen)) =
    let proto = pkt.buf 23 in
    if proto == 6
    then quiet false arp
    else (if proto == 17
        then handle_udp pkt (14 + ipvihl) iplen arp
        else (if proto == 1
            then handle_icmp mac pkt (i32 pkt.buf 26) (14 + ipvihl) iplen free arp
            else quiet true arp))

-- `handle_ip4`, with the packet that `request_packet` gives, if any.
unfoldable pub handle_ip4 : Bytes → Packet → Option Bytes → ArpLayer → Handled
unfolding handle_payload
handle_ip4 mac pkt free arp = handle_payload mac pkt free arp (ip4_payload pkt)
