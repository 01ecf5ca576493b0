-- ===== src/Net/Frame.antt =====
-- kernel/net/queue.cpp, `packet_fill_arp`, `packet_send_resp_arp` and `packet_send_bc_arp`.
use xivix.Base.{ℕ, ◌+◌, ◌-◌, Option, none, some}
use xivix.Net.Packet.{Bytes, put, set_w, set_i32, set_mac, bswapw, w}

-- The target station, or zeros for the null pointer.
unfoldable pub set_target : ℕ → Option Bytes → Bytes → Bytes
unfolding set_w
set_target i none b = set_w (i + 4) 0 (set_w (i + 2) 0 (set_w i 0 b))
set_target i (some m) b = set_w (i + 4) (w m 4) (set_w (i + 2) (w m 2) (set_w i (w m 0) b))

-- `packet_fill_arp`, with the station address of the device and `system_ip`.
unfoldable pub packet_fill_arp : ℕ → ℕ → Option Bytes → Bytes → ℕ → Bytes → Bytes
unfolding put set_w set_i32 set_mac set_target bswapw
packet_fill_arp opc nani lla mac system_ip buf =
    let sop : ℕ = 14 in
    let b1 : Bytes = put (sop - 1) 6 (put (sop - 2) 8 buf) in
    let b2 : Bytes = set_w (sop + 2) (bswapw 0x800) (set_w sop (bswapw 1) b1) in
    let b3 : Bytes = put (sop + 7) opc (put (sop + 6) 0 (put (sop + 5) 4 (put (sop + 4) 6 b2))) in
    let b4 : Bytes = set_i32 (sop + 14) system_ip (set_mac (sop + 8) mac b3) in
    set_i32 (sop + 24) nani (set_target (sop + 18) lla b4)

-- `packet_send_resp_arp`: a response to `doko` at `nani`, in the buffer `buf`.
unfoldable pub packet_send_resp_arp : ℕ → Bytes → Bytes → ℕ → Bytes → Bytes → Bytes
unfolding set_w set_mac
packet_send_resp_arp nani doko mac system_ip src buf =
    let b1 : Bytes = set_w 2 (w src 8) (set_w 0 (w src 6) (set_mac 6 mac buf)) in
    packet_fill_arp 2 nani (some doko) mac system_ip (set_w 4 (w src 10) b1)

-- `packet_send_bc_arp`: a query for `nani` to every station.
unfoldable pub packet_send_bc_arp : ℕ → Bytes → ℕ → Bytes → Bytes
unfolding set_w set_mac
packet_send_bc_arp nani mac system_ip buf =
    let b1 : Bytes = set_w 4 0xffff (set_w 2 0xffff (set_w 0 0xffff (set_mac 6 mac buf))) in
    packet_fill_arp 1 nani none mac system_ip b1
