-- ===== src/Net/Arp/Behind.antt =====
-- kernel/net/queue.cpp: the memory behind the ARP table in the operations on it.
use xivix.Base.{ℕ, ◌≡◌, refl, arith, Bool, true, ◌+◌, Option}
use xivix.Net.Packet.{Bytes, i32}
use xivix.Net.Arp.{ArpLayer, add, assign_ip4, resolve_with_arp, runarp, learn, confirm, handle_arp}
use xivix.Net.Arp.Invariant.{has_place}

add-behind : (arp : ArpLayer) → (add arp).1.behind ≡ arp.behind
unfolding add
add-behind arp = ground arith

pub assign_ip4-behind :
    (ip : ℕ) (mac : Bytes) (arp : ArpLayer)
    → has_place ip arp ≡ true
    → (assign_ip4 ip mac arp).behind ≡ arp.behind
unfolding assign_ip4 has_place
assign_ip4-behind ip mac arp room = ground (arith, room, add-behind arp)

pub resolve_with_arp-behind :
    (ip : ℕ) (arp : ArpLayer) → (resolve_with_arp ip arp).behind ≡ arp.behind
unfolding resolve_with_arp
resolve_with_arp-behind ip arp = ground (arith, add-behind arp)

pub runarp-behind : (free : ℕ → Bool) (arp : ArpLayer) → (runarp free arp).0.behind ≡ arp.behind
unfolding runarp
runarp-behind free arp = refl

learn-behind : (ip : ℕ) (src : Bytes) (arp : ArpLayer) → (learn ip src arp).behind ≡ arp.behind
unfolding learn
learn-behind ip src arp = ground (arith, add-behind arp)

confirm-behind : (ip : ℕ) (src : Bytes) (arp : ArpLayer) → (confirm ip src arp).behind ≡ arp.behind
unfolding confirm
confirm-behind ip src arp = ground (arith, add-behind arp)

pub handle_arp-behind :
    (mac : Bytes) (free : Option Bytes) (pkt : Bytes) (arp : ArpLayer)
    → (handle_arp mac free pkt arp).0.behind ≡ arp.behind
unfolding handle_arp
handle_arp-behind mac free pkt arp =
    let l = learn-behind (i32 pkt 28) (λ i. pkt (22 + i)) arp in
    let c = confirm-behind (i32 pkt 28) (λ i. pkt (22 + i)) arp in ground (arith, l, c)
