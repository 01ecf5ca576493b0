-- ===== src/Net/Arp/Run.antt =====
-- kernel/net/queue.cpp: sequences of operations on the ARP table.
use xivix.Base.{ℕ, ◌≡◌, refl, arith, Bool, true, List, ◌&&◌, ◌∙◌, Option, [], ◌∷◌}
use xivix.Net.Packet.{Bytes}
use xivix.Net.Arp.{ArpLayer, resolve_with_arp, assign_ip4, runarp, handle_arp}
use xivix.Net.Arp.Unique.{IsTable}
use xivix.Net.Arp.Invariant.{
  has_place, assign_ip4-IsTable, resolve_with_arp-IsTable, runarp-IsTable, handle_arp-IsTable,
}
use xivix.Net.Arp.Behind.{
  assign_ip4-behind, resolve_with_arp-behind, runarp-behind, handle_arp-behind,
}

-- What the rest of the kernel calls.
pub data Call : Type 0 where
  assign : ℕ → Bytes → Call
  resolve : ℕ → Call
  tick : (ℕ → Bool) → Call
  receive : Bytes → Option Bytes → Bytes → Call

unfoldable pub run : List Call → ArpLayer → ArpLayer
run [] arp = arp
run (assign ip mac ∷ calls) arp = run calls (assign_ip4 ip mac arp)
run (resolve ip ∷ calls) arp = run calls (resolve_with_arp ip arp)
run (tick free ∷ calls) arp = run calls (runarp free arp).0
run (receive mac free pkt ∷ calls) arp = run calls (handle_arp mac free pkt arp).0

-- No address is assigned where there is no place for it.
unfoldable pub has_room : List Call → ArpLayer → Bool
has_room [] arp = true
has_room (assign ip mac ∷ calls) arp = has_place ip arp && has_room calls (assign_ip4 ip mac arp)
has_room (resolve ip ∷ calls) arp = has_room calls (resolve_with_arp ip arp)
has_room (tick free ∷ calls) arp = has_room calls (runarp free arp).0
has_room (receive mac free pkt ∷ calls) arp = has_room calls (handle_arp mac free pkt arp).0

-- A table in its bounds in which no two present entries have the same address stays so, and the memory
-- behind it is as before, in every sequence of address assignments, lookups, timer passes and received
-- frames in which an address is assigned only where there is a place for it: it is that of the machine,
-- or has an entry, or `add` gives a slot of the table.
pub run-IsTable :
    (calls : List Call) {arp : ArpLayer}
    → IsTable arp
    → has_room calls arp ≡ true
    → IsTable (run calls arp) × ((run calls arp).behind ≡ arp.behind)
unfolding run has_room
run-IsTable [] v room = (v, refl)
run-IsTable (assign ip mac ∷ calls) {arp} v room =
    let here : has_place ip arp ≡ true = ground (arith, room) in
    let rest : has_room calls (assign_ip4 ip mac arp) ≡ true = ground (arith, room) in
    let (table, same) = run-IsTable calls (assign_ip4-IsTable ip mac here v) rest in
    (table, same ∙ assign_ip4-behind ip mac arp here)
run-IsTable (resolve ip ∷ calls) {arp} v room =
    let (table, same) = run-IsTable calls (resolve_with_arp-IsTable ip v) room in
    (table, same ∙ resolve_with_arp-behind ip arp)
run-IsTable (tick free ∷ calls) {arp} v room =
    let (table, same) = run-IsTable calls (runarp-IsTable free v) room in
    (table, same ∙ runarp-behind free arp)
run-IsTable (receive mac free pkt ∷ calls) {arp} v room =
    let (table, same) = run-IsTable calls (handle_arp-IsTable mac free pkt v) room in
    (table, same ∙ handle_arp-behind mac free pkt arp)
