-- ===== src/Net/Tests.antt =====
-- kernel/net/queue.cpp: tests on concrete tables and packets, and examples of the theorems.
use xivix.Base.{List, ℕ, ◌+◌, ◌*◌, ◌%◌, ◌<◌, ◌≡◌, refl, arith, true, none, some, [], ◌∷◌, replicate}
use xivix.Net.Packet.{set_i32, put, Bytes, Packet, nw, i32}
use xivix.Net.Frame.{packet_fill_arp, packet_send_bc_arp, packet_send_resp_arp}
use xivix.Net.Checksum.{ipchksum, rounds, sum_bytes, fold, fold_once}
use xivix.Net.Checksum.Fold.{ones_sum}
use xivix.Net.Checksum.Sum.{IsBytes, words, ipchksum-words}
use xivix.Net.Arp.{
  ArpEntry, ArpLayer, empty_entry, entry_at, handle_arp, confirm, answer, assign_ip4, assign_entry,
  resolve_with_arp, ask, runarp, run_entries, run_entry, find_ip, find_from, add, find_free,
}
use xivix.Net.Arp.Unique.{IsTable}
use xivix.Net.Arp.Invariant.{has_place}
use xivix.Net.Arp.Run.{Call, assign, resolve, tick, receive, run, run-IsTable, has_room}
use xivix.Net.Arp.Keep.{Holds}
use xivix.Net.Arp.Exchange.{Same, handle_arp_exchange, own_address_taken}
use xivix.Net.Ip.{
  from, fill_udp_checksum, fill_echo, fill_destination, send_via_udp, handle_ip4, handle_udp,
  broadcast,
}
use xivix.Net.Ip.Check.{udp_sum, fill_udp_checksum-valid}
use xivix.Net.Ip.Echo.{fill_echo_lem}
use xivix.Net.Ip.Udp.{Datagram, send_via_udp-handle_ip4}

abbrev counting : Bytes
counting i = i % 0x100

counting-IsBytes : IsBytes counting
counting-IsBytes j = omega arith

abbrev zeros : Bytes
zeros i = 0

zeros-IsBytes : IsBytes zeros
zeros-IsBytes j = omega arith

ipchksum-counting : ipchksum counting 4 0 ≡ 0x204
unfolding ipchksum rounds sum_bytes fold fold_once
ipchksum-counting = refl

-- One byte 0x0f before a byte 0x10: not 0xf00.
ipchksum-one_byte : ipchksum (from 15 counting) 1 0 ≡ 0x1e10
unfolding ipchksum rounds sum_bytes fold fold_once
ipchksum-one_byte = refl

ipchksum-words_example : ipchksum counting (2 * 3) 5 ≡ ones_sum (5 + words 3 counting 0)
ipchksum-words_example =
    ipchksum-words counting 3 5 counting-IsBytes (omega arith) (omega arith) (omega arith)

fill_udp_checksum-valid_example : udp_sum (2 + 4) (fill_udp_checksum (2 * (2 + 4)) zeros) ≡ 0xffff
unfolding nw
fill_udp_checksum-valid_example = fill_udp_checksum-valid 2 zeros-IsBytes refl (omega arith)

fill_echo_lem_example :
    let reply = fill_echo counting 34 16 zeros in
    (reply 34 ≡ 0)
    × ((i : ℕ) → i + 4 < 16 → reply (38 + i) ≡ counting (34 + 4 + i))
    × (16 % 2 ≡ 0 → ipchksum (from 34 reply) 16 0 ≡ 0xffff)
fill_echo_lem_example =
    fill_echo_lem 34 16 counting-IsBytes zeros-IsBytes (omega arith) (omega arith)

-- 10.0.0.1 and 10.0.0.2
abbrev ip_a : ℕ
ip_a = 0x0100_000a

abbrev ip_b : ℕ
ip_b = 0x0200_000a

abbrev own_a : ArpEntry
own_a = record { ipa = ip_a; lla = zeros; info = 0xb000 }

abbrev wanted_a : ArpEntry
wanted_a = record { ipa = ip_a; lla = zeros; info = 0x1003 }

abbrev host_a : ArpLayer
host_a = record {
  size = 1;
  table = own_a ∷ replicate 3 empty_entry;
  limit = 4;
  system_ip = ip_a;
  behind = empty_entry;
}

abbrev host_b : ArpLayer
host_b = record {
  size = 1;
  table = wanted_a ∷ replicate 3 empty_entry;
  limit = 4;
  system_ip = ip_b;
  behind = empty_entry;
}

host_a-IsTable : IsTable host_a
host_a-IsTable = record {
  within = omega arith;
  slots = refl;
  unique = λ i j h k p q e. omega arith;
}

host_b-IsTable : IsTable host_b
host_b-IsTable = record {
  within = omega arith;
  slots = refl;
  unique = λ i j h k p q e. omega arith;
}

own-Holds : Holds host_a 0 own_a
own-Holds = record { slot = omega arith; here = refl; there = refl }

wanted-Holds : Holds host_b 0 wanted_a
wanted-Holds = record { slot = omega arith; here = refl; there = refl }

abbrev calls : List Call
calls = assign ip_b zeros ∷ resolve ip_a ∷ tick (λ i. true) ∷ receive zeros none counting ∷ []

run-IsTable_example : IsTable (run calls host_a) × ((run calls host_a).behind ≡ host_a.behind)
unfolding has_room has_place assign_ip4 assign_entry resolve_with_arp ask runarp run_entries
    run_entry find_ip find_from add find_free
run-IsTable_example = run-IsTable calls host_a-IsTable refl

handle_arp_exchange_example :
    let query = packet_send_bc_arp ip_a zeros ip_b zeros in
    let reply = packet_send_resp_arp ip_b (λ k. query (22 + k)) counting ip_a query zeros in
    let (a1, sent) = handle_arp counting (some zeros) query host_a in
    let known = entry_at (handle_arp zeros none reply host_b).0 0 in
    Holds a1 0 own_a
    × (sent ≡ some reply)
    × (known.ipa ≡ ip_a)
    × (known.info ≡ 0x30b4)
    × Same known.lla counting
handle_arp_exchange_example =
    handle_arp_exchange host_a-IsTable own-Holds refl refl (omega arith) host_b-IsTable wanted-Holds
      (λ e. absurd (omega (arith, e))) refl (omega arith) counting zeros zeros zeros none

own_address_taken_example :
    let query = packet_send_bc_arp ip_a zeros ip_b zeros in
    let taken = confirm ip_a counting host_a in
    ((entry_at taken 0).lla ≡ counting) × (answer zeros (some zeros) query taken ≡ none)
unfolding packet_send_bc_arp packet_fill_arp set_i32 put i32
own_address_taken_example =
    own_address_taken host_a-IsTable own-Holds refl zeros counting
      (packet_send_bc_arp ip_a zeros ip_b zeros) zeros refl

send_via_udp-handle_ip4_example :
    (p : Packet) × (send_via_udp zeros 68 broadcast 0x4300 counting 300 (some zeros) host_a
      ≡ (host_a, some p))
    × Datagram p.buf 68 0x4300 (300 + 8) counting
    × (i32 p.buf 26 ≡ ip_a)
    × (handle_ip4 counting p none host_b ≡ handle_udp p 34 (300 + 8) host_b)
unfolding fill_destination
send_via_udp-handle_ip4_example =
    send_via_udp-handle_ip4 zeros counting zeros (omega arith) (omega arith) refl (omega arith)
      (omega arith) refl counting none host_b
