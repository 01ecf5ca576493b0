-- ===== src/Net/Dhcp/Tests.antt =====
-- kernel/net/queue.cpp, `DHCP_Client`: tests, and examples of the theorems.
use xivix.Base.{
  ltb, ◌-◌, ◌+◌, ◌/◌, ◌≡◌, refl, arith, if◌then◌else◌, none, some, [], ◌∷◌, replicate, get_or,
}
use xivix.Net.Packet.{Bytes, i32}
use xivix.Net.Arp.{ArpLayer, empty_entry}
use xivix.Net.Dhcp.{Client, World, wait_offer}
use xivix.Net.Dhcp.Recv.{Scan, recv, receive_options}
use xivix.Net.Dhcp.Invariant.{IsClient}
use xivix.Net.Dhcp.History.{timer, message, history, history-IsClient}
use xivix.Net.Dhcp.Lease.{offer_to_lease}
use xivix.Net.Dhcp.Nak.{IsNak, recv-nak}

abbrev no_arp : ArpLayer
no_arp = record {
  size = 0;
  table = replicate 4 empty_entry;
  limit = 4;
  system_ip = 0;
  behind = empty_entry;
}

-- The client after `start`, waiting for offers, with a time that is over.
abbrev waiting : Client
waiting = record {
  transaction = 7;
  runtime = 5;
  subtime = 0;
  runstate = 3;
  timeout = 5;
  retry = 0;
  offers = [];
  lease_addr = 0;
  next_addr = 0;
  serv_addr = 0;
  lease_time = 0;
  lease_t1 = 0;
  lease_t2 = 0;
  arp = no_arp;
}

abbrev world : World
world = record { mac = λ i. 2; random = 99 }

waiting-IsClient : IsClient waiting
waiting-IsClient = ground arith

-- The options of a refusal at byte 282 of a packet.
abbrev nak : Bytes
nak i =
    if ltb i 282 then 0 else get_or (53 ∷ 1 ∷ 6 ∷ 54 ∷ 4 ∷ 10 ∷ 0 ∷ 0 ∷ 1 ∷ 255 ∷ []) (i - 282) 0

nak-IsNak : IsNak nak (42 + 240)
nak-IsNak = record {
  type_code = refl;
  type_length = refl;
  type_value = refl;
  server_code = refl;
  server_length = refl;
  end_code = refl;
}

history-IsClient_example :
    IsClient (history (timer world ∷ message (λ i. 2) nak 42 300 ∷ timer world ∷ []) waiting)
history-IsClient_example =
    history-IsClient (timer world ∷ message (λ i. 2) nak 42 300 ∷ timer world ∷ []) waiting-IsClient

recv-nak_example : recv (λ i. 2) nak 42 (250 + 50) waiting ≡ waiting
recv-nak_example = recv-nak (λ i. 2) nak 42 50 waiting nak-IsNak

abbrev offer : Scan
offer = record { has_options = 0x10f; mtype = 2; sid = 0x0100_000a }

abbrev ack : Scan
ack = record { has_options = 0x10f; mtype = 5; sid = 0x0100_000a }

offer_to_lease_example :
    let c1 = receive_options world.mac nak 42 300 (some offer) waiting in
    let (c2, sent) = wait_offer world c1 in
    let c3 = receive_options world.mac nak 42 300 (some ack) c2 in
    (sent
      ≡ record {
        phase = 3;
        reqip = some (i32 nak (42 + 16));
        srvip = some 0x0100_000a;
        dstip = none;
      }
        ∷ [])
    × (c3.runstate ≡ 6)
    × (c3.lease_addr ≡ i32 nak (42 + 16))
    × (c3.arp.system_ip ≡ i32 nak (42 + 16))
    × (c3.lease_t1 ≡ c3.lease_time / 2)
offer_to_lease_example =
    offer_to_lease world nak nak 42 300 42 300 {s = offer} {s2 = ack} waiting refl refl
      (omega arith) (omega arith) (omega arith)
      (record { all = refl; word = omega arith; kind = refl })
      (record { all = refl; word = omega arith; kind = refl })
