-- ===== src/Net/Dhcp.antt =====
-- kernel/net/queue.cpp, `DHCP_Client`: the state machine. `recv` is in Net/Dhcp/Recv.
pub mod Recv
pub mod Invariant
pub mod History
pub mod Lease
pub mod Nak
pub mod Send
mod Tests
use xivix.Base.{
  ℕ, zero, suc, ◌+◌, ◌-◌, ◌*◌, ◌^◌, Bool, true, false, if◌then◌else◌, ◌==◌, not, ◌&&◌, ◌||◌, Option,
  none, some, List, [], ◌∷◌, ltb, leb,
}
use xivix.Base.Word.{u32}
use xivix.Net.Packet.{Bytes, w, i32}
use xivix.Net.Arp.{ArpLayer, assign_ip4}

-- `DHCP_Client`, with the ARP table that `assign_ip4` changes. `offers` has the first `offer_count`
-- slots; the others are empty.
pub record Client : Type 0 where
  pub transaction : ℕ
  pub runtime : ℕ
  pub subtime : ℕ
  pub runstate : ℕ
  pub timeout : ℕ
  pub retry : ℕ
  pub offers : List Bytes
  pub lease_addr : ℕ
  pub next_addr : ℕ
  pub serv_addr : ℕ
  pub lease_time : ℕ
  pub lease_t1 : ℕ
  pub lease_t2 : ℕ
  pub arp : ArpLayer

-- The arguments of `send_packet`; none is the null pointer.
pub record Request : Type 0 where
  pub phase : ℕ
  pub reqip : Option ℕ
  pub srvip : Option ℕ
  pub dstip : Option ℕ

-- What the world gives to a step: the station address of the device and the next random number.
pub record World : Type 0 where
  pub mac : Bytes
  pub random : ℕ

-- The cases 4, 1 and 2 of `state`, after the timeout.
unfoldable pub restart : Bytes → Bool → Client → Client
restart mac full c =
    let c1 : Client = record c { subtime = 0; runtime = 0; offers = [] } in
    if full then record c1 { lease_addr = 0; arp = assign_ip4 0 mac c1.arp } else c1

-- `DHCP_Client::state`
unfoldable pub state : Bytes → ℕ → Client → Client
state mac newstate c0 =
    let c : Client = record c0 { runstate = newstate } in
    if newstate == 0
    then record c { offers = [] }
    else (if newstate == 4
        then restart mac true (record c { timeout = 300 })
        else (if newstate == 1
            then restart mac true c
            else (if newstate == 2
                then restart mac false c
                else (if newstate == 3 || newstate == 5
                    then record c { timeout = u32 (c.runtime + 5) }
                    else (if newstate == 6
                        then record c { timeout = u32 (c.runtime + 30) }
                        else (if newstate == 8
                            then record c { runtime = 0; subtime = 0; timeout = u32 (2 ^ c.retry) }
                            else c))))))

-- The loop of `verify`: the offer with the largest options, from the first one on.
unfoldable pub select : List Bytes → ℕ → Option Bytes → Option Bytes
select [] value best = best
select (o ∷ offers) value best =
    let better = select offers (i32 o 4) (some o) in
    let same = select offers value best in if ltb value (i32 o 4) then better else same

-- The request for an offer, whose first bytes `recv` has overwritten.
unfoldable pub request_offer : Bytes → Request
request_offer o = record {
  phase = 3;
  reqip = some (i32 o (w o 0 + 16));
  srvip = some (i32 o 8);
  dstip = none;
}

-- The selected offer is requested. The source reads through a null reference if there is none.
unfoldable pub request_selected : Bytes → Option Bytes → Client → Client × List Request
request_selected mac none c = (c, [])
request_selected mac (some o) c = (state mac 5 c, request_offer o ∷ [])

-- `DHCP_Client::verify` with the offers that there are, and the packets it asks to send.
unfoldable pub verify_offers : Bytes → Client → List Bytes → Client × List Request
verify_offers mac c [] =
    let failed : Client = record c { retry = u32 (c.retry + 1) } in
    let target = if leb c.lease_time c.lease_t2 then none else some c.serv_addr in
    if c.lease_addr == 0
    then (if ltb 6 failed.retry then (state mac 0 failed, []) else (state mac 2 failed, []))
    else (c, record { phase = 3; reqip = some c.lease_addr; srvip = none; dstip = target } ∷ [])
verify_offers mac c (o ∷ offers) = request_selected mac (select (o ∷ offers) 0 none) c

unfoldable pub verify : Bytes → Client → Client × List Request
verify mac c = verify_offers mac c c.offers

-- The time part of `run`.
unfoldable pub tick : Client → Client
tick c =
    let c1 : Client = record c { subtime = u32 (c.subtime + 1) } in
    let lease =
      if not (c.lease_time == 0) && not (c.lease_time == 0xffff_ffff)
      then c.lease_time - 1
      else c.lease_time in
    if leb 10 c1.subtime
    then record c1 { runtime = u32 (c.runtime + 1); subtime = 0; lease_time = lease }
    else c1

-- The cases 6 and 7: the lease is renewed when half of it is over.
unfoldable pub wait_lease : World → Client → Client
wait_lease world c =
    if ltb c.lease_time c.lease_t1
    then state world.mac 8 (record c { retry = 0; transaction = world.random })
    else c

-- The cases 1 to 8 of `run`.
unfoldable pub start_discover : World → Client → Client × List Request
start_discover world c =
    if ltb 10 c.runtime
    then (record (state world.mac 2 c) { retry = 0; transaction = world.random }, [])
    else (c, [])

unfoldable pub discover : World → Client → Client × List Request
discover world c =
    (state world.mac 3 c, record { phase = 1; reqip = none; srvip = none; dstip = none } ∷ [])

unfoldable pub wait_offer : World → Client → Client × List Request
wait_offer world c = if leb c.timeout c.runtime then verify world.mac c else (c, [])

unfoldable pub wait_error : World → Client → Client × List Request
wait_error world c = if ltb c.timeout c.runtime then (state world.mac 1 c, []) else (c, [])

unfoldable pub wait_ack : World → Client → Client × List Request
wait_ack world c =
    let again : Client = record c { retry = u32 (c.retry + 1) } in
    if leb c.timeout c.runtime
    then (if ltb 6 again.retry then (state world.mac 1 again, []) else verify world.mac again)
    else (c, [])

unfoldable pub acked : World → Client → Client × List Request
acked world c = (wait_lease world (if leb c.timeout c.runtime then state world.mac 7 c else c), [])

unfoldable pub renew : World → Client → Client × List Request
renew world c =
    let again : Client = record c { retry = u32 (c.retry + 1) } in
    let fresh : Client = record c { retry = 0; transaction = world.random } in
    if c.lease_time == 0
    then (state world.mac 1 c, [])
    else (if leb c.timeout c.runtime
        then (if ltb 6 again.retry
            then verify world.mac (state world.mac 8 fresh)
            else verify world.mac again)
        else (c, []))

unfoldable pub step : World → Client → Client × List Request
step world c =
    if c.runstate == 1
    then start_discover world c
    else (if c.runstate == 2
        then discover world c
        else (if c.runstate == 3
            then wait_offer world c
            else (if c.runstate == 4
                then wait_error world c
                else (if c.runstate == 5
                    then wait_ack world c
                    else (if c.runstate == 6
                        then acked world c
                        else (if c.runstate == 7
                            then (wait_lease world c, [])
                            else (if c.runstate == 8 then renew world c else (c, []))))))))

-- `DHCP_Client::run`
unfoldable pub run : World → Client → Client × List Request
run world c = step world (tick c)
