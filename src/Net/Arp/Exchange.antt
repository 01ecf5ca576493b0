-- ===== src/Net/Arp/Exchange.antt =====
-- kernel/net/queue.cpp, `handle_arp` and the frames: a host asks for an address and learns the station
-- of the host that has it.
use xivix.Base.{
  ◌^◌, ℕ, ◌+◌, ◌<◌, ◌≡◌, ◌≢◌, refl, arith, get_or-set_self, lt→ltb, ne→==, sym, ◌∙◌, ap, Option,
  some, none,
}
use xivix.Net.Packet.{Bytes, nw, i32, put, set_w, set_i32, set_mac, bswapw}
use xivix.Net.Frame.{packet_fill_arp, set_target, packet_send_bc_arp, packet_send_resp_arp}
use xivix.Net.Arp.{
  ArpEntry, ArpLayer, status, empty_entry, entry_at, add, learn, confirm, confirm_entry, handle_arp,
  answer,
}
use xivix.Net.Arp.Unique.{IsTable}
use xivix.Net.Arp.Invariant.{confirm-IsTable, learn-IsTable}
use xivix.Net.Arp.Keep.{Holds, find_ip-Holds, learn-Holds}

-- The six bytes of a station address are the same.
abbrev pub Same : Bytes → Bytes → Type 0
Same a b = (a 0 ≡ b 0) × (a 1 ≡ b 1) × (a 2 ≡ b 2) × (a 3 ≡ b 3) × (a 4 ≡ b 4) × (a 5 ≡ b 5)

-- The values that `handle_arp` reads of a frame.
record Frame (pkt : Bytes) (opc source target : ℕ) (mac : Bytes) : Type 0 where
  hwtype : nw pkt 14 ≡ 1
  prtype : nw pkt 16 ≡ 0x800
  hwsize : pkt 18 ≡ 6
  prsize : pkt 19 ≡ 4
  operation : nw pkt 20 ≡ opc
  source_ip : i32 pkt 28 ≡ source
  target_ip : i32 pkt 38 ≡ target
  station : Same (λ i. pkt (22 + i)) mac

query-Frame :
    (nani system_ip : ℕ) (mac buf : Bytes)
    → nani < 0x1_0000_0000
    → system_ip < 0x1_0000_0000
    → Frame (packet_send_bc_arp nani mac system_ip buf) 1 system_ip nani mac
unfolding packet_send_bc_arp packet_fill_arp set_target set_mac set_i32 set_w put bswapw i32 nw
query-Frame nani system_ip mac buf h k = record {
  hwtype = refl;
  prtype = refl;
  hwsize = refl;
  prsize = refl;
  operation = refl;
  source_ip = omega arith;
  target_ip = omega arith;
  station = (refl, refl, refl, refl, refl, refl);
}

response-Frame :
    (nani system_ip : ℕ) (doko mac src buf : Bytes)
    → nani < 0x1_0000_0000
    → system_ip < 0x1_0000_0000
    → Frame (packet_send_resp_arp nani doko mac system_ip src buf) 2 system_ip nani mac
unfolding packet_send_resp_arp packet_fill_arp set_target set_mac set_i32 set_w put bswapw i32 nw
response-Frame nani system_ip doko mac src buf h k = record {
  hwtype = refl;
  prtype = refl;
  hwsize = refl;
  prsize = refl;
  operation = refl;
  source_ip = omega arith;
  target_ip = omega arith;
  station = (refl, refl, refl, refl, refl, refl);
}

handle-query :
    (arp : ArpLayer) {pkt mac : Bytes} {source target : ℕ}
    → Frame pkt 1 source target mac
    → (own : Bytes) (free : Option Bytes)
    → handle_arp own free pkt arp ≡ (
      learn source (λ i. pkt (22 + i)) arp,
      answer own free pkt (learn source (λ i. pkt (22 + i)) arp),
    )
unfolding handle_arp
handle-query arp f own free = rw (f.hwtype, f.prtype, f.hwsize, f.prsize, f.operation, f.source_ip)

handle-response :
    (arp : ArpLayer) {pkt mac : Bytes} {source target : ℕ}
    → Frame pkt 2 source target mac
    → (own : Bytes) (free : Option Bytes)
    → handle_arp own free pkt arp ≡ (confirm source (λ i. pkt (22 + i)) arp, none)
unfolding handle_arp
handle-response arp f own free =
    rw (f.hwtype, f.prtype, f.hwsize, f.prsize, f.operation, f.source_ip)

answer-own :
    {arp : ArpLayer} {pkt mac : Bytes} {source : ℕ} {i : ℕ} {e : ArpEntry}
    → IsTable arp
    → Holds arp i e
    → status e ≡ 0xa000
    → Frame pkt 1 source e.ipa mac
    → (own buf : Bytes)
    → answer own (some buf) pkt arp
      ≡ some (packet_send_resp_arp source (λ i. pkt (22 + i)) own arp.system_ip pkt buf)
unfolding answer
answer-own v h active f own buf =
    rw (f.target_ip, f.source_ip, find_ip-Holds v h, lt→ltb _ _ h.slot, h.here, active)

confirm-Holds :
    (src : Bytes) {arp : ArpLayer} {i : ℕ} {e : ArpEntry}
    → IsTable arp
    → Holds arp i e
    → status e ≢ 0x8000
    → Holds (confirm e.ipa src arp) i (record { ipa = e.ipa; lla = src; info = 0x30b4 })
unfolding confirm confirm_entry
confirm-Holds src {arp} {i} {e} v h differs =
    rw (find_ip-Holds v h, lt→ltb _ _ h.slot, h.here, h.there, ne→== (status e) 0x8000 differs)
      (record {
        slot = h.slot;
        here =
            get_or-set_self arp.table i (record { ipa = e.ipa; lla = src; info = 0x30b4 })
              empty_entry (omega (arith, v.slots, v.within, h.slot));
        there = refl;
      })

learn-system_ip :
    (ip : ℕ) (src : Bytes) (arp : ArpLayer) → (learn ip src arp).system_ip ≡ arp.system_ip
unfolding learn add
learn-system_ip ip src arp = ground arith

-- Of two hosts with valid tables and 32-bit addresses, `b` has an entry for the address of `a` that
-- is not one it is about to take itself, and asks for it; `a` has the address active and has a
-- packet free. Then `a` answers and keeps its entry, and from the answer `b` knows the station
-- address of `a`.
pub handle_arp_exchange :
    {a b : ArpLayer} {i j : ℕ} {own wanted : ArpEntry}
    → IsTable a
    → Holds a i own
    → status own ≡ 0xa000
    → own.ipa ≡ a.system_ip
    → a.system_ip < 2 ^ 32
    → IsTable b
    → Holds b j wanted
    → status wanted ≢ 0x8000
    → wanted.ipa ≡ own.ipa
    → b.system_ip < 2 ^ 32
    → (mac_a mac_b buf_a buf_b : Bytes) (free : Option Bytes)
    → let query = packet_send_bc_arp own.ipa mac_b b.system_ip buf_b in
      let reply =
        packet_send_resp_arp b.system_ip (λ k. query (22 + k)) mac_a a.system_ip query buf_a in
      let (a1, sent) = handle_arp mac_a (some buf_a) query a in
      let known = entry_at (handle_arp mac_b free reply b).0 j in
      Holds a1 i own
      × (sent ≡ some reply)
      × (known.ipa ≡ own.ipa)
      × (known.info ≡ 0x30b4)
      × Same known.lla mac_a
handle_arp_exchange {a} {b} {i} {j} {own} {wanted} va ha active mine small vb hb differs same
      small_b mac_a mac_b buf_a buf_b free =
    let query : Bytes = packet_send_bc_arp own.ipa mac_b b.system_ip buf_b in
    let reply : Bytes =
      packet_send_resp_arp b.system_ip (λ k. query (22 + k)) mac_a a.system_ip query buf_a in
    let fq = query-Frame own.ipa b.system_ip mac_b buf_b (omega arith) small_b in
    let fr =
      response-Frame b.system_ip a.system_ip (λ k. query (22 + k)) mac_a query buf_a small_b
        small in
    let src : Bytes = λ k. query (22 + k) in
    let ha1 = learn-Holds b.system_ip src va ha in
    let learned = learn-IsTable b.system_ip src va in
    let sent : (handle_arp mac_a (some buf_a) query a).1 ≡ some reply =
      ap (λ r. r.1) (handle-query a fq mac_a (some buf_a))
      ∙ answer-own learned ha1 active fq mac_a buf_a
      ∙ ap (λ ip. some (packet_send_resp_arp b.system_ip src mac_a ip query buf_a))
          (learn-system_ip b.system_ip src a) in
    let known : entry_at (handle_arp mac_b free reply b).0 j
        ≡ record { ipa = a.system_ip; lla = λ k. reply (22 + k); info = 0x30b4 } =
      ap (λ r. entry_at r.0 j) (handle-response b fr mac_b free)
      ∙ rw (same ∙ mine) at (confirm-Holds (λ k. reply (22 + k)) vb hb differs).here in
    (
      rw (handle-query a fq mac_a (some buf_a)) ha1,
      sent,
      ap (λ e. e.ipa) known ∙ sym mine,
      ap (λ e. e.info) known,
      rw known fr.station,
    )

-- A response that claims an address which this machine has active replaces its entry: the machine then
-- answers no query for the address.
pub own_address_taken :
    {arp : ArpLayer} {i : ℕ} {own : ArpEntry}
    → IsTable arp
    → Holds arp i own
    → status own ≡ 0xa000
    → (mac src query buf : Bytes) → i32 query 38 ≡ own.ipa
    → let taken = confirm own.ipa src arp in
      ((entry_at taken i).lla ≡ src) × (answer mac (some buf) query taken ≡ none)
unfolding answer
own_address_taken {arp} {i} {own} v h active mac src query buf asked =
    let differs : status own ≢ 0x8000 = λ q. absurd (omega (arith, active, q)) in
    let held = confirm-Holds src v h differs in
    (
      ap (λ e. e.lla) held.here,
      rw
          (
            asked,
            find_ip-Holds (confirm-IsTable own.ipa src v) held,
            lt→ltb _ _ held.slot,
            held.here,
          )
          refl,
    )
