-- ===== src/Net/Dhcp/Lease.antt =====
-- kernel/net/queue.cpp, `DHCP_Client`: from an offer to a lease, and the way without an answer.
use xivix.Base.{
  lt→ltb, ℕ, ◌+◌, ◌/◌, ◌≤◌, ◌<◌, ◌≡◌, refl, arith, true, none, some, [], ◌∷◌, ltb, leb, Bool-cases,
  inl, inr, bit_and,
}
use xivix.Net.Dhcp.Invariant.{assign_ip4-system_ip, state-runstate}
use xivix.Base.{ltb→lt}
use xivix.Base.Bits.{zero-bit_and}
use xivix.Net.Packet.{Bytes, w, i32, set_w, set_i32, put}
use xivix.Net.Dhcp.{
  Client, World, state, request_offer, request_selected, select, verify_offers, verify, wait_offer,
}
use xivix.Net.Dhcp.Recv.{Scan, accept, receive_options, keep_offer}

keep_offer-w :
    (buf : Bytes) (ofs len : ℕ) (s : Scan) → ofs < 0x10000 → w (keep_offer buf ofs len s) 0 ≡ ofs
unfolding keep_offer w set_w set_i32 put
keep_offer-w buf ofs len s h = omega arith

keep_offer-options :
    (buf : Bytes) (ofs len : ℕ) (s : Scan)
    → s.has_options < 0x1_0000_0000
    → i32 (keep_offer buf ofs len s) 4 ≡ s.has_options
unfolding keep_offer i32 set_w set_i32 put
keep_offer-options buf ofs len s h = omega arith

keep_offer-sid :
    (buf : Bytes) (ofs len : ℕ) (s : Scan)
    → s.sid < 0x1_0000_0000
    → i32 (keep_offer buf ofs len s) 8 ≡ s.sid
unfolding keep_offer i32 set_w set_i32 put
keep_offer-sid buf ofs len s h = omega arith

keep_offer-above :
    (buf : Bytes) (ofs len : ℕ) (s : Scan) (j : ℕ)
    → keep_offer buf ofs len s (12 + j) ≡ buf (12 + j)
unfolding keep_offer set_w set_i32 put
keep_offer-above buf ofs len s j = ground arith

i32-above :
    (f g : Bytes)
    → ((j : ℕ) → f (12 + j) ≡ g (12 + j))
    → (ofs : ℕ) → i32 f (ofs + 16) ≡ i32 g (ofs + 16)
unfolding i32
i32-above f g h ofs =
    let e0 : 12 + (ofs + 4) ≡ ofs + 16 = omega arith in
    let e1 : 12 + (ofs + 5) ≡ ofs + 16 + 1 = omega arith in
    let e2 : 12 + (ofs + 6) ≡ ofs + 16 + 2 = omega arith in
    let e3 : 12 + (ofs + 7) ≡ ofs + 16 + 3 = omega arith in
    omega (
      arith,
      rw e0 at (h (ofs + 4)),
      rw e1 at (h (ofs + 5)),
      rw e2 at (h (ofs + 6)),
      rw e3 at (h (ofs + 7)),
    )

-- A kept offer is requested by its address and its server, although its first bytes were overwritten.
request_offer-keep_offer :
    (buf : Bytes) (ofs len : ℕ) (s : Scan)
    → ofs < 0x10000
    → s.sid < 0x1_0000_0000
    → request_offer (keep_offer buf ofs len s)
      ≡ record { phase = 3; reqip = some (i32 buf (ofs + 16)); srvip = some s.sid; dstip = none }
unfolding request_offer
request_offer-keep_offer buf ofs len s h k =
    rw
      (
        keep_offer-w buf ofs len s h,
        i32-above (keep_offer buf ofs len s) buf (keep_offer-above buf ofs len s) ofs,
        keep_offer-sid buf ofs len s k,
      )
      refl

-- The options that every message must have, and its type.
pub record Has (s : Scan) (mtype : ℕ) : Type 0 where
  pub all : bit_and s.has_options 0x10f ≡ 0x10f
  pub word : s.has_options < 0x1_0000_0000
  pub kind : s.mtype ≡ mtype

Has-positive : {s : Scan} {m : ℕ} → Has s m → 0 < s.has_options
Has-positive {s} h = elim (Bool-cases (ltb 0 s.has_options)) [
  | inl positive ↦ ltb→lt _ _ positive
  | inr none_set ↦
      let zero_set : s.has_options ≡ 0 = ground arith in
      absurd (omega (arith, rw (zero_set, zero-bit_and 0x10f) at h.all))
]

le→leb : (a b : ℕ) → a ≤ b → leb a b ≡ true
le→leb a b h = ground arith

offer_kept :
    (mac buf : Bytes) (ofs len : ℕ) {s : Scan} {c : Client}
    → Has s 2
    → c.runstate ≡ 3
    → c.offers ≡ []
    → receive_options mac buf ofs len (some s) c
      ≡ record c { offers = keep_offer buf ofs len s ∷ [] }
unfolding receive_options
offer_kept mac buf ofs len h e o = rw (h.all, h.kind, e, o) refl

select_one : (o : Bytes) → 0 < i32 o 4 → select (o ∷ []) 0 none ≡ some o
unfolding select
select_one o h = rw (lt→ltb 0 (i32 o 4) h) refl

ack_taken :
    (mac buf : Bytes) (ofs len : ℕ) {s : Scan} (c : Client)
    → Has s 5
    → c.runstate ≡ 5
    → let c1 = receive_options mac buf ofs len (some s) c in
      (c1.runstate ≡ 6)
      × (c1.lease_addr ≡ i32 buf (ofs + 16))
      × (c1.arp.system_ip ≡ i32 buf (ofs + 16))
      × (c1.lease_t1 ≡ c1.lease_time / 2)
unfolding receive_options accept state
ack_taken mac buf ofs len {s} c h e =
    rw (h.all, h.kind, e) (refl, refl, assign_ip4-system_ip (i32 buf (ofs + 16)) mac c.arp, refl)

-- The client waits for offers, has none, and its time is over. It gets an offer with all options it
-- asks for, at an offset of 16 bits, of a server with a 32-bit address. Then it requests the
-- offered address of that server, and an acknowledgement with these options gives the machine the
-- acknowledged address, with the renewal after half of the lease.
pub offer_to_lease :
    (world : World) (buf buf2 : Bytes) (ofs len ofs2 len2 : ℕ) {s s2 : Scan} (c : Client)
    → c.runstate ≡ 3
    → c.offers ≡ []
    → c.timeout ≤ c.runtime
    → ofs < 0x10000
    → s.sid < 0x1_0000_0000
    → Has s 2
    → Has s2 5
    → let c1 = receive_options world.mac buf ofs len (some s) c in
      let (c2, sent) = wait_offer world c1 in
      let c3 = receive_options world.mac buf2 ofs2 len2 (some s2) c2 in
      (sent
        ≡ record { phase = 3; reqip = some (i32 buf (ofs + 16)); srvip = some s.sid; dstip = none }
          ∷ [])
      × (c3.runstate ≡ 6)
      × (c3.lease_addr ≡ i32 buf2 (ofs2 + 16))
      × (c3.arp.system_ip ≡ i32 buf2 (ofs2 + 16))
      × (c3.lease_t1 ≡ c3.lease_time / 2)
unfolding wait_offer verify verify_offers request_selected
offer_to_lease world buf buf2 ofs len ofs2 len2 {s} {s2} c e o due h k a a2 =
    let kept : Bytes = keep_offer buf ofs len s in
    let positive : 0 < i32 kept 4 = rw (keep_offer-options buf ofs len s a.word) (Has-positive a) in
    let c2 : Client = state world.mac 5 (record c { offers = kept ∷ [] }) in
    let t =
      ack_taken world.mac buf2 ofs2 len2 c2 a2
        (state-runstate world.mac 5 (record c { offers = kept ∷ [] })) in
    rw
      (
        offer_kept world.mac buf ofs len {c = c} a e o,
        le→leb c.timeout c.runtime due,
        select_one kept positive,
        request_offer-keep_offer buf ofs len s h k,
      )
      (refl, t.0, t.1, t.2, t.3)
