-- ===== src/Net/Dhcp/Invariant.antt =====
-- kernel/net/queue.cpp, `DHCP_Client`: what holds of the client in every state.
use xivix.Base.{
  ℕ, ◌+◌, ◌≤◌, ◌<◌, ◌≡◌, refl, arith, ◌==◌, Option, none, some, List, [], ◌∷◌, length, ltb→le, ltb,
  leb, Bool-cases, inl, inr,
}
use xivix.Base.Word.{u32}
use xivix.Net.Packet.{Bytes}
use xivix.Net.Arp.{ArpLayer, assign_ip4}
use xivix.Net.Dhcp.{
  Client, World, restart, state, select, request_selected, verify_offers, verify, tick, wait_lease,
  start_discover, discover, wait_offer, wait_error, wait_ack, acked, renew, step,
}

-- What does not depend on the state: the machine has the address of the lease, at most four offers are
-- kept, and the attempts are counted up to 7.
pub record IsSound (c : Client) : Type 0 where
  pub tries : c.retry ≤ 7
  pub offered : length c.offers ≤ 4
  pub address : c.arp.system_ip ≡ c.lease_addr

-- The lease is 0 until an address is bound; an offer is kept while the client waits for the answer to its
-- request, and none from then on.
pub record IsClient (c : Client) : Type 0 where
  pub sound : IsSound c
  pub states : c.runstate ≤ 8
  pub attempts : 1 < c.runstate → c.retry ≤ 6
  pub unbound : c.runstate ≤ 5 → c.lease_addr ≡ 0
  pub requested : c.runstate ≡ 5 → 0 < length c.offers
  pub settled : 5 < c.runstate → length c.offers ≡ 0

pub assign_ip4-system_ip :
    (ip : ℕ) (mac : Bytes) (arp : ArpLayer) → (assign_ip4 ip mac arp).system_ip ≡ ip
unfolding assign_ip4
assign_ip4-system_ip ip mac arp = ground arith

pub state-start : (mac : Bytes) {c : Client} → IsSound c → IsClient (state mac 1 c)
unfolding state restart
state-start mac {c} v = record {
  sound = record {
    tries = v.tries;
    offered = omega arith;
    address = assign_ip4-system_ip 0 mac c.arp;
  };
  states = omega arith;
  attempts = λ h. absurd (omega arith);
  unbound = λ h. refl;
  requested = λ h. absurd (omega arith);
  settled = λ h. absurd (omega arith);
}

state-shutdown :
    (mac : Bytes) {c : Client} → c.lease_addr ≡ 0 → IsSound c → IsClient (state mac 0 c)
unfolding state
state-shutdown mac k v = ground arith

pub state-discover :
    (mac : Bytes) {c : Client}
    → c.lease_addr ≡ 0
    → c.retry ≤ 6
    → IsSound c
    → IsClient (state mac 2 c)
unfolding state restart
state-discover mac k l v = ground arith

pub state-wait_offer :
    (mac : Bytes) {c : Client}
    → c.lease_addr ≡ 0
    → c.retry ≤ 6
    → IsSound c
    → IsClient (state mac 3 c)
unfolding state
state-wait_offer mac k l v = ground arith

state-wait_ack :
    (mac : Bytes) {c : Client}
    → c.lease_addr ≡ 0
    → 0 < length c.offers
    → c.retry ≤ 6
    → IsSound c
    → IsClient (state mac 5 c)
unfolding state
state-wait_ack mac k o l v = ground arith

pub state-bound :
    (mac : Bytes) (s : ℕ) {c : Client}
    → 5 < s
    → s ≤ 8
    → length c.offers ≡ 0
    → c.retry ≤ 6
    → IsSound c
    → IsClient (state mac s c)
unfolding state
state-bound mac s {c} l h k r v = ground arith

again : {c : Client} → IsSound c → c.retry ≤ 6 → IsSound (record c { retry = u32 (c.retry + 1) })
again {c} v h = ground arith

fresh : {c : Client} (t : ℕ) → IsSound c → IsSound (record c { retry = 0; transaction = t })
fresh {c} t v = ground arith

request_selected-IsClient :
    (mac : Bytes) (o : Option Bytes) {c : Client}
    → (0 < length c.offers → c.lease_addr ≡ 0)
    → 0 < length c.offers
    → IsClient c
    → c.retry ≤ 6
    → IsClient (request_selected mac o c).0
unfolding request_selected
request_selected-IsClient mac none k l v r = v
request_selected-IsClient mac (some o) k l v r = state-wait_ack mac (k l) l r v.sound

verify_offers-IsClient :
    (mac : Bytes) {c : Client} (offers : List Bytes)
    → c.offers ≡ offers
    → (0 < length c.offers → c.lease_addr ≡ 0)
    → c.retry ≤ 6
    → IsClient c
    → IsClient (verify_offers mac c offers).0
unfolding verify_offers
verify_offers-IsClient mac {c} [] e k l v = elim (Bool-cases (c.lease_addr == 0)) [
  | inl free ↦ elim (Bool-cases (ltb 6 (u32 (c.retry + 1)))) [
    | inl last ↦ rw (free, last) (state-shutdown mac (ground arith) (again v.sound l))
    | inr more ↦
        rw (free, more) (state-discover mac (ground arith) (ltb→le _ _ more) (again v.sound l))
  ]
  | inr leased ↦ rw leased v
]
verify_offers-IsClient mac {c} (o ∷ offers) e k l v =
    request_selected-IsClient mac (select (o ∷ offers) 0 none) k (rw e (omega arith)) v l

verify-IsClient : (mac : Bytes) {c : Client} → c.retry ≤ 6 → IsClient c → IsClient (verify mac c).0
unfolding verify
verify-IsClient mac {c} l v =
    verify_offers-IsClient mac c.offers refl (λ h. v.unbound (ground arith)) l v

pub tick-IsClient : {c : Client} → IsClient c → IsClient (tick c)
unfolding tick
tick-IsClient {c} v = ground arith

wait_lease-IsClient :
    (world : World) {c : Client} → 5 < c.runstate → IsClient c → IsClient (wait_lease world c)
unfolding wait_lease
wait_lease-IsClient world {c} h v = elim (Bool-cases (ltb c.lease_time c.lease_t1)) [
  | inl half ↦ rw half (
      state-bound world.mac 8 (omega arith) (omega arith) (v.settled h) (omega arith)
        (fresh world.random v.sound))
  | inr wait ↦ rw wait v
]

pub state-runstate : (mac : Bytes) (s : ℕ) (c : Client) → (state mac s c).runstate ≡ s
unfolding state restart
state-runstate mac s c = ground arith

state-retry : (mac : Bytes) (s : ℕ) (c : Client) → (state mac s c).retry ≡ c.retry
unfolding state restart
state-retry mac s c = ground arith

start_discover-IsClient :
    (world : World) {c : Client} → c.runstate ≡ 1 → IsClient c → IsClient (start_discover world c).0
unfolding start_discover state restart
start_discover-IsClient world {c} e v = elim (Bool-cases (ltb 10 c.runtime)) [
  | inl late ↦ rw late ground arith
  | inr early ↦ rw early v
]

wait_offer-IsClient :
    (world : World) {c : Client} → c.runstate ≡ 3 → IsClient c → IsClient (wait_offer world c).0
unfolding wait_offer
wait_offer-IsClient world {c} e v =
    ground (arith, verify-IsClient world.mac (v.attempts (omega arith)) v)

wait_error-IsClient :
    (world : World) {c : Client} → c.runstate ≡ 4 → IsClient c → IsClient (wait_error world c).0
unfolding wait_error
wait_error-IsClient world {c} e v = ground (arith, state-start world.mac v.sound)

retry-IsClient :
    {c : Client} → IsClient c → c.retry ≤ 5 → IsClient (record c { retry = u32 (c.retry + 1) })
retry-IsClient {c} v h = ground arith

wait_ack-IsClient :
    (world : World) {c : Client} → c.runstate ≡ 5 → IsClient c → IsClient (wait_ack world c).0
unfolding wait_ack
wait_ack-IsClient world {c} e v = elim (Bool-cases (leb c.timeout c.runtime)) [
  | inl due ↦ elim (Bool-cases (ltb 6 (u32 (c.retry + 1)))) [
    | inl last ↦ rw (due, last) (state-start world.mac (again v.sound (v.attempts (omega arith))))
    | inr more ↦
        rw (due, more)
          (verify-IsClient world.mac (ltb→le _ _ more) (retry-IsClient v (ground arith)))
  ]
  | inr early ↦ rw early v
]

acked-IsClient :
    (world : World) {c : Client} → c.runstate ≡ 6 → IsClient c → IsClient (acked world c).0
unfolding acked
acked-IsClient world {c} e v = elim (Bool-cases (leb c.timeout c.runtime)) [
  | inl due ↦ rw due (
      wait_lease-IsClient world (omega (arith, state-runstate world.mac 7 c)) (
        state-bound world.mac 7 (omega arith) (omega arith) (v.settled (omega arith))
          (v.attempts (omega arith)) v.sound))
  | inr early ↦ rw early (wait_lease-IsClient world (omega arith) v)
]

renew-IsClient :
    (world : World) {c : Client} → c.runstate ≡ 8 → IsClient c → IsClient (renew world c).0
unfolding renew
renew-IsClient world {c} e v = elim (Bool-cases (c.lease_time == 0)) [
  | inl expired ↦ rw expired (state-start world.mac v.sound)
  | inr leased ↦ elim (Bool-cases (leb c.timeout c.runtime)) [
    | inl due ↦ elim (Bool-cases (ltb 6 (u32 (c.retry + 1)))) [
      | inl last ↦
          rw (leased, due, last)
            (verify-IsClient world.mac
              (omega (
                arith,
                state-retry world.mac 8 (record c { retry = 0; transaction = world.random }),
              ))
              (state-bound world.mac 8 (omega arith) (omega arith) (v.settled (omega arith))
                (omega arith) (fresh world.random v.sound)))
      | inr more ↦
          rw (leased, due, more)
            (verify-IsClient world.mac (ltb→le _ _ more) (retry-IsClient v (ground arith)))
    ]
    | inr early ↦ rw (leased, early) v
  ]
]

pub step-IsClient : (world : World) {c : Client} → IsClient c → IsClient (step world c).0
unfolding step discover
step-IsClient world {c} v = ground (
  arith,
  start_discover-IsClient world {c = c},
  state-wait_offer world.mac {c = c},
  wait_offer-IsClient world {c = c},
  wait_error-IsClient world {c = c},
  wait_ack-IsClient world {c = c},
  acked-IsClient world {c = c},
  wait_lease-IsClient world {c = c},
  renew-IsClient world {c = c},
)
