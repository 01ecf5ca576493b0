-- ===== src/Net/Dhcp/History.antt =====
-- kernel/net/queue.cpp, `DHCP_Client`: the invariant over every sequence of timer steps and messages.
use xivix.Base.{
  ℕ, ◌+◌, ◌<◌, ◌≡◌, refl, arith, Option, none, some, List, [], ◌∷◌, ◌++◌, length, length-append,
}
use xivix.Net.Packet.{Bytes, i32}
use xivix.Net.Dhcp.{Client, World, run}
use xivix.Net.Dhcp.Recv.{scan, Scan, accept, receive_options, recv, keep_offer}
use xivix.Net.Dhcp.Invariant.{
  IsClient, assign_ip4-system_ip, state-start, state-bound, step-IsClient, tick-IsClient,
}

accept-IsClient :
    (mac buf : Bytes) (ofs eof : ℕ) (s : Scan) {c : Client}
    → 1 < c.runstate
    → IsClient c
    → IsClient (accept mac buf ofs eof s c)
unfolding accept
accept-IsClient mac buf ofs eof s {c} h v =
    state-bound mac 6 (omega arith) (omega arith) refl (v.attempts h) (record {
      tries = v.sound.tries;
      offered = omega arith;
      address = assign_ip4-system_ip (i32 buf (ofs + 16)) mac c.arp;
    })

offer-IsClient :
    (o : Bytes) {c : Client}
    → c.runstate ≡ 3
    → length c.offers < 4
    → IsClient c
    → IsClient (record c { offers = c.offers ++ o ∷ [] })
offer-IsClient o {c} e h v = ground (arith, length-append c.offers (o ∷ []))

receive_options-IsClient :
    (mac buf : Bytes) (ofs len : ℕ) (s : Option Scan) {c : Client}
    → IsClient c
    → IsClient (receive_options mac buf ofs len s c)
unfolding receive_options
receive_options-IsClient mac buf ofs len none v = v
receive_options-IsClient mac buf ofs len (some s) {c} v = ground (
  arith,
  state-start mac v.sound,
  accept-IsClient mac buf ofs (len + ofs) s {c = c},
  offer-IsClient (keep_offer buf ofs len s) {c = c},
)

recv-IsClient :
    (mac buf : Bytes) (ofs len : ℕ) {c : Client} → IsClient c → IsClient (recv mac buf ofs len c)
unfolding recv
recv-IsClient mac buf ofs len {c} v =
    ground (arith, receive_options-IsClient mac buf ofs len (scan buf ofs len) v)

-- What happens to the client.
pub data Event : Type 0 where
  timer : World → Event
  message : Bytes → Bytes → ℕ → ℕ → Event

unfoldable pub history : List Event → Client → Client
history [] c = c
history (timer world ∷ events) c = history events (run world c).0
history (message mac buf ofs len ∷ events) c = history events (recv mac buf ofs len c)

-- The following is kept by every sequence of timer steps and received messages: the machine has the
-- address of the lease, no lease is held before an address is bound, at most four offers are kept,
-- there is one when a request waits for its answer and none once an address is bound, and the state
-- and the number of attempts are in their bounds.
pub history-IsClient : (events : List Event) {c : Client} → IsClient c → IsClient (history events c)
unfolding history run
history-IsClient [] v = v
history-IsClient (timer world ∷ events) v =
    history-IsClient events (step-IsClient world (tick-IsClient v))
history-IsClient (message mac buf ofs len ∷ events) v =
    history-IsClient events (recv-IsClient mac buf ofs len v)
