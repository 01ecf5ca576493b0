-- ===== src/Ethernet/Process.antt =====
-- kernel/dev/e1000.cpp: `processqueues`, which looks at the causes of the interrupts since the last call, and
-- the calls from outside in their order.
use xivix.Base.{ℕ, List, [], ◌∷◌, Option, none, some, if◌then◌else◌, ◌&&◌, has, nonzero}
use xivix.Base.Word.{sub32}
use xivix.Ethernet.{
  E1000, RecvDesc, TrmtDesc, empty, handle_int, transmit, release_sent, add_packets, receive_frames,
}

-- `debug_junk`: what is mixed into the random numbers, if anything came.
unfoldable pub debug_junk : E1000 → Option ℕ × E1000
debug_junk s =
    let iv = sub32 s.junk_register s.last_junk in
    (if nonzero iv then some iv else none, record s { last_junk = s.junk_register })

-- What happens to the driver: an interrupt with what it reads, a pass of its task, a packet to send, a pass of the
-- network layer's task, and what the device leaves in the descriptors.
pub data Event : Type 0 where
  interrupt : ℕ → ℕ → ℕ → ℕ → Event
  wake : Event
  packet : ℕ → Event
  sched : Event
  device : List RecvDesc → List TrmtDesc → Event

module _ (phys : ℕ → ℕ) where
  -- The first packets, after a change of the link.
  unfoldable pub link_change : ℕ → E1000 → Option E1000
  link_change fint s =
      if (has fint 0x7fff_ff7e && has fint 4) && empty s.rxq
      then add_packets phys 32 none s
      else some s

  -- The packets that were sent.
  unfoldable pub sent : ℕ → E1000 → E1000
  sent fint s = if has fint 1 then release_sent 128 s else s

  -- More packets where the device has few.
  unfoldable pub refill : ℕ → E1000 → Option E1000
  refill fint s = if has fint 0x50 then add_packets phys 8 none s else some s

  module _ (enqueue : ℕ → E1000 → E1000) where
    unfoldable pub received : ℕ → E1000 → Option E1000
    received fint s =
        if has fint 0xd0
        then elim (refill fint s) [ none ↦ none | some s' ↦ receive_frames phys enqueue 128 s' ]
        else some s

    unfoldable pub process : ℕ → E1000 → Option E1000
    process fint s = elim (link_change fint s) [
      | none ↦ none
      | some s' ↦ received fint (sent fint s')
    ]

    unfoldable pub processqueues : E1000 → Option E1000
    processqueues s = process s.lastint (record s { lastint = 0 })

    -- `runsched` is what `net::runsched` does to the driver and the packets.
    module _ (runsched : E1000 → E1000) where
      unfoldable pub step : Event → E1000 → Option E1000
      step (interrupt its rx_head tx_head itime) s = some (handle_int its rx_head tx_head itime s)
      step wake s = processqueues s
      step (packet p) s = some (transmit phys p s)
      step sched s = some (runsched s)
      step (device recv trmt) s = some (record s { recv = recv; trmt = trmt })

      unfoldable pub run : List Event → E1000 → Option E1000
      run [] s = some s
      run (e ∷ es) s = elim (step e s) [ none ↦ none | some s' ↦ run es s' ]
