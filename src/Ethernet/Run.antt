-- ===== src/Ethernet/Run.antt =====
-- Every sequence of interrupts, passes of the driver's task, packets to send and writes of the device.
use xivix.Base.{
  ℕ, ◌+◌, ◌≤◌, ◌<◌, ◌≡◌, ◌≢◌, refl, List, [], ◌∷◌, Option, none, some, get_or, length, ◌⊎◌, ◌++◌,
  length-append, arith, ◌∙◌,
}
use xivix.Net.Pool.{request_packet}
use xivix.Net.Pool.Exact.{Exact}
use xivix.Ethernet.{E1000, handle_int, transmit}
use xivix.Ethernet.Process.{Event, interrupt, wake, packet, sched, device, step, run}
use xivix.Ethernet.Ready.{IsReady}
use xivix.Ethernet.Receive.{IsFair, IsCalm, IsKept, same-IsKept}
use xivix.Ethernet.Queues.{processqueues-IsKept}
use xivix.Ethernet.Passes.{
  same-IsReady, interrupted, handle_int-kept, slot_used, transmit-IsReady, transmit-kept,
}

-- A packet that is sent is one of the `n` of the pool.
abbrev pub Sends : ℕ → List Event → Type 0
Sends n [] = 0 ≤ 0
Sends n (packet p ∷ es) = (p < n) × Sends n es
Sends n (interrupt its rx tx t ∷ es) = Sends n es
Sends n (wake ∷ es) = Sends n es
Sends n (sched ∷ es) = Sends n es
Sends n (device rs ts ∷ es) = Sends n es

module _ (phys : ℕ → ℕ) (m : ℕ) where
  packet-IsKept :
      (n p : ℕ) (l : List (Option ℕ)) (s : E1000)
      → m + length l + 260 < n
      → p < n
      → IsKept m n l s
      → IsKept m n l (transmit phys p s)
  packet-IsKept n p l s room known (kept, ok) =
      let ks = s.kept ++ l in
      let enough : length ks + 260 < n = omega (arith, room, kept, length-append s.kept l) in
      same-IsKept m n l s.kept (transmit phys p s) (transmit-kept phys p s) kept
        (transmit-IsReady phys n p ks s enough known ok)

  sched-IsKept :
      (runsched : E1000 → E1000)
      → IsCalm m runsched
      → (n : ℕ) (l : List (Option ℕ)) (s : E1000) → m + length l + 260 < n
      → IsKept m n l s
      → IsKept m n l (runsched s)
  sched-IsKept runsched calm n l s room (kept, ok) = (
    calm.few s kept,
    record {
      driver = calm.driver l s kept (omega (arith, room, ok.small)) ok.driver;
      loaded = rw (calm.ring s, calm.slots s) ok.loaded;
      size = calm.pool s ∙ ok.size;
      small = ok.small;
    },
  )

  module _ (enqueue : ℕ → E1000 → E1000) (fair : IsFair m enqueue) (runsched : E1000 → E1000)
      (calm : IsCalm m runsched) where
    step-IsKept :
        (n : ℕ) (l : List (Option ℕ)) (e : Event) (es : List Event) (s : E1000)
        → m + length l + 260 < n
        → Sends n (e ∷ es)
        → IsKept m n l s
        → (s' : E1000) × (step phys enqueue runsched e s ≡ some s') × IsKept m n l s' × Sends n es
    unfolding step
    step-IsKept n l (interrupt its rx tx t) es s room sends (kept, ok) =
        let s' = handle_int its rx tx t s in
        let same = interrupted n (s.kept ++ l) its rx tx t s ok in
        (s', refl, same-IsKept m n l s.kept s' (handle_int-kept its rx tx t s) kept same, sends)
    step-IsKept n l wake es s room sends ok =
        let (s', done, ready) = processqueues-IsKept phys m enqueue fair n l s room ok in
        (s', done, ready, sends)
    step-IsKept n l (packet p) es s room sends ok =
        (transmit phys p s, refl, packet-IsKept n p l s room sends.0 ok, sends.1)
    step-IsKept n l sched es s room sends ok =
        (runsched s, refl, sched-IsKept runsched calm n l s room ok, sends)
    step-IsKept n l (device rs ts) es s room sends (kept, ok) =
        let s' = record s { recv = rs; trmt = ts } in
        let ks = s.kept ++ l in
        (s', refl, (kept, same-IsReady n ks s s' refl refl refl refl refl ok), sends)

    run-IsKept :
        (n : ℕ) (l : List (Option ℕ)) (es : List Event) (s : E1000)
        → m + length l + 260 < n
        → Sends n es
        → IsKept m n l s
        → (s' : E1000) × (run phys enqueue runsched es s ≡ some s') × IsKept m n l s'
    unfolding run
    run-IsKept n l [] s room sends ok = (s, refl, ok)
    run-IsKept n l (e ∷ es) s room sends ok =
        let (s1, stepped, ok1, more) = step-IsKept n l e es s room sends ok in
        let (s', done, ready) = run-IsKept n l es s1 room more ok1 in
        (s', rw (run, stepped) done, ready)

    -- Whatever happens, the driver goes on. The network layer may keep packets, `m` at most, and end what it kept; it
    -- counts its references and leaves the receive ring alone. Of the `n` packets of the pool, 261 more than `m` and
    -- the references `l` of the rest of the kernel are there, and the packets to send are of the pool. Then the driver
    -- uses no null reference, each packet's count is the number of the references to it, with those that the network
    -- layer keeps, which stay `m` at most, and `request_packet` gives no packet that is in a slot of a ring.
    pub run-keeps :
        (n : ℕ) (l : List (Option ℕ)) (es : List Event) (s : E1000)
        → m + length l + 260 < n
        → Sends n es
        → length s.kept ≤ m
        → IsReady n (s.kept ++ l) s.rxq s
        → (s' : E1000) × (run phys enqueue runsched es s ≡ some s')
          × Exact s'.recv_slot s'.trmt_slot (s'.kept ++ l) s'.pool
          × (length s'.kept ≤ m)
          × ((i p : ℕ)
              → (get_or s'.recv_slot i none ≡ some p) ⊎ (get_or s'.trmt_slot i none ≡ some p)
              → (request_packet none s'.pool).0 ≢ some p)
    run-keeps n l es s room sends kept ok =
        let (s', done, few_ready) = run-IsKept n l es s room sends (kept, ok) in
        let (few, ready) = few_ready in
        let ks = s'.kept ++ l in
        (s', done, ready.driver.exact, few, λ i p slot. slot_used n ks i p s' ready slot)
