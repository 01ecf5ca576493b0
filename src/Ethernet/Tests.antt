-- ===== src/Ethernet/Tests.antt =====
-- Runs of the Ethernet driver, and its theorems at an input.
use xivix.Base.{
  ℕ, ◌+◌, ◌≡◌, ◌≢◌, refl, List, [], ◌∷◌, Option, none, some, get_or, arith, false, length, ◌^◌, ◌⊎◌,
  replicate, drop, ◌++◌, ◌≤◌, ap, sym, subst,
}
use xivix.Net.Pool.{request_packet, new_pool, first_free, reset, take_ref, drop_ref, addref, deref}
use xivix.Net.Pool.Exact.{Exact}
use xivix.Ethernet.{
  E1000, RecvDesc, no_trmt, transmit, handle_int, add_packets, addreceive, load, send,
  receive_frames, receive_slot, receive, has_frame, recycle, give_back, release_sent, next, full,
  empty, pop, after, data_info,
}
use xivix.Ethernet.Init.{
  new_e1000, set_up, Answers, reset_all, write_all, begin_reset, link_up, flow_control,
  receive_setup, transmit_setup,
}
use xivix.Ethernet.Start.{set_up-IsReady}
use xivix.Ethernet.Counted.{IsDriver, IsRing}
use xivix.Ethernet.Process.{
  Event, interrupt, wake, packet, sched, device, run, step, processqueues, process, link_change,
  sent, received, refill,
}
use xivix.Ethernet.Transmit.{
  Freed, sent_count, window, waiting_packets, waiting_descs, transmit-waiting, release_sent-waiting,
}
use xivix.Ethernet.Ready.{IsReady}
use xivix.Ethernet.Frames.{receive_frames-done}
use xivix.Ethernet.Passes.{transmit-IsReady}
use xivix.Ethernet.Run.{run-keeps}
use xivix.Ethernet.TestLayer.{phys, enqueue, enqueue-IsFair, runsched, runsched-IsCalm}

-- A device that is ready at once.
abbrev answers : Answers
answers = record { gio = λ i. 0; reset = λ i. 0; link = λ i. 2; ral = 0x1200_5452; rah = 0x5634 }

abbrev sizes : List ℕ
sizes = replicate 340 100

abbrev fresh : E1000
fresh = set_up 0x20_0000 0x20_0800 answers (reset_all (new_e1000 (new_pool sizes)))

abbrev frame : RecvDesc
frame = record { address = 0; length = 60; status = 1 }

-- The link comes up, two frames come, a packet is sent, and the network layer ends what it keeps.
abbrev events : List Event
events =
    interrupt 4 0 0 1
    ∷ wake
    ∷ device (frame ∷ frame ∷ []) (replicate 128 no_trmt)
    ∷ interrupt 0x80 2 0 2
    ∷ wake
    ∷ packet 7
    ∷ sched
    ∷ []

fresh-IsReady : IsReady 340 [] fresh.rxq fresh
fresh-IsReady = set_up-IsReady 0x20_0000 0x20_0800 answers sizes

fresh-kept : fresh.kept ≡ []
unfolding set_up write_all flow_control receive_setup transmit_setup reset_all begin_reset link_up
    new_e1000 new_pool
fresh-kept = refl

fresh_kept-IsReady : IsReady 340 (fresh.kept ++ []) fresh.rxq fresh
fresh_kept-IsReady =
    subst (λ t. IsReady 340 (t ++ []) fresh.rxq fresh) (sym fresh-kept) fresh-IsReady

run-keeps_example :
    (s : E1000) × (run phys enqueue runsched events fresh ≡ some s)
    × Exact s.recv_slot s.trmt_slot (s.kept ++ []) s.pool
    × (length s.kept ≤ 4)
    × ((i p : ℕ)
        → (get_or s.recv_slot i none ≡ some p) ⊎ (get_or s.trmt_slot i none ≡ some p)
        → (request_packet none s.pool).0 ≢ some p)
run-keeps_example =
    run-keeps phys 4 enqueue enqueue-IsFair runsched runsched-IsCalm 340 [] events fresh
      (omega arith) (omega arith) (omega (arith, ap (length {A = Option ℕ}) fresh-kept))
      fresh_kept-IsReady

fresh-IsRing : IsRing fresh.txq
fresh-IsRing = (set_up-IsReady 0x20_0000 0x20_0800 answers sizes).driver.tx

transmit-waiting_example :
    (waiting_packets (transmit phys 7 fresh) ≡ some 7 ∷ [])
    × (waiting_descs (transmit phys 7 fresh)
        ≡ record { address = phys 7; info = data_info 100 } ∷ [])
unfolding set_up window write_all flow_control receive_setup transmit_setup reset_all begin_reset
    link_up new_e1000 new_pool
transmit-waiting_example = transmit-waiting phys 7 fresh fresh-IsRing refl refl

abbrev queued : E1000
queued = transmit phys 6 (transmit phys 5 (transmit phys 4 fresh))

queued-IsReady : IsReady 340 [] queued.rxq queued
queued-IsReady =
    let one = transmit-IsReady phys 340 4 [] fresh (omega arith) (omega arith) fresh-IsReady in
    let two =
      transmit-IsReady phys 340 5 [] (transmit phys 4 fresh) (omega arith) (omega arith) one in
    transmit-IsReady phys 340 6 [] (transmit phys 5 (transmit phys 4 fresh)) (omega arith)
      (omega arith) two

-- Two packets of the ring are sent and one is not.
abbrev three : E1000
three = record queued {
  trmt =
      record { address = phys 4; info = data_info 100 + 2 ^ 32 }
      ∷ record { address = phys 5; info = data_info 100 + 2 ^ 32 }
      ∷ record { address = phys 6; info = data_info 100 }
      ∷ [];
}

three-IsDriver : IsDriver [] three
three-IsDriver =
    let d = queued-IsReady.driver in
    record {
      rx = d.rx;
      tx = d.tx;
      rx_slots = d.rx_slots;
      tx_slots = d.tx_slots;
      few = d.few;
      exact = d.exact;
    }

release_sent-waiting_example :
    let n = sent_count (waiting_descs three) in
    let s' = release_sent 128 three in
    (waiting_packets s' ≡ drop n (waiting_packets three))
    × (waiting_descs s' ≡ drop n (waiting_descs three))
    × Freed three.txq.head n s'
    × Exact s'.recv_slot s'.trmt_slot [] s'.pool
release_sent-waiting_example = release_sent-waiting 128 [] three three-IsDriver (omega arith)

receive_frames-done_example :
    (s : E1000) × (receive_frames phys enqueue 128 fresh ≡ some s) × (has_frame s ≡ false)
receive_frames-done_example =
    receive_frames-done phys 4 enqueue enqueue-IsFair 340 [] fresh (omega arith)
      (omega (arith, ap (length {A = Option ℕ}) fresh-kept)) fresh_kept-IsReady

-- The tails and heads of the two rings.
tails : Option E1000 → List ℕ
tails none = []
tails (some s) = s.rxq.tail ∷ s.rxq.head ∷ s.txq.tail ∷ s.txq.head ∷ length s.vio ∷ []

-- The ring gets 32 packets, and two more for the two frames, which are sent back by a network layer that keeps none. Packet 7 waits for a frame, so its
-- size is 0, and it is not sent.
tails-run : tails (run phys (transmit phys) (λ s. s) events fresh) ≡ 34 ∷ 2 ∷ 2 ∷ 0 ∷ 74 ∷ []
unfolding tails run step processqueues process link_change sent received refill handle_int
    add_packets addreceive load transmit send receive_frames receive_slot receive has_frame recycle
    give_back release_sent next full empty pop after request_packet first_free reset take_ref
    drop_ref addref deref set_up reset_all write_all begin_reset link_up flow_control receive_setup
    transmit_setup new_e1000 new_pool data_info
tails-run = refl
