-- ===== src/Ethernet/Queues.antt =====
-- A pass of the driver's task: the driver stays ready.
use xivix.Base.{
  ℕ, ◌+◌, ◌<◌, ◌++◌, length-append, ◌≡◌, refl, List, Option, none, some, length, arith, ◌∙◌,
  Bool-cases, inl, inr, has, ◌&&◌,
}
use xivix.Ethernet.{E1000, empty}
use xivix.Ethernet.Process.{link_change, sent, refill, received, process, processqueues}
use xivix.Ethernet.Ready.{IsReady, add_packets-IsReady}
use xivix.Ethernet.Receive.{IsFair, IsKept, same-IsKept}
use xivix.Ethernet.Frames.{receive_frames-IsKept}
use xivix.Ethernet.Passes.{same-IsReady, none-IsReady, release_sent-IsReady, release_sent-kept}

module _ (phys : ℕ → ℕ) where
  link_change-IsReady :
      (n fint : ℕ) (l : List (Option ℕ)) (s : E1000)
      → length l + 259 < n
      → IsReady n l s.rxq s
      → (s' : E1000) × (link_change phys fint s ≡ some s')
        × (s'.kept ≡ s.kept)
        × IsReady n l s'.rxq s'
  unfolding link_change
  link_change-IsReady n fint l s room ok =
      elim (Bool-cases ((has fint 0x7fff_ff7e && has fint 4) && empty s.rxq)) [
        | inr no_change ↦ (s, rw no_change refl, refl, ok)
        | inl change ↦
            let (s', done, same, ready) =
              add_packets-IsReady phys n 32 l none s room (none-IsReady n l s room ok) in
            (s', rw change done, same, ready)
      ]

  sent-IsReady :
      (n fint : ℕ) (l : List (Option ℕ)) (s : E1000)
      → IsReady n l s.rxq s
      → ((sent phys fint s).kept ≡ s.kept) × IsReady n l (sent phys fint s).rxq (sent phys fint s)
  unfolding sent
  sent-IsReady n fint l s ok = elim (Bool-cases (has fint 1)) [
    | inl written ↦ rw written (release_sent-kept 128 s, release_sent-IsReady n 128 l s ok)
    | inr other ↦ rw other (refl, ok)
  ]

  refill-IsReady :
      (n fint : ℕ) (l : List (Option ℕ)) (s : E1000)
      → length l + 259 < n
      → IsReady n l s.rxq s
      → (s' : E1000) × (refill phys fint s ≡ some s') × (s'.kept ≡ s.kept) × IsReady n l s'.rxq s'
  unfolding refill
  refill-IsReady n fint l s room ok = elim (Bool-cases (has fint 0x50)) [
    | inr enough ↦ (s, rw enough refl, refl, ok)
    | inl low ↦
        let (s', done, same, ready) =
          add_packets-IsReady phys n 8 l none s room (none-IsReady n l s room ok) in
        (s', rw low done, same, ready)
  ]

  module _ (m : ℕ) (enqueue : ℕ → E1000 → E1000) (fair : IsFair m enqueue) where
    received-IsKept :
        (n fint : ℕ) (l : List (Option ℕ)) (s : E1000)
        → m + length l + 260 < n
        → IsKept m n l s
        → (s' : E1000) × (received phys enqueue fint s ≡ some s') × IsKept m n l s'
    unfolding received
    received-IsKept n fint l s room (kept, ok) = elim (Bool-cases (has fint 0xd0)) [
      | inr other ↦ (s, rw (received, other) refl, (kept, ok))
      | inl frames ↦
          let ks = s.kept ++ l in
          let enough : length ks + 259 < n = omega (arith, room, kept, length-append s.kept l) in
          let (s1, filled, same, ok1) = refill-IsReady n fint ks s enough ok in
          let (s', done, ready, last) =
            receive_frames-IsKept phys m enqueue fair n 128 l s1 room
              (same-IsKept m n l s.kept s1 same kept ok1) in
          (s', rw (received, frames, filled) done, ready)
    ]

    process-IsKept :
        (n fint : ℕ) (l : List (Option ℕ)) (s : E1000)
        → m + length l + 260 < n
        → IsKept m n l s
        → (s' : E1000) × (process phys enqueue fint s ≡ some s') × IsKept m n l s'
    unfolding process
    process-IsKept n fint l s room (kept, ok) =
        let ks = s.kept ++ l in
        let enough : length ks + 259 < n = omega (arith, room, kept, length-append s.kept l) in
        let (s1, changed, same, ok1) = link_change-IsReady n fint ks s enough ok in
        let (same2, ok2) = sent-IsReady n fint ks s1 ok1 in
        let s2 = sent phys fint s1 in
        let (s', done, ready) =
          received-IsKept n fint l s2 room (same-IsKept m n l s.kept s2 (same2 ∙ same) kept ok2) in
        (s', rw (process, changed) done, ready)

    pub processqueues-IsKept :
        (n : ℕ) (l : List (Option ℕ)) (s : E1000)
        → m + length l + 260 < n
        → IsKept m n l s
        → (s' : E1000) × (processqueues phys enqueue s ≡ some s') × IsKept m n l s'
    unfolding processqueues
    processqueues-IsKept n l s room (kept, ok) =
        let s0 = record s { lastint = 0 } in
        let ks = s.kept ++ l in
        process-IsKept n s.lastint l s0 room
          (kept, same-IsReady n ks s s0 refl refl refl refl refl ok)
