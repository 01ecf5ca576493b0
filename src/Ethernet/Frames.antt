-- ===== src/Ethernet/Frames.antt =====
-- A round of the loop over the received frames, and the loop.
use xivix.Base.{
  ℕ, zero, suc, ◌+◌, ◌<◌, ◌≤◌, ◌++◌, length-append, ◌≡◌, refl, List, ◌∷◌, Option, none, some,
  get_or, set, length, length-set, arith, ◌∙◌, ap, Bool-cases, Option-cases, inl, inr, false, true,
  subst, sym, ◌==◌,
}
use xivix.Net.Pool.{ref_at, request_packet}
use xivix.Net.Pool.Counts.{count, is_to, count-set}
use xivix.Ethernet.{
  RingPointer, empty, pop, E1000, pass, leave, recycle, give_back, receive, receive_slot, has_frame,
  receive_frames, no_recv,
}
use xivix.Ethernet.Counted.{first-In}
use xivix.Ethernet.Loaded.{Loaded, pop-Loaded, head-Loaded}
use xivix.Ethernet.Fresh.{IsFresh, Newer, all-IsFresh, returned-IsFresh, IsFresh-has_frame}
use xivix.Ethernet.Ready.{IsReady, pass-IsReady, leave-IsReady, request-IsReady}
use xivix.Ethernet.Receive.{
  IsKept, same-IsKept, returned-kept, IsFair, returned, returned-IsReady, give_back-returned,
}

-- A packet is given for the device, and its reference is in place of that to the frame.
recycle-IsReady :
    (n p : ℕ) (l : List (Option ℕ)) (r : RingPointer) (s : E1000)
    → length l + 259 < n
    → IsReady n (some p ∷ l) r s
    → (q : ℕ) × (s' : E1000) × (recycle p s ≡ (some q, s'))
      × (s'.rxq ≡ s.rxq)
      × (s'.recv ≡ s.recv)
      × (s'.kept ≡ s.kept)
      × IsReady n (some q ∷ l) r s'
unfolding recycle
recycle-IsReady n p l r s room ok = elim (Bool-cases (ref_at s.pool p == 1)) [
  | inl alone ↦ (p, s, rw alone refl, refl, refl, refl, ok)
  | inr kept ↦
      let (q, found, given) = request-IsReady n l r (some p) s room ok in
      let s' = record s { pool = (request_packet (some p) s.pool).1 } in
      (q, s', rw kept (ap (λ (x : Option ℕ). (x, s')) found), refl, refl, refl, given)
]

-- The reference is moved out of the slot.
moved-IsReady :
    (n p size : ℕ) (l : List (Option ℕ)) (s : E1000)
    → length l + 259 < n
    → empty s.rxq ≡ false
    → get_or s.recv_slot s.rxq.head none ≡ some p
    → IsReady n l s.rxq s
    → IsReady n (some p ∷ l) (pop s.rxq) (record s {
      pool = record s.pool { size = set s.pool.size p size };
      recv_slot = set s.recv_slot s.rxq.head none;
    })
unfolding count is_to
moved-IsReady n p size l s room busy slot ok =
    let d = ok.driver in
    let head : s.rxq.head < length s.recv_slot = omega (arith, d.rx.head, d.rx_slots) in
    let moved : (x : ℕ)
        → count x (set s.recv_slot s.rxq.head none) + is_to x (some p) ≡ count x s.recv_slot + 0 =
      λ x.
        subst (λ t. count x (set s.recv_slot s.rxq.head none) + is_to x t ≡ count x s.recv_slot + 0)
          slot (count-set x s.recv_slot s.rxq.head none head) in
    record {
      driver = record {
        rx = d.rx;
        tx = d.tx;
        rx_slots = length-set s.recv_slot s.rxq.head none ∙ d.rx_slots;
        tx_slots = d.tx_slots;
        few = omega (arith, room, ok.small);
        exact = λ x. omega (arith, d.exact x, moved x);
      };
      loaded = pop-Loaded s.rxq d.rx s.recv_slot d.rx_slots busy ok.loaded;
      size = ok.size;
      small = ok.small;
    }

module _ (phys : ℕ → ℕ) (m : ℕ) (enqueue : ℕ → E1000 → E1000) (fair : IsFair m enqueue) where
  enqueue-IsReady :
      (n p : ℕ) (l : List (Option ℕ)) (r : RingPointer) (s : E1000)
      → length s.kept ≤ m
      → m + length l + 3 < 0xffff_f000
      → IsReady n (some p ∷ some p ∷ (s.kept ++ l)) r s
      → IsReady n (some p ∷ some p ∷ ((enqueue p s).kept ++ l)) r (enqueue p s)
  enqueue-IsReady n p l r s kept few ok = record {
    driver = fair.driver p l s kept few ok.driver;
    loaded = subst (λ t. Loaded r t) (sym (fair.slots p s)) ok.loaded;
    size = fair.pool p s ∙ ok.size;
    small = ok.small;
  }

  -- A round: the frame in packet `p` goes to the network layer.
  receive-IsKept :
      (n p : ℕ) (l : List (Option ℕ)) (s : E1000)
      → m + length l + 260 < n
      → empty s.rxq ≡ false
      → get_or s.recv_slot s.rxq.head none ≡ some p
      → IsKept m n l s
      → (s' : E1000) × (receive phys enqueue p s ≡ some s') × IsKept m n l s' × Newer s s'
  unfolding receive
  receive-IsKept n p l s all busy slot (kept, ok) =
      let len = (get_or s.recv s.rxq.head no_recv).length in
      let s1 = record s {
        pool = record s.pool { size = set s.pool.size p len };
        recv_slot = set s.recv_slot s.rxq.head none;
      } in
      let r = pop s.rxq in
      let ks = s.kept ++ l in
      let room : length ks + 260 < n = omega (arith, all, kept, length-append s.kept l) in
      let ok1 : IsReady n (some p ∷ ks) r s1 =
        moved-IsReady n p len ks s (omega (arith, room)) busy slot ok in
      let inside = first-In (some p) ks s1 ok1.driver in
      let s2 = pass (some p) s1 in
      let ok2 : IsReady n (some p ∷ some p ∷ ks) r s2 =
        pass-IsReady n (some p ∷ ks) r s1 (some p) (omega (arith, room)) inside ok1 in
      let s3 = enqueue p s2 in
      let ok3 = enqueue-IsReady n p l r s2 kept (omega (arith, all, ok.small)) ok2 in
      let kept3 = fair.few p s2 kept in
      let ks3 = s3.kept ++ l in
      let room3 : length ks3 + 260 < n = omega (arith, all, kept3, length-append s3.kept l) in
      let s4 = leave (some p) s3 in
      let ok4 = leave-IsReady n (some p ∷ ks3) r s3 (some p) ok3 in
      let (q, s5, given, ring, recv, keeps, ok5) =
        recycle-IsReady n p ks3 r s4 (omega (arith, room3)) ok4 in
      let same : s5.rxq ≡ s.rxq = ring ∙ fair.ring p s2 in
      let busy5 : empty s5.rxq ≡ false = ap empty same ∙ busy in
      let ok6 = subst (λ t. IsReady n (some q ∷ ks3) (pop t) s5) (sym same) ok5 in
      let old : s5.recv ≡ s.recv = recv ∙ fair.descs p s2 in
      let newer : Newer s (returned phys q s5) = λ k fresh.
        returned-IsFresh phys q k s5 (rw same ok.driver.rx) busy5 (rw (same, old) fresh) in
      (
        returned phys q s5,
        ap (give_back phys) given ∙ give_back-returned phys q s5,
        same-IsKept m n l s3.kept (returned phys q s5) (returned-kept phys q s5 ∙ keeps) kept3
            (returned-IsReady phys n q ks3 s5 room3 busy5 ok6),
        newer,
      )

  frames-zero : (s : E1000) → receive_frames phys enqueue zero s ≡ some s
  unfolding receive_frames
  frames-zero s = refl

  frames-stop : (k : ℕ) (s : E1000) → has_frame s ≡ false → receive_frames phys enqueue k s ≡ some s
  unfolding receive_frames
  frames-stop zero s h = refl
  frames-stop (suc k) s h = rw (receive_frames, h) refl

  frames-step :
      (k p : ℕ) (s s' : E1000)
      → has_frame s ≡ true
      → get_or s.recv_slot s.rxq.head none ≡ some p
      → receive phys enqueue p s ≡ some s'
      → receive_frames phys enqueue (suc k) s ≡ receive_frames phys enqueue k s'
  unfolding receive_frames receive_slot
  frames-step k p s s' h slot e = rw (receive_frames, h, slot, receive_slot, e) refl

  has_frame-empty : (s : E1000) → has_frame s ≡ true → empty s.rxq ≡ false
  unfolding has_frame
  has_frame-empty s h = ground (arith, h)

  slot_cases :
      (n : ℕ) (l : List (Option ℕ)) (s : E1000)
      → empty s.rxq ≡ false
      → IsReady n l s.rxq s
      → (p : ℕ) × (get_or s.recv_slot s.rxq.head none ≡ some p)
  slot_cases n l s busy ok = elim (Option-cases (get_or s.recv_slot s.rxq.head none)) [
    | inr found ↦ found
    | inl missing ↦
        absurd
          (head-Loaded s.rxq ok.driver.rx s.recv_slot ok.driver.rx_slots busy ok.loaded missing)
  ]

  -- The loop meets no null reference.
  pub receive_frames-IsKept :
      (n k : ℕ) (l : List (Option ℕ)) (s : E1000)
      → m + length l + 260 < n
      → IsKept m n l s
      → (s' : E1000) × (receive_frames phys enqueue k s ≡ some s')
        × IsKept m n l s'
        × (IsFresh k s.rxq s.recv → has_frame s' ≡ false)
  receive_frames-IsKept n zero l s room ok =
      (s, frames-zero s, ok, λ fresh. IsFresh-has_frame s ok.1.driver.rx fresh)
  receive_frames-IsKept n (suc k) l s room ok = elim (Bool-cases (has_frame s)) [
    | inl frame ↦
        let busy = has_frame-empty s frame in
        let (p, slot) = slot_cases n (s.kept ++ l) s busy ok.1 in
        let (s1, round, ok1, newer) = receive-IsKept n p l s room busy slot ok in
        let (s', rest, ok', last) = receive_frames-IsKept n k l s1 room ok1 in
        (s', frames-step k p s s1 frame slot round ∙ rest, ok', λ fresh. last (newer k fresh))
    | inr none_left ↦ (s, frames-stop (suc k) s none_left, ok, λ fresh. none_left)
  ]

  -- The loop over the received frames ends: whatever the device left in the descriptors, after 128 rounds at most no
  -- frame is left, and no null reference was used. The network layer may keep packets, `m` at most, and end what it
  -- kept; it counts its references and leaves the receive ring alone. Of the `n` packets of the pool, 261 more than
  -- `m` and the references `l` of the rest of the kernel are there.
  pub receive_frames-done :
      (n : ℕ) (l : List (Option ℕ)) (s : E1000)
      → m + length l + 260 < n
      → length s.kept ≤ m
      → IsReady n (s.kept ++ l) s.rxq s
      → (s' : E1000) × (receive_frames phys enqueue 128 s ≡ some s') × (has_frame s' ≡ false)
  receive_frames-done n l s room kept ok =
      let (s', done, ready, last) = receive_frames-IsKept n 128 l s room (kept, ok) in
      (s', done, last (all-IsFresh s.rxq s.recv))
