-- ===== src/Ethernet/Receive.antt =====
-- The loop over the received frames: each frame goes to the network layer, and its place in the ring gets a packet.
use xivix.Base.{
  ℕ, ◌+◌, ◌<◌, ◌≤◌, ◌≡◌, ◌++◌, refl, List, ◌∷◌, Option, some, set, length, arith, ap, Bool-cases,
  inl, inr, false, subst, sym,
}
use xivix.Ethernet.{RingPointer, next, full, empty, pop, E1000, leave, addreceive, give_back}
use xivix.Ethernet.Counted.{IsDriver, IsRing, first-In, pop-IsRing}
use xivix.Ethernet.Loaded.{Loaded, next-Loaded, after_mod}
use xivix.Ethernet.Ready.{IsReady, leave-IsReady, added, added-kept, added-full, added-room}

-- What the network layer does with the driver while it has a packet: the count of each packet stays the number of the
-- references to it, with those that the layer keeps, which are `m` at most, and with the references `l` of the rest of
-- the kernel. It may keep the packet, end what it kept, and send, and it leaves the receive ring alone.
pub record IsFair (m : ℕ) (enqueue : ℕ → E1000 → E1000) : Type 0 where
  pub few : (p : ℕ) (s : E1000) → length s.kept ≤ m → length (enqueue p s).kept ≤ m
  pub driver :
      (p : ℕ) (l : List (Option ℕ)) (s : E1000)
      → length s.kept ≤ m
      → m + length l + 3 < 0xffff_f000
      → IsDriver (some p ∷ some p ∷ (s.kept ++ l)) s
      → IsDriver (some p ∷ some p ∷ ((enqueue p s).kept ++ l)) (enqueue p s)
  pub pool : (p : ℕ) (s : E1000) → length (enqueue p s).pool.ref_count ≡ length s.pool.ref_count
  pub ring : (p : ℕ) (s : E1000) → (enqueue p s).rxq ≡ s.rxq
  pub slots : (p : ℕ) (s : E1000) → (enqueue p s).recv_slot ≡ s.recv_slot
  pub descs : (p : ℕ) (s : E1000) → (enqueue p s).recv ≡ s.recv

-- The same of a pass of the network layer's task.
pub record IsCalm (m : ℕ) (runsched : E1000 → E1000) : Type 0 where
  pub few : (s : E1000) → length s.kept ≤ m → length (runsched s).kept ≤ m
  pub driver :
      (l : List (Option ℕ)) (s : E1000)
      → length s.kept ≤ m
      → m + length l + 3 < 0xffff_f000
      → IsDriver (s.kept ++ l) s
      → IsDriver ((runsched s).kept ++ l) (runsched s)
  pub pool : (s : E1000) → length (runsched s).pool.ref_count ≡ length s.pool.ref_count
  pub ring : (s : E1000) → (runsched s).rxq ≡ s.rxq
  pub slots : (s : E1000) → (runsched s).recv_slot ≡ s.recv_slot

-- The driver is ready, with at most `m` references that the network layer keeps.
abbrev pub IsKept : ℕ → ℕ → List (Option ℕ) → E1000 → Type 0
IsKept m n l s = (length s.kept ≤ m) × IsReady n (s.kept ++ l) s.rxq s

pub same-IsKept :
    (m n : ℕ) (l : List (Option ℕ)) (ks : List (Option ℕ)) (s : E1000)
    → s.kept ≡ ks
    → length ks ≤ m
    → IsReady n (ks ++ l) s.rxq s
    → IsKept m n l s
same-IsKept m n l ks s e few ok = (
  omega (arith, few, ap (length {A = Option ℕ}) e),
  subst (λ t. IsReady n (t ++ l) s.rxq s) (sym e) ok,
)

abbrev pub popped : E1000 → E1000
popped s = record s { rxq = pop s.rxq }

popped-IsReady :
    (n : ℕ) (l : List (Option ℕ)) (r : RingPointer) (s : E1000)
    → pop s.rxq ≡ r
    → IsReady n l r s
    → IsReady n l (pop s.rxq) (popped s)
popped-IsReady n l r s e ok = record {
  driver = record {
    rx = pop-IsRing s.rxq ok.driver.rx;
    tx = ok.driver.tx;
    rx_slots = ok.driver.rx_slots;
    tx_slots = ok.driver.tx_slots;
    few = ok.driver.few;
    exact = ok.driver.exact;
  };
  loaded = subst (λ t. Loaded t s.recv_slot) (sym e) ok.loaded;
  size = ok.size;
  small = ok.small;
}

full-pop : (r : RingPointer) → IsRing r → empty r ≡ false → full (pop r) ≡ false
unfolding full pop empty
full-pop r ok busy =
    rw ok.limit
      (ground (arith, busy, after_mod r.tail ok.tail, after_mod r.head ok.head, ok.tail, ok.head))

-- The packet behind what is left after the first place.
next-pop-Loaded :
    (r : RingPointer) (slots : List (Option ℕ)) (q : ℕ)
    → IsRing r
    → length slots ≡ 128
    → empty r ≡ false
    → Loaded (pop r) slots
    → Loaded (pop (next r)) (set slots r.tail (some q))
unfolding pop next
next-pop-Loaded r slots q ok size busy loaded =
    next-Loaded (pop r) (pop-IsRing r ok) slots size q (full-pop r ok busy) loaded

module _ (phys : ℕ → ℕ) where
  abbrev pub returned : ℕ → E1000 → E1000
  returned q s = leave (some q) (popped (added phys q s))

  pub returned-kept : (q : ℕ) (s : E1000) → (returned q s).kept ≡ s.kept
  returned-kept q s = added-kept phys q s

  pub give_back-returned : (q : ℕ) (s : E1000) → give_back phys (some q, s) ≡ some (returned q s)
  unfolding give_back addreceive
  give_back-returned q s = refl

  -- The packet is back in the ring, or dropped where the ring is full.
  pub returned-IsReady :
      (n q : ℕ) (l : List (Option ℕ)) (s : E1000)
      → length l + 260 < n
      → empty s.rxq ≡ false
      → IsReady n (some q ∷ l) (pop s.rxq) s
      → IsReady n l (returned q s).rxq (returned q s)
  returned-IsReady n q l s room busy ok =
      let t = added phys q s in
      let inside = first-In (some q) l s ok.driver in
      let r = s.rxq in
      elim (Bool-cases (full r)) [
        | inl is_full ↦
            let (same, ring) =
              added-full phys n (some q ∷ l) (pop r) q s (omega (arith, room)) inside is_full ok in
            leave-IsReady n l (pop t.rxq) (popped t) (some q)
              (popped-IsReady n (some q ∷ l) (pop r) t (ap pop ring) same)
        | inr free ↦
            let d = ok.driver in
            let more = next-pop-Loaded r s.recv_slot q d.rx d.rx_slots busy ok.loaded in
            let (new, ring) =
              added-room phys n (some q ∷ l) (pop (next r)) (pop r) q s (omega (arith, room)) inside
                free more ok in
            leave-IsReady n l (pop t.rxq) (popped t) (some q)
              (popped-IsReady n (some q ∷ l) (pop (next r)) t (ap pop ring) new)
      ]
