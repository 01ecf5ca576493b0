-- ===== src/Ethernet/Ready.antt =====
-- The driver with a pool of `n` packets: the packets that it asks for are found, and the receive ring stays full
-- of packets from its head to its tail.
use xivix.Base.{
  ℕ, zero, suc, ◌+◌, ◌<◌, ◌≡◌, refl, List, ◌∷◌, Option, none, some, get_or, set, length, arith, ◌∙◌,
  ap, Bool-cases, inl, inr, false, true, subst, sym, if◌then◌else◌,
}
use xivix.Net.Pool.{Pool, take_ref, reset, request_packet}
use xivix.Net.Pool.Counts.{count, In, length-take_ref, length-drop_ref, first_free_lem}
use xivix.Net.Pool.Enough.{first_free-some}
use xivix.Ethernet.{RingPointer, next, full, E1000, pass, leave, load, addreceive, add_packets}
use xivix.Ethernet.Counted.{IsDriver, pass-IsDriver, leave-IsDriver, first-In, load-IsDriver}
use xivix.Ethernet.Loaded.{Loaded, next-Loaded}

-- The driver with the references `l` of the rest of the kernel; the ring `r` has its packets.
pub record IsReady (n : ℕ) (l : List (Option ℕ)) (r : RingPointer) (s : E1000) : Type 0 where
  pub driver : IsDriver l s
  pub loaded : Loaded r s.recv_slot
  pub size : length s.pool.ref_count ≡ n
  pub small : n < 0xffff_0000

pub In-size : (p : ℕ) (s : Pool) → p < length s.ref_count → In (some p) s
unfolding In
In-size p s h = h

module _ (n : ℕ) (l : List (Option ℕ)) (r : RingPointer) (s : E1000) where
  pub pass-IsReady :
      (q : Option ℕ)
      → length l + 258 < n
      → In q s.pool
      → IsReady n l r s
      → IsReady n (q ∷ l) r (pass q s)
  pass-IsReady q room inside ok = record {
    driver = pass-IsDriver q l s (omega (arith, room, ok.small)) inside ok.driver;
    loaded = ok.loaded;
    size = length-take_ref q s.pool ∙ ok.size;
    small = ok.small;
  }

  pub leave-IsReady : (q : Option ℕ) → IsReady n (q ∷ l) r s → IsReady n l r (leave q s)
  leave-IsReady q ok = record {
    driver = leave-IsDriver q l s ok.driver;
    loaded = ok.loaded;
    size = length-drop_ref q s.pool ∙ ok.size;
    small = ok.small;
  }

  -- The order of two references.
  swap-IsReady : (q q' : Option ℕ) → IsReady n (q ∷ q' ∷ l) r s → IsReady n (q' ∷ q ∷ l) r s
  unfolding count
  swap-IsReady q q' ok = record {
    driver = record {
      rx = ok.driver.rx;
      tx = ok.driver.tx;
      rx_slots = ok.driver.rx_slots;
      tx_slots = ok.driver.tx_slots;
      few = ok.driver.few;
      exact = λ p. omega (arith, ok.driver.exact p);
    };
    loaded = ok.loaded;
    size = ok.size;
    small = ok.small;
  }

-- With fewer than `n` references `request_packet` gives a packet for the reference that it is called with.
pub request-IsReady :
    (n : ℕ) (l : List (Option ℕ)) (r : RingPointer) (old : Option ℕ) (s : E1000)
    → length l + 259 < n
    → IsReady n (old ∷ l) r s
    → (p : ℕ) × ((request_packet old s.pool).0 ≡ some p)
      × IsReady n (some p ∷ l) r (record s { pool = (request_packet old s.pool).1 })
unfolding request_packet reset
request-IsReady n l r old s room ok =
    let d = ok.driver in
    let references : length s.recv_slot + length s.trmt_slot + length {A = Option ℕ} (old ∷ l)
        < length s.pool.ref_count =
      omega (arith, d.rx_slots, d.tx_slots, room, ok.size) in
    let (p, found) = first_free-some s.recv_slot s.trmt_slot (old ∷ l) s.pool references d.exact in
    let inside : In (some p) s.pool =
      In-size p s.pool (first_free_lem s.pool.ref_count p found).0 in
    let taken = pass-IsReady n (old ∷ l) r s (some p) (omega (arith, room)) inside ok in
    let turned = swap-IsReady n l r (pass (some p) s) (some p) old taken in
    let left = leave-IsReady n (some p ∷ l) r (pass (some p) s) old turned in
    (p, found, rw found left)

module _ (phys : ℕ → ℕ) where
  -- What `addreceive` makes of a packet.
  abbrev pub added : ℕ → E1000 → E1000
  added p s =
      let s1 = pass (some p) s in leave (some p) (if full s1.rxq then s1 else load phys p s1)

  -- Where the ring is full nothing is added.
  pub added-full :
      (n : ℕ) (l : List (Option ℕ)) (r : RingPointer) (p : ℕ) (s : E1000)
      → length l + 258 < n
      → In (some p) s.pool
      → full s.rxq ≡ true
      → IsReady n l r s
      → IsReady n l r (added p s) × ((added p s).rxq ≡ s.rxq)
  added-full n l r p s room inside is_full ok =
      let taken = pass-IsReady n l r s (some p) room inside ok in
      rw is_full (leave-IsReady n l r (pass (some p) s) (some p) taken, refl)

  -- Where there is room the packet is in the ring, behind what the ring `r` with the same tail had.
  length-load :
      (p : ℕ) (s : E1000) → length (load phys p s).pool.ref_count ≡ length s.pool.ref_count
  unfolding load reset
  length-load p s =
      let sized = record s.pool { size = set s.pool.size p 0 } in
      length-drop_ref (get_or s.recv_slot s.rxq.tail none) (take_ref (some p) sized)
      ∙ length-take_ref (some p) sized

  load-IsReady :
      (n : ℕ) (l : List (Option ℕ)) (r r' : RingPointer) (p : ℕ) (s : E1000)
      → Loaded r (set s.recv_slot s.rxq.tail (some p))
      → IsReady n (some p ∷ l) r' s
      → IsReady n (some p ∷ l) r (load phys p s) × ((load phys p s).rxq ≡ next s.rxq)
  unfolding load
  load-IsReady n l r r' p s loaded ok = (
    record {
      driver = load-IsDriver phys p (some p ∷ l) s (first-In (some p) l s ok.driver) ok.driver;
      loaded = loaded;
      size = length-load p s ∙ ok.size;
      small = ok.small;
    },
    refl,
  )

  -- Where there is room the packet is in the ring, behind what the ring `r` had.
  pub added-room :
      (n : ℕ) (l : List (Option ℕ)) (r r' : RingPointer) (p : ℕ) (s : E1000)
      → length l + 258 < n
      → In (some p) s.pool
      → full s.rxq ≡ false
      → Loaded r (set s.recv_slot s.rxq.tail (some p))
      → IsReady n l r' s
      → IsReady n l r (added p s) × ((added p s).rxq ≡ next s.rxq)
  added-room n l r r' p s room inside free loaded ok =
      let s1 = pass (some p) s in
      let taken = pass-IsReady n l r' s (some p) room inside ok in
      let (loaded', ring) = load-IsReady n l r r' p s1 loaded taken in
      rw free (leave-IsReady n l r (load phys p s1) (some p) loaded', ring)

  -- What the network layer keeps does not change.
  pub added-kept : (p : ℕ) (s : E1000) → (added p s).kept ≡ s.kept
  unfolding load
  added-kept p s = elim (Bool-cases (full s.rxq)) [
    | inl is_full ↦ rw is_full refl
    | inr free ↦ rw free refl
  ]

  -- A round of the loop that adds packets.
  added-IsReady :
      (n : ℕ) (l : List (Option ℕ)) (p : ℕ) (s : E1000)
      → length l + 258 < n
      → In (some p) s.pool
      → IsReady n l s.rxq s
      → IsReady n l (added p s).rxq (added p s)
  added-IsReady n l p s room inside ok = elim (Bool-cases (full s.rxq)) [
    | inl is_full ↦
        let (same, ring) = added-full n l s.rxq p s room inside is_full ok in
        subst (λ t. IsReady n l t (added p s)) (sym ring) same
    | inr free ↦
        let more = next-Loaded s.rxq ok.driver.rx s.recv_slot ok.driver.rx_slots p free ok.loaded in
        let (new, ring) = added-room n l (next s.rxq) s.rxq p s room inside free more ok in
        subst (λ t. IsReady n l t (added p s)) (sym ring) new
  ]

  add_packets-found :
      (k p : ℕ) (q : Option ℕ) (s : E1000)
      → (request_packet q s.pool).0 ≡ some p
      → add_packets phys (suc k) q s
        ≡ add_packets phys k (some p) (added p (record s { pool = (request_packet q s.pool).1 }))
  unfolding add_packets addreceive
  add_packets-found k p q s found =
      let s1 = record s { pool = (request_packet q s.pool).1 } in
      let g : Option ℕ → Option E1000 =
        λ x. elim (addreceive phys x s1) [ none ↦ none | some s' ↦ add_packets phys k x s' ] in
      ap g found

  -- The loop adds its packets and drops its reference.
  pub add_packets-IsReady :
      (n k : ℕ) (l : List (Option ℕ)) (q : Option ℕ) (s : E1000)
      → length l + 259 < n
      → IsReady n (q ∷ l) s.rxq s
      → (s' : E1000) × (add_packets phys k q s ≡ some s')
        × (s'.kept ≡ s.kept)
        × IsReady n l s'.rxq s'
  unfolding add_packets
  add_packets-IsReady n zero l q s room ok = (leave q s, refl, refl, leave-IsReady n l s.rxq s q ok)
  add_packets-IsReady n (suc k) l q s room ok =
      let (p, found, given) = request-IsReady n l s.rxq q s room ok in
      let s1 = record s { pool = (request_packet q s.pool).1 } in
      let inside = first-In (some p) l s1 given.driver in
      let next_ok = added-IsReady n (some p ∷ l) p s1 (omega (arith, room)) inside given in
      let (s', done, same, ready) = add_packets-IsReady n k l (some p) (added p s1) room next_ok in
      (s', add_packets-found k p q s found ∙ done, same ∙ added-kept p s1, ready)
