-- ===== src/Ethernet/Counted.antt =====
-- The rings stay rings of 128 places, and the count of each packet is the number of references to it.
use xivix.Base.{
  ℕ, ◌+◌, ◌<◌, ◌≡◌, List, ◌∷◌, Option, none, some, get_or, set, length, length-set, arith, ◌∙◌,
  Bool-cases, inl, inr, ltb,
}
use xivix.Net.Pool.{Pool, reset}
use xivix.Net.Pool.Counts.{count, In}
use xivix.Net.Pool.Exact.{Exact, Few, take_ref-Exact, drop_ref-Exact, reset-Exact, counted-In}
use xivix.Ethernet.{
  RingPointer, after, next, full, pop, E1000, pass, leave, release, send, load, transmit,
}

pub record IsRing (r : RingPointer) : Type 0 where
  pub limit : r.limit ≡ 128
  pub tail : r.tail < 128
  pub head : r.head < 128

-- The driver with the references `l` of the rest of the kernel.
pub record IsDriver (l : List (Option ℕ)) (s : E1000) : Type 0 where
  pub rx : IsRing s.rxq
  pub tx : IsRing s.txq
  pub rx_slots : length s.recv_slot ≡ 128
  pub tx_slots : length s.trmt_slot ≡ 128
  pub few : length l < 0xffff_f000
  pub exact : Exact s.recv_slot s.trmt_slot l s.pool

pub after-lt : (c : ℕ) → c < 128 → after 128 c < 128
unfolding after
after-lt c h = ground arith

pub next-IsRing : (r : RingPointer) → IsRing r → IsRing (next r)
unfolding next
next-IsRing r ok = record {
  limit = ok.limit;
  tail = rw ok.limit (after-lt r.tail ok.tail);
  head = ok.head;
}

pub pop-IsRing : (r : RingPointer) → IsRing r → IsRing (pop r)
unfolding pop
pop-IsRing r ok = record {
  limit = ok.limit;
  tail = ok.tail;
  head = rw ok.limit (after-lt r.head ok.head);
}

pub IsDriver-Few :
    (l : List (Option ℕ)) (s : E1000)
    → IsDriver l s
    → Few s.recv_slot s.trmt_slot l × Few s.trmt_slot s.recv_slot l
IsDriver-Few l s ok = omega (arith, ok.rx_slots, ok.tx_slots, ok.few)

pub pass-IsDriver :
    (r : Option ℕ) (l : List (Option ℕ)) (s : E1000)
    → length l + 1 < 0xffff_f000
    → In r s.pool
    → IsDriver l s
    → IsDriver (r ∷ l) (pass r s)
pass-IsDriver r l s few inside ok = record {
  rx = ok.rx;
  tx = ok.tx;
  rx_slots = ok.rx_slots;
  tx_slots = ok.tx_slots;
  few = omega (arith, few);
  exact = take_ref-Exact s.recv_slot s.trmt_slot l s.pool (IsDriver-Few l s ok).0 ok.exact r inside;
}

pub leave-IsDriver :
    (r : Option ℕ) (l : List (Option ℕ)) (s : E1000) → IsDriver (r ∷ l) s → IsDriver l (leave r s)
leave-IsDriver r l s ok = record {
  rx = ok.rx;
  tx = ok.tx;
  rx_slots = ok.rx_slots;
  tx_slots = ok.tx_slots;
  few = omega (arith, ok.few);
  exact = drop_ref-Exact s.recv_slot s.trmt_slot l r s.pool (IsDriver-Few (r ∷ l) s ok).0 ok.exact;
}

-- The first of the other references is to a packet of the pool.
pub first-In : (r : Option ℕ) (l : List (Option ℕ)) (s : E1000) → IsDriver (r ∷ l) s → In r s.pool
unfolding count
first-In r l s ok =
    counted-In s.recv_slot s.trmt_slot (r ∷ l) s.pool (IsDriver-Few (r ∷ l) s ok).0 ok.exact r
      (λ p. omega (arith, ok.exact p))

-- The slots of the transmit ring, with the receive ring as the others.
turn : (rs ts l : List (Option ℕ)) (s : Pool) → Exact rs ts l s → Exact ts rs l s
turn rs ts l s exact p = omega (arith, exact p)

pub release-IsDriver : (l : List (Option ℕ)) (s : E1000) → IsDriver l s → IsDriver l (release s)
unfolding release In
release-IsDriver l s ok =
    let few = (IsDriver-Few l s ok).1 in
    let exact = turn s.recv_slot s.trmt_slot l s.pool ok.exact in
    let inside : s.txq.head < length s.trmt_slot = omega (arith, ok.tx.head, ok.tx_slots) in
    let kept =
      reset-Exact s.trmt_slot s.recv_slot l s.txq.head none s.pool few inside (omega arith) exact in
    record {
      rx = ok.rx;
      tx = pop-IsRing s.txq ok.tx;
      rx_slots = ok.rx_slots;
      tx_slots = length-set s.trmt_slot s.txq.head none ∙ ok.tx_slots;
      few = ok.few;
      exact =
          turn (set s.trmt_slot s.txq.head none) s.recv_slot l
            (reset (get_or s.trmt_slot s.txq.head none) none s.pool) kept;
    }

module _ (phys : ℕ → ℕ) where
  pub send-IsDriver :
      (p : ℕ) (l : List (Option ℕ)) (s : E1000)
      → In (some p) s.pool
      → IsDriver l s
      → IsDriver l (send phys p s)
  unfolding send
  send-IsDriver p l s known ok =
      let few = (IsDriver-Few l s ok).1 in
      let exact = turn s.recv_slot s.trmt_slot l s.pool ok.exact in
      let inside : s.txq.tail < length s.trmt_slot = omega (arith, ok.tx.tail, ok.tx_slots) in
      let kept =
        reset-Exact s.trmt_slot s.recv_slot l s.txq.tail (some p) s.pool few inside known exact in
      record {
        rx = ok.rx;
        tx = next-IsRing s.txq ok.tx;
        rx_slots = ok.rx_slots;
        tx_slots = length-set s.trmt_slot s.txq.tail (some p) ∙ ok.tx_slots;
        few = ok.few;
        exact =
            turn (set s.trmt_slot s.txq.tail (some p)) s.recv_slot l
              (reset (get_or s.trmt_slot s.txq.tail none) (some p) s.pool) kept;
      }

  pub load-IsDriver :
      (p : ℕ) (l : List (Option ℕ)) (s : E1000)
      → In (some p) s.pool
      → IsDriver l s
      → IsDriver l (load phys p s)
  unfolding load In
  load-IsDriver p l s known ok =
      let inside : s.rxq.tail < length s.recv_slot = omega (arith, ok.rx.tail, ok.rx_slots) in
      record {
        rx = next-IsRing s.rxq ok.rx;
        tx = ok.tx;
        rx_slots = length-set s.recv_slot s.rxq.tail (some p) ∙ ok.rx_slots;
        tx_slots = ok.tx_slots;
        few = ok.few;
        exact =
            reset-Exact s.recv_slot s.trmt_slot l s.rxq.tail (some p)
              (record s.pool { size = set s.pool.size p 0 }) (IsDriver-Few l s ok).0 inside known
              ok.exact;
      }

  -- The kernel sends a packet of the pool.
  pub transmit-IsDriver :
      (p : ℕ) (l : List (Option ℕ)) (s : E1000)
      → length l + 1 < 0xffff_f000
      → In (some p) s.pool
      → IsDriver l s
      → IsDriver l (transmit phys p s)
  unfolding transmit
  transmit-IsDriver p l s few known ok =
      let s1 = pass (some p) s in
      let ok1 = pass-IsDriver (some p) l s few known ok in
      let sent = send-IsDriver p (some p ∷ l) s1 (first-In (some p) l s1 ok1) ok1 in
      elim (Bool-cases (ltb (get_or s.pool.size p 0) 42)) [
        | inl small ↦ rw small (leave-IsDriver (some p) l s1 ok1)
        | inr big ↦ elim (Bool-cases (full s1.txq)) [
          | inl is_full ↦ rw (big, is_full) (leave-IsDriver (some p) l s1 ok1)
          | inr room ↦ rw (big, room) (leave-IsDriver (some p) l (send phys p s1) sent)
        ]
      ]
