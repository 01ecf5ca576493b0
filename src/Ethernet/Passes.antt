-- ===== src/Ethernet/Passes.antt =====
-- Packets to send and packets that were sent: the driver stays ready.
use xivix.Base.{
  ℕ, zero, suc, ◌+◌, ◌<◌, ◌≡◌, ◌≢◌, refl, List, ◌∷◌, Option, none, some, get_or, length, arith, ltb,
  ◌∙◌, ap, Bool-cases, inl, inr, ◌⊎◌, ◌||◌,
}
use xivix.Net.Pool.{Pool, request_packet, take_ref, reset}
use xivix.Net.Pool.Counts.{
  is_to, In, count-slot, is_to_self, length-take_ref, length-drop_ref, first_free_lem,
}
use xivix.Ethernet.{
  E1000, empty, full, pass, handle_int, send, transmit, release, release_sent, not_done, no_trmt,
}
use xivix.Ethernet.Counted.{transmit-IsDriver, release-IsDriver}
use xivix.Ethernet.Ready.{IsReady, In-size, pass-IsReady}

length-reset : (old v : Option ℕ) (s : Pool) → length (reset old v s).ref_count ≡ length s.ref_count
unfolding reset
length-reset old v s = length-drop_ref old (take_ref v s) ∙ length-take_ref v s

release-IsReady :
    (n : ℕ) (l : List (Option ℕ)) (s : E1000)
    → IsReady n l s.rxq s
    → IsReady n l (release s).rxq (release s)
unfolding release
release-IsReady n l s ok = record {
  driver = release-IsDriver l s ok.driver;
  loaded = ok.loaded;
  size = length-reset (get_or s.trmt_slot s.txq.head none) none s.pool ∙ ok.size;
  small = ok.small;
}

pub release_sent-IsReady :
    (n k : ℕ) (l : List (Option ℕ)) (s : E1000)
    → IsReady n l s.rxq s
    → IsReady n l (release_sent k s).rxq (release_sent k s)
unfolding release_sent
release_sent-IsReady n zero l s ok = ok
release_sent-IsReady n (suc k) l s ok =
    elim (Bool-cases (empty s.txq || not_done (get_or s.trmt s.txq.head no_trmt).info)) [
      | inl stop ↦ rw stop ok
      | inr more ↦ rw more (release_sent-IsReady n k l (release s) (release-IsReady n l s ok))
    ]

pub release_sent-kept : (k : ℕ) (s : E1000) → (release_sent k s).kept ≡ s.kept
unfolding release_sent release
release_sent-kept zero s = refl
release_sent-kept (suc k) s =
    elim (Bool-cases (empty s.txq || not_done (get_or s.trmt s.txq.head no_trmt).info)) [
      | inl stop ↦ rw stop refl
      | inr more ↦ rw more (release_sent-kept k (release s))
    ]

pub none-IsReady :
    (n : ℕ) (l : List (Option ℕ)) (s : E1000)
    → length l + 259 < n
    → IsReady n l s.rxq s
    → IsReady n (none ∷ l) s.rxq s
unfolding take_ref In
none-IsReady n l s room ok = pass-IsReady n l s.rxq s none (omega (arith, room)) (omega arith) ok

-- The fields that the counts and the receive ring use are the same.
pub same-IsReady :
    (n : ℕ) (l : List (Option ℕ)) (s s' : E1000)
    → s'.rxq ≡ s.rxq
    → s'.txq ≡ s.txq
    → s'.recv_slot ≡ s.recv_slot
    → s'.trmt_slot ≡ s.trmt_slot
    → s'.pool ≡ s.pool
    → IsReady n l s.rxq s
    → IsReady n l s'.rxq s'
same-IsReady n l s s' a b c d e ok = record {
  driver = record {
    rx = rw a ok.driver.rx;
    tx = rw b ok.driver.tx;
    rx_slots = rw c ok.driver.rx_slots;
    tx_slots = rw d ok.driver.tx_slots;
    few = ok.driver.few;
    exact = λ p. rw (e, c, d) (ok.driver.exact p);
  };
  loaded = rw (a, c) ok.loaded;
  size = rw e ok.size;
  small = ok.small;
}

pub interrupted :
    (n : ℕ) (l : List (Option ℕ)) (its rx tx t : ℕ) (s : E1000)
    → IsReady n l s.rxq s
    → IsReady n l (handle_int its rx tx t s).rxq (handle_int its rx tx t s)
unfolding handle_int
interrupted n l its rx tx t s ok =
    same-IsReady n l s (handle_int its rx tx t s) refl refl refl refl refl ok

pub handle_int-kept : (its rx tx t : ℕ) (s : E1000) → (handle_int its rx tx t s).kept ≡ s.kept
unfolding handle_int
handle_int-kept its rx tx t s = refl

-- A packet in a slot has a count, so it is not free.
pub slot_used :
    (n : ℕ) (l : List (Option ℕ)) (i p : ℕ) (s : E1000)
    → IsReady n l s.rxq s
    → (get_or s.recv_slot i none ≡ some p) ⊎ (get_or s.trmt_slot i none ≡ some p)
    → (request_packet none s.pool).0 ≢ some p
unfolding request_packet
slot_used n l i p s ok slot free =
    let unused = (first_free_lem s.pool.ref_count p free).1 in
    let one = is_to_self p in
    elim slot [
      | inl e ↦ absurd (
          omega (arith, unused, ok.driver.exact p, count-slot p s.recv_slot i, ap (is_to p) e, one))
      | inr e ↦ absurd (
          omega (arith, unused, ok.driver.exact p, count-slot p s.trmt_slot i, ap (is_to p) e, one))
    ]

module _ (phys : ℕ → ℕ) where
  pub length-transmit :
      (p : ℕ) (s : E1000) → length (transmit phys p s).pool.ref_count ≡ length s.pool.ref_count
  unfolding transmit send
  length-transmit p s =
      let taken = length-take_ref (some p) s.pool in
      let s1 = pass (some p) s in
      let placed =
        length-reset (get_or s.trmt_slot s.txq.tail none) (some p) (take_ref (some p) s.pool) in
      elim (Bool-cases (ltb (get_or s.pool.size p 0) 42)) [
        | inl small ↦ rw small (length-drop_ref (some p) s1.pool ∙ taken)
        | inr big ↦ elim (Bool-cases (full s1.txq)) [
          | inl is_full ↦ rw (big, is_full) (length-drop_ref (some p) s1.pool ∙ taken)
          | inr room ↦
              rw (big, room) (length-drop_ref (some p) (send phys p s1).pool ∙ placed ∙ taken)
        ]
      ]

  pub transmit-rx :
      (p : ℕ) (s : E1000)
      → ((transmit phys p s).rxq ≡ s.rxq) × ((transmit phys p s).recv_slot ≡ s.recv_slot)
  unfolding transmit send
  transmit-rx p s = elim (Bool-cases (ltb (get_or s.pool.size p 0) 42)) [
    | inl small ↦ rw small (refl, refl)
    | inr big ↦ elim (Bool-cases (full s.txq)) [
      | inl is_full ↦ rw (big, is_full) (refl, refl)
      | inr room ↦ rw (big, room) (refl, refl)
    ]
  ]

  pub transmit-recv : (p : ℕ) (s : E1000) → (transmit phys p s).recv ≡ s.recv
  unfolding transmit send
  transmit-recv p s = elim (Bool-cases (ltb (get_or s.pool.size p 0) 42)) [
    | inl small ↦ rw small refl
    | inr big ↦ elim (Bool-cases (full s.txq)) [
      | inl is_full ↦ rw (big, is_full) refl
      | inr room ↦ rw (big, room) refl
    ]
  ]

  pub transmit-kept : (p : ℕ) (s : E1000) → (transmit phys p s).kept ≡ s.kept
  unfolding transmit send
  transmit-kept p s = elim (Bool-cases (ltb (get_or s.pool.size p 0) 42)) [
    | inl small ↦ rw small refl
    | inr big ↦ elim (Bool-cases (full s.txq)) [
      | inl is_full ↦ rw (big, is_full) refl
      | inr room ↦ rw (big, room) refl
    ]
  ]

  pub transmit-IsReady :
      (n p : ℕ) (l : List (Option ℕ)) (s : E1000)
      → length l + 260 < n
      → p < n
      → IsReady n l s.rxq s
      → IsReady n l (transmit phys p s).rxq (transmit phys p s)
  transmit-IsReady n p l s room known ok =
      let inside = In-size p s.pool (omega (arith, known, ok.size)) in
      let few : length l + 1 < 0xffff_f000 = omega (arith, room, ok.small) in
      let same = transmit-rx p s in
      record {
        driver = transmit-IsDriver phys p l s few inside ok.driver;
        loaded = rw (same.0, same.1) ok.loaded;
        size = length-transmit p s ∙ ok.size;
        small = ok.small;
      }
