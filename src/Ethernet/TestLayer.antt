-- ===== src/Ethernet/TestLayer.antt =====
-- A network layer for the runs of the Ethernet driver.
use xivix.Base.{
  ℕ, ◌+◌, ◌*◌, ◌≡◌, refl, List, [], ◌∷◌, Option, some, arith, length, ◌++◌, length-append, ◌≤◌, ◌<◌,
  ltb, if◌then◌else◌, Bool-cases, inl, inr, ◌∙◌, sym, subst,
}
use xivix.Ethernet.{pass, leave, E1000, transmit}
use xivix.Net.Pool.Counts.{length-take_ref, length-drop_ref}
use xivix.Ethernet.Counted.{pass-IsDriver, leave-IsDriver, IsDriver, transmit-IsDriver, first-In}
use xivix.Ethernet.Receive.{IsFair, IsCalm}
use xivix.Ethernet.Passes.{transmit-kept, length-transmit, transmit-rx, transmit-recv}

abbrev pub phys : ℕ → ℕ
phys p = 0x10_0000 + 2048 * p

-- A network layer that keeps up to four packets and sends the other frames back, as the DHCP client keeps offers.
abbrev pub enqueue : ℕ → E1000 → E1000
enqueue p s =
    if ltb (length s.kept) 4
    then record (pass (some p) s) { kept = some p ∷ s.kept }
    else transmit phys p s

-- Its task ends all references that it keeps.
abbrev pub end_all : List (Option ℕ) → E1000 → E1000
end_all [] s = record s { kept = [] }
end_all (q ∷ qs) s = end_all qs (leave q s)

abbrev pub runsched : E1000 → E1000
runsched s = end_all s.kept s

kept-IsDriver :
    (l ks : List (Option ℕ)) (s : E1000) → IsDriver l s → IsDriver l (record s { kept = ks })
kept-IsDriver l ks s ok = record {
  rx = ok.rx;
  tx = ok.tx;
  rx_slots = ok.rx_slots;
  tx_slots = ok.tx_slots;
  few = ok.few;
  exact = ok.exact;
}

enqueue-few : (p : ℕ) (s : E1000) → length s.kept ≤ 4 → length (enqueue p s).kept ≤ 4
enqueue-few p s few = elim (Bool-cases (ltb (length s.kept) 4)) [
  | inl room ↦ rw room (ground (arith, room))
  | inr all_kept ↦ rw (all_kept, transmit-kept phys p s) few
]

enqueue-IsDriver :
    (p : ℕ) (l : List (Option ℕ)) (s : E1000)
    → length s.kept ≤ 4
    → 4 + length l + 3 < 0xffff_f000
    → IsDriver (some p ∷ some p ∷ (s.kept ++ l)) s
    → IsDriver (some p ∷ some p ∷ ((enqueue p s).kept ++ l)) (enqueue p s)
enqueue-IsDriver p l s few small ok =
    let ks = s.kept ++ l in
    let inside = first-In (some p) (some p ∷ ks) s ok in
    let enough : length ks + 3 < 0xffff_f000 = omega (arith, few, small, length-append s.kept l) in
    elim (Bool-cases (ltb (length s.kept) 4)) [
      | inl room ↦ rw room (
          kept-IsDriver (some p ∷ some p ∷ some p ∷ ks) (some p ∷ s.kept) (pass (some p) s)
            (pass-IsDriver (some p) (some p ∷ some p ∷ ks) s (omega (arith, enough)) inside ok))
      | inr all_kept ↦ rw all_kept (
          subst (λ t. IsDriver (some p ∷ some p ∷ (t ++ l)) (transmit phys p s))
            (sym (transmit-kept phys p s))
            (transmit-IsDriver phys p (some p ∷ some p ∷ ks) s (omega (arith, enough)) inside ok))
    ]

enqueue-same :
    (p : ℕ) (s : E1000)
    → (length (enqueue p s).pool.ref_count ≡ length s.pool.ref_count)
      × ((enqueue p s).rxq ≡ s.rxq)
      × ((enqueue p s).recv_slot ≡ s.recv_slot)
      × ((enqueue p s).recv ≡ s.recv)
enqueue-same p s = elim (Bool-cases (ltb (length s.kept) 4)) [
  | inl room ↦ rw room (length-take_ref (some p) s.pool, refl, refl, refl)
  | inr all_kept ↦
      let (ring, slots) = transmit-rx phys p s in
      rw all_kept (length-transmit phys p s, ring, slots, transmit-recv phys p s)
]

pub enqueue-IsFair : IsFair 4 enqueue
enqueue-IsFair = record {
  few = enqueue-few;
  driver = enqueue-IsDriver;
  pool = λ p s. (enqueue-same p s).0;
  ring = λ p s. (enqueue-same p s).1;
  slots = λ p s. (enqueue-same p s).2;
  descs = λ p s. (enqueue-same p s).3;
}

end_all-IsDriver :
    (ks l : List (Option ℕ)) (s : E1000) → IsDriver (ks ++ l) s → IsDriver l (end_all ks s)
end_all-IsDriver [] l s ok = kept-IsDriver l [] s ok
end_all-IsDriver (q ∷ qs) l s ok =
    end_all-IsDriver qs l (leave q s) (leave-IsDriver q (qs ++ l) s ok)

end_all-same :
    (ks : List (Option ℕ)) (s : E1000)
    → ((end_all ks s).kept ≡ [])
      × (length (end_all ks s).pool.ref_count ≡ length s.pool.ref_count)
      × ((end_all ks s).rxq ≡ s.rxq)
      × ((end_all ks s).recv_slot ≡ s.recv_slot)
end_all-same [] s = (refl, refl, refl, refl)
end_all-same (q ∷ qs) s =
    let (none_kept, size, ring, slots) = end_all-same qs (leave q s) in
    (none_kept, size ∙ length-drop_ref q s.pool, ring, slots)

pub runsched-IsCalm : IsCalm 4 runsched
runsched-IsCalm = record {
  few = λ s few. rw (end_all-same s.kept s).0 (omega arith);
  driver = λ l s few small ok.
      subst (λ t. IsDriver (t ++ l) (end_all s.kept s)) (sym (end_all-same s.kept s).0)
        (end_all-IsDriver s.kept l s ok);
  pool = λ s. (end_all-same s.kept s).1;
  ring = λ s. (end_all-same s.kept s).2;
  slots = λ s. (end_all-same s.kept s).3;
}
