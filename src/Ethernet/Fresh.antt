-- ===== src/Ethernet/Fresh.antt =====
-- The descriptors behind the first `m` of the receive ring have no frame: each round of the loop makes them fewer.
use xivix.Base.{
  ℕ, zero, suc, ◌≤◌, ◌<◌, ◌≡◌, ◌≢◌, refl, List, [], ◌∷◌, get_or, set, get_or-set_ne, arith,
  Bool-cases, inl, inr, false, has, ◌==◌,
}
use xivix.Ethernet.{RingPointer, RecvDesc, E1000, next, full, empty, pop, no_recv, has_frame, load}
use xivix.Ethernet.Counted.{IsRing, next-IsRing}
use xivix.Ethernet.Loaded.{place, used, used-pop, used-next, pop-head, empty_no}
use xivix.Ethernet.Receive.{returned}

abbrev pub IsFresh : ℕ → RingPointer → List RecvDesc → Type 0
IsFresh m r recv =
    (i : ℕ)
    → i < 128
    → m ≤ place r i
    → place r i < used r
    → has (get_or recv i no_recv).status 1 ≡ false

-- What a round makes fewer.
abbrev pub Newer : E1000 → E1000 → Type 0
Newer s s' = (m : ℕ) → IsFresh (suc m) s.rxq s.recv → IsFresh m s'.rxq s'.recv

pub all-IsFresh : (r : RingPointer) (recv : List RecvDesc) → IsFresh 128 r recv
all-IsFresh r recv i h k l = absurd (omega (arith, k))

pub IsFresh-has_frame : (s : E1000) → IsRing s.rxq → IsFresh 0 s.rxq s.recv → has_frame s ≡ false
unfolding has_frame
IsFresh-has_frame s ok fresh = elim (Bool-cases (empty s.rxq)) [
  | inl idle ↦ rw idle refl
  | inr busy ↦
      let first =
        fresh s.rxq.head ok.head (omega arith)
          (omega (arith, ok.head, ok.tail, empty_no s.rxq ok busy)) in
      rw (busy, first) refl
]

-- The first place is done.
pop-IsFresh :
    (r : RingPointer) (recv : List RecvDesc) (m : ℕ)
    → IsRing r
    → empty r ≡ false
    → IsFresh (suc m) r recv
    → IsFresh m (pop r) recv
unfolding pop
pop-IsFresh r recv m ok busy fresh i h k l =
    fresh i h (omega (arith, k, l, used-pop r ok busy, pop-head r ok, ok.head, ok.tail, h))
      (omega (arith, k, l, used-pop r ok busy, pop-head r ok, ok.head, ok.tail, h))

zero-status :
    (recv : List RecvDesc) (i : ℕ) (d : RecvDesc)
    → d.status ≡ 0
    → (get_or (set recv i d) i no_recv).status ≡ 0
zero-status [] i d e = refl
zero-status (x ∷ xs) zero d e = e
zero-status (x ∷ xs) (suc i) d e = zero-status xs i d e

-- A new packet has no frame.
next-IsFresh :
    (r : RingPointer) (recv : List RecvDesc) (d : RecvDesc) (m : ℕ)
    → IsRing r
    → full r ≡ false
    → d.status ≡ 0
    → IsFresh m r recv
    → IsFresh m (next r) (set recv r.tail d)
unfolding next
next-IsFresh r recv d m ok room clear fresh i h k l = elim (Bool-cases (i == r.tail)) [
  | inl here ↦
      let e : i ≡ r.tail = ground (arith, here) in rw (e, zero-status recv r.tail d clear) refl
  | inr other ↦
      let apart : r.tail ≢ i = λ f. absurd (ground (arith, other, f)) in
      rw (get_or-set_ne recv r.tail i d no_recv apart)
        (fresh i h k (omega (arith, l, used-next r ok room, ok.head, ok.tail, h, apart)))
]

empty-next : (r : RingPointer) → full r ≡ false → empty (next r) ≡ false
unfolding full empty next
empty-next r room = room

module _ (phys : ℕ → ℕ) where
  pub returned-IsFresh :
      (q m : ℕ) (s : E1000)
      → IsRing s.rxq
      → empty s.rxq ≡ false
      → IsFresh (suc m) s.rxq s.recv
      → IsFresh m (returned phys q s).rxq (returned phys q s).recv
  unfolding load
  returned-IsFresh q m s ok busy fresh = elim (Bool-cases (full s.rxq)) [
    | inl is_full ↦ rw is_full (pop-IsFresh s.rxq s.recv m ok busy fresh)
    | inr room ↦
        let r = s.rxq in
        let old = get_or s.recv r.tail no_recv in
        let new : RecvDesc = record old { address = phys q; status = 0 } in
        rw room (
          pop-IsFresh (next r) (set s.recv r.tail new) m (next-IsRing r ok) (empty-next r room)
            (next-IsFresh r s.recv new (suc m) ok room refl fresh))
  ]
