-- ===== src/Ethernet/Transmit.antt =====
-- The transmit ring is a first-in first-out queue of at most 127 packets with their descriptors.
use xivix.Base.{
  ℕ, zero, suc, ◌+◌, ◌-◌, ◌%◌, ◌≤◌, ◌<◌, ◌≡◌, refl, List, [], ◌∷◌, ◌++◌, Option, none, some, get_or,
  set, length, get_or-set_self, get_or-set_ne, drop, leb, ◌&&◌, sym, arith, ◌∙◌, ap, ap₂,
  Bool-cases, inl, inr, ltb, if◌then◌else◌, ◌||◌, false, true,
}
use xivix.Net.Pool.{take_ref, addref}
use xivix.Ethernet.{
  RingPointer, TrmtDesc, E1000, next, full, empty, pop, send, transmit, release, release_sent,
  no_trmt, not_done, data_info, pass,
}
use xivix.Net.Pool.Exact.{Exact}
use xivix.Ethernet.Counted.{IsRing, IsDriver, release-IsDriver, pop-IsRing}
use xivix.Ethernet.Loaded.{used, used-next, used-pop, pop-head, full-used, room_used}

-- The `k` places of an array from `i` on, going round at 128.
unfoldable pub window {ℓ} : {A : Type ℓ} → List A → A → ℕ → ℕ → List A
window xs d i zero = []
window xs d i (suc k) = get_or xs i d ∷ window xs d ((i + 1) % 128) k

module _ {ℓ} {A : Type ℓ} (xs : List A) (d v : A) where
  -- A write outside of the places that are looked at.
  window-set_other :
      (i j k : ℕ)
      → i < 128
      → j < 128
      → k ≤ (j + 128 - i) % 128
      → window (set xs j v) d i k ≡ window xs d i k
  unfolding window
  window-set_other i j zero h g b = refl
  window-set_other i j (suc k) h g b =
      ap₂ ◌∷◌ (get_or-set_ne xs j i v d (λ e. absurd (omega (arith, e, b, h))))
        (window-set_other ((i + 1) % 128) j k (omega arith) g (omega (arith, b, h, g)))

  -- A write to the place behind them.
  window-set_end :
      (i j k : ℕ)
      → length xs ≡ 128
      → i < 128
      → k < 128
      → j ≡ (i + k) % 128
      → window (set xs j v) d i (suc k) ≡ window xs d i k ++ (v ∷ [])
  unfolding window
  window-set_end i j zero size h b e =
      let here : j ≡ i = omega (arith, e, h) in
      rw here (ap (λ t. t ∷ []) (get_or-set_self xs i v d (omega (arith, size, h))))
  window-set_end i j (suc k) size h b e =
      ap₂ ◌∷◌ (get_or-set_ne xs j i v d (λ f. absurd (omega (arith, e, f, h, b)))) (
        window-set_end ((i + 1) % 128) j k size (omega arith) (omega (arith, b))
          (omega (arith, e, h)))

-- The packets that wait in the ring, the oldest first, and their descriptors.
abbrev pub waiting_packets : E1000 → List (Option ℕ)
waiting_packets s = window s.trmt_slot none s.txq.head (used s.txq)

abbrev pub waiting_descs : E1000 → List TrmtDesc
waiting_descs s = window s.trmt no_trmt s.txq.head (used s.txq)

-- How many of the oldest packets are sent.
unfoldable pub sent_count : List TrmtDesc → ℕ
sent_count [] = 0
sent_count (d ∷ ds) = if not_done d.info then 0 else suc (sent_count ds)

-- A packet that is released is the oldest.
release-waiting :
    (s : E1000)
    → IsRing s.txq
    → empty s.txq ≡ false
    → (waiting_packets s ≡ get_or s.trmt_slot s.txq.head none ∷ waiting_packets (release s))
      × (waiting_descs s ≡ get_or s.trmt s.txq.head no_trmt ∷ waiting_descs (release s))
unfolding release window
release-waiting s ok busy =
    let r = s.txq in
    let k = used (pop r) in
    let more : used r ≡ suc k = omega (arith, used-pop r ok busy) in
    let same =
      window-set_other s.trmt_slot none none ((r.head + 1) % 128) r.head k (omega arith)
        (omega (arith, ok.head)) (omega (arith, more, ok.head)) in
    let head : (r.head + 1) % 128 ≡ (pop r).head = sym (pop-head r ok) in
    (
      ap (λ n. window s.trmt_slot none r.head n) more
          ∙ ap (λ t. get_or s.trmt_slot r.head none ∷ t)
              (sym same ∙ ap (λ h. window (set s.trmt_slot r.head none) none h k) head),
      ap (λ n. window s.trmt no_trmt r.head n) more
          ∙ ap (λ t. get_or s.trmt r.head no_trmt ∷ t) (ap (λ h. window s.trmt no_trmt h k) head),
    )

none-waiting : (s : E1000) → IsRing s.txq → empty s.txq ≡ true → used s.txq ≡ 0
unfolding empty
none-waiting s ok idle =
    let e : s.txq.tail ≡ s.txq.head = ground (arith, idle) in omega (arith, e, ok.head)

release-IsRing : (s : E1000) → IsRing s.txq → IsRing (release s).txq
unfolding release
release-IsRing s ok = pop-IsRing s.txq ok

release-used :
    (s : E1000) → IsRing s.txq → empty s.txq ≡ false → used (release s).txq + 1 ≡ used s.txq
unfolding release
release-used s ok busy = used-pop s.txq ok busy

set-none :
    (xs : List (Option ℕ)) (i j : ℕ)
    → get_or xs j none ≡ none
    → get_or (set xs i none) j none ≡ none
set-none [] i j h = refl
set-none (x ∷ xs) zero zero h = refl
set-none (x ∷ xs) zero (suc j) h = h
set-none (x ∷ xs) (suc i) zero h = h
set-none (x ∷ xs) (suc i) (suc j) h = set-none xs i j h

-- A slot without a packet stays so.
release_sent-none :
    (k j : ℕ) (s : E1000)
    → get_or s.trmt_slot j none ≡ none
    → get_or (release_sent k s).trmt_slot j none ≡ none
unfolding release_sent release
release_sent-none zero j s h = h
release_sent-none (suc k) j s h =
    elim (Bool-cases (empty s.txq || not_done (get_or s.trmt s.txq.head no_trmt).info)) [
      | inl stop ↦ rw stop h
      | inr more ↦ rw more (release_sent-none k j (release s) (set-none s.trmt_slot s.txq.head j h))
    ]

release-head :
    (s : E1000)
    → IsRing s.txq
    → length s.trmt_slot ≡ 128
    → (get_or (release s).trmt_slot s.txq.head none ≡ none)
      × ((release s).txq.head ≡ (s.txq.head + 1) % 128)
unfolding release
release-head s ok size = (
  get_or-set_self s.trmt_slot s.txq.head none none (omega (arith, ok.head, size)),
  pop-head s.txq ok,
)

-- The slots of the first `n` packets are empty.
abbrev pub Freed : ℕ → ℕ → E1000 → Type 0
Freed head n s = (i : ℕ) → i < n → get_or s.trmt_slot ((head + i) % 128) none ≡ none

more-Freed :
    (k n : ℕ) (s : E1000)
    → IsRing s.txq
    → length s.trmt_slot ≡ 128
    → Freed (release s).txq.head n (release_sent k (release s))
    → Freed s.txq.head (suc n) (release_sent k (release s))
more-Freed k n s ok size rest zero h =
    let here : (s.txq.head + 0) % 128 ≡ s.txq.head = omega (arith, ok.head) in
    rw here (release_sent-none k s.txq.head (release s) (release-head s ok size).0)
more-Freed k n s ok size rest (suc i) h =
    let next_place : ((release s).txq.head + i) % 128 ≡ (s.txq.head + suc i) % 128 =
      omega (arith, (release-head s ok size).1) in
    ap (λ x. get_or (release_sent k (release s)).trmt_slot x none) (sym next_place)
    ∙ rest i (omega (arith, h))

-- The loop releases the packets that are sent, up to the first that is not, and leaves the others as they are. The
-- slots of the released packets are empty, and each packet's count is the number of the references that are left:
-- where it was so before, with the references `l` outside of the driver.
pub release_sent-waiting :
    (k : ℕ) (l : List (Option ℕ)) (s : E1000)
    → IsDriver l s
    → used s.txq ≤ k
    → let n = sent_count (waiting_descs s) in
      let s' = release_sent k s in
      (waiting_packets s' ≡ drop n (waiting_packets s))
      × (waiting_descs s' ≡ drop n (waiting_descs s))
      × Freed s.txq.head n s'
      × Exact s'.recv_slot s'.trmt_slot l s'.pool
unfolding release_sent sent_count window
release_sent-waiting zero l s ok few =
    let idle : used s.txq ≡ 0 = omega (arith, few) in
    rw idle (refl, refl, λ i h. absurd (omega (arith, h)), ok.exact)
release_sent-waiting (suc k) l s ok few = elim (Bool-cases (empty s.txq)) [
  | inl idle ↦
      rw (idle, none-waiting s ok.tx idle) (refl, refl, λ i h. absurd (omega (arith, h)), ok.exact)
  | inr busy ↦
      let d = get_or s.trmt s.txq.head no_trmt in
      let (packets, descs) = release-waiting s ok.tx busy in
      elim (Bool-cases (not_done d.info)) [
        | inl waits ↦
            rw (busy, waits, descs, waits) (refl, refl, λ i h. absurd (omega (arith, h)), ok.exact)
        | inr done ↦
            let fewer : used (release s).txq ≤ k = omega (arith, few, release-used s ok.tx busy) in
            let (ps, ds, freed, exact) =
              release_sent-waiting k l (release s) (release-IsDriver l s ok) fewer in
            let n = sent_count (waiting_descs (release s)) in
            rw (busy, done, packets, descs, done)
              (ps, ds, more-Freed k n s ok.tx ok.tx_slots freed, exact)
      ]
]

next-head : (r : RingPointer) → (next r).head ≡ r.head
unfolding next
next-head r = refl

module _ (phys : ℕ → ℕ) where
  send-waiting :
      (p : ℕ) (s : E1000)
      → IsRing s.txq
      → length s.trmt_slot ≡ 128
      → length s.trmt ≡ 128
      → full s.txq ≡ false
      → let desc : TrmtDesc = record {
        address = phys p;
        info = data_info (get_or s.pool.size p 0);
      } in
        (waiting_packets (send phys p s) ≡ waiting_packets s ++ (some p ∷ []))
        × (waiting_descs (send phys p s) ≡ waiting_descs s ++ (desc ∷ []))
  unfolding send
  send-waiting p s ok slots size room =
      let r = s.txq in
      let desc : TrmtDesc = record {
        address = phys p;
        info = data_info (get_or s.pool.size p 0);
      } in
      let k = used r in
      let more : used (next r) ≡ suc k = omega (arith, used-next r ok room) in
      let few : k < 128 = omega arith in
      let place : r.tail ≡ (r.head + k) % 128 = omega (arith, ok.tail, ok.head) in
      let head = next-head r in
      (
        ap (λ h. window (set s.trmt_slot r.tail (some p)) none h (used (next r))) head
            ∙ ap (λ n. window (set s.trmt_slot r.tail (some p)) none r.head n) more
            ∙ window-set_end s.trmt_slot none (some p) r.head r.tail k slots ok.head few place,
        ap (λ h. window (set s.trmt r.tail desc) no_trmt h (used (next r))) head
            ∙ ap (λ n. window (set s.trmt r.tail desc) no_trmt r.head n) more
            ∙ window-set_end s.trmt no_trmt desc r.head r.tail k size ok.head few place,
      )

  -- A packet of 42 bytes or more is put behind those that wait where fewer than 127 wait, with a descriptor of its
  -- address and its size; otherwise nothing is added.
  pub transmit-waiting :
      (p : ℕ) (s : E1000)
      → IsRing s.txq
      → length s.trmt_slot ≡ 128
      → length s.trmt ≡ 128
      → let size = get_or s.pool.size p 0 in
        let desc : TrmtDesc = record { address = phys p; info = data_info size } in
        let room = leb 42 size && ltb (used s.txq) 127 in
        (waiting_packets (transmit phys p s)
          ≡ (if room then waiting_packets s ++ (some p ∷ []) else waiting_packets s))
        × (waiting_descs (transmit phys p s)
            ≡ (if room then waiting_descs s ++ (desc ∷ []) else waiting_descs s))
  unfolding transmit take_ref addref
  transmit-waiting p s ok slots size =
      let bytes = get_or s.pool.size p 0 in
      elim (Bool-cases (ltb bytes 42)) [
        | inl small ↦
            let short : leb 42 bytes ≡ false = ground (arith, small) in
            rw (short, small) (refl, refl)
        | inr big ↦
            let long : leb 42 bytes ≡ true = ground (arith, big) in
            elim (Bool-cases (full s.txq)) [
              | inl is_full ↦
                  let no_room : ltb (used s.txq) 127 ≡ false =
                    ground (arith, full-used s.txq ok is_full) in
                  rw (long, no_room, big, is_full) (refl, refl)
              | inr room ↦
                  let has_room : ltb (used s.txq) 127 ≡ true =
                    ground (arith, room_used s.txq ok room) in
                  rw (long, has_room, big, room)
                    (send-waiting p (pass (some p) s) ok slots size room)
            ]
      ]
