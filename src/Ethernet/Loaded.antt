-- ===== src/Ethernet/Loaded.antt =====
-- Every place of the receive ring between its head and its tail has a packet.
use xivix.Base.{
  ℕ, ◌+◌, ◌-◌, ◌%◌, ◌<◌, ◌≡◌, List, Option, none, some, get_or, set, length, get_or-set_self,
  get_or-set_ne, arith, ap, Bool-cases, inl, inr, false, true, ◌==◌, ◌≢◌,
}
use xivix.Ethernet.{RingPointer, after, next, full, empty, pop}
use xivix.Ethernet.Counted.{IsRing}

-- The places that are used, and the place of `i` among them.
abbrev pub used : RingPointer → ℕ
used r = (r.tail + 128 - r.head) % 128

abbrev pub place : RingPointer → ℕ → ℕ
place r i = (i + 128 - r.head) % 128

abbrev pub Loaded : RingPointer → List (Option ℕ) → Type 0
Loaded r slots = (i : ℕ) → i < 128 → place r i < used r → get_or slots i none ≢ none

pub after_mod : (c : ℕ) → c < 128 → after 128 c ≡ (c + 1) % 128
unfolding after
after_mod c h = ground arith

module _ (r : RingPointer) (ok : IsRing r) where
  pub next-tail : (next r).tail ≡ (r.tail + 1) % 128
  unfolding next
  next-tail = rw ok.limit (after_mod r.tail ok.tail)

  pub pop-head : (pop r).head ≡ (r.head + 1) % 128
  unfolding pop
  pop-head = rw ok.limit (after_mod r.head ok.head)

  pub full_no : full r ≡ false → (r.tail + 1) % 128 ≢ r.head
  unfolding full
  full_no room e = absurd (
      ground
        (arith, room, e, ok.limit, ap (λ m. after m r.tail) ok.limit, after_mod r.tail ok.tail))

  pub empty_no : empty r ≡ false → r.tail ≢ r.head
  unfolding empty
  empty_no busy e = absurd (ground (arith, busy, e))

  pub full-used : full r ≡ true → used r ≡ 127
  unfolding full
  full-used is_full =
      let e : after r.limit r.tail ≡ r.head = ground (arith, is_full) in
      omega
        (arith, e, ap (λ m. after m r.tail) ok.limit, after_mod r.tail ok.tail, ok.tail, ok.head)

  pub room_used : full r ≡ false → used r < 127
  room_used room = omega (arith, full_no room, ok.tail, ok.head)

  pub used-next : full r ≡ false → used (next r) ≡ used r + 1
  unfolding next
  used-next room = omega (arith, next-tail, ok.head, ok.tail, full_no room)

  pub used-pop : empty r ≡ false → used (pop r) + 1 ≡ used r
  unfolding pop
  used-pop busy = omega (arith, pop-head, ok.head, ok.tail, empty_no busy)

  module _ (slots : List (Option ℕ)) (size : length slots ≡ 128) where
    pub next-Loaded :
        (p : ℕ) → full r ≡ false → Loaded r slots → Loaded (next r) (set slots r.tail (some p))
    unfolding next
    next-Loaded p room loaded i h k = elim (Bool-cases (i == r.tail)) [
      | inl here ↦
          let e : i ≡ r.tail = ground (arith, here) in
          rw (e, get_or-set_self slots r.tail (some p) none (omega (arith, size, ok.tail)))
            (λ f. cc)
      | inr other ↦
          let apart : r.tail ≢ i = λ f. absurd (ground (arith, other, f)) in
          rw (get_or-set_ne slots r.tail i (some p) none apart)
            (loaded i h (omega (arith, k, used-next room, ok.head, ok.tail, h, apart)))
    ]

    pub pop-Loaded : empty r ≡ false → Loaded r slots → Loaded (pop r) (set slots r.head none)
    unfolding pop
    pop-Loaded busy loaded i h k =
        let apart : r.head ≢ i =
          λ e. absurd (omega (arith, k, e, pop-head, used-pop busy, ok.head, ok.tail)) in
        rw (get_or-set_ne slots r.head i none none apart)
          (loaded i h (omega (arith, k, used-pop busy, pop-head, ok.head, ok.tail, h, apart)))

    pub head-Loaded : empty r ≡ false → Loaded r slots → get_or slots r.head none ≢ none
    head-Loaded busy loaded = loaded r.head ok.head (omega (arith, ok.head, ok.tail, empty_no busy))
