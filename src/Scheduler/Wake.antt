-- ===== src/Scheduler/Wake.antt =====
-- kernel/scheduler.cpp, `wake_on_interrupt` against `scheduler_from_interrupt`.
use xivix.Base.{
  Option, ne→==, ℕ, zero, suc, ◌+◌, ◌-◌, ◌*◌, ◌/◌, ◌%◌, ◌^◌, ◌<◌, ◌≡◌, refl, arith, bit_and, bit_or,
  ◌==◌, leb, true, some, map, List, [], ◌∷◌, get_or, length, length-set, get_or-set_self,
  get_or-set_ne, Bool-cases, inl, inr, ap, ap₂, sym, ◌∙◌, max,
}
use native.Mathlib.Nat.{one-le-pow, div-add-mod', mod-lt, pow-suc, div_self}
use xivix.Base.Bits.{
  bit_and_place, bit_and_split, bit_or_split, bit_and-zero, bit_and_mask, bit_or_halves,
}
use xivix.Scheduler.{
  Place, core, slot, Scheduler, TaskSlot, code, slot_at, no_slot, task_run, task_wait_int,
  wake_slot, wake_tasks, int_offset, int_mask, wait_offset, wait_mask, register_slot, finish,
  switch_back, handle_interrupt, scheduler_from_interrupt,
}

-- The digit at place `k` of `w | m`.
place_or : (k w m : ℕ) → bit_and (bit_or w m) (2 ^ k) ≡ max (w / 2 ^ k % 2) (m / 2 ^ k % 2) * 2 ^ k
place_or k w m =
    let pos : 0 < 2 ^ k = one-le-pow k 2 (omega arith) in
    let dw : w / 2 ^ k * 2 ^ k + w % 2 ^ k ≡ w = div-add-mod' w (2 ^ k) in
    let dm : m / 2 ^ k * 2 ^ k + m % 2 ^ k ≡ m = div-add-mod' m (2 ^ k) in
    let rw1 : w % 2 ^ k < 2 ^ k = mod-lt w pos in
    let rm : m % 2 ^ k < 2 ^ k = mod-lt m pos in
    let e : 1 * 2 ^ k + 0 ≡ 2 ^ k = omega arith in
    let low : bit_or (w % 2 ^ k) (m % 2 ^ k) < 2 ^ k = bit_or-lt k (w % 2 ^ k) (m % 2 ^ k) rw1 rm in
    let both : bit_or w m
        ≡ bit_or (w / 2 ^ k) (m / 2 ^ k) * 2 ^ k + bit_or (w % 2 ^ k) (m % 2 ^ k) =
      ap₂ bit_or (sym dw) (sym dm)
      ∙ bit_or_split k (w / 2 ^ k) (w % 2 ^ k) (m / 2 ^ k) (m % 2 ^ k) rw1 rm in
    let odd : bit_and (bit_or (w / 2 ^ k) (m / 2 ^ k)) 1 ≡ max (w / 2 ^ k % 2) (m / 2 ^ k % 2) =
      omega (
        arith,
        bit_and_mask 1 (bit_or (w / 2 ^ k) (m / 2 ^ k)),
        bit_or_halves (w / 2 ^ k) (m / 2 ^ k),
      ) in
    ap₂ bit_and both (sym e)
    ∙ bit_and_split k (bit_or (w / 2 ^ k) (m / 2 ^ k)) (bit_or (w % 2 ^ k) (m % 2 ^ k)) 1 0 low pos
    ∙ rw (odd, bit_and-zero (bit_or (w % 2 ^ k) (m % 2 ^ k))) (omega arith)
  where
    bit_or-lt : (k a b : ℕ) → a < 2 ^ k → b < 2 ^ k → bit_or a b < 2 ^ k
    bit_or-lt zero a b ha hb =
        let a0 : a ≡ 0 = omega arith in let b0 : b ≡ 0 = omega arith in rw (a0, b0) (omega arith)
    bit_or-lt (suc k) a b ha hb =
        let half =
          bit_or-lt k (a / 2) (b / 2) (omega (arith, pow-suc 2 k)) (omega (arith, pow-suc 2 k)) in
        omega (arith, bit_or_halves a b, half, pow-suc 2 k)

place_of : (k w : ℕ) → bit_and w (2 ^ k) ≡ 2 ^ k → w / 2 ^ k % 2 ≡ 1
place_of k w h =
    let pos : 0 < 2 ^ k = one-le-pow k 2 (omega arith) in
    elim (Bool-cases (w / 2 ^ k % 2 == 0)) [
      | inl zero_digit ↦
          let e : w / 2 ^ k % 2 ≡ 0 = ground arith in
          absurd (omega (arith, h, pos, rw e at (bit_and_place k w)))
      | inr one_digit ↦ ground arith
    ]

place_self : (k : ℕ) → 2 ^ k / 2 ^ k % 2 ≡ 1
place_self k = let pos : 0 < 2 ^ k = one-le-pow k 2 (omega arith) in rw (div_self pos) refl

place_kept : (k w m : ℕ) → bit_and w (2 ^ k) ≡ 2 ^ k → bit_and (bit_or w m) (2 ^ k) ≡ 2 ^ k
place_kept k w m h =
    let one : max (w / 2 ^ k % 2) (m / 2 ^ k % 2) ≡ 1 = omega (arith, place_of k w h) in
    place_or k w m ∙ rw one (omega arith)

place_set : (k w : ℕ) → bit_and (bit_or w (2 ^ k)) (2 ^ k) ≡ 2 ^ k
place_set k w =
    let one : max (w / 2 ^ k % 2) (2 ^ k / 2 ^ k % 2) ≡ 1 = omega (arith, place_self k) in
    place_or k w (2 ^ k) ∙ rw one (omega arith)

-- The place of an interrupt in its word.
abbrev place : ℕ → ℕ
place inum = (inum - wait_offset inum * 0x20) % 32

wait_mask_lem : (inum : ℕ) → wait_mask inum ≡ 2 ^ place inum
unfolding wait_mask wait_offset
wait_mask_lem inum = elim (Bool-cases (leb 0x60 inum)) [
  | inl last ↦ rw last refl
  | inr below ↦ elim (Bool-cases (leb 0x40 inum)) [
    | inl third ↦ rw (below, third) refl
    | inr less ↦ elim (Bool-cases (leb 0x20 inum)) [
      | inl second ↦ rw (below, less, second) refl
      | inr first ↦
          let none : inum ≡ inum - 0 = omega arith in
          rw (below, less, first) (ap (λ x. 2 ^ (x % 32)) none)
    ]
  ]
]

-- Both functions choose the same word and the same mask.
same_offset : (inum : ℕ) → int_offset inum ≡ wait_offset inum
unfolding int_offset wait_offset
same_offset inum = refl

same_mask : (inum : ℕ) → int_mask inum ≡ wait_mask inum
unfolding int_mask wait_mask
same_mask inum = refl

-- The task of the slot has asked for the interrupt.
record Registered (inum : ℕ) (t : TaskSlot) : Type 0 where
  words : length t.task.wait_ints ≡ 4
  bit : bit_and (get_or t.task.wait_ints (wait_offset inum) 0) (2 ^ place inum) ≡ 2 ^ place inum

wait_offset-lt : (inum : ℕ) → wait_offset inum < 4
unfolding wait_offset
wait_offset-lt inum = ground arith

register-Registered :
    (inum : ℕ) (t : TaskSlot) → length t.task.wait_ints ≡ 4 → Registered inum (register_slot inum t)
unfolding register_slot
register-Registered inum t h = record {
  words = length-set t.task.wait_ints _ _ ∙ h;
  bit =
      ap (λ x. bit_and x (2 ^ place inum))
        (get_or-set_self t.task.wait_ints (wait_offset inum) _ 0
          (omega (arith, h, wait_offset-lt inum)))
      ∙ rw (wait_mask_lem inum)
          (place_set (place inum) (get_or t.task.wait_ints (wait_offset inum) 0));
}

register-keeps :
    (inum other : ℕ) {t : TaskSlot} → Registered inum t → Registered inum (register_slot other t)
unfolding register_slot
register-keeps inum other {t} r = record {
  words = length-set t.task.wait_ints _ _ ∙ r.words;
  bit = elim (Bool-cases (wait_offset other == wait_offset inum)) [
    | inl same ↦
        let e : wait_offset other ≡ wait_offset inum = ground arith in
        rw e (
          ap (λ x. bit_and x (2 ^ place inum))
            (get_or-set_self t.task.wait_ints (wait_offset inum) _ 0
              (omega (arith, r.words, wait_offset-lt inum)))
          ∙ place_kept (place inum) (get_or t.task.wait_ints (wait_offset inum) 0) (wait_mask other)
              r.bit)
    | inr apart ↦
        ap (λ x. bit_and x (2 ^ place inum))
          (get_or-set_ne t.task.wait_ints (wait_offset other) (wait_offset inum) _ 0
            (λ e. absurd (ground arith)))
        ∙ r.bit
  ];
}

unfoldable pub register_all : List ℕ → TaskSlot → TaskSlot
register_all [] t = t
register_all (inum ∷ inums) t = register_all inums (register_slot inum t)

register_all-keeps :
    (others : List ℕ) (inum : ℕ) {t : TaskSlot}
    → Registered inum t
    → Registered inum (register_all others t)
unfolding register_all
register_all-keeps [] inum r = r
register_all-keeps (other ∷ others) inum r =
    register_all-keeps others inum (register-keeps inum other r)

wake_slot-Registered :
    (inum : ℕ) (t : TaskSlot)
    → Registered inum t
    → code t.state ≡ 4
    → wake_slot (int_mask inum) (int_offset inum) t ≡ record t { state = task_run }
unfolding wake_slot
wake_slot-Registered inum t r waits =
    let pos : 0 < 2 ^ place inum = one-le-pow (place inum) 2 (omega arith) in
    let waiting : (code t.state == 4) ≡ true = ground (arith, waits) in
    rw
      (
        same_mask inum,
        same_offset inum,
        wait_mask_lem inum,
        waiting,
        r.bit,
        ne→== (2 ^ place inum) 0 (λ e. absurd (omega (arith, e, pos))),
      )
      refl

get_or-map :
    (f : TaskSlot → TaskSlot) (ts : List TaskSlot) (j : ℕ)
    → j < length ts
    → get_or (map f ts) j no_slot ≡ f (get_or ts j no_slot)
get_or-map f [] j h = absurd (omega (arith, h))
get_or-map f (t ∷ ts) zero h = refl
get_or-map f (t ∷ ts) (suc j) h = get_or-map f ts j (omega (arith, h))

-- The switch back to the core task leaves a slot whose task does not run.
finish-slot :
    (j : ℕ) (s : Scheduler) → code (slot_at s j).state ≡ 2 → slot_at (finish s) j ≡ slot_at s j
unfolding finish
finish-slot j s ready = elim (Bool-cases (code (slot_at s s.i).state == 3)) [
  | inr other ↦ rw other refl
  | inl runs ↦ rw runs (
      get_or-set_ne s.tasks s.i j _ no_slot
        (λ e. absurd (ground (arith, runs, ap (λ x. code (slot_at s x).state) e, ready))))
]

switch_back-slot :
    (active : Place) (j : ℕ) (s : Scheduler)
    → code (slot_at s j).state ≡ 2
    → slot_at (switch_back (some active) s) j ≡ slot_at s j
unfolding switch_back
switch_back-slot core j s ready = refl
switch_back-slot (slot k) j s ready = finish-slot j (record s { active_task = some core }) ready

-- A task that has asked for an interrupt, and for whatever others after it, can run again when it waits
-- and the interrupt comes, whichever task is active.
pub interrupt_wakes :
    (inum : ℕ) (others : List ℕ) (t : TaskSlot) (j : ℕ) (active : Place) (s : Scheduler)
    → length t.task.wait_ints ≡ 4
    → j < length s.tasks
    → s.active_task ≡ some active
    → slot_at s j ≡ record (register_all others (register_slot inum t)) { state = task_wait_int }
    → slot_at (scheduler_from_interrupt inum s) j
      ≡ record (register_all others (register_slot inum t)) { state = task_run }
unfolding scheduler_from_interrupt handle_interrupt wake_tasks
interrupt_wakes inum others t j active s words inside running here =
    let r = register_all-keeps others inum (register-Registered inum t words) in
    let waiting : TaskSlot = record (register_all others (register_slot inum t)) {
      state = task_wait_int;
    } in
    let woken : TaskSlot = record waiting { state = task_run } in
    let s1 = wake_tasks (int_mask inum) (int_offset inum) s in
    let awake : slot_at s1 j ≡ woken =
      get_or-map (wake_slot (int_mask inum) (int_offset inum)) s.tasks j inside
      ∙ ap (wake_slot (int_mask inum) (int_offset inum)) here
      ∙ wake_slot-Registered inum waiting (record { words = r.words; bit = r.bit }) refl in
    let ready : code (slot_at s1 j).state ≡ 2 = ap (λ x. code x.state) awake in
    let chosen : scheduler_from_interrupt inum s ≡ handle_interrupt inum (some active) s =
      ap (λ (x : Option Place). handle_interrupt inum x s) running in
    ap (λ (x : Scheduler). slot_at x j) chosen ∙ elim (Bool-cases (inum == 0x28)) [
      | inr other ↦ rw (handle_interrupt, other) awake
      | inl timer ↦ rw (handle_interrupt, timer) (switch_back-slot active j s1 ready ∙ awake)
    ]
