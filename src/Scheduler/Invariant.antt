-- ===== src/Scheduler/Invariant.antt =====
-- kernel/scheduler.cpp: at most one task runs, and it is the active one.
use xivix.Base.{
  ℕ, zero, suc, ◌<◌, ◌≡◌, ◌≢◌, refl, arith, true, ◌==◌, List, [], ◌∷◌, none, some, get_or, map,
  length, length-set, get_or-set_self, get_or-set_ne, Bool-cases, inl, inr, ap, sym, ◌∙◌,
}
use xivix.Scheduler.{
  task_run, code, TaskSlot, core, slot, Scheduler, no_slot, slot_at, set_slot, wake_slot,
  wake_tasks, finish,
}

abbrev pub state_at : Scheduler → ℕ → ℕ
state_at s j = code (slot_at s j).state

-- No task runs.
pub record IsIdle (s : Scheduler) : Type 0 where
  pub slots : length s.tasks ≡ 32
  pub waiting : (j : ℕ) → state_at s j ≢ 3

-- The task of the slot that the loop of `run` stands at runs, and no other.
pub record IsRunning (s : Scheduler) : Type 0 where
  pub slots : length s.tasks ≡ 32
  pub inside : s.i < 32
  pub runs : state_at s s.i ≡ 3
  pub alone : (j : ℕ) → j ≢ s.i → state_at s j ≢ 3

pub set-other :
    (s : Scheduler) (k : ℕ) (t : TaskSlot) (j : ℕ)
    → k ≢ j
    → state_at (set_slot k t s) j ≡ state_at s j
set-other s k t j h = ap (λ x. code x.state) (get_or-set_ne s.tasks k j t no_slot h)

pub set-here :
    (s : Scheduler) (k : ℕ) (t : TaskSlot)
    → k < length s.tasks
    → state_at (set_slot k t s) k ≡ code t.state
set-here s k t h = ap (λ x. code x.state) (get_or-set_self s.tasks k t no_slot h)

pub set-idle :
    {s : Scheduler}
    → IsIdle s
    → (k : ℕ) (t : TaskSlot) → k < 32
    → code t.state ≢ 3
    → IsIdle (set_slot k t s)
set-idle {s} v k t room h = record {
  slots = length-set s.tasks k t ∙ v.slots;
  waiting = λ j. elim (Bool-cases (k == j)) [
    | inl here ↦
        let e : k ≡ j = ground arith in
        rw (← e) (λ q. h (sym (set-here s k t (omega (arith, v.slots))) ∙ q))
    | inr other ↦ λ q. v.waiting j (sym (set-other s k t j (λ e. absurd (ground arith))) ∙ q)
  ];
}

pub stop :
    {s : Scheduler} → IsRunning s → (t : TaskSlot) → code t.state ≢ 3 → IsIdle (set_slot s.i t s)
stop {s} v t h = record {
  slots = length-set s.tasks s.i t ∙ v.slots;
  waiting = λ j. elim (Bool-cases (s.i == j)) [
    | inl here ↦
        let e : s.i ≡ j = ground arith in
        rw (← e) (λ q. h (sym (set-here s s.i t (omega (arith, v.slots, v.inside))) ∙ q))
    | inr other ↦
        let ne : s.i ≢ j = λ e. absurd (ground arith) in
        λ q. v.alone j (λ e. ne (sym e)) (sym (set-other s s.i t j ne) ∙ q)
  ];
}

pub run-slot :
    {s : Scheduler}
    → IsIdle s
    → s.i < 32
    → (t : TaskSlot) → code t.state ≡ 3
    → IsRunning (set_slot s.i t s)
run-slot {s} v room t h = record {
  slots = length-set s.tasks s.i t ∙ v.slots;
  inside = room;
  runs = set-here s s.i t (omega (arith, v.slots)) ∙ h;
  alone = λ j ne q. v.waiting j (sym (set-other s s.i t j (λ e. ne (sym e))) ∙ q);
}

-- The state of a slot after `wake_tasks`, which starts no task.
pub wake_slot-code :
    (mask offset : ℕ) (t : TaskSlot)
    → (code (wake_slot mask offset t).state ≡ 3 → code t.state ≡ 3)
      × (code t.state ≡ 3 → code (wake_slot mask offset t).state ≡ 3)
unfolding wake_slot
wake_slot-code mask offset t = ground arith

get_or-map :
    (f : TaskSlot → TaskSlot)
    → f no_slot ≡ no_slot
    → (ts : List TaskSlot) (j : ℕ) → get_or (map f ts) j no_slot ≡ f (get_or ts j no_slot)
get_or-map f e [] j = sym e
get_or-map f e (t ∷ ts) zero = refl
get_or-map f e (t ∷ ts) (suc j) = get_or-map f e ts j

length-map : (f : TaskSlot → TaskSlot) (ts : List TaskSlot) → length (map f ts) ≡ length ts
length-map f [] = refl
length-map f (t ∷ ts) = ap suc (length-map f ts)

pub wake_tasks-slot :
    (mask offset : ℕ) (s : Scheduler) (j : ℕ)
    → slot_at (wake_tasks mask offset s) j ≡ wake_slot mask offset (slot_at s j)
unfolding wake_tasks wake_slot
wake_tasks-slot mask offset s j = get_or-map (wake_slot mask offset) refl s.tasks j

pub wake_tasks-IsIdle :
    (mask offset : ℕ) {s : Scheduler} → IsIdle s → IsIdle (wake_tasks mask offset s)
unfolding wake_tasks
wake_tasks-IsIdle mask offset {s} v = record {
  slots = length-map _ s.tasks ∙ v.slots;
  waiting = λ j q. v.waiting j (
      (wake_slot-code mask offset (slot_at s j)).0
        (ap (λ x. code x.state) (sym (wake_tasks-slot mask offset s j)) ∙ q));
}

pub wake_tasks-IsRunning :
    (mask offset : ℕ) {s : Scheduler} → IsRunning s → IsRunning (wake_tasks mask offset s)
unfolding wake_tasks
wake_tasks-IsRunning mask offset {s} v = record {
  slots = length-map _ s.tasks ∙ v.slots;
  inside = v.inside;
  runs =
      ap (λ x. code x.state) (wake_tasks-slot mask offset s s.i)
      ∙ (wake_slot-code mask offset (slot_at s s.i)).1 v.runs;
  alone = λ j ne q. v.alone j ne (
      (wake_slot-code mask offset (slot_at s j)).0
        (ap (λ x. code x.state) (sym (wake_tasks-slot mask offset s j)) ∙ q));
}

-- What holds between the switches: no task runs while the core task does, and otherwise only the active one.
pub data IsScheduler (s : Scheduler) : Type 0 where
  unstarted : s.active_task ≡ none → IsIdle s → IsScheduler s
  in_core : s.active_task ≡ some core → IsIdle s → IsScheduler s
  in_task : s.active_task ≡ some (slot s.i) → IsRunning s → IsScheduler s

pub finish-IsScheduler :
    {s : Scheduler} → IsRunning s → s.active_task ≡ some core → IsScheduler (finish s)
unfolding finish
finish-IsScheduler {s} v e =
    let running : (code (slot_at s s.i).state == 3) ≡ true = ground (arith, v.runs) in
    rw running (
      in_core e (
        moved
          (stop v (record (slot_at s s.i) { state = task_run }) (λ q. absurd (omega (arith, q))))))
  where
    moved : {s : Scheduler} {n : ℕ} → IsIdle s → IsIdle (record s { i = n })
    moved v = record { slots = v.slots; waiting = v.waiting }
