-- ===== src/Scheduler/Reach.antt =====
-- kernel/scheduler.cpp: the steps of the scheduler and its tasks.
use xivix.Base.{
  subst, ℕ, zero, suc, ◌+◌, ◌<◌, ◌≡◌, ◌≢◌, refl, arith, false, ◌==◌, List, Option, none, some,
  get_or, set, length-set, get_or-set_self, Bool-cases, inl, inr, ap, sym, ◌∙◌, leb, ◌⊎◌,
}
use xivix.Scheduler.{
  handle_interrupt, task_run, task_running, task_wait_int, code, TaskBlock, TaskSlot, Place, core,
  slot, Scheduler, no_slot, slot_at, set_slot, find_empty, start_in, start, wake_tasks, int_offset,
  int_mask, register_slot, wake_on_interrupt, visit, finish, wait_for_interrupts, switch_back,
  scheduler_from_interrupt,
}
use xivix.Scheduler.Invariant.{
  state_at, IsIdle, IsRunning, IsScheduler, unstarted, in_core, in_task, set-other, set-here,
  set-idle, stop, run-slot, wake_tasks-IsIdle, wake_tasks-IsRunning, finish-IsScheduler,
}

-- Who runs is known, and it is not a task.
abbrev InCore : Scheduler → Type 0
InCore s = (s.active_task ≡ none) ⊎ (s.active_task ≡ some core)

-- What can happen: a round of the loop of `run`, a task that registers an interrupt or waits, an
-- interrupt, and a new task.
pub data Step : Scheduler → Scheduler → Type 0 where
  round : {s : Scheduler} → InCore s → Step s (visit s)
  register :
      {s : Scheduler} (inum : ℕ)
      → s.active_task ≡ some (slot s.i)
      → Step s (wake_on_interrupt s.i inum s)
  wait : {s : Scheduler} → s.active_task ≡ some (slot s.i) → Step s (wait_for_interrupts s.i s)
  interrupt : {s : Scheduler} (inum : ℕ) → Step s (scheduler_from_interrupt inum s)
  create :
      {s : Scheduler} (entry param eflags stack_base : ℕ)
      → Step s (start entry param eflags stack_base s)

pub data Steps : Scheduler → Scheduler → Type 0 where
  stay : {s : Scheduler} → Steps s s
  and_then : {s t u : Scheduler} → Steps s t → Step t u → Steps s u

who : Option Place → ℕ
who none = 0
who (some core) = 1
who (some (slot j)) = 2

core-IsIdle : {s : Scheduler} → InCore s → IsScheduler s → IsIdle s
unfolding who
core-IsIdle h (unstarted e v) = v
core-IsIdle h (in_core e v) = v
core-IsIdle {s} (inl h) (in_task e v) = absurd (omega (arith, ap who (sym h ∙ e)))
core-IsIdle {s} (inr h) (in_task e v) = absurd (omega (arith, ap who (sym h ∙ e)))

active-IsRunning : {s : Scheduler} → s.active_task ≡ some (slot s.i) → IsScheduler s → IsRunning s
unfolding who
active-IsRunning h (in_task e v) = v
active-IsRunning h (unstarted e v) = absurd (omega (arith, ap who (sym h ∙ e)))
active-IsRunning h (in_core e v) = absurd (omega (arith, ap who (sym h ∙ e)))

back : {s : Scheduler} → InCore s → IsIdle s → IsScheduler s
back (inl h) v = unstarted h v
back (inr h) v = in_core h v

moved :
    {s : Scheduler} (a : Option Place) (n k : ℕ)
    → IsIdle s
    → IsIdle (record s { active_task = a; i = n; tasks_run = k })
moved a n k v = record { slots = v.slots; waiting = v.waiting }

ran :
    {s : Scheduler} (a : Option Place) (k : ℕ)
    → IsRunning s
    → IsRunning (record s { active_task = a; tasks_run = k })
ran a k v = record { slots = v.slots; inside = v.inside; runs = v.runs; alone = v.alone }

not_past : {n : ℕ} → leb 32 n ≡ false → n < 32
not_past h = ground arith

round-IsScheduler : {s : Scheduler} → InCore s → IsIdle s → IsScheduler (visit s)
unfolding visit
round-IsScheduler {s} h v = elim (Bool-cases (leb 32 s.i)) [
  | inl end ↦ rw end (back h (moved s.active_task 0 0 v))
  | inr inside ↦ elim (Bool-cases (code (slot_at s s.i).state == 2)) [
    | inl ready ↦
        rw (inside, ready)
          (in_task refl (
            ran (some (slot s.i)) (s.tasks_run + 1) (
              run-slot v (not_past inside) (record (slot_at s s.i) { state = task_running }) refl)))
    | inr other ↦ rw (inside, other) (back h (moved s.active_task (s.i + 1) s.tasks_run v))
  ]
]

register-IsScheduler :
    {s : Scheduler} (inum : ℕ)
    → s.active_task ≡ some (slot s.i)
    → IsRunning s
    → IsScheduler (wake_on_interrupt s.i inum s)
unfolding wake_on_interrupt register_slot
register-IsScheduler {s} inum h v = in_task h (record {
  slots = length-set s.tasks s.i _ ∙ v.slots;
  inside = v.inside;
  runs = set-here s s.i _ (omega (arith, v.slots, v.inside)) ∙ v.runs;
  alone = λ j ne q. v.alone j ne (sym (set-other s s.i _ j (λ e. ne (sym e))) ∙ q);
})

wait-IsScheduler :
    {s : Scheduler}
    → s.active_task ≡ some (slot s.i)
    → IsRunning s
    → IsScheduler (wait_for_interrupts s.i s)
unfolding wait_for_interrupts finish
wait-IsScheduler {s} h v =
    let t : TaskSlot = record (slot_at s s.i) { state = task_wait_int } in
    let here : get_or (set s.tasks s.i t) s.i no_slot ≡ t =
      get_or-set_self s.tasks s.i t no_slot (omega (arith, v.slots, v.inside)) in
    rw here (
      in_core refl
        (moved (some core) (s.i + 1) s.tasks_run (stop v t (λ q. absurd (omega (arith, q))))))

find_empty_lem :
    (n j : ℕ) (tasks : List TaskSlot)
    → (find_empty n j tasks ≡ none)
      ⊎ ((k : ℕ) × (find_empty n j tasks ≡ some k)
          × (k < j + n)
          × (code (get_or tasks k no_slot).state ≡ 0))
unfolding find_empty
find_empty_lem zero j tasks = inl refl
find_empty_lem (suc n) j tasks = elim (Bool-cases (code (get_or tasks j no_slot).state == 0)) [
  | inl free ↦ inr (j, rw free refl, omega arith, ground arith)
  | inr busy ↦ elim (find_empty_lem n (suc j) tasks) [
    | inl none_free ↦ inl (rw busy none_free)
    | inr (k, found, below, free) ↦ inr (k, rw busy found, omega arith, free)
  ]
]

place-IsScheduler :
    {s : Scheduler} (k : ℕ) (t : TaskBlock)
    → k < 32
    → state_at s k ≡ 0
    → IsScheduler s
    → IsScheduler (set_slot k (record { task = t; state = task_run }) s)
place-IsScheduler k t h e (unstarted a v) =
    unstarted a (set-idle v k _ h (λ q. absurd (omega (arith, q))))
place-IsScheduler k t h e (in_core a v) =
    in_core a (set-idle v k _ h (λ q. absurd (omega (arith, q))))
place-IsScheduler {s} k t h e (in_task a v) =
    let ne : k ≢ s.i = λ q. absurd (omega (arith, v.runs, ap (state_at s) q, e)) in
    in_task a (record {
      slots = length-set s.tasks k _ ∙ v.slots;
      inside = v.inside;
      runs = set-other s k _ s.i ne ∙ v.runs;
      alone = λ j other. elim (Bool-cases (k == j)) [
        | inl here ↦
            let q : k ≡ j = ground arith in
            rw (← q) (λ p. absurd (
              omega (
                arith,
                p,
                set-here s k (record { task = t; state = task_run }) (omega (arith, v.slots)),
              )))
        | inr elsewhere ↦
            λ p. v.alone j other (sym (set-other s k _ j (λ q. absurd (ground arith))) ∙ p)
      ];
    })

start-IsScheduler :
    {s : Scheduler} (entry param eflags stack_base : ℕ)
    → IsScheduler s
    → IsScheduler (start entry param eflags stack_base s)
unfolding start start_in
start-IsScheduler {s} entry param eflags stack_base v = elim (find_empty_lem 32 0 s.tasks) [
  | inl full ↦ rw full v
  | inr (k, found, below, free) ↦ rw found (place-IsScheduler k _ (omega arith) free v)
]

switch_back-IsScheduler :
    {s : Scheduler}
    → s.active_task ≡ some (slot s.i)
    → IsRunning s
    → IsScheduler (switch_back (some (slot s.i)) s)
unfolding switch_back
switch_back-IsScheduler {s} h v = finish-IsScheduler (ran (some core) s.tasks_run v) refl

core-IsScheduler :
    {s : Scheduler} (inum : ℕ)
    → s.active_task ≡ some core
    → IsIdle s
    → IsScheduler (handle_interrupt inum (some core) s)
unfolding handle_interrupt switch_back wake_tasks
core-IsScheduler {s} inum e v =
    let woken : IsScheduler (wake_tasks (int_mask inum) (int_offset inum) s) =
      in_core e (wake_tasks-IsIdle (int_mask inum) (int_offset inum) v) in
    elim (Bool-cases (inum == 0x28)) [ inl timer ↦ rw timer woken | inr other ↦ rw other woken ]

slot-IsScheduler :
    {s : Scheduler} (inum : ℕ)
    → s.active_task ≡ some (slot s.i)
    → IsRunning s
    → IsScheduler (handle_interrupt inum (some (slot s.i)) s)
unfolding handle_interrupt wake_tasks
slot-IsScheduler {s} inum e v =
    let awake : IsRunning (wake_tasks (int_mask inum) (int_offset inum) s) =
      wake_tasks-IsRunning (int_mask inum) (int_offset inum) v in
    elim (Bool-cases (inum == 0x28)) [
      | inl timer ↦ rw timer (switch_back-IsScheduler e awake)
      | inr other ↦ rw other (in_task e awake)
    ]

interrupt-IsScheduler :
    {s : Scheduler} (inum : ℕ) → IsScheduler s → IsScheduler (scheduler_from_interrupt inum s)
unfolding scheduler_from_interrupt handle_interrupt
interrupt-IsScheduler {s} inum (unstarted e v) =
    subst (λ a. IsScheduler (handle_interrupt inum a s)) (sym e) (unstarted e v)
interrupt-IsScheduler {s} inum (in_core e v) =
    subst (λ a. IsScheduler (handle_interrupt inum a s)) (sym e) (core-IsScheduler inum e v)
interrupt-IsScheduler {s} inum (in_task e v) =
    subst (λ a. IsScheduler (handle_interrupt inum a s)) (sym e) (slot-IsScheduler inum e v)

pub step-IsScheduler : {s t : Scheduler} → Step s t → IsScheduler s → IsScheduler t
step-IsScheduler (round h) v = round-IsScheduler h (core-IsIdle h v)
step-IsScheduler (register inum h) v = register-IsScheduler inum h (active-IsRunning h v)
step-IsScheduler (wait h) v = wait-IsScheduler h (active-IsRunning h v)
step-IsScheduler (interrupt inum) v = interrupt-IsScheduler inum v
step-IsScheduler (create entry param eflags stack_base) v =
    start-IsScheduler entry param eflags stack_base v

-- From a state in which no task runs but the active one, as after `init`, every sequence of steps
-- leads to such a state: the active task is that of the slot at which the loop of `run` stands, and
-- while the core task is active none runs.
pub Steps-IsScheduler : {s t : Scheduler} → Steps s t → IsScheduler s → IsScheduler t
Steps-IsScheduler stay v = v
Steps-IsScheduler (and_then before step) v = step-IsScheduler step (Steps-IsScheduler before v)
