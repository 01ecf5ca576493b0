-- ===== src/Scheduler/Tests.antt =====
-- kernel/scheduler.cpp: tests, and examples of the theorems.
use xivix.Base.{ℕ, zero, suc, ◌≡◌, refl, arith, inl, some, [], ◌∷◌, get_or, replicate, ap}
use xivix.Scheduler.{
  core, slot_at, task_wait_int, task_run, Scheduler, init, start, start_in, find_empty, visit,
  scheduler_from_interrupt, register_slot, no_slot, code,
}
use xivix.Scheduler.Invariant.{IsScheduler, unstarted, state_at}
use xivix.Scheduler.Reach.{Steps, stay, and_then, round, create, interrupt, Steps-IsScheduler}
use xivix.Scheduler.Wake.{register_all, interrupt_wakes}

get_or-no_slot : (n j : ℕ) → get_or (replicate n no_slot) j no_slot ≡ no_slot
get_or-no_slot zero j = refl
get_or-no_slot (suc n) zero = refl
get_or-no_slot (suc n) (suc j) = get_or-no_slot n j

init-IsScheduler : IsScheduler init
unfolding init
init-IsScheduler = unstarted refl (record {
  slots = refl;
  waiting = λ j q. absurd (omega (arith, q, ap (λ t. code t.state) (get_or-no_slot 32 j)));
})

-- A task is started, the loop switches to it, and the timer interrupt switches back.
abbrev started : Scheduler
started = start 1 2 3 4096 init

started-Steps : Steps init (scheduler_from_interrupt 0x28 (visit started))
unfolding start start_in find_empty init
started-Steps =
    and_then (and_then (and_then stay (create 1 2 3 4096)) (round (inl refl))) (interrupt 0x28)

Steps-IsScheduler_example : IsScheduler (scheduler_from_interrupt 0x28 (visit started))
Steps-IsScheduler_example = Steps-IsScheduler started-Steps init-IsScheduler

code-visit : state_at (visit started) 0 ≡ 3
unfolding visit start start_in find_empty init
code-visit = refl

-- The core task is active, and the task of slot 0 waits for two interrupts.
abbrev one_waits : Scheduler
one_waits = record started {
  tasks =
      record (register_all (0x30 ∷ []) (register_slot 0x2c no_slot)) { state = task_wait_int }
      ∷ replicate 31 no_slot;
  active_task = some core;
}

interrupt_wakes_example :
    slot_at (scheduler_from_interrupt 0x2c one_waits) 0
    ≡ record (register_all (0x30 ∷ []) (register_slot 0x2c no_slot)) { state = task_run }
interrupt_wakes_example =
    interrupt_wakes 0x2c (0x30 ∷ []) no_slot 0 core one_waits refl (omega arith) refl refl
