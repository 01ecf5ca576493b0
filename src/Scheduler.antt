-- ===== src/Scheduler.antt =====
-- kernel/scheduler.cpp and kernel/scheduler.hpp: tasks and interrupts.
pub mod Invariant
pub mod Reach
pub mod Wake
mod Tests
use xivix.Base.{
  ℕ, zero, suc, ◌+◌, ◌-◌, ◌*◌, ◌/◌, ◌%◌, ◌^◌, bit_or, Bool, true, false, if◌then◌else◌, ◌==◌, has,
  not, ◌&&◌, List, [], ◌∷◌, Option, none, some, ltb, leb, get_or, set, replicate, map,
}
use xivix.Base.Word.{u32}

-- `TaskState`
pub data TaskState : Type 0 where
  task_empty : TaskState
  task_new : TaskState
  task_run : TaskState
  task_running : TaskState
  task_wait_int : TaskState

-- The number of a state.
abbrev pub code : TaskState → ℕ
code task_empty = 0
code task_new = 1
code task_run = 2
code task_running = 3
code task_wait_int = 4

-- `TaskBlock`: the registers that are set here, the words pushed on its stack, the last one first, and
-- the interrupts that wake it, 32 of them in a word.
pub record TaskBlock : Type 0 where
  pub r_eip : ℕ
  pub r_eflags : ℕ
  pub r_cs : ℕ
  pub r_esp : ℕ
  pub pushed : List ℕ
  pub wait_ints : List ℕ

-- `TaskSlot`
pub record TaskSlot : Type 0 where
  pub task : TaskBlock
  pub state : TaskState

-- `active_task`: the core task or a slot.
pub data Place : Type 0 where
  core : Place
  slot : ℕ → Place

-- `Scheduler`, with the index `i` of the loop of `run` and its counter.
pub record Scheduler : Type 0 where
  pub tasks : List TaskSlot
  pub active_task : Option Place
  pub i : ℕ
  pub tasks_run : ℕ

abbrev pub task_limit : ℕ
task_limit = 32

abbrev pub no_task : TaskBlock
no_task = record {
  r_eip = 0;
  r_eflags = 0;
  r_cs = 0;
  r_esp = 0;
  pushed = [];
  wait_ints = replicate 4 0;
}

abbrev pub no_slot : TaskSlot
no_slot = record { task = no_task; state = task_empty }

abbrev pub slot_at : Scheduler → ℕ → TaskSlot
slot_at s j = get_or s.tasks j no_slot

abbrev pub set_slot : ℕ → TaskSlot → Scheduler → Scheduler
set_slot j t s = record s { tasks = set s.tasks j t }

-- `TaskBlock::init`, with the stack that `vmm_request` gives.
unfoldable pub init_task : ℕ → TaskBlock
init_task stack_base = record no_task { r_esp = u32 (stack_base + 0x10000) }

-- `TaskBlock::start`
unfoldable pub start_task : ℕ → ℕ → ℕ → TaskBlock → TaskBlock
start_task entry param eflags t = record t {
  r_eip = entry;
  r_eflags = eflags;
  r_cs = 0x10;
  r_esp = u32 (t.r_esp + 0xffff_fff8);
  pushed = 0 ∷ param ∷ t.pushed;
}

-- `Scheduler::init`
unfoldable pub init : Scheduler
init = record { tasks = replicate task_limit no_slot; active_task = none; i = 0; tasks_run = 0 }

-- The loop of `get_free` over the next `n` slots: the index of the first empty one.
unfoldable pub find_empty : ℕ → ℕ → List TaskSlot → Option ℕ
find_empty zero j tasks = none
find_empty (suc n) j tasks =
    let rest = find_empty n (suc j) tasks in
    if code (get_or tasks j no_slot).state == 0 then some j else rest

-- `Scheduler::start` in the slot of `get_free`, with the stack that the new task gets.
unfoldable pub start_in : ℕ → ℕ → ℕ → ℕ → Option ℕ → Scheduler → Scheduler
start_in entry param eflags stack_base none s = s
start_in entry param eflags stack_base (some j) s =
    set_slot j
      (record { task = start_task entry param eflags (init_task stack_base); state = task_run }) s

unfoldable pub start : ℕ → ℕ → ℕ → ℕ → Scheduler → Scheduler
start entry param eflags stack_base s =
    start_in entry param eflags stack_base (find_empty task_limit 0 s.tasks) s

-- One slot in `wake_tasks`.
unfoldable pub wake_slot : ℕ → ℕ → TaskSlot → TaskSlot
wake_slot int_mask offset t =
    if code t.state == 4 && has (get_or t.task.wait_ints offset 0) int_mask
    then record t { state = task_run }
    else t

-- `Scheduler::wake_tasks`
unfoldable pub wake_tasks : ℕ → ℕ → Scheduler → Scheduler
wake_tasks int_mask offset s = record s { tasks = map (wake_slot int_mask offset) s.tasks }

-- The word of `wait_ints` and the mask in `wake_on_interrupt`. The shift is that of the machine, by the last five
-- bits.
unfoldable pub wait_offset : ℕ → ℕ
wait_offset inum =
    if leb 0x60 inum then 3 else (if leb 0x40 inum then 2 else (if leb 0x20 inum then 1 else 0))

unfoldable pub wait_mask : ℕ → ℕ
wait_mask inum =
    if leb 0x60 inum
    then 2 ^ ((inum - 0x60) % 32)
    else (if leb 0x40 inum
        then 2 ^ ((inum - 0x40) % 32)
        else (if leb 0x20 inum then 2 ^ ((inum - 0x20) % 32) else 2 ^ (inum % 32)))

-- `wake_on_interrupt` in the task of a slot.
unfoldable pub register_slot : ℕ → TaskSlot → TaskSlot
register_slot inum t =
    let ints = t.task.wait_ints in
    let o = wait_offset inum in
    record t {
      task = record t.task { wait_ints = set ints o (bit_or (get_or ints o 0) (wait_mask inum)) };
    }

unfoldable pub wake_on_interrupt : ℕ → ℕ → Scheduler → Scheduler
wake_on_interrupt j inum s = set_slot j (register_slot inum (slot_at s j)) s

-- A round of the loop of `run`, up to the switch to the task. At the end of the list the loop starts
-- again, in this call of `run` or in the next.
unfoldable pub visit : Scheduler → Scheduler
visit s =
    let t = slot_at s s.i in
    if leb task_limit s.i
    then record s { i = 0; tasks_run = 0 }
    else (if code t.state == 2
        then record (set_slot s.i (record t { state = task_running }) s) {
          tasks_run = s.tasks_run + 1;
          active_task = some (slot s.i);
        }
        else record s { i = s.i + 1 })

-- The rest of the round, after the switch back from the task.
unfoldable pub finish : Scheduler → Scheduler
finish s =
    let t = slot_at s s.i in
    let s1 : Scheduler =
      if code t.state == 3 then set_slot s.i (record t { state = task_run }) s else s in
    record s1 { i = s1.i + 1 }

-- `wait_for_interrupts` in the task of the slot `j`, which switches to the core task.
unfoldable pub wait_for_interrupts : ℕ → Scheduler → Scheduler
unfolding finish
wait_for_interrupts j s =
    finish (record (set_slot j (record (slot_at s j) { state = task_wait_int }) s) {
      active_task = some core;
    })

-- The end of `scheduler_from_interrupt`: the timer interrupt switches from a task to the core task.
unfoldable pub switch_back : Option Place → Scheduler → Scheduler
unfolding finish
switch_back (some (slot j)) s = finish (record s { active_task = some core })
switch_back (some core) s = s
switch_back none s = s

-- The word and the mask for `wake_tasks` in `scheduler_from_interrupt`.
unfoldable pub int_offset : ℕ → ℕ
int_offset inum =
    if leb 0x60 inum then 3 else (if leb 0x40 inum then 2 else (if leb 0x20 inum then 1 else 0))

unfoldable pub int_mask : ℕ → ℕ
int_mask inum =
    if leb 0x60 inum
    then 2 ^ ((inum - 0x60) % 32)
    else (if leb 0x40 inum
        then 2 ^ ((inum - 0x40) % 32)
        else (if leb 0x20 inum then 2 ^ ((inum - 0x20) % 32) else 2 ^ (inum % 32)))

unfoldable pub handle_interrupt : ℕ → Option Place → Scheduler → Scheduler
unfolding switch_back
handle_interrupt inum none s = s
handle_interrupt inum (some place) s =
    let s1 = wake_tasks (int_mask inum) (int_offset inum) s in
    if inum == 0x28 then switch_back (some place) s1 else s1

-- `scheduler_from_interrupt`
unfoldable pub scheduler_from_interrupt : ℕ → Scheduler → Scheduler
unfolding handle_interrupt
scheduler_from_interrupt inum s = handle_interrupt inum s.active_task s
