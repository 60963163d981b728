-- ===== src/Scheduler.antt =====
-- source/kernel/scheduler.c: the task queue, the choice of the next task, and the creation of tasks.
pub mod Members
pub mod Invariant
pub mod Created
pub mod Choice
use kernel_on_qemu.Prelude.{
  ℕ, ◌+◌, ◌-◌, ◌*◌, Bool, true, false, List, [], ◌∷◌, ◌++◌, Option, none, some, ◌==◌, if◌then◌else◌,
}
use kernel_on_qemu.Tasks.{TaskState, Sleeper, Sched, update, set_blocking, set_queued}

-- `pop_task_queue`: nothing for an empty queue; the last entry empties it.
unfoldable pub pop_from : List ℕ → Sched → Option ℕ × Sched
pop_from [] s = (none, s)
pop_from (t ∷ []) s = (some t, record s { task_queue = []; tasks = set_queued false t s.tasks })
pop_from (t ∷ u ∷ q) s =
    (some t, record s { task_queue = u ∷ q; tasks = set_queued false t s.tasks })

unfoldable pub pop_task_queue : Sched → Option ℕ × Sched
unfolding pop_from
pop_task_queue s = pop_from s.task_queue s

unfoldable pub push_task_queue : ℕ → Sched → Sched
push_task_queue t s = record s {
  task_queue = s.task_queue ++ (t ∷ []);
  tasks = set_queued true t s.tasks;
}

-- The loop of `scheduler` that selects the next task. The list is the task queue of the state:
-- each round pops its first entry.
unfoldable pub select_loop : List ℕ → Sched → Sched
unfolding push_task_queue
select_loop [] s = s
select_loop (t ∷ q) s =
    let popped : Sched = record s { task_queue = q; tasks = set_queued false t s.tasks } in
    elim (s.tasks t).is_blocking [
      | true ↦ select_loop q popped
      | false ↦ push_task_queue t (record popped { next = t })
    ]

-- The round of the loop that clears the delta queue, for the entry of the task `t`.
unfoldable pub wake : ℕ → Sched → Sched
unfolding push_task_queue
wake t s =
    let awake : Sched = record s { tasks = set_blocking false t s.tasks } in
    if (s.tasks t).on_task_queue then awake else push_task_queue t awake

-- The loop that clears the delta queue. The list is the delta queue of the state.
unfoldable pub wake_loop : List Sleeper → Sched → Sched
unfolding wake
wake_loop [] s = s
wake_loop (d ∷ q) s = elim (d.ticks_to_wakeup == 0) [
  | true ↦ wake_loop q (record (wake d.task s) { delta_queue = q })
  | false ↦ s
]

abbrev pub is_empty : List ℕ → Bool
is_empty [] = true
is_empty (t ∷ q) = false

unfoldable pub select : Sched → Sched
unfolding select_loop
select s =
    let s' = select_loop s.task_queue s in
    if is_empty s'.task_queue then record s' { next = s'.idle } else s'

unfoldable pub scheduler : Sched → Sched
unfolding select wake_loop
scheduler s = let s' = select s in wake_loop s'.delta_queue s'

-- What `task_create` and `task_create_param` leave at the top of the new stack; `parameter` is the
-- word below the stack's end, which `task_create` does not write.
pub record ProcessFrame : Type 0 where
  pub eflags : ℕ
  pub cs : ℕ
  pub eip : ℕ
  pub ebp1 : ℕ
  pub at : ℕ
  pub parameter : Option ℕ

-- The size of PROCESS_FRAME, and the offset of `ebp0` in it.
abbrev pub frame_size : ℕ
frame_size = 44

unfoldable pub process_frame : (stack_bottom eip : ℕ) → Option ℕ → ProcessFrame
process_frame stack_bottom eip none =
    let at = stack_bottom + 0x10 * 0x1000 - frame_size in
    record { eflags = 0x202; cs = 8; eip = eip; ebp1 = at + 28; at = at; parameter = none }
process_frame stack_bottom eip (some p) =
    let at = stack_bottom + 0x10 * 0x1000 - frame_size - 8 in
    record { eflags = 0x202; cs = 8; eip = eip; ebp1 = at + 28; at = at; parameter = some p }

-- `task_create` and `task_create_param` up to `list_add`: `address` is where kalloc put the TASK_STATE,
-- `stack_bottom` the 16 pages of the stack. Interrupts are on between this and the push that follows.
unfoldable pub list_task : (address stack_bottom eip : ℕ) → Option ℕ → Sched → Sched
unfolding process_frame
list_task address stack_bottom eip param s =
    let state : TaskState = record {
      esp = (process_frame stack_bottom eip param).at;
      is_blocking = false;
      on_task_queue = false;
    } in
    record s { tasks = update s.tasks address state; processes = address ∷ s.processes }

-- The whole of both, where no interrupt comes between.
unfoldable pub task_create : (address stack_bottom eip : ℕ) → Option ℕ → Sched → Sched
unfolding list_task push_task_queue
task_create address stack_bottom eip param s =
    push_task_queue address (list_task address stack_bottom eip param s)

-- `register_idle_task`: the idle task is on no queue and no list.
unfoldable pub register_idle_task : (address stack_bottom eip : ℕ) → Sched → Sched
unfolding process_frame
register_idle_task address stack_bottom eip s =
    let state : TaskState = record {
      esp = (process_frame stack_bottom eip none).at;
      is_blocking = false;
      on_task_queue = false;
    } in
    record s { tasks = update s.tasks address state; idle = address }

-- `scheduler_init`: the running code becomes the task `main`. Its `esp` is not written. `page_queue` is
-- the queue that the page from kalloc happens to hold, whose first and last entry are not written.
unfoldable pub scheduler_init :
    (main idle stack_bottom idle_task : ℕ) → (page_queue : List ℕ) → Sched → Sched
unfolding push_task_queue register_idle_task
scheduler_init main idle stack_bottom idle_task page_queue s =
    let state : TaskState = record (s.tasks main) { is_blocking = false; on_task_queue = false } in
    register_idle_task idle stack_bottom idle_task (
      push_task_queue main (record s {
        tasks = update s.tasks main state;
        processes = main ∷ [];
        current = main;
        task_queue = page_queue;
      }))

unfoldable pub scheduler_start : Sched → Sched
scheduler_start s = record s { running = true }
