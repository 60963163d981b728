-- ===== src/Tests/Tasks.antt =====
-- The tasks of source/kernel/scheduler.c and source/kernel/time.c, and the interrupts of
-- source/kernel/interrupt.c, at concrete states.
use kernel_on_qemu.Prelude.{◌≡◌, refl, true, false, ◌&&◌, ◌||◌, none, [], ◌∷◌, arith, leb, ◌==◌}
use kernel_on_qemu.Tasks.{TaskState, Sched}
use kernel_on_qemu.Delta.{insert_sleeper}
use kernel_on_qemu.Delta.Wakeups.{wakeups}
use kernel_on_qemu.Delta.Due.{within, tick_times, within-insert_sleeper}
use kernel_on_qemu.Scheduler.{scheduler, select, scheduler_init, list_task, push_task_queue}
use kernel_on_qemu.Scheduler.Members.{has, is_nodup, sleeps}
use kernel_on_qemu.Scheduler.Choice.{Chosen, select-Chosen}
use kernel_on_qemu.Scheduler.Invariant.{IsValid}
use kernel_on_qemu.Time.{interrupt_wrapper_pit, block_current, interrupt_wrapper_software_blocking}
use kernel_on_qemu.Time.Steps.{
  timer, blocking, raising, listed, pushed, here, next, Reach-IsValid, IsSound, IsSound-start,
  IsFresh, without, scheduler_init-IsValid,
}
use kernel_on_qemu.Time.Wake.{scheduler_wakes}
use kernel_on_qemu.Interrupt.{Cpu}
use kernel_on_qemu.Interrupt.Nesting.{stop, pair, run, run_restores}

abbrev pub idle_state : TaskState
idle_state = record { esp = 0; is_blocking = false; on_task_queue = false }

-- Before `scheduler_init`.
abbrev pub blank : Sched
blank = record {
  tasks = λ t. idle_state;
  task_queue = [];
  delta_queue = [];
  processes = [];
  current = 0;
  next = 0;
  idle = 0;
  running = false;
  scheduler_time = 0;
  pit_count_down = 0;
  total_ticks = 0;
}

-- Task 1 is Main, task 2 is idle.
abbrev boot : Sched
boot = scheduler_init 1 2 0x9000 0x100 [] blank

boot-IsValid : IsValid boot
boot-IsValid = scheduler_init-IsValid 1 2 0x9000 0x100 [] blank (omega arith) refl (λ t. refl)

-- Main lists task 3, a tick of the timer comes between, and main pushes the task and goes to sleep for
-- 5 ticks.
abbrev listed3 : Sched
listed3 = list_task 3 0xa000 0x200 none boot

abbrev ticked : Sched
ticked = interrupt_wrapper_pit 0x8000 listed3

abbrev created : Sched
created = push_task_queue 3 ticked

abbrev waiting : Sched
waiting = block_current 5 created

abbrev asleep : Sched
asleep = interrupt_wrapper_software_blocking 0x8000 waiting

fresh : IsFresh 3 boot
unfolding has sleeps scheduler_init
fresh = (refl, refl, refl, omega arith, omega arith, omega arith)

member : has 3 (3 ∷ []) ≡ true
unfolding has
member = refl

Reach-IsValid_example : IsSound (without 3 (3 ∷ [])) (interrupt_wrapper_pit 0x9f00 asleep)
Reach-IsValid_example =
    Reach-IsValid
      (next
        (next
          (next
            (next
              (next (next here (listed [] boot 3 0xa000 0x200 none fresh))
                (timer (3 ∷ []) listed3 0x8000))
              (pushed (3 ∷ []) ticked 3 member))
            (blocking (without 3 (3 ∷ [])) created 5))
          (raising (without 3 (3 ∷ [])) waiting 0x8000))
        (timer (without 3 (3 ∷ [])) asleep 0x9f00))
      (IsSound-start boot boot-IsValid)

-- Task 1 sleeps, and its time has come; task 4 sleeps for 3 ticks more.
abbrev due : Sched
due = record blank {
  tasks = λ t. record idle_state { is_blocking = t == 1 || t == 4 };
  delta_queue =
      record { task = 1; ticks_to_wakeup = 0 } ∷ record { task = 4; ticks_to_wakeup = 3 } ∷ [];
  processes = 1 ∷ 4 ∷ [];
  idle = 2;
  running = true;
}

due-IsValid : IsValid due
unfolding has is_nodup sleeps
due-IsValid = record {
  nodup = refl;
  flags = λ u. refl;
  ready = λ u. ground arith;
  asleep = λ u. ground arith;
}

due_member : has 1 due.processes ≡ true
unfolding has
due_member = refl

due_now : within 1 0 (wakeups 0 due.delta_queue) ≡ true
unfolding within wakeups
due_now = refl

scheduler_wakes_example :
    (((scheduler due).tasks 1).is_blocking ≡ false) × (has 1 (scheduler due).task_queue ≡ true)
scheduler_wakes_example = scheduler_wakes 1 due due-IsValid due_member due_now

within-insert_sleeper_example :
    within 7 0 (wakeups 0 (tick_times 4 (insert_sleeper 7 4 due.delta_queue)))
    ≡ ((7 == 7 && leb 4 4) || within 7 4 (wakeups 0 due.delta_queue))
within-insert_sleeper_example = within-insert_sleeper 4 7 7 4 due.delta_queue

-- Task 1 is blocked and first in the queue.
abbrev queued : Sched
queued = record due { task_queue = 1 ∷ 5 ∷ 6 ∷ [] }

select-Chosen_example : Chosen 5 (6 ∷ []) (select queued)
select-Chosen_example = select-Chosen queued (1 ∷ []) 5 (6 ∷ []) refl (refl, tt) refl

-- All lines masked, no gate, interrupts on.
abbrev pub cpu : Cpu
cpu = record {
  interrupt_flag = true;
  disable_counter = 0;
  idtr = (0, 0);
  command_writes = [];
  idt = λ n. record { offset_1 = 0; segment_selector = 0; reserved = 0; type = 0; offset_2 = 0 };
  masks = λ port. 0xff;
}

run_restores_example :
    ((run (pair (pair stop stop) stop) cpu).disable_counter ≡ 0)
    × ((run (pair (pair stop stop) stop) cpu).interrupt_flag ≡ true)
run_restores_example = run_restores (pair (pair stop stop) stop) cpu refl (omega arith)
