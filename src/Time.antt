-- ===== src/Time.antt =====
-- source/kernel/time.c, and the interrupt wrappers of source/kernel/time.s that call it and switch
-- tasks. Acknowledging the interrupt and the log on the serial line are left out.
pub mod Kept
pub mod Steps
pub mod Wake
pub mod Start
use kernel_on_qemu.Prelude.{ℕ, ◌+◌, ◌-◌, ◌%◌, ◌^◌, true, ◌&&◌, ltb, ◌==◌, if◌then◌else◌}
use kernel_on_qemu.Tasks.{Sched, update, set_blocking}
use kernel_on_qemu.Delta.{insert_sleeper, tick_sleepers}
use kernel_on_qemu.Scheduler.{scheduler}

abbrev pub time_slice_in_ticks : ℕ
time_slice_in_ticks = 2

-- `interrupt_function_PIT`
unfoldable pub interrupt_function_pit : Sched → Sched
interrupt_function_pit s = record s {
  pit_count_down = if ltb 0 s.pit_count_down then s.pit_count_down - 1 else s.pit_count_down;
  scheduler_time = if ltb 0 s.scheduler_time then s.scheduler_time - 1 else s.scheduler_time;
  total_ticks = (s.total_ticks + 1) % 2 ^ 32;
  delta_queue = tick_sleepers s.delta_queue;
}

unfoldable pub reset_scheduler_time : Sched → Sched
reset_scheduler_time s = record s { scheduler_time = time_slice_in_ticks }

pub get_total_ticks : Sched → ℕ
get_total_ticks s = s.total_ticks

-- The switch at the end of both wrappers: `esp` is the stack pointer of the task that stops.
unfoldable pub switch_task : ℕ → Sched → Sched
switch_task esp s = record s {
  tasks = update s.tasks s.current (record (s.tasks s.current) { esp = esp });
  current = s.next;
}

-- `interrupt_wrapper_PIT`
unfoldable pub interrupt_wrapper_pit : ℕ → Sched → Sched
unfolding interrupt_function_pit switch_task reset_scheduler_time
interrupt_wrapper_pit esp s =
    let s' = interrupt_function_pit s in
    if s'.scheduler_time == 0 && s'.running
    then switch_task esp (reset_scheduler_time (scheduler s'))
    else s'

-- `interrupt_wrapper_software_blocking`
unfoldable pub interrupt_wrapper_software_blocking : ℕ → Sched → Sched
unfolding switch_task
interrupt_wrapper_software_blocking esp s = switch_task esp (scheduler s)

-- What `sleep` does to the queues before it raises interrupt 0x80.
unfoldable pub block_current : ℕ → Sched → Sched
block_current ticks_to_sleep s = record s {
  tasks = set_blocking true s.current s.tasks;
  delta_queue = insert_sleeper s.current ticks_to_sleep s.delta_queue;
}

unfoldable pub sleep : (esp ticks_to_sleep : ℕ) → Sched → Sched
unfolding block_current interrupt_wrapper_software_blocking
sleep esp ticks_to_sleep s =
    interrupt_wrapper_software_blocking esp (block_current ticks_to_sleep s)
