-- ===== src/Time/Wake.antt =====
-- The sleepers whose time has come, and the scheduler of source/kernel/scheduler.c.
use kernel_on_qemu.Prelude.{ℕ, ◌-◌, ◌≡◌, refl, true, false, List, [], ◌∷◌, arith}
use kernel_on_qemu.Tasks.{Sleeper, Sched, set_queued}
use kernel_on_qemu.Delta.Wakeups.{wakeups}
use kernel_on_qemu.Delta.Due.{within, not_within_later}
use kernel_on_qemu.Scheduler.{scheduler, wake, wake_loop, select_loop, select, push_task_queue}
use kernel_on_qemu.Scheduler.Members.{has}
use kernel_on_qemu.Scheduler.Invariant.{IsValid, scheduler-IsValid}

wake_loop_awake :
    (t : ℕ) (q : List Sleeper) (s : Sched)
    → (s.tasks t).is_blocking ≡ false
    → ((wake_loop q s).tasks t).is_blocking ≡ false
unfolding wake_loop wake push_task_queue
wake_loop_awake t [] s h = h
wake_loop_awake t (d ∷ q) s h =
    ground (arith, wake_loop_awake t q (record (wake d.task s) { delta_queue = q }))

wake_loop_due :
    (t : ℕ) (q : List Sleeper) (s : Sched)
    → within t 0 (wakeups 0 q) ≡ true
    → ((wake_loop q s).tasks t).is_blocking ≡ false
unfolding wake_loop wake push_task_queue within wakeups
wake_loop_due t [] s h = cc
wake_loop_due t (d ∷ q) s h = ground (
  arith,
  wake_loop_awake t q (record (wake d.task s) { delta_queue = q }),
  wake_loop_due t q (record (wake d.task s) { delta_queue = q }),
  not_within_later t (d.ticks_to_wakeup - 1) q,
)

select_loop_same :
    (q : List ℕ) (s : Sched)
    → ((select_loop q s).delta_queue ≡ s.delta_queue) × ((select_loop q s).processes ≡ s.processes)
unfolding select_loop push_task_queue
select_loop_same [] s = (refl, refl)
select_loop_same (t ∷ q) s =
    ground
      (arith, select_loop_same q (record s { task_queue = q; tasks = set_queued false t s.tasks }))

delta_queue-select : (s : Sched) → (select s).delta_queue ≡ s.delta_queue
unfolding select
delta_queue-select s = ground (arith, select_loop_same s.task_queue s)

processes-wake_loop : (q : List Sleeper) (s : Sched) → (wake_loop q s).processes ≡ s.processes
unfolding wake_loop wake push_task_queue
processes-wake_loop [] s = refl
processes-wake_loop (d ∷ q) s =
    ground (arith, processes-wake_loop q (record (wake d.task s) { delta_queue = q }))

pub processes-scheduler : (s : Sched) → (scheduler s).processes ≡ s.processes
unfolding scheduler select
processes-scheduler s =
    ground (
      arith,
      select_loop_same s.task_queue s,
      processes-wake_loop (select s).delta_queue (select s),
    )

-- In a state that keeps the invariant, a task of the system whose time to wake up has come is, after the scheduler has run, neither
-- blocked nor missing from the task queue.
pub scheduler_wakes :
    (t : ℕ) (s : Sched)
    → IsValid s
    → has t s.processes ≡ true
    → within t 0 (wakeups 0 s.delta_queue) ≡ true
    → (((scheduler s).tasks t).is_blocking ≡ false) × (has t (scheduler s).task_queue ≡ true)
unfolding scheduler
scheduler_wakes t s v member due =
    let free : ((scheduler s).tasks t).is_blocking ≡ false =
      wake_loop_due t (select s).delta_queue (select s) (rw delta_queue-select due) in
    (free, (scheduler-IsValid s v).ready t member free)
