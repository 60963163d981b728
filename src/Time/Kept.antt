-- ===== src/Time/Kept.antt =====
-- What the operations of source/kernel/time.c keep of the invariant of the tasks.
use kernel_on_qemu.Prelude.{
  Bool, ℕ, ◌-◌, ◌≡◌, refl, ◌||◌, List, [], ◌∷◌, arith, ◌==◌, Bool-cases, inl, inr, ◌&&◌,
}
use kernel_on_qemu.Tasks.{Sleeper, Sched}
use kernel_on_qemu.Delta.{insert_sleeper, tick_sleepers}
use kernel_on_qemu.Scheduler.Members.{sleeps}
use kernel_on_qemu.Scheduler.Invariant.{IsValidFor, scheduler-IsValid}
use kernel_on_qemu.Scheduler.Created.{IsCreated, scheduler-IsCreated}
use kernel_on_qemu.Time.Wake.{processes-scheduler}
use kernel_on_qemu.Time.{
  interrupt_function_pit, reset_scheduler_time, switch_task, interrupt_wrapper_pit, block_current,
  interrupt_wrapper_software_blocking,
}

sleeps-insert_sleeper :
    (t u ticks : ℕ) (q : List Sleeper)
    → sleeps t (insert_sleeper u ticks q) ≡ (t == u || sleeps t q)
unfolding sleeps insert_sleeper
sleeps-insert_sleeper t u ticks [] = refl
sleeps-insert_sleeper t u ticks (d ∷ q) =
    ground (arith, sleeps-insert_sleeper t u (ticks - d.ticks_to_wakeup) q)

sleeps-tick_sleepers : (t : ℕ) (q : List Sleeper) → sleeps t (tick_sleepers q) ≡ sleeps t q
unfolding sleeps tick_sleepers
sleeps-tick_sleepers t [] = refl
sleeps-tick_sleepers t (d ∷ q) = ground (arith, sleeps-tick_sleepers t q)

interrupt_function_pit-IsValid :
    {settled : ℕ → Bool}
    → (s : Sched) → IsValidFor settled s
    → IsValidFor settled (interrupt_function_pit s)
unfolding interrupt_function_pit
interrupt_function_pit-IsValid s v = record {
  nodup = v.nodup;
  flags = v.flags;
  ready = v.ready;
  asleep = λ u. ground (arith, v.asleep u, sleeps-tick_sleepers u s.delta_queue);
}

switch_task-IsValid :
    {settled : ℕ → Bool}
    → (esp : ℕ) (s : Sched) → IsValidFor settled s
    → IsValidFor settled (switch_task esp s)
unfolding switch_task
switch_task-IsValid esp s v = record {
  nodup = v.nodup;
  flags = λ u. ground (arith, v.flags u);
  ready = λ u. ground (arith, v.ready u);
  asleep = λ u. ground (arith, v.asleep u);
}

pub block_current-IsValid :
    {settled : ℕ → Bool}
    → (ticks : ℕ) (s : Sched) → IsValidFor settled s
    → IsValidFor settled (block_current ticks s)
unfolding block_current
block_current-IsValid ticks s v = record {
  nodup = v.nodup;
  flags = λ u. ground (arith, v.flags u);
  ready = λ u. ground (arith, v.ready u);
  asleep = λ u. ground (arith, v.asleep u, sleeps-insert_sleeper u s.current ticks s.delta_queue);
}

reset_scheduler_time-IsValid :
    {settled : ℕ → Bool}
    → (s : Sched) → IsValidFor settled s
    → IsValidFor settled (reset_scheduler_time s)
unfolding reset_scheduler_time
reset_scheduler_time-IsValid s v = record {
  nodup = v.nodup;
  flags = v.flags;
  ready = v.ready;
  asleep = v.asleep;
}

pub interrupt_wrapper_pit-IsValid :
    {settled : ℕ → Bool}
    → (esp : ℕ) (s : Sched) → IsValidFor settled s
    → IsValidFor settled (interrupt_wrapper_pit esp s)
unfolding interrupt_wrapper_pit
interrupt_wrapper_pit-IsValid esp s v =
    let v' = interrupt_function_pit-IsValid s v in
    let s' = interrupt_function_pit s in
    elim (Bool-cases (s'.scheduler_time == 0 && s'.running)) [
      | inl over ↦
          rw over
            (switch_task-IsValid esp _ (reset_scheduler_time-IsValid _ (scheduler-IsValid s' v')))
      | inr more ↦ rw more v'
    ]

pub software_blocking-IsValid :
    {settled : ℕ → Bool}
    → (esp : ℕ) (s : Sched) → IsValidFor settled s
    → IsValidFor settled (interrupt_wrapper_software_blocking esp s)
unfolding interrupt_wrapper_software_blocking
software_blocking-IsValid esp s v = switch_task-IsValid esp _ (scheduler-IsValid s v)

-- The task is being created after the operation if it was before.
interrupt_function_pit-IsCreated :
    (t : ℕ) (s : Sched) → IsCreated t s → IsCreated t (interrupt_function_pit s)
unfolding interrupt_function_pit
interrupt_function_pit-IsCreated t s c = record {
  unqueued = c.unqueued;
  awake = ground (arith, c.awake, sleeps-tick_sleepers t s.delta_queue);
  unblocked = c.unblocked;
  not_current = c.not_current;
  not_next = c.not_next;
  not_idle = c.not_idle;
}

switch_task-IsCreated : (t esp : ℕ) (s : Sched) → IsCreated t s → IsCreated t (switch_task esp s)
unfolding switch_task
switch_task-IsCreated t esp s c = record {
  unqueued = c.unqueued;
  awake = c.awake;
  unblocked = ground (arith, c.unblocked);
  not_current = c.not_next;
  not_next = c.not_next;
  not_idle = c.not_idle;
}

reset_scheduler_time-IsCreated :
    (t : ℕ) (s : Sched) → IsCreated t s → IsCreated t (reset_scheduler_time s)
unfolding reset_scheduler_time
reset_scheduler_time-IsCreated t s c = record {
  unqueued = c.unqueued;
  awake = c.awake;
  unblocked = c.unblocked;
  not_current = c.not_current;
  not_next = c.not_next;
  not_idle = c.not_idle;
}

pub block_current-IsCreated :
    (t ticks : ℕ) (s : Sched) → IsCreated t s → IsCreated t (block_current ticks s)
unfolding block_current
block_current-IsCreated t ticks s c = record {
  unqueued = c.unqueued;
  awake =
      ground (arith, c.awake, c.not_current, sleeps-insert_sleeper t s.current ticks s.delta_queue);
  unblocked = ground (arith, c.unblocked, c.not_current);
  not_current = c.not_current;
  not_next = c.not_next;
  not_idle = c.not_idle;
}

pub interrupt_wrapper_pit-IsCreated :
    (t esp : ℕ) (s : Sched) → IsCreated t s → IsCreated t (interrupt_wrapper_pit esp s)
unfolding interrupt_wrapper_pit
interrupt_wrapper_pit-IsCreated t esp s c =
    let c' = interrupt_function_pit-IsCreated t s c in
    let s' = interrupt_function_pit s in
    elim (Bool-cases (s'.scheduler_time == 0 && s'.running)) [
      | inl over ↦ rw over (
          switch_task-IsCreated t esp _
            (reset_scheduler_time-IsCreated t _ (scheduler-IsCreated t s' c')))
      | inr more ↦ rw more c'
    ]

pub software_blocking-IsCreated :
    (t esp : ℕ) (s : Sched)
    → IsCreated t s
    → IsCreated t (interrupt_wrapper_software_blocking esp s)
unfolding interrupt_wrapper_software_blocking
software_blocking-IsCreated t esp s c = switch_task-IsCreated t esp _ (scheduler-IsCreated t s c)

-- The processes stay.
pub processes-interrupt_wrapper_pit :
    (esp : ℕ) (s : Sched) → (interrupt_wrapper_pit esp s).processes ≡ s.processes
unfolding interrupt_wrapper_pit interrupt_function_pit switch_task reset_scheduler_time
processes-interrupt_wrapper_pit esp s =
    let s' = interrupt_function_pit s in
    elim (Bool-cases (s'.scheduler_time == 0 && s'.running)) [
      | inl over ↦ rw over (processes-scheduler s')
      | inr more ↦ rw more refl
    ]

pub processes-software_blocking :
    (esp : ℕ) (s : Sched) → (interrupt_wrapper_software_blocking esp s).processes ≡ s.processes
unfolding interrupt_wrapper_software_blocking switch_task
processes-software_blocking esp s = processes-scheduler s
