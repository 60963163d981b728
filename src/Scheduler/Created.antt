-- ===== src/Scheduler/Created.antt =====
-- Tasks of source/kernel/scheduler.c that are being created: `task_create` has them in the list of
-- processes, and has not yet pushed them to the task queue.
use kernel_on_qemu.Prelude.{
  ℕ, ◌≡◌, ◌≢◌, Bool, false, List, [], ◌∷◌, Option, arith, ◌==◌, Bool-cases, inl, inr,
}
use kernel_on_qemu.Tasks.{Sleeper, Sched, set_queued}
use kernel_on_qemu.Scheduler.{
  push_task_queue, select_loop, select, wake, wake_loop, scheduler, is_empty, list_task,
}
use kernel_on_qemu.Scheduler.Members.{has, sleeps, has-append, is_nodup-append}
use kernel_on_qemu.Scheduler.Invariant.{IsValidFor}

-- A task between `list_add` and its push: it is on no queue, is not blocked, and is neither the task
-- that runs nor one that is to run.
pub record IsCreated (t : ℕ) (s : Sched) : Type 0 where
  pub unqueued : has t s.task_queue ≡ false
  pub awake : sleeps t s.delta_queue ≡ false
  pub unblocked : (s.tasks t).is_blocking ≡ false
  pub not_current : t ≢ s.current
  pub not_next : t ≢ s.next
  pub not_idle : t ≢ s.idle

-- At an address that no task has, a task is listed; the others stay as they are.
pub list_task-IsValid :
    {settled : ℕ → Bool} (address stack_bottom eip : ℕ) (param : Option ℕ) (s : Sched)
    → IsValidFor settled s
    → IsCreated address (list_task address stack_bottom eip param s)
    → settled address ≡ false
    → IsValidFor settled (list_task address stack_bottom eip param s)
unfolding list_task
list_task-IsValid {settled} address stack_bottom eip param s v c new = record {
  nodup = v.nodup;
  flags = λ u. ground (arith, v.flags u, c.unqueued);
  ready = λ u. ground (arith, v.ready u);
  asleep = λ u. ground (arith, v.asleep u);
}

-- The push settles the task.
pub push-settles :
    (settled after : ℕ → Bool) (t : ℕ) (s : Sched)
    → IsValidFor settled s
    → IsCreated t s
    → ((u : ℕ) → u ≢ t → after u ≡ settled u)
    → IsValidFor after (push_task_queue t s)
unfolding push_task_queue
push-settles settled after t s v c same = record {
  nodup = is_nodup-append t s.task_queue v.nodup c.unqueued;
  flags = λ u. ground (arith, v.flags u, has-append u t s.task_queue);
  ready = λ u. ground (arith, v.ready u, has-append u t s.task_queue, same u);
  asleep = λ u. ground (arith, v.asleep u, same u, c.unblocked);
}

-- Other tasks stay so when a task is pushed.
pub push-IsCreated :
    (t u : ℕ) (s : Sched) → IsCreated t s → t ≢ u → IsCreated t (push_task_queue u s)
unfolding push_task_queue
push-IsCreated t u s c ne = record {
  unqueued = ground (arith, c.unqueued, has-append t u s.task_queue);
  awake = c.awake;
  unblocked = ground (arith, c.unblocked);
  not_current = c.not_current;
  not_next = c.not_next;
  not_idle = c.not_idle;
}

-- The head of the queue leaves it, and may be chosen.
pop-IsCreated :
    (t u : ℕ) (q : List ℕ) (s : Sched)
    → IsCreated t s
    → has t q ≡ false
    → IsCreated t (record s { task_queue = q; tasks = set_queued false u s.tasks })
pop-IsCreated t u q s c out = record {
  unqueued = out;
  awake = c.awake;
  unblocked = ground (arith, c.unblocked);
  not_current = c.not_current;
  not_next = c.not_next;
  not_idle = c.not_idle;
}

next-IsCreated : (t u : ℕ) (s : Sched) → IsCreated t s → t ≢ u → IsCreated t (record s { next = u })
next-IsCreated t u s c ne = record {
  unqueued = c.unqueued;
  awake = c.awake;
  unblocked = c.unblocked;
  not_current = c.not_current;
  not_next = ne;
  not_idle = c.not_idle;
}

select_loop-IsCreated :
    (t : ℕ) (q : List ℕ) (s : Sched)
    → IsCreated t s
    → has t q ≡ false
    → IsCreated t (select_loop q s)
unfolding select_loop has
select_loop-IsCreated t [] s c out = c
select_loop-IsCreated t (u ∷ q) s c out =
    let popped = pop-IsCreated t u q s c (ground (arith, out)) in
    let ne : t ≢ u = ground (arith, out) in
    elim (Bool-cases (s.tasks u).is_blocking) [
      | inl blocked ↦
          rw (blocked, select_loop) (select_loop-IsCreated t q _ popped (ground (arith, out)))
      | inr free ↦ rw (free, select_loop) (push-IsCreated t u _ (next-IsCreated t u _ popped ne) ne)
    ]

select-IsCreated : (t : ℕ) (s : Sched) → IsCreated t s → IsCreated t (select s)
unfolding select
select-IsCreated t s c =
    let c' = select_loop-IsCreated t s.task_queue s c c.unqueued in
    elim (Bool-cases (is_empty (select_loop s.task_queue s).task_queue)) [
      | inl e ↦ rw e (next-IsCreated t _ _ c' c'.not_idle)
      | inr e ↦ rw e c'
    ]

-- A sleeper wakes up, and its entry goes.
wake-IsCreated :
    (t : ℕ) (d : Sleeper) (q : List Sleeper) (s : Sched)
    → IsCreated t s
    → t ≢ d.task
    → sleeps t q ≡ false
    → IsCreated t (record (wake d.task s) { delta_queue = q })
unfolding wake push_task_queue
wake-IsCreated t d q s c ne out = record {
  unqueued = ground (arith, c.unqueued, has-append t d.task s.task_queue);
  awake = out;
  unblocked = ground (arith, c.unblocked);
  not_current = ground (arith, c.not_current);
  not_next = ground (arith, c.not_next);
  not_idle = ground (arith, c.not_idle);
}

wake_loop-IsCreated :
    (t : ℕ) (q : List Sleeper) (s : Sched)
    → IsCreated t s
    → sleeps t q ≡ false
    → IsCreated t (wake_loop q s)
unfolding wake_loop sleeps
wake_loop-IsCreated t [] s c out = c
wake_loop-IsCreated t (d ∷ q) s c out = elim (Bool-cases (d.ticks_to_wakeup == 0)) [
  | inl due ↦
      rw (due, wake_loop)
        (wake_loop-IsCreated t q _
          (wake-IsCreated t d q s c (ground (arith, out)) (ground (arith, out)))
          (ground (arith, out)))
  | inr later ↦ rw (later, wake_loop) c
]

-- The scheduler neither queues nor chooses a task that is being created.
pub scheduler-IsCreated : (t : ℕ) (s : Sched) → IsCreated t s → IsCreated t (scheduler s)
unfolding scheduler
scheduler-IsCreated t s c =
    let c' = select-IsCreated t s c in wake_loop-IsCreated t _ (select s) c' c'.awake
