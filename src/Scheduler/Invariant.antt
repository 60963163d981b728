-- ===== src/Scheduler/Invariant.antt =====
-- The invariant of the state of source/kernel/scheduler.c.
use kernel_on_qemu.Prelude.{
  ℕ, ◌≡◌, Bool, refl, sym, ap, ◌∙◌, true, false, List, [], ◌∷◌, arith, ◌==◌, Bool-cases, inl, inr,
}
use mathlib.Core.Path.{subst}
use kernel_on_qemu.Tasks.{Sleeper, Sched, set_queued}
use kernel_on_qemu.Scheduler.{
  push_task_queue, select_loop, select, wake, wake_loop, scheduler, is_empty,
}
use kernel_on_qemu.Scheduler.Members.{has, is_nodup, sleeps, has-append, is_nodup-append}

-- No task is queued twice; the flag of a task tells whether it is queued; a settled task that is not
-- blocked is queued; one that is blocked sleeps. So no such task is ever lost.
pub record IsValidFor (settled : ℕ → Bool) (s : Sched) : Type 0 where
  pub nodup : is_nodup s.task_queue ≡ true
  pub flags : (t : ℕ) → (s.tasks t).on_task_queue ≡ has t s.task_queue
  pub ready :
      (t : ℕ) → settled t ≡ true → (s.tasks t).is_blocking ≡ false → has t s.task_queue ≡ true
  pub asleep :
      (t : ℕ) → settled t ≡ true → (s.tasks t).is_blocking ≡ true → sleeps t s.delta_queue ≡ true

-- All tasks of the system are settled.
abbrev pub IsValid : Sched → Type 0
IsValid s = IsValidFor (λ t. has t s.processes) s

push_task_queue-IsValid :
    {settled : ℕ → Bool}
    → (t : ℕ) (s : Sched) → IsValidFor settled s
    → has t s.task_queue ≡ false
    → IsValidFor settled (push_task_queue t s)
unfolding push_task_queue
push_task_queue-IsValid t s v out = record {
  nodup = is_nodup-append t s.task_queue v.nodup out;
  flags = λ u. ground (arith, v.flags u, has-append u t s.task_queue);
  ready = λ u. ground (arith, v.ready u, has-append u t s.task_queue);
  asleep = λ u. ground (arith, v.asleep u);
}

-- A task that leaves the queue because it is blocked still sleeps.
drop_blocked-IsValid :
    {settled : ℕ → Bool}
    → (t : ℕ) (q : List ℕ) (s : Sched) → IsValidFor settled s
    → s.task_queue ≡ t ∷ q
    → (s.tasks t).is_blocking ≡ true
    → IsValidFor settled (record s { task_queue = q; tasks = set_queued false t s.tasks })
unfolding has is_nodup
drop_blocked-IsValid t q s v e blocked =
    let twice = subst (λ l. is_nodup l ≡ true) e v.nodup in
    let member = λ (u : ℕ). ap (has u) e in
    record {
      nodup = ground arith;
      flags = λ u. ground (arith, v.flags u, member u);
      ready = λ u. ground (arith, v.ready u, member u);
      asleep = λ u. ground (arith, v.asleep u);
    }

-- The task that is chosen goes from the front of the queue to its back.
rotate-IsValid :
    {settled : ℕ → Bool}
    → (t : ℕ) (q : List ℕ) (s : Sched) → IsValidFor settled s
    → s.task_queue ≡ t ∷ q
    → IsValidFor settled (
        push_task_queue t
          (record s { task_queue = q; tasks = set_queued false t s.tasks; next = t }))
unfolding has is_nodup push_task_queue
rotate-IsValid t q s v e =
    let twice = subst (λ l. is_nodup l ≡ true) e v.nodup in
    let member = λ (u : ℕ). ap (has u) e in
    record {
      nodup = is_nodup-append t q (ground arith) (ground arith);
      flags = λ u. ground (arith, v.flags u, member u, has-append u t q);
      ready = λ u. ground (arith, v.ready u, member u, has-append u t q);
      asleep = λ u. ground (arith, v.asleep u);
    }

select_loop-IsValid :
    {settled : ℕ → Bool}
    → (q : List ℕ) (s : Sched) → IsValidFor settled s
    → s.task_queue ≡ q
    → IsValidFor settled (select_loop q s)
unfolding select_loop
select_loop-IsValid [] s v e = v
select_loop-IsValid (t ∷ q) s v e = elim (Bool-cases (s.tasks t).is_blocking) [
  | inl blocked ↦
      rw (blocked, select_loop)
        (select_loop-IsValid q _ (drop_blocked-IsValid t q s v e blocked) refl)
  | inr free ↦ rw (free, select_loop) (rotate-IsValid t q s v e)
]

select-IsValid :
    {settled : ℕ → Bool} → (s : Sched) → IsValidFor settled s → IsValidFor settled (select s)
unfolding select
select-IsValid s v =
    let v' = select_loop-IsValid s.task_queue s v refl in
    elim (Bool-cases (is_empty (select_loop s.task_queue s).task_queue)) [
      | inl e ↦
          rw e (record { nodup = v'.nodup; flags = v'.flags; ready = v'.ready; asleep = v'.asleep })
      | inr e ↦ rw e v'
    ]

-- Waking the first sleeper and dropping its entry.
wake-IsValid :
    {settled : ℕ → Bool}
    → (d : Sleeper) (q : List Sleeper) (s : Sched) → IsValidFor settled s
    → s.delta_queue ≡ d ∷ q
    → IsValidFor settled (record (wake d.task s) { delta_queue = q })
unfolding wake sleeps push_task_queue
wake-IsValid d q s v e = elim (Bool-cases (s.tasks d.task).on_task_queue) [
  | inl on ↦ rw on (record {
    nodup = v.nodup;
    flags = λ u. ground (arith, v.flags u);
    ready = λ u. ground (arith, v.ready u, v.flags d.task);
    asleep = λ u. ground (arith, v.asleep u, ap (sleeps u) e);
  })
  | inr off ↦ rw off (record {
    nodup = is_nodup-append d.task s.task_queue v.nodup (sym (v.flags d.task) ∙ off);
    flags = λ u. ground (arith, v.flags u, has-append u d.task s.task_queue);
    ready = λ u. ground (arith, v.ready u, has-append u d.task s.task_queue);
    asleep = λ u. ground (arith, v.asleep u, ap (sleeps u) e);
  })
]

wake_loop-IsValid :
    {settled : ℕ → Bool}
    → (q : List Sleeper) (s : Sched) → IsValidFor settled s
    → s.delta_queue ≡ q
    → IsValidFor settled (wake_loop q s)
unfolding wake_loop
wake_loop-IsValid [] s v e = v
wake_loop-IsValid (d ∷ q) s v e = elim (Bool-cases (d.ticks_to_wakeup == 0)) [
  | inl due ↦ rw (due, wake_loop) (wake_loop-IsValid q _ (wake-IsValid d q s v e) refl)
  | inr later ↦ rw (later, wake_loop) v
]

-- The scheduler keeps the invariant: no task is lost and none is queued twice.
pub scheduler-IsValid :
    {settled : ℕ → Bool} → (s : Sched) → IsValidFor settled s → IsValidFor settled (scheduler s)
unfolding scheduler
scheduler-IsValid s v = wake_loop-IsValid _ (select s) (select-IsValid s v) refl
