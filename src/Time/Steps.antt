-- ===== src/Time/Steps.antt =====
-- source/kernel/scheduler.c and source/kernel/time.c as a whole: the timer, tasks that go to sleep,
-- and tasks that are created, in any order.
use kernel_on_qemu.Prelude.{
  ==_iff, Bool, true, not, ◌⊎◌, fun_ext, if◌then◌else◌, ℕ, ◌≡◌, ◌≢◌, refl, false, List, [], ◌∷◌,
  Option, arith, ◌==◌, Bool-cases, inl, inr, ◌&&◌,
}
use mathlib.Core.Bool.{false≢true}
use mathlib.Core.Path.{subst, sym}
use kernel_on_qemu.Tasks.{Sched}
use kernel_on_qemu.Scheduler.{list_task, push_task_queue, scheduler_init}
use kernel_on_qemu.Scheduler.Members.{has, sleeps, is_nodup}
use kernel_on_qemu.Scheduler.Invariant.{IsValid, IsValidFor}
use kernel_on_qemu.Scheduler.Created.{IsCreated, list_task-IsValid, push-settles, push-IsCreated}
use kernel_on_qemu.Time.{interrupt_wrapper_pit, block_current, interrupt_wrapper_software_blocking}
use kernel_on_qemu.Time.Kept.{
  interrupt_wrapper_pit-IsValid, block_current-IsValid, software_blocking-IsValid,
  interrupt_wrapper_pit-IsCreated, block_current-IsCreated, software_blocking-IsCreated,
  processes-interrupt_wrapper_pit, processes-software_blocking,
}

-- The tasks of the system that are not being created.
abbrev pub settled : (creating processes : List ℕ) → ℕ → Bool
settled creating processes t = has t processes && not (has t creating)

-- The invariant, while the tasks of the list are being created.
abbrev pub IsSound : (creating : List ℕ) → Sched → Type 0
IsSound creating s =
    IsValidFor (settled creating s.processes) s × ((t : ℕ) → has t creating ≡ true → IsCreated t s)

unfoldable pub without : ℕ → List ℕ → List ℕ
without t [] = []
without t (u ∷ l) = if u == t then without t l else u ∷ without t l

has-without : (t u : ℕ) (l : List ℕ) → has u (without t l) ≡ (has u l && not (u == t))
unfolding has without
has-without t u [] = refl
has-without t u (v ∷ l) = ground (arith, has-without t u l)

-- No task has the address: it is a page that kalloc returns.
abbrev pub IsFresh : ℕ → Sched → Type 0
IsFresh t s =
    (has t s.processes ≡ false)
    × (has t s.task_queue ≡ false)
    × (sleeps t s.delta_queue ≡ false)
    × (t ≢ s.current)
    × (t ≢ s.next)
    × (t ≢ s.idle)

-- What happens to the scheduler's state: the timer interrupt, the two halves of `sleep`, between
-- which interrupts are on, and the two halves of `task_create`, between which they are on too. The
-- list is of the tasks between these two halves.
pub data Step : List ℕ → Sched → List ℕ → Sched → Type 0 where
  timer : (l : List ℕ) (s : Sched) (esp : ℕ) → Step l s l (interrupt_wrapper_pit esp s)
  blocking : (l : List ℕ) (s : Sched) (ticks : ℕ) → Step l s l (block_current ticks s)
  raising :
      (l : List ℕ) (s : Sched) (esp : ℕ) → Step l s l (interrupt_wrapper_software_blocking esp s)
  listed :
      (l : List ℕ) (s : Sched) (address stack_bottom eip : ℕ) (param : Option ℕ)
      → IsFresh address s
      → Step l s (address ∷ l) (list_task address stack_bottom eip param s)
  pushed :
      (l : List ℕ) (s : Sched) (t : ℕ)
      → has t l ≡ true
      → Step l s (without t l) (push_task_queue t s)

pub data Reach (l : List ℕ) (s : Sched) : List ℕ → Sched → Type 0 where
  here : Reach l s l s
  next : {l1 l2 : List ℕ} {t u : Sched} → Reach l s l1 t → Step l1 t l2 u → Reach l s l2 u

list_task-IsCreated :
    (t address stack_bottom eip : ℕ) (param : Option ℕ) (s : Sched)
    → IsCreated t s ⊎ (t ≡ address)
    → IsFresh address s
    → IsCreated t (list_task address stack_bottom eip param s)
unfolding list_task
list_task-IsCreated t address stack_bottom eip param s (inl c)
      (new, queue, delta, current, later, idle) =
    record {
      unqueued = c.unqueued;
      awake = c.awake;
      unblocked = ground (arith, c.unblocked);
      not_current = c.not_current;
      not_next = c.not_next;
      not_idle = c.not_idle;
    }
list_task-IsCreated t address stack_bottom eip param s (inr e)
      (new, queue, delta, current, later, idle) =
    subst (λ t. IsCreated t (list_task address stack_bottom eip param s)) (sym e)
      (record {
        unqueued = queue;
        awake = delta;
        unblocked = ground arith;
        not_current = current;
        not_next = later;
        not_idle = idle;
      })

-- A task that is listed is not settled, and the others are as settled as before.
settled_listed :
    (l : List ℕ) (s : Sched) (address : ℕ)
    → has address s.processes ≡ false
    → settled l s.processes ≡ settled (address ∷ l) (address ∷ s.processes)
unfolding has
settled_listed l s address new = fun_ext (λ u. ground (arith, new))

listed_before :
    (l : List ℕ) (s : Sched) (address u : ℕ)
    → ((t : ℕ) → has t l ≡ true → IsCreated t s)
    → has u (address ∷ l) ≡ true
    → IsCreated u s ⊎ (u ≡ address)
unfolding has
listed_before l s address u c h = elim (Bool-cases (u == address)) [
  | inl same ↦ inr ((==_iff u address).0 same)
  | inr other ↦ inl (c u (ground (arith, other)))
]

Step-IsSound : {l l' : List ℕ} {s t : Sched} → Step l s l' t → IsSound l s → IsSound l' t
unfolding has list_task push_task_queue block_current
Step-IsSound (timer l s esp) (v, c) = (
  subst (λ p. IsValidFor (settled l p) (interrupt_wrapper_pit esp s))
      (sym (processes-interrupt_wrapper_pit esp s)) (interrupt_wrapper_pit-IsValid esp s v),
  λ t h. interrupt_wrapper_pit-IsCreated t esp s (c t h),
)
Step-IsSound (blocking l s ticks) (v, c) =
    (block_current-IsValid ticks s v, λ t h. block_current-IsCreated t ticks s (c t h))
Step-IsSound (raising l s esp) (v, c) = (
  subst (λ p. IsValidFor (settled l p) (interrupt_wrapper_software_blocking esp s))
      (sym (processes-software_blocking esp s)) (software_blocking-IsValid esp s v),
  λ t h. software_blocking-IsCreated t esp s (c t h),
)
Step-IsSound (listed l s address stack_bottom eip param new) (v, c) =
    let at : (u : ℕ)
        → IsCreated u s ⊎ (u ≡ address)
        → IsCreated u (list_task address stack_bottom eip param s) =
      λ u o. list_task-IsCreated u address stack_bottom eip param s o new in
    (
      subst (λ f. IsValidFor f (list_task address stack_bottom eip param s))
          (settled_listed l s address new.0)
          (list_task-IsValid address stack_bottom eip param s v (at address (inr refl))
            (ground (arith, new.0))),
      λ u h. at u (listed_before l s address u c h),
    )
Step-IsSound (pushed l s t member) (v, c) = (
  push-settles (settled l s.processes) (settled (without t l) s.processes) t s v (c t member)
      (λ u ne. ground (arith, has-without t u l)),
  λ u h.
      push-IsCreated u t s (c u (ground (arith, has-without t u l)))
        (ground (arith, has-without t u l)),
)

-- Whatever the timer and the tasks do, in any order, from a state that keeps the invariant, it is
-- kept: no task is queued twice, the flag of every task tells whether it is queued, a task of the
-- system that is not blocked is queued, and one that is blocked sleeps. A task that is being created
-- is excepted between the two halves of `task_create`, and is then on no queue and does not run.
pub Reach-IsValid :
    {l : List ℕ} {s : Sched} {l' : List ℕ} {t : Sched} → Reach l s l' t → IsSound l s → IsSound l' t
Reach-IsValid here v = v
Reach-IsValid (next r st) v = Step-IsSound st (Reach-IsValid r v)

-- Where no task is being created, the invariant is that of all tasks of the system.
pub IsSound-start : (s : Sched) → IsValid s → IsSound [] s
unfolding has
IsSound-start s v =
    (subst (λ f. IsValidFor f s) (fun_ext (λ u. ground arith)) v, λ t h. absurd (false≢true h))

-- In the state of `scheduler_init`, where the page of the queue holds zeros and no other task structure is marked as queued, the
-- invariant holds.
pub scheduler_init-IsValid :
    (main idle stack_bottom idle_task : ℕ) (page_queue : List ℕ) (s : Sched)
    → main ≢ idle
    → page_queue ≡ []
    → ((t : ℕ) → (s.tasks t).on_task_queue ≡ false)
    → IsValid (scheduler_init main idle stack_bottom idle_task page_queue s)
unfolding scheduler_init has is_nodup
scheduler_init-IsValid main idle stack_bottom idle_task page_queue s ne zeros clear =
    subst (λ q. IsValid (scheduler_init main idle stack_bottom idle_task q s)) (sym zeros)
      (record {
        nodup = refl;
        flags = λ u. ground (arith, clear u);
        ready = λ u. ground arith;
        asleep = λ u. ground arith;
      })
