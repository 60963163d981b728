-- ===== src/Scheduler/Choice.antt =====
-- Which task the scheduler of source/kernel/scheduler.c chooses.
use kernel_on_qemu.Prelude.{ℕ, ◌≡◌, refl, sym, true, false, List, [], ◌∷◌, ◌++◌, arith, All}
use mathlib.Core.Path.{subst}
use kernel_on_qemu.Tasks.{Sched, set_queued, TaskState}
use kernel_on_qemu.Scheduler.{select_loop, select, is_empty}

-- Every task of the list is blocked.
abbrev pub AllBlocked : (ℕ → TaskState) → List ℕ → Type 0
AllBlocked f = All (λ t. (f t).is_blocking ≡ true)

AllBlocked-set_queued :
    (f : ℕ → TaskState) (t : ℕ) (q : List ℕ) → AllBlocked f q → AllBlocked (set_queued false t f) q
AllBlocked-set_queued f t [] h = tt
AllBlocked-set_queued f t (u ∷ q) h = (ground arith, AllBlocked-set_queued f t q h.1)

pub record Chosen (t : ℕ) (rest : List ℕ) (s : Sched) : Type 0 where
  pub next : s.next ≡ t
  pub queue : s.task_queue ≡ rest ++ (t ∷ [])

select_loop-Chosen :
    (blocked : List ℕ) (t : ℕ) (rest : List ℕ) (s : Sched)
    → AllBlocked s.tasks blocked
    → (s.tasks t).is_blocking ≡ false
    → Chosen t rest (select_loop (blocked ++ (t ∷ rest)) s)
unfolding select_loop
select_loop-Chosen [] t rest s h free = rw free (record { next = refl; queue = refl })
select_loop-Chosen (b ∷ blocked) t rest s h free = rw h.0 (
    select_loop-Chosen blocked t rest _ (AllBlocked-set_queued s.tasks b blocked h.1)
      (ground arith))

not_empty-append : (q : List ℕ) (t : ℕ) → is_empty (q ++ (t ∷ [])) ≡ false
not_empty-append [] t = refl
not_empty-append (u ∷ q) t = refl

-- The scheduler chooses the first task of the queue that is not blocked and puts it at the back;
-- the blocked tasks before it leave the queue. So the tasks take turns.
pub select-Chosen :
    (s : Sched) (blocked : List ℕ) (t : ℕ) (rest : List ℕ)
    → s.task_queue ≡ blocked ++ (t ∷ rest)
    → AllBlocked s.tasks blocked
    → (s.tasks t).is_blocking ≡ false
    → Chosen t rest (select s)
unfolding select
select-Chosen s blocked t rest e h free =
    let c : Chosen t rest (select_loop s.task_queue s) =
      subst (λ q. Chosen t rest (select_loop q s)) (sym e)
        (select_loop-Chosen blocked t rest s h free) in
    rw (c.queue, not_empty-append rest t) c

select_loop_blocked :
    (q : List ℕ) (s : Sched)
    → AllBlocked s.tasks q
    → s.task_queue ≡ q
    → ((select_loop q s).task_queue ≡ []) × ((select_loop q s).idle ≡ s.idle)
unfolding select_loop
select_loop_blocked [] s h e = (e, refl)
select_loop_blocked (b ∷ q) s h e =
    rw (h.0, select_loop) (select_loop_blocked q _ (AllBlocked-set_queued s.tasks b q h.1) refl)

-- Where every task of the queue is blocked, or there is none, the idle task is chosen, and the queue
-- is left empty.
pub select_idle :
    (s : Sched)
    → AllBlocked s.tasks s.task_queue
    → ((select s).next ≡ s.idle) × ((select s).task_queue ≡ [])
unfolding select
select_idle s h =
    let (empty, same) = select_loop_blocked s.task_queue s h refl in rw empty (same, refl)
