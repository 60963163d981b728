-- ===== src/Tasks.antt =====
-- The state that source/kernel/scheduler.c and source/kernel/time.c share: the TASK_STATE
-- structures by their address, the task queue, the delta queue and the counters.
-- A chain of entries that only its owner walks, and whose entries kalloc and kfree make and drop, is
-- a list, first entry first; a task is named by the address of its TASK_STATE.
use kernel_on_qemu.Prelude.{ℕ, Bool, List, ◌==◌, if◌then◌else◌}

-- TASK_STATE. The sockets are the networking component's, the other fields are only printed.
pub record TaskState : Type 0 where
  pub esp : ℕ
  pub is_blocking : Bool
  pub on_task_queue : Bool

-- DELTA_QUEUE_ELEMENT
pub record Sleeper : Type 0 where
  pub task : ℕ
  pub ticks_to_wakeup : ℕ

pub record Sched : Type 0 where
  pub tasks : ℕ → TaskState
  pub task_queue : List ℕ
  pub delta_queue : List Sleeper
  pub processes : List ℕ
  pub current : ℕ
  pub next : ℕ
  pub idle : ℕ
  pub running : Bool
  pub scheduler_time : ℕ
  pub pit_count_down : ℕ
  pub total_ticks : ℕ

-- A write through a TASK_STATE pointer.
abbrev pub update : (ℕ → TaskState) → ℕ → TaskState → ℕ → TaskState
update f p v q = if q == p then v else f q

abbrev pub set_blocking : Bool → ℕ → (ℕ → TaskState) → ℕ → TaskState
set_blocking b p f = update f p (record (f p) { is_blocking = b })

abbrev pub set_queued : Bool → ℕ → (ℕ → TaskState) → ℕ → TaskState
set_queued b p f = update f p (record (f p) { on_task_queue = b })
