-- ===== src/Reports/Tasks.antt =====
-- The reports of source/kernel/scheduler.c: the task structures on the screen, the queues on the
-- serial line. `names` is the string that each task has, as an object.
use kernel_on_qemu.Prelude.{ℕ, Option, some, ◌>>=◌, List, [], ◌∷◌}
use kernel_on_qemu.Bytes.{Bytes}
use kernel_on_qemu.Tasks.{TaskState, Sleeper, Sched}
use kernel_on_qemu.Output.Screen.{Screen, print_dword, print_literal, print_newline}
use kernel_on_qemu.Output.Serial.{
  Line, serial_write_string, serial_write_literal, serial_write_newline,
}
use kernel_on_qemu.Reports.Lists.{print_all}

-- The pointer to the first of the structures, or NULL.
abbrev pub head_or_null : List ℕ → ℕ
head_or_null [] = 0
head_or_null (t ∷ l) = t

-- The structures in the order of their list.
unfoldable pub print_task_state_list : (ℕ → TaskState) → List ℕ → Screen → Screen
print_task_state_list tasks [] s = s
print_task_state_list tasks (t ∷ l) s = print_task_state_list tasks l (
    print_all
      (print_literal "Task state this: "
        ∷ print_dword t
        ∷ print_newline
        ∷ print_literal "Task state esp: "
        ∷ print_dword (tasks t).esp
        ∷ print_newline
        ∷ print_literal "Task state next: "
        ∷ print_dword (head_or_null l)
        ∷ print_newline
        ∷ [])
      s)

module _ (status : ℕ → ℕ) (names : ℕ → Bytes) (fuel : ℕ) where
  unfoldable pub print_queue_tasks : List ℕ → Line → Option Line
  print_queue_tasks [] l = some l
  print_queue_tasks (t ∷ q) l =
      serial_write_literal status fuel
        "[TASK_QUEUE_PRINT_ELEMENT] Task queue element. Process string: " l
      >>= serial_write_string status fuel (names t) 0
      >>= serial_write_newline status fuel
      >>= print_queue_tasks q

  unfoldable pub serial_print_task_queue : Sched → Line → Option Line
  serial_print_task_queue s l =
      serial_write_literal status fuel "[TASK_QUEUE_PRINT]" l
      >>= serial_write_newline status fuel
      >>= print_queue_tasks s.task_queue

  unfoldable pub print_delta_tasks : List Sleeper → Line → Option Line
  print_delta_tasks [] l = some l
  print_delta_tasks (e ∷ q) l =
      serial_write_literal status fuel
        "[DELTA_QUEUE_PRINT_ELEMENT] Delta queue element. Process string: " l
      >>= serial_write_string status fuel (names e.task) 0
      >>= serial_write_newline status fuel
      >>= print_delta_tasks q

  unfoldable pub serial_print_delta_queue : Sched → Line → Option Line
  serial_print_delta_queue s l =
      serial_write_literal status fuel "[DELTA_QUEUE_PRINT]" l
      >>= serial_write_newline status fuel
      >>= print_delta_tasks s.delta_queue
