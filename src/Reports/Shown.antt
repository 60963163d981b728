-- ===== src/Reports/Shown.antt =====
-- What the reports of source/kernel/scheduler.c send on the serial line.
use kernel_on_qemu.Prelude.{ℕ, ◌<◌, sym, Option, ◌>>=◌, List, [], ◌∷◌, ◌++◌, map, codes, length}
use mathlib.Core.List.{append-nil}
use kernel_on_qemu.Bytes.{Bytes}
use kernel_on_qemu.Tasks.{Sleeper, Sched}
use kernel_on_qemu.Output.Shown.{IsString}
use kernel_on_qemu.Output.Serial.{
  Line, serial_write_string, serial_write_literal, serial_write_text, serial_write_newline,
}
use kernel_on_qemu.Output.Sent.{
  IsReady, Sends, Sends-bind, serial_write_char_lem, serial_write_text_lem, serial_write_string_lem,
}
use kernel_on_qemu.Reports.Tasks.{
  print_queue_tasks, serial_print_task_queue, print_delta_tasks, serial_print_delta_queue,
}

-- The line of a task: a head, its name and a line feed.
abbrev pub task_line : (head name : List ℕ) → List ℕ
task_line head name = (head ++ name) ++ (0xA ∷ [])

abbrev pub task_lines : (head : List ℕ) → List (List ℕ) → List ℕ
task_lines head [] = []
task_lines head (name ∷ l) = task_line head name ++ task_lines head l

abbrev pub queue_head : List ℕ
queue_head = codes "[TASK_QUEUE_PRINT_ELEMENT] Task queue element. Process string: "

abbrev pub delta_head : List ℕ
delta_head = codes "[DELTA_QUEUE_PRINT_ELEMENT] Delta queue element. Process string: "

abbrev pub title : List ℕ → List ℕ
title text = text ++ (0xA ∷ [])

module _ (status : ℕ → ℕ) (names : ℕ → Bytes) (fuel : ℕ) (name : ℕ → List ℕ)
    (ready : IsReady status fuel)
    (strings : (t : ℕ) → IsString (names t) 0 (name t) × (length (name t) < fuel)) where
  line_lem :
      (head : List ℕ) (t : ℕ) (l : Line) (o : Option Line)
      → Sends l head o
      → Sends l
          (task_line head (name t))
          (o >>= serial_write_string status fuel (names t) 0 >>= serial_write_newline status fuel)
  unfolding serial_write_newline
  line_lem head t l o first =
      Sends-bind (head ++ name t) (0xA ∷ []) l _ _
        (Sends-bind head (name t) l o (serial_write_string status fuel (names t) 0) first (λ l'.
          serial_write_string_lem status fuel ready (names t) 0 (name t) l' (strings t).0
            (strings t).1))
        (serial_write_char_lem status fuel ready 0xA)

  print_queue_tasks_lem :
      (q : List ℕ) (l : Line)
      → Sends l (task_lines queue_head (map name q)) (print_queue_tasks status names fuel q l)
  unfolding print_queue_tasks serial_write_literal
  print_queue_tasks_lem [] l = sym (append-nil l.sent)
  print_queue_tasks_lem (t ∷ q) l =
      Sends-bind (task_line queue_head (name t)) (task_lines queue_head (map name q)) l _ _
        (line_lem queue_head t l _ (serial_write_text_lem status fuel ready queue_head l))
        (print_queue_tasks_lem q)

  print_delta_tasks_lem :
      (q : List Sleeper) (l : Line)
      → Sends l
          (task_lines delta_head (map (λ e. name e.task) q))
          (print_delta_tasks status names fuel q l)
  unfolding print_delta_tasks serial_write_literal
  print_delta_tasks_lem [] l = sym (append-nil l.sent)
  print_delta_tasks_lem (e ∷ q) l =
      Sends-bind (task_line delta_head (name e.task))
        (task_lines delta_head (map (λ d. name d.task) q)) l _ _
        (line_lem delta_head e.task l _ (serial_write_text_lem status fuel ready delta_head l))
        (print_delta_tasks_lem q)

  title_lem :
      (text : List ℕ) (l : Line)
      → Sends l
          (title text)
          (serial_write_text status fuel text l >>= serial_write_newline status fuel)
  unfolding serial_write_newline
  title_lem text l =
      Sends-bind text (0xA ∷ []) l _ _ (serial_write_text_lem status fuel ready text l)
        (serial_write_char_lem status fuel ready 0xA)

  -- The reports of both queues end, and send a title and then a line with the name of each task, in
  -- the order of the queue, where the line is ready within the fuel from every read on, and the name
  -- of each task is a string shorter than the fuel.
  pub serial_print_queues_lem :
      (s : Sched) (l : Line)
      → Sends l
          (title (codes "[TASK_QUEUE_PRINT]") ++ task_lines queue_head (map name s.task_queue))
          (serial_print_task_queue status names fuel s l)
        × Sends l
            (title (codes "[DELTA_QUEUE_PRINT]")
              ++ task_lines delta_head (map (λ e. name e.task) s.delta_queue))
            (serial_print_delta_queue status names fuel s l)
  unfolding serial_print_task_queue serial_print_delta_queue serial_write_literal
  serial_print_queues_lem s l = (
    Sends-bind (title (codes "[TASK_QUEUE_PRINT]")) _ l _
        (print_queue_tasks status names fuel s.task_queue)
        (title_lem (codes "[TASK_QUEUE_PRINT]") l) (print_queue_tasks_lem s.task_queue),
    Sends-bind (title (codes "[DELTA_QUEUE_PRINT]")) _ l _
        (print_delta_tasks status names fuel s.delta_queue)
        (title_lem (codes "[DELTA_QUEUE_PRINT]") l) (print_delta_tasks_lem s.delta_queue),
  )
