-- ===== src/Tests/Output.antt =====
-- The output of source/kernel/print.c and serial.c at concrete inputs.
use kernel_on_qemu.Prelude.{
  ℕ, ◌+◌, ◌≡◌, refl, true, false, some, ◌==◌, if◌then◌else◌, List, [], ◌∷◌, ◌++◌, map, codes,
  length, arith,
}
use kernel_on_qemu.Bytes.{Bytes}
use kernel_on_qemu.Tasks.{TaskState, Sched}
use kernel_on_qemu.Output.Screen.{Screen, print_dword, hex_digit}
use kernel_on_qemu.Output.Serial.{Line, transmit_status, serial_write_dword}
use kernel_on_qemu.Output.Hex.{read_hex, hex_dword}
use kernel_on_qemu.Output.Shown.{Shows, print_dword_lem}
use kernel_on_qemu.Output.Sent.{IsReady, Sends, serial_write_dword_lem}
use kernel_on_qemu.Reports.Tasks.{serial_print_task_queue, serial_print_delta_queue}
use kernel_on_qemu.Reports.Shown.{
  title, task_lines, queue_head, delta_head, serial_print_queues_lem,
}

abbrev blank_screen : Screen
blank_screen = record { cells = λ x. 0x0F20; console_index = 0x50; console_row = 1 }

-- The digits of 0x1234ABCD.
hex_dword_digits : hex_dword 0x1234ABCD ≡ codes "1234ABCD"
unfolding hex_digit
hex_dword_digits = refl

print_dword_lem_example :
    (l : List ℕ) × (read_hex 0 l ≡ some 0x1234ABCD)
    × (length l ≡ 8)
    × Shows blank_screen l (print_dword 0x1234ABCD blank_screen)
print_dword_lem_example = print_dword_lem 0x1234ABCD blank_screen (omega arith) (omega arith)

-- The line is busy at the first read.
abbrev busy_once : ℕ → ℕ
busy_once t = if t == 0 then 0 else 0x60

abbrev line : Line
line = record { sent = b'>' ∷ []; reads = 0 }

busy_once-IsReady : IsReady busy_once 3
unfolding transmit_status
busy_once-IsReady t =
    let later : (t + 1 == 0) ≡ false = ground arith in (1, omega arith, rw later refl)

serial_write_dword_lem_example :
    (text : List ℕ) × (read_hex 0 text ≡ some 0xBEEF)
    × (length text ≡ 8)
    × Sends line text (serial_write_dword busy_once 3 0xBEEF line)
serial_write_dword_lem_example =
    serial_write_dword_lem busy_once 3 busy_once-IsReady 0xBEEF line (omega arith)

abbrev task : TaskState
task = record { esp = 0; is_blocking = false; on_task_queue = true }

-- Two tasks are queued, and one sleeps.
abbrev sched : Sched
sched = record {
  tasks = λ t. task;
  task_queue = 1 ∷ 2 ∷ [];
  delta_queue = record { task = 3; ticks_to_wakeup = 7 } ∷ [];
  processes = [];
  current = 1;
  next = 1;
  idle = 0;
  running = true;
  scheduler_time = 0;
  pit_count_down = 0;
  total_ticks = 0;
}

-- Every task is called "T".
abbrev name_object : Bytes
name_object x = if x == 0 then b'T' else 0

serial_print_queues_lem_example :
    Sends line
      (title (codes "[TASK_QUEUE_PRINT]")
        ++ task_lines queue_head (map (λ t. codes "T") sched.task_queue))
      (serial_print_task_queue busy_once (λ t. name_object) 3 sched line)
    × Sends line
        (title (codes "[DELTA_QUEUE_PRINT]")
          ++ task_lines delta_head (map (λ e. codes "T") sched.delta_queue))
        (serial_print_delta_queue busy_once (λ t. name_object) 3 sched line)
serial_print_queues_lem_example =
    serial_print_queues_lem busy_once (λ t. name_object) 3 (λ t. codes "T") busy_once-IsReady
      (λ t. ((refl, omega arith, refl), omega arith)) sched line
