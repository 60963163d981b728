-- ===== src/Tests/Kernel.antt =====
-- The start of source/kernel/kernel.c and its client of a web server at concrete inputs.
use kernel_on_qemu.Prelude.{◌≡◌, refl, true, false, [], arith}
use kernel_on_qemu.Interrupt.{pic1_data, pic2_data}
use kernel_on_qemu.Interrupt.Gates.{handler}
use kernel_on_qemu.Memory.{BuddyNode}
use kernel_on_qemu.Scheduler.Invariant.{IsValid}
use kernel_on_qemu.Kernel.Start.{Addresses, Kernel, kernel_start}
use kernel_on_qemu.Kernel.Started.{kernel_start_lem}
use kernel_on_qemu.Tests.Tasks.{blank, cpu}

abbrev no_node : BuddyNode
no_node = record {
  type = 0;
  status = 0;
  sidedness = 0;
  padding = 0;
  address = 0;
  list_next = 0;
  list_prev = 0;
  leaf_left = 0;
  leaf_right = 0;
}

abbrev addresses : Addresses
addresses = record {
  spurious = 0x10000;
  wrapper_pit = 0x20000;
  wrapper_blocking = 0x30000;
  wrapper_keyboard = 0x40000;
  main = 0x200000;
  idle = 0x204000;
  stack_bottom = 0x205000;
  idle_task = 0x50000;
  page_queue = [];
}

abbrev machine : Kernel
machine = record {
  screen = record { cells = λ x. 0; console_index = 0; console_row = 0 };
  heap = record { heap_start = 0; heap_body = 0; count = 0; store = λ p. no_node; lists = λ i. 0 };
  cpu = cpu;
  sched = blank;
  port_writes = [];
  timer_writes = [];
}

-- The serial port does not answer the loopback test.
abbrev muted : Kernel
muted = kernel_start addresses [] (λ p. no_node) 0 machine

kernel_start_lem_example :
    ((handler muted.cpu 0x20 ≡ 0x20000)
      × (handler muted.cpu 0x21 ≡ 0x40000)
      × (handler muted.cpu 0x27 ≡ 0x10000)
      × (handler muted.cpu 0x80 ≡ 0x30000))
    × ((muted.cpu.masks pic1_data ≡ 0xF8) × (muted.cpu.masks pic2_data ≡ 0xFF))
    × ((muted.sched.running ≡ true) × IsValid muted.sched)
    × ((muted.cpu.disable_counter ≡ 1) × (muted.cpu.interrupt_flag ≡ false))
kernel_start_lem_example =
    kernel_start_lem addresses [] (λ p. no_node) 0 machine
      (record {
        spurious = omega arith;
        pit = omega arith;
        blocking = omega arith;
        keyboard = omega arith;
      })
      refl (omega arith) refl (λ t. refl)
