-- ===== src/Kernel/Start.antt =====
-- The start of `kernel_main` of source/kernel/kernel.c, up to the first use of the PCI bus.
use kernel_on_qemu.Prelude.{ℕ, List}
use kernel_on_qemu.Interrupt.{Cpu, disable_interrupts, enable_interrupts, interrupt_init}
use kernel_on_qemu.Memory.{AddressRange, Store, BuddyHeap, memory_init}
use kernel_on_qemu.Tasks.{Sched}
use kernel_on_qemu.Scheduler.{scheduler_init, scheduler_start}
use kernel_on_qemu.Time.Start.{time_init}
use kernel_on_qemu.Output.Screen.{Screen, cls}
use kernel_on_qemu.Output.Devices.{serial_init, keyboard_init}

-- The addresses that the linker and `kalloc` give: the interrupt wrappers, the structures of the first
-- task and of the idle task, the stack of the idle task and its code.
pub record Addresses : Type 0 where
  pub spurious : ℕ
  pub wrapper_pit : ℕ
  pub wrapper_blocking : ℕ
  pub wrapper_keyboard : ℕ
  pub main : ℕ
  pub idle : ℕ
  pub stack_bottom : ℕ
  pub idle_task : ℕ
  pub page_queue : List ℕ

pub record Kernel : Type 0 where
  pub screen : Screen
  pub heap : BuddyHeap
  pub cpu : Cpu
  pub sched : Sched
  pub port_writes : List (ℕ × ℕ)
  pub timer_writes : List (ℕ × ℕ)

-- A pair around a critical section.
abbrev pub critical : Cpu → Cpu
critical c = enable_interrupts (disable_interrupts c)

-- The pairs of `scheduler_init`: around `list_add` and in `register_idle_task`, inside its own.
abbrev pub scheduler_init_pairs : Cpu → Cpu
scheduler_init_pairs c = enable_interrupts (critical (critical (disable_interrupts c)))

-- `memory_map` and `store` are what the boot loader and the machine leave in memory, `comtest` is what
-- the serial port reads back.
unfoldable pub kernel_start :
    Addresses → List AddressRange → (store : Store) → (comtest : ℕ) → Kernel → Kernel
kernel_start a memory_map store comtest k =
    let console = serial_init comtest (record {
      cpu = interrupt_init a.spurious k.cpu;
      screen = cls k.screen;
      port_writes = k.port_writes;
    }) in
    let machine =
      time_init a.wrapper_pit a.wrapper_blocking
        (record { sched = k.sched; cpu = console.cpu; timer_writes = k.timer_writes }) in
    let cpu = scheduler_init_pairs (keyboard_init a.wrapper_keyboard machine.cpu) in
    let sched =
      scheduler_init a.main a.idle a.stack_bottom a.idle_task a.page_queue machine.sched in
    record {
      screen = console.screen;
      heap = memory_init memory_map store;
      cpu = critical cpu;
      sched = scheduler_start sched;
      port_writes = console.port_writes;
      timer_writes = machine.timer_writes;
    }
