-- ===== src/Kernel/Started.antt =====
-- The state in which source/kernel/kernel.c has started the kernel.
use kernel_on_qemu.Prelude.{
  [], ℕ, ◌+◌, ◌<◌, ◌^◌, ◌≡◌, ◌≢◌, refl, ◌∙◌, true, false, List, arith, ◌==◌, if◌then◌else◌,
}
use kernel_on_qemu.Interrupt.{
  Cpu, pic1_data, pic2_data, disable_interrupts, enable_interrupts, register_interrupt,
  register_software_interrupt, pic_line_enable, interrupt_init, load_idtr, pic_init,
}
use kernel_on_qemu.Output.Screen.{cls}
use kernel_on_qemu.Interrupt.Gates.{handler}
use kernel_on_qemu.Memory.{AddressRange, Store}
use kernel_on_qemu.Scheduler.{scheduler_start}
use kernel_on_qemu.Scheduler.Invariant.{IsValid}
use kernel_on_qemu.Time.Steps.{scheduler_init-IsValid}
use kernel_on_qemu.Output.Devices.{Console, comtest_answer, serial_init, keyboard_init}
use kernel_on_qemu.Kernel.Start.{Addresses, Kernel, kernel_start, scheduler_init_pairs}
use kernel_on_qemu.Time.Start.{Machine, time_init}

-- Interrupts have been disabled `n` times, and are on exactly if that is 0.
abbrev pub Nested : Cpu → (n : ℕ) → Type 0
Nested c n = (c.disable_counter ≡ n) × (c.interrupt_flag ≡ (n == 0))

-- What leaves the counter and the flag as they are, between a pair.
critical-Nested :
    (n : ℕ) (c d : Cpu)
    → n + 1 < 2 ^ 32
    → c.disable_counter ≡ n
    → d.disable_counter ≡ (disable_interrupts c).disable_counter
    → d.interrupt_flag ≡ (disable_interrupts c).interrupt_flag
    → Nested (enable_interrupts d) n
unfolding disable_interrupts enable_interrupts
critical-Nested n c d room e counter flag = (ground arith, ground arith)

register_interrupt-Nested :
    (n offset line : ℕ) (c : Cpu)
    → n + 1 < 2 ^ 32
    → c.disable_counter ≡ n
    → Nested (register_interrupt offset line c) n
unfolding register_interrupt
register_interrupt-Nested n offset line c room e = (ground arith, ground arith)

register_software_interrupt-Nested :
    (n offset line : ℕ) (c : Cpu)
    → n + 1 < 2 ^ 32
    → c.disable_counter ≡ n
    → Nested (register_software_interrupt offset line c) n
unfolding register_software_interrupt
register_software_interrupt-Nested n offset line c room e = (ground arith, ground arith)

pic_line_enable-counter :
    (line : ℕ) (c : Cpu) → (pic_line_enable line c).disable_counter ≡ c.disable_counter
unfolding pic_line_enable
pic_line_enable-counter line c = ground arith

interrupt_init-Nested :
    (spurious : ℕ) (c : Cpu) → c.disable_counter ≡ 0 → Nested (interrupt_init spurious c) 0
unfolding interrupt_init load_idtr pic_init enable_interrupts
interrupt_init-Nested spurious c e =
    register_interrupt-Nested 0 spurious 0x7 (enable_interrupts (pic_init (load_idtr c)))
      (omega arith) (ground arith)

time_init-Nested :
    (n wrapper_pit wrapper_blocking : ℕ) (m : Machine)
    → n + 1 < 2 ^ 32
    → m.cpu.disable_counter ≡ n
    → Nested (time_init wrapper_pit wrapper_blocking m).cpu n
unfolding time_init
time_init-Nested n wrapper_pit wrapper_blocking m room e =
    let c1 = enable_interrupts (disable_interrupts m.cpu) in
    let n1 = critical-Nested n m.cpu (disable_interrupts m.cpu) room e refl refl in
    let c2 = register_interrupt wrapper_pit 0x0 c1 in
    let n2 = register_interrupt-Nested n wrapper_pit 0x0 c1 room n1.0 in
    register_software_interrupt-Nested n wrapper_blocking 0x80 (pic_line_enable 0x0 c2) room
      (pic_line_enable-counter 0x0 c2 ∙ n2.0)

keyboard_init-counter :
    (n wrapper_keyboard : ℕ) (c : Cpu)
    → n + 1 < 2 ^ 32
    → c.disable_counter ≡ n
    → (keyboard_init wrapper_keyboard c).disable_counter ≡ n
unfolding keyboard_init
keyboard_init-counter n wrapper_keyboard c room e =
    pic_line_enable-counter 0x1 (register_interrupt wrapper_keyboard 0x1 c)
    ∙ (register_interrupt-Nested n wrapper_keyboard 0x1 c room e).0

scheduler_init_pairs-counter :
    (n : ℕ) (c : Cpu)
    → n + 2 < 2 ^ 32
    → c.disable_counter ≡ n
    → (scheduler_init_pairs c).disable_counter ≡ n
unfolding disable_interrupts enable_interrupts
scheduler_init_pairs-counter n c room e = ground arith

-- The serial line leaves interrupts disabled where the loopback test fails.
serial_init-Nested :
    (comtest : ℕ) (c : Console)
    → Nested c.cpu 0
    → Nested (serial_init comtest c).cpu (if comtest == comtest_answer then 0 else 1)
unfolding serial_init
serial_init-Nested comtest c (e, on) = (ground arith, ground arith)

-- The wrappers are at addresses of 32 bits.
pub record AreWords (a : Addresses) : Type 0 where
  pub spurious : a.spurious < 2 ^ 32
  pub pit : a.wrapper_pit < 2 ^ 32
  pub blocking : a.wrapper_blocking < 2 ^ 32
  pub keyboard : a.wrapper_keyboard < 2 ^ 32

module _ (a : Addresses) (memory_map : List AddressRange) (store : Store) (comtest : ℕ) (k : Kernel)
    (words : AreWords a) (nothing : k.cpu.disable_counter ≡ 0) where
  abbrev started : Kernel
  started = kernel_start a memory_map store comtest k

  abbrev console : Console
  console = serial_init comtest (record {
    cpu = interrupt_init a.spurious k.cpu;
    screen = cls k.screen;
    port_writes = k.port_writes;
  })

  abbrev machine : Machine
  machine =
      time_init a.wrapper_pit a.wrapper_blocking
        (record { sched = k.sched; cpu = console.cpu; timer_writes = k.timer_writes })

  -- The number of pairs left open: one where the loopback test fails.
  abbrev open_pairs : ℕ
  open_pairs = if comtest == comtest_answer then 0 else 1

  -- What follows the serial line keeps the counter, and turns interrupts on where it is 0.
  nesting : Nested started.cpu open_pairs
  unfolding kernel_start
  nesting =
      let small : open_pairs < 2 = ground arith in
      let (line, _) =
        serial_init-Nested comtest
          (record {
            cpu = interrupt_init a.spurious k.cpu;
            screen = cls k.screen;
            port_writes = k.port_writes;
          })
          (interrupt_init-Nested a.spurious k.cpu nothing) in
      let (timed, _) =
        time_init-Nested open_pairs a.wrapper_pit a.wrapper_blocking
          (record { sched = k.sched; cpu = console.cpu; timer_writes = k.timer_writes })
          (omega arith) line in
      let keyed =
        keyboard_init-counter open_pairs a.wrapper_keyboard machine.cpu (omega arith) timed in
      let cpu = keyboard_init a.wrapper_keyboard machine.cpu in
      let paired = scheduler_init_pairs-counter open_pairs cpu (omega arith) keyed in
      critical-Nested open_pairs (scheduler_init_pairs cpu)
        (disable_interrupts (scheduler_init_pairs cpu)) (omega arith) paired refl refl

  gates :
      (handler started.cpu 0x20 ≡ a.wrapper_pit)
      × (handler started.cpu 0x21 ≡ a.wrapper_keyboard)
      × (handler started.cpu 0x27 ≡ a.spurious)
      × (handler started.cpu 0x80 ≡ a.wrapper_blocking)
  unfolding kernel_start interrupt_init load_idtr pic_init serial_init time_init keyboard_init
      disable_interrupts enable_interrupts
  gates = (ground arith, ground arith, ground arith, ground arith)

  lines : (started.cpu.masks pic1_data ≡ 0xF8) × (started.cpu.masks pic2_data ≡ 0xFF)
  unfolding kernel_start interrupt_init load_idtr pic_init serial_init time_init keyboard_init
      disable_interrupts enable_interrupts
  lines = (ground arith, ground arith)

  -- After the start, from a counter of 0 and with wrappers at addresses of 32 bits, the four
  -- interrupts reach their wrappers, and only the lines 0, 1 and 2 of the first controller are let
  -- through; the scheduler runs and keeps its invariant, where the page that kalloc
  -- returns for the task queue holds zeros, no task structure is marked as queued before and the first task is not the idle task. Interrupts are on with a counter of 0 if the
  -- serial port answers the loopback test, and otherwise off with a counter of 1.
  pub kernel_start_lem :
      a.main ≢ a.idle
      → a.page_queue ≡ []
      → ((t : ℕ) → (k.sched.tasks t).on_task_queue ≡ false)
      → let k' = kernel_start a memory_map store comtest k in
        ((handler k'.cpu 0x20 ≡ a.wrapper_pit)
          × (handler k'.cpu 0x21 ≡ a.wrapper_keyboard)
          × (handler k'.cpu 0x27 ≡ a.spurious)
          × (handler k'.cpu 0x80 ≡ a.wrapper_blocking))
        × ((k'.cpu.masks pic1_data ≡ 0xF8) × (k'.cpu.masks pic2_data ≡ 0xFF))
        × ((k'.sched.running ≡ true) × IsValid k'.sched)
        × ((k'.cpu.disable_counter ≡ (if comtest == comtest_answer then 0 else 1))
            × (k'.cpu.interrupt_flag ≡ (comtest == comtest_answer)))
  unfolding kernel_start scheduler_start time_init
  kernel_start_lem ne zeros clear =
      let v =
        scheduler_init-IsValid a.main a.idle a.stack_bottom a.idle_task a.page_queue machine.sched
          ne zeros clear in
      let (counter, flag) = nesting in
      (
        gates,
        lines,
        (refl, record { nodup = v.nodup; flags = v.flags; ready = v.ready; asleep = v.asleep }),
        (counter, flag ∙ ground arith),
      )
