-- ===== src/Time/Start.antt =====
-- The start of interrupts and time, in the order of source/kernel/kernel.c: interrupt_init of
-- source/kernel/interrupt.c and time_init of source/kernel/time.c.
use kernel_on_qemu.Prelude.{ℕ, ◌/◌, ◌^◌, ◌<◌, ◌≡◌, ◌≢◌, refl, true, List, [], ◌∷◌, arith}
use kernel_on_qemu.Words.{u8}
use kernel_on_qemu.Tasks.{Sched}
use kernel_on_qemu.Interrupt.{
  Cpu, disable_interrupts, enable_interrupts, register_interrupt, register_software_interrupt,
  pic_line_enable, interrupt_init, pic1_data, pic2_data,
}
use kernel_on_qemu.Interrupt.Gates.{handler}

abbrev pub pit_reload_value : ℕ
pit_reload_value = 1193

-- What the start works on: the tasks, the processor, and the bytes written to the ports of the
-- timer, each with its port, the last one first.
pub record Machine : Type 0 where
  pub sched : Sched
  pub cpu : Cpu
  pub timer_writes : List (ℕ × ℕ)

unfoldable pub pit_init : List (ℕ × ℕ) → List (ℕ × ℕ)
pit_init writes =
    (0x40, u8 (pit_reload_value / 2 ^ 8)) ∷ (0x40, u8 pit_reload_value) ∷ (0x43, 0x36) ∷ writes

-- The page for the delta queue is taken as given: `kalloc` works on another state.
unfoldable pub time_init : (wrapper_pit wrapper_blocking : ℕ) → Machine → Machine
unfolding disable_interrupts enable_interrupts register_interrupt register_software_interrupt
    pic_line_enable pit_init
time_init wrapper_pit wrapper_blocking m =
    let c1 = enable_interrupts (disable_interrupts m.cpu) in
    let c2 = register_interrupt wrapper_pit 0x0 c1 in
    let c3 = pic_line_enable 0x0 c2 in
    record {
      sched = record (m.sched) { delta_queue = [] };
      cpu = register_software_interrupt wrapper_blocking 0x80 c3;
      timer_writes = pit_init m.timer_writes;
    }

-- After interrupt_init and time_init, from a counter of 0 and with handlers at addresses of 32 bits,
-- the interrupts 0x20, 0x27 and 0x80 reach the timer, the spurious and the blocking handler, all other
-- gates are as before, interrupts are on with a counter of 0, no task sleeps, and the controllers
-- hold back every line but 0 and 2 of the first.
pub time_init-interrupt_init :
    (spurious wrapper_pit wrapper_blocking : ℕ) (m : Machine)
    → spurious < 2 ^ 32
    → wrapper_pit < 2 ^ 32
    → wrapper_blocking < 2 ^ 32
    → m.cpu.disable_counter ≡ 0
    → let m' =
        time_init wrapper_pit wrapper_blocking (record m { cpu = interrupt_init spurious m.cpu }) in
      (handler m'.cpu 0x20 ≡ wrapper_pit)
      × (handler m'.cpu 0x27 ≡ spurious)
      × (handler m'.cpu 0x80 ≡ wrapper_blocking)
      × ((n : ℕ) → n ≢ 0x20 → n ≢ 0x27 → n ≢ 0x80 → m'.cpu.idt n ≡ m.cpu.idt n)
      × (m'.cpu.disable_counter ≡ 0)
      × (m'.cpu.interrupt_flag ≡ true)
      × (m'.sched.delta_queue ≡ [])
      × (m'.cpu.masks pic1_data ≡ 0xFA)
      × (m'.cpu.masks pic2_data ≡ 0xFF)
unfolding time_init interrupt_init
time_init-interrupt_init spurious wrapper_pit wrapper_blocking m h1 h2 h3 z = (
  ground arith,
  ground arith,
  ground arith,
  λ n a b c. ground arith,
  ground arith,
  ground arith,
  refl,
  refl,
  refl,
)
