-- ===== src/Interrupt.antt =====
-- source/kernel/interrupt.c: the nesting of disabled interrupts, the interrupt descriptor table and
-- the masks of the two interrupt controllers.
pub mod Nesting
pub mod Gates
use Prim.Native.Nat.{bit_and}
use kernel_on_qemu.Prelude.{
  ℕ, ◌+◌, ◌-◌, ◌*◌, ◌/◌, ◌%◌, ◌^◌, Bool, true, false, List, [], ◌∷◌, ltb, ◌==◌, if◌then◌else◌,
}
use kernel_on_qemu.Words.{u8, u16, u32}

-- IDT_ENTRY
pub record IdtEntry : Type 0 where
  pub offset_1 : ℕ
  pub segment_selector : ℕ
  pub reserved : ℕ
  pub type : ℕ
  pub offset_2 : ℕ

-- The state: `g_interrupt_disable_counter`, the processor's interrupt flag, the table at
-- `g_IDTPtr` by entries, the table register (limit and address), the mask registers of the
-- controllers by their ports, and the bytes written to the controllers before the masks, each with
-- its port, the last one first.
pub record Cpu : Type 0 where
  pub disable_counter : ℕ
  pub interrupt_flag : Bool
  pub idt : ℕ → IdtEntry
  pub idtr : ℕ × ℕ
  pub masks : ℕ → ℕ
  pub command_writes : List (ℕ × ℕ)

abbrev pub pic1_data : ℕ
pic1_data = 0x21

abbrev pub pic2_data : ℕ
pic2_data = 0xA1

unfoldable pub disable_interrupts : Cpu → Cpu
disable_interrupts c = record c {
  interrupt_flag = false;
  disable_counter = u32 (c.disable_counter + 1);
}

unfoldable pub enable_interrupts : Cpu → Cpu
enable_interrupts c =
    let n = if ltb 0 c.disable_counter then c.disable_counter - 1 else c.disable_counter in
    record c { disable_counter = n; interrupt_flag = if n == 0 then true else c.interrupt_flag }

-- The gate of a handler at the address `interrupt_offset`.
unfoldable pub gate : ℕ → IdtEntry
gate interrupt_offset = record {
  offset_1 = u16 interrupt_offset;
  offset_2 = u16 (interrupt_offset / 2 ^ 16);
  segment_selector = 8;
  reserved = 0;
  type = 0x8E;
}

abbrev pub set_gate : (ℕ → IdtEntry) → ℕ → IdtEntry → ℕ → IdtEntry
set_gate idt n g k = if k == n then g else idt k

unfoldable pub register_software_interrupt : (interrupt_offset line : ℕ) → Cpu → Cpu
unfolding disable_interrupts enable_interrupts gate
register_software_interrupt interrupt_offset line c =
    let c' = disable_interrupts c in
    enable_interrupts (record c' { idt = set_gate c'.idt line (gate interrupt_offset) })

unfoldable pub register_interrupt : (interrupt_offset line : ℕ) → Cpu → Cpu
unfolding disable_interrupts enable_interrupts gate
register_interrupt interrupt_offset line c =
    let c' = disable_interrupts c in
    enable_interrupts (record c' { idt = set_gate c'.idt (0x20 + line) (gate interrupt_offset) })

-- `iowriteb` to a mask register.
abbrev pub set_mask : (ℕ → ℕ) → ℕ → ℕ → ℕ → ℕ
set_mask masks port v p = if p == port then v else masks p

-- `pic_mask & ~(1 << line_shift)`, as a byte: the complement is that of a 32-bit word.
unfoldable pub clear_bit : (mask shift : ℕ) → ℕ
clear_bit mask shift = u8 (bit_and mask (2 ^ 32 - 1 - u32 (2 ^ shift)))

unfoldable pub pic_line_enable : (line : ℕ) → Cpu → Cpu
unfolding clear_bit
pic_line_enable line c =
    if ltb 8 line
    then record c {
      masks = set_mask c.masks pic2_data (clear_bit (c.masks pic2_data) (u8 (line - 8)));
    }
    else record c { masks = set_mask c.masks pic1_data (clear_bit (c.masks pic1_data) (u8 line)) }

abbrev pub g_idt_ptr : ℕ
g_idt_ptr = 0x70000

unfoldable pub load_idtr : Cpu → Cpu
load_idtr c = record c { idtr = (0x7FF, g_idt_ptr) }

-- The command words, and then the masks: all lines but that of the second controller.
unfoldable pub pic_init : Cpu → Cpu
pic_init c = record c {
  command_writes =
      (0xA1, 0x01)
      ∷ (0x21, 0x01)
      ∷ (0xA1, 0x02)
      ∷ (0x21, 0x04)
      ∷ (0xA1, 0x28)
      ∷ (0x21, 0x20)
      ∷ (0xA0, 0x11)
      ∷ (0x20, 0x11)
      ∷ c.command_writes;
  masks = set_mask (set_mask c.masks pic1_data 0xFB) pic2_data 0xFF;
}

unfoldable pub interrupt_init : (spurious : ℕ) → Cpu → Cpu
unfolding load_idtr pic_init enable_interrupts register_interrupt
interrupt_init spurious c =
    register_interrupt spurious 0x7 (enable_interrupts (pic_init (load_idtr c)))
