-- ===== src/Output/Devices.antt =====
-- The start of the serial line and the keyboard, and what the graphics card says: `serial_init` of source/kernel/serial.c, and
-- source/kernel/keyboard.c.
use kernel_on_qemu.Prelude.{ℕ, ◌+◌, List, ◌∷◌, ◌==◌, if◌then◌else◌}
use kernel_on_qemu.Words.{u16}
use kernel_on_qemu.Interrupt.{
  Cpu, disable_interrupts, enable_interrupts, register_interrupt, pic_line_enable,
}
use kernel_on_qemu.Output.Screen.{Screen, set_cell, print_byte, print_literal, print_newline}

abbrev pub port_com1 : ℕ
port_com1 = 0x3F8

-- What the port reads back in the loopback test, where it works.
abbrev pub comtest_answer : ℕ
comtest_answer = 0xAE

-- The processor, the screen, and the bytes written to the ports of the line, each with its port, the
-- last one first.
pub record Console : Type 0 where
  pub cpu : Cpu
  pub screen : Screen
  pub port_writes : List (ℕ × ℕ)

-- The writes up to the loopback test.
unfoldable pub serial_setup : List (ℕ × ℕ) → List (ℕ × ℕ)
serial_setup writes =
    (port_com1 + 0, 0xAE)
    ∷ (port_com1 + 4, 0x1E)
    ∷ (port_com1 + 4, 0x0B)
    ∷ (port_com1 + 2, 0xC7)
    ∷ (port_com1 + 3, 0x03)
    ∷ (port_com1 + 1, 0x00)
    ∷ (port_com1 + 0, 0x03)
    ∷ (port_com1 + 3, 0x80)
    ∷ (port_com1 + 1, 0x00)
    ∷ writes

-- `comtest` is what the port reads back.
unfoldable pub serial_init : (comtest : ℕ) → Console → Console
unfolding disable_interrupts enable_interrupts serial_setup print_literal print_newline
serial_init comtest c =
    let c1 = disable_interrupts c.cpu in
    let writes = serial_setup c.port_writes in
    if comtest == comtest_answer
    then record c { cpu = enable_interrupts c1; port_writes = (port_com1 + 4, 0x0F) ∷ writes }
    else record {
      cpu = c1;
      screen = print_newline (print_literal "Serial COM1 failed loopback test." c.screen);
      port_writes = writes;
    }

unfoldable pub keyboard_init : (wrapper_keyboard : ℕ) → Cpu → Cpu
unfolding register_interrupt pic_line_enable
keyboard_init wrapper_keyboard c = pic_line_enable 0x1 (register_interrupt wrapper_keyboard 0x1 c)

-- The key is read and dropped; the last cell of the first row counts, and the controller gets the
-- end of the interrupt. The second part is the writes to its ports, the last one first.
unfoldable pub interrupt_function_keyboard : Screen × List (ℕ × ℕ) → Screen × List (ℕ × ℕ)
interrupt_function_keyboard (s, writes) =
    (record s { cells = set_cell s.cells 0x4F (u16 (s.cells 0x4F + 1)) }, (0x20, 0x20) ∷ writes)

-- `misc_output`, `graphics_address` and `graphics_mode` are what the ports of the card give; the
-- `sleep` behind each read is left out.
unfoldable pub vga_init : (misc_output graphics_address graphics_mode : ℕ) → Screen → Screen
vga_init misc_output graphics_address graphics_mode s =
    let s1 = print_newline (print_byte misc_output (print_literal "MISC OUTPUT register: 0x" s)) in
    let s2 =
      print_newline
        (print_byte graphics_address (print_literal "GRAPHICS ADDRESS register: 0x" s1)) in
    print_newline (print_byte graphics_mode (print_literal "GRAPHICS MODE register: 0x" s2))
