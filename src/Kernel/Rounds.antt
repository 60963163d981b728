-- ===== src/Kernel/Rounds.antt =====
-- The loops of source/kernel/kernel.c that do not end, a round each, without the `sleep` behind it.
use kernel_on_qemu.Prelude.{ℕ, ◌+◌, [], ◌∷◌}
use kernel_on_qemu.Words.{u16, u32}
use kernel_on_qemu.Output.Screen.{
  Screen, vga_width, set_cell, print_dword, print_literal, print_newline,
}
use kernel_on_qemu.Reports.Lists.{print_all}

unfoldable pub second_task_round : (value : ℕ) → Screen → Screen
second_task_round value =
    print_all (print_literal "Second task! " ∷ print_dword (u32 value) ∷ print_newline ∷ [])

unfoldable pub third_task_round : Screen → Screen
third_task_round = print_all (print_literal "Third task?" ∷ print_newline ∷ [])

-- The last loop of `kernel_main`: the last cell of the second row counts.
unfoldable pub kernel_main_round : Screen → Screen
kernel_main_round s = record s {
  cells = set_cell s.cells (vga_width + 0x4F) (u16 (s.cells (vga_width + 0x4F) + 1));
}
