-- ===== src/Output/Screen.antt =====
-- source/kernel/print.c. The screen is the array at `g_VGABuffer`, by cells, with the two counters of
-- source/kernel/kernel.c.
use kernel_on_qemu.Prelude.{
  ℕ, zero, suc, ◌+◌, ◌*◌, ◌/◌, ◌%◌, ◌^◌, Option, List, [], ◌∷◌, String, codes, ltb, ◌==◌,
  if◌then◌else◌,
}
use mathlib.Core.Option
use kernel_on_qemu.Words.{u8, u16, u32}
use kernel_on_qemu.Bytes.{Bytes}
use kernel_on_qemu.Text.{strlen}

abbrev pub vga_width : ℕ
vga_width = 0x50

abbrev pub vga_height : ℕ
vga_height = 0x19

pub record Screen : Type 0 where
  pub cells : ℕ → ℕ
  pub console_index : ℕ
  pub console_row : ℕ

-- `g_VGABuffer[index] = cell`
abbrev pub set_cell : (ℕ → ℕ) → (index cell : ℕ) → ℕ → ℕ
set_cell cells index cell x = if x == index then cell else cells x

-- A cell at the counter, which moves on.
abbrev pub put_cell : (cell : ℕ) → Screen → Screen
put_cell cell s = record s {
  cells = set_cell s.cells s.console_index cell;
  console_index = u32 (s.console_index + 1);
}

-- `0x0F00 | c`: a character is signed, so one from 0x80 on sets the upper byte.
abbrev pub text_cell : (c : ℕ) → ℕ
text_cell c = if ltb c 0x80 then 0x0F00 + c else 0xFF00 + c

unfoldable pub hex_digit : (bits : ℕ) → ℕ
hex_digit bits = if ltb bits 0xA then u8 (bits + 0x30) else u8 (bits + 0x37)

unfoldable pub print_byte : (to_print : ℕ) → Screen → Screen
unfolding hex_digit
print_byte to_print s =
    let low_bits = hex_digit (to_print % 2 ^ 4) in
    let high_bits = hex_digit ((to_print / 2 ^ 4) % 2 ^ 4) in
    let cells = set_cell s.cells s.console_index (0x0F00 + high_bits) in
    record s {
      cells = set_cell cells (u32 (s.console_index + 1)) (0x0F00 + low_bits);
      console_index = u32 (s.console_index + 2);
    }

unfoldable pub print_word : (to_print : ℕ) → Screen → Screen
unfolding print_byte
print_word to_print s = print_byte (u8 to_print) (print_byte (u8 (to_print / 2 ^ 8)) s)

unfoldable pub print_dword : (to_print : ℕ) → Screen → Screen
unfolding print_word
print_dword to_print s = print_word (u16 to_print) (print_word (u16 (to_print / 2 ^ 16)) s)

unfoldable pub print_space : (space_len : ℕ) → Screen → Screen
print_space zero s = s
print_space (suc n) s = print_space n (put_cell 0x0F20 s)

-- The loop over the `n` characters from offset `p` of `m` on.
unfoldable pub print_chars : (n : ℕ) → Bytes → (p : ℕ) → Screen → Screen
print_chars zero m p s = s
print_chars (suc n) m p s = print_chars n m (p + 1) (put_cell (text_cell (m p)) s)

unfoldable pub print_string : (fuel : ℕ) → Bytes → (p : ℕ) → Screen → Option Screen
unfolding print_chars
print_string fuel m p s = Option.map (λ n. print_chars n m p s) (strlen fuel m p)

-- `print_string` of a string that holds these characters.
unfoldable pub print_text : List ℕ → Screen → Screen
print_text [] s = s
print_text (c ∷ l) s = print_text l (put_cell (text_cell c) s)

-- `print_string` of a literal.
unfoldable pub print_literal : String → Screen → Screen
unfolding print_text
print_literal text = print_text (codes text)

unfoldable pub print_newline : Screen → Screen
print_newline s =
    let row = u32 (s.console_row + 1) in
    record s { console_row = row; console_index = u32 (row * vga_width) }

-- The inner loop, for the `n` columns from `j` on, and the outer one, for the `n` rows from `i` on.
unfoldable pub clear_columns : (n i j : ℕ) → (ℕ → ℕ) → ℕ → ℕ
clear_columns zero i j cells = cells
clear_columns (suc n) i j cells =
    clear_columns n i (j + 1) (set_cell cells (i * vga_width + j) 0x0F20)

unfoldable pub clear_rows : (n i : ℕ) → (ℕ → ℕ) → ℕ → ℕ
unfolding clear_columns
clear_rows zero i cells = cells
clear_rows (suc n) i cells = clear_rows n (i + 1) (clear_columns vga_width i 0 cells)

unfoldable pub cls : Screen → Screen
unfolding clear_rows
cls s = record s { cells = clear_rows vga_height 0 s.cells }
