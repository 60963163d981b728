-- ===== src/Output/Serial.antt =====
-- source/kernel/serial.c: the serial line COM1. `status` is what the port says of the line, by the
-- reads of it; the line has the characters sent, in order, and counts the reads.
use Prim.Native.Nat.{bit_and}
use kernel_on_qemu.Prelude.{
  ℕ, zero, suc, ◌+◌, ◌/◌, ◌%◌, ◌^◌, true, false, Option, none, some, ◌>>=◌, List, [], ◌∷◌, ◌++◌,
  String, codes, ◌==◌,
}
use kernel_on_qemu.Words.{u8, u16}
use kernel_on_qemu.Bytes.{Bytes}
use kernel_on_qemu.Text.{strlen}
use kernel_on_qemu.Output.Screen.{hex_digit}

pub record Line : Type 0 where
  pub sent : List ℕ
  pub reads : ℕ

module _ (status : ℕ → ℕ) where
  -- The `t`-th read.
  unfoldable pub transmit_status : (t : ℕ) → ℕ
  transmit_status t = bit_and (status t) 0x20

  -- The wait for the line: the number of reads after it.
  unfoldable pub await_line : (fuel t : ℕ) → Option ℕ
  unfolding transmit_status
  await_line zero t = none
  await_line (suc fuel) t = elim (transmit_status t == 0) [
    | true ↦ await_line fuel (t + 1)
    | false ↦ some (t + 1)
  ]

  unfoldable pub serial_write_char : (fuel c : ℕ) → Line → Option Line
  unfolding await_line
  serial_write_char fuel c l =
      await_line fuel l.reads >>= λ t. some (record { sent = l.sent ++ (c ∷ []); reads = t })

  unfoldable pub serial_write_newline : (fuel : ℕ) → Line → Option Line
  unfolding serial_write_char
  serial_write_newline fuel = serial_write_char fuel 0xA

  unfoldable pub serial_write_byte : (fuel n8 : ℕ) → Line → Option Line
  unfolding serial_write_char hex_digit
  serial_write_byte fuel n8 l =
      let low_bits = hex_digit (n8 % 2 ^ 4) in
      let high_bits = hex_digit ((n8 / 2 ^ 4) % 2 ^ 4) in
      serial_write_char fuel high_bits l >>= serial_write_char fuel low_bits

  unfoldable pub serial_write_word : (fuel n16 : ℕ) → Line → Option Line
  unfolding serial_write_byte
  serial_write_word fuel n16 l =
      serial_write_byte fuel (u8 (n16 / 2 ^ 8)) l >>= serial_write_byte fuel (u8 n16)

  unfoldable pub serial_write_dword : (fuel n32 : ℕ) → Line → Option Line
  unfolding serial_write_word
  serial_write_dword fuel n32 l =
      serial_write_word fuel (u16 (n32 / 2 ^ 16)) l >>= serial_write_word fuel (u16 n32)

  -- The loop over the `n` characters from offset `p` of `m` on.
  unfoldable pub serial_write_chars : (fuel n : ℕ) → Bytes → (p : ℕ) → Line → Option Line
  unfolding serial_write_char
  serial_write_chars fuel zero m p l = some l
  serial_write_chars fuel (suc n) m p l =
      serial_write_char fuel (m p) l >>= serial_write_chars fuel n m (p + 1)

  -- `strlen` has as much fuel as each wait.
  unfoldable pub serial_write_string : (fuel : ℕ) → Bytes → (p : ℕ) → Line → Option Line
  unfolding serial_write_chars
  serial_write_string fuel m p l = strlen fuel m p >>= λ n. serial_write_chars fuel n m p l

  -- `serial_write_string` of a string that holds these characters.
  unfoldable pub serial_write_text : (fuel : ℕ) → List ℕ → Line → Option Line
  unfolding serial_write_char
  serial_write_text fuel [] l = some l
  serial_write_text fuel (c ∷ text) l = serial_write_char fuel c l >>= serial_write_text fuel text

  -- `serial_write_string` of a literal.
  unfoldable pub serial_write_literal : (fuel : ℕ) → String → Line → Option Line
  unfolding serial_write_text
  serial_write_literal fuel text = serial_write_text fuel (codes text)
